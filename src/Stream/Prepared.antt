-- ===== src/Stream/Prepared.antt =====
-- `feedFolded` of pkg/engine/stream.go against `prepare` of pkg/engine/engine.go.
use jsonize.Prelude.{
  ◌-◌, length, ℕ, ◌≡◌, refl, ap, ◌∙◌, sym, Bool, true, false, not, ◌&&◌, ◌||◌, List, [], ◌∷◌, ◌++◌,
  Option, none, some, Text, Bool-cases, Option-cases, inl, inr, arith, append_assoc, append-nil,
  if◌then◌else◌,
}
use jsonize.Space.{blank}
use jsonize.Engine.Line.{Line}
use jsonize.Engine.Prepare.{
  Sweep, edge_blank, first_matching, drop_lead, drop_trail, sweep_line, sweep, prepare, is_empty,
  zeros,
}
use jsonize.Stream.Stages.{matches_any}

is_empty-nil {ℓ} : {A : Type ℓ} (xs : List A) → is_empty xs ≡ true → xs ≡ []
is_empty-nil [] h = refl
is_empty-nil (x ∷ xs) h = cc

module _ (ignore : List (Text → Bool)) where
  abbrev pub kept_by : Bool → Line → Bool
  kept_by skip l = not (skip && blank l.text) && not (matches_any ignore l.text)

  unfoldable pub kept : Bool → List Line → List Line
  kept skip [] = []
  kept skip (l ∷ ls) = if kept_by skip l then l ∷ kept skip ls else kept skip ls

  -- The lines that are handed on from here; `es` are the empty ones held back.
  unfoldable pub handed : Bool → List Line → Bool → List Line → List Line
  handed skip es text [] = []
  handed skip es text (l ∷ ls) =
      let dropped = handed skip es text ls in
      let held = handed skip (es ++ l ∷ []) text ls in
      let passed = handed skip [] true ls in
      if edge_blank l.text skip
      then (if skip || not text then dropped else held)
      else kept false es ++ (kept false (l ∷ []) ++ passed)

  matches_any-first :
      (res : List (Text → Bool)) (t : Text) (o : Option ℕ)
      → first_matching res t ≡ o
      → matches_any res t ≡ (elim o [ none ↦ false | some _ ↦ true ])
  unfolding matches_any first_matching
  matches_any-first [] t none h = refl
  matches_any-first [] t (some i) h = ground arith
  matches_any-first (re ∷ res) t none h = ground (arith, matches_any-first res t none)
  matches_any-first (re ∷ res) t (some i) h = elim (Option-cases (first_matching res t)) [
    | inl e ↦ ground (arith, matches_any-first res t none)
    | inr (j, e) ↦ ground (arith, matches_any-first res t (some j))
  ]

  sweep-kept :
      (skip : Bool) (ls : List Line) (s : Sweep)
      → (sweep skip ignore ls s).out ≡ s.out ++ kept skip ls
  unfolding sweep sweep_line kept
  sweep-kept skip [] s = sym (append-nil s.out)
  sweep-kept skip (l ∷ ls) s =
      let next = sweep-kept skip ls (sweep_line skip ignore l s) in
      elim (Option-cases (first_matching ignore l.text)) [
        | inl e ↦ ground (
          arith,
          next,
          append_assoc s.out (l ∷ []) (kept skip ls),
          matches_any-first ignore l.text none e,
        )
        | inr (i, e) ↦ ground (arith, next, matches_any-first ignore l.text (some i) e)
      ]

  kept-all : (ls : List Line) → ignore ≡ [] → kept false ls ≡ ls
  unfolding kept matches_any
  kept-all [] h = refl
  kept-all (l ∷ ls) h = rw (h, kept) (ap (λ t. l ∷ t) (kept-all ls h))

  swept :
      (skip : Bool) (ls : List Line)
      → (sweep skip ignore (drop_trail skip (drop_lead skip ls)) (record {
        blanks = length ls - length (drop_trail skip (drop_lead skip ls));
        counts = zeros ignore;
        out = [];
      })).out
        ≡ kept skip (drop_trail skip (drop_lead skip ls))
  swept skip ls = sweep-kept skip (drop_trail skip (drop_lead skip ls)) (record {
    blanks = length ls - length (drop_trail skip (drop_lead skip ls));
    counts = zeros ignore;
    out = [];
  })

  prepare-kept :
      (skip : Bool) (ls : List Line)
      → (prepare skip ignore ls).kept ≡ kept skip (drop_trail skip (drop_lead skip ls))
  unfolding prepare
  prepare-kept false ls = elim (Bool-cases (is_empty ignore)) [
    | inl e ↦
        let body = drop_trail false (drop_lead false ls) in
        ground (arith, kept-all body (is_empty-nil ignore e))
    | inr e ↦ ground (arith, swept false ls)
  ]
  prepare-kept true ls = elim (Bool-cases (is_empty ignore)) [
    | inl e ↦ ground (arith, swept true ls)
    | inr e ↦ ground (arith, swept true ls)
  ]

  handed-lead :
      (skip : Bool) (ls : List Line)
      → handed skip [] false ls ≡ handed skip [] false (drop_lead skip ls)
  unfolding handed drop_lead
  handed-lead skip [] = refl
  handed-lead skip (l ∷ ls) = ground (arith, handed-lead skip ls)

  -- what is handed on of a body, with the empty lines held back in front of it
  abbrev behind : List Line → Bool → List Line → List Line
  behind es skip [] = []
  behind es skip (l ∷ ls) = kept false es ++ kept skip (l ∷ ls)

  kept-append : (a b : List Line) → kept false (a ++ b) ≡ kept false a ++ kept false b
  unfolding kept
  kept-append [] b = refl
  kept-append (l ∷ a) b = ground (arith, kept-append a b)

  kept-cons :
      (l : Line) (ls : List Line) → kept false (l ∷ ls) ≡ kept false (l ∷ []) ++ kept false ls
  kept-cons l ls = kept-append (l ∷ []) ls

  behind-held :
      (es rest : List Line) (l : Line)
      → behind (es ++ l ∷ []) false rest
        ≡ (if is_empty rest then [] else kept false es ++ kept false (l ∷ rest))
  behind-held es [] l = refl
  behind-held es (r ∷ rest) l =
      ap (λ t. t ++ kept false (r ∷ rest)) (kept-append es (l ∷ []))
      ∙ append_assoc (kept false es) (kept false (l ∷ [])) (kept false (r ∷ rest))
      ∙ ap (λ t. kept false es ++ t) (sym (kept-cons l (r ∷ rest)))

  behind-none : (rest : List Line) → behind [] false rest ≡ kept false rest
  behind-none [] = unfold kept in refl
  behind-none (r ∷ rest) = unfold kept in refl

  handed-body :
      (es ls : List Line) → handed false es true ls ≡ behind es false (drop_trail false ls)
  unfolding handed drop_trail
  handed-body es [] = refl
  handed-body es (l ∷ ls) = elim (Bool-cases (edge_blank l.text false)) [
    | inl e ↦
        rw e (handed-body (es ++ l ∷ []) ls ∙ behind-held es (drop_trail false ls) l ∙ ground arith)
    | inr e ↦ rw e (
        ap (λ t. kept false es ++ (kept false (l ∷ []) ++ t))
          (handed-body [] ls ∙ behind-none (drop_trail false ls))
        ∙ ap (λ t. kept false es ++ t) (sym (kept-cons l (drop_trail false ls))))
  ]

  handed-skip : (ls : List Line) → handed true [] true ls ≡ kept true (drop_trail true ls)
  unfolding handed drop_trail kept edge_blank
  handed-skip [] = refl
  handed-skip (l ∷ ls) = ground (arith, handed-skip ls)

  -- Before the text the lines dropped are those in front of it; behind it starts the body.
  handed-started :
      (skip : Bool) (ls : List Line)
      → handed skip [] false (drop_lead skip ls) ≡ handed skip [] true (drop_lead skip ls)
  unfolding handed drop_lead
  handed-started skip [] = refl
  handed-started skip (l ∷ ls) = ground (arith, handed-started skip ls)

  pub handed-prepare :
      (skip : Bool) (ls : List Line) → handed skip [] false ls ≡ (prepare skip ignore ls).kept
  handed-prepare true ls =
      handed-lead true ls
      ∙ handed-started true ls
      ∙ handed-skip (drop_lead true ls)
      ∙ sym (prepare-kept true ls)
  handed-prepare false ls =
      handed-lead false ls
      ∙ handed-started false ls
      ∙ handed-body [] (drop_lead false ls)
      ∙ behind-none (drop_trail false (drop_lead false ls))
      ∙ sym (prepare-kept false ls)
