-- ===== src/Selector/Search.antt =====
-- pkg/selector/selector.go: what a search that names no variant comes to, by the definitions that fit.
use jsonize.Prelude.{
  inl, inr, ◌∙◌, sym, ap, subst, ◌≡◌, ◌≤◌, refl, arith, ℕ, Bool, true, false, not, ◌&&◌, ◌||◌, List,
  [], ◌∷◌, ◌++◌, none, some, Text, length, append_assoc, append-nil, if◌then◌else◌, Bool-cases,
  Option-cases,
}
use jsonize.Selector.{Entry, is_nil, explicit_only, shape_only, unsigned, Reason, Rejection}
use jsonize.Selector.Settle.{settle, settle_among, break_tie, most_preferred}
use jsonize.Selector.Best.{Wins, settle-Wins}
use jsonize.Selector.Check.{Context, Verdict, ok, check}
use jsonize.Selector.Scan.{
  Match, Scan, Selection, chosen, failed, no_match, ambiguous, variant_without_parser,
  unknown_parser, unknown_variant, mismatch, reject, held_back, unclaimed, leave_out, consider,
  scan_entry, scan_entries, entries, result_of, nothing_found, conclude, search, with_claims,
}

-- A candidate that is looked at and fits: one that is only used when named stays out of a search of the
-- whole registry, and one that claims nothing out of a search where others make a claim.
unfoldable pub fits : Context → List Text → Bool → Entry → Bool
fits ctx lines claims e =
    not (is_nil ctx.parser && explicit_only e.def)
    && (not (claims && shape_only e.def) && ok (check ctx lines e))

unfoldable pub fitting : Context → List Text → Bool → List Entry → List Entry
unfolding fits
fitting ctx lines claims [] = []
fitting ctx lines claims (e ∷ es) =
    let rest = fitting ctx lines claims es in if fits ctx lines claims e then e ∷ rest else rest

entries-append : (xs ys : List Match) → entries (xs ++ ys) ≡ entries xs ++ entries ys
entries-append [] ys = refl
entries-append (m ∷ ms) ys = ap (◌∷◌ m.entry) (entries-append ms ys)

pick :
    (b : Bool) (e : Entry) (rest : List Entry)
    → (if b then e ∷ [] else []) ++ rest ≡ (if b then e ∷ rest else rest)
pick true e rest = refl
pick false e rest = refl

settle_among-preferred : (fit es : List Entry) → (settle_among fit es).preferred ≡ es
unfolding settle_among
settle_among-preferred fit [] = refl
settle_among-preferred fit (e ∷ []) = refl
settle_among-preferred fit (e ∷ f ∷ es) = elim (Option-cases (break_tie (e ∷ f ∷ es))) [
  | inl h ↦ rw (h, settle_among)
  | inr (b, h) ↦ rw (h, settle_among)
]

settle-preferred : (fit : List Entry) → (settle fit).preferred ≡ most_preferred fit
unfolding settle
settle-preferred fit = settle_among-preferred fit (most_preferred fit)

fits_named : Context → List Text → Entry → Bool
fits_named ctx lines e = not (unsigned e.def.detect.signature) && ok (check ctx lines e)

if-matched :
    (b : Bool) (x y : Scan) → x.matched ≡ y.matched → (if b then x else y).matched ≡ y.matched
if-matched true x y h = h
if-matched false x y h = refl

reject-matched : (r : Rejection) (sc : Scan) → (reject r sc).matched ≡ sc.matched
unfolding reject
reject-matched r sc = ground arith

held_back-matched :
    (ctx : Context) (lines : List Text) (e : Entry) (sc : Scan)
    → (held_back ctx lines e sc).matched ≡ sc.matched
unfolding held_back fits_named
held_back-matched ctx lines e sc = if-matched (sc.whole || fits_named ctx lines e) _ _ refl

unclaimed-matched : (e : Entry) (sc : Scan) → (unclaimed e sc).matched ≡ sc.matched
unfolding unclaimed
unclaimed-matched e sc = if-matched (sc.whole || false) _ _ refl

leave_out-matched :
    (ctx : Context) (e : Entry) (v : Verdict) (reason : Reason) (sc : Scan)
    → (leave_out ctx e v reason sc).matched ≡ sc.matched
unfolding leave_out
leave_out-matched ctx e v reason sc = reject-matched _ sc

consider-matched :
    (ctx : Context) (lines : List Text) (e : Entry) (sc : Scan)
    → entries (consider ctx lines e sc).matched
      ≡ entries sc.matched ++ (if ok (check ctx lines e) then e ∷ [] else [])
unfolding consider
consider-matched ctx lines e sc = elim (Option-cases (check ctx lines e).reason) [
  | inl h ↦ rw (h, consider) (entries-append sc.matched _)
  | inr (reason, h) ↦
      rw (h, consider)
        (ap entries (leave_out-matched ctx e (check ctx lines e) reason sc) ∙ sym (append-nil _))
]

scan_entry-matched :
    (ctx : Context) (lines : List Text) (claims : Bool) (e : Entry) (sc : Scan)
    → entries (scan_entry ctx lines claims e sc).matched
      ≡ entries sc.matched ++ (if fits ctx lines claims e then e ∷ [] else [])
unfolding scan_entry fits
scan_entry-matched ctx lines claims e sc =
    elim (Bool-cases (is_nil ctx.parser && explicit_only e.def)) [
      | inl x ↦
          rw (x, scan_entry) (ap entries (held_back-matched ctx lines e sc) ∙ sym (append-nil _))
      | inr x ↦ elim (Bool-cases (claims && shape_only e.def)) [
        | inl y ↦ rw (x, y, scan_entry) (ap entries (unclaimed-matched e sc) ∙ sym (append-nil _))
        | inr y ↦ rw (x, y, scan_entry) (consider-matched ctx lines e sc)
      ]
    ]

scan_entries-matched :
    (ctx : Context) (lines : List Text) (claims : Bool) (es : List Entry) (sc : Scan)
    → entries (scan_entries ctx lines claims es sc).matched
      ≡ entries sc.matched ++ fitting ctx lines claims es
unfolding scan_entries fitting
scan_entries-matched ctx lines claims [] sc = sym (append-nil _)
scan_entries-matched ctx lines claims (e ∷ es) sc =
    scan_entries-matched ctx lines claims es (scan_entry ctx lines claims e sc)
    ∙ ap (λ l. l ++ fitting ctx lines claims es) (scan_entry-matched ctx lines claims e sc)
    ∙ append_assoc (entries sc.matched) _ (fitting ctx lines claims es)
    ∙ ap (λ l. entries sc.matched ++ l) (pick (fits ctx lines claims e) e _)

-- What a selection says of the definitions that fit.
abbrev pub Reports : Selection → List Entry → Type 0
Reports (chosen r) fit = Wins r.entry fit
Reports (failed (no_match n)) fit = fit ≡ []
Reports (failed (ambiguous tied r n x)) fit =
    (tied ≡ most_preferred fit) × (2 ≤ length fit) × ((e : Entry) → Wins e fit → ⊥)
Reports (failed (variant_without_parser v)) fit = ⊥
Reports (failed (unknown_parser p known)) fit = ⊥
Reports (failed (unknown_variant p v known)) fit = ⊥
Reports (failed (mismatch e reason)) fit = ⊥

conclude-Reports :
    (ctx : Context) (lines : List Text) (n : ℕ) (sc : Scan) (ms : List Match)
    → Reports (conclude ctx lines n sc ms) (entries ms)
unfolding conclude nothing_found result_of
conclude-Reports ctx lines n sc [] = refl
conclude-Reports ctx lines n sc (m ∷ []) = inl (refl, tt)
conclude-Reports ctx lines n sc (m ∷ o ∷ ms) =
    let fit = entries (m ∷ o ∷ ms) in
    elim (Option-cases (settle fit).best) [
      | inr (b, h) ↦ rw (h, conclude) ((settle-Wins fit b).0 h)
      | inl h ↦
          rw (h, conclude)
            (
              settle-preferred fit,
              omega arith,
              λ e w. let bad : none ≡ some e = sym h ∙ (settle-Wins fit e).1 w in cc,
            )
    ]

-- A search that names no variant chooses the definition that wins among those that fit, reports that
-- nothing was found exactly where none of them fits, and otherwise names the ones that tie, of which
-- none wins.
pub search-Reports :
    (ctx : Context) (lines : List Text) (candidates : List Entry)
    → Reports
        (search ctx lines candidates)
        (fitting ctx lines (with_claims ctx candidates) candidates)
unfolding search
search-Reports ctx lines candidates =
    subst (Reports (search ctx lines candidates))
      (scan_entries-matched ctx lines (with_claims ctx candidates) candidates _)
      (conclude-Reports ctx lines (length candidates) _ _)
