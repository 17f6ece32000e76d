-- ===== src/Engine/Prepare.antt =====
-- pkg/engine/engine.go, `prepare`: blank lines and the lines that input.ignore names are dropped, and
-- counted. An ignore expression is a test on texts.
use jsonize.Prelude.{
  ℕ, zero, suc, ◌+◌, ◌-◌, ◌≤◌, ◌<◌, ◌≡◌, refl, Bool, true, false, not, ◌&&◌, List, [], ◌∷◌, ◌++◌,
  Option, none, some, Text, arith, length, length-concat, if◌then◌else◌, ltb, Option-cases, inl,
  inr,
}
use jsonize.Space.{blank}
use jsonize.Engine.Line.{Line}

abbrev pub is_empty {ℓ} : {A : Type ℓ} → List A → Bool
is_empty [] = true
is_empty (_ ∷ _) = false

unfoldable pub edge_blank : Text → Bool → Bool
edge_blank text skip_blank = if skip_blank then blank text else is_empty text

unfoldable pub first_matching : List (Text → Bool) → Text → Option ℕ
first_matching [] s = none
first_matching (re ∷ res) s =
    if re s then some 0 else elim (first_matching res s) [ none ↦ none | some i ↦ some (suc i) ]

-- the loop over `lead`, and the one over `trail`
unfoldable pub drop_lead : Bool → List Line → List Line
drop_lead skip [] = []
drop_lead skip (l ∷ ls) = if edge_blank l.text skip then drop_lead skip ls else l ∷ ls

unfoldable pub drop_trail : Bool → List Line → List Line
drop_trail skip [] = []
drop_trail skip (l ∷ ls) =
    let rest = drop_trail skip ls in
    if edge_blank l.text skip && is_empty rest then [] else l ∷ rest

-- `counts[i]++`
unfoldable pub bump : List ℕ → ℕ → List ℕ
bump [] i = []
bump (n ∷ ns) zero = suc n ∷ ns
bump (n ∷ ns) (suc i) = n ∷ bump ns i

pub record Sweep : Type 0 where
  pub blanks : ℕ
  pub counts : List ℕ
  pub out : List Line

-- one round of the loop that drops lines
unfoldable pub sweep_line : Bool → List (Text → Bool) → Line → Sweep → Sweep
sweep_line skip ignore l s =
    if skip && blank l.text
    then record s { blanks = suc s.blanks }
    else elim (first_matching ignore l.text) [
      | some i ↦ record s { counts = bump s.counts i }
      | none ↦ record s { out = s.out ++ l ∷ [] }
    ]

unfoldable pub sweep : Bool → List (Text → Bool) → List Line → Sweep → Sweep
sweep skip ignore [] s = s
sweep skip ignore (l ∷ ls) s = sweep skip ignore ls (sweep_line skip ignore l s)

pub record Ignored : Type 0 where
  pub index : ℕ
  pub lines : ℕ

unfoldable pub ignored_of : List ℕ → ℕ → List Ignored
ignored_of [] i = []
ignored_of (n ∷ ns) i =
    if ltb 0 n
    then record { index = i; lines = n } ∷ ignored_of ns (suc i)
    else ignored_of ns (suc i)

abbrev pub zeros : List (Text → Bool) → List ℕ
zeros [] = []
zeros (_ ∷ res) = 0 ∷ zeros res

pub record Prepared : Type 0 where
  pub kept : List Line
  pub blanks : ℕ
  pub ignored : List Ignored

unfoldable pub prepare : Bool → List (Text → Bool) → List Line → Prepared
prepare skip ignore lines =
    let tail = drop_lead skip lines in
    let body = drop_trail skip tail in
    let edges = length lines - length body in
    if is_empty ignore && not skip
    then record { kept = body; blanks = edges; ignored = [] }
    else (let s =
          sweep skip ignore body (record { blanks = edges; counts = zeros ignore; out = [] }) in
        record { kept = s.out; blanks = s.blanks; ignored = ignored_of s.counts 0 })

-- All lines that ignore expressions left out.
abbrev pub total_ignored : List Ignored → ℕ
total_ignored [] = 0
total_ignored (x ∷ xs) = x.lines + total_ignored xs

abbrev sum : List ℕ → ℕ
sum [] = 0
sum (n ∷ ns) = n + sum ns

length-drop_lead : (skip : Bool) (ls : List Line) → length (drop_lead skip ls) ≤ length ls
unfolding drop_lead
length-drop_lead skip [] = omega arith
length-drop_lead skip (l ∷ ls) = ground (arith, length-drop_lead skip ls)

length-drop_trail : (skip : Bool) (ls : List Line) → length (drop_trail skip ls) ≤ length ls
unfolding drop_trail
length-drop_trail skip [] = omega arith
length-drop_trail skip (l ∷ ls) = ground (arith, length-drop_trail skip ls)

first_matching-lt :
    (ignore : List (Text → Bool)) (s : Text) (i : ℕ)
    → first_matching ignore s ≡ some i
    → i < length ignore
unfolding first_matching
first_matching-lt [] s i h = ground arith
first_matching-lt (re ∷ res) s zero h = omega arith
first_matching-lt (re ∷ res) s (suc i) h = ground (arith, first_matching-lt res s i)

length-bump : (ns : List ℕ) (i : ℕ) → length (bump ns i) ≡ length ns
unfolding bump
length-bump [] i = refl
length-bump (n ∷ ns) zero = refl
length-bump (n ∷ ns) (suc i) = omega (arith, length-bump ns i)

sum-bump : (ns : List ℕ) (i : ℕ) → i < length ns → sum (bump ns i) ≡ suc (sum ns)
unfolding bump
sum-bump [] i h = absurd (omega arith)
sum-bump (n ∷ ns) zero h = omega arith
sum-bump (n ∷ ns) (suc i) h = omega (arith, sum-bump ns i (omega arith))

abbrev held : Sweep → ℕ
held s = s.blanks + sum s.counts + length s.out

-- A round places one line, and keeps a count for each expression.
sweep_line-held :
    (skip : Bool) (ignore : List (Text → Bool)) (l : Line) (s : Sweep)
    → length s.counts ≡ length ignore
    → (held (sweep_line skip ignore l s) ≡ suc (held s))
      × (length (sweep_line skip ignore l s).counts ≡ length ignore)
unfolding sweep_line
sweep_line-held skip ignore l s h = elim (Option-cases (first_matching ignore l.text)) [
  | inl e ↦ ground (arith, length-concat s.out l)
  | inr (i, e) ↦
      ground
        (arith, first_matching-lt ignore l.text i e, sum-bump s.counts i, length-bump s.counts i)
]

sweep-held :
    (skip : Bool) (ignore : List (Text → Bool)) (ls : List Line) (s : Sweep)
    → length s.counts ≡ length ignore
    → held (sweep skip ignore ls s) ≡ held s + length ls
unfolding sweep
sweep-held skip ignore [] s h = omega arith
sweep-held skip ignore (l ∷ ls) s h =
    let step = sweep_line-held skip ignore l s h in
    omega (arith, step.0, sweep-held skip ignore ls (sweep_line skip ignore l s) step.1)

zeros_lem :
    (ignore : List (Text → Bool))
    → (length (zeros ignore) ≡ length ignore) × (sum (zeros ignore) ≡ 0)
zeros_lem [] = (refl, refl)
zeros_lem (_ ∷ res) = omega (arith, (zeros_lem res).0, (zeros_lem res).1)

total-ignored_of : (ns : List ℕ) (i : ℕ) → total_ignored (ignored_of ns i) ≡ sum ns
unfolding ignored_of
total-ignored_of [] i = refl
total-ignored_of (n ∷ ns) i = ground (arith, total-ignored_of ns (suc i))

-- The lines that preparation keeps, counts as blank and counts under an ignore expression add up to the
-- lines it is given.
pub prepare-total :
    (skip : Bool) (ignore : List (Text → Bool)) (lines : List Line)
    → length (prepare skip ignore lines).kept
        + (prepare skip ignore lines).blanks
        + total_ignored (prepare skip ignore lines).ignored
      ≡ length lines
unfolding prepare
prepare-total skip ignore lines =
    let body = drop_trail skip (drop_lead skip lines) in
    let start : Sweep = record {
      blanks = length lines - length body;
      counts = zeros ignore;
      out = [];
    } in
    ground (
      arith,
      length-drop_lead skip lines,
      length-drop_trail skip (drop_lead skip lines),
      zeros_lem ignore,
      sweep-held skip ignore body start (zeros_lem ignore).0,
      total-ignored_of (sweep skip ignore body start).counts 0,
    )
