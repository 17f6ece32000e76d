-- ===== src/Selector/Judged.antt =====
-- pkg/selector/watch.go: what `judge` says of the expressions of a signature on the first lines holds
-- whatever lines follow.
use jsonize.Prelude.{
  ◌⊎◌, ◌≢◌, inl, inr, ◌∙◌, sym, ◌≡◌, refl, ℕ, suc, Bool, true, false, List, [], ◌∷◌, ◌++◌, none,
  some, Text, Bool-cases, Option-cases, All,
}
use jsonize.Selector.{Expression}
use jsonize.Selector.Check.{first_unmatched, first_matched}
use jsonize.Selector.Watch.{
  Decision, undecided, decided_fits, decided_out, judge, judge_all, judge_any, judge_none,
}

-- What is relied on of a compiled expression: a match stays one when lines follow, unless the
-- expression looks at the end of the text; and where its program is not viable on the text and the line
-- break behind it, nothing that goes on so is matched.
pub record IsRegexp (re : Expression) : Type 0 where
  pub stays :
      (text rest : Text)
      → re.ends_text ≡ false
      → re.matches text ≡ true
      → re.matches (text ++ b'\n' ∷ rest) ≡ true
  pub never :
      (open_for : Text → Bool) (text rest : Text)
      → re.viable ≡ some open_for
      → open_for (text ++ b'\n' ∷ []) ≡ false
      → re.matches (text ++ b'\n' ∷ rest) ≡ false

-- The later text is the earlier one, or goes on behind a line break.
abbrev pub Grown : Text → Text → Type 0
Grown text later = (later ≡ text) ⊎ ((rest : Text) × (later ≡ text ++ b'\n' ∷ rest))

abbrev pub Known : Decision → Bool → Type 0
Known undecided b = Unit
Known decided_fits b = b ≡ true
Known decided_out b = b ≡ false

pub Decision-cases : (d : Decision) → ((d ≡ undecided) ⊎ (d ≡ decided_fits)) ⊎ (d ≡ decided_out)
Decision-cases undecided = inl (inl refl)
Decision-cases decided_fits = inl (inr refl)
Decision-cases decided_out = inr refl

Grown-matches :
    (re : Expression) (text later : Text)
    → IsRegexp re
    → Grown text later
    → re.ends_text ≡ false
    → re.matches text ≡ true
    → re.matches later ≡ true
Grown-matches re text later r (inl e) t m = rw e m
Grown-matches re text later r (inr (rest, e)) t m = rw e (r.stays text rest t m)

Grown-never :
    (re : Expression) (text later : Text) (open_for : Text → Bool)
    → IsRegexp re
    → Grown text later
    → re.matches text ≡ false
    → re.viable ≡ some open_for
    → open_for (text ++ b'\n' ∷ []) ≡ false
    → re.matches later ≡ false
Grown-never re text later f r (inl e) m v o = rw e m
Grown-never re text later f r (inr (rest, e)) m v o = rw e (r.never f text rest v o)

-- What `judge` says of the first lines holds of what they grow into.
pub judge-Known :
    (re : Expression) (text later : Text)
    → IsRegexp re
    → Grown text later
    → Known (judge re text) (re.matches later)
unfolding judge
judge-Known re text later r g = elim (Bool-cases (re.matches text)) [
  | inl m ↦ elim (Bool-cases re.ends_text) [
    | inl t ↦ rw (m, t) tt
    | inr t ↦ rw (m, t) (Grown-matches re text later r g t m)
  ]
  | inr m ↦ elim (Option-cases re.viable) [
    | inl v ↦ rw (m, v) tt
    | inr (f, v) ↦ elim (Bool-cases (f (text ++ b'\n' ∷ []))) [
      | inl o ↦ rw (m, v, o) tt
      | inr o ↦ rw (m, v, o) (Grown-never re text later f r g m v o)
    ]
  ]
]

module _ (text later : Text) (g : Grown text later) where
  pub judge_all-fits :
      (res : List Expression) (result : Decision) (i : ℕ)
      → All IsRegexp res
      → judge_all res text result ≡ decided_fits
      → (result ≡ decided_fits) × (first_unmatched res later i ≡ none)
  unfolding judge_all first_unmatched
  judge_all-fits [] result i r h = (h, refl)
  judge_all-fits (re ∷ res) result i (r, rs) h =
      let k = judge-Known re text later r g in
      elim (Decision-cases (judge re text)) [
        | inl (inl e) ↦
            let rest = judge_all-fits res undecided (suc i) rs (rw (e, judge_all) at h) in
            absurd (let bad : undecided ≡ decided_fits = rest.0 in cc)
        | inl (inr e) ↦
            let m : re.matches later ≡ true = (rw e at k) in
            rw m (judge_all-fits res result (suc i) rs (rw (e, judge_all) at h))
        | inr e ↦ absurd (let bad : decided_out ≡ decided_fits = (rw (e, judge_all) at h) in cc)
      ]

  pub judge_all-out :
      (res : List Expression) (result : Decision) (i : ℕ)
      → All IsRegexp res
      → result ≢ decided_out
      → judge_all res text result ≡ decided_out
      → (j : ℕ) × (first_unmatched res later i ≡ some j)
  unfolding judge_all first_unmatched
  judge_all-out [] result i r n h = absurd (n h)
  judge_all-out (re ∷ res) result i (r, rs) n h =
      let k = judge-Known re text later r g in
      elim (Bool-cases (re.matches later)) [
        | inr m ↦ (i, rw m)
        | inl m ↦ elim (Decision-cases (judge re text)) [
          | inl (inl e) ↦
              rw m (judge_all-out res undecided (suc i) rs (λ x. cc) (rw (e, judge_all) at h))
          | inl (inr e) ↦ rw m (judge_all-out res result (suc i) rs n (rw (e, judge_all) at h))
          | inr e ↦ absurd (let bad : true ≡ false = sym m ∙ (rw e at k) in cc)
        ]
      ]

  pub judge_any-hit :
      (res : List Expression) (i : ℕ)
      → All IsRegexp res
      → (judge_any res text).hit ≡ true
      → (j : ℕ) × (first_matched res later i ≡ some j)
  unfolding judge_any first_matched
  judge_any-hit [] i r h = absurd (let bad : false ≡ true = h in cc)
  judge_any-hit (re ∷ res) i (r, rs) h =
      let k = judge-Known re text later r g in
      elim (Bool-cases (re.matches later)) [
        | inl m ↦ (i, rw m)
        | inr m ↦ elim (Decision-cases (judge re text)) [
          | inl (inl e) ↦ rw m (judge_any-hit res (suc i) rs (rw (e, judge_any) at h))
          | inl (inr e) ↦ absurd (let bad : false ≡ true = sym m ∙ (rw e at k) in cc)
          | inr e ↦ rw m (judge_any-hit res (suc i) rs (rw (e, judge_any) at h))
        ]
      ]

  pub judge_any-out :
      (res : List Expression) (i : ℕ)
      → All IsRegexp res
      → (judge_any res text).hit ≡ false
      → (judge_any res text).still_open ≡ false
      → first_matched res later i ≡ none
  unfolding judge_any first_matched
  judge_any-out [] i r h o = refl
  judge_any-out (re ∷ res) i (r, rs) h o =
      let k = judge-Known re text later r g in
      elim (Decision-cases (judge re text)) [
        | inl (inl e) ↦ absurd (let bad : true ≡ false = (rw (e, judge_any) at o) in cc)
        | inl (inr e) ↦ absurd (let bad : true ≡ false = (rw (e, judge_any) at h) in cc)
        | inr e ↦
            let m : re.matches later ≡ false = (rw e at k) in
            rw m (judge_any-out res (suc i) rs (rw (e, judge_any) at h) (rw (e, judge_any) at o))
      ]

  pub judge_none-fits :
      (res : List Expression) (result : Decision) (i : ℕ)
      → All IsRegexp res
      → judge_none res text result ≡ decided_fits
      → (result ≡ decided_fits) × (first_matched res later i ≡ none)
  unfolding judge_none first_matched
  judge_none-fits [] result i r h = (h, refl)
  judge_none-fits (re ∷ res) result i (r, rs) h =
      let k = judge-Known re text later r g in
      elim (Decision-cases (judge re text)) [
        | inl (inl e) ↦
            let rest = judge_none-fits res undecided (suc i) rs (rw (e, judge_none) at h) in
            absurd (let bad : undecided ≡ decided_fits = rest.0 in cc)
        | inl (inr e) ↦
            absurd (let bad : decided_out ≡ decided_fits = (rw (e, judge_none) at h) in cc)
        | inr e ↦
            let m : re.matches later ≡ false = (rw e at k) in
            rw m (judge_none-fits res result (suc i) rs (rw (e, judge_none) at h))
      ]

  pub judge_none-out :
      (res : List Expression) (result : Decision) (i : ℕ)
      → All IsRegexp res
      → result ≢ decided_out
      → judge_none res text result ≡ decided_out
      → (j : ℕ) × (first_matched res later i ≡ some j)
  unfolding judge_none first_matched
  judge_none-out [] result i r n h = absurd (n h)
  judge_none-out (re ∷ res) result i (r, rs) n h =
      let k = judge-Known re text later r g in
      elim (Bool-cases (re.matches later)) [
        | inl m ↦ (i, rw m)
        | inr m ↦ elim (Decision-cases (judge re text)) [
          | inl (inl e) ↦
              rw m (judge_none-out res undecided (suc i) rs (λ x. cc) (rw (e, judge_none) at h))
          | inl (inr e) ↦ absurd (let bad : false ≡ true = sym m ∙ (rw e at k) in cc)
          | inr e ↦ rw m (judge_none-out res result (suc i) rs n (rw (e, judge_none) at h))
        ]
      ]
