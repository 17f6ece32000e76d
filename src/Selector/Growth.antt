-- ===== src/Selector/Growth.antt =====
-- pkg/selector/watch.go: what is judged of a signature on the first lines holds of the window that they
-- grow into.
use jsonize.Prelude.{
  ◌≢◌, inl, inr, ◌∙◌, sym, ap, ◌≡◌, ◌≤◌, refl, arith, ℕ, zero, suc, Bool, true, false, List, [],
  ◌∷◌, ◌++◌, none, some, Text, length, take, append_assoc, Bool-cases, Option-cases, All,
}
use jsonize.Selector.{Signature, is_nil}
use jsonize.Selector.Window.{join_lines, window_text}
use jsonize.Selector.Check.{
  ok, first_unmatched, first_matched, match_none, match_any, match_text, Criterion, refuse,
}
use jsonize.Selector.Judged.{
  IsRegexp, Grown, Decision-cases, judge_all-fits, judge_all-out, judge_any-hit, judge_any-out,
  judge_none-fits, judge_none-out,
}
use jsonize.Selector.Watch.{
  Decision, undecided, decided_fits, decided_out, judge_all, judge_any, judge_rest, judge_signature,
}

pub record IsSignature (s : Signature) : Type 0 where
  pub all_regexps : All IsRegexp s.all
  pub any_regexps : All IsRegexp s.any
  pub none_regexps : All IsRegexp s.no

none-ok :
    (s : Signature) (text : Text) (met : List Criterion)
    → first_matched s.no text 0 ≡ none
    → ok (match_none s text met) ≡ true
unfolding match_none
none-ok s text met h = rw (h, match_none)

none-refused :
    (s : Signature) (text : Text) (met : List Criterion) (j : ℕ)
    → first_matched s.no text 0 ≡ some j
    → ok (match_none s text met) ≡ false
unfolding match_none
none-refused s text met j h = rw (h, match_none)

module _ (s : Signature) (r : IsSignature s) (text later : Text) (g : Grown text later) where
  rest-fits :
      (result : Decision) (met : List Criterion)
      → judge_rest s text result ≡ decided_fits
      → (result ≡ decided_fits) × (ok (match_any s later met) ≡ true)
  unfolding judge_rest match_any
  rest-fits result met h = elim (Bool-cases (is_nil s.any)) [
    | inl e ↦
        let last = judge_none-fits text later g s.no result 0 r.none_regexps (rw e at h) in
        (last.0, rw e (none-ok s later met last.1))
    | inr e ↦ elim (Bool-cases (judge_any s.any text).hit) [
      | inl t ↦
          let (j, hit) = judge_any-hit text later g s.any 0 r.any_regexps t in
          let last = judge_none-fits text later g s.no result 0 r.none_regexps (rw (e, t) at h) in
          (last.0, rw (e, hit, match_any) (none-ok s later _ last.1))
      | inr t ↦ elim (Bool-cases (judge_any s.any text).still_open) [
        | inl u ↦
            let last =
              judge_none-fits text later g s.no undecided 0 r.none_regexps (rw (e, t, u) at h) in
            absurd (let bad : undecided ≡ decided_fits = last.0 in cc)
        | inr u ↦ absurd (let bad : decided_out ≡ decided_fits = (rw (e, t, u) at h) in cc)
      ]
    ]
  ]

  rest-out :
      (result : Decision) (met : List Criterion)
      → result ≢ decided_out
      → judge_rest s text result ≡ decided_out
      → ok (match_any s later met) ≡ false
  unfolding judge_rest match_any
  rest-out result met n h = elim (Bool-cases (is_nil s.any)) [
    | inl e ↦
        let (j, last) = judge_none-out text later g s.no result 0 r.none_regexps n (rw e at h) in
        rw e (none-refused s later met j last)
    | inr e ↦ elim (Option-cases (first_matched s.any later 0)) [
      | inl z ↦ rw (e, z, match_any)
      | inr (i, z) ↦ elim (Bool-cases (judge_any s.any text).hit) [
        | inl t ↦
            let (j, last) =
              judge_none-out text later g s.no result 0 r.none_regexps n (rw (e, t) at h) in
            rw (e, z, match_any) (none-refused s later _ j last)
        | inr t ↦ elim (Bool-cases (judge_any s.any text).still_open) [
          | inl u ↦
              let (j, last) =
                judge_none-out text later g s.no undecided 0 r.none_regexps (λ x. cc)
                  (rw (e, t, u) at h) in
              rw (e, z, match_any) (none-refused s later _ j last)
          | inr u ↦
              let no_hit = judge_any-out text later g s.any 0 r.any_regexps t u in
              absurd (let bad : some i ≡ none = sym z ∙ no_hit in cc)
        ]
      ]
    ]
  ]

  pub signature-fits :
      (explain : Bool)
      → judge_signature s text ≡ decided_fits
      → ok (match_text s later explain) ≡ true
  unfolding judge_signature match_text
  signature-fits explain h = elim (Decision-cases (judge_all s.all text decided_fits)) [
    | inl (inl e) ↦
        let last = rest-fits undecided [] (rw (e, judge_signature) at h) in
        absurd (let bad : undecided ≡ decided_fits = last.0 in cc)
    | inl (inr e) ↦
        let all = judge_all-fits text later g s.all decided_fits 0 r.all_regexps e in
        rw (all.1, match_text) (rest-fits decided_fits _ (rw (e, judge_signature) at h)).1
    | inr e ↦ absurd (let bad : decided_out ≡ decided_fits = (rw (e, judge_signature) at h) in cc)
  ]

  first-refused :
      (i : ℕ)
      → first_unmatched s.all later 0 ≡ some i
      → (explain : Bool) → ok (match_text s later explain) ≡ false
  unfolding match_text refuse
  first-refused zero z explain = rw (z, match_text)
  first-refused (suc i) z explain = rw (z, match_text)

  pub signature-out :
      (explain : Bool)
      → judge_signature s text ≡ decided_out
      → ok (match_text s later explain) ≡ false
  unfolding judge_signature match_text
  signature-out explain h = elim (Option-cases (first_unmatched s.all later 0)) [
    | inr (i, z) ↦ first-refused i z explain
    | inl z ↦ elim (Decision-cases (judge_all s.all text decided_fits)) [
      | inl (inl e) ↦
          rw (z, match_text) (rest-out undecided _ (λ x. cc) (rw (e, judge_signature) at h))
      | inl (inr e) ↦
          rw (z, match_text) (rest-out decided_fits _ (λ x. cc) (rw (e, judge_signature) at h))
      | inr e ↦
          let (j, u) = judge_all-out text later g s.all decided_fits 0 r.all_regexps (λ x. cc) e in
          absurd (let bad : none ≡ some j = sym z ∙ u in cc)
    ]
  ]

Grown-line :
    (l text later : Text) → Grown text later → Grown (l ++ b'\n' ∷ text) (l ++ b'\n' ∷ later)
Grown-line l text later (inl e) = inl (ap (λ t. l ++ b'\n' ∷ t) e)
Grown-line l text later (inr (rest, e)) =
    inr (rest, rw e (sym (append_assoc l (b'\n' ∷ text) (b'\n' ∷ rest))))

take-append :
    (n : ℕ) (lines more : List Text) → n ≤ length lines → take n (lines ++ more) ≡ take n lines
take-append zero lines more h = refl
take-append (suc n) [] more h = absurd (omega arith)
take-append (suc n) (l ∷ ls) more h = ap (◌∷◌ l) (take-append n ls more (omega arith))

-- A window that is not full grows at its end.
pub Grown-window :
    (n : ℕ) (l : Text) (ls more : List Text)
    → length (l ∷ ls) ≤ n
    → Grown (join_lines (l ∷ ls)) (window_text (l ∷ ls ++ more) n)
unfolding window_text join_lines
Grown-window zero l ls more h = absurd (omega arith)
Grown-window (suc zero) l (m ∷ ls) more h = absurd (omega arith)
Grown-window (suc (suc n)) l (m ∷ ls) more h =
    Grown-line l _ _ (Grown-window (suc n) m ls more (omega arith))
Grown-window (suc zero) l [] more h = inl refl
Grown-window (suc (suc n)) l [] [] h = inl refl
Grown-window (suc (suc n)) l [] (x ∷ xs) h = inr (join_lines (x ∷ take n xs), refl)

-- A window that is full stays as it is.
pub window_text-append :
    (n : ℕ) (lines more : List Text)
    → n ≤ length lines
    → window_text (lines ++ more) n ≡ window_text lines n
unfolding window_text
window_text-append n lines more h = ap join_lines (take-append n lines more h)
