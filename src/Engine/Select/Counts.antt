-- ===== src/Engine/Select/Counts.antt =====
-- pkg/engine/engine.go, `applySelect`: `select.skip` and `select.limit` against the lengths they leave.
use jsonize.Prelude.{
  zero, suc, ℕ, ◌+◌, ◌<◌, ◌≡◌, refl, sym, ap, ◌∙◌, inl, inr, ◌&&◌, List, [], ◌∷◌, ◌++◌, arith,
  length, ltb, leb, take, drop, min, append-nil, length-append, Bool-cases, take-append-drop,
  if◌then◌else◌,
}
use jsonize.Engine.Line.{Line}
use jsonize.Engine.Select.{skip_limit}

-- As many lines of the body as there are up to `skip` are left out, and of the others no more than
-- `limit` are read, where it is not 0.
pub record IsCounted (skip limit : ℕ) (skipped region cut : List Line) : Type 0 where
  pub skips : length skipped ≡ min skip (length skipped + (length region + length cut))
  pub all_read : limit ≡ 0 → cut ≡ []
  pub limits : 0 < limit → length region ≡ min limit (length region + length cut)

length-take : (n : ℕ) (xs : List Line) → length (take n xs) ≡ min n (length xs)
length-take zero xs = omega arith
length-take (suc n) [] = omega arith
length-take (suc n) (x ∷ xs) = omega (arith, length-take n xs)

length-parts : (n : ℕ) (xs : List Line) → length (take n xs) + length (drop n xs) ≡ length xs
length-parts n xs = sym (length-append (take n xs) (drop n xs)) ∙ ap length (take-append-drop n xs)

abbrev pub Parts : ℕ → ℕ → List Line → List Line → Type 0
Parts skip limit body region =
    (skipped : List Line) × (cut : List Line) × (body ≡ skipped ++ (region ++ cut))
    × IsCounted skip limit skipped region cut

limited-Parts :
    (skip limit : ℕ) (body : List Line)
    → Parts skip limit body (
        let rest = drop skip body in
        if ltb 0 limit && ltb limit (length rest) then take limit rest else rest)
limited-Parts skip limit body =
    let rest = drop skip body in
    let parts = take-append-drop skip body in
    let a = length-take skip body in
    let b = length-parts skip body in
    elim (Bool-cases (ltb 0 limit && ltb limit (length rest))) [
      | inl f ↦
          let c = length-take limit rest in
          let e = length-parts limit rest in
          rw f (
            take skip body,
            drop limit rest,
            sym parts ∙ ap (λ ls. take skip body ++ ls) (sym (take-append-drop limit rest)),
            record { skips = omega arith; all_read = λ z. ground arith; limits = λ z. omega arith },
          )
      | inr f ↦ rw f (
        take skip body,
        [],
        rw append-nil (sym parts),
        record { skips = omega arith; all_read = λ z. refl; limits = λ z. ground arith },
      )
    ]

pub skip_limit-Parts :
    (skip limit : ℕ) (body : List Line) → Parts skip limit body (skip_limit skip limit body)
unfolding skip_limit
skip_limit-Parts skip limit body = elim (Bool-cases (ltb 0 skip && leb (length body) skip)) [
  | inl f ↦ rw f (
    body,
    [],
    sym (append-nil body),
    record { skips = ground arith; all_read = λ z. refl; limits = λ z. omega arith },
  )
  | inr f ↦ rw f (limited-Parts skip limit body)
]
