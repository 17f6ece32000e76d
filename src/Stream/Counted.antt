-- ===== src/Stream/Counted.antt =====
-- pkg/engine/stream.go, `feedSelected`: what it counts, against the lines still to skip and to take.
use jsonize.Prelude.{
  ℕ, zero, suc, ◌+◌, ◌≡◌, refl, ◌∙◌, Bool, true, false, List, [], ◌∷◌, ◌++◌, Option, some, Text,
  Bool-cases, inl, inr, arith, take, drop, ltb, leb,
}
use jsonize.Space.{blank}
use jsonize.Engine.Line.{Line}
use jsonize.Engine.Select.{Select}
use jsonize.Stream.Flow.{Flow, ok, err, ◌>>=◌, map_flow, done, Sink, feed_all}
use jsonize.Stream.Stages.{Picking, left_out, matched, feed_counted, feed_selected, beside, inside}
use jsonize.Stream.Left.{blank_lines, unless, over, limited, gate, take-nil, drop-nil}

abbrev pub picking : Bool → ℕ → ℕ → Picking
picking st i j = record { started = st; skipped = i; taken = j; closed = false }

module _ (sel : Select) where
  -- `d` more lines are skipped, and `k` more may be taken.
  abbrev pub IsAt : ℕ → ℕ → ℕ → ℕ → Type 0
  IsAt d k i j = (i + d ≡ sel.skip) × (ltb 0 sel.limit ≡ true → j + k ≡ sel.limit)

  abbrev pub left_of : ℕ → ℕ → List Line → List Line → List Line
  left_of d k body rest = take d body ++ (over sel.limit k (drop d body) ++ rest)

module _ {ℓ} {S : Type ℓ} {H : Type 0} (sel : Select) (next : Sink H S) where
  abbrev pub outcome : List Line → Picking → H × S → Option (H × S)
  outcome ls p x = done (map_flow inside (feed_all (feed_selected sel next) ls (beside p x)))

  -- what follows the first line
  abbrev pub followed : List Line → Flow (H × (Picking × S)) → Option (H × S)
  followed ls r = done (map_flow inside (r >>= feed_all (feed_selected sel next) ls))

  abbrev pub taken_of : ℕ → ℕ → List Line → H × S → Option (H × S)
  taken_of d k body x = done (feed_all next (limited sel.limit k (drop d body)) x)

  -- Behind the closing line every line is left out.
  pub closed-blank :
      (ls : List Line) (p : Picking) (x : H × S)
      → p.closed ≡ true
      → outcome ls p x ≡ gate ls (some x)
  unfolding feed_all feed_selected left_out blank_lines
  closed-blank [] p x h = refl
  closed-blank (l ∷ ls) p x h = elim (Bool-cases (blank l.text)) [
    | inl b ↦ rw (h, b) (closed-blank ls p x h)
    | inr b ↦ rw (h, b) refl
  ]

  pub left_out-gate :
      (l : Line) (ls left : List Line) (p : Picking) (x : H × S) (o : Option (H × S))
      → outcome ls p x ≡ gate left o
      → followed ls (left_out l (beside p x)) ≡ gate (l ∷ left) o
  unfolding left_out blank_lines
  left_out-gate l ls left p x o h = elim (Bool-cases (blank l.text)) [
    | inl b ↦ rw (b, left_out) h
    | inr b ↦ rw (b, left_out) refl
  ]

  -- a line that an expression matched, and those behind it
  pub matched-gate :
      (whole : Text → Bool) (l : Line) (ls left : List Line) (p : Picking) (x : H × S)
      (o : Option (H × S))
      → outcome ls p x ≡ gate left o
      → followed ls (matched whole l (beside p x)) ≡ gate (unless whole l ++ left) o
  matched-gate whole l ls left p x o h = elim (Bool-cases (whole l.text)) [
    | inl e ↦ rw (e, matched) h
    | inr e ↦ rw (e, matched) (left_out-gate l ls left p x o h)
  ]

  pub nil-gate :
      (d k : ℕ) (rest : List Line) (x : H × S)
      → gate (left_of sel d k [] rest) (taken_of d k [] x) ≡ gate rest (some x)
  unfolding feed_all
  nil-gate d k rest x = elim (Bool-cases (ltb 0 sel.limit)) [
    | inl e ↦ rw (e, take-nil d, drop-nil d, take-nil k, drop-nil k) refl
    | inr e ↦ rw (e, take-nil d, drop-nil d) refl
  ]

module _ {ℓ} {S : Type ℓ} {H : Type 0} (sel : Select) (next : Sink H S) (st : Bool) where
  -- what a selection makes of lines with the given body, and lines left unread behind it
  abbrev pub Reads : List Line → List Line → List Line → Type ℓ
  Reads ls body rest =
      (d k i j : ℕ) (x : H × S)
      → IsAt sel d k i j
      → outcome sel next ls (picking st i j) x
        ≡ gate (left_of sel d k body rest) (taken_of sel next d k body x)

  abbrev pub counted : Line → List Line → ℕ → ℕ → H × S → Option (H × S)
  counted l ls i j x = done (
      map_flow inside (
        feed_counted sel next l (beside (picking st i j) x)
        >>= feed_all (feed_selected sel next) ls))

  skipped-step :
      (l : Line) (ls body rest : List Line) (d k i j : ℕ) (x : H × S)
      → IsAt sel (suc d) k i j
      → Reads ls body rest
      → counted l ls i j x
        ≡ gate (left_of sel (suc d) k (l ∷ body) rest) (taken_of sel next (suc d) k (l ∷ body) x)
  unfolding feed_counted left_out blank_lines
  skipped-step l ls body rest d k i j x (e, h) reads =
      let more : ltb i sel.skip ≡ true = ground arith in
      elim (Bool-cases (blank l.text)) [
        | inl b ↦ rw (more, feed_counted, b, left_out) (reads d k (suc i) j x (omega arith, h))
        | inr b ↦ rw (more, feed_counted, b, left_out) refl
      ]

  over-step :
      (l : Line) (ls body rest : List Line) (i j : ℕ) (x : H × S)
      → IsAt sel 0 0 i j
      → ltb 0 sel.limit ≡ true
      → Reads ls body rest
      → counted l ls i j x
        ≡ gate (left_of sel 0 0 (l ∷ body) rest) (taken_of sel next 0 0 (l ∷ body) x)
  unfolding feed_counted left_out blank_lines
  over-step l ls body rest i j x (e, h) lim reads =
      let all : ltb i sel.skip ≡ false = ground arith in
      let full : leb sel.limit j ≡ true = ground (arith, h lim) in
      elim (Bool-cases (blank l.text)) [
        | inl b ↦
            rw (all, lim, full, feed_counted, b, left_out) (reads 0 0 i j x (e, h) ∙ (rw lim refl))
        | inr b ↦ rw (all, lim, full, feed_counted, b, left_out) refl
      ]

  handed-step :
      (l : Line) (ls : List Line) (p : Picking) (x : H × S) (left taken : List Line)
      → ((y : H × S) → outcome sel next ls p y ≡ gate left (done (feed_all next taken y)))
      → done (
          map_flow inside (map_flow (beside p) (next l x) >>= feed_all (feed_selected sel next) ls))
        ≡ gate left (done (feed_all next (l ∷ taken) x))
  unfolding feed_all
  handed-step l ls p x left taken h =
      elim (next l x)
        as (λ r.
          done (map_flow inside (map_flow (beside p) r >>= feed_all (feed_selected sel next) ls))
          ≡ gate left (done (r >>= feed_all next taken))) [ ok y ↦ h y | err e ↦ ground arith ]

  limit-step :
      (l : Line) (ls body rest : List Line) (k i j : ℕ) (x : H × S)
      → IsAt sel 0 (suc k) i j
      → ltb 0 sel.limit ≡ true
      → Reads ls body rest
      → counted l ls i j x
        ≡ gate (left_of sel 0 (suc k) (l ∷ body) rest) (taken_of sel next 0 (suc k) (l ∷ body) x)
  unfolding feed_counted
  limit-step l ls body rest k i j x (e, h) lim reads =
      let all : ltb i sel.skip ≡ false = ground arith in
      let short : leb sel.limit j ≡ false = ground (arith, h lim) in
      rw (all, lim, short, feed_counted)
        (handed-step l ls (picking st i (suc j)) x (drop k body ++ rest) (take k body)
          (λ y. reads 0 k i (suc j) y (e, λ q. omega (arith, h q)) ∙ (rw lim refl)))

  free-step :
      (l : Line) (ls body rest : List Line) (k i j : ℕ) (x : H × S)
      → IsAt sel 0 k i j
      → ltb 0 sel.limit ≡ false
      → Reads ls body rest
      → counted l ls i j x
        ≡ gate (left_of sel 0 k (l ∷ body) rest) (taken_of sel next 0 k (l ∷ body) x)
  unfolding feed_counted
  free-step l ls body rest k i j x (e, h) lim reads =
      let all : ltb i sel.skip ≡ false = ground arith in
      rw (all, lim, feed_counted)
        (handed-step l ls (picking st i (suc j)) x rest body
          (λ y. reads 0 k i (suc j) y (e, λ q. cc) ∙ (rw lim refl)))

  pub counted-step :
      (l : Line) (ls body rest : List Line) (d k i j : ℕ) (x : H × S)
      → IsAt sel d k i j
      → Reads ls body rest
      → counted l ls i j x
        ≡ gate (left_of sel d k (l ∷ body) rest) (taken_of sel next d k (l ∷ body) x)
  counted-step l ls body rest (suc d) k i j x a reads =
      skipped-step l ls body rest d k i j x a reads
  counted-step l ls body rest zero k i j x a reads = elim (Bool-cases (ltb 0 sel.limit)) [
    | inr lim ↦ free-step l ls body rest k i j x a lim reads
    | inl lim ↦
        elim k
            as (λ n.
              IsAt sel 0 n i j
              → counted l ls i j x
                ≡ gate (left_of sel 0 n (l ∷ body) rest) (taken_of sel next 0 n (l ∷ body) x)) [
                  | zero ↦ λ b. over-step l ls body rest i j x b lim reads
                  | suc n ↦ λ b. limit-step l ls body rest n i j x b lim reads
                ]
          a
  ]
