-- ===== src/Width/Search.antt =====
-- The binary search of `cellWidth`, pkg/engine/width.go, against a look at every range.
use jsonize.Prelude.{
  ℕ, zero, suc, ◌+◌, ◌/◌, ◌≤◌, ◌<◌, ◌≡◌, refl, Bool, true, false, ◌&&◌, ◌||◌, List, [], ◌∷◌, ltb,
  leb, within, if◌then◌else◌, length, arith, Bool-cases, inl, inr,
}
use jsonize.Width.{wide_ranges, search_from, range_at, is_wide, cell_width}

-- The test is false before `c` and true from `c` on.
search_from-first :
    (fuel : ℕ) (f : ℕ → Bool) (i j c n : ℕ)
    → ((h : ℕ) → h < c → f h ≡ false)
    → ((h : ℕ) → c ≤ h → h < n → f h ≡ true)
    → i ≤ c
    → c ≤ j
    → j ≤ n
    → j ≤ i + fuel
    → search_from fuel f i j ≡ c
unfolding search_from
search_from-first zero f i j c n lo hi a b d e = omega arith
search_from-first (suc fuel) f i j c n lo hi a b d e = elim (Bool-cases (ltb i j)) [
  | inr g ↦ ground arith
  | inl g ↦ elim (Bool-cases (f ((i + j) / 2))) [
    | inl t ↦
        let below : c ≤ (i + j) / 2 = ground (arith, lo ((i + j) / 2)) in
        ground (arith, search_from-first fuel f i ((i + j) / 2) c n lo hi)
    | inr t ↦
        let above : (i + j) / 2 < c = ground (arith, hi ((i + j) / 2)) in
        ground (arith, search_from-first fuel f (suc ((i + j) / 2)) j c n lo hi)
  ]
]

-- The ranges do not overlap and ascend, from `low` on.
unfoldable pub ascends : ℕ → List (ℕ × ℕ) → Bool
ascends low [] = true
ascends low ((lo, hi) ∷ rs) = leb low lo && leb lo hi && ascends (suc hi) rs

-- A rune stands in a range of the table.
unfoldable pub in_ranges : ℕ → List (ℕ × ℕ) → Bool
in_ranges r [] = false
in_ranges r ((lo, hi) ∷ rs) = within lo hi r || in_ranges r rs

-- How many ranges end before the rune.
passed : ℕ → List (ℕ × ℕ) → ℕ
passed r [] = 0
passed r ((lo, hi) ∷ rs) = if ltb hi r then suc (passed r rs) else 0

passed-le : (r : ℕ) (rs : List (ℕ × ℕ)) → passed r rs ≤ length rs
unfolding passed
passed-le r [] = omega arith
passed-le r ((lo, hi) ∷ rs) = ground (arith, passed-le r rs)

before_passed :
    (r : ℕ) (rs : List (ℕ × ℕ)) (h : ℕ) → h < passed r rs → leb r (range_at rs h).1 ≡ false
unfolding passed range_at
before_passed r [] h lt = absurd (omega arith)
before_passed r ((lo, hi) ∷ rs) zero lt = ground arith
before_passed r ((lo, hi) ∷ rs) (suc h) lt = ground (arith, before_passed r rs h)

hi_above :
    (low : ℕ) (rs : List (ℕ × ℕ)) (h : ℕ)
    → ascends low rs ≡ true
    → h < length rs
    → low ≤ (range_at rs h).1
unfolding ascends range_at
hi_above low [] h s lt = absurd (omega arith)
hi_above low ((lo, hi) ∷ rs) zero s lt = ground arith
hi_above low ((lo, hi) ∷ rs) (suc h) s lt = ground (arith, hi_above (suc hi) rs h)

from_passed :
    (low r : ℕ) (rs : List (ℕ × ℕ)) (h : ℕ)
    → ascends low rs ≡ true
    → passed r rs ≤ h
    → h < length rs
    → leb r (range_at rs h).1 ≡ true
unfolding passed ascends range_at
from_passed low r [] h s le lt = absurd (omega arith)
from_passed low r ((lo, hi) ∷ rs) zero s le lt = ground arith
from_passed low r ((lo, hi) ∷ rs) (suc h) s le lt =
    ground (arith, from_passed (suc hi) r rs h, hi_above (suc hi) rs h)

in_ranges-below :
    (low r : ℕ) (rs : List (ℕ × ℕ)) → ascends low rs ≡ true → r < low → in_ranges r rs ≡ false
unfolding ascends in_ranges
in_ranges-below low r [] s lt = refl
in_ranges-below low r ((lo, hi) ∷ rs) s lt = ground (arith, in_ranges-below (suc hi) r rs)

at_passed :
    (low r : ℕ) (rs : List (ℕ × ℕ))
    → ascends low rs ≡ true
    → (ltb (passed r rs) (length rs) && leb (range_at rs (passed r rs)).0 r) ≡ in_ranges r rs
unfolding passed ascends range_at in_ranges
at_passed low r [] s = refl
at_passed low r ((lo, hi) ∷ rs) s = elim (Bool-cases (ltb hi r)) [
  | inl e ↦ ground (arith, at_passed (suc hi) r rs)
  | inr e ↦ ground (arith, in_ranges-below (suc hi) r rs)
]

-- Over every table that ascends without overlap, the binary search answers as a walk over the whole
-- table does.
pub is_wide-in_ranges :
    (ranges : List (ℕ × ℕ)) (r : ℕ)
    → ascends 0 ranges ≡ true
    → is_wide ranges r ≡ in_ranges r ranges
unfolding is_wide
is_wide-in_ranges ranges r s =
    let found =
      search_from-first (length ranges) (λ h. leb r (range_at ranges h).1) 0 (length ranges)
        (passed r ranges) (length ranges) (before_passed r ranges) (λ h. from_passed 0 r ranges h s)
        (omega arith) (passed-le r ranges) (omega arith) (omega arith) in
    rw found (at_passed 0 r ranges s)

wide_ranges-ascends : ascends 0 wide_ranges ≡ true
unfolding wide_ranges ascends
wide_ranges-ascends = refl

-- A rune takes one column below U+0300, none if it is a mark or a format character, two if a range of
-- the wide table holds it, and one otherwise.
pub cell_width-in_ranges :
    (is_mark : ℕ → Bool) (r : ℕ)
    → cell_width is_mark r ≡ (
        if ltb r 0x300
        then 1
        else if is_mark r
        then 0
        else if in_ranges r wide_ranges
        then 2
        else 1)
unfolding cell_width
cell_width-in_ranges is_mark r = rw (is_wide-in_ranges wide_ranges r wide_ranges-ascends)
