-- ===== src/Duration/Parts.antt =====
-- Cutting a text at a byte, and the small whole numbers of a clock reading.
use jsonize.Prelude.{
  ℕ, zero, suc, ◌+◌, ◌-◌, ◌*◌, ◌≤◌, ◌≡◌, ◌≢◌, refl, Bool, true, false, ◌||◌, [], ◌∷◌, ◌++◌, Option,
  none, some, Text, ◌==◌, length, arith, Bool-cases, Option-cases, inl, inr,
}
use jsonize.Engine.Split.{cut_records}
use jsonize.Duration.Number.{is_digit, digits_only, all_digits, cut, value_from, value}
use jsonize.Duration.Clock.{◌>>=◌, no_unit, last_unit}
use jsonize.Duration.Whole.{small_whole}

pub bind-eq-some {ℓ κ} :
    {A : Type ℓ} {B : Type κ} (m : Option A) (f : A → Option B) {b : B}
    → m >>= f ≡ some b
    → (a : A) × (m ≡ some a) × (f a ≡ some b)
bind-eq-some (some a) f h = (a, refl, h)
bind-eq-some none f h = cc

-- The text holds the byte.
unfoldable pub holds : ℕ → Text → Bool
holds b [] = false
holds b (c ∷ cs) = c == b || holds b cs

pub holds-cut-none : (b : ℕ) (t : Text) → cut b t ≡ none → holds b t ≡ false
unfolding holds cut
holds-cut-none b [] h = refl
holds-cut-none b (c ∷ cs) h = ground (arith, holds-cut-none b cs)

pub cut-holds-none : (b : ℕ) (t : Text) → holds b t ≡ false → cut b t ≡ none
unfolding holds cut
cut-holds-none b [] h = refl
cut-holds-none b (c ∷ cs) h = ground (arith, cut-holds-none b cs)

pub cut-append : (b : ℕ) (t x y : Text) → cut b t ≡ some (x, y) → t ≡ x ++ b ∷ y
unfolding cut
cut-append b [] x y h = cc
cut-append b (c ∷ cs) x y h = elim (Bool-cases (c == b)) [
  | inl e ↦ ground arith
  | inr e ↦ elim (Option-cases (cut b cs)) [
    | inl f ↦ ground arith
    | inr ((u, v), f) ↦ ground (arith, cut-append b cs u v)
  ]
]

pub holds-append : (b : ℕ) (x y : Text) → holds b (x ++ y) ≡ (holds b x || holds b y)
unfolding holds
holds-append b [] y = refl
holds-append b (c ∷ cs) y = ground (arith, holds-append b cs y)

pub holds-digits :
    (b : ℕ) (s : Text) → is_digit b ≡ false → digits_only s ≡ true → holds b s ≡ false
unfolding holds digits_only
holds-digits b [] n h = refl
holds-digits b (c ∷ cs) n h = ground (arith, holds-digits b cs)

pub records-cut-none : (b : ℕ) (t : Text) → cut b t ≡ none → cut_records b t ≡ t ∷ []
unfolding cut cut_records
records-cut-none b [] h = refl
records-cut-none b (c ∷ cs) h = ground (arith, records-cut-none b cs)

pub records-cut-some :
    (b : ℕ) (t x y : Text) → cut b t ≡ some (x, y) → cut_records b t ≡ x ∷ cut_records b y
unfolding cut cut_records
records-cut-some b [] x y h = cc
records-cut-some b (c ∷ cs) x y h = elim (Bool-cases (c == b)) [
  | inl e ↦ ground arith
  | inr e ↦ elim (Option-cases (cut b cs)) [
    | inl f ↦ ground arith
    | inr ((u, v), f) ↦ ground (arith, records-cut-some b cs u v)
  ]
]

-- A digit ends the text.
unfoldable pub ends_digit : Text → Bool
ends_digit [] = false
ends_digit (c ∷ []) = is_digit c
ends_digit (c ∷ d ∷ cs) = ends_digit (d ∷ cs)

pub last_unit-digit : (s : Text) → ends_digit s ≡ true → last_unit s ≡ some (no_unit, s)
unfolding ends_digit last_unit
last_unit-digit [] h = cc
last_unit-digit (c ∷ []) h = ground arith
last_unit-digit (c ∷ d ∷ cs) h = ground (arith, last_unit-digit (d ∷ cs))

pub ends_digit-digits : (s : Text) → s ≢ [] → digits_only s ≡ true → ends_digit s ≡ true
unfolding ends_digit digits_only
ends_digit-digits [] ne h = absurd (ne refl)
ends_digit-digits (c ∷ []) ne h = ground arith
ends_digit-digits (c ∷ d ∷ cs) ne h = ground (arith, ends_digit-digits (d ∷ cs) (cc))

pub ends_digit-append :
    (x : Text) (b : ℕ) (y : Text) → ends_digit y ≡ true → ends_digit (x ++ b ∷ y) ≡ true
unfolding ends_digit
ends_digit-append [] b [] h = cc
ends_digit-append [] b (c ∷ cs) h = h
ends_digit-append (c ∷ []) b y h = ends_digit-append [] b y h
ends_digit-append (c ∷ d ∷ cs) b y h = ends_digit-append (d ∷ cs) b y h

-- What a small whole number is.
pub record IsSmall (s : Text) (n : ℕ) : Type 0 where
  pub digits : digits_only s ≡ true
  pub nonempty : s ≢ []
  pub is_value : n ≡ value s
  pub short : length s ≤ 12

pub small_whole-IsSmall : (s : Text) (n : ℕ) → small_whole s ≡ some n → IsSmall s n
unfolding small_whole all_digits
small_whole-IsSmall s n h = ground arith

unfoldable pub pow10 : ℕ → ℕ
pow10 zero = 1
pow10 (suc k) = 10 * pow10 k

pub mul_le : (a b c : ℕ) → a ≤ b → a * c ≤ b * c
mul_le a b c h = grind arith

pub value_from-lt :
    (acc : ℕ) (s : Text) (k : ℕ)
    → digits_only s ≡ true
    → length s ≤ k
    → value_from acc s + 1 ≤ (acc + 1) * pow10 k
unfolding value_from digits_only pow10
value_from-lt acc [] zero h le = omega arith
value_from-lt acc [] (suc k) h le = omega (arith, value_from-lt acc [] k h (omega arith))
value_from-lt acc (c ∷ cs) zero h le = absurd (omega arith)
value_from-lt acc (c ∷ cs) (suc k) h le =
    let d = acc * 10 + (c - b'0') in
    let small : d + 1 ≤ (acc + 1) * 10 = ground arith in
    let ih : value_from d cs + 1 ≤ (d + 1) * pow10 k =
      value_from-lt d cs k (ground arith) (omega arith) in
    omega (arith, ih, mul_le (d + 1) ((acc + 1) * 10) (pow10 k) small)
