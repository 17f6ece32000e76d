-- ===== src/Duration/Reading.antt =====
-- `parseClock` of pkg/convert/convert.go on a clock whose parts are whole.
use jsonize.Prelude.{
  ℕ, ◌+◌, ◌*◌, ◌<◌, ◌≡◌, refl, ap, ◌∙◌, Bool, true, false, not, List, [], ◌∷◌, none, some, Text,
  ltb, arith,
}
use jsonize.Duration.Number.{
  Decimal, whole, is_digit, all_digits, cut, decimal, add, times, add_decimal, overflows,
  rounds_to_60,
}
use jsonize.Duration.Clock.{
  Layout, hour_minute, minute_second, unset, no_unit, last_unit, units_of, add_parts, add_clock,
}
use jsonize.Duration.Whole.{two_parts}
use jsonize.Duration.Parts.{
  holds, cut-holds-none, cut-append, holds-append, holds-digits, records-cut-none, records-cut-some,
  last_unit-digit, ends_digit-digits, ends_digit-append, IsSmall, pow10, value_from-lt,
}

overflows-small : (n : ℕ) → n < 1000000000000 → overflows (whole n) ≡ false
unfolding overflows
overflows-small n h = ground arith

value-lt : (s : Text) (n : ℕ) → IsSmall s n → n < 1000000000000
unfolding pow10
value-lt s n h = omega (arith, h.is_value, value_from-lt 0 s 12 h.digits h.short)

decimal-small : (s : Text) (n : ℕ) → IsSmall s n → decimal s ≡ some (whole n)
unfolding decimal all_digits
decimal-small [] n h = absurd (h.nonempty refl)
decimal-small (c ∷ cs) n h = ground (arith, h.digits, h.is_value)

rounds_to_60-whole : (n : ℕ) → rounds_to_60 (whole n) ≡ not (ltb n 60)
unfolding rounds_to_60
rounds_to_60-whole n = ground arith

pub add_decimal-small :
    (a : ℕ) (s : Text) (n u : ℕ)
    → IsSmall s n
    → add_decimal (whole a) s (whole u) ≡ some (whole (a + n * u))
unfolding add_decimal add times
add_decimal-small a s n u h = rw (decimal-small s n h, add_decimal) (ground arith)

-- One round of the loop over the parts, at a small whole part.
add_parts-small :
    (later : Bool) (a : ℕ) (s : Text) (n : ℕ) (ps : List Text) (u : ℕ) (us : List ℕ)
    → IsSmall s n
    → (later ≡ true → n < 60)
    → add_parts later (whole a) (s ∷ ps) (u ∷ us) ≡ add_parts true (whole (a + n * u)) ps us
unfolding add_parts
add_parts-small later a s n ps u us h k = ground (
  arith,
  decimal-small s n h,
  overflows-small n (value-lt s n h),
  rounds_to_60-whole n,
  add_decimal-small a s n u h,
)

add_parts-end : (later : Bool) (a : Decimal) (us : List ℕ) → add_parts later a [] us ≡ some a
unfolding add_parts
add_parts-end later a us = refl

-- What the exact reading makes of the parts of a clock.
pub record IsClock (t : Text) (layout : Layout) (secs : ℕ) : Type 0 where
  pub last : last_unit t ≡ some (no_unit, t)
  pub total : (d : ℕ) → add_clock layout (whole d) (no_unit, t) ≡ some (whole (d + secs))
  pub no_comma : holds b',' t ≡ false
  pub colon : holds b':' t ≡ true

two_parts-total :
    (layout : Layout) (d : ℕ) (s r : Text) (a b : ℕ)
    → IsSmall s a
    → IsSmall r b
    → b < 60
    → add_parts false (whole d) (s ∷ r ∷ []) (units_of no_unit layout 2)
      ≡ some (whole (d + two_parts layout a b))
unfolding units_of two_parts
two_parts-total hour_minute d s r a b h k lt =
    add_parts-small false d s a (r ∷ []) 3600 (60 ∷ []) h (cc)
    ∙ add_parts-small true (d + a * 3600) r b [] 60 [] k (λ _. lt)
    ∙ add_parts-end true _ []
    ∙ ap (λ n. some (whole n)) (omega arith)
two_parts-total minute_second d s r a b h k lt =
    add_parts-small false d s a (r ∷ []) 60 (1 ∷ []) h (cc)
    ∙ add_parts-small true (d + a * 60) r b [] 1 [] k (λ _. lt)
    ∙ add_parts-end true _ []
    ∙ ap (λ n. some (whole n)) (omega arith)
two_parts-total unset d s r a b h k lt =
    add_parts-small false d s a (r ∷ []) 60 (1 ∷ []) h (cc)
    ∙ add_parts-small true (d + a * 60) r b [] 1 [] k (λ _. lt)
    ∙ add_parts-end true _ []
    ∙ ap (λ n. some (whole n)) (omega arith)

three_parts-total :
    (layout : Layout) (d : ℕ) (s r q : Text) (a b c : ℕ)
    → IsSmall s a
    → IsSmall r b
    → b < 60
    → IsSmall q c
    → c < 60
    → add_parts false (whole d) (s ∷ r ∷ q ∷ []) (units_of no_unit layout 3)
      ≡ some (whole (d + (a * 3600 + b * 60 + c)))
unfolding units_of
three_parts-total layout d s r q a b c h k lt m lt' =
    add_parts-small false d s a (r ∷ q ∷ []) 3600 (60 ∷ 1 ∷ []) h (cc)
    ∙ add_parts-small true (d + a * 3600) r b (q ∷ []) 60 (1 ∷ []) k (λ _. lt)
    ∙ add_parts-small true (d + a * 3600 + b * 60) q c [] 1 [] m (λ _. lt')
    ∙ add_parts-end true _ []
    ∙ ap (λ n. some (whole n)) (omega arith)

pub small-lacks : (b : ℕ) (s : Text) (n : ℕ) → is_digit b ≡ false → IsSmall s n → holds b s ≡ false
small-lacks b s n nd h = holds-digits b s nd h.digits

pub pair-IsClock :
    (t s r : Text) (layout : Layout) (a b : ℕ)
    → cut b':' t ≡ some (s, r)
    → cut b':' r ≡ none
    → IsSmall s a
    → IsSmall r b
    → b < 60
    → IsClock t layout (two_parts layout a b)
unfolding add_clock holds
pair-IsClock t s r layout a b e f h k lt =
    let made = cut-append b':' t s r e in
    let parts = records-cut-some b':' t s r e ∙ ap (λ x. s ∷ x) (records-cut-none b':' r f) in
    record {
      last =
          last_unit-digit t
            (rw made (ends_digit-append s b':' r (ends_digit-digits r k.nonempty k.digits)));
      total = λ d. rw parts (two_parts-total layout d s r a b h k lt);
      no_comma = ground (
        arith,
        made,
        holds-append b',' s (b':' ∷ r),
        small-lacks b',' s a refl h,
        small-lacks b',' r b refl k,
      );
      colon = ground (arith, made, holds-append b':' s (b':' ∷ r));
    }

pub triple-IsClock :
    (t s rest r q : Text) (layout : Layout) (a b c : ℕ)
    → cut b':' t ≡ some (s, rest)
    → cut b':' rest ≡ some (r, q)
    → IsSmall s a
    → IsSmall r b
    → b < 60
    → IsSmall q c
    → c < 60
    → IsClock t layout (a * 3600 + b * 60 + c)
unfolding add_clock holds
triple-IsClock t s rest r q layout a b c e f h k lt m lt' =
    let made = cut-append b':' t s rest e in
    let made' = cut-append b':' rest r q f in
    let one = records-cut-none b':' q (cut-holds-none b':' q (small-lacks b':' q c refl m)) in
    let parts =
      records-cut-some b':' t s rest e
      ∙ ap (λ x. s ∷ x) (records-cut-some b':' rest r q f ∙ ap (λ x. r ∷ x) one) in
    record {
      last = last_unit-digit t (
          rw made (
            ends_digit-append s b':' rest
              (rw made' (ends_digit-append r b':' q (ends_digit-digits q m.nonempty m.digits)))));
      total = λ d. rw parts (three_parts-total layout d s r q a b c h k lt m lt');
      no_comma = ground (
        arith,
        made,
        made',
        holds-append b',' s (b':' ∷ rest),
        holds-append b',' r (b':' ∷ q),
        small-lacks b',' s a refl h,
        small-lacks b',' r b refl k,
        small-lacks b',' q c refl m,
      );
      colon = ground (arith, made, holds-append b':' s (b':' ∷ rest));
    }
