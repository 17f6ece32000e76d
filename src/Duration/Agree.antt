-- ===== src/Duration/Agree.antt =====
-- `wholeClock` of pkg/convert/convert.go against `parseDuration`.
use jsonize.Prelude.{
  subst, ℕ, ◌+◌, ◌*◌, ◌≤◌, ◌≡◌, refl, ap, ◌∙◌, true, false, [], ◌∷◌, none, some, Text, arith,
  Option-cases, inl, inr,
}
use jsonize.Duration.Number.{whole, all_digits, cut}
use jsonize.Duration.Clock.{Layout, clock_days, parse_clock}
use jsonize.Duration.Whole.{small_whole, max_seconds, two_parts, whole_parts, whole_clock}
use jsonize.Duration.Units.{split_leading_days, parse_duration, int, seconds_of, exact_duration}
use jsonize.Duration.Parts.{
  holds, cut-holds-none, cut-append, holds-append, holds-cut-none, IsSmall, small_whole-IsSmall,
}
use jsonize.Duration.Reading.{IsClock, pair-IsClock, triple-IsClock, add_decimal-small, small-lacks}

whole_parts-IsClock :
    (t : Text) (layout : Layout) (n : ℕ) → whole_parts t layout ≡ some n → IsClock t layout n
unfolding whole_parts
whole_parts-IsClock t layout n h = elim (Option-cases (cut b':' t)) [
  | inl e ↦ ground arith
  | inr ((s, rest), e) ↦ elim (Option-cases (small_whole s)) [
    | inl e1 ↦ ground arith
    | inr (a, e1) ↦ elim (Option-cases (cut b':' rest)) [
      | inl f ↦ elim (Option-cases (small_whole rest)) [
        | inl e2 ↦ ground arith
        | inr (b, e2) ↦
            let is : two_parts layout a b ≡ n = ground arith in
            subst (IsClock t layout) is (
              pair-IsClock t s rest layout a b e f (small_whole-IsSmall s a e1)
                (small_whole-IsSmall rest b e2) (ground arith))
      ]
      | inr ((r, q), f) ↦ elim (Option-cases (small_whole r)) [
        | inl e2 ↦ ground arith
        | inr (b, e2) ↦ elim (Option-cases (small_whole q)) [
          | inl e3 ↦ ground arith
          | inr (c, e3) ↦
              let is : a * 3600 + b * 60 + c ≡ n = ground arith in
              subst (IsClock t layout) is (
                triple-IsClock t s rest r q layout a b c e f (small_whole-IsSmall s a e1)
                  (small_whole-IsSmall r b e2) (ground arith) (small_whole-IsSmall q c e3)
                  (ground arith))
        ]
      ]
    ]
  ]
]

-- What the exact reading of the whole text says.
record IsExact (t : Text) (layout : Layout) (secs : ℕ) : Type 0 where
  parsed : parse_clock t layout ≡ some (whole secs)
  no_comma : holds b',' t ≡ false
  colon : holds b':' t ≡ true

parse_clock-total :
    (t rest : Text) (layout : Layout) (d n : ℕ)
    → clock_days t ≡ some (whole d, rest)
    → IsClock rest layout n
    → parse_clock t layout ≡ some (whole (d + n))
unfolding parse_clock
parse_clock-total t rest layout d n e c = ground (arith, c.last, c.total d)

no_days-IsExact :
    (t : Text) (layout : Layout) (n : ℕ)
    → cut b'-' t ≡ none
    → IsClock t layout n
    → IsExact t layout n
unfolding clock_days
no_days-IsExact t layout n e c = record {
  parsed =
      parse_clock-total t t layout 0 n (ground arith) c ∙ ap (λ k. some (whole k)) (omega arith);
  no_comma = c.no_comma;
  colon = c.colon;
}

days-IsExact :
    (t d rest : Text) (layout : Layout) (days n : ℕ)
    → cut b'-' t ≡ some (d, rest)
    → IsSmall d days
    → IsClock rest layout n
    → IsExact t layout (n + days * 86400)
unfolding clock_days all_digits holds
days-IsExact t [] rest layout days n e s c = absurd (s.nonempty refl)
days-IsExact t (x ∷ xs) rest layout days n e s c =
    let made = cut-append b'-' t (x ∷ xs) rest e in
    record {
      parsed =
          parse_clock-total t rest layout (0 + days * 86400) n
            (ground (arith, s.digits, add_decimal-small 0 (x ∷ xs) days 86400 s)) c
          ∙ ap (λ k. some (whole k)) (omega arith);
      no_comma = ground (
        arith,
        made,
        holds-append b',' (x ∷ xs) (b'-' ∷ rest),
        small-lacks b',' (x ∷ xs) days refl s,
        c.no_comma,
      );
      colon = ground (arith, made, holds-append b':' (x ∷ xs) (b'-' ∷ rest), c.colon);
    }

exact_duration-IsExact :
    (t : Text) (layout : Layout) (n : ℕ)
    → IsExact t layout n
    → n ≤ max_seconds
    → exact_duration t layout ≡ some (int n)
unfolding exact_duration parse_duration split_leading_days seconds_of
exact_duration-IsExact t layout n x le = elim (Option-cases (cut b':' t)) [
  | inl f ↦ absurd (let gone = holds-cut-none b':' t f in ground (arith, x.colon, gone))
  | inr (p, f) ↦ ground (arith, cut-holds-none b',' t x.no_comma, x.parsed)
]

-- Where the fast reading of a clock gives a number of seconds, the exact reading of the same text gives
-- that number, as a whole number of seconds.
pub whole_clock-exact :
    (t : Text) (layout : Layout) (n : ℕ)
    → whole_clock t layout ≡ some n
    → exact_duration t layout ≡ some (int n)
unfolding whole_clock
whole_clock-exact t layout n h = elim (Option-cases (cut b'-' t)) [
  | inl e ↦ elim (Option-cases (whole_parts t layout)) [
    | inl f ↦ ground arith
    | inr (secs, f) ↦
        let is : secs ≡ n = ground arith in
        let fits : n ≤ max_seconds = ground arith in
        exact_duration-IsExact t layout n
          (subst (IsExact t layout) is
            (no_days-IsExact t layout secs e (whole_parts-IsClock t layout secs f)))
          fits
  ]
  | inr ((d, rest), e) ↦ elim (Option-cases (small_whole d)) [
    | inl f ↦ ground arith
    | inr (days, f) ↦ elim (Option-cases (whole_parts rest layout)) [
      | inl g ↦ ground arith
      | inr (secs, g) ↦
          let is : secs + days * 86400 ≡ n = ground arith in
          let fits : n ≤ max_seconds = ground arith in
          exact_duration-IsExact t layout n
            (subst (IsExact t layout) is (
              days-IsExact t d rest layout days secs e (small_whole-IsSmall d days f)
                (whole_parts-IsClock rest layout secs g)))
            fits
    ]
  ]
]
