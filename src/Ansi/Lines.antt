-- ===== src/Ansi/Lines.antt =====
-- `StripANSI` of pkg/convert/convert.go at line breaks.
use jsonize.Prelude.{
  zero, suc, ◌+◌, ◌≤◌, ℕ, true, false, [], ◌∷◌, ◌++◌, none, some, Text, ◌≡◌, refl, arith, length,
  Option-cases, inl, inr,
}
use jsonize.Ansi.{
  holds_escape, is_break, before_break, csi_end, osc_end, other_end, escape_end, sequence,
  strip_from, strip_ansi,
}

csi_end-le : (s : Text) (j n : ℕ) → csi_end s j ≡ some n → n ≤ j + length s
unfolding csi_end
csi_end-le [] j n h = ground arith
csi_end-le (c ∷ cs) j n h = ground (arith, csi_end-le cs (suc j) n)

osc_end-le : (s : Text) (j n : ℕ) → osc_end s j ≡ some n → n ≤ j + length s
unfolding osc_end
osc_end-le [] j n h = ground arith
osc_end-le (c ∷ []) j n h = ground arith
osc_end-le (c ∷ d ∷ cs) j n h = ground (arith, osc_end-le (d ∷ cs) (suc j) n)

other_end-le : (s : Text) (j n : ℕ) → other_end s j ≡ some n → n ≤ j + length s
unfolding other_end
other_end-le [] j n h = ground arith
other_end-le (c ∷ cs) j n h = ground (arith, other_end-le cs (suc j) n)

escape_end-le : (s : Text) (n : ℕ) → escape_end s ≡ some n → n ≤ length s
unfolding escape_end
escape_end-le [] n h = ground arith
escape_end-le (c ∷ cs) n h =
    ground (arith, csi_end-le cs 1 n, osc_end-le cs 1 n, other_end-le (c ∷ cs) 0 n)

before_break-le : (s : Text) → length (before_break s) ≤ length s
unfolding before_break
before_break-le [] = omega arith
before_break-le (c ∷ cs) = ground (arith, before_break-le cs)

-- No escape sequence runs past the end of the text.
pub sequence-le : (c : ℕ) (cs : Text) (n : ℕ) → sequence c cs ≡ some n → n ≤ length cs
unfolding sequence
sequence-le c cs n h = ground (arith, escape_end-le (before_break cs) n, before_break-le cs)

before_break-append :
    (s : Text) (nl : ℕ) (t : Text)
    → is_break nl ≡ true
    → before_break (s ++ nl ∷ t) ≡ before_break s
unfolding before_break
before_break-append [] nl t h = ground arith
before_break-append (c ∷ cs) nl t h = ground (arith, before_break-append cs nl t h)

sequence-append :
    (c : ℕ) (s : Text) (nl : ℕ) (t : Text)
    → is_break nl ≡ true
    → sequence c (s ++ nl ∷ t) ≡ sequence c s
unfolding sequence
sequence-append c s nl t h = rw (before_break-append s nl t h)

sequence-break : (nl : ℕ) (t : Text) → is_break nl ≡ true → sequence nl t ≡ none
unfolding sequence
sequence-break nl t h = ground arith

strip_from-append :
    (k : ℕ) (s : Text) (nl : ℕ) (t : Text)
    → is_break nl ≡ true
    → k ≤ length s
    → strip_from k (s ++ nl ∷ t) ≡ strip_from k s ++ nl ∷ strip_from 0 t
unfolding strip_from
strip_from-append zero [] nl t h le = ground (arith, sequence-break nl t h)
strip_from-append (suc k) [] nl t h le = absurd (omega arith)
strip_from-append (suc k) (c ∷ cs) nl t h le = strip_from-append k cs nl t h (omega arith)
strip_from-append zero (c ∷ cs) nl t h le = elim (Option-cases (sequence c cs)) [
  | inl e ↦ ground (arith, sequence-append c cs nl t h, strip_from-append 0 cs nl t h)
  | inr (n, e) ↦
      ground
        (arith, sequence-append c cs nl t h, strip_from-append n cs nl t h, sequence-le c cs n e)
]

strip_from-plain : (b : Text) → holds_escape b ≡ false → strip_from 0 b ≡ b
unfolding strip_from holds_escape sequence
strip_from-plain [] h = refl
strip_from-plain (c ∷ cs) h = ground (arith, strip_from-plain cs)

-- The function is its loop: the test for an escape in front of it changes no result.
pub strip_ansi-loop : (b : Text) → strip_ansi b ≡ strip_from 0 b
unfolding strip_ansi
strip_ansi-loop b = ground (arith, strip_from-plain b)

-- Stripping a text that holds a line break is stripping what stands before the break and what stands
-- behind it, with the break between them.
pub strip_ansi-append_break :
    (s : Text) (nl : ℕ) (t : Text)
    → is_break nl ≡ true
    → strip_ansi (s ++ nl ∷ t) ≡ strip_ansi s ++ nl ∷ strip_ansi t
strip_ansi-append_break s nl t h =
    rw (strip_ansi-loop, strip_ansi-loop s, strip_ansi-loop t)
      (strip_from-append 0 s nl t h (omega arith))
