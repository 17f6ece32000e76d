-- ===== src/Ansi/Escapes.antt =====
-- `StripANSI` of pkg/convert/convert.go at a control sequence.
use jsonize.Prelude.{
  suc, ◌+◌, ℕ, true, [], ◌∷◌, ◌++◌, some, Text, within, ◌≡◌, refl, arith, length, All,
}
use jsonize.Ansi.{escape, before_break, csi_end, escape_end, sequence, strip_from, strip_ansi}
use jsonize.Ansi.Lines.{strip_ansi-loop}

abbrev pub IsParameter : ℕ → Type 0
IsParameter c = within 0x20 0x3f c ≡ true

before_break-params :
    (ps : Text) (f : ℕ) (rest : Text)
    → All IsParameter ps
    → within 0x40 0x7e f ≡ true
    → before_break (ps ++ f ∷ rest) ≡ ps ++ f ∷ before_break rest
unfolding before_break
before_break-params [] f rest h e = ground arith
before_break-params (c ∷ cs) f rest (hc, h) e = ground (arith, before_break-params cs f rest h e)

csi_end-params :
    (ps : Text) (f : ℕ) (rest : Text) (j : ℕ)
    → All IsParameter ps
    → within 0x40 0x7e f ≡ true
    → csi_end (ps ++ f ∷ rest) j ≡ some (suc (j + length ps))
unfolding csi_end
csi_end-params [] f rest j h e = ground arith
csi_end-params (c ∷ cs) f rest j (hc, h) e = ground (arith, csi_end-params cs f rest (suc j) h e)

strip_from-drop :
    (ps : Text) (f : ℕ) (rest : Text)
    → strip_from (suc (length ps)) (ps ++ f ∷ rest) ≡ strip_from 0 rest
unfolding strip_from
strip_from-drop [] f rest = refl
strip_from-drop (c ∷ cs) f rest = strip_from-drop cs f rest

-- A control sequence, `ESC [`, any parameter bytes and a final byte, is removed whole, and what
-- stands behind it is stripped as if it were the whole text.
pub strip_ansi-csi :
    (ps : Text) (f : ℕ) (rest : Text)
    → All IsParameter ps
    → within 0x40 0x7e f ≡ true
    → strip_ansi (escape ∷ b'[' ∷ (ps ++ f ∷ rest)) ≡ strip_ansi rest
unfolding strip_from sequence escape_end before_break
strip_ansi-csi ps f rest h e = ground (
  arith,
  strip_ansi-loop (escape ∷ b'[' ∷ (ps ++ f ∷ rest)),
  strip_ansi-loop rest,
  before_break-params ps f rest h e,
  csi_end-params ps f (before_break rest) 1 h e,
  strip_from-drop ps f rest,
)
