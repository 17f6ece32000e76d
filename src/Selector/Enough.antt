-- ===== src/Selector/Enough.antt =====
-- pkg/selector/selector.go, `Window` against `check`: the lines it asks for are enough to know which
-- definitions fit.
use jsonize.Prelude.{
  inl, inr, ◌∙◌, ap, sym, ◌≡◌, refl, arith, ℕ, zero, suc, Bool, true, false, not, ◌&&◌, ◌||◌, List,
  [], ◌∷◌, Text, take, min, max, ◌≤◌, if◌then◌else◌, Bool-cases, All,
}
use jsonize.Selector.{is_none, Signature, Entry, Registry, unsigned, is_nil}
use jsonize.Selector.Window.{join_lines, window_text, max_signature_window}
use jsonize.Selector.Check.{
  Context, ok, match_text, match_signature, signature_lines, check, wrong_nul, wrong_os, wrong_args,
}
use jsonize.Selector.Final.{check-ok}
use jsonize.Selector.Reach.{scope, admitted, candidates, widest, window_of, window}

-- The definitions that a selection looks at.
abbrev pub searched : Registry → Context → List Entry
searched reg ctx = if is_nil ctx.parser then reg.all else scope reg ctx

-- What loading a definition makes sure of: no signature asks for more than the largest window.
abbrev pub IsBounded : Entry → Type 0
IsBounded e = e.def.detect.signature.window ≤ max_signature_window

-- Whether a definition fits is known from the first so many lines.
abbrev pub IsKnownFrom : ℕ → Context → List Text → Entry → Type 0
IsKnownFrom n ctx lines e = ok (check ctx (take n lines) e) ≡ ok (check ctx lines e)

take-take : (m n : ℕ) (xs : List Text) → m ≤ n → take m (take n xs) ≡ take m xs
take-take zero n xs h = refl
take-take (suc m) zero xs h = absurd (omega arith)
take-take (suc m) (suc n) [] h = refl
take-take (suc m) (suc n) (x ∷ xs) h = ap (λ ys. x ∷ ys) (take-take m n xs (omega arith))

signature_known :
    (s : Signature) (n : ℕ) (lines : List Text) (explain : Bool)
    → signature_lines s ≤ n
    → match_signature s (take n lines) explain ≡ match_signature s lines explain
unfolding match_signature window_text
signature_known s n lines explain h =
    ap (λ ls. match_text s (join_lines ls) explain) (take-take (signature_lines s) n lines h)

-- A definition whose signature looks no further is known from there.
check_known :
    (ctx : Context) (e : Entry) (n : ℕ) (lines : List Text)
    → (unsigned e.def.detect.signature ≡ false → signature_lines e.def.detect.signature ≤ n)
    → IsKnownFrom n ctx lines e
check_known ctx e n lines h =
    let s = e.def.detect.signature in
    let explain = not (is_nil ctx.parser) in
    let known : (unsigned s || ok (match_signature s (take n lines) explain))
        ≡ (unsigned s || ok (match_signature s lines explain)) =
      elim (Bool-cases (unsigned s)) [
        | inl u ↦ rw u refl
        | inr u ↦ ap (λ v. unsigned s || ok v) (signature_known s n lines explain (h u))
      ] in
    check-ok ctx (take n lines) e
    ∙ ap (λ b. not (wrong_nul ctx e) && (not (wrong_os ctx e) && (is_none (wrong_args ctx e) && b)))
        known
    ∙ sym (check-ok ctx lines e)

widest-le : (es : List Entry) (n : ℕ) → n ≤ widest es n
unfolding widest
widest-le [] n = omega arith
widest-le (e ∷ es) n =
    let m = signature_lines e.def.detect.signature in
    let passed = widest-le es n in let seen = widest-le es (max n m) in ground arith

signature_lines-le :
    (s : Signature) → s.window ≤ max_signature_window → signature_lines s ≤ max_signature_window
unfolding signature_lines
signature_lines-le s h = ground arith

-- A definition a window is asked for is known from it.
widest-known :
    (es : List Entry) (n k : ℕ) (ctx : Context) (lines : List Text)
    → All IsBounded es
    → min (max (widest es n) 1) max_signature_window ≤ k
    → All (IsKnownFrom k ctx lines) es
unfolding widest
widest-known [] n k ctx lines b h = tt
widest-known (e ∷ es) n k ctx lines (b, bs) h =
    let s = e.def.detect.signature in
    elim (Bool-cases (unsigned s)) [
      | inl u ↦ (
        check_known ctx e k lines (λ f. absurd (let bad : false ≡ true = sym f ∙ u in cc)),
        widest-known es n k ctx lines bs (rw (u, widest) at h),
      )
      | inr u ↦
          let m = signature_lines s in
          let l : min (max (widest es (max n m)) 1) max_signature_window ≤ k =
            (rw (u, widest) at h) in
          let above = widest-le es (max n m) in
          let below = signature_lines-le s b in
          (check_known ctx e k lines (λ _. omega arith), widest-known es (max n m) k ctx lines bs l)
    ]

hidden : (a b c x y : Bool) → (b && c) ≡ false → (a && (b && (c && x))) ≡ (a && (b && (c && y)))
hidden a true true x y h = absurd (let bad : true ≡ false = h in cc)
hidden a true false x y h = refl
hidden a false c x y h = refl

-- A definition that the system or the arguments rule out never fits.
ruled_out :
    (ctx : Context) (e : Entry) (n : ℕ) (lines : List Text)
    → (not (wrong_os ctx e) && is_none (wrong_args ctx e)) ≡ false
    → IsKnownFrom n ctx lines e
ruled_out ctx e n lines h =
    rw (check-ok ctx (take n lines) e, check-ok ctx lines e)
      (hidden (not (wrong_nul ctx e)) (not (wrong_os ctx e)) (is_none (wrong_args ctx e)) _ _ h)

admitted-known :
    (es : List Entry) (n : ℕ) (ctx : Context) (lines : List Text)
    → All (IsKnownFrom n ctx lines) (admitted ctx es)
    → All (IsKnownFrom n ctx lines) es
unfolding admitted
admitted-known [] n ctx lines a = tt
admitted-known (e ∷ es) n ctx lines a =
    elim (Bool-cases (not (wrong_os ctx e) && is_none (wrong_args ctx e))) [
      | inl y ↦
          let both : All (IsKnownFrom n ctx lines) (e ∷ admitted ctx es) =
            (rw (y, admitted) at a) in
          (both.0, admitted-known es n ctx lines both.1)
      | inr y ↦ (ruled_out ctx e n lines y, admitted-known es n ctx lines (rw (y, admitted) at a))
    ]

admitted-IsBounded :
    (es : List Entry) (ctx : Context) → All IsBounded es → All IsBounded (admitted ctx es)
unfolding admitted
admitted-IsBounded [] ctx b = tt
admitted-IsBounded (e ∷ es) ctx (b, bs) =
    let rest = admitted-IsBounded es ctx bs in
    elim (Bool-cases (not (wrong_os ctx e) && is_none (wrong_args ctx e))) [
      | inl y ↦ rw (y, admitted) (b, rest)
      | inr y ↦ rw (y, admitted) rest
    ]

-- Where no definition searched has a signature that asks for more than the largest window, which of them
-- fit a text is known from as many of its first lines as `Window` says.
pub window-check :
    (reg : Registry) (ctx : Context) (lines : List Text)
    → All IsBounded (searched reg ctx)
    → All (IsKnownFrom (window reg ctx).0 ctx lines) (searched reg ctx)
unfolding window window_of candidates
window-check reg ctx lines b = elim (Bool-cases (is_nil ctx.parser)) [
  | inl y ↦ rw (y, window) (widest-known reg.all 0 _ ctx lines (rw y at b) (omega arith))
  | inr y ↦
      rw (y, window)
        (admitted-known (scope reg ctx) _ ctx lines (
          widest-known (candidates reg ctx) 0 _ ctx lines
            (admitted-IsBounded (scope reg ctx) ctx (rw y at b)) (omega arith)))
]
