-- ===== src/Pointer/Rendered.antt =====
-- internal/jsonbuild/jsonbuild.go, `render` against `pointer`: a message writes a location the way the
-- argument did.
use jsonize.Prelude.{
  ℕ, inl, inr, ◌⊎◌, ◌≡◌, refl, ap, ◌∙◌, arith, Bool, true, false, List, [], ◌∷◌, ◌++◌, Option, none,
  some, Text, codes, ◌==◌, same, same_iff, if◌then◌else◌, Bool-cases, Option-cases, All,
}
use jsonize.Pointer.{
  Token, appending, PointerError, empty_key, other_tilde, append_suffix, put_first, split_slash,
  with_byte, unescape_from, unescape, holds_tilde, token_of, read_part, read_parts, pointer,
  has_suffix, is_index, replace_all, escape_name, render,
}

-- No byte of a text is a slash.
abbrev holds_slash : Text → Bool
holds_slash [] = false
holds_slash (c ∷ cs) = if c == b'/' then true else holds_slash cs

-- Each part behind a slash.
abbrev slashed : List Text → Text
slashed [] = []
slashed (p ∷ ps) = b'/' ∷ p ++ slashed ps

abbrev behind : Text → Text
behind [] = []
behind (_ ∷ cs) = cs

slashed-put_first :
    (c : ℕ) (ps : List Text) → slashed (put_first (c ∷ []) ps) ≡ b'/' ∷ c ∷ behind (slashed ps)
unfolding put_first
slashed-put_first c [] = refl
slashed-put_first c (p ∷ ps) = refl

slashed-split_slash : (text : Text) → slashed (split_slash text) ≡ b'/' ∷ text
unfolding split_slash
slashed-split_slash [] = refl
slashed-split_slash (c ∷ cs) =
    let rest = slashed-split_slash cs in
    elim (Bool-cases (c == b'/')) [
      | inl y ↦ let e : c ≡ b'/' = ground arith in rw y (rw e (ap (λ t. b'/' ∷ t) rest))
      | inr n ↦ rw n (slashed-put_first c (split_slash cs) ∙ ap (λ t. b'/' ∷ c ∷ behind t) rest)
    ]

abbrev IsPart : Text → Type 0
IsPart p = holds_slash p ≡ false

put_first-IsPart :
    (c : ℕ) (ps : List Text)
    → (c == b'/') ≡ false
    → All IsPart ps
    → All IsPart (put_first (c ∷ []) ps)
unfolding put_first
put_first-IsPart c [] n a = (rw n refl, tt)
put_first-IsPart c (p ∷ ps) n (h, a) = (rw n h, a)

split_slash-IsPart : (text : Text) → All IsPart (split_slash text)
unfolding split_slash
split_slash-IsPart [] = (refl, tt)
split_slash-IsPart (c ∷ cs) =
    let rest = split_slash-IsPart cs in
    elim (Bool-cases (c == b'/')) [
      | inl y ↦ rw y (refl, rest)
      | inr n ↦ rw n (put_first-IsPart c (split_slash cs) n rest)
    ]

escape_name-other :
    (c : ℕ) (cs : Text)
    → (c == b'~') ≡ false
    → (c == b'/') ≡ false
    → escape_name (c ∷ cs) ≡ c ∷ escape_name cs
unfolding escape_name replace_all same
escape_name-other c cs t s = ground arith

with_byte-some :
    (b : Text) (o : Option Text) (name : Text)
    → with_byte b o ≡ some name
    → (rest : Text) × ((o ≡ some rest) × (name ≡ b ++ rest))
with_byte-some b none name e = absurd (let bad : none ≡ some name = e in cc)
with_byte-some b (some t) name e = (t, (refl, cc))

holds_slash-tail :
    (c : ℕ) (cs : Text)
    → holds_slash (c ∷ cs) ≡ false
    → ((c == b'/') ≡ false) × (holds_slash cs ≡ false)
holds_slash-tail c cs h = elim (Bool-cases (c == b'/')) [
  | inl y ↦ absurd (let bad : true ≡ false = (rw y at h) in cc)
  | inr n ↦ (n, rw n at h)
]

escape_name-unescape_from :
    (part name : Text)
    → holds_slash part ≡ false
    → unescape_from part ≡ some name
    → escape_name name ≡ part
unfolding unescape_from escape_name replace_all same
escape_name-unescape_from [] name h e =
    let x : [] ≡ name = (let y : some [] ≡ some name = e in cc) in rw (← x) refl
escape_name-unescape_from (c ∷ []) name h e = elim (Bool-cases (c == b'~')) [
  | inl t ↦ absurd (let bad : none ≡ some name = (rw t at e) in cc)
  | inr t ↦
      let x : c ∷ [] ≡ name = (let y : some (c ∷ []) ≡ some name = (rw t at e) in cc) in
      rw (← x) (escape_name-other c [] t (ground arith))
]
escape_name-unescape_from (c ∷ d ∷ ds) name h e =
    let (slash, rest_part) = holds_slash-tail c (d ∷ ds) h in
    let below = holds_slash-tail d ds rest_part in
    elim (Bool-cases (c == b'~')) [
      | inl t ↦
          let ec : c ≡ b'~' = ground arith in
          elim (Bool-cases (d == b'0')) [
            | inl z ↦
                let ed : d ≡ b'0' = ground arith in
                let (rest, (o, n)) =
                  with_byte-some (b'~' ∷ []) (unescape_from ds) name (rw (t, z) at e) in
                let ih = escape_name-unescape_from ds rest below.1 o in
                rw (n, ec, ed) (ap (λ x. b'~' ∷ b'0' ∷ x) ih)
            | inr z ↦ elim (Bool-cases (d == b'1')) [
              | inl w ↦
                  let ed : d ≡ b'1' = ground arith in
                  let (rest, (o, n)) =
                    with_byte-some (b'/' ∷ []) (unescape_from ds) name (rw (t, z, w) at e) in
                  let ih = escape_name-unescape_from ds rest below.1 o in
                  rw (n, ec, ed) (ap (λ x. b'~' ∷ b'1' ∷ x) ih)
              | inr w ↦ absurd (let bad : none ≡ some name = (rw (t, z, w) at e) in cc)
            ]
          ]
      | inr t ↦
          let (rest, (o, n)) = with_byte-some (c ∷ []) (unescape_from (d ∷ ds)) name (rw t at e) in
          let ih = escape_name-unescape_from (d ∷ ds) rest rest_part o in
          rw n (escape_name-other c rest t slash ∙ ap (λ x. c ∷ x) ih)
    ]

escape_name-plain :
    (part : Text) → holds_tilde part ≡ false → holds_slash part ≡ false → escape_name part ≡ part
unfolding holds_tilde escape_name replace_all
escape_name-plain [] t h = refl
escape_name-plain (c ∷ cs) t h =
    let (slash, rest) = holds_slash-tail c cs h in
    escape_name-other c cs (ground arith) slash
    ∙ ap (λ x. c ∷ x) (escape_name-plain cs (ground arith) rest)

-- The name that a part holds is written as the part.
escape_name-unescape :
    (part name : Text) → IsPart part → unescape part ≡ some name → escape_name name ≡ part
unfolding unescape
escape_name-unescape part name h e = elim (Bool-cases (holds_tilde part)) [
  | inl t ↦ escape_name-unescape_from part name h (rw t at e)
  | inr t ↦
      let x : part ≡ name = (let y : some part ≡ some name = (rw t at e) in cc) in
      rw (← x) (escape_name-plain part t h)
]

abbrev written : Token → Text
written t = if t.appends then b'-' ∷ [] else escape_name t.name

inr_injective {ℓ} : {A : Type ℓ} → (x y : A) → ◌≡◌ {A = PointerError ⊎ A} (inr x) (inr y) → x ≡ y
inr_injective x y e = cc

token_of-written :
    (part name : Text) (t : Token)
    → escape_name name ≡ part
    → token_of part name ≡ inr t
    → written t ≡ part
unfolding token_of
token_of-written part [] t h e = absurd (let bad : inl empty_key ≡ inr t = e in cc)
token_of-written part (c ∷ cs) t h e = elim (Bool-cases (same part (codes "-"))) [
  | inl d ↦
      let x : appending ≡ t = inr_injective appending t (rw d at e) in
      let y : part ≡ codes "-" = (same_iff part (codes "-")).0 d in rw (← x, y) refl
  | inr d ↦ elim (Bool-cases (has_suffix (codes "[]") (c ∷ cs))) [
    | inl a ↦ absurd (let bad : inl append_suffix ≡ inr t = (rw (d, a) at e) in cc)
    | inr a ↦
        let named : Token = record { name = c ∷ cs; appends = false; index = is_index (c ∷ cs) } in
        let x : named ≡ t = inr_injective named t (rw (d, a) at e) in rw (← x) h
  ]
]

read_part-written :
    (part : Text) (t : Token) → IsPart part → read_part part ≡ inr t → written t ≡ part
unfolding read_part
read_part-written part t h e = elim (Option-cases (unescape part)) [
  | inl n ↦ absurd (let bad : inl other_tilde ≡ inr t = (rw (n, read_part) at e) in cc)
  | inr (name, s) ↦
      token_of-written part name t (escape_name-unescape part name h s) (rw (s, read_part) at e)
]

Sum-cases {ℓ} :
    {A : Type ℓ}
    → (r : PointerError ⊎ A) → ((f : PointerError) × (r ≡ inl f)) ⊎ ((x : A) × (r ≡ inr x))
Sum-cases (inl f) = inl (f, refl)
Sum-cases (inr x) = inr (x, refl)

render-written : (t : Token) (ts : List Token) → render (t ∷ ts) ≡ b'/' ∷ written t ++ render ts
unfolding render
render-written t ts = elim (Bool-cases t.appends) [ inl a ↦ rw a refl | inr a ↦ rw a refl ]

read_parts-render :
    (parts : List Text) (ts : List Token)
    → All IsPart parts
    → read_parts parts ≡ inr ts
    → render ts ≡ slashed parts
unfolding read_parts render
read_parts-render [] ts a e = let x : [] ≡ ts = inr_injective [] ts e in rw (← x) refl
read_parts-render (part ∷ parts) ts (h, a) e = elim (Sum-cases (read_part part)) [
  | inl (f, n) ↦ absurd (let bad : inl f ≡ inr ts = (rw (n, read_parts) at e) in cc)
  | inr (t, r) ↦ elim (Sum-cases (read_parts parts)) [
    | inl (f, n) ↦ absurd (let bad : inl f ≡ inr ts = (rw (r, n, read_parts) at e) in cc)
    | inr (us, rs) ↦
        let x : t ∷ us ≡ ts = inr_injective (t ∷ us) ts (rw (r, rs, read_parts) at e) in
        let ih = read_parts-render parts us a rs in
        let w = read_part-written part t h r in rw (← x) (render-written t us ∙ rw (w, ih) refl)
  ]
]

-- A pointer that is read is what `render` writes for the location read from it.
pub pointer-render :
    (ptr : Text) (loc : List Token) → pointer ptr ≡ inr loc → render loc ≡ b'/' ∷ ptr
unfolding pointer
pointer-render ptr loc e =
    read_parts-render (split_slash ptr) loc (split_slash-IsPart ptr) e ∙ slashed-split_slash ptr
