-- ===== src/Stream/Counting.antt =====
-- pkg/engine/stream.go: the counter of `hold` is the bytes that the stages and the parser hold back.
use jsonize.Prelude.{
  ℕ, ◌+◌, ◌≤◌, ◌≡◌, refl, ap, ◌∙◌, List, [], ◌∷◌, ◌++◌, Text, ltb, arith, inl, inr, Bool-cases,
  length-append,
}
use jsonize.Engine.Line.{Line}
use jsonize.Engine.Fold.{join}
use jsonize.Stream.Flow.{
  Fault, held_too_long, Flow, ok, err, ◌>>=◌, map_flow, take_held, line_bytes, lines_bytes, Sink,
}
use jsonize.Stream.Stages.{Grouping, Folding, Edges, Picking}

-- The counter is the bytes counted elsewhere and those of the state, and is within the limit.
pub data Holds {ℓ} {A : Type ℓ} (limit n : ℕ) (bytes : A → ℕ) : Flow (ℕ × A) → Type ℓ where
  counted : (h : ℕ) (a : A) → h ≡ n + bytes a → h ≤ limit → Holds limit n bytes (ok (h, a))
  ended : (e : Fault) → Holds limit n bytes (err e)

-- What takes a line leaves the counter so.
abbrev pub Counts {ℓ} : {S : Type ℓ} → ℕ → (S → ℕ) → Sink ℕ S → Type ℓ
Counts {S = S} limit bytes next =
    (n : ℕ) (l : Line) (h : ℕ) (s : S)
    → h ≡ n + bytes s
    → h ≤ limit
    → Holds limit n bytes (next l (h, s))

-- the texts of lines
abbrev pub texts_of : List Line → List Text
texts_of [] = []
texts_of (l ∷ ls) = l.text ∷ texts_of ls

abbrev pub grouping_bytes {ℓ} : {S : Type ℓ} → (S → ℕ) → Grouping × S → ℕ
grouping_bytes bytes (g, s) = lines_bytes g.pieces + bytes s

abbrev pub folding_bytes {ℓ} : {S : Type ℓ} → (S → ℕ) → Folding × S → ℕ
folding_bytes bytes (f, s) = lines_bytes f.pieces + bytes s

abbrev pub edges_bytes {ℓ} : {S : Type ℓ} → (S → ℕ) → Edges × S → ℕ
edges_bytes bytes (e, s) = lines_bytes (texts_of e.empty) + bytes s

-- the selection holds no line back
abbrev pub picking_bytes {ℓ} : {S : Type ℓ} → (S → ℕ) → Picking × S → ℕ
picking_bytes bytes (p, s) = bytes s

pub lines_bytes-append :
    (xs ys : List Text) → lines_bytes (xs ++ ys) ≡ lines_bytes xs + lines_bytes ys
unfolding lines_bytes
lines_bytes-append [] ys = omega arith
lines_bytes-append (x ∷ xs) ys = ground (arith, lines_bytes-append xs ys)

pub texts_of-append : (xs ys : List Line) → texts_of (xs ++ ys) ≡ texts_of xs ++ texts_of ys
texts_of-append [] ys = refl
texts_of-append (x ∷ xs) ys = ap (λ ts. x.text ∷ ts) (texts_of-append xs ys)

-- A record of several lines is held as its lines are.
pub line_bytes-join :
    (b : ℕ) (p : Text) (ps : List Text) → line_bytes (join b (p ∷ ps)) ≡ lines_bytes (p ∷ ps)
unfolding line_bytes lines_bytes join
line_bytes-join b p [] = omega arith
line_bytes-join b p (q ∷ ps) =
    let ih = line_bytes-join b q ps in let l = length-append p (b ∷ join b (q ∷ ps)) in ground arith

module _ {ℓ} {A B : Type ℓ} {limit n m : ℕ} {b : A → ℕ} {c : B → ℕ} where
  pub bind-Holds :
      {r : Flow (ℕ × A)} (f : ℕ × A → Flow (ℕ × B))
      → Holds limit n b r
      → ((h : ℕ) (a : A) → h ≡ n + b a → h ≤ limit → Holds limit m c (f (h, a)))
      → Holds limit m c (r >>= f)
  bind-Holds f (counted h a e l) k = k h a e l
  bind-Holds f (ended x) k = ended x

  pub map_flow-Holds :
      {r : Flow (ℕ × A)} (f : A → B)
      → Holds limit n b r
      → ((a : A) → n + b a ≡ m + c (f a))
      → Holds limit m c (map_flow (λ x. (x.0, f x.1)) r)
  map_flow-Holds f (counted h a e l) k = counted h (f a) (e ∙ k a) l
  map_flow-Holds f (ended x) k = ended x

pub take_held-Holds {ℓ} :
    {B : Type ℓ} (limit m : ℕ) (c : B → ℕ) (n num h : ℕ) (f : ℕ → Flow (ℕ × B))
    → ((h1 : ℕ) → h1 ≡ h + n → h1 ≤ limit → Holds limit m c (f h1))
    → Holds limit m c (take_held limit n num h >>= f)
unfolding take_held
take_held-Holds limit m c n num h f k = elim (Bool-cases (ltb limit (h + n))) [
  | inl e ↦ rw (e, take_held) (ended (held_too_long num))
  | inr e ↦ rw (e, take_held) (k (h + n) refl (ground arith))
]
