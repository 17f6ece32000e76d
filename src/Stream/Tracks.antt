-- ===== src/Stream/Tracks.antt =====
-- pkg/engine/stream.go: a run whose hold has a limit beside one whose hold has none.
use jsonize.Prelude.{ℕ, ◌+◌, ◌≤◌, List, [], ◌∷◌, ltb, Bool-cases, inl, inr, arith}
use jsonize.Engine.Line.{Line}
use jsonize.Stream.Flow.{
  Fault, Flow, ok, err, ◌>>=◌, map_flow, held_too_long, take_held, Sink, feed_all,
}

-- The run with the limit ends because it would hold too much, or it goes as the other and holds no more
-- than the limit.
pub data Tracks {ℓ} {A : Type ℓ} (limit : ℕ) : Flow (ℕ × A) → Flow (Unit {0} × A) → Type ℓ where
  too_long : (num : ℕ) (u : Flow (Unit {0} × A)) → Tracks limit (err (held_too_long num)) u
  agrees : (h : ℕ) (a : A) → h ≤ limit → Tracks limit (ok (h, a)) (ok (tt, a))
  fails : (e : Fault) → Tracks limit (err e) (err e)

module _ {ℓ} {A B : Type ℓ} (limit : ℕ) where
  pub bind-Tracks :
      {r : Flow (ℕ × A)} {u : Flow (Unit {0} × A)} (f : ℕ × A → Flow (ℕ × B))
      (g : Unit {0} × A → Flow (Unit {0} × B))
      → Tracks limit r u
      → ((h : ℕ) (a : A) → h ≤ limit → Tracks limit (f (h, a)) (g (tt, a)))
      → Tracks limit (r >>= f) (u >>= g)
  bind-Tracks f g (too_long num u) k = too_long num (u >>= g)
  bind-Tracks f g (agrees h a le) k = k h a le
  bind-Tracks f g (fails e) k = fails e

  pub map_flow-Tracks :
      {r : Flow (ℕ × A)} {u : Flow (Unit {0} × A)} (k : A → B)
      → Tracks limit r u
      → Tracks limit (map_flow (λ x. (x.0, k x.1)) r) (map_flow (λ x. (x.0, k x.1)) u)
  map_flow-Tracks k (too_long num u) = too_long num (map_flow (λ x. (x.0, k x.1)) u)
  map_flow-Tracks k (agrees h a le) = agrees h (k a) le
  map_flow-Tracks k (fails e) = fails e

module _ {ℓ} {B : Type ℓ} (limit : ℕ) where
  pub take_held-Tracks :
      (n num h : ℕ) (f : ℕ → Flow (ℕ × B)) (u : Flow (Unit {0} × B))
      → ((h1 : ℕ) → h1 ≤ limit → Tracks limit (f h1) u)
      → Tracks limit (take_held limit n num h >>= f) u
  unfolding take_held
  take_held-Tracks n num h f u k = elim (Bool-cases (ltb limit (h + n))) [
    | inl e ↦ rw (e, take_held) (too_long num u)
    | inr e ↦ rw (e, take_held) (k (h + n) (ground arith))
  ]

-- What takes a line with the one hold goes as what takes it with the other.
abbrev pub Follows {ℓ} : {S : Type ℓ} → ℕ → Sink ℕ S → Sink (Unit {0}) S → Type ℓ
Follows limit next full =
    (l : Line) (h : ℕ) (s : _) → h ≤ limit → Tracks limit (next l (h, s)) (full l (tt, s))

module _ {ℓ} {S : Type ℓ} (limit : ℕ) (next : Sink ℕ S) (full : Sink (Unit {0}) S) where
  pub feed_all-Tracks :
      (ls : List Line) (h : ℕ) (s : S)
      → Follows limit next full
      → h ≤ limit
      → Tracks limit (feed_all next ls (h, s)) (feed_all full ls (tt, s))
  unfolding feed_all
  feed_all-Tracks [] h s follows le = agrees h s le
  feed_all-Tracks (l ∷ ls) h s follows le =
      bind-Tracks limit (feed_all next ls) (feed_all full ls) (follows l h s le)
        (λ h1 s1 le1. feed_all-Tracks ls h1 s1 follows le1)
