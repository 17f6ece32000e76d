-- ===== src/Stream/Flow.antt =====
-- pkg/engine/stream.go, `hold`: the result of handing on a line, and the bytes a stream holds back.
use jsonize.Prelude.{
  ◌++◌, ◌≡◌, refl, ap, ℕ, suc, ◌+◌, ◌-◌, List, [], ◌∷◌, Option, none, some, Text, length, ltb,
  if◌then◌else◌,
}
use jsonize.Engine.Line.{Line, UnreadSpan, SplitError}

-- Why a stream ends: a record that is not accepted, what a stage ends with, or what the parser does. The
-- last is the end of the fuel of the model, which no run of a stream comes to.
pub data Fault : Type 0 where
  bad_record : SplitError → Fault
  held_too_long no_join : ℕ → Fault
  left_unread : UnreadSpan → Fault
  refused : ℕ → Fault
  out_of_rounds : Fault

pub data Flow {ℓ} (A : Type ℓ) : Type ℓ where
  ok : A → Flow A
  err : Fault → Flow A

infixl 5 ◌>>=◌
abbrev pub ◌>>=◌ {ℓ κ} : {A : Type ℓ} {B : Type κ} → Flow A → (A → Flow B) → Flow B
ok a >>= f = f a
err e >>= f = err e

abbrev pub map_flow {ℓ κ} : {A : Type ℓ} {B : Type κ} → (A → B) → Flow A → Flow B
map_flow f (ok a) = ok (f a)
map_flow f (err e) = err e

-- what a reading that succeeds gives
abbrev pub done {ℓ} : {A : Type ℓ} → Flow A → Option A
done (ok a) = some a
done (err e) = none

-- The methods of `hold`; the number before the state is the line an error names.
pub record Holding (H : Type 0) : Type 0 where
  pub take_bytes : ℕ → ℕ → H → Flow H
  pub give_bytes : ℕ → H → H

unfoldable pub take_held : ℕ → ℕ → ℕ → ℕ → Flow ℕ
take_held limit n num held = if ltb limit (held + n) then err (held_too_long num) else ok (held + n)

-- A hold with the given limit. What is given back was taken, so that the counter never falls below 0:
-- `Stream.Counting` shows it to be the bytes that are held.
abbrev pub bounded : ℕ → Holding ℕ
bounded limit = record { take_bytes = take_held limit; give_bytes = λ n held. held - n }

-- A hold without a limit.
abbrev pub unbounded : Holding (Unit {0})
unbounded = record { take_bytes = λ n num held. ok tt; give_bytes = λ n held. tt }

unfoldable pub line_bytes : Text → ℕ
line_bytes text = suc (length text)

unfoldable pub lines_bytes : List Text → ℕ
unfolding line_bytes
lines_bytes [] = 0
lines_bytes (t ∷ ts) = line_bytes t + lines_bytes ts

-- What takes a line: the bytes held, and the state of the stages from here on.
abbrev pub Sink {ℓ} : Type 0 → Type ℓ → Type ℓ
Sink H S = Line → H × S → Flow (H × S)

unfoldable pub feed_all {ℓ} : {S : Type ℓ} → (Line → S → Flow S) → List Line → S → Flow S
feed_all next [] s = ok s
feed_all next (l ∷ ls) s = next l s >>= feed_all next ls

module _ {ℓ} {A B C D : Type ℓ} where
  -- what follows a result, with a function applied in between
  pub map_flow-bind :
      (r : Flow A) (f : A → B) (next : B → Flow C) (close : C → Flow D) (k : A → Flow D)
      → ((a : A) → (next (f a) >>= close) ≡ k a)
      → (map_flow f r >>= next >>= close) ≡ (r >>= k)
  map_flow-bind (ok a) f next close k h = h a
  map_flow-bind (err e) f next close k h = refl

module _ {ℓ} {A B C : Type ℓ} where
  pub map_flow-map_flow :
      (r : Flow A) (f : A → B) (g : B → C) (k : A → C)
      → ((a : A) → g (f a) ≡ k a)
      → map_flow g (map_flow f r) ≡ map_flow k r
  map_flow-map_flow (ok a) f g k h = ap ok (h a)
  map_flow-map_flow (err e) f g k h = refl

pub bind-ok {ℓ} : {A : Type ℓ} (r : Flow A) → (r >>= (λ x. ok x)) ≡ r
bind-ok (ok a) = refl
bind-ok (err e) = refl

pub map_flow-id {ℓ} : {A : Type ℓ} (r : Flow A) → map_flow (λ x. x) r ≡ r
map_flow-id (ok a) = refl
map_flow-id (err e) = refl

module _ {ℓ} {S : Type ℓ} (next : Line → S → Flow S) where
  pub feed_all-append :
      (a b : List Line) (s : S) → feed_all next (a ++ b) s ≡ (feed_all next a s >>= feed_all next b)
  unfolding feed_all
  feed_all-append [] b s = refl
  feed_all-append (l ∷ a) b s =
      elim (next l s)
        as (λ r. (r >>= feed_all next (a ++ b)) ≡ (r >>= feed_all next a >>= feed_all next b)) [
          | ok z ↦ feed_all-append a b z
          | err e ↦ refl
        ]

module _ {ℓ} {A B C D : Type ℓ} where
  pub bind-map_flow :
      (r : Flow A) (f : A → B) (next : B → Flow C) (g : C → D) (k : A → Flow D)
      → ((a : A) → map_flow g (next (f a)) ≡ k a)
      → map_flow g (map_flow f r >>= next) ≡ (r >>= k)
  bind-map_flow (ok a) f next g k h = h a
  bind-map_flow (err e) f next g k h = refl
