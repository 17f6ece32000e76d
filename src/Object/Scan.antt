-- ===== src/Object/Scan.antt =====
-- The members of an object as a dictionary without positions, and what the positions of `find` are
-- in it.
use jsonize.Prelude.{
  ℕ, suc, ◌-◌, ◌≤◌, ◌≡◌, refl, List, [], ◌∷◌, ◌++◌, Option, none, some, Text, same, if◌then◌else◌,
  arith, Bool-cases, inl, inr,
}
use jsonize.Object.{Member, scan, put, cut, value_at}

sub_zero : (i : ℕ) → i - 0 ≡ i
sub_zero i = omega arith

module _ {ℓ} {V : Type ℓ} where
  -- The dictionary that an object stands for: the first member with the key has the value.
  unfoldable pub value_of : Text → List (Member V) → Option V
  value_of key [] = none
  value_of key (m ∷ ms) = if same m.key key then some m.value else value_of key ms

  -- Replace the value in place, or append the member.
  unfoldable pub upsert : Text → V → List (Member V) → List (Member V)
  upsert key v [] = record { key = key; value = v } ∷ []
  upsert key v (m ∷ ms) =
      if same m.key key then record m { value = v } ∷ ms else m ∷ upsert key v ms

  -- Leave the member out; the others keep their order.
  unfoldable pub remove : Text → List (Member V) → List (Member V)
  remove key [] = []
  remove key (m ∷ ms) = if same m.key key then ms else m ∷ remove key ms

  -- No key stands twice.
  abbrev pub NoRepeat : List (Member V) → Type 0
  NoRepeat [] = Unit
  NoRepeat (m ∷ ms) = (scan m.key ms 0 ≡ none) × NoRepeat ms

  pub scan-ge : (k : Text) (ms : List (Member V)) (i p : ℕ) → scan k ms i ≡ some p → i ≤ p
  unfolding scan
  scan-ge k [] i p h = ground arith
  scan-ge k (m ∷ ms) i p h = ground (arith, scan-ge k ms (suc i) p)

  pub scan-none :
      (k : Text) (ms : List (Member V)) (i j : ℕ) → scan k ms i ≡ none → scan k ms j ≡ none
  unfolding scan
  scan-none k [] i j h = refl
  scan-none k (m ∷ ms) i j h = ground (arith, scan-none k ms (suc i) (suc j))

  scan-value_at_from :
      (k : Text) (ms : List (Member V)) (i p : ℕ)
      → scan k ms i ≡ some p
      → value_at ms (p - i) ≡ value_of k ms
  unfolding scan value_at value_of
  scan-value_at_from k [] i p h = ground arith
  scan-value_at_from k (m ∷ ms) i p h = elim (Bool-cases (same m.key k)) [
    | inl e ↦ ground arith
    | inr e ↦ ground (arith, scan-value_at_from k ms (suc i) p, scan-ge k ms (suc i) p)
  ]

  pub scan-value_none :
      (k : Text) (ms : List (Member V)) (i : ℕ) → scan k ms i ≡ none → value_of k ms ≡ none
  unfolding scan value_of
  scan-value_none k [] i h = refl
  scan-value_none k (m ∷ ms) i h = ground (arith, scan-value_none k ms (suc i))

  scan-put_from :
      (k : Text) (v : V) (ms : List (Member V)) (i p : ℕ)
      → scan k ms i ≡ some p
      → put ms (p - i) v ≡ upsert k v ms
  unfolding scan put upsert
  scan-put_from k v [] i p h = ground arith
  scan-put_from k v (m ∷ ms) i p h =
      ground (arith, scan-put_from k v ms (suc i) p, scan-ge k ms (suc i) p)

  pub scan-append_new :
      (k : Text) (v : V) (ms : List (Member V)) (i : ℕ)
      → scan k ms i ≡ none
      → ms ++ record { key = k; value = v } ∷ [] ≡ upsert k v ms
  unfolding scan upsert
  scan-append_new k v [] i h = refl
  scan-append_new k v (m ∷ ms) i h = ground (arith, scan-append_new k v ms (suc i))

  scan-cut_from :
      (k : Text) (ms : List (Member V)) (i p : ℕ)
      → scan k ms i ≡ some p
      → cut ms (p - i) ≡ remove k ms
  unfolding scan cut remove
  scan-cut_from k [] i p h = ground arith
  scan-cut_from k (m ∷ ms) i p h =
      ground (arith, scan-cut_from k ms (suc i) p, scan-ge k ms (suc i) p)

  pub scan-remove-none :
      (k : Text) (ms : List (Member V)) (i : ℕ) → scan k ms i ≡ none → remove k ms ≡ ms
  unfolding scan remove
  scan-remove-none k [] i h = refl
  scan-remove-none k (m ∷ ms) i h = ground (arith, scan-remove-none k ms (suc i))

  -- The same from the first position on.
  pub scan-value_at :
      (k : Text) (ms : List (Member V)) (i : ℕ)
      → scan k ms 0 ≡ some i
      → value_at ms i ≡ value_of k ms
  scan-value_at k ms i h = rw sub_zero at (scan-value_at_from k ms 0 i h)

  pub scan-put :
      (k : Text) (v : V) (ms : List (Member V)) (i : ℕ)
      → scan k ms 0 ≡ some i
      → put ms i v ≡ upsert k v ms
  scan-put k v ms i h = rw sub_zero at (scan-put_from k v ms 0 i h)

  pub scan-cut :
      (k : Text) (ms : List (Member V)) (i : ℕ) → scan k ms 0 ≡ some i → cut ms i ≡ remove k ms
  scan-cut k ms i h = rw sub_zero at (scan-cut_from k ms 0 i h)
