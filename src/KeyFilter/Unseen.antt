-- ===== src/KeyFilter/Unseen.antt =====
-- internal/cli/keys.go, `saw` and `unseen`: which of the named keys a document has.
use jsonize.Prelude.{
  ◌≡◌, refl, ap, ◌∙◌, Bool, true, false, ◌&&◌, ◌||◌, List, [], ◌∷◌, ◌++◌, none, Text, same,
  same_iff, if◌then◌else◌, arith, Bool-cases, inl, inr,
}
use jsonize.Object.{Member, Object, new_object, set}
use jsonize.KeyFilter.{
  KeyFilter, Doc, Docs, object, array, other, nil, cons, has, agrees, mark_key, copy_keys, saw,
  new_key_filter, narrow_from, narrow, walk, walk_all, failing, unseen, apply,
}
use jsonize.KeyFilter.Narrow.{holds}

-- Whether an object of a document has the key.
unfoldable mutual
  pub holds_key {ℓ} : {V : Type ℓ} → Text → Doc V → Bool
  holds_key k (object o) = holds k o.members
  holds_key k (array ds) = some_holds k ds
  holds_key k (other v) = false

  pub some_holds {ℓ} : {V : Type ℓ} → Text → Docs V → Bool
  some_holds k nil = false
  some_holds k (cons d ds) = holds_key k d || some_holds k ds

has-concat : (k j : Text) (ks : List Text) → has k (ks ++ j ∷ []) ≡ (has k ks || same j k)
unfolding has
has-concat k j [] = ground arith
has-concat k j (x ∷ ks) = ground (arith, has-concat k j ks)

has-mark_key : (k j : Text) (ks : List Text) → has k (mark_key j ks) ≡ (has k ks || same j k)
unfolding mark_key
has-mark_key k j ks = elim (Bool-cases (same j k)) [
  | inl e ↦
      let is : j ≡ k = (same_iff j k).0 e in
      ground (arith, has-concat k j ks, ap (λ x. has x ks) is)
  | inr e ↦ ground (arith, has-concat k j ks)
]

has-copy_keys : (k : Text) (ks js : List Text) → has k (copy_keys ks js) ≡ (has k ks || has k js)
unfolding copy_keys has
has-copy_keys k ks [] = ground arith
has-copy_keys k ks (j ∷ js) =
    ground (arith, has-copy_keys k (mark_key j ks) js, has-mark_key k j ks)

saw-seen :
    (f : KeyFilter) (k j : Text) (b : Bool)
    → has j (saw f k b).seen ≡ (has j f.seen || b && same k j)
unfolding saw
saw-seen f k j b = ground (arith, has-mark_key j k f.seen)

same_named : (k j : Text) (ks : List Text) → same k j ≡ true → has k ks ≡ has j ks
same_named k j ks h = ap (λ x. has x ks) ((same_iff k j).0 h)

-- The settings of a filter, which reading a document does not change.
pub record Follows (f g : KeyFilter) : Type 0 where
  pub keys_kept : g.keys ≡ f.keys
  pub known_kept : g.known ≡ f.known

saw-Follows : (f : KeyFilter) (k : Text) (b : Bool) → Follows f (saw f k b)
unfolding saw
saw-Follows f k b = record { keys_kept = ground arith; known_kept = ground arith }

failing-all :
    (p : Text → Bool) (ks : List Text) (k : Text) → failing p ks ≡ [] → has k ks ≡ true → p k ≡ true
unfolding failing has
failing-all p [] k h e = ground arith
failing-all p (j ∷ ks) k h e = elim (Bool-cases (same j k)) [
  | inl is ↦ ground (arith, ap p ((same_iff j k).0 is))
  | inr is ↦ ground (arith, failing-all p ks k)
]

unseen-none :
    (f : KeyFilter) (k : Text)
    → unseen f ≡ none
    → has k f.keys ≡ true
    → (has k f.seen || has k f.known) ≡ true
unfolding unseen
unseen-none f k h e = failing-all (λ k. has k f.seen || has k f.known) f.keys k (ground arith) e

-- What a filter has after a document: its keys, and those of them seen that the document has.
pub record Sees (f g : KeyFilter) (j : Text) (held : Bool) : Type 0 where
  pub keys_kept : g.keys ≡ f.keys
  pub known_kept : g.known ≡ f.known
  pub seen_now : has j g.seen ≡ (has j f.seen || has j f.keys && held)

module _ {ℓ} {V : Type ℓ} where
  narrow_from-Sees :
      (f : KeyFilter) (ms : List (Member V)) (out : Object V) (j : Text)
      → Sees f (narrow_from f ms out).1 j (holds j ms)
  unfolding narrow_from holds
  narrow_from-Sees f [] out j = record {
    keys_kept = refl;
    known_kept = refl;
    seen_now = ground arith;
  }
  narrow_from-Sees f (m ∷ ms) out j =
      let named = has m.key f.keys in
      let g = saw f m.key named in
      let next = if agrees named f.keep then set out m.key m.value else out in
      let first = saw-Follows f m.key named in
      let rest = narrow_from-Sees g ms next j in
      let same_name = same_named m.key j f.keys in
      record {
        keys_kept = rest.keys_kept ∙ first.keys_kept;
        known_kept = rest.known_kept ∙ first.known_kept;
        seen_now =
            rest.seen_now
            ∙ ground (arith, ap (has j) first.keys_kept, saw-seen f m.key j named, same_name);
      }

  mutual
    unfolding walk walk_all narrow holds_key

    pub walk-Sees : (f : KeyFilter) (d : Doc V) (j : Text) → Sees f (walk f d).1 j (holds_key j d)
    walk-Sees f (object o) j = narrow_from-Sees f o.members new_object j
    walk-Sees f (array ds) j = walk_all-Sees f ds j
    walk-Sees f (other v) j = record {
      keys_kept = refl;
      known_kept = refl;
      seen_now = ground arith;
    }

    walk_all-Sees :
        (f : KeyFilter) (ds : Docs V) (j : Text) → Sees f (walk_all f ds).1 j (some_holds j ds)
    walk_all-Sees f nil j = record { keys_kept = refl; known_kept = refl; seen_now = ground arith }
    walk_all-Sees f (cons d ds) j =
        let first = walk-Sees f d j in
        let rest = walk_all-Sees (walk f d).1 ds j in
        record {
          keys_kept = rest.keys_kept ∙ first.keys_kept;
          known_kept = rest.known_kept ∙ first.known_kept;
          seen_now = rest.seen_now ∙ ground (arith, ap (has j) first.keys_kept, first.seen_now);
        }

  -- A document that a fresh filter passes without an error has, in one of its objects, every key that
  -- was named: no key asked for is quietly missing.
  pub apply-holds_key :
      (keys : List Text) (keep : Bool) (d : Doc V) (k : Text)
      → (apply (new_key_filter keys keep) d).1 ≡ none
      → has k keys ≡ true
      → holds_key k d ≡ true
  unfolding apply new_key_filter has
  apply-holds_key keys keep d k h e =
      let f = new_key_filter keys keep in
      let sees = walk-Sees f d k in
      ground (
        arith,
        unseen-none (walk f d).1 k h,
        ap (has k) sees.keys_kept,
        ap (has k) sees.known_kept,
        sees.seen_now,
        has-copy_keys k [] keys,
      )
