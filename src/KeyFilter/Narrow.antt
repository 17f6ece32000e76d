-- ===== src/KeyFilter/Narrow.antt =====
-- internal/cli/keys.go, `narrow`: the members of an object that is narrowed, against those of the object.
use jsonize.Prelude.{
  ◌≡◌, refl, sym, ap, ◌∙◌, Bool, true, false, ◌||◌, List, [], ◌∷◌, ◌++◌, none, Text, same, same_iff,
  same_refl, if◌then◌else◌, arith, append_assoc, append-nil, Bool-cases, inl, inr, ◌↔◌, ℕ, suc,
}
use jsonize.Object.{Member, Object, new_object, scan, set, get}
use jsonize.Object.Scan.{NoRepeat, value_of, scan-append_new}
use jsonize.Object.Index.{IsValid, set-IsValid, new_object-IsValid}
use jsonize.Object.Laws.{get-value_of, set-upsert}
use jsonize.KeyFilter.{KeyFilter, has, agrees, saw, narrow_from, narrow}

module _ {ℓ} {V : Type ℓ} where
  -- The members that a filter leaves, in their order.
  unfoldable pub left : KeyFilter → List (Member V) → List (Member V)
  left f [] = []
  left f (m ∷ ms) =
      let rest = left f ms in if agrees (has m.key f.keys) f.keep then m ∷ rest else rest

  -- Whether a member has the key.
  unfoldable pub holds : Text → List (Member V) → Bool
  holds k [] = false
  holds k (m ∷ ms) = same m.key k || holds k ms

saw_keys :
    (f : KeyFilter) (k : Text) (b : Bool)
    → ((saw f k b).keys ≡ f.keys) × ((saw f k b).keep ≡ f.keep)
unfolding saw
saw_keys f k b = ground arith

module _ {ℓ} {V : Type ℓ} where
  left-saw :
      (f g : KeyFilter) (ms : List (Member V))
      → f.keys ≡ g.keys
      → f.keep ≡ g.keep
      → left f ms ≡ left g ms
  unfolding left
  left-saw f g [] h k = refl
  left-saw f g (m ∷ ms) h k = ground (arith, left-saw f g ms h k)

  pub scan-holds :
      (k : Text) (ms : List (Member V)) (i : ℕ) → (scan k ms i ≡ none) ↔ (holds k ms ≡ false)
  unfolding scan holds
  scan-holds k [] i = ground arith
  scan-holds k (m ∷ ms) i = ground (arith, scan-holds k ms (suc i))

  holds-concat :
      (k : Text) (ms : List (Member V)) (m : Member V)
      → holds k (ms ++ m ∷ []) ≡ (holds k ms || same m.key k)
  unfolding holds
  holds-concat k [] m = ground arith
  holds-concat k (x ∷ ms) m = ground (arith, holds-concat k ms m)

  pub set-new :
      (o : Object V) (m : Member V)
      → IsValid o
      → holds m.key o.members ≡ false
      → (set o m.key m.value).members ≡ o.members ++ m ∷ []
  set-new o m v fresh =
      set-upsert o m.key m.value v
      ∙ sym (scan-append_new m.key m.value o.members 0 ((scan-holds m.key o.members 0).1 fresh))

  -- No key of the members is one of the object.
  abbrev AreNew : List (Member V) → Object V → Type 0
  AreNew ms o = (j : Text) → holds j ms ≡ true → holds j o.members ≡ false

  holds-first : (m : Member V) (ms : List (Member V)) → holds m.key (m ∷ ms) ≡ true
  unfolding holds
  holds-first m ms = ground (arith, same_refl m.key)

  AreNew-rest :
      (m : Member V) (ms : List (Member V)) (o : Object V) → AreNew (m ∷ ms) o → AreNew ms o
  unfolding holds
  AreNew-rest m ms o h = λ j p. h j (ground arith)

  AreNew-set :
      (m : Member V) (ms : List (Member V)) (o : Object V)
      → IsValid o
      → scan m.key ms 0 ≡ none
      → AreNew (m ∷ ms) o
      → AreNew ms (set o m.key m.value)
  AreNew-set m ms o v fresh h = λ j p. ground (
    arith,
    set-new o m v (h m.key (holds-first m ms)),
    holds-concat j o.members m,
    AreNew-rest m ms o h j p,
    (scan-holds m.key ms 0).0 fresh,
    same_iff m.key j,
  )

  narrow_from-members :
      (f : KeyFilter) (ms : List (Member V)) (out : Object V)
      → IsValid out
      → NoRepeat ms
      → AreNew ms out
      → IsValid (narrow_from f ms out).0
        × ((narrow_from f ms out).0.members ≡ out.members ++ left f ms)
  unfolding narrow_from left
  narrow_from-members f [] out v n h = (v, sym (append-nil out.members))
  narrow_from-members f (m ∷ ms) out v (fresh, n) h =
      let named = has m.key f.keys in
      let g = saw f m.key named in
      let same_left = left-saw g f ms (saw_keys f m.key named).0 (saw_keys f m.key named).1 in
      let longer = set-new out m v (h m.key (holds-first m ms)) in
      elim (Bool-cases (agrees named f.keep)) [
        | inl e ↦
            let (valid, made) =
              narrow_from-members g ms (set out m.key m.value) (set-IsValid out m.key m.value v) n
                (AreNew-set m ms out v fresh h) in
            rw (e, narrow_from, left)
              (
                valid,
                made
                    ∙ ap (λ t. t ++ left g ms) longer
                    ∙ append_assoc out.members (m ∷ []) (left g ms)
                    ∙ ap (λ t. out.members ++ m ∷ t) same_left,
              )
        | inr e ↦
            let (valid, made) = narrow_from-members g ms out v n (AreNew-rest m ms out h) in
            rw (e, narrow_from, left) (valid, made ∙ ap (λ t. out.members ++ t) same_left)
      ]

  value_of-left :
      (f : KeyFilter) (k : Text) (ms : List (Member V))
      → value_of k (left f ms) ≡ (if agrees (has k f.keys) f.keep then value_of k ms else none)
  unfolding value_of left
  value_of-left f k [] = ground arith
  value_of-left f k (m ∷ ms) = elim (Bool-cases (same m.key k)) [
    | inl e ↦
        let is : m.key ≡ k = (same_iff m.key k).0 e in
        ground (arith, value_of-left f k ms, ap (λ j. has j f.keys) is)
    | inr e ↦ ground (arith, value_of-left f k ms)
  ]

  -- An object that is narrowed has, in their order, the members of the object that are named where the
  -- filter keeps the named ones, and those that are not where it drops them.
  pub narrow-left :
      (f : KeyFilter) (o : Object V)
      → IsValid o
      → IsValid (narrow f o).0 × ((narrow f o).0.members ≡ left f o.members)
  unfolding narrow left new_object
  narrow-left f o v =
      narrow_from-members f o.members new_object new_object-IsValid v.no_repeat
        (λ j p. unfold new_object holds in refl)

  -- Reading a key of a valid object that was narrowed: what the object has under it where the filter
  -- keeps the key, and nothing where it does not.
  pub get-narrow :
      (f : KeyFilter) (o : Object V) (k : Text)
      → IsValid o
      → get (narrow f o).0 k ≡ (if agrees (has k f.keys) f.keep then get o k else none)
  get-narrow f o k v =
      get-value_of (narrow f o).0 k (narrow-left f o v).0
      ∙ ap (value_of k) (narrow-left f o v).1
      ∙ value_of-left f k o.members
      ∙ ap (λ x. if agrees (has k f.keys) f.keep then x else none) (sym (get-value_of o k v))
