-- ===== src/Object/Laws.antt =====
-- The operations of pkg/jsonutil/object.go against those of a dictionary in insertion order.
use jsonize.Prelude.{
  ◌∙◌, sym, ap, ◌≡◌, refl, List, [], ◌∷◌, none, some, Text, same, same_iff, if◌then◌else◌, arith,
  Option-cases, inl, inr,
}
use jsonize.Object.{Member, Object, find, reindex, note_index, set, get, delete, reindex_kept}
use jsonize.Object.Scan.{
  NoRepeat, value_of, upsert, remove, scan-value_at, scan-value_none, scan-put, scan-append_new,
  scan-cut, scan-remove-none,
}
use jsonize.Object.Index.{IsValid, find-scan, set-IsValid, delete-IsValid}

module _ {ℓ} {V : Type ℓ} where
  note_index-members : (o : Object V) (k : Text) → (note_index o k).members ≡ o.members
  unfolding note_index reindex
  note_index-members o k = ground arith

  reindex_kept-members : (o : Object V) → (reindex_kept o).members ≡ o.members
  unfolding reindex_kept reindex
  reindex_kept-members o = ground arith

  -- `Get` of an object that keeps the invariant answers as its members do, read as a dictionary.
  pub get-value_of : (o : Object V) (k : Text) → IsValid o → get o k ≡ value_of k o.members
  unfolding get
  get-value_of o k h = elim (Option-cases (find o k)) [
    | inl e ↦ rw (e, get) (sym (scan-value_none k o.members 0 (sym (find-scan o k h) ∙ e)))
    | inr (i, e) ↦ rw (e, get) (scan-value_at k o.members i (sym (find-scan o k h) ∙ e))
  ]

  -- The members of a valid object after `Set` are those of a dictionary in insertion order: the
  -- value is replaced
  -- where its key stands, and a new key goes last.
  pub set-upsert :
      (o : Object V) (k : Text) (v : V) → IsValid o → (set o k v).members ≡ upsert k v o.members
  unfolding set
  set-upsert o k v h = elim (Option-cases (find o k)) [
    | inl e ↦
        rw (e, set)
          (note_index-members _ k ∙ scan-append_new k v o.members 0 (sym (find-scan o k h) ∙ e))
    | inr (i, e) ↦ rw (e, set) (scan-put k v o.members i (sym (find-scan o k h) ∙ e))
  ]

  -- `Delete` on a valid object takes the member of the key out and keeps the others in their order.
  pub delete-remove :
      (o : Object V) (k : Text) → IsValid o → (delete o k).members ≡ remove k o.members
  unfolding delete
  delete-remove o k h = elim (Option-cases (find o k)) [
    | inl e ↦ rw (e, delete) (sym (scan-remove-none k o.members 0 (sym (find-scan o k h) ∙ e)))
    | inr (i, e) ↦
        rw (e, delete) (reindex_kept-members _ ∙ scan-cut k o.members i (sym (find-scan o k h) ∙ e))
  ]

  value_of-upsert :
      (k j : Text) (v : V) (ms : List (Member V))
      → value_of j (upsert k v ms) ≡ (if same k j then some v else value_of j ms)
  unfolding value_of upsert
  value_of-upsert k j v [] = refl
  value_of-upsert k j v (m ∷ ms) =
      ground (arith, same_iff m.key k, same_iff m.key j, same_iff k j, value_of-upsert k j v ms)

  value_of-remove :
      (k j : Text) (ms : List (Member V))
      → NoRepeat ms
      → value_of j (remove k ms) ≡ (if same k j then none else value_of j ms)
  unfolding value_of remove
  value_of-remove k j [] h = ground arith
  value_of-remove k j (m ∷ ms) (fresh, h) = ground (
    arith,
    same_iff m.key k,
    same_iff m.key j,
    same_iff k j,
    value_of-remove k j ms h,
    scan-value_none m.key ms 0 fresh,
  )

  -- Reading a key of a valid object after setting one: the value set if they are the same key, and what was there
  -- before if not.
  pub get-set :
      (o : Object V) (k j : Text) (v : V)
      → IsValid o
      → get (set o k v) j ≡ (if same k j then some v else get o j)
  get-set o k j v h =
      get-value_of (set o k v) j (set-IsValid o k v h)
      ∙ ap (value_of j) (set-upsert o k v h)
      ∙ value_of-upsert k j v o.members
      ∙ rw (get-value_of o j h)

  -- Reading a key of a valid object after deleting one: nothing if they are the same key, and what was there before
  -- if not.
  pub get-delete :
      (o : Object V) (k j : Text)
      → IsValid o
      → get (delete o k) j ≡ (if same k j then none else get o j)
  get-delete o k j h =
      get-value_of (delete o k) j (delete-IsValid o k h)
      ∙ ap (value_of j) (delete-remove o k h)
      ∙ value_of-remove k j o.members h.no_repeat
      ∙ rw (get-value_of o j h)
