-- ===== src/Object/Index.antt =====
-- The invariant of an object of pkg/jsonutil/object.go, between its members and its index.
use jsonize.Prelude.{
  sym, subst, ltb, ◌∙◌, length-concat, ℕ, zero, suc, ◌-◌, ◌+◌, ◌≡◌, refl, List, [], ◌∷◌, ◌++◌,
  Option, none, some, Text, same, same_iff, lookup, insert, lookup-insert, if◌then◌else◌, length,
  ◌∙◌, arith, Bool-cases, Option-cases, inl, inr,
}
use jsonize.Object.{
  index_at, Member, Object, new_object, scan, find, index_from, reindex, put, note_index, set, cut,
  delete, reindex_kept,
}
use jsonize.Object.Scan.{NoRepeat, remove, scan-none, scan-cut}

abbrev or_else : Option ℕ → Option ℕ → Option ℕ
or_else (some a) b = some a
or_else none b = b

or_else-none : (o : Option ℕ) → or_else o none ≡ o
or_else-none none = refl
or_else-none (some a) = refl

module _ {ℓ} {V : Type ℓ} where
  pub record IsValid (o : Object V) : Type ℓ where
    pub no_repeat : NoRepeat o.members
    pub indexed :
        (m : List (Text × ℕ)) → o.index ≡ some m → (k : Text) → lookup k m ≡ scan k o.members 0

  -- What `index_from` makes finds what a scan finds.
  lookup-index_from :
      (k : Text) (ms : List (Member V)) (i : ℕ) (m : List (Text × ℕ))
      → NoRepeat ms
      → lookup k (index_from ms i m) ≡ or_else (scan k ms i) (lookup k m)
  unfolding index_from scan
  lookup-index_from k [] i m h = refl
  lookup-index_from k (x ∷ xs) i m (fresh, h) = ground (
    arith,
    lookup-index_from k xs (suc i) (insert x.key i m) h,
    lookup-insert x.key k i m,
    same_iff x.key k,
    scan-none x.key xs 0 (suc i) fresh,
  )

  lookup-reindex :
      (k : Text) (ms : List (Member V)) → NoRepeat ms → lookup k (index_from ms 0 []) ≡ scan k ms 0
  unfolding lookup
  lookup-reindex k ms h = lookup-index_from k ms 0 [] h ∙ or_else-none (scan k ms 0)

  scan-put_keys :
      (k : Text) (ms : List (Member V)) (i p : ℕ) (v : V) → scan k (put ms p v) i ≡ scan k ms i
  unfolding scan put
  scan-put_keys k [] i p v = refl
  scan-put_keys k (x ∷ xs) i zero v = refl
  scan-put_keys k (x ∷ xs) i (suc p) v = ground (arith, scan-put_keys k xs (suc i) p v)

  NoRepeat-put : (ms : List (Member V)) (p : ℕ) (v : V) → NoRepeat ms → NoRepeat (put ms p v)
  unfolding put
  NoRepeat-put [] p v h = h
  NoRepeat-put (x ∷ xs) zero v h = h
  NoRepeat-put (x ∷ xs) (suc p) v (fresh, h) =
      (scan-put_keys x.key xs 0 p v ∙ fresh, NoRepeat-put xs p v h)

  scan-concat :
      (k : Text) (ms : List (Member V)) (x : Member V) (i : ℕ)
      → scan k (ms ++ x ∷ []) i
        ≡ or_else (scan k ms i) (if same x.key k then some (i + length ms) else none)
  unfolding scan
  scan-concat k [] x i = ground arith
  scan-concat k (y ∷ ys) x i = ground (arith, scan-concat k ys x (suc i))

  NoRepeat-concat :
      (ms : List (Member V)) (x : Member V)
      → NoRepeat ms
      → scan x.key ms 0 ≡ none
      → NoRepeat (ms ++ x ∷ [])
  unfolding scan
  NoRepeat-concat [] x h e = (refl, tt)
  NoRepeat-concat (y ∷ ys) x (fresh, h) e = (
    ground (arith, scan-concat y.key ys x 0, same_iff x.key y.key, same_iff y.key x.key),
    NoRepeat-concat ys x h (ground (arith, scan-none x.key ys 1 0)),
  )

  scan-remove :
      (k j : Text) (ms : List (Member V)) (i : ℕ)
      → scan k ms i ≡ none
      → scan k (remove j ms) i ≡ none
  unfolding scan remove
  scan-remove k j [] i h = refl
  scan-remove k j (x ∷ xs) i h =
      ground (arith, scan-remove k j xs (suc i), scan-none k xs (suc i) i)

  NoRepeat-remove : (j : Text) (ms : List (Member V)) → NoRepeat ms → NoRepeat (remove j ms)
  unfolding remove
  NoRepeat-remove j [] h = h
  NoRepeat-remove j (x ∷ xs) (fresh, h) =
      ground (arith, scan-remove x.key j xs 0 fresh, NoRepeat-remove j xs h)

  pub new_object-IsValid : IsValid (new_object {V = V})
  unfolding new_object
  new_object-IsValid = record { no_repeat = tt; indexed = λ m e. cc }

  -- The index is only ever a faster scan.
  pub find-scan : (o : Object V) (k : Text) → IsValid o → find o k ≡ scan k o.members 0
  unfolding find
  find-scan o k h = elim (Option-cases o.index) [
    | inl e ↦ rw e
    | inr (m, e) ↦ rw e (h.indexed m e k)
  ]

  reindex-IsValid : (o : Object V) → NoRepeat o.members → IsValid (reindex o)
  unfolding reindex
  reindex-IsValid o h = record {
    no_repeat = h;
    indexed = λ m e k. ground (arith, lookup-reindex k o.members h);
  }

  put-IsValid :
      (o : Object V) (p : ℕ) (v : V)
      → IsValid o
      → IsValid (record o { members = put o.members p v })
  put-IsValid o p v h = record {
    no_repeat = NoRepeat-put o.members p v h.no_repeat;
    indexed = λ m e k. h.indexed m e k ∙ sym (scan-put_keys k o.members 0 p v);
  }

  -- one more entry keeps an index in step with one more member
  insert-indexed :
      (ms : List (Member V)) (x : Member V) (m : List (Text × ℕ)) (k : Text)
      → lookup k m ≡ scan k ms 0
      → scan x.key ms 0 ≡ none
      → lookup k (insert x.key (length (ms ++ x ∷ []) - 1) m) ≡ scan k (ms ++ x ∷ []) 0
  insert-indexed ms x m k h fresh = ground (
    arith,
    lookup-insert x.key k (length (ms ++ x ∷ []) - 1) m,
    scan-concat k ms x 0,
    length-concat ms x,
    same_iff x.key k,
  )

  grow-IsValid :
      (o : Object V) (x : Member V)
      → IsValid o
      → scan x.key o.members 0 ≡ none
      → IsValid (note_index (record o { members = o.members ++ x ∷ [] }) x.key)
  unfolding note_index
  grow-IsValid o x h fresh =
      let longer : NoRepeat (o.members ++ x ∷ []) = NoRepeat-concat o.members x h.no_repeat fresh in
      elim (Option-cases o.index) [
        | inl e ↦ elim (Bool-cases (ltb index_at (length (o.members ++ x ∷ [])))) [
          | inl big ↦
              rw (e, big) (reindex-IsValid (record o { members = o.members ++ x ∷ [] }) longer)
          | inr small ↦ rw (e, small) (record { no_repeat = longer; indexed = λ m e' k. cc })
        ]
        | inr (m, e) ↦ rw e (record {
          no_repeat = longer;
          indexed = λ m' e' k.
              subst (λ z. lookup k z ≡ scan k (o.members ++ x ∷ []) 0) (cc)
                (insert-indexed o.members x m k (h.indexed m e k) fresh);
        })
      ]

  -- `Set` keeps the invariant.
  pub set-IsValid : (o : Object V) (k : Text) (v : V) → IsValid o → IsValid (set o k v)
  unfolding set
  set-IsValid o k v h = elim (Option-cases (find o k)) [
    | inl e ↦
        rw (e, set) (grow-IsValid o (record { key = k; value = v }) h (sym (find-scan o k h) ∙ e))
    | inr (i, e) ↦ rw (e, set) (put-IsValid o i v h)
  ]

  -- `Delete` keeps the invariant.
  pub delete-IsValid : (o : Object V) (k : Text) → IsValid o → IsValid (delete o k)
  unfolding delete reindex_kept
  delete-IsValid o k h = elim (Option-cases (find o k)) [
    | inl e ↦ rw (e, delete) h
    | inr (i, e) ↦
        let kept : NoRepeat (cut o.members i) =
          subst NoRepeat (sym (scan-cut k o.members i (sym (find-scan o k h) ∙ e)))
            (NoRepeat-remove k o.members h.no_repeat) in
        elim (Option-cases o.index) [
          | inl e' ↦
              rw (e, delete, e', reindex_kept) (record { no_repeat = kept; indexed = λ m c j. cc })
          | inr (m, e') ↦
              rw (e, delete, e', reindex_kept)
                (reindex-IsValid (record o { members = cut o.members i }) kept)
        ]
  ]
