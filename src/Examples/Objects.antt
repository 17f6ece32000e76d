-- ===== src/Examples/Objects.antt =====
-- Objects with and without an index.
use jsonize.Prelude.{
  true, false, ℕ, zero, suc, ◌≡◌, refl, Bool, [], ◌∷◌, none, some, Text, codes, same, lookup,
  insert, if◌then◌else◌,
}
use jsonize.Object.{
  Object, new_object, scan, find, index_from, reindex, put, note_index, set, value_at, get, cut,
  reindex_kept, delete,
}
use jsonize.Object.Scan.{upsert, remove}
use jsonize.Object.Index.{IsValid, new_object-IsValid, set-IsValid, delete-IsValid}
use jsonize.Object.Laws.{set-upsert, delete-remove, get-set, get-delete}

-- as many members as the number says, one for each key of one byte
unfoldable pub wide : ℕ → Object ℕ
wide zero = new_object
wide (suc n) = set (wide n) (n ∷ []) n

wide-IsValid : (n : ℕ) → IsValid (wide n)
unfolding wide
wide-IsValid zero = new_object-IsValid
wide-IsValid (suc n) = set-IsValid (wide n) (n ∷ []) n (wide-IsValid n)

abbrev b_key : Text
b_key = codes "b"

set-IsValid_example : IsValid (set (wide 40) b_key 7)
set-IsValid_example = set-IsValid (wide 40) b_key 7 (wide-IsValid 40)

delete-IsValid_example : IsValid (delete (wide 40) (3 ∷ []))
delete-IsValid_example = delete-IsValid (wide 40) (3 ∷ []) (wide-IsValid 40)

set-upsert_example : (set (wide 40) b_key 7).members ≡ upsert b_key 7 (wide 40).members
set-upsert_example = set-upsert (wide 40) b_key 7 (wide-IsValid 40)

delete-remove_example : (delete (wide 40) (3 ∷ [])).members ≡ remove (3 ∷ []) (wide 40).members
delete-remove_example = delete-remove (wide 40) (3 ∷ []) (wide-IsValid 40)

get-set_example :
    get (set (wide 40) b_key 7) (9 ∷ [])
    ≡ (if same b_key (9 ∷ []) then some 7 else get (wide 40) (9 ∷ []))
get-set_example = get-set (wide 40) b_key (9 ∷ []) 7 (wide-IsValid 40)

get-delete_example :
    get (delete (wide 40) (3 ∷ [])) (9 ∷ [])
    ≡ (if same (3 ∷ []) (9 ∷ []) then none else get (wide 40) (9 ∷ []))
get-delete_example = get-delete (wide 40) (3 ∷ []) (9 ∷ []) (wide-IsValid 40)

is_indexed : Object ℕ → Bool
is_indexed o = elim o.index [ none ↦ false | some _ ↦ true ]

indexed_after_33 :
    (is_indexed (wide 32) ≡ false)
    × (is_indexed (wide 33) ≡ true)
    × (get (delete (wide 33) (3 ∷ [])) (9 ∷ []) ≡ some 9)
unfolding is_indexed wide get delete set find note_index new_object scan lookup insert index_from
    reindex put value_at cut reindex_kept same
indexed_after_33 = (refl, refl, refl)
