-- ===== src/Schema/Sound.antt =====
-- internal/schema/compat.go against internal/schema/validate.go: a document that fits the old version
-- of a schema fits the new one, if the comparison found no breaking change.
use jsonize.Prelude.{◌≢◌, ◌≡◌, refl, ℕ, suc, true, List, [], ◌∷◌, Text}
use jsonize.Schema.{
  Schema, Subschema, absent, present, prop, is_required, properties, required, items, defs,
  type_object,
}
use jsonize.Schema.Compare.{Comparer, resolve, is_seen}
use jsonize.Schema.Validate.{
  Value, null, boolean, string, number, array, object, Items, nil, cons, Fields, done, field, Place,
  index_of, key_of, Problem, validate, validate_items, validate_fields, Keyed, described, refused,
  passed_over, keyed, missing_keys, kind, under, unknown_key, item_problems, key_problems,
  fits_type,
}
use jsonize.Schema.Shape.{is_shaped, is_shaped_sub, are_defs, IsBody, target-resolve}
use jsonize.Schema.Growth.{calm, IsCompared}
use jsonize.Schema.Fits.{
  append-nil_parts, nil-append, keyed-shaped, under-fits, fits-under, missing_keys-has,
  has-missing_keys, all_named-named, keyed-names,
}
use jsonize.Schema.Alike.{Fine, Fine-Bodies, Alike, Bodies-Alike, Calls, Subs, Keys}

module _ (prev_root next_root : Schema) (final : Comparer) (quiet : calm final.out ≡ true)
    (closed : (p n : Text)
      → is_seen p n final.seen ≡ true
      → IsCompared prev_root next_root p n final)
    (prev_defs : are_defs prev_root (defs prev_root) ≡ true)
    (next_defs : are_defs next_root (defs next_root) ≡ true) where
  abbrev ShapedPair : Schema → Schema → Type 0
  ShapedPair p n = (is_shaped prev_root p ≡ true) × (is_shaped next_root n ≡ true)

  -- A value that fits prev fits next, if what is asked of its parts does.
  carry :
      (p n : Schema) (v : Value) (place place' : Place) (inner inner' : Schema → List Problem)
      → ShapedPair p n
      → Fine prev_root next_root final p n
      → ((d e : Schema)
          → IsBody prev_root d
          → IsBody next_root e
          → Alike prev_root next_root final quiet d e
          → fits_type d (kind v) ≡ true
          → inner d ≡ []
          → inner' e ≡ [])
      → under prev_root p v place inner ≡ []
      → under next_root n v place' inner' ≡ []
  carry p n v place place' inner inner' (hp, hn) f step h =
      let d = (resolve prev_root p).0 in
      let e = (resolve next_root n).0 in
      let tp = target-resolve prev_root p hp prev_defs in
      let tn = target-resolve next_root n hn next_defs in
      let alike = Bodies-Alike prev_root next_root final quiet d e (
        Fine-Bodies prev_root next_root final quiet closed prev_defs next_defs f.fuel p n f.path hp
          hn f.ran) in
      let parts = under-fits prev_root p d v place inner tp.0 h in
      fits-under next_root n e v place' inner' tn.0 (alike.same_type (kind v) parts.0)
        (alike.same_enum v parts.1) (step d e tp.1 tn.1 alike parts.0 parts.2)

  Calls-Fine :
      (fuel : ℕ) (p n : Schema)
      → Calls prev_root next_root final quiet fuel p n
      → Fine prev_root next_root final p n
  Calls-Fine fuel p n m = record { fuel = fuel; path = m.path; ran = m.ran }

  -- A required key is there, since prev required it.
  keys_there :
      (d e : Schema) (fs : Fields) (place place' : Place)
      → IsBody next_root e
      → Alike prev_root next_root final quiet d e
      → missing_keys (required d) fs place ≡ []
      → missing_keys (required e) fs place' ≡ []
  unfolding is_required prop
  keys_there d e fs place place' b alike h = has-missing_keys (required e) fs place' (λ k r.
      let found = all_named-named (required e) (properties e) k b.required_named r in
      missing_keys-has (required d) fs place k h (alike.was_required k found.0 found.1 r))

  -- What a value that fits one fits as well: the induction's claim for a value.
  abbrev Carries : Value → Type 0
  Carries v =
      (p n : Schema) (place place' : Place)
      → ShapedPair p n
      → Fine prev_root next_root final p n
      → validate prev_root p v place ≡ []
      → validate next_root n v place' ≡ []

  items_step :
      (fuel : ℕ) (v : Value) (sub sub' : Subschema) (place place' : Place)
      → Carries v
      → is_shaped_sub prev_root sub ≡ true
      → is_shaped_sub next_root sub' ≡ true
      → Subs prev_root next_root final quiet fuel sub sub'
      → item_problems (λ s. validate prev_root s v place) sub ≡ []
      → item_problems (λ s. validate next_root s v place') sub' ≡ []
  unfolding is_shaped item_problems
  items_step fuel v absent absent place place' ih hp hn m h = refl
  items_step fuel v absent (present _) place place' ih hp hn m h = absurd m
  items_step fuel v (present _) absent place place' ih hp hn m h = absurd m
  items_step fuel v (present p) (present n) place place' ih hp hn m h =
      ih p n place place' (hp, hn) (Calls-Fine fuel p n m) h

  key_step :
      (fuel : ℕ) (k : Text) (v : Value) (a b : Keyed) (place place' : Place)
      → Carries v
      → a ≢ passed_over
      → ((s : Schema) → a ≡ described s → is_shaped prev_root s ≡ true)
      → ((s : Schema) → b ≡ described s → is_shaped next_root s ≡ true)
      → Keys prev_root next_root final quiet fuel a b
      → key_problems (λ s. validate prev_root s v (key_of place k)) a k place ≡ []
      → key_problems (λ s. validate next_root s v (key_of place' k)) b k place' ≡ []
  unfolding key_problems
  key_step fuel k v passed_over b place place' ih np hp hn m h = absurd (np refl)
  key_step fuel k v refused b place place' ih np hp hn m h =
      absurd (let bad : unknown_key place k ∷ [] ≡ [] = h in cc)
  key_step fuel k v (described p) refused place place' ih np hp hn m h = absurd m
  key_step fuel k v (described p) passed_over place place' ih np hp hn m h = absurd m
  key_step fuel k v (described p) (described n) place place' ih np hp hn m h =
      ih p n (key_of place k) (key_of place' k) (hp p refl, hn n refl) (Calls-Fine fuel p n m) h

  mutual
    unfolding validate

    pub fits : (v : Value) → Carries v
    fits null p n place place' hs f h =
        carry p n null place place' _ _ hs f (λ d e b c a t u. refl) h
    fits (boolean x) p n place place' hs f h =
        carry p n (boolean x) place place' _ _ hs f (λ d e b c a t u. refl) h
    fits (string x) p n place place' hs f h =
        carry p n (string x) place place' _ _ hs f (λ d e b c a t u. refl) h
    fits (number x y) p n place place' hs f h =
        carry p n (number x y) place place' _ _ hs f (λ d e b c a t u. refl) h
    fits (array xs) p n place place' hs f h =
        carry p n (array xs) place place' _ _ hs f
          (λ d e b c a t u.
            fits_items xs a.fuel (items d) (items e) place place' 0 b.items_shaped c.items_shaped
              a.same_items u)
          h
    fits (object fs) p n place place' hs f h =
        carry p n (object fs) place place' _ _ hs f
          (λ d e b c a t u.
            let parts = append-nil_parts (missing_keys (required d) fs place) _ u in
            nil-append (keys_there d e fs place place' c a parts.0)
              (fits_fields fs d e place place' b c a t parts.1))
          h

    fits_items :
        (xs : Items) (fuel : ℕ) (sub sub' : Subschema) (place place' : Place) (i : ℕ)
        → is_shaped_sub prev_root sub ≡ true
        → is_shaped_sub next_root sub' ≡ true
        → Subs prev_root next_root final quiet fuel sub sub'
        → validate_items prev_root sub xs place i ≡ []
        → validate_items next_root sub' xs place' i ≡ []
    fits_items nil fuel sub sub' place place' i hp hn m h = refl
    fits_items (cons v vs) fuel sub sub' place place' i hp hn m h =
        let parts =
          append-nil_parts (item_problems (λ s. validate prev_root s v (index_of place i)) sub) _
            h in
        nil-append
          (items_step fuel v sub sub' (index_of place i) (index_of place' i) (fits v) hp hn m
            parts.0)
          (fits_items vs fuel sub sub' place place' (suc i) hp hn m parts.1)

    fits_fields :
        (fs : Fields) (d e : Schema) (place place' : Place)
        → IsBody prev_root d
        → IsBody next_root e
        → Alike prev_root next_root final quiet d e
        → fits_type d type_object ≡ true
        → validate_fields prev_root d fs place ≡ []
        → validate_fields next_root e fs place' ≡ []
    fits_fields done d e place place' b c a t h = refl
    fits_fields (field k v rest) d e place place' b c a t h =
        let parts =
          append-nil_parts
            (key_problems (λ s. validate prev_root s v (key_of place k)) (keyed d k) k place) _ h in
        nil-append
          (key_step a.fuel k v (keyed d k) (keyed e k) place place' (fits v)
            (keyed-names d k b.keys t) (keyed-shaped prev_root d k b) (keyed-shaped next_root e k c)
            (a.same_keys k) parts.0)
          (fits_fields rest d e place place' b c a t parts.1)
