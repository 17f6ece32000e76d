-- ===== src/Schema/Local.antt =====
-- What a comparison that found no breaking change says of the two schemas, part by part.
use jsonize.Prelude.{
  inl, inr, ◌∙◌, ◌≡◌, refl, Bool, true, false, some, Text, if◌then◌else◌, Option-cases,
}
use jsonize.Schema.{
  Schema, Subschema, absent, present, properties, additional_properties, is_unset, prop,
  is_required,
}
use jsonize.Schema.Compare.{
  Comparer, Visit, compare_items, unnamed, compare_required, compare_prev, new_property,
  compare_next, each, compare_rest, child, compare_object,
}
use jsonize.Schema.Validate.{Keyed, described, refused, passed_over, keyed}
use jsonize.Schema.Shape.{Subschema-cases}
use jsonize.Schema.Growth.{calm, Good, loops-Good, rest-Good, prev-Good, next-Good}
use jsonize.Schema.Steps.{Ran, >>-Ran, add-Ran, if-Ran, each-Ran}

module _ (prev_root next_root : Schema) (final : Comparer) (quiet : calm final.out ≡ true) where
  -- The subschemas of two parts, compared by a call.
  module _ (rec : Visit)
      (good : (p n : Schema) (path : Text) → Good prev_root next_root (rec p n path)) where
    pub record Met (p n : Schema) : Type 0 where
      pub path : Text
      pub ran : Ran final (rec p n path)

    abbrev pub SubFits : Subschema → Subschema → Type 0
    SubFits absent absent = Unit
    SubFits (present p) (present n) = Met p n
    SubFits _ _ = ⊥

    pub items-Ran :
        (p n : Subschema) (path : Text) → Ran final (compare_items rec p n path) → SubFits p n
    unfolding compare_items
    items-Ran absent absent path r = tt
    items-Ran absent (present _) path r = add-Ran prev_root next_root final quiet _ _ _ r
    items-Ran (present _) absent path r = add-Ran prev_root next_root final quiet _ _ _ r
    items-Ran (present p) (present n) path r = record { path = _; ran = r }

    rest-Ran : (p n : Subschema) (path : Text) → Ran final (compare_rest rec p n path) → SubFits p n
    unfolding compare_rest
    rest-Ran absent absent path r = tt
    rest-Ran absent (present _) path r = add-Ran prev_root next_root final quiet _ _ _ r
    rest-Ran (present _) absent path r = add-Ran prev_root next_root final quiet _ _ _ r
    rest-Ran (present p) (present n) path r = record { path = _; ran = r }

    -- What the two versions say of one key: `compare_contents` at that key.
    abbrev pub KeyFits : Keyed → Keyed → Type 0
    KeyFits (described p) (described n) = Met p n
    KeyFits refused k = Unit
    KeyFits passed_over k = Unit
    KeyFits (described p) refused = ⊥
    KeyFits (described p) passed_over = ⊥

    closed_fits : (b : Bool) (k : Keyed) → KeyFits (if b then passed_over else refused) k
    closed_fits true k = tt
    closed_fits false k = tt

    module _ (prev next : Schema) (path : Text)
        (r : Ran final (compare_object rec prev next path)) where
      prevs : Ran final (each (compare_prev rec prev next path) (properties prev))
      unfolding compare_object
      prevs = (>>-Ran prev_root next_root final quiet (loops-Good _ _ rec good prev next path) r).0

      behind :
          Ran final (each (compare_next rec prev next path) (properties next))
          × Ran final
              (compare_rest rec (additional_properties prev) (additional_properties next) path)
      unfolding compare_object
      behind =
          >>-Ran prev_root next_root final quiet (rest-Good _ _ rec good _ _ path)
            (>>-Ran prev_root next_root final quiet (loops-Good _ _ rec good prev next path) r).1

      pub rest_fits : SubFits (additional_properties prev) (additional_properties next)
      rest_fits = rest-Ran _ _ path behind.1

      prev_run :
          (k : Text) (s : Schema)
          → prop prev k ≡ some s
          → Ran final (compare_prev rec prev next path k s)
      unfolding prop
      prev_run k s e =
          each-Ran prev_root next_root final quiet _ (prev-Good _ _ rec good prev next path)
            (properties prev) k s prevs e

      next_run :
          (k : Text) (s : Schema)
          → prop next k ≡ some s
          → Ran final (compare_next rec prev next path k s)
      unfolding prop
      next_run k s e =
          each-Ran prev_root next_root final quiet _ (next-Good _ _ rec good prev next path)
            (properties next) k s behind.0 e

      unnamed-Ran :
          (t : Bool) (s : Schema) (a : Subschema) (at_path : Text)
          → Ran final (unnamed rec t s a at_path)
          → (n : Schema) × (a ≡ present n) × Met s n
      unfolding unnamed
      unnamed-Ran t s absent at_path h = absurd (add-Ran prev_root next_root final quiet _ _ _ h)
      unnamed-Ran t s (present n) at_path h = (
        n,
        refl,
        record {
          path = at_path;
          ran = (>>-Ran prev_root next_root final quiet (good s n at_path) h).1;
        },
      )

      new_property-Ran :
          (t : Bool) (s : Schema) (a : Subschema) (at_path : Text)
          → Ran final (new_property rec t s a at_path)
          → (t ≡ false) × ((p : Schema) → a ≡ present p → Met p s)
      unfolding new_property
      new_property-Ran t s absent at_path h = (
        (if-Ran prev_root next_root final quiet t _ _ _ _ h).0,
        λ p e. absurd (let bad : absent ≡ present p = e in cc),
      )
      new_property-Ran t s (present a) at_path h =
          let parts = >>-Ran prev_root next_root final quiet (good a s at_path) h in
          (
            (if-Ran prev_root next_root final quiet t _ _ _ _ parts.0).0,
            λ p e. let eq : a ≡ p = cc in record { path = at_path; ran = rw (← eq) parts.1 },
          )

      required-Ran :
          (t u : Bool) (at_path : Text) → Ran final (compare_required t u at_path) → t ≡ u
      unfolding compare_required
      required-Ran true true at_path h = refl
      required-Ran false false at_path h = refl
      required-Ran true false at_path h = absurd (add-Ran prev_root next_root final quiet _ _ _ h)
      required-Ran false true at_path h = absurd (add-Ran prev_root next_root final quiet _ _ _ h)

      -- A key's two subschemas were compared wherever both versions describe it.
      pub keyed_fits : (k : Text) → KeyFits (keyed prev k) (keyed next k)
      unfolding keyed compare_prev compare_next
      keyed_fits k = elim (Option-cases (prop prev k)) [
        | inr (s, e) ↦ elim (Option-cases (prop next k)) [
          | inr (sub, u) ↦
              let h = rw (u, compare_prev) at (prev_run k s e) in
              rw (e, keyed, u)
                (record {
                  path = child path k;
                  ran = (>>-Ran prev_root next_root final quiet (good s sub _) h).1;
                })
          | inl u ↦
              let h = rw (u, compare_prev) at (prev_run k s e) in
              let found = unnamed-Ran _ s (additional_properties next) _ h in
              rw (e, keyed, u, found.1) found.2
        ]
        | inl e ↦ elim (Subschema-cases (additional_properties prev)) [
          | inl u ↦ rw (e, keyed, u) (closed_fits (is_unset (properties prev)) (keyed next k))
          | inr (a, u) ↦ elim (Option-cases (prop next k)) [
            | inr (sub, v) ↦
                let h = rw (e, compare_next) at (next_run k sub v) in
                rw (e, keyed, u, v)
                  ((new_property-Ran _ sub (additional_properties prev) _ h).1 a u)
            | inl v ↦ elim (Subschema-cases (additional_properties next)) [
              | inl w ↦ absurd (let bad = rw (u, w) at rest_fits in bad)
              | inr (b, w) ↦ rw (e, keyed, u, v, w) (rw (u, w) at rest_fits)
            ]
          ]
        ]
      ]

      -- A key that next requires is one that prev required.
      pub required_before :
          (k : Text) (s : Schema)
          → prop next k ≡ some s
          → is_required next k ≡ true
          → is_required prev k ≡ true
      unfolding compare_prev compare_next
      required_before k s e h = elim (Option-cases (prop prev k)) [
        | inl u ↦
            let step = rw (u, compare_next) at (next_run k s e) in
            let bad : true ≡ false =
              (rw h at (new_property-Ran _ s (additional_properties prev) _ step).0) in
            absurd (cc)
        | inr (p, u) ↦
            let step = rw (e, compare_prev) at (prev_run k p u) in
            required-Ran _ _ _ (>>-Ran prev_root next_root final quiet (good p s _) step).0 ∙ h
      ]
