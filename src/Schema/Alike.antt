-- ===== src/Schema/Alike.antt =====
-- Two versions of a schema that were compared without a breaking change: what is known of the two.
use jsonize.Prelude.{inl, inr, ◌≡◌, arith, ℕ, zero, suc, true, false, ◌||◌, none, some, Text}
use jsonize.Schema.{Schema, Subschema, ref, enum, prop, is_required, items, defs}
use jsonize.Schema.Compare.{
  Comparer, is_empty, resolve, compare, compare_types, compare_contents, visit, is_seen,
}
use jsonize.Schema.Validate.{Value, Keyed, keyed, as_string, fits_type, fits_enum}
use jsonize.Schema.Shape.{is_shaped, are_defs, resolve-same}
use jsonize.Schema.Growth.{
  calm, IsCompared, compare-Good, resolve-ref, behind_enum-Good, object-Good,
}
use jsonize.Schema.Steps.{Ran, follow-Ran, >>-Ran, types-Ran, enum-Ran}
use jsonize.Schema.Local.{Met, SubFits, KeyFits, items-Ran, keyed_fits, required_before}
use jsonize.Schema.Fits.{fits_type-same}

module _ (prev_root next_root : Schema) (final : Comparer) where
  -- Two schemas that were compared, as the code met them and behind their references.
  pub record Fine (p n : Schema) : Type 0 where
    pub fuel : ℕ
    pub path : Text
    pub ran : Ran final (compare prev_root next_root fuel p n path)

  pub record Bodies (p n : Schema) : Type 0 where
    pub fuel : ℕ
    pub path : Text
    pub ran : Ran final (compare_types (compare prev_root next_root fuel) p n path)

module _ (prev_root next_root : Schema) (final : Comparer) (quiet : calm final.out ≡ true)
    (closed : (p n : Text)
      → is_seen p n final.seen ≡ true
      → IsCompared prev_root next_root p n final)
    (prev_defs : are_defs prev_root (defs prev_root) ≡ true)
    (next_defs : are_defs next_root (defs next_root) ≡ true) where
  -- A pair of references met before was compared then.
  is_seen-Bodies :
      (p n : Schema)
      → is_shaped prev_root p ≡ true
      → is_shaped next_root n ≡ true
      → (is_empty (ref p) || is_empty (ref n)) ≡ false
      → is_seen (ref p) (ref n) final.seen ≡ true
      → Bodies prev_root next_root final (resolve prev_root p).0 (resolve next_root n).0
  is_seen-Bodies p n hp hn e s =
      let c = closed (ref p) (ref n) s in
      let np : is_empty (ref p) ≡ false = ground arith in
      let nn : is_empty (ref n) ≡ false = ground arith in
      record {
        fuel = c.fuel;
        path = c.path;
        ran = record {
          before = c.before;
          after = c.after;
          run =
              rw
                (
                  ← resolve-same prev_root p c.prev hp prev_defs np c.prev_ref,
                  ← resolve-same next_root n c.next hn next_defs nn c.next_ref,
                )
                c.run;
          reached = c.reached;
        };
      }

  pub Fine-Bodies :
      (fuel : ℕ) (p n : Schema) (path : Text)
      → is_shaped prev_root p ≡ true
      → is_shaped next_root n ≡ true
      → Ran final (compare prev_root next_root fuel p n path)
      → Bodies prev_root next_root final (resolve prev_root p).0 (resolve next_root n).0
  unfolding compare visit
  Fine-Bodies zero p n path hp hn r = absurd (let bad : none ≡ some r.after = r.run in cc)
  Fine-Bodies (suc fuel) p n path hp hn r =
      let p_ref = resolve-ref prev_root p in
      let n_ref = resolve-ref next_root n in
      elim (follow-Ran final (resolve prev_root p).1 (resolve next_root n).1 _
        (record { before = r.before; after = r.after; run = r.run; reached = r.reached })) [
          | inl (e, s) ↦ is_seen-Bodies p n hp hn (rw (p_ref, n_ref) at e) (rw (p_ref, n_ref) at s)
          | inr b ↦ record { fuel = fuel; path = path; ran = b }
        ]

module _ (prev_root next_root : Schema) (final : Comparer) (quiet : calm final.out ≡ true) where
  module _ (fuel : ℕ) where
    abbrev pub Calls : Schema → Schema → Type 0
    Calls =
        Met prev_root next_root final quiet (compare prev_root next_root fuel)
          (compare-Good prev_root next_root fuel)

    abbrev pub Subs : Subschema → Subschema → Type 0
    Subs =
        SubFits prev_root next_root final quiet (compare prev_root next_root fuel)
          (compare-Good prev_root next_root fuel)

    abbrev pub Keys : Keyed → Keyed → Type 0
    Keys =
        KeyFits prev_root next_root final quiet (compare prev_root next_root fuel)
          (compare-Good prev_root next_root fuel)

  -- What the comparison of two bodies says of them.
  pub record Alike (p n : Schema) : Type 0 where
    pub fuel : ℕ
    pub same_type : (k : Text) → fits_type p k ≡ true → fits_type n k ≡ true
    pub same_enum : (v : Value) → fits_enum p v ≡ true → fits_enum n v ≡ true
    pub same_items : Subs fuel (items p) (items n)
    pub same_keys : (k : Text) → Keys fuel (keyed p k) (keyed n k)
    pub was_required :
        (k : Text) (s : Schema)
        → prop n k ≡ some s
        → is_required n k ≡ true
        → is_required p k ≡ true

  pub Bodies-Alike : (p n : Schema) → Bodies prev_root next_root final p n → Alike p n
  unfolding compare_contents fits_enum
  Bodies-Alike p n b =
      let rec = compare prev_root next_root b.fuel in
      let good = compare-Good prev_root next_root b.fuel in
      let typed = types-Ran prev_root next_root final quiet rec good p n b.path b.ran in
      let parts =
        >>-Ran prev_root next_root final quiet
          (behind_enum-Good prev_root next_root rec good p n b.path) typed.1 in
      let inner =
        >>-Ran prev_root next_root final quiet (object-Good prev_root next_root rec good p n b.path)
          parts.1 in
      record {
        fuel = b.fuel;
        same_type = λ k. fits_type-same p n k typed.0;
        same_enum = λ v.
            enum-Ran prev_root next_root final quiet (enum p) (enum n) b.path parts.0 (as_string v);
        same_items =
            items-Ran prev_root next_root final quiet rec good (items p) (items n) b.path inner.0;
        same_keys = keyed_fits prev_root next_root final quiet rec good p n b.path inner.1;
        was_required = required_before prev_root next_root final quiet rec good p n b.path inner.1;
      }
