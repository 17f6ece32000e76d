-- ===== src/Schema/Ends.antt =====
-- internal/schema/compat.go: a comparison ends where the new version follows no reference. Each call
-- then goes down one level of that version.
use jsonize.Prelude.{
  inl, inr, ◌≡◌, ◌≤◌, ◌<◌, refl, arith, ℕ, zero, suc, max, Bool, true, false, ◌&&◌, ◌||◌, List, [],
  ◌∷◌, none, some, Text, same, codes, if◌then◌else◌, Bool-cases, Option-cases,
}
use jsonize.Schema.{
  Schema, schema, Properties, unset, end, property, Subschema, absent, present, properties,
  additional_properties, prop, named,
}
use jsonize.Schema.Compare.{
  Change, Comparer, Step, skip, ◌>>◌, add, is_empty, resolve, compare_enum, Visit, compare_items,
  unnamed, compare_required, compare_prev, new_property, compare_next, each, compare_rest,
  compare_object, compare_contents, compare_types, is_seen, follow, visit, compare, compare_schemas,
  sort_changes, Kind, Detail,
}

-- How deep a schema nests.
unfoldable mutual
  pub height : Schema → ℕ
  height (schema r t e p req a i d) = suc (max (height_all p) (max (height_sub a) (height_sub i)))

  pub height_all : Properties → ℕ
  height_all unset = 0
  height_all end = 0
  height_all (property n s rest) = max (height s) (height_all rest)

  pub height_sub : Subschema → ℕ
  height_sub absent = 0
  height_sub (present s) = height s

-- A schema with no reference in it.
unfoldable mutual
  pub is_plain : Schema → Bool
  is_plain (schema r t e p req a i d) =
      is_empty r && (are_plain p && (is_plain_sub a && is_plain_sub i))

  pub are_plain : Properties → Bool
  are_plain unset = true
  are_plain end = true
  are_plain (property n s rest) = is_plain s && are_plain rest

  pub is_plain_sub : Subschema → Bool
  is_plain_sub absent = true
  is_plain_sub (present s) = is_plain s

abbrev Ends : Step → Type 0
Ends f = (a : Comparer) → (b : Comparer) × (f a ≡ some b)

skip-Ends : Ends skip
skip-Ends a = (a, refl)

add-Ends : (path : Text) (k : Kind) (d : Detail) (t : Bool) → Ends (add path k d t)
unfolding add
add-Ends path k d t a = (_, refl)

>>-Ends : {f g : Step} → Ends f → Ends g → Ends (f >> g)
unfolding ◌>>◌
>>-Ends x y a = let (b, e) = x a in let (c, u) = y b in (c, rw (e, ◌>>◌) u)

if-Ends : (t : Bool) {f g : Step} → Ends f → Ends g → Ends (if t then f else g)
if-Ends true x y = x
if-Ends false x y = y

enum-Ends : (prev next : List Text) (path : Text) → Ends (compare_enum prev next path)
unfolding compare_enum
enum-Ends prev next path = search (skip-Ends, add-Ends, if-Ends, >>-Ends)

required-Ends : (t u : Bool) (path : Text) → Ends (compare_required t u path)
unfolding compare_required
required-Ends true true path = skip-Ends
required-Ends false false path = skip-Ends
required-Ends true false path = add-Ends _ _ _ _
required-Ends false true path = add-Ends _ _ _ _

named-plain :
    (ps : Properties) (k : Text) (s : Schema)
    → are_plain ps ≡ true
    → named ps k ≡ some s
    → (is_plain s ≡ true) × (height s ≤ height_all ps)
unfolding is_plain height named
named-plain unset k s h e = absurd (let bad : none ≡ some s = e in cc)
named-plain end k s h e = absurd (let bad : none ≡ some s = e in cc)
named-plain (property n d rest) k s h e = elim (Bool-cases (same n k)) [
  | inl y ↦
      let eq : d ≡ s = (let x : some d ≡ some s = (rw y at e) in cc) in
      rw (← eq) (ground arith, omega arith)
  | inr y ↦ let (p, l) = named-plain rest k s (ground arith) (rw y at e) in (p, omega arith)
]

-- The calls for the parts of `next` end.
module _ (rec : Visit) (bound : ℕ)
    (ends : (p n : Schema) (path : Text)
      → is_plain n ≡ true
      → height n ≤ bound
      → Ends (rec p n path)) where
  items-Ends :
      (p n : Subschema) (path : Text)
      → is_plain_sub n ≡ true
      → height_sub n ≤ bound
      → Ends (compare_items rec p n path)
  unfolding compare_items is_plain height
  items-Ends absent absent path h l = skip-Ends
  items-Ends absent (present _) path h l = add-Ends _ _ _ _
  items-Ends (present _) absent path h l = add-Ends _ _ _ _
  items-Ends (present p) (present n) path h l = ends p n _ h l

  rest-Ends :
      (p n : Subschema) (path : Text)
      → is_plain_sub n ≡ true
      → height_sub n ≤ bound
      → Ends (compare_rest rec p n path)
  unfolding compare_rest is_plain height
  rest-Ends absent absent path h l = skip-Ends
  rest-Ends absent (present _) path h l = add-Ends _ _ _ _
  rest-Ends (present _) absent path h l = add-Ends _ _ _ _
  rest-Ends (present p) (present n) path h l = ends p n _ h l

  unnamed-Ends :
      (t : Bool) (s : Schema) (a : Subschema) (path : Text)
      → is_plain_sub a ≡ true
      → height_sub a ≤ bound
      → Ends (unnamed rec t s a path)
  unfolding unnamed is_plain height
  unnamed-Ends t s absent path h l = add-Ends _ _ _ _
  unnamed-Ends t s (present a) path h l =
      >>-Ends (if-Ends t (add-Ends _ _ _ _) skip-Ends) (ends s a path h l)

  new_property-Ends :
      (t : Bool) (s : Schema) (a : Subschema) (path : Text)
      → is_plain s ≡ true
      → height s ≤ bound
      → Ends (new_property rec t s a path)
  unfolding new_property
  new_property-Ends t s absent path h l = if-Ends t (add-Ends _ _ _ _) (add-Ends _ _ _ _)
  new_property-Ends t s (present a) path h l =
      >>-Ends (if-Ends t (add-Ends _ _ _ _) skip-Ends) (ends a s path h l)

  nexts-Ends :
      (prev next : Schema) (path : Text) (ps : Properties)
      → are_plain ps ≡ true
      → height_all ps ≤ bound
      → Ends (each (compare_next rec prev next path) ps)
  unfolding each compare_next is_plain height
  nexts-Ends prev next path unset h l = skip-Ends
  nexts-Ends prev next path end h l = skip-Ends
  nexts-Ends prev next path (property n s rest) h l =
      >>-Ends
        (elim (Option-cases (prop prev n)) [
          | inr (x, e) ↦ rw (e, compare_next) skip-Ends
          | inl e ↦ rw (e, compare_next) (new_property-Ends _ s _ _ (ground arith) (omega arith))
        ])
        (nexts-Ends prev next path rest (ground arith) (omega arith))

  module _ (prev next : Schema) (path : Text) (ps_plain : are_plain (properties next) ≡ true)
      (ps_low : height_all (properties next) ≤ bound)
      (a_plain : is_plain_sub (additional_properties next) ≡ true)
      (a_low : height_sub (additional_properties next) ≤ bound) where
    prevs-Ends : (ps : Properties) → Ends (each (compare_prev rec prev next path) ps)
    unfolding each compare_prev prop
    prevs-Ends unset = skip-Ends
    prevs-Ends end = skip-Ends
    prevs-Ends (property n s rest) =
        >>-Ends
          (elim (Option-cases (named (properties next) n)) [
            | inl e ↦ rw (e, compare_prev) (unnamed-Ends _ s _ _ a_plain a_low)
            | inr (sub, e) ↦
                let (p, l) = named-plain (properties next) n sub ps_plain e in
                rw (e, compare_prev) (>>-Ends (required-Ends _ _ _) (ends s sub _ p (omega arith)))
          ])
          (prevs-Ends rest)

    object-Ends : Ends (compare_object rec prev next path)
    unfolding compare_object
    object-Ends = >>-Ends (prevs-Ends (properties prev)) (
        >>-Ends (nexts-Ends prev next path (properties next) ps_plain ps_low)
          (rest-Ends _ _ path a_plain a_low))

  types-Ends :
      (prev next : Schema) (path : Text)
      → is_plain next ≡ true
      → height next ≤ suc bound
      → Ends (compare_types rec prev next path)
  unfolding compare_types compare_contents is_plain height
  types-Ends prev (schema r t e p req a i d) path h l =
      let next = schema r t e p req a i d in
      let contents : Ends (compare_contents rec prev next path) = >>-Ends (enum-Ends _ _ path) (
        >>-Ends (items-Ends _ _ path (ground arith) (omega arith))
          (object-Ends prev next path (ground arith) (omega arith) (ground arith) (omega arith))) in
      if-Ends _ contents (>>-Ends (add-Ends _ _ _ _) (if-Ends _ contents skip-Ends))

follow-Ends : (p n : Text) {step : Step} → Ends step → Ends (follow p n step)
unfolding follow
follow-Ends p n ends a = elim (Bool-cases (is_empty p || is_empty n)) [
  | inl e ↦ rw e (ends a)
  | inr e ↦ elim (Bool-cases (is_seen p n a.seen)) [
    | inl k ↦ rw (e, k) (a, refl)
    | inr k ↦ rw (e, k) (ends (record a { seen = (p, n) ∷ a.seen }))
  ]
]

resolve-is_plain : (top s : Schema) → is_plain s ≡ true → (resolve top s).0 ≡ s
unfolding resolve is_plain
resolve-is_plain top (schema [] t e p req a i d) h = refl
resolve-is_plain top (schema (_ ∷ _) t e p req a i d) h = cc

height-pos : (s : Schema) → 0 < height s
unfolding height
height-pos (schema r t e p req a i d) = omega arith

compare-Ends :
    (prev_root next_root : Schema) (fuel : ℕ) (prev next : Schema) (path : Text)
    → is_plain next ≡ true
    → height next ≤ fuel
    → Ends (compare prev_root next_root fuel prev next path)
unfolding compare visit
compare-Ends prev_root next_root zero prev next path h l = absurd (omega (arith, height-pos next))
compare-Ends prev_root next_root (suc fuel) prev next path h l =
    follow-Ends (resolve prev_root prev).1 (resolve next_root next).1
      {step = compare_types (compare prev_root next_root fuel) (resolve prev_root prev).0
        (resolve next_root next).0 path}
      (rw (resolve-is_plain next_root next h) (
        types-Ends (compare prev_root next_root fuel) fuel (compare-Ends prev_root next_root fuel)
          (resolve prev_root prev).0 next path h l))

-- A comparison with a new version that holds no reference ends, with a list of changes, within as
-- many calls as that version nests and any number more.
pub compare_schemas-plain :
    (fuel : ℕ) (prev next : Schema)
    → is_plain next ≡ true
    → height next ≤ fuel
    → (changes : List Change) × (compare_schemas fuel prev next ≡ some changes)
unfolding compare_schemas
compare_schemas-plain fuel prev next h l =
    let (c, e) =
      compare-Ends prev next fuel prev next (codes "$") h l (record { out = []; seen = [] }) in
    (sort_changes c.out, rw (e, compare_schemas))
