-- ===== src/Schema/Shape.antt =====
-- Schemas as the generator of internal/schema/generate.go writes them: each reference has a definition,
-- every key required is a property, and one that allows objects says which keys they have.
use jsonize.Prelude.{
  ◌≡◌, ◌⊎◌, refl, arith, Bool, true, false, not, ◌&&◌, ◌||◌, List, [], ◌∷◌, Option, none, some,
  Text, same, contains, cut_prefix, if◌then◌else◌, Bool-cases, Option-cases, inl, inr,
}
use jsonize.Schema.{
  Schema, schema, Properties, unset, end, property, Subschema, absent, present, ref, types, named,
  properties, required, additional_properties, items, defs, def, is_unset, type_object, defs_prefix,
}
use jsonize.Schema.Compare.{is_empty, none_of, resolve, ref_name}
use jsonize.Schema.Validate.{target, def_of}

abbrev pub is_some {ℓ} : {A : Type ℓ} → Option A → Bool
is_some none = false
is_some (some _) = true

abbrev pub is_present : Subschema → Bool
is_present absent = false
is_present (present _) = true

pub Subschema-cases : (s : Subschema) → (s ≡ absent) ⊎ ((x : Schema) × (s ≡ present x))
Subschema-cases absent = inl refl
Subschema-cases (present x) = inr (x, refl)

-- An object of such a schema has the keys that the schema describes, and no other.
unfoldable pub names_keys : List Text → Properties → Subschema → Bool
unfolding contains is_unset
names_keys t p a =
    not (is_unset p) || is_present a || not (none_of t) && not (contains type_object t)

unfoldable pub all_named : List Text → Properties → Bool
unfolding named
all_named [] p = true
all_named (r ∷ rs) p = is_some (named p r) && all_named rs p

unfoldable mutual
  unfolding names_keys all_named def_of

  pub is_shaped : Schema → Schema → Bool
  is_shaped top (schema r t e p req a i d) =
      if is_empty r
      then names_keys t p a
        && (all_named req p && (are_shaped top p && (is_shaped_sub top a && is_shaped_sub top i)))
      else is_some (def_of top r)

  pub are_shaped : Schema → Properties → Bool
  are_shaped top unset = true
  are_shaped top end = true
  are_shaped top (property n s rest) = is_shaped top s && are_shaped top rest

  pub is_shaped_sub : Schema → Subschema → Bool
  is_shaped_sub top absent = true
  is_shaped_sub top (present s) = is_shaped top s

-- the definitions that references lead to
unfoldable pub are_defs : Schema → Properties → Bool
unfolding is_shaped
are_defs top unset = true
are_defs top end = true
are_defs top (property n s rest) = is_empty (ref s) && (is_shaped top s && are_defs top rest)

unfoldable pub well_formed : Schema → Bool
unfolding are_defs is_shaped
well_formed s = is_shaped s s && are_defs s (defs s)

pub record IsBody (top s : Schema) : Type 0 where
  pub keys : names_keys (types s) (properties s) (additional_properties s) ≡ true
  pub required_named : all_named (required s) (properties s) ≡ true
  pub props_shaped : are_shaped top (properties s) ≡ true
  pub additional_shaped : is_shaped_sub top (additional_properties s) ≡ true
  pub items_shaped : is_shaped_sub top (items s) ≡ true

body_of : (top s : Schema) → is_empty (ref s) ≡ true → is_shaped top s ≡ true → IsBody top s
unfolding is_shaped
body_of top (schema [] t e p req a i d) _ h = ground arith
body_of top (schema (_ ∷ _) t e p req a i d) e' h = absurd (let bad : false ≡ true = e' in cc)

def-shaped :
    (top : Schema) (ps : Properties) (name : Text) (s : Schema)
    → are_defs top ps ≡ true
    → named ps name ≡ some s
    → (is_empty (ref s) ≡ true) × (is_shaped top s ≡ true)
unfolding are_defs named
def-shaped top unset name s h e = absurd (let bad : none ≡ some s = e in cc)
def-shaped top end name s h e = absurd (let bad : none ≡ some s = e in cc)
def-shaped top (property n d rest) name s h e = elim (Bool-cases (same n name)) [
  | inl k ↦
      let eq : d ≡ s = (let x : some d ≡ some s = (rw k at e) in cc) in rw (← eq) (ground arith)
  | inr k ↦ def-shaped top rest name s (ground arith) (rw k at e)
]

-- Where a reference leads is settled by its text.
pub resolve-def :
    (top s d : Schema)
    → is_empty (ref s) ≡ false
    → def_of top (ref s) ≡ some d
    → (resolve top s).0 ≡ d
unfolding resolve def_of ref_name
resolve-def top s d e h = elim (Option-cases (cut_prefix defs_prefix (ref s))) [
  | inl k ↦ absurd (let bad : none ≡ some d = (rw (k, def_of) at h) in cc)
  | inr (name, k) ↦
      let h' : def top name ≡ some d = (rw (k, def_of) at h) in rw (e, k, ref_name, h')
]

resolve-plain : (top s : Schema) → is_empty (ref s) ≡ true → (resolve top s).0 ≡ s
unfolding resolve
resolve-plain top s e = rw e

shaped-ref :
    (top s : Schema)
    → is_empty (ref s) ≡ false
    → is_shaped top s ≡ true
    → is_some (def_of top (ref s)) ≡ true
unfolding is_shaped
shaped-ref top (schema [] t e p req a i d) e' h = absurd (let bad : true ≡ false = e' in cc)
shaped-ref top (schema (_ ∷ _) t e p req a i d) e' h = h

def_of-body :
    (top d : Schema) (r : Text)
    → are_defs top (defs top) ≡ true
    → def_of top r ≡ some d
    → IsBody top d
unfolding def_of def
def_of-body top d r hd h = elim (Option-cases (cut_prefix defs_prefix r)) [
  | inl k ↦ absurd (let bad : none ≡ some d = (rw (k, def_of) at h) in cc)
  | inr (name, k) ↦
      let found = def-shaped top (defs top) name d hd (rw (k, def_of) at h) in
      body_of top d found.0 found.1
]

pub target-resolve :
    (top s : Schema)
    → is_shaped top s ≡ true
    → are_defs top (defs top) ≡ true
    → (target top s ≡ some (resolve top s).0) × IsBody top (resolve top s).0
unfolding target
target-resolve top s h hd = elim (Bool-cases (is_empty (ref s))) [
  | inl e ↦ rw (e, resolve-plain top s e) (refl, body_of top s e h)
  | inr e ↦ elim (Option-cases (def_of top (ref s))) [
    | inl k ↦ absurd (let bad : false ≡ true = (rw k at (shaped-ref top s e h)) in cc)
    | inr (d, k) ↦ rw (e, k, resolve-def top s d e k) (refl, def_of-body top d (ref s) hd k)
  ]
]

pub resolve-same :
    (top s q : Schema)
    → is_shaped top s ≡ true
    → are_defs top (defs top) ≡ true
    → is_empty (ref s) ≡ false
    → ref q ≡ ref s
    → (resolve top q).0 ≡ (resolve top s).0
unfolding target
resolve-same top s q h hd e same_ref =
    let found : def_of top (ref s) ≡ some (resolve top s).0 =
      (rw e at (target-resolve top s h hd).0) in
    resolve-def top q (resolve top s).0 (rw same_ref e) (rw same_ref found)
