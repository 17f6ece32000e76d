-- ===== src/Schema/Fits.antt =====
-- What it is for the validator of internal/schema/validate.go to find nothing, part by part.
use jsonize.Prelude.{
  ◌≢◌, inl, inr, ◌≡◌, refl, arith, true, false, List, [], ◌∷◌, ◌++◌, none, some, Text, same,
  same_iff, same_refl, contains, Bool-cases, Option-cases,
}
use jsonize.Schema.{
  Schema, types, Properties, unset, end, property, Subschema, absent, present, prop, named,
  type_object, type_number, has, properties, additional_properties, is_unset,
}
use jsonize.Schema.Types.{same_types, contains-same_types}
use jsonize.Schema.Compare.{none_of}
use jsonize.Schema.Shape.{
  is_shaped, are_shaped, is_shaped_sub, IsBody, Subschema-cases, all_named, names_keys,
}
use jsonize.Schema.Validate.{
  Value, Fields, Place, Problem, kind, target, fits_type, fits_enum, under, has_key, missing_keys,
  passed_over, keyed, described, refused,
}

pub append-nil_parts {ℓ} : {A : Type ℓ} (xs ys : List A) → xs ++ ys ≡ [] → (xs ≡ []) × (ys ≡ [])
append-nil_parts [] ys h = (refl, h)
append-nil_parts (x ∷ xs) ys h = absurd (let bad : x ∷ (xs ++ ys) ≡ [] = h in cc)

pub nil-append {ℓ} : {A : Type ℓ} {xs ys : List A} → xs ≡ [] → ys ≡ [] → xs ++ ys ≡ []
nil-append {xs = xs} {ys = ys} p q = rw (p, q)

pub under-fits :
    (top s t : Schema) (v : Value) (place : Place) (inner : Schema → List Problem)
    → target top s ≡ some t
    → under top s v place inner ≡ []
    → (fits_type t (kind v) ≡ true) × (fits_enum t v ≡ true) × (inner t ≡ [])
unfolding under
under-fits top s t v place inner e h = elim (Bool-cases (fits_type t (kind v))) [
  | inr y ↦ absurd (cc (rw (e, under, y) at h))
  | inl y ↦ elim (Bool-cases (fits_enum t v)) [
    | inl z ↦ (y, z, rw (e, under, y, z) at h)
    | inr z ↦ absurd (cc (rw (e, under, y, z) at h))
  ]
]

pub fits-under :
    (top s t : Schema) (v : Value) (place : Place) (inner : Schema → List Problem)
    → target top s ≡ some t
    → fits_type t (kind v) ≡ true
    → fits_enum t v ≡ true
    → inner t ≡ []
    → under top s v place inner ≡ []
unfolding under
fits-under top s t v place inner e y z h = rw (e, under, y, z) h

pub missing_keys-has :
    (rs : List Text) (fs : Fields) (place : Place) (k : Text)
    → missing_keys rs fs place ≡ []
    → contains k rs ≡ true
    → has_key k fs ≡ true
unfolding missing_keys contains
missing_keys-has [] fs place k h e = absurd (let bad : false ≡ true = e in cc)
missing_keys-has (r ∷ rs) fs place k h e = elim (Bool-cases (same r k)) [
  | inl y ↦
      let eq : r ≡ k = (same_iff r k).0 y in rw (← eq) (ground (arith, Bool-cases (has_key r fs)))
  | inr y ↦ ground (arith, missing_keys-has rs fs place k)
]

pub has-missing_keys :
    (rs : List Text) (fs : Fields) (place : Place)
    → ((k : Text) → contains k rs ≡ true → has_key k fs ≡ true)
    → missing_keys rs fs place ≡ []
unfolding missing_keys contains
has-missing_keys [] fs place h = refl
has-missing_keys (r ∷ rs) fs place h =
    rw (h r (ground (arith, same_refl r)))
      (has-missing_keys rs fs place (λ k e. h k (ground arith)))

pub all_named-named :
    (rs : List Text) (ps : Properties) (k : Text)
    → all_named rs ps ≡ true
    → contains k rs ≡ true
    → (s : Schema) × (named ps k ≡ some s)
unfolding all_named contains
all_named-named [] ps k h e = absurd (let bad : false ≡ true = e in cc)
all_named-named (r ∷ rs) ps k h e = elim (Option-cases (named ps r)) [
  | inl y ↦ absurd (let bad : false ≡ true = (rw y at h) in cc)
  | inr (s, y) ↦ elim (Bool-cases (same r k)) [
    | inl z ↦ let eq : r ≡ k = (same_iff r k).0 z in (s, rw (← eq) y)
    | inr z ↦ all_named-named rs ps k (rw y at h) (rw z at e)
  ]
]

none_of-same : (a b : List Text) → same_types a b ≡ true → none_of a ≡ true → none_of b ≡ true
unfolding contains
none_of-same (_ ∷ _) b h e = absurd (let bad : false ≡ true = e in cc)
none_of-same [] [] h e = refl
none_of-same [] (t ∷ b) h e = ground (arith, contains-same_types t [] (t ∷ b) h, same_refl t)

pub fits_type-same :
    (p n : Schema) (k : Text)
    → same_types (types p) (types n) ≡ true
    → fits_type p k ≡ true
    → fits_type n k ≡ true
unfolding fits_type has
fits_type-same p n k h e = ground (
  arith,
  none_of-same (types p) (types n) h,
  contains-same_types k (types p) (types n) h,
  contains-same_types type_number (types p) (types n) h,
)

-- A schema that allows objects and says which keys they have passes over none.
pub keyed-names :
    (s : Schema) (k : Text)
    → names_keys (types s) (properties s) (additional_properties s) ≡ true
    → fits_type s type_object ≡ true
    → keyed s k ≢ passed_over
unfolding keyed names_keys fits_type has
keyed-names s k h e = ground arith

named-shaped :
    (top : Schema) (ps : Properties) (k : Text) (s : Schema)
    → are_shaped top ps ≡ true
    → named ps k ≡ some s
    → is_shaped top s ≡ true
unfolding is_shaped named
named-shaped top unset k s h e = absurd (let bad : none ≡ some s = e in cc)
named-shaped top end k s h e = absurd (let bad : none ≡ some s = e in cc)
named-shaped top (property n d rest) k s h e = elim (Bool-cases (same n k)) [
  | inl y ↦
      let eq : d ≡ s = (let x : some d ≡ some s = (rw y at e) in cc) in rw (← eq) (ground arith)
  | inr y ↦ named-shaped top rest k s (ground arith) (rw y at e)
]

sub-shaped :
    (top : Schema) (a : Subschema) (s : Schema)
    → is_shaped_sub top a ≡ true
    → a ≡ present s
    → is_shaped top s ≡ true
unfolding is_shaped
sub-shaped top absent s h e = absurd (let bad : absent ≡ present s = e in cc)
sub-shaped top (present x) s h e = let eq : x ≡ s = cc in rw (← eq) h

pub keyed-shaped :
    (top d : Schema) (k : Text)
    → IsBody top d
    → (s : Schema) → keyed d k ≡ described s
    → is_shaped top s ≡ true
unfolding keyed prop
keyed-shaped top d k b s h = elim (Option-cases (named (properties d) k)) [
  | inr (x, e) ↦
      let same_sub : described x ≡ described s = (rw (e, keyed) at h) in
      let eq : x ≡ s = cc in rw (← eq) (named-shaped top (properties d) k x b.props_shaped e)
  | inl e ↦ elim (Subschema-cases (additional_properties d)) [
    | inr (x, u) ↦
        let same_sub : described x ≡ described s = (rw (e, u, keyed) at h) in
        let eq : x ≡ s = cc in
        rw (← eq) (sub-shaped top (additional_properties d) x b.additional_shaped u)
    | inl u ↦ elim (Bool-cases (is_unset (properties d))) [
      | inl y ↦ absurd (let bad : passed_over ≡ described s = (rw (e, u, y, keyed) at h) in cc)
      | inr y ↦ absurd (let bad : refused ≡ described s = (rw (e, u, y, keyed) at h) in cc)
    ]
  ]
]
