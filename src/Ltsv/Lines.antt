-- ===== src/Ltsv/Lines.antt =====
-- internal/datafile/ltsv.go: the members of the object read from a line, against the line.
use jsonize.Prelude.{
  ℕ, suc, false, subst, ◌≡◌, refl, sym, ap, ◌∙◌, ◌⊎◌, List, [], ◌∷◌, ◌++◌, none, Text, arith,
  Option-cases, inl, inr, append_assoc, append-nil,
}
use jsonize.Object.{Member, Object, new_object, get, set}
use jsonize.Object.Scan.{value_of}
use jsonize.Object.Index.{IsValid, set-IsValid, new_object-IsValid}
use jsonize.Object.Laws.{get-value_of}
use jsonize.KeyFilter.Narrow.{holds, set-new}
use jsonize.Duration.Number.{cut}
use jsonize.Duration.Parts.{cut-append}
use jsonize.Engine.Split.{cut_records}
use jsonize.Engine.Split.Records.{join_records, join-cut_records}
use jsonize.Ltsv.{
  Counter, LtsvError, LtsvResult, ok, err, add_value, ltsv_field, ltsv_fields, ltsv_line,
}

-- A member as a field is written.
abbrev pub field_of : Member Text → Text
field_of m = m.key ++ b':' ∷ m.value

abbrev pub fields_of : List (Member Text) → List Text
fields_of [] = []
fields_of (m ∷ ms) = field_of m ∷ fields_of ms

value_of-holds : (k : Text) (ms : List (Member Text)) → value_of k ms ≡ none → holds k ms ≡ false
unfolding value_of holds
value_of-holds k [] h = refl
value_of-holds k (m ∷ ms) h = ground (arith, value_of-holds k ms)

-- What a field that is read adds.
record Adds (field : Text) (obj new : Object Text) : Type 0 where
  member : Member Text
  spelled : field ≡ field_of member
  valid : IsValid new
  grown : new.members ≡ obj.members ++ member ∷ []

ltsv_field-Adds :
    (i : ℕ) (field : Text) (obj new : Object Text) (c d : Counter)
    → IsValid obj
    → ltsv_field i field obj c ≡ ok new d
    → Adds field obj new
unfolding ltsv_field
ltsv_field-Adds i field obj new c d v h = elim (Option-cases (cut b':' field)) [
  | inl e ↦ ground arith
  | inr ((label, value), e) ↦ elim (Option-cases (get obj label)) [
    | inr (x, f) ↦ ground arith
    | inl f ↦
        let is : set obj label value ≡ new = ground arith in
        let fresh = value_of-holds label obj.members (sym (get-value_of obj label v) ∙ f) in
        record {
          member = record { key = label; value = value };
          spelled = cut-append b':' field label value e;
          valid = subst IsValid is (set-IsValid obj label value v);
          grown =
              ap (λ o. o.members) (sym is)
              ∙ set-new obj (record { key = label; value = value }) v fresh;
        }
  ]
]

fields_of-append :
    (ms ns : List (Member Text)) → fields_of (ms ++ ns) ≡ fields_of ms ++ fields_of ns
fields_of-append [] ns = refl
fields_of-append (m ∷ ms) ns = ap (λ t. field_of m ∷ t) (fields_of-append ms ns)

LtsvResult-cases :
    (r : LtsvResult)
    → ((o : Object Text) × (c : Counter) × (r ≡ ok o c)) ⊎ ((e : LtsvError) × (r ≡ err e))
LtsvResult-cases (ok o c) = inl (o, c, refl)
LtsvResult-cases (err e) = inr (e, refl)

ltsv_fields-spelled :
    (i : ℕ) (fields : List Text) (obj new : Object Text) (c d : Counter)
    → IsValid obj
    → ltsv_fields i fields obj c ≡ ok new d
    → IsValid new × (fields_of new.members ≡ fields_of obj.members ++ fields)
unfolding ltsv_fields
ltsv_fields-spelled i [] obj new c d v h =
    let is : obj ≡ new = ground arith in
    (
      subst IsValid is v,
      ap (λ o. fields_of o.members) (sym is) ∙ sym (append-nil (fields_of obj.members)),
    )
ltsv_fields-spelled i (f ∷ fs) obj new c d v h = elim (LtsvResult-cases (ltsv_field i f obj c)) [
  | inl (o, k, e) ↦
      let adds = ltsv_field-Adds i f obj o c k v e in
      let rest : ltsv_fields (suc i) fs o k ≡ ok new d = ground arith in
      let (valid, made) = ltsv_fields-spelled (suc i) fs o new k d adds.valid rest in
      (
        valid,
        made
            ∙ ap (λ t. t ++ fs)
                (ap fields_of adds.grown ∙ fields_of-append obj.members (adds.member ∷ []))
            ∙ append_assoc (fields_of obj.members) (field_of adds.member ∷ []) fs
            ∙ ap (λ t. fields_of obj.members ++ t ∷ fs) (sym adds.spelled),
      )
  | inr (x, e) ↦ ground arith
]

-- The object read from a line is valid, and its members, in order, each written as a label, a colon
-- and the value, and joined by tabs, are the line.
pub ltsv_line-spelled :
    (line : Text) (c d : Counter) (obj : Object Text)
    → ltsv_line line c ≡ ok obj d
    → IsValid obj × (join_records b'\t' (fields_of obj.members) ≡ line)
unfolding ltsv_line new_object
ltsv_line-spelled line c d obj h = elim (Option-cases (add_value c)) [
  | inl e ↦ ground arith
  | inr (k, e) ↦
      let (valid, made) =
        ltsv_fields-spelled 1 (cut_records b'\t' line) new_object obj k d new_object-IsValid
          (ground arith) in
      (valid, ap (join_records b'\t') made ∙ join-cut_records b'\t' line)
]
