-- ===== src/Ltsv.antt =====
-- internal/datafile/ltsv.go, `ltsvLine`, with the `counter` of internal/datafile/datafile.go. A line is
-- its bytes; an error keeps the number of the field, and its message is left out.
pub mod Lines
use jsonize.Prelude.{
  ℕ, suc, Bool, true, false, not, ◌&&◌, ◌||◌, List, [], ◌∷◌, Option, none, some, Text, ◌==◌, leb,
  within, if◌then◌else◌,
}
use jsonize.Object.{Object, new_object, get, set}
use jsonize.Duration.Number.{cut, is_nil}
use jsonize.Engine.Split.{cut_records}

pub record Counter : Type 0 where
  pub max_values : ℕ
  pub n : ℕ
  pub whole : Bool

unfoldable pub start_record : Counter → Counter
start_record c = if not c.whole then record c { n = 0 } else c

-- none where the limit is passed
unfoldable pub add_value : Counter → Option Counter
add_value c = if leb (suc c.n) c.max_values then some (record c { n = suc c.n }) else none

abbrev is_label_byte : ℕ → Bool
is_label_byte c =
    within b'0' b'9' c
    || within b'A' b'Z' c
    || within b'a' b'z' c
    || c == b'_'
    || c == b'.'
    || c == b'-'

unfoldable pub label_bytes : Text → Bool
label_bytes [] = true
label_bytes (c ∷ cs) = is_label_byte c && label_bytes cs

unfoldable pub valid_label : Text → Bool
unfolding label_bytes
valid_label label = not (is_nil label) && label_bytes label

pub data LtsvError : Type 0 where
  no_label bad_label given_twice : ℕ → LtsvError
  too_many_values : LtsvError

pub data LtsvResult : Type 0 where
  ok : Object Text → Counter → LtsvResult
  err : LtsvError → LtsvResult

-- one round of the loop over the fields
unfoldable pub ltsv_field : ℕ → Text → Object Text → Counter → LtsvResult
unfolding valid_label add_value
ltsv_field i field obj c = elim (cut b':' field) [
  | none ↦ err (no_label i)
  | some (label, value) ↦
      if not (valid_label label) then err (bad_label i) else elim (get obj label) [
        | some _ ↦ err (given_twice i)
        | none ↦ elim (add_value c) [
          | none ↦ err too_many_values
          | some d ↦ ok (set obj label value) d
        ]
      ]
]

abbrev and_then : LtsvResult → (Object Text → Counter → LtsvResult) → LtsvResult
and_then (ok obj c) f = f obj c
and_then (err e) f = err e

unfoldable pub ltsv_fields : ℕ → List Text → Object Text → Counter → LtsvResult
unfolding ltsv_field
ltsv_fields i [] obj c = ok obj c
ltsv_fields i (field ∷ fields) obj c =
    and_then (ltsv_field i field obj c) (ltsv_fields (suc i) fields)

unfoldable pub ltsv_line : Text → Counter → LtsvResult
unfolding ltsv_fields
ltsv_line line c = elim (add_value c) [
  | none ↦ err too_many_values
  | some d ↦ ltsv_fields 1 (cut_records b'\t' line) new_object d
]
