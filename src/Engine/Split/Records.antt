-- ===== src/Engine/Split/Records.antt =====
-- `splitRecords` of pkg/engine/engine.go against the records of an input.
use jsonize.Prelude.{
  subst, ◌≢◌, ℕ, suc, ◌≤◌, ◌≡◌, refl, Bool, true, false, List, [], ◌∷◌, ◌++◌, Text, length, arith,
  ◌==◌, Bool-cases, inl, inr, ◌⊎◌,
}
use jsonize.Utf8.{valid_utf8}
use jsonize.Engine.Line.{Line, SplitError}
use jsonize.Engine.Split.{
  Split, ok, err, trim_suffix, prepare_record, holds_nul, push_head, cut_records, read_record,
  read_records, split_records,
}

-- `strings.Join(records, sep)`
abbrev pub join_records : ℕ → List Text → Text
join_records sep [] = []
join_records sep (r ∷ []) = r
join_records sep (r ∷ s ∷ rs) = r ++ (sep ∷ join_records sep (s ∷ rs))

join-push_head :
    (sep c : ℕ) (rs : List Text) → join_records sep (push_head c rs) ≡ c ∷ join_records sep rs
join-push_head sep c [] = refl
join-push_head sep c (r ∷ []) = refl
join-push_head sep c (r ∷ s ∷ rs) = refl

-- There is at least one record.
cut_records-cons :
    (sep : ℕ) (text : Text) → (r : Text) × (rs : List Text) × (cut_records sep text ≡ r ∷ rs)
unfolding cut_records
cut_records-cons sep [] = ([], [], refl)
cut_records-cons sep (c ∷ cs) = elim (Bool-cases (c == sep)) [
  | inl e ↦ ([], cut_records sep cs, ground arith)
  | inr e ↦ let (r, rs, h) = cut_records-cons sep cs in (c ∷ r, rs, ground arith)
]

-- Cutting loses nothing: the records, joined by the separator, are the text.
pub join-cut_records : (sep : ℕ) (text : Text) → join_records sep (cut_records sep text) ≡ text
unfolding cut_records
join-cut_records sep [] = refl
join-cut_records sep (c ∷ cs) =
    let (r, rs, h) = cut_records-cons sep cs in
    ground (arith, join-cut_records sep cs, join-push_head sep c (cut_records sep cs))

-- The line at a position is the record there, prepared: it is no longer than the limit before that, and
-- after it is UTF-8 with no NUL byte where lines end with a line feed.
pub record IsRecord (sep max_len : ℕ) (keep : Bool) (num : ℕ) (rec : Text) (l : Line) : Type 0 where
  pub number : l.num ≡ num
  pub prepared : l.text ≡ prepare_record rec sep num keep
  pub within_limit : length rec ≤ max_len
  pub is_utf8 : valid_utf8 l.text ≡ true
  pub no_nul : sep ≡ b'\n' → holds_nul l.text ≡ false

abbrev pub AreRecords : ℕ → ℕ → Bool → ℕ → List Text → List Line → Type 0
AreRecords sep max_len keep num [] [] = Unit
AreRecords sep max_len keep num [] (_ ∷ _) = ⊥
AreRecords sep max_len keep num (_ ∷ _) [] = ⊥
AreRecords sep max_len keep num (r ∷ rs) (l ∷ ls) =
    IsRecord sep max_len keep num r l × AreRecords sep max_len keep (suc num) rs ls

read_record-IsRecord :
    (sep max_len : ℕ) (keep : Bool) (num : ℕ) (rec : Text) (l : Line)
    → read_record sep max_len keep num rec ≡ ok l
    → IsRecord sep max_len keep num rec l
unfolding read_record
read_record-IsRecord sep max_len keep num rec l h = ground arith

Split-cases : {A : Type 0} (s : Split A) → ((a : A) × (s ≡ ok a)) ⊎ ((e : SplitError) × (s ≡ err e))
Split-cases (ok a) = inl (a, refl)
Split-cases (err e) = inr (e, refl)

read_records-AreRecords :
    (sep max_len : ℕ) (keep : Bool) (num : ℕ) (recs : List Text) (lines : List Line)
    → read_records sep max_len keep num recs ≡ ok lines
    → AreRecords sep max_len keep num recs lines
unfolding read_records
read_records-AreRecords sep max_len keep num [] [] h = tt
read_records-AreRecords sep max_len keep num [] (l ∷ ls) h = cc
read_records-AreRecords sep max_len keep num (r ∷ rs) lines h =
    elim (Split-cases (read_record sep max_len keep num r)) [
      | inr (e, f) ↦ ground arith
      | inl (l, f) ↦ elim (Split-cases (read_records sep max_len keep (suc num) rs)) [
        | inr (e, g) ↦ ground arith
        | inl (ls, g) ↦
            let met : (l ∷ ls) ≡ lines = ground arith in
            let both : AreRecords sep max_len keep num (r ∷ rs) (l ∷ ls) = (
              read_record-IsRecord sep max_len keep num r l f,
              read_records-AreRecords sep max_len keep (suc num) rs ls g,
            ) in
            subst (AreRecords sep max_len keep num (r ∷ rs)) met both
      ]
    ]

-- The lines of an input that is accepted and not empty are, in order and numbered from 1, the records of the input
-- without the separator that ends it, each prepared and checked; joined by the separator those records
-- are that text.
pub split_records-AreRecords :
    (input : Text) (sep max_len : ℕ) (keep : Bool) (lines : List Line)
    → input ≢ []
    → split_records input sep max_len keep ≡ ok lines
    → AreRecords sep max_len keep 1 (cut_records sep (trim_suffix sep input)) lines
      × (join_records sep (cut_records sep (trim_suffix sep input)) ≡ trim_suffix sep input)
unfolding split_records
split_records-AreRecords [] sep max_len keep lines ne h = absurd (ne refl)
split_records-AreRecords (c ∷ cs) sep max_len keep lines ne h = (
  read_records-AreRecords sep max_len keep 1 (cut_records sep (trim_suffix sep (c ∷ cs))) lines h,
  join-cut_records sep (trim_suffix sep (c ∷ cs)),
)
