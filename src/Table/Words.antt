-- ===== src/Table/Words.antt =====
-- pkg/engine/table.go, `whitespaceCells`: which rows have too few fields.
use jsonize.Prelude.{
  ℕ, zero, suc, ◌≤◌, ◌<◌, ◌≡◌, ◌↔◌, refl, ap, ◌∙◌, Bool, true, false, List, [], ◌∷◌, Option, none,
  some, ◌==◌, ltb, if◌then◌else◌, length, arith, min, Bool-cases, inl, inr,
}
use jsonize.Runes.{is_space, trim_left, trim_right, trim_space}
use jsonize.Table.Fields.{after_word, split_from, split_fields_n, Counts, whitespace_cells}

-- The runs of runes that are no white space; the flag says that none is open.
unfoldable pub words_from : Bool → List ℕ → ℕ
words_from gap [] = 0
words_from gap (r ∷ rs) =
    let closed = words_from true rs in
    let open_run = words_from false rs in
    if is_space r then closed else if gap then suc open_run else open_run

abbrev pub words : List ℕ → ℕ
words = words_from true

words-after_word : (s : List ℕ) → words_from false s ≡ words (after_word s)
unfolding words_from after_word
words-after_word [] = refl
words-after_word (r ∷ rs) = ground (arith, words-after_word rs)

words-trim_left : (s : List ℕ) → words (trim_left s) ≡ words s
unfolding words_from trim_left
words-trim_left [] = refl
words-trim_left (r ∷ rs) = ground (arith, words-trim_left rs)

-- no white space in front
abbrev starts_word : List ℕ → Bool
starts_word [] = true
starts_word (r ∷ rs) = if is_space r then false else true

trim_left-starts_word : (s : List ℕ) → starts_word (trim_left s) ≡ true
unfolding trim_left
trim_left-starts_word [] = refl
trim_left-starts_word (r ∷ rs) = ground (arith, trim_left-starts_word rs)

length-split_from :
    (k : ℕ) (s : List ℕ) → starts_word s ≡ true → length (split_from k s) ≡ min (suc k) (words s)
unfolding split_from words_from after_word
length-split_from zero [] h = omega arith
length-split_from zero (r ∷ rs) h = ground arith
length-split_from (suc k) [] h = omega arith
length-split_from (suc k) (r ∷ rs) h = ground (
  arith,
  words-after_word rs,
  words-trim_left (after_word rs),
  length-split_from k (trim_left (after_word rs)) (trim_left-starts_word (after_word rs)),
)

words-trim_right : (gap : Bool) (s : List ℕ) → words_from gap (trim_right s) ≡ words_from gap s
unfolding words_from trim_right
words-trim_right gap [] = refl
words-trim_right gap (r ∷ rs) = ground (arith, words-trim_right true rs, words-trim_right false rs)

trim_right-starts_word : (s : List ℕ) → starts_word s ≡ true → starts_word (trim_right s) ≡ true
unfolding trim_right
trim_right-starts_word [] h = refl
trim_right-starts_word (r ∷ rs) h = ground arith

length-split_fields_n : (s : List ℕ) (n : ℕ) → 0 < n → length (split_fields_n s n) ≡ min n (words s)
unfolding split_fields_n trim_space
length-split_fields_n s zero h = absurd (omega arith)
length-split_fields_n s (suc k) h =
    length-split_from k (trim_space s)
      (trim_right-starts_word (trim_left s) (trim_left-starts_word s))
    ∙ ap (min (suc k)) (words-trim_right true (trim_left s) ∙ words-trim_left s)

abbrev checked : List (List ℕ) → ℕ → ℕ → Option (List (List ℕ))
checked parts fewest ncols =
    if ltb (length parts) fewest
    then none
    else if ltb ncols (length parts)
    then none
    else some parts

checked-none :
    (parts : List (List ℕ)) (fewest ncols count : ℕ)
    → length parts ≡ min ncols count
    → fewest ≤ ncols
    → (checked parts fewest ncols ≡ none) ↔ (count < fewest)
checked-none parts fewest ncols count e f = (
  λ h. elim (Bool-cases (ltb (length parts) fewest)) [
    | inl y ↦ ground arith
    | inr y ↦ absurd (
        let none_more : ltb ncols (length parts) ≡ false = ground arith in
        let bad : some parts ≡ none = (rw (y, none_more) at h) in cc)
  ],
  λ h. let few : ltb (length parts) fewest ≡ true = ground arith in rw few refl,
)

fewest-le : (m n : ℕ) → m ≤ n → (if m == 0 then n else m) ≤ n
fewest-le m n h = ground arith

-- Where a definition says nothing of the most fields, and the fewest that it asks for (as many as there
-- are columns, if it names no number) are no more than the columns, a row is refused exactly where it
-- has fewer words than that.
pub whitespace_cells-words :
    (c : Counts) (text : List ℕ) (ncols : ℕ)
    → c.max_fields ≡ 0
    → c.min_fields ≤ ncols
    → 0 < ncols
    → (whitespace_cells c text ncols ≡ none)
      ↔ (words text < (if c.min_fields == 0 then ncols else c.min_fields))
unfolding whitespace_cells
whitespace_cells-words c text ncols m f n = rw m (
    checked-none (split_fields_n text ncols) (if c.min_fields == 0 then ncols else c.min_fields)
      ncols (words text) (length-split_fields_n text ncols n) (fewest-le c.min_fields ncols f))
