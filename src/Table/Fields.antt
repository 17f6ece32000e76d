-- ===== src/Table/Fields.antt =====
-- pkg/engine/table.go: splitting a row on white space (`splitFieldsN`, `whitespaceCells`,
-- `checkCount`).
use jsonize.Prelude.{
  ℕ, zero, suc, ◌≤◌, ◌≡◌, ◌≢◌, refl, ap, ◌∙◌, List, [], ◌∷◌, ◌++◌, Option, none, some, ◌==◌, ltb,
  if◌then◌else◌, length, arith, append-nil,
}
use jsonize.Runes.{
  is_space, is_nil, trim_left, trim_space, visible, visible-append, visible-trim_left,
  visible-trim_space,
}

-- the text before the first space, and from it on
unfoldable pub word : List ℕ → List ℕ
word [] = []
word (r ∷ rs) = if is_space r then [] else r ∷ word rs

unfoldable pub after_word : List ℕ → List ℕ
after_word [] = []
after_word (r ∷ rs) = if is_space r then r ∷ rs else after_word rs

-- The loop, and the element behind it: `k` more words are cut off at most.
unfoldable pub split_from : ℕ → List ℕ → List (List ℕ)
split_from zero rest = if is_nil rest then [] else rest ∷ []
split_from (suc k) rest =
    if is_nil rest
    then []
    else if is_nil (after_word rest)
    then rest ∷ []
    else word rest ∷ split_from k (trim_left (after_word rest))

-- With no limit it is `strings.Fields`; a text has no more words than runes.
unfoldable pub split_fields_n : List ℕ → ℕ → List (List ℕ)
unfolding split_from
split_fields_n s zero = split_from (length s) (trim_space s)
split_fields_n s (suc k) = split_from k (trim_space s)

-- what a definition says of the fields of a row; 0 is as many as there are columns
pub record Counts : Type 0 where
  pub max_fields : ℕ
  pub min_fields : ℕ

unfoldable pub whitespace_cells : Counts → List ℕ → ℕ → Option (List (List ℕ))
unfolding split_fields_n
whitespace_cells c text ncols =
    let limit = if c.max_fields == 0 then ncols else c.max_fields in
    let min_fields = if c.min_fields == 0 then ncols else c.min_fields in
    let parts = split_fields_n text limit in
    if ltb (length parts) min_fields
    then none
    else if ltb ncols (length parts)
    then none
    else some parts

abbrev pub joined : List (List ℕ) → List ℕ
joined [] = []
joined (p ∷ ps) = p ++ joined ps

word-after_word : (s : List ℕ) → s ≡ word s ++ after_word s
unfolding word after_word
word-after_word [] = refl
word-after_word (r ∷ rs) = ground (arith, word-after_word rs)

visible-split_from : (k : ℕ) (s : List ℕ) → visible (joined (split_from k s)) ≡ visible s
unfolding split_from
visible-split_from zero [] = refl
visible-split_from zero (r ∷ rs) = ap visible (append-nil (r ∷ rs))
visible-split_from (suc k) [] = refl
visible-split_from (suc k) (r ∷ rs) =
    let s = r ∷ rs in
    ground (
      arith,
      append-nil s,
      word-after_word s,
      visible-append (word s) (after_word s),
      visible-append (word s) (joined (split_from k (trim_left (after_word s)))),
      visible-split_from k (trim_left (after_word s)),
      visible-trim_left (after_word s),
    )

length-split_from : (k : ℕ) (s : List ℕ) → length (split_from k s) ≤ suc k
unfolding split_from
length-split_from zero s = ground arith
length-split_from (suc k) s = ground (arith, length-split_from k (trim_left (after_word s)))

-- Splitting a row on white space loses no character that can be seen, whatever the limit, and a limit
-- other than 0 is not passed.
pub split_fields_n-visible :
    (s : List ℕ) (n : ℕ)
    → (visible (joined (split_fields_n s n)) ≡ visible s)
      × (n ≢ 0 → length (split_fields_n s n) ≤ n)
unfolding split_fields_n
split_fields_n-visible s zero =
    (visible-split_from (length s) (trim_space s) ∙ visible-trim_space s, λ ne. absurd (ne refl))
split_fields_n-visible s (suc k) = (
  visible-split_from k (trim_space s) ∙ visible-trim_space s,
  λ ne. length-split_from k (trim_space s),
)
