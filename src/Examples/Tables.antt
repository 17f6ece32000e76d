-- ===== src/Examples/Tables.antt =====
-- Rows of tables, and wide characters.
use jsonize.Prelude.{
  arith, none, if◌then◌else◌, ◌↔◌, ◌<◌, ℕ, ◌≤◌, ◌≡◌, ◌≢◌, refl, Bool, true, false, List, [], ◌∷◌,
  some, codes, ltb, length, if◌then◌else◌,
}
use jsonize.Runes.{visible, trim_space, trim_left, is_space}
use jsonize.Width.{cell_width, wide_ranges}
use jsonize.Width.Search.{in_ranges, cell_width-in_ranges}
use jsonize.Table.Cells.{
  Column, cells, all_narrow, next_start, clamp, aligned_cells, cell_end, space_at, walk_left,
  walk_right, place, slice, holds_gap,
}
use jsonize.Table.Aligned.{texts_of, aligned_cells-visible}
use jsonize.Table.Narrow.{all_narrow-next_start}
use jsonize.Table.Words.{words, words_from, whitespace_cells-words}
use jsonize.Table.Fields.{Counts, whitespace_cells, joined, split_fields_n, split_fields_n-visible}

abbrev no_marks : ℕ → Bool
no_marks r = false

cell_width-in_ranges_example : cell_width no_marks 0x3042 ≡ (
    if ltb 0x3042 0x300
    then 1
    else if no_marks 0x3042
    then 0
    else if in_ranges 0x3042 wide_ranges
    then 2
    else 1)
cell_width-in_ranges_example = cell_width-in_ranges no_marks 0x3042

cell_widths :
    (cell_width no_marks 0x3042 ≡ 2)
    × (cell_width no_marks b'a' ≡ 1)
    × (cell_width no_marks 0x3100 ≡ 1)
unfolding cell_width
cell_widths = (refl, refl, refl)

abbrev columns : List Column
columns = record { name = codes "id"; start = 0 } ∷ record { name = codes "name"; start = 4 } ∷ []

-- the number is wider than the gap before its header
abbrev row : List ℕ
row = codes "7  1234"

row_cut : aligned_cells no_marks row columns ≡ cells (some (codes "7") ∷ some (codes "1234") ∷ [])
unfolding aligned_cells all_narrow next_start cell_end space_at walk_left walk_right place slice
    holds_gap trim_space trim_left is_space
row_cut = refl

aligned_cells-visible_example :
    (2 ≡ length columns)
    × (visible (texts_of (some (codes "7") ∷ some (codes "1234") ∷ [])) ≡ visible row)
aligned_cells-visible_example =
    aligned_cells-visible no_marks row columns (some (codes "7") ∷ some (codes "1234") ∷ []) (cc)
      row_cut

all_narrow-next_start_example :
    clamp (next_start no_marks true row 4) 0 (length row)
    ≡ clamp (next_start no_marks false row 4) 0 (length row)
all_narrow-next_start_example = all_narrow-next_start no_marks row 4 0 (unfold all_narrow in refl)

split_fields_n-visible_example :
    (visible (joined (split_fields_n (codes " a b  c ") 2)) ≡ visible (codes " a b  c "))
    × (◌≢◌ {A = ℕ} 2 0 → length (split_fields_n (codes " a b  c ") 2) ≤ 2)
split_fields_n-visible_example = split_fields_n-visible (codes " a b  c ") 2

abbrev two_at_least : Counts
two_at_least = record { max_fields = 0; min_fields = 2 }

one_word : words (codes " ab  ") ≡ 1
unfolding words_from is_space
one_word = refl

whitespace_cells-words_example :
    (whitespace_cells two_at_least (codes " ab  ") 3 ≡ none) ↔ (words (codes " ab  ") < 2)
whitespace_cells-words_example =
    whitespace_cells-words two_at_least (codes " ab  ") 3 refl (omega arith) (omega arith)
