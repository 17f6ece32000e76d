-- ===== src/Table/Cells.antt =====
-- pkg/engine/table.go: cutting a row by the columns its header starts at (`alignedCells`, `cellEnd`,
-- `runeAt`, `allNarrow`). A row is its runes.
use jsonize.Prelude.{
  ℕ, zero, suc, ◌+◌, ◌-◌, Bool, true, false, not, ◌&&◌, ◌||◌, List, [], ◌∷◌, Option, none, some,
  Text, ◌==◌, ltb, leb, if◌then◌else◌, length, take, drop, min, max,
}
use jsonize.Runes.{is_space, is_nil, trim_space}
use jsonize.Width.{cell_width}

pub record Column : Type 0 where
  pub name : Text
  pub start : ℕ

-- `unicode.IsSpace(runes[i])`, in range
unfoldable pub space_at : List ℕ → ℕ → Bool
space_at [] i = false
space_at (r ∷ rs) zero = is_space r
space_at (r ∷ rs) (suc i) = space_at rs i

-- `for j > start && !unicode.IsSpace(runes[j-1])`
unfoldable pub walk_left : List ℕ → ℕ → ℕ → ℕ
walk_left rs start zero = zero
walk_left rs start (suc j) =
    if ltb start (suc j) && not (space_at rs j) then walk_left rs start j else suc j

-- `for end < n && !unicode.IsSpace(runes[end])`; the fuel is the runes that are left
unfoldable pub walk_right : ℕ → List ℕ → ℕ → ℕ
walk_right zero rs end = end
walk_right (suc fuel) rs end =
    if ltb end (length rs) && not (space_at rs end) then walk_right fuel rs (suc end) else end

unfoldable pub cell_end : List ℕ → ℕ → ℕ → ℕ
cell_end rs start end =
    if leb end start || leb (length rs) end || space_at rs end || space_at rs (end - 1)
    then end
    else (let j = walk_left rs start end in
        if ltb start j then j else walk_right (length rs - end) rs end)

-- the loop of `runeAt`: `pos` is the display column of this rune, `i` its index
unfoldable pub rune_at_from : (ℕ → Bool) → ℕ → ℕ → ℕ → List ℕ → ℕ
rune_at_from is_mark col pos i [] = i
rune_at_from is_mark col pos i (r ∷ rs) =
    if leb col pos && ltb 0 (cell_width is_mark r)
    then i
    else rune_at_from is_mark col (pos + cell_width is_mark r) (suc i) rs

unfoldable pub rune_at : (ℕ → Bool) → List ℕ → ℕ → ℕ
unfolding rune_at_from
rune_at is_mark rs col = rune_at_from is_mark col 0 0 rs

abbrev pub every : (ℕ → Bool) → List ℕ → Bool
every p [] = true
every p (r ∷ rs) = p r && every p rs

-- A text has as many bytes as runes where every rune is ASCII.
unfoldable pub all_narrow : (ℕ → Bool) → List ℕ → Bool
all_narrow is_mark rs =
    if every (λ r. ltb r 0x80) rs then true else every (λ r. cell_width is_mark r == 1) rs

-- `raw`: the text of a cell, or nothing for an empty one
abbrev pub Raw : Type 0
Raw = Option (List ℕ)

pub data Row : Type 0 where
  cells : List Raw → Row
  -- the column, counted from the last, that the row has no place for; the flag is `gutter`
  misaligned : ℕ → Bool → Row

abbrev pub add_cell : Raw → Row → Row
add_cell c (cells cs) = cells (c ∷ cs)
add_cell c (misaligned k g) = misaligned k g

-- `strings.Contains(cell, "\t") || strings.Contains(cell, "  ")`
unfoldable pub holds_gap : List ℕ → Bool
holds_gap [] = false
holds_gap (r ∷ []) = r == b'\t'
holds_gap (r ∷ s ∷ rs) = r == b'\t' || r == b' ' && s == b' ' || holds_gap (s ∷ rs)

unfoldable pub slice : List ℕ → ℕ → ℕ → List ℕ
slice rs start end = take (end - start) (drop start rs)

-- where the next column begins: an index where every rune takes one column
unfoldable pub next_start : (ℕ → Bool) → Bool → List ℕ → ℕ → ℕ
next_start is_mark narrow rs col = if narrow then col else rune_at is_mark rs col

-- the switch on a cell that was cut; `left` counts the columns behind this one, `overran` says that the
-- cell before it ran past where this column starts
unfoldable pub place : ℕ → Bool → List ℕ → Row → Row
place left overran cell rest =
    if ltb 0 left && holds_gap cell
    then misaligned left true
    else if is_nil cell && overran
    then misaligned left false
    else add_cell (if is_nil cell then none else some cell) rest

-- `min(max(end, start), n)`
abbrev pub clamp : ℕ → ℕ → ℕ → ℕ
clamp end start n = min (max end start) n

-- The loop over the columns, from the one that begins at `start`.
unfoldable pub cells_from : (ℕ → Bool) → Bool → List ℕ → ℕ → Bool → List Column → Row
cells_from is_mark narrow rs start overran [] = cells []
cells_from is_mark narrow rs start overran (c ∷ []) =
    place 0 overran (trim_space (slice rs start (length rs))) (cells [])
cells_from is_mark narrow rs start overran (c ∷ d ∷ cs) =
    let boundary = clamp (next_start is_mark narrow rs d.start) start (length rs) in
    let end = cell_end rs start boundary in
    place (suc (length cs)) overran (trim_space (slice rs start end))
      (cells_from is_mark narrow rs end (ltb boundary end) (d ∷ cs))

unfoldable pub aligned_cells : (ℕ → Bool) → List ℕ → List Column → Row
unfolding cells_from
aligned_cells is_mark rs cols = cells_from is_mark (all_narrow is_mark rs) rs 0 false cols
