-- ===== src/Table/Narrow.antt =====
-- `allNarrow` of pkg/engine/table.go: when a display column is taken for an index.
use jsonize.Prelude.{
  ℕ, suc, ◌+◌, ◌-◌, ◌≡◌, refl, Bool, true, false, List, [], ◌∷◌, ◌==◌, ltb, length, min, arith,
}
use jsonize.Width.{cell_width}
use jsonize.Width.Search.{cell_width-in_ranges}
use jsonize.Table.Cells.{every, rune_at_from, rune_at, all_narrow, next_start, clamp}

rune_at_from-narrow :
    (is_mark : ℕ → Bool) (col pos i : ℕ) (rs : List ℕ)
    → every (λ r. cell_width is_mark r == 1) rs ≡ true
    → rune_at_from is_mark col pos i rs ≡ i + min (col - pos) (length rs)
unfolding rune_at_from
rune_at_from-narrow is_mark col pos i [] h = omega arith
rune_at_from-narrow is_mark col pos i (r ∷ rs) h =
    ground (arith, rune_at_from-narrow is_mark col (pos + cell_width is_mark r) (suc i) rs)

every-ascii :
    (is_mark : ℕ → Bool) (rs : List ℕ)
    → every (λ r. ltb r 0x80) rs ≡ true
    → every (λ r. cell_width is_mark r == 1) rs ≡ true
every-ascii is_mark [] h = refl
every-ascii is_mark (r ∷ rs) h =
    ground (arith, every-ascii is_mark rs, cell_width-in_ranges is_mark r)

-- Where every rune of a row is narrow, cutting at the column itself gives the boundary that looking the
-- column up in the runes gives, wherever the cell starts.
pub all_narrow-next_start :
    (is_mark : ℕ → Bool) (rs : List ℕ) (col start : ℕ)
    → all_narrow is_mark rs ≡ true
    → clamp (next_start is_mark true rs col) start (length rs)
      ≡ clamp (next_start is_mark false rs col) start (length rs)
unfolding all_narrow next_start rune_at
all_narrow-next_start is_mark rs col start h =
    ground (arith, rune_at_from-narrow is_mark col 0 0 rs, every-ascii is_mark rs)
