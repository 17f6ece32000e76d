-- ===== src/Table/Aligned.antt =====
-- What can be seen of a row that `alignedCells` of pkg/engine/table.go cuts, and of its cells.
use jsonize.Prelude.{
  ℕ, zero, suc, ◌-◌, ◌≤◌, ◌≡◌, ◌≢◌, refl, sym, Bool, false, List, [], ◌∷◌, ◌++◌, none, some, ltb,
  length, take, drop, arith, take-append-drop, append-nil,
}
use jsonize.Runes.{trim_space, visible, visible-append, visible-trim_space}
use jsonize.Table.Cells.{
  Column, walk_left, walk_right, cell_end, all_narrow, Raw, Row, cells, misaligned, slice,
  next_start, place, clamp, cells_from, aligned_cells,
}

walk_left-le : (rs : List ℕ) (start j : ℕ) → walk_left rs start j ≤ j
unfolding walk_left
walk_left-le rs start zero = omega arith
walk_left-le rs start (suc j) = ground (arith, walk_left-le rs start j)

walk_right_bounds :
    (fuel : ℕ) (rs : List ℕ) (end : ℕ)
    → end ≤ length rs
    → (end ≤ walk_right fuel rs end) × (walk_right fuel rs end ≤ length rs)
unfolding walk_right
walk_right_bounds zero rs end h = omega arith
walk_right_bounds (suc f) rs end h = ground (arith, walk_right_bounds f rs (suc end))

-- The end of a cell lies in the row and not before its start.
pub cell_end_bounds :
    (rs : List ℕ) (start end : ℕ)
    → start ≤ end
    → end ≤ length rs
    → (start ≤ cell_end rs start end) × (cell_end rs start end ≤ length rs)
unfolding cell_end
cell_end_bounds rs start end h k =
    ground (arith, walk_left-le rs start end, walk_right_bounds (length rs - end) rs end)

sub_zero : (b : ℕ) → b - 0 ≡ b
sub_zero b = omega arith

sub_suc : (a b : ℕ) → suc b - suc a ≡ b - a
sub_suc a b = omega arith

take-nil : (n : ℕ) → take {A = ℕ} n [] ≡ []
take-nil zero = refl
take-nil (suc n) = refl

drop-nil : (n : ℕ) → drop {A = ℕ} n [] ≡ []
drop-nil zero = refl
drop-nil (suc n) = refl

drop-slice : (rs : List ℕ) (a b : ℕ) → a ≤ b → drop a rs ≡ slice rs a b ++ drop b rs
unfolding slice
drop-slice rs zero b h = rw sub_zero (sym (take-append-drop b rs))
drop-slice [] (suc a) b h = ground (arith, take-nil (b - suc a), drop-nil b)
drop-slice (r ∷ rs) (suc a) zero h = absurd (omega arith)
drop-slice (r ∷ rs) (suc a) (suc b) h = rw sub_suc (drop-slice rs a b (omega arith))

drop_all : (rs : List ℕ) → drop (length rs) rs ≡ []
drop_all [] = refl
drop_all (r ∷ rs) = drop_all rs

abbrev text_of : Raw → List ℕ
text_of none = []
text_of (some t) = t

-- The texts of the cells of a row, one behind the other.
abbrev pub texts_of : List Raw → List ℕ
texts_of [] = []
texts_of (c ∷ cs) = text_of c ++ texts_of cs

-- What a cut from an index on says: as many cells as columns, and what can be seen of the rest.
record Holds (n : ℕ) (rest : List ℕ) (cs : List Raw) : Type 0 where
  count : length cs ≡ n
  seen : visible (texts_of cs) ≡ visible rest

place-ok :
    (left : ℕ) (overran : Bool) (cell : List ℕ) (row : Row) (cs : List Raw)
    → place left overran cell row ≡ cells cs
    → (c : Raw) × (ds : List Raw) × (cs ≡ c ∷ ds) × (text_of c ≡ cell) × (row ≡ cells ds)
unfolding place
place-ok left overran cell (misaligned k g) cs h = ground arith
place-ok left overran [] (cells ds) cs h = (none, ds, ground arith, refl, refl)
place-ok left overran (r ∷ rs) (cells ds) cs h = (some (r ∷ rs), ds, ground arith, refl, refl)

cells_from-Holds :
    (is_mark : ℕ → Bool) (narrow : Bool) (rs : List ℕ) (start : ℕ) (overran : Bool) (c : Column)
    (cols : List Column) (cs : List Raw)
    → start ≤ length rs
    → cells_from is_mark narrow rs start overran (c ∷ cols) ≡ cells cs
    → Holds (suc (length cols)) (drop start rs) cs
unfolding cells_from
cells_from-Holds is_mark narrow rs start overran c [] cs le h =
    let cell = slice rs start (length rs) in
    let (x, ds, e, t, r) = place-ok 0 overran (trim_space cell) (cells []) cs h in
    record {
      count = ground arith;
      seen = ground (
        arith,
        visible-append (text_of x) (texts_of ds),
        visible-trim_space cell,
        drop-slice rs start (length rs) le,
        drop_all rs,
        append-nil cell,
        append-nil (text_of x),
      );
    }
cells_from-Holds is_mark narrow rs start overran c (d ∷ cols) cs le h =
    let boundary = clamp (next_start is_mark narrow rs d.start) start (length rs) in
    let end = cell_end rs start boundary in
    let cell = slice rs start end in
    let bounds = cell_end_bounds rs start boundary (omega arith) (omega arith) in
    let (x, ds, e, t, r) =
      place-ok (suc (length cols)) overran (trim_space cell)
        (cells_from is_mark narrow rs end (ltb boundary end) (d ∷ cols)) cs h in
    let ih = cells_from-Holds is_mark narrow rs end (ltb boundary end) d cols ds bounds.1 r in
    record {
      count = ground (arith, ih.count);
      seen = ground (
        arith,
        visible-append (text_of x) (texts_of ds),
        visible-append cell (drop end rs),
        visible-trim_space cell,
        drop-slice rs start end bounds.0,
        ih.seen,
      );
    }

-- A row that is cut by at least one column has a cell for every column, and the cells, one behind the
-- other, hold every character of the row but white space, in order.
pub aligned_cells-visible :
    (is_mark : ℕ → Bool) (rs : List ℕ) (cols : List Column) (cs : List Raw)
    → cols ≢ []
    → aligned_cells is_mark rs cols ≡ cells cs
    → (length cs ≡ length cols) × (visible (texts_of cs) ≡ visible rs)
unfolding aligned_cells
aligned_cells-visible is_mark rs [] cs ne h = absurd (ne refl)
aligned_cells-visible is_mark rs (c ∷ cols) cs ne h =
    let all =
      cells_from-Holds is_mark (all_narrow is_mark rs) rs 0 false c cols cs (omega arith) h in
    (all.count, all.seen)
