-- ===== src/Selector/Distance.antt =====
-- pkg/selector/selector.go, `levenshtein` and `suggest`: the known names that an error offers for one that
-- does not exist.
use jsonize.Prelude.{
  ℕ, suc, ◌+◌, Bool, not, ◌&&◌, List, [], ◌∷◌, Option, none, some, Text, ◌==◌, ltb, min, same, take,
  cut_prefix, if◌then◌else◌,
}
use jsonize.Selector.{is_none}
use jsonize.Utf8.{runes}
use jsonize.KeyFilter.{less}

-- the inner loop, behind the first cell: `left` is `cur[j-1]`, `corner` is `prev[j-1]`
unfoldable pub fill_row : ℕ → ℕ → ℕ → List ℕ → List ℕ → List ℕ
fill_row r left corner [] above = []
fill_row r left corner (b ∷ bs) [] = []
fill_row r left corner (b ∷ bs) (up ∷ above) =
    let cost = if r == b then 0 else 1 in
    let cell = min (min (suc up) (suc left)) (corner + cost) in cell ∷ fill_row r cell up bs above

unfoldable pub next_row : ℕ → ℕ → List ℕ → List ℕ → List ℕ
unfolding fill_row
next_row r i bs [] = []
next_row r i bs (corner ∷ above) = i ∷ fill_row r i corner bs above

-- the outer loop
unfoldable pub rows : ℕ → List ℕ → List ℕ → List ℕ → List ℕ
unfolding next_row
rows i [] bs prev = prev
rows i (r ∷ rs) bs prev = rows (suc i) rs bs (next_row r i bs prev)

unfoldable pub first_row : ℕ → List ℕ → List ℕ
first_row j [] = j ∷ []
first_row j (_ ∷ bs) = j ∷ first_row (suc j) bs

-- `prev[len(rb)]`
unfoldable pub last_cell : List ℕ → ℕ
last_cell [] = 0
last_cell (n ∷ []) = n
last_cell (_ ∷ m ∷ ns) = last_cell (m ∷ ns)

unfoldable pub levenshtein : Text → Text → ℕ
unfolding rows first_row last_cell runes
levenshtein a b = last_cell (rows 1 (runes a) (runes b) (first_row 0 (runes b)))

abbrev is_prefix : Text → Text → Bool
is_prefix text prefix = not (is_none (cut_prefix prefix text))

-- the test of the loop of `suggest`: the distance of a name that is offered
unfoldable pub score : Text → Text → Option ℕ
unfolding levenshtein cut_prefix same
score s k =
    let d = levenshtein s k in
    if same k s
    then none
    else if ltb 2 d && (not (is_prefix k s) && not (is_prefix s k))
    then none
    else some d

-- `best`, or none for -1
unfoldable pub closest : Text → List Text → Option ℕ → Option ℕ
unfolding score
closest s [] best = best
closest s (k ∷ ks) best = elim (score s k) [
  | none ↦ closest s ks best
  | some d ↦ elim best [ none ↦ closest s ks (some d) | some b ↦ closest s ks (some (min b d)) ]
]

-- A name in its place among sorted ones, once.
unfoldable pub put_name : Text → List Text → List Text
unfolding less same
put_name k [] = k ∷ []
put_name k (n ∷ ns) =
    let rest = put_name k ns in
    if same k n then n ∷ ns else if less n k then n ∷ rest else k ∷ n ∷ ns

unfoldable pub at_distance : Text → ℕ → List Text → List Text
unfolding score put_name
at_distance s best [] = []
at_distance s best (k ∷ ks) =
    let rest = at_distance s best ks in
    elim (score s k) [ none ↦ rest | some d ↦ if d == best then put_name k rest else rest ]

-- `suggest`
unfoldable pub suggest : Text → List Text → List Text
unfolding closest at_distance
suggest s known = elim (closest s known none) [
  | none ↦ []
  | some best ↦ take 3 (at_distance s best known)
]
