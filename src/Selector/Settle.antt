-- ===== src/Selector/Settle.antt =====
-- pkg/selector/selector.go, `settle`: the choice among the definitions that all fit a text. It is called
-- with one of them at least.
use jsonize.Prelude.{
  ℕ, Bool, true, false, List, [], ◌∷◌, ◌++◌, Option, none, some, Text, same, ltb, ◌==◌,
  if◌then◌else◌,
}
use jsonize.Selector.{Entry, Rejection, fits_after, fits_with}

-- The texts of `SettledByRegistry`, `SettledByPriority` and no rule.
pub data Rule : Type 0 where
  unsettled settled_by_registry settled_by_priority : Rule

-- the first loop of `mostPreferred`
unfoldable pub least_precedence : ℕ → List Entry → ℕ
least_precedence best [] = best
least_precedence best (e ∷ es) =
    least_precedence (if ltb e.precedence best then e.precedence else best) es

unfoldable pub of_precedence : ℕ → List Entry → List Entry
of_precedence best [] = []
of_precedence best (e ∷ es) =
    let rest = of_precedence best es in if e.precedence == best then e ∷ rest else rest

unfoldable pub most_preferred : List Entry → List Entry
unfolding least_precedence of_precedence
most_preferred [] = []
most_preferred (e ∷ es) = of_precedence (least_precedence e.precedence es) (e ∷ es)

unfoldable pub of_command : Text → List Entry → Bool
of_command command [] = true
of_command command (e ∷ es) =
    let rest = of_command command es in if same e.def.command command then rest else false

-- the second loop of `breakTie`: the best so far, and whether another ties with it
unfoldable pub highest : Entry → Bool → List Entry → Entry × Bool
highest best tied [] = (best, tied)
highest best tied (e ∷ es) =
    let better = highest e false es in
    let level = highest best true es in
    let lower = highest best tied es in
    if ltb best.def.detect.priority e.def.detect.priority
    then better
    else if e.def.detect.priority == best.def.detect.priority
    then level
    else lower

unfoldable pub break_tie : List Entry → Option Entry
unfolding of_command highest
break_tie [] = none
break_tie (e ∷ es) =
    let top = highest e false es in
    if of_command e.def.command es then (if top.1 then none else some top.0) else none

pub record Settled : Type 0 where
  pub best : Option Entry
  pub rule : Rule
  pub outranked : List Rejection
  pub preferred : List Entry

-- the loop over the registries that come later
unfoldable pub later : Entry → List Entry → List Rejection
later first [] = []
later first (e ∷ es) =
    let rest = later first es in
    if e.precedence == first.precedence
    then rest
    else record {
      entry = e;
      reason = fits_after e.source first.source;
      close = true;
      explicit = false;
    }
      ∷ rest

-- the loop over the other preferred ones
unfoldable pub lower : Entry → List Entry → List Rejection
lower best [] = []
lower best (e ∷ es) =
    let rest = lower best es in
    if e.handle == best.handle
    then rest
    else record {
      entry = e;
      reason = fits_with e.def.detect.priority best.def.detect.priority;
      close = true;
      explicit = false;
    }
      ∷ rest

unfoldable pub settle_among : List Entry → List Entry → Settled
unfolding later lower break_tie
settle_among matched [] = record { best = none; rule = unsettled; outranked = []; preferred = [] }
settle_among matched (first ∷ []) = record {
  best = some first;
  rule = settled_by_registry;
  outranked = later first matched;
  preferred = first ∷ [];
}
settle_among matched (first ∷ second ∷ rest) = elim (break_tie (first ∷ second ∷ rest)) [
  | none ↦ record {
    best = none;
    rule = unsettled;
    outranked = [];
    preferred = first ∷ second ∷ rest;
  }
  | some best ↦ record {
    best = some best;
    rule = settled_by_priority;
    outranked = later first matched ++ lower best (first ∷ second ∷ rest);
    preferred = first ∷ second ∷ rest;
  }
]

unfoldable pub settle : List Entry → Settled
unfolding settle_among most_preferred
settle matched = settle_among matched (most_preferred matched)
