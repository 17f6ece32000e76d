-- ===== src/Selector/Reach.antt =====
-- pkg/selector/selector.go, `Candidates` and `Window`: how much of an input has to be read before a
-- definition is chosen for it.
use jsonize.Prelude.{ℕ, Bool, true, not, ◌&&◌, List, [], ◌∷◌, none, some, min, max, if◌then◌else◌}
use jsonize.Selector.{is_none, Entry, Registry, unsigned, is_nil, variants, lookup_entry}
use jsonize.Selector.Window.{max_signature_window}
use jsonize.Selector.Check.{Context, wrong_os, wrong_args, signature_lines}

-- The definitions that the name and the variant leave.
unfoldable pub scope : Registry → Context → List Entry
unfolding lookup_entry variants
scope reg ctx =
    if is_nil ctx.variant
    then variants reg ctx.parser
    else elim (lookup_entry reg ctx.parser ctx.variant) [ none ↦ [] | some e ↦ e ∷ [] ]

-- the loop of `Candidates`
unfoldable pub admitted : Context → List Entry → List Entry
unfolding wrong_os wrong_args
admitted ctx [] = []
admitted ctx (e ∷ es) =
    let rest = admitted ctx es in
    if not (wrong_os ctx e) && is_none (wrong_args ctx e) then e ∷ rest else rest

unfoldable pub candidates : Registry → Context → List Entry
unfolding scope admitted
candidates reg ctx = admitted ctx (scope reg ctx)

-- the loop of `Window`: the largest window of a signature
unfoldable pub widest : List Entry → ℕ → ℕ
unfolding unsigned signature_lines
widest [] n = n
widest (e ∷ es) n =
    let signature = e.def.detect.signature in
    let passed = widest es n in
    let seen = widest es (max n (signature_lines signature)) in
    if unsigned signature then passed else seen

unfoldable pub all_nul : List Entry → Bool
all_nul [] = true
all_nul (e ∷ es) = e.def.nul_separated && all_nul es

unfoldable pub window_of : List Entry → ℕ × ℕ
unfolding widest all_nul
window_of es = (
  min (max (widest es 0) 1) max_signature_window,
  if not (is_nil es) && all_nul es then 0 else b'\n',
)

-- `Window`
unfoldable pub window : Registry → Context → ℕ × ℕ
unfolding candidates window_of
window reg ctx = window_of (if is_nil ctx.parser then reg.all else candidates reg ctx)
