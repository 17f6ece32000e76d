-- ===== src/Selector/Window.antt =====
-- pkg/selector/selector.go, `signatureWindow` and `window`: the leading lines of an input, which is all
-- that a signature looks at. The joined texts that a window keeps are made again here.
use jsonize.Prelude.{
  ℕ, zero, suc, Bool, true, false, List, [], ◌∷◌, ◌++◌, Text, ◌==◌, take, length, if◌then◌else◌,
}
use jsonize.Selector.{is_nil}
use jsonize.Ansi.{strip_ansi}
use jsonize.Space.{blank}
use jsonize.Engine.Split.{trim_suffix, trim_bom}

-- `MaxSignatureWindow`
abbrev pub max_signature_window : ℕ
max_signature_window = 200

-- `DefaultSignatureWindow`
abbrev pub default_signature_window : ℕ
default_signature_window = 20

-- `strings.Join(lines, "\n")`
unfoldable pub join_lines : List Text → Text
join_lines [] = []
join_lines (l ∷ []) = l
join_lines (l ∷ m ∷ ms) = l ++ b'\n' ∷ join_lines (m ∷ ms)

-- `(*window).text`
unfoldable pub window_text : List Text → ℕ → Text
unfolding join_lines
window_text lines n = join_lines (take n lines)

-- `input[:i]` and `input[i+1:]` of the next line break
unfoldable pub line_of : Text → Text
line_of [] = []
line_of (c ∷ cs) = let rest = line_of cs in if c == b'\n' then [] else c ∷ rest

unfoldable pub behind_line : Text → Text
behind_line [] = []
behind_line (c ∷ cs) = let rest = behind_line cs in if c == b'\n' then cs else rest

unfoldable pub plain_line : Text → Bool → Text
unfolding strip_ansi trim_suffix trim_bom
plain_line l first =
    let bare = trim_suffix b'\r' (strip_ansi l) in if first then trim_bom bare else bare

-- What the loop leaves: the lines, and the input behind them.
pub record Leading : Type 0 where
  pub lines : List Text
  pub rest : Text

-- The loop. `room` is the number of lines that still fit; the fuel is a round for each byte.
unfoldable pub leading_lines : ℕ → ℕ → Bool → Bool → Text → Leading
unfolding line_of behind_line plain_line blank
leading_lines zero room first begun input = record { lines = []; rest = input }
leading_lines (suc fuel) zero first begun input = record { lines = []; rest = input }
leading_lines (suc fuel) (suc room) first begun [] = record { lines = []; rest = [] }
leading_lines (suc fuel) (suc room) first begun (c ∷ cs) =
    let line = plain_line (line_of (c ∷ cs)) first in
    let input = behind_line (c ∷ cs) in
    let skipped = leading_lines fuel (suc room) false false input in
    let rest = leading_lines fuel room false true input in
    if (if begun then false else blank line)
    then skipped
    else record { lines = line ∷ rest.lines; rest = rest.rest }

-- the loop that takes blank lines off the end
unfoldable pub drop_blank_end : List Text → List Text
unfolding blank
drop_blank_end [] = []
drop_blank_end (l ∷ ls) =
    let rest = drop_blank_end ls in
    if is_nil rest then (if blank l then [] else l ∷ []) else l ∷ rest

unfoldable pub signature_window : Text → List Text
unfolding leading_lines drop_blank_end
signature_window input =
    let w = leading_lines (suc (length input)) max_signature_window true false input in
    if is_nil w.rest then drop_blank_end w.lines else w.lines
