-- ===== src/Csv/Quote.antt =====
-- pkg/engine/csv.go, `csvQuote`: the quoting rules of a csv text, followed one line at a time. A line is
-- walked as its runes.
use jsonize.Prelude.{
  ℕ, suc, ◌≡◌, refl, Bool, true, false, not, ◌&&◌, ◌||◌, List, [], ◌∷◌, Text, arith, ◌==◌,
  if◌then◌else◌,
}
use jsonize.Utf8.{runes}

pub record Quote : Type 0 where
  pub delim : ℕ
  pub quoted : Bool
  pub start : Bool

unfoldable pub new_quote : ℕ → Quote
new_quote delim = record { delim = delim; quoted = false; start = true }

abbrev opens_quote : List ℕ → Bool
opens_quote [] = false
opens_quote (r ∷ _) = r == b'"'

-- The second quote of a pair inside a quoted value is passed over.
unfoldable pub passes : Quote → ℕ → List ℕ → Bool
passes q r rest = q.quoted && r == b'"' && opens_quote rest

-- one round of the switch in `scan`, on a rune and the text behind it
unfoldable pub step : Quote → ℕ → List ℕ → Quote
unfolding passes
step q r rest =
    if q.quoted && r == b'"'
    then if passes q r rest then q else record q { quoted = false }
    else if q.quoted
    then q
    else if q.start && r == b'"'
    then record q { quoted = true; start = false }
    else if r == q.delim || r == b'\n'
    then record q { start = true }
    else record q { start = false }

-- the `default` case on a carriage return
unfoldable pub is_bare_cr : Quote → ℕ → Bool
is_bare_cr q r =
    not q.quoted && not (q.start && r == b'"') && not (r == q.delim || r == b'\n') && r == b'\r'

-- The loop: the flag says that this rune is the second quote of a pair. The result is the state and the
-- column of the first bare carriage return.
unfoldable pub scan_from : Bool → Quote → ℕ → ℕ → List ℕ → Quote × ℕ
scan_from pass q col bare [] = (q, bare)
scan_from true q col bare (r ∷ rs) = scan_from false q col bare rs
scan_from false q col bare (r ∷ rs) =
    scan_from (passes q r rs) (step q r rs) (suc col)
      (if is_bare_cr q r && bare == 0 then suc col else bare) rs

-- what stands behind the loop
unfoldable pub end_line : Quote → Quote
end_line q = if not q.quoted then record q { start = true } else q

unfoldable pub scan : Quote → Text → Quote × ℕ
unfolding scan_from end_line
scan q text = let (q', bare) = scan_from false q 0 0 (runes text) in (end_line q', bare)

-- The state after a line; `feed` also says whether it is quoted.
unfoldable pub feed : Quote → Text → Quote
feed q text = (scan q text).0

step-delim : (q : Quote) (r : ℕ) (rest : List ℕ) → (step q r rest).delim ≡ q.delim
unfolding step
step-delim q r rest = ground arith

scan_from-delim :
    (pass : Bool) (q : Quote) (col bare : ℕ) (rs : List ℕ)
    → ((scan_from pass q col bare rs).0).delim ≡ q.delim
unfolding scan_from
scan_from-delim pass q col bare [] = refl
scan_from-delim true q col bare (r ∷ rs) = scan_from-delim false q col bare rs
scan_from-delim false q col bare (r ∷ rs) = ground (
  arith,
  step-delim q r rs,
  scan_from-delim (passes q r rs) (step q r rs) (suc col)
      (if is_bare_cr q r && bare == 0 then suc col else bare) rs,
)

pub feed-delim : (q : Quote) (text : Text) → (feed q text).delim ≡ q.delim
unfolding feed scan end_line
feed-delim q text = ground (arith, scan_from-delim false q 0 0 (runes text))

-- A line that ends outside a quoted value leaves the state that a text begins with.
feed-closed :
    (q : Quote) (text : Text) → (feed q text).quoted ≡ false → feed q text ≡ new_quote q.delim
unfolding feed scan end_line new_quote
feed-closed q text h = ground (arith, scan_from-delim false q 0 0 (runes text))
