-- ===== src/Engine/Split.antt =====
-- pkg/engine/engine.go, `splitRecords`, `prepareRecord` and `checkRecord`.
pub mod Records
use jsonize.Prelude.{
  ℕ, suc, Bool, true, false, not, ◌&&◌, ◌||◌, List, [], ◌∷◌, ◌++◌, Text, ◌==◌, ltb, if◌then◌else◌,
  length,
}
use jsonize.Ansi.{strip_ansi, holds_escape}
use jsonize.Utf8.{valid_utf8}
use jsonize.Engine.Line.{Line, SplitError, record_too_long, not_utf8, nul_in_line}

pub data Split (A : Type 0) : Type 0 where
  ok : A → Split A
  err : SplitError → Split A

infixl 5 ◌>>=◌
abbrev pub ◌>>=◌ : {A B : Type 0} → Split A → (A → Split B) → Split B
ok a >>= f = f a
err e >>= f = err e

-- `strings.TrimSuffix(text, string(b))`
unfoldable pub trim_suffix : ℕ → Text → Text
trim_suffix b [] = []
trim_suffix b (c ∷ []) = if c == b then [] else c ∷ []
trim_suffix b (c ∷ d ∷ cs) = c ∷ trim_suffix b (d ∷ cs)

-- `strings.TrimPrefix(text, "\xEF\xBB\xBF")`
unfoldable pub trim_bom : Text → Text
trim_bom (a ∷ b ∷ c ∷ rest) = if a == 0xef && b == 0xbb && c == 0xbf then rest else a ∷ b ∷ c ∷ rest
trim_bom s = s

unfoldable pub prepare_record : Text → ℕ → ℕ → Bool → Text
unfolding trim_suffix trim_bom
prepare_record text sep num keep_escapes =
    let plain = if not keep_escapes && holds_escape text then strip_ansi text else text in
    let ended = if sep == b'\n' then trim_suffix b'\r' plain else plain in
    if num == 1 then trim_bom ended else ended

unfoldable pub holds_nul : Text → Bool
holds_nul [] = false
holds_nul (c ∷ cs) = c == 0 || holds_nul cs

unfoldable pub check_record : Text → ℕ → ℕ → Split Text
check_record text sep num =
    if not (valid_utf8 text)
    then err (not_utf8 num)
    else if sep == b'\n' && holds_nul text
    then err (nul_in_line num)
    else ok text

-- `rec, text = text[:i], text[i+1:]` until no separator is left
abbrev pub push_head : ℕ → List Text → List Text
push_head c [] = (c ∷ []) ∷ []
push_head c (r ∷ rs) = (c ∷ r) ∷ rs

unfoldable pub cut_records : ℕ → Text → List Text
cut_records sep [] = [] ∷ []
cut_records sep (c ∷ cs) =
    if c == sep then [] ∷ cut_records sep cs else push_head c (cut_records sep cs)

-- one round of the loop: the limit, the preparation and the check of a record
unfoldable pub read_record : ℕ → ℕ → Bool → ℕ → Text → Split Line
unfolding check_record
read_record sep max_len keep_escapes num rec =
    if ltb max_len (length rec) then err (record_too_long num) else (do
      text ← check_record (prepare_record rec sep num keep_escapes) sep num
      ok (record { text = text; num = num }))

unfoldable pub read_records : ℕ → ℕ → Bool → ℕ → List Text → Split (List Line)
read_records sep max_len keep_escapes num [] = ok []
read_records sep max_len keep_escapes num (r ∷ rs) = do
  l ← read_record sep max_len keep_escapes num r
  ls ← read_records sep max_len keep_escapes (suc num) rs
  ok (l ∷ ls)

unfoldable pub split_records : Text → ℕ → ℕ → Bool → Split (List Line)
split_records [] sep max_len keep_escapes = ok []
split_records (c ∷ cs) sep max_len keep_escapes =
    read_records sep max_len keep_escapes 1 (cut_records sep (trim_suffix sep (c ∷ cs)))
