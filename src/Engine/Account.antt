-- ===== src/Engine/Account.antt =====
-- pkg/engine/engine.go, `ParseAccounted`. The parser of a definition is an argument, a function of the
-- ledger and the selected lines.
pub mod Total
use jsonize.Prelude.{
  ℕ, zero, suc, ◌+◌, ◌-◌, Bool, true, false, List, [], ◌∷◌, Option, none, some, Text, length, take,
  ltb, if◌then◌else◌,
}
use jsonize.Engine.Line.{Line, SplitError, UnreadSpan, ParseError, input_too_large, split, unread}
use jsonize.Engine.Split.{Split, ok, err, split_records}
use jsonize.Engine.Fold.{fold_lines}
use jsonize.Engine.Prepare.{Prepared, Ignored, prepare}
use jsonize.Engine.Select.{Select, Region, apply_select}
use jsonize.Engine.Ledger.{Ledger, new_ledger, mark_one, count_read, count_blank, unread_lines}
use jsonize.Csv.Records.{csv_records}

-- What a definition says of its input; `csv` is the delimiter where its parser is a csv.
pub record Input : Type 0 where
  pub sep : ℕ
  pub csv : Option ℕ
  pub fold : Option (Text → Bool)
  pub skip_blank : Bool
  pub ignore : List (Text → Bool)
  pub select : Select

-- The limits are those after the defaults were put in.
pub record Options : Type 0 where
  pub max_input : ℕ
  pub max_line : ℕ
  pub keep_escapes : Bool

pub record Account : Type 0 where
  pub lines : ℕ
  pub read : ℕ
  pub folded : ℕ
  pub blank : ℕ
  pub ignored : List Ignored

pub data Outcome {ℓ} (V : Type ℓ) : Type ℓ where
  parsed : V → Outcome V
  failed : ParseError → Outcome V

abbrev pub Parser {ℓ} : Type ℓ → Type ℓ
Parser V = Ledger → List Line → Outcome V × Ledger

abbrev no_account : Account
no_account = record { lines = 0; read = 0; folded = 0; blank = 0; ignored = [] }

-- `markHeading` and `markEnd`: a line is read when the expression describes all of it.
unfoldable pub mark_whole : (Text → Bool) → Option Line → Ledger → Ledger
mark_whole whole none g = g
mark_whole whole (some l) g = if whole l.text then mark_one g l else g

abbrev max_unread_reported : ℕ
max_unread_reported = 3

unfoldable pub unread_error : List UnreadSpan → ParseError
unread_error spans = unread (take max_unread_reported spans) (length spans)

-- the account of the prepared lines, once the parser is done with the ledger
unfoldable pub account_of : ℕ → ℕ → Prepared → Ledger → Account
account_of lines folded p g = record {
  lines = lines;
  read = count_read g p.kept;
  folded = folded;
  blank = p.blanks + count_blank g p.kept;
  ignored = p.ignored;
}

abbrev is_empty {ℓ} : {A : Type ℓ} → List A → Bool
is_empty [] = true
is_empty (_ ∷ _) = false

abbrev pub records_of : Option ℕ → List Line → List Line
records_of none lines = lines
records_of (some delim) lines = csv_records delim lines

module _ {ℓ} {V : Type ℓ} where
  -- what follows the parser
  unfoldable pub settle :
      Input → ℕ → ℕ → Prepared → Region → Outcome V × Ledger → Outcome V × Account
  unfolding account_of mark_whole
  settle d lines folded p sel (failed e, g) = (failed e, account_of lines folded p g)
  settle d lines folded p sel (parsed v, g) =
      let g' = mark_whole d.select.end sel.end (mark_whole d.select.heading sel.heading g) in
      let spans = unread_lines g' p.kept in
      (
        if is_empty spans then parsed v else failed (unread_error spans),
        account_of lines folded p g',
      )

  -- from the folded lines on; the first number is that of the lines of the input
  unfoldable pub read_lines : Input → Parser V → ℕ → List Line → Outcome V × Account
  unfolding settle
  read_lines d parser lines folded =
      let p = prepare d.skip_blank d.ignore folded in
      let sel = apply_select d.select p.kept in
      settle d lines (lines - length folded) p sel (parser (new_ledger p.kept) sel.region)

  unfoldable pub account_lines : Input → Parser V → List Line → Outcome V × Account
  unfolding read_lines
  account_lines d parser lines = elim (fold_lines d.fold (records_of d.csv lines)) [
    | err e ↦ (failed (split e), record no_account { lines = length lines })
    | ok folded ↦ read_lines d parser (length lines) folded
  ]

  unfoldable pub parse_accounted : Input → Options → Parser V → Text → Outcome V × Account
  unfolding account_lines
  parse_accounted d opts parser input =
      if ltb opts.max_input (length input)
      then (failed input_too_large, no_account)
      else elim (split_records input d.sep opts.max_line opts.keep_escapes) [
        | err e ↦ (failed (split e), no_account)
        | ok lines ↦ account_lines d parser lines
      ]
