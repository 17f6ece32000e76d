-- ===== src/Examples/Engines.antt =====
-- An input read by a definition that ignores comments.
use jsonize.Prelude.{
  ℕ, ◌≡◌, refl, Bool, true, false, ◌||◌, List, [], ◌∷◌, none, Text, codes, ◌==◌, length, arith,
}
use jsonize.Space.{blank}
use jsonize.Utf8.{valid_utf8}
use jsonize.Ansi.{holds_escape}
use jsonize.Engine.Line.{Line}
use jsonize.Engine.Split.{
  ok, split_records, read_records, read_record, cut_records, trim_suffix, prepare_record, holds_nul,
  check_record,
}
use jsonize.Engine.Split.Records.{AreRecords, join_records, split_records-AreRecords}
use jsonize.Engine.Fold.{fold_lines}
use jsonize.Engine.Prepare.{
  prepare, drop_lead, drop_trail, edge_blank, sweep, sweep_line, first_matching, bump, ignored_of,
}
use jsonize.Engine.Select.{Select, apply_select, select_until}
use jsonize.Engine.Ledger.{
  Ledger, new_ledger, mark, mark_one, mark_at, is_read, read_at, unread_lines, numbered,
  is_read-mark,
}
use jsonize.Engine.Account.{Input, Options, parsed, Parser, parse_accounted}
use jsonize.Engine.Account.Total.{counted, parse_accounted-counted}

abbrev is_comment : Text → Bool
is_comment [] = false
is_comment (c ∷ _) = c == b'#'

abbrev everything : Select
everything = record {
  after = none;
  until = none;
  skip = 0;
  limit = 0;
  heading = λ _. false;
  end = λ _. false;
}

abbrev commented : Input
commented = record {
  sep = b'\n';
  csv = none;
  fold = none;
  skip_blank = true;
  ignore = is_comment ∷ [];
  select = everything;
}

abbrev options : Options
options = record { max_input = 100; max_line = 20; keep_escapes = false }

-- a parser that reads every line it is given
abbrev count_lines : Parser ℕ
count_lines g ls = (parsed (length ls), mark g ls)

abbrev file : Text
file = codes "# c\na\n\nb\n"

file_parsed : (parse_accounted commented options count_lines file).0 ≡ parsed 2
unfolding parse_accounted split_records read_records read_record cut_records trim_suffix
    prepare_record holds_nul check_record holds_escape valid_utf8 fold_lines prepare drop_lead
    drop_trail edge_blank sweep sweep_line first_matching bump ignored_of blank apply_select
    select_until new_ledger mark mark_one mark_at is_read read_at unread_lines
file_parsed = refl

parse_accounted-counted_example :
    counted (parse_accounted commented options count_lines file).1
    ≡ (parse_accounted commented options count_lines file).1.lines
parse_accounted-counted_example =
    parse_accounted-counted commented options count_lines file 2 file_parsed

abbrev lines : List Line
lines = record { text = codes "ab"; num = 1 } ∷ record { text = codes " c"; num = 2 } ∷ []

split_lines : split_records (codes "ab\n c\n") b'\n' 20 false ≡ ok lines
unfolding split_records read_records read_record cut_records trim_suffix prepare_record holds_nul
    check_record holds_escape valid_utf8
split_lines = refl

split_records-AreRecords_example :
    AreRecords b'\n' 20 false 1 (cut_records b'\n' (trim_suffix b'\n' (codes "ab\n c\n"))) lines
    × (join_records b'\n' (cut_records b'\n' (trim_suffix b'\n' (codes "ab\n c\n")))
        ≡ trim_suffix b'\n' (codes "ab\n c\n"))
split_records-AreRecords_example =
    split_records-AreRecords (codes "ab\n c\n") b'\n' 20 false lines (cc) split_lines

abbrev is_wrapped : Text → Bool
is_wrapped [] = false
is_wrapped (c ∷ _) = c == b' '

abbrev folded : List Line
folded = record { text = codes "ab c"; num = 1 } ∷ []

abbrev fresh : Ledger
fresh = record { base = 1; read = false ∷ false ∷ [] }

is_read-mark_example :
    is_read (mark fresh lines) (record { text = codes "x"; num = 2 })
    ≡ (numbered 2 lines || is_read fresh (record { text = codes "x"; num = 2 }))
is_read-mark_example = is_read-mark lines fresh (record { text = codes "x"; num = 2 }) (omega arith)
