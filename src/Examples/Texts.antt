-- ===== src/Examples/Texts.antt =====
-- Escape sequences, records and csv quoting.
use jsonize.Prelude.{some, arith, ◌≡◌, refl, true, List, [], ◌∷◌, ◌++◌, Text, codes}
use jsonize.Ansi.{
  escape, holds_escape, strip_from, strip_ansi, sequence, escape_end, csi_end, before_break,
}
use jsonize.Ansi.Lines.{strip_ansi-append_break}
use jsonize.Ansi.Escapes.{strip_ansi-csi}
use jsonize.Record.{read, line, too_long, read_from, read_slice, trim_sep}
use jsonize.Record.Spec.{record_of, read-record_of}
use jsonize.Engine.Line.{Line}
use jsonize.Engine.Fold.{join}
use jsonize.Csv.Quote.{new_quote, feed, scan, step}
use jsonize.Csv.Records.{csv_records, texts, csv_records-join}
use jsonize.Utf8.{runes}
use jsonize.JsonString.{write_string}
use jsonize.JsonString.End.{read_string, write_string-read}

abbrev red : Text
red = escape ∷ codes "[31mred" ++ escape ∷ codes "[0m"

strip_red : strip_ansi (red ++ codes " text") ≡ codes "red text"
unfolding strip_ansi holds_escape strip_from sequence escape_end csi_end before_break
strip_red = refl

strip_ansi-append_break_example :
    strip_ansi ((escape ∷ codes "[3") ++ b'\n' ∷ red)
    ≡ strip_ansi (escape ∷ codes "[3") ++ b'\n' ∷ strip_ansi red
strip_ansi-append_break_example = strip_ansi-append_break (escape ∷ codes "[3") b'\n' red refl

strip_ansi-csi_example :
    strip_ansi (escape ∷ b'[' ∷ (codes "1;31" ++ b'm' ∷ codes "x")) ≡ strip_ansi (codes "x")
strip_ansi-csi_example =
    strip_ansi-csi (codes "1;31") b'm' (codes "x") (refl, (refl, (refl, (refl, tt)))) refl

-- a buffer of two bytes
read-record_of_example : read 2 b'\n' 4 (codes "abcd\ne") ≡ record_of b'\n' 4 (codes "abcd\ne")
read-record_of_example = read-record_of 2 b'\n' 4 (codes "abcd\ne") (omega arith)

read_runs :
    (read 2 b'\n' 4 (codes "abcd\ne") ≡ line (codes "abcd") true (codes "e"))
    × (read 2 b'\n' 3 (codes "abcd\ne") ≡ too_long)
unfolding read read_from read_slice trim_sep
read_runs = (refl, refl)

abbrev rows : List Line
rows =
    record { text = codes "a,\"x"; num = 1 }
    ∷ record { text = codes "y\",b"; num = 2 }
    ∷ record { text = codes "c,d"; num = 3 }
    ∷ []

csv_records_runs :
    csv_records b',' rows
    ≡ record { text = codes "a,\"x\ny\",b"; num = 1 } ∷ record { text = codes "c,d"; num = 3 } ∷ []
unfolding csv_records feed scan step new_quote runes join
csv_records_runs = refl

csv_records-join_example : join b'\n' (texts (csv_records b',' rows)) ≡ join b'\n' (texts rows)
csv_records-join_example = csv_records-join b',' rows

abbrev quoted : Text
quoted = codes "a\"b\\" ++ 0x01 ∷ 0x0a ∷ 0xff ∷ []

string_written : write_string quoted ≡ codes "\"a\\\"b\\\\\\u0001\\n\\ufffd\""
unfolding write_string
string_written = refl

write_string-read_example : read_string (write_string quoted ++ codes ",") ≡ some (codes ",")
write_string-read_example = write_string-read quoted (codes ",")
