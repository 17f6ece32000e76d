-- ===== src/Examples/Streams.antt =====
-- A stream of a text that has a heading, a comment, a continuation and a closing line.
use jsonize.Prelude.{
  ℕ, ◌≡◌, ◌⊎◌, refl, Bool, false, List, [], ◌∷◌, ◌++◌, none, some, Text, codes, ◌==◌, arith,
}
use jsonize.Utf8.{valid_utf8, leading_rune, rune_len, rune_value, runes, runes_from, valid_from}
use jsonize.Space.{blank, trim_space, leading_space, space_len, trim_left_from, trim_right}
use jsonize.Ansi.{holds_escape}
use jsonize.Engine.Line.{Line}
use jsonize.Engine.Split.{
  split_records, read_records, cut_records, trim_suffix, read_record, prepare_record, holds_nul,
  check_record, trim_bom,
}
use jsonize.Engine.Fold.{fold_lines, fold_from, flush, join}
use jsonize.Engine.Prepare.{
  prepare, sweep, sweep_line, drop_trail, drop_lead, edge_blank, first_matching, bump, ignored_of,
}
use jsonize.Engine.Select.{
  Select, apply_select, select_until, before_until, find_after, find_until, skip_limit,
}
use jsonize.Engine.Account.{Input, Options}
use jsonize.Stream.Flow.{
  Holding, unbounded, ◌>>=◌, line_bytes, lines_bytes, ok, Sink, feed_all, map_flow, done, bounded,
}
use jsonize.Stream.Stages.{feed_selected, inside, beside}
use jsonize.Stream.Whole.{new_picking, new_stages, stream_text}
use jsonize.Stream.Left.{left_lines, left_until, blank_lines, gate}
use jsonize.Stream.Picked.{feed_selected-apply_select}
use jsonize.Stream.Agree.{parser_state, read_text, read_whole}
use jsonize.Stream.Tracks.{agrees, Follows, take_held-Tracks}
use jsonize.Stream.Held.{TooLong, last_state, limited, stream_text-agrees}
use jsonize.Stream.Reading.{feed_texts}
use jsonize.Stream.Counting.{
  Counts, counted, edges_bytes, picking_bytes, lines_bytes-append, take_held-Holds,
}
use jsonize.Stream.Balance.{IsHeld, held_bytes, stream_text-IsHeld}
use jsonize.Engine.Select.Exact.{IsRegion, apply_select-IsRegion}

abbrev starts : ℕ → Text → Bool
starts b [] = false
starts b (c ∷ _) = c == b

abbrev between : Select
between = record {
  after = some (starts b'=');
  until = some (starts b'.');
  skip = 0;
  limit = 0;
  heading = starts b'=';
  end = starts b'.';
}

abbrev marked : Input
marked = record {
  sep = b'\n';
  csv = none;
  fold = some (starts b' ');
  skip_blank = false;
  ignore = starts b'#' ∷ [];
  select = between;
}

abbrev options : Options
options = record { max_input = 100; max_line = 20; keep_escapes = false }

-- a parser that collects the texts of its lines
abbrev collect : {H : Type 0} → Sink H (List Text)
collect l (h, s) = ok (h, s ++ l.text ∷ [])

-- one that holds each of them
abbrev gather : {H : Type 0} → Holding H → Sink H (List Text)
gather hold l (h, s) =
    hold.take_bytes (line_bytes l.text) l.num h >>= (λ h1. ok (h1, s ++ l.text ∷ []))

gather-Follows : (limit : ℕ) → Follows limit (gather (bounded limit)) (gather unbounded)
gather-Follows limit l h s le =
    take_held-Tracks limit (line_bytes l.text) l.num h _ _ (λ h1 le1. agrees h1 _ le1)

gather-Counts : (limit : ℕ) → Counts limit lines_bytes (gather (bounded limit))
unfolding lines_bytes
gather-Counts limit n l h s e le =
    let grown = lines_bytes-append s (l.text ∷ []) in
    take_held-Holds limit n lines_bytes (line_bytes l.text) l.num h _
      (λ h1 e1 le1. counted h1 _ (omega arith) le1)

abbrev selected_lines : List Line
selected_lines =
    record { text = codes "="; num = 1 }
    ∷ record { text = codes "a"; num = 2 }
    ∷ record { text = codes "."; num = 3 }
    ∷ []

abbrev file : Text
file = codes "=\na\n b\n\n#c\nd\n.\n"

file-read : read_text marked collect options file [] ≡ some (tt, codes "a b" ∷ [] ∷ codes "d" ∷ [])
unfolding read_text split_records read_records cut_records trim_suffix read_record valid_utf8
    prepare_record holds_escape holds_nul check_record trim_bom fold_lines fold_from flush join
    blank trim_space prepare sweep sweep_line drop_trail drop_lead edge_blank first_matching bump
    ignored_of apply_select select_until before_until find_after find_until skip_limit read_whole
    feed_all left_lines left_until blank_lines leading_space space_len trim_left_from trim_right
    leading_rune rune_len rune_value runes runes_from valid_from
file-read = refl

feed_selected-apply_select_example :
    done (
      map_flow inside
        (feed_all (feed_selected between collect) selected_lines (beside new_picking (tt, []))))
    ≡ gate
        (left_lines between selected_lines)
        (done (feed_all collect (apply_select between selected_lines).region (tt, [])))
feed_selected-apply_select_example =
    feed_selected-apply_select between collect selected_lines (tt, [])

stream_text-agrees_example :
    TooLong (limited marked options (gather (bounded 100)) (gather unbounded) file [])
    ⊎ (last_state (
          done (
            map_flow parser_state
              (limited marked options (gather (bounded 100)) (gather unbounded) file [])))
        ≡ last_state (read_text marked (gather unbounded) options file []))
stream_text-agrees_example =
    stream_text-agrees marked options (gather (bounded 100)) (gather unbounded) file []
      (omega arith) (gather-Follows 100)

stream_text-IsHeld_example :
    IsHeld 15 (held_bytes lines_bytes) (
      feed_texts
        (bounded 15)
        marked
        (gather (bounded 15))
        options
        1
        (codes "=" ∷ codes "a" ∷ codes " b" ∷ [])
        (lines_bytes [], new_stages marked []))
    × IsHeld 15
        (edges_bytes (picking_bytes lines_bytes))
        (stream_text (bounded 15) marked (gather (bounded 15)) options file (lines_bytes [], []))
stream_text-IsHeld_example =
    stream_text-IsHeld 15 marked lines_bytes (gather (bounded 15)) options
      (codes "=" ∷ codes "a" ∷ codes " b" ∷ []) file [] (gather-Counts 15)
      (unfold lines_bytes in omega arith)

abbrev one_between : Select
one_between = record between { skip = 1; limit = 1 }

abbrev around : List Line
around =
    record { text = codes "x"; num = 1 }
    ∷ record { text = codes "="; num = 2 }
    ∷ record { text = codes "a"; num = 3 }
    ∷ record { text = codes "b"; num = 4 }
    ∷ record { text = codes "c"; num = 5 }
    ∷ record { text = codes "."; num = 6 }
    ∷ record { text = codes "z"; num = 7 }
    ∷ []

one_selected : (apply_select one_between around).region ≡ record { text = codes "b"; num = 4 } ∷ []
unfolding apply_select select_until before_until find_after find_until skip_limit
one_selected = refl

apply_select-IsRegion_example : IsRegion one_between around (apply_select one_between around)
apply_select-IsRegion_example = apply_select-IsRegion one_between around
