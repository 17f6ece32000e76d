-- ===== src/Stream/Whole.antt =====
-- pkg/engine/stream.go: the stages of a stream put together, `finish`, and the loop of `Stream`
-- over what `recordio.Read` gives of its input. The parser is the last sink;
-- what it still holds at the end of the input is not flushed here.
use jsonize.Prelude.{
  ℕ, zero, suc, ◌∷◌, Text, Bool, true, false, not, ◌&&◌, List, [], Option, none, some, length,
  if◌then◌else◌,
}
use jsonize.Record.{read, line, too_long, out_of_fuel}
use jsonize.Engine.Line.{Line, record_too_long}
use jsonize.Engine.Account.{Input, Options}
use jsonize.Engine.Split.{Split, prepare_record, check_record}
use jsonize.Csv.Quote.{new_quote}
use jsonize.Stream.Flow.{
  Flow, ok, err, bad_record, out_of_rounds, ◌>>=◌, map_flow, Holding, Sink, feed_all,
}
use jsonize.Stream.Stages.{
  inside, Grouping, Folding, Edges, Picking, flush_csv_record, feed_physical, release_folding,
  feed_raw, feed_folded, feed_selected,
}

abbrev pub is_nil {ℓ} : {A : Type ℓ} → List A → Bool
is_nil [] = true
is_nil (_ ∷ _) = false

-- The size of the buffer that the input is read through.
abbrev pub buffer_size : ℕ
buffer_size = 65536

-- The stages and the parser, from the first to the last.
abbrev pub Stages {ℓ} : Type ℓ → Type ℓ
Stages S = Grouping × (Folding × (Edges × (Picking × S)))

abbrev pub new_grouping : Option ℕ → Grouping
new_grouping none = record { csv_in = none; pieces = []; num = 0 }
new_grouping (some delim) = record { csv_in = some (new_quote delim); pieces = []; num = 0 }

abbrev pub new_folding : Folding
new_folding = record { pieces = []; num = 0 }

abbrev pub new_edges : Edges
new_edges = record { empty = []; text = false }

abbrev pub new_picking : Picking
new_picking = record { started = false; skipped = 0; taken = 0; closed = false }

abbrev pub new_stages {ℓ} : {S : Type ℓ} → Input → S → Stages S
new_stages d s = (new_grouping d.csv, (new_folding, (new_edges, (new_picking, s))))

module _ {ℓ} {S : Type ℓ} {H : Type 0} (hold : Holding H) (d : Input) (next : Sink H S) where
  unfoldable pub to_selected : Sink H (Picking × S)
  unfolding feed_selected
  to_selected = feed_selected d.select next

  unfoldable pub to_folded : Sink H (Edges × (Picking × S))
  unfolding to_selected feed_folded
  to_folded = feed_folded hold d.ignore d.skip_blank to_selected

  unfoldable pub to_raw : Sink H (Folding × (Edges × (Picking × S)))
  unfolding to_folded feed_raw
  to_raw = feed_raw hold d.fold to_folded

  unfoldable pub to_physical : Sink H (Stages S)
  unfolding to_raw feed_physical
  to_physical = feed_physical hold to_raw

  abbrev close_folding :
      H × (Folding × (Edges × (Picking × S))) → Flow (H × (Edges × (Picking × S)))
  close_folding (h, (f, s)) = release_folding hold to_folded f (h, s)

  abbrev close_grouping : H × Stages S → Flow (H × (Folding × (Edges × (Picking × S))))
  close_grouping (h, (g, s)) = map_flow inside (flush_csv_record hold to_raw g (h, s))

  -- the first two steps of `finish`
  unfoldable pub finish : H × Stages S → Flow (H × (Edges × (Picking × S)))
  unfolding to_raw to_folded flush_csv_record release_folding
  finish x = close_grouping x >>= close_folding

  -- The lines of an input from the first to the last, and what the parser has been handed then.
  unfoldable pub stream_lines : List Line → H × S → Flow (H × (Edges × (Picking × S)))
  unfolding to_physical finish feed_all
  stream_lines lines (h, s) = feed_all to_physical lines (h, new_stages d s) >>= finish

  -- `feedRecordText` of a record that was read, which is prepared first
  unfoldable pub feed_record_text : Options → ℕ → Text → H × Stages S → Flow (H × Stages S)
  unfolding to_physical
  feed_record_text opts num rec x =
      elim (check_record (prepare_record rec d.sep num opts.keep_escapes) d.sep num) [
        | Split.err e ↦ err (bad_record e)
        | Split.ok text ↦ to_physical (record { text = text; num = num }) x
      ]

  -- The loop of `Stream`: the number is that of the record to come, and the fuel counts the rounds.
  unfoldable pub feed_input : Options → ℕ → ℕ → Text → H × Stages S → Flow (H × Stages S)
  unfolding feed_record_text read
  feed_input opts zero num input x = err out_of_rounds
  feed_input opts (suc fuel) num input x = elim (read buffer_size d.sep opts.max_line input) [
    | too_long ↦ err (bad_record (record_too_long num))
    | out_of_fuel ↦ err out_of_rounds
    | line raw ended rest ↦
        if is_nil raw && not ended
        then ok x
        else feed_record_text opts num raw x
          >>= (λ y. elim ended [ true ↦ feed_input opts fuel (suc num) rest y | false ↦ ok y ])
  ]

  -- The whole of an input. A round takes a byte at least, but for the last.
  unfoldable pub stream_text : Options → Text → H × S → Flow (H × (Edges × (Picking × S)))
  unfolding feed_input finish
  stream_text opts input (h, s) =
      feed_input opts (suc (length input)) 1 input (h, new_stages d s) >>= finish
