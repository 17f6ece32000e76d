-- ===== src/Stream/Held.antt =====
-- pkg/engine/stream.go: the stages together, with the limit of `hold`.
use jsonize.Prelude.{
  length, [], ◌∷◌, ◌∷◌, suc, Text, arith, ℕ, ◌≤◌, ◌≡◌, refl, ap, ◌∙◌, List, Option, none, some, inl,
  inr, ◌⊎◌,
}
use jsonize.Engine.Split.{Split, read_record}
use jsonize.Engine.Account.{Input, Options}
use jsonize.Stream.Flow.{
  bad_record, Flow, err, map_flow, done, held_too_long, bounded, unbounded, Sink,
}
use jsonize.Stream.Stages.{Edges, Picking}
use jsonize.Stream.Whole.{
  Stages, to_selected, to_folded, to_raw, to_physical, finish, stream_text, new_stages,
}
use jsonize.Stream.Reading.{
  feed_text, feed_texts, stream_records, records_in, stream_text-stream_records,
}
use jsonize.Stream.Agree.{read_text, parser_state, stream_records-read_text}
use jsonize.Stream.Tracks.{Tracks, too_long, agrees, fails, bind-Tracks, map_flow-Tracks, Follows}
use jsonize.Stream.Tracking.{
  flush_csv_record-Tracks, feed_physical-Follows, release_folding-Tracks, feed_raw-Follows,
  feed_folded-Follows,
}
use jsonize.Stream.Choosing.{feed_selected-Follows}

module _ {ℓ} {S : Type ℓ} (limit : ℕ) (d : Input) (next : Sink ℕ S) (full : Sink (Unit {0}) S)
    (follows : Follows limit next full) where
  to_folded-Follows : Follows limit (to_folded (bounded limit) d next) (to_folded unbounded d full)
  unfolding to_folded to_selected
  to_folded-Follows =
      feed_folded-Follows limit (to_selected (bounded limit) d next) (to_selected unbounded d full)
        (feed_selected-Follows limit next full follows d.select) d.ignore d.skip_blank

  to_raw-Follows : Follows limit (to_raw (bounded limit) d next) (to_raw unbounded d full)
  unfolding to_raw
  to_raw-Follows =
      feed_raw-Follows limit (to_folded (bounded limit) d next) (to_folded unbounded d full)
        to_folded-Follows d.fold

  to_physical-Follows :
      Follows limit (to_physical (bounded limit) d next) (to_physical unbounded d full)
  unfolding to_physical
  to_physical-Follows =
      feed_physical-Follows limit (to_raw (bounded limit) d next) (to_raw unbounded d full)
        to_raw-Follows

  finish-Tracks :
      (h : ℕ) (s : Stages S)
      → h ≤ limit
      → Tracks limit (finish (bounded limit) d next (h, s)) (finish unbounded d full (tt, s))
  unfolding finish
  finish-Tracks h (g, s) le =
      bind-Tracks limit _ _
        (map_flow-Tracks limit (λ z. z.1)
          (flush_csv_record-Tracks limit (to_raw (bounded limit) d next) (to_raw unbounded d full)
            to_raw-Follows g h s le))
        (λ h1 s1 le1.
          release_folding-Tracks limit (to_folded (bounded limit) d next)
            (to_folded unbounded d full) to_folded-Follows s1.0 h1 s1.1 le1)

  module _ (opts : Options) where
    feed_texts-Tracks :
        (num : ℕ) (rs : List Text) (h : ℕ) (s : Stages S)
        → h ≤ limit
        → Tracks limit
            (feed_texts (bounded limit) d next opts num rs (h, s))
            (feed_texts unbounded d full opts num rs (tt, s))
    unfolding feed_texts feed_text
    feed_texts-Tracks num [] h s le = agrees h s le
    feed_texts-Tracks num (r ∷ rs) h s le =
        bind-Tracks limit (feed_texts (bounded limit) d next opts (suc num) rs)
          (feed_texts unbounded d full opts (suc num) rs)
          (elim (read_record d.sep opts.max_line opts.keep_escapes num r)
            as (λ l.
              Tracks {A = Stages S} limit
                (elim l [
                  | Split.err e ↦ err (bad_record e)
                  | Split.ok l ↦ to_physical (bounded limit) d next l (h, s)
                ])
                (elim l [
                  | Split.err e ↦ err (bad_record e)
                  | Split.ok l ↦ to_physical unbounded d full l (tt, s)
                ])) [
                  | Split.err e ↦ fails (bad_record e)
                  | Split.ok l ↦ to_physical-Follows l h s le
                ])
          (λ h1 s1 le1. feed_texts-Tracks (suc num) rs h1 s1 le1)

    stream_records-Tracks :
        (input : Text) (h : ℕ) (s : S)
        → h ≤ limit
        → Tracks limit
            (stream_records (bounded limit) d next opts input (h, s))
            (stream_records unbounded d full opts input (tt, s))
    unfolding stream_records
    stream_records-Tracks input h s le =
        bind-Tracks limit _ _ (feed_texts-Tracks 1 (records_in d.sep input) h (new_stages d s) le)
          (λ h1 s1 le1. finish-Tracks h1 s1 le1)

-- the state of a parser at the end
abbrev pub last_state {ℓ} : {H : Type 0} {S : Type ℓ} → Option (H × S) → Option S
last_state none = none
last_state (some (h, s)) = some s

abbrev pub TooLong {ℓ} : {A : Type ℓ} → Flow A → Type ℓ
TooLong r = (num : ℕ) × (r ≡ err (held_too_long num))

module _ {ℓ} {S : Type ℓ} (limit : ℕ) where
  tracked :
      {r : Flow (ℕ × (Edges × (Picking × S)))} {u : Flow (Unit {0} × (Edges × (Picking × S)))}
      → Tracks limit r u
      → TooLong r
        ⊎ (last_state (done (map_flow parser_state r))
            ≡ last_state (done (map_flow parser_state u)))
  tracked (too_long num u) = inl (num, refl)
  tracked (agrees h a le) = inr refl
  tracked (fails e) = inr refl

module _ {ℓ} {S : Type ℓ} (d : Input) (opts : Options) (next : Sink ℕ S)
    (full : Sink (Unit {0}) S) where
  -- The limit of `hold` is that on the length of a whole input.
  abbrev pub limited : Text → S → Flow (ℕ × (Edges × (Picking × S)))
  limited input s = stream_text (bounded opts.max_input) d next opts input (0, s)

  -- Where the text is not longer than the limit on an input, and the parser of the stream, which shares
  -- the hold, either ends it for what it would hold back or does what the parser without a hold does
  -- (`Follows`): the stream ends because more would be held back than the limit, or the state of its
  -- parser is the one reached on the lines that the whole reading selects. It then has none exactly
  -- where the whole reading, taken as far as its parser, has none: the text is refused before that, the
  -- parser refuses a line, or a line left out is not blank.
  pub stream_text-agrees :
      (input : Text) (s : S)
      → length input ≤ opts.max_input
      → Follows opts.max_input next full
      → TooLong (limited input s)
        ⊎ (last_state (done (map_flow parser_state (limited input s)))
            ≡ last_state (read_text d full opts input s))
  stream_text-agrees input s short follows =
      rw (stream_text-stream_records (bounded opts.max_input) d next opts input (0, s))
        (elim (tracked opts.max_input
          (stream_records-Tracks opts.max_input d next full follows opts input 0 s (omega arith))) [
            | inl e ↦ inl e
            | inr e ↦ inr (e ∙ ap last_state (stream_records-read_text d full opts input s short))
          ])
