-- ===== src/Stream/Balance.antt =====
-- pkg/engine/stream.go: the stages together leave the counter of `hold` at the bytes that are held.
use jsonize.Prelude.{
  ◌∷◌, suc, List, [], arith, ℕ, suc, ◌+◌, ◌≤◌, ◌≡◌, refl, ◌&&◌, Bool, true, false, Option, none,
  some, Text, ltb, leb, inl, inr, Bool-cases,
}
use jsonize.Space.{blank}
use jsonize.Engine.Line.{Line}
use jsonize.Engine.Select.{Select}
use jsonize.Engine.Account.{Options, Input}
use jsonize.Stream.Flow.{lines_bytes, bad_record, ok, err, Flow, left_unread, bounded, Sink}
use jsonize.Stream.Stages.{
  Edges, Picking, left_out, matched, feed_counted, feed_until, feed_selected, unread_span,
}
use jsonize.Stream.Whole.{
  new_grouping, finish, stream_text, new_stages, Stages, to_selected, to_folded, to_raw,
  to_physical,
}
use jsonize.Engine.Split.{Split, read_record}
use jsonize.Stream.Reading.{
  feed_text, feed_texts, stream_records, records_in, stream_text-stream_records,
}
use jsonize.Stream.Counting.{
  bind-Holds, Holds, counted, ended, Counts, grouping_bytes, folding_bytes, edges_bytes,
  picking_bytes, map_flow-Holds,
}
use jsonize.Stream.Charging.{
  release_folding-Holds, flush_csv_record-inside, feed_physical-Counts, feed_raw-Counts,
  feed_folded-Counts,
}

module _ {ℓ} {S : Type ℓ} (limit : ℕ) (bytes : S → ℕ) (next : Sink ℕ S)
    (counts : Counts limit bytes next) (sel : Select) where
  left_out-Holds :
      (n : ℕ) (l : Line) (h : ℕ) (a : Picking × S)
      → h ≡ n + picking_bytes bytes a
      → h ≤ limit
      → Holds limit n (picking_bytes bytes) (left_out l (h, a))
  unfolding left_out
  left_out-Holds n l h a e le = elim (Bool-cases (blank l.text)) [
    | inl b ↦ rw b (counted h a e le)
    | inr b ↦ rw b (ended (left_unread (unread_span l)))
  ]

  matched-Holds :
      (whole : Text → Bool) (n : ℕ) (l : Line) (h : ℕ) (a : Picking × S)
      → h ≡ n + picking_bytes bytes a
      → h ≤ limit
      → Holds limit n (picking_bytes bytes) (matched whole l (h, a))
  matched-Holds whole n l h a e le = elim (Bool-cases (whole l.text)) [
    | inl b ↦ rw (b, matched) (counted h a e le)
    | inr b ↦ rw (b, matched) (left_out-Holds n l h a e le)
  ]

  feed_counted-Counts : Counts limit (picking_bytes bytes) (feed_counted sel next)
  unfolding feed_counted
  feed_counted-Counts n l h (p, s) e le = elim (Bool-cases (ltb p.skipped sel.skip)) [
    | inl b ↦
        rw (b, feed_counted) (left_out-Holds n l h (record p { skipped = suc p.skipped }, s) e le)
    | inr b ↦ elim (Bool-cases (ltb 0 sel.limit && leb sel.limit p.taken)) [
      | inl f ↦ rw (b, f, feed_counted) (left_out-Holds n l h (p, s) e le)
      | inr f ↦
          rw (b, f, feed_counted)
            (map_flow-Holds (λ z. (record p { taken = suc p.taken }, z)) (counts n l h s e le)
              (λ a. refl))
    ]
  ]

  until-Holds :
      (u : Option (Text → Bool)) (n : ℕ) (l : Line) (h : ℕ) (p : Picking) (s : S)
      → h ≡ n + bytes s
      → h ≤ limit
      → Holds limit n (picking_bytes bytes) (elim u [
        | none ↦ feed_counted sel next l (h, (p, s))
        | some re ↦ elim (re l.text) [
          | true ↦ matched sel.end l (h, (record p { closed = true }, s))
          | false ↦ feed_counted sel next l (h, (p, s))
        ]
      ])
  until-Holds none n l h p s e le = feed_counted-Counts n l h (p, s) e le
  until-Holds (some re) n l h p s e le = elim (Bool-cases (re l.text)) [
    | inl m ↦ rw m (matched-Holds sel.end n l h (record p { closed = true }, s) e le)
    | inr m ↦ rw m (feed_counted-Counts n l h (p, s) e le)
  ]

  feed_until-Counts : Counts limit (picking_bytes bytes) (feed_until sel next)
  unfolding feed_until
  feed_until-Counts n l h (p, s) e le = until-Holds sel.until n l h p s e le

  heading-Holds :
      (u : Option (Text → Bool)) (n : ℕ) (l : Line) (h : ℕ) (p : Picking) (s : S)
      → h ≡ n + bytes s
      → h ≤ limit
      → Holds limit n (picking_bytes bytes) (elim u [
        | none ↦ feed_until sel next l (h, (p, s))
        | some re ↦ elim (re l.text) [
          | true ↦ matched sel.heading l (h, (record p { started = true }, s))
          | false ↦ left_out l (h, (p, s))
        ]
      ])
  heading-Holds none n l h p s e le = feed_until-Counts n l h (p, s) e le
  heading-Holds (some re) n l h p s e le = elim (Bool-cases (re l.text)) [
    | inl m ↦ rw m (matched-Holds sel.heading n l h (record p { started = true }, s) e le)
    | inr m ↦ rw m (left_out-Holds n l h (p, s) e le)
  ]

  feed_selected-Counts : Counts limit (picking_bytes bytes) (feed_selected sel next)
  unfolding feed_selected
  feed_selected-Counts n l h (p, s) e le = elim (Bool-cases p.closed) [
    | inl c ↦ rw (c, feed_selected) (left_out-Holds n l h (p, s) e le)
    | inr c ↦ elim (Bool-cases p.started) [
      | inl t ↦ rw (c, t, feed_selected) (feed_until-Counts n l h (p, s) e le)
      | inr t ↦ rw (c, t, feed_selected) (heading-Holds sel.after n l h p s e le)
    ]
  ]

-- The bytes of the lines that the stages hold back, each with its line break, and those that the parser
-- holds.
abbrev pub held_bytes {ℓ} : {S : Type ℓ} → (S → ℕ) → Stages S → ℕ
held_bytes bytes = grouping_bytes (folding_bytes (edges_bytes (picking_bytes bytes)))

module _ {ℓ} {S : Type ℓ} (limit : ℕ) (d : Input) (bytes : S → ℕ) (next : Sink ℕ S)
    (counts : Counts limit bytes next) where
  abbrev behind_folding : Edges × (Picking × S) → ℕ
  behind_folding = edges_bytes (picking_bytes bytes)

  to_folded-Counts : Counts limit behind_folding (to_folded (bounded limit) d next)
  unfolding to_folded to_selected
  to_folded-Counts =
      feed_folded-Counts limit (picking_bytes bytes) (to_selected (bounded limit) d next)
        (feed_selected-Counts limit bytes next counts d.select) d.ignore d.skip_blank

  to_raw-Counts : Counts limit (folding_bytes behind_folding) (to_raw (bounded limit) d next)
  unfolding to_raw
  to_raw-Counts =
      feed_raw-Counts limit behind_folding (to_folded (bounded limit) d next) to_folded-Counts
        d.fold

  to_physical-Counts : Counts limit (held_bytes bytes) (to_physical (bounded limit) d next)
  unfolding to_physical
  to_physical-Counts =
      feed_physical-Counts limit (folding_bytes behind_folding) (to_raw (bounded limit) d next)
        to_raw-Counts

  close_grouping-Holds :
      (h : ℕ) (x : Stages S)
      → h ≡ 0 + held_bytes bytes x
      → h ≤ limit
      → Holds limit 0 behind_folding (finish (bounded limit) d next (h, x))
  unfolding finish
  close_grouping-Holds h (g, x) e le =
      bind-Holds _
        (flush_csv_record-inside limit (folding_bytes behind_folding)
          (to_raw (bounded limit) d next) to_raw-Counts 0 g h x e le)
        (λ h1 a e1 le1.
          release_folding-Holds limit behind_folding (to_folded (bounded limit) d next)
            to_folded-Counts 0 a.0 h1 a.1 e1 le1)

  module _ (opts : Options) where
    feed_text-Holds :
        (num : ℕ) (rec : Text) (h : ℕ) (x : Stages S)
        → h ≡ 0 + held_bytes bytes x
        → h ≤ limit
        → Holds limit 0 (held_bytes bytes) (feed_text (bounded limit) d next opts num rec (h, x))
    unfolding feed_text
    feed_text-Holds num rec h x e le =
        elim (read_record d.sep opts.max_line opts.keep_escapes num rec)
          as (λ r. Holds {A = Stages S} limit 0 (held_bytes bytes) (elim r [
            | Split.err e ↦ err (bad_record e)
            | Split.ok l ↦ to_physical (bounded limit) d next l (h, x)
          ])) [ Split.err f ↦ ended (bad_record f) | Split.ok l ↦ to_physical-Counts 0 l h x e le ]

    feed_texts-Holds :
        (num : ℕ) (rs : List Text) (h : ℕ) (x : Stages S)
        → h ≡ 0 + held_bytes bytes x
        → h ≤ limit
        → Holds limit 0 (held_bytes bytes) (feed_texts (bounded limit) d next opts num rs (h, x))
    unfolding feed_texts
    feed_texts-Holds num [] h x e le = counted h x e le
    feed_texts-Holds num (r ∷ rs) h x e le =
        bind-Holds _ (feed_text-Holds num r h x e le)
          (λ h1 x1 e1 le1. feed_texts-Holds (suc num) rs h1 x1 e1 le1)

-- The counter of a run is the bytes held in the state it ends with, and is within the limit.
abbrev pub IsHeld {ℓ} : {A : Type ℓ} → ℕ → (A → ℕ) → Flow (ℕ × A) → Type 0
IsHeld limit bytes (ok (h, a)) = (h ≡ bytes a) × (h ≤ limit)
IsHeld limit bytes (err e) = Unit

Holds-IsHeld {ℓ} :
    {A : Type ℓ} {limit : ℕ} {bytes : A → ℕ} {r : Flow (ℕ × A)}
    → Holds limit 0 bytes r
    → IsHeld limit bytes r
Holds-IsHeld (counted h a e le) = (omega arith, le)
Holds-IsHeld (ended e) = tt

nothing_grouped : (csv : Option ℕ) → lines_bytes (new_grouping csv).pieces ≡ 0
unfolding lines_bytes
nothing_grouped none = refl
nothing_grouped (some delim) = refl

module _ {ℓ} {S : Type ℓ} (limit : ℕ) (d : Input) (bytes : S → ℕ) (next : Sink ℕ S)
    (opts : Options) where
  -- Where the parser of a stream counts the bytes that it holds itself (`Counts`): after any records, the
  -- counter of the hold is the bytes of the lines that the stages hold back, each with its line break,
  -- and of what the parser holds, and is within the limit; and so it is at the end of an input, when
  -- only empty lines behind the text are left in the stages.
  pub stream_text-IsHeld :
      (rs : List Text) (input : Text) (s : S)
      → Counts limit bytes next
      → bytes s ≤ limit
      → IsHeld limit
          (held_bytes bytes)
          (feed_texts (bounded limit) d next opts 1 rs (bytes s, new_stages d s))
        × IsHeld limit
            (edges_bytes (picking_bytes bytes))
            (stream_text (bounded limit) d next opts input (bytes s, s))
  unfolding stream_records lines_bytes
  stream_text-IsHeld rs input s counts le =
      let grouped : lines_bytes (new_stages d s).0.pieces ≡ 0 = nothing_grouped d.csv in
      let start : bytes s ≡ 0 + held_bytes bytes (new_stages d s) = omega arith in
      (
        Holds-IsHeld (
            feed_texts-Holds limit d bytes next counts opts 1 rs (bytes s) (new_stages d s) start
              le),
        rw (stream_text-stream_records (bounded limit) d next opts input (bytes s, s)) (
            Holds-IsHeld (
              bind-Holds _
                (feed_texts-Holds limit d bytes next counts opts 1 (records_in d.sep input)
                  (bytes s) (new_stages d s) start le)
                (λ h x e1 le1. close_grouping-Holds limit d bytes next counts h x e1 le1))),
      )
