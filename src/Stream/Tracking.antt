-- ===== src/Stream/Tracking.antt =====
-- pkg/engine/stream.go: each stage with a hold that has a limit, beside the stage with one that has none.
use jsonize.Prelude.{
  ℕ, ◌-◌, ◌≤◌, Bool, true, List, [], ◌∷◌, Option, none, some, Text, not, ◌||◌, Bool-cases, inl, inr,
  arith,
}
use jsonize.Space.{blank, trim_space}
use jsonize.Engine.Line.{Line}
use jsonize.Engine.Prepare.{edge_blank}
use jsonize.Engine.Fold.{join}
use jsonize.Csv.Quote.{Quote, feed}
use jsonize.Stream.Flow.{no_join, line_bytes, lines_bytes, bounded, unbounded, Sink}
use jsonize.Stream.Stages.{
  Grouping, Folding, flush_csv_record, feed_physical, release_folding, join_folding, next_folding,
  feed_raw, release_empty, feed_folded, matches_any,
}
use jsonize.Stream.Tracks.{
  Tracks, agrees, fails, bind-Tracks, map_flow-Tracks, take_held-Tracks, Follows,
}

module _ {ℓ} {S : Type ℓ} (limit : ℕ) (next : Sink ℕ S) (full : Sink (Unit {0}) S)
    (follows : Follows limit next full) where
  abbrev grouping : Option Quote → List Text → ℕ → Grouping
  grouping q ps num = record { csv_in = q; pieces = ps; num = num }

  abbrev folding : List Text → ℕ → Folding
  folding ps num = record { pieces = ps; num = num }

  flushed-Tracks :
      (q : Option Quote) (ps : List Text) (num h : ℕ) (s : S)
      → h ≤ limit
      → Tracks limit
          (flush_csv_record (bounded limit) next (grouping q ps num) (h, s))
          (flush_csv_record unbounded full (grouping q ps num) (tt, s))
  unfolding flush_csv_record
  flushed-Tracks q [] num h s le = agrees h (grouping q [] num, s) le
  flushed-Tracks q (p ∷ ps) num h s le =
      map_flow-Tracks limit (λ z. (grouping q [] num, z))
        (follows (record { text = join b'\n' (p ∷ ps); num = num })
          (h - line_bytes (join b'\n' (p ∷ ps))) s (omega arith))

  pub flush_csv_record-Tracks :
      (g : Grouping) (h : ℕ) (s : S)
      → h ≤ limit
      → Tracks limit
          (flush_csv_record (bounded limit) next g (h, s))
          (flush_csv_record unbounded full g (tt, s))
  flush_csv_record-Tracks g h s le = flushed-Tracks g.csv_in g.pieces g.num h s le

  physical-Tracks :
      (q : Option Quote) (ps : List Text) (num : ℕ) (l : Line) (h : ℕ) (s : S)
      → h ≤ limit
      → Tracks limit
          (feed_physical (bounded limit) next l (h, (grouping q ps num, s)))
          (feed_physical unbounded full l (tt, (grouping q ps num, s)))
  unfolding feed_physical
  physical-Tracks none ps num l h s le =
      map_flow-Tracks limit (λ z. (grouping none ps num, z)) (follows l h s le)
  physical-Tracks (some q) ps num l h s le =
      take_held-Tracks limit (line_bytes l.text) l.num h _ _ (λ h1 le1.
        elim (Bool-cases (feed q l.text).quoted) [
          | inl e ↦ rw e (agrees h1 _ le1)
          | inr e ↦ rw e (flush_csv_record-Tracks _ h1 s le1)
        ])

  pub feed_physical-Follows :
      Follows limit (feed_physical (bounded limit) next) (feed_physical unbounded full)
  feed_physical-Follows l h (g, s) le = physical-Tracks g.csv_in g.pieces g.num l h s le

  released-Tracks :
      (ps : List Text) (num h : ℕ) (s : S)
      → h ≤ limit
      → Tracks limit
          (release_folding (bounded limit) next (folding ps num) (h, s))
          (release_folding unbounded full (folding ps num) (tt, s))
  unfolding release_folding
  released-Tracks [] num h s le = agrees h s le
  released-Tracks (p ∷ ps) num h s le =
      follows (record { text = join b' ' (p ∷ ps); num = num }) (h - lines_bytes (p ∷ ps)) s
        (omega arith)

  pub release_folding-Tracks :
      (f : Folding) (h : ℕ) (s : S)
      → h ≤ limit
      → Tracks limit
          (release_folding (bounded limit) next f (h, s))
          (release_folding unbounded full f (tt, s))
  release_folding-Tracks f h s le = released-Tracks f.pieces f.num h s le

  joined-Tracks :
      (ps : List Text) (num : ℕ) (l : Line) (h : ℕ) (s : S)
      → h ≤ limit
      → Tracks limit
          (join_folding (bounded limit) l (h, (folding ps num, s)))
          (join_folding unbounded l (tt, (folding ps num, s)))
  unfolding join_folding
  joined-Tracks [] num l h s le = fails (no_join l.num)
  joined-Tracks (p ∷ ps) num l h s le = elim (Bool-cases (blank p)) [
    | inl e ↦ rw (e, join_folding) (fails (no_join l.num))
    | inr e ↦
        rw (e, join_folding)
          (take_held-Tracks limit (line_bytes (trim_space l.text)) l.num h _ _
            (λ h1 le1. agrees h1 _ le1))
  ]

  next-Tracks :
      (ps : List Text) (num : ℕ) (l : Line) (h : ℕ) (s : S)
      → h ≤ limit
      → Tracks limit
          (next_folding (bounded limit) next l (h, (folding ps num, s)))
          (next_folding unbounded full l (tt, (folding ps num, s)))
  unfolding next_folding
  next-Tracks [] num l h s le =
      take_held-Tracks limit (line_bytes l.text) l.num h _ _ (λ h1 le1. agrees h1 _ le1)
  next-Tracks (p ∷ ps) num l h s le =
      take_held-Tracks limit (line_bytes l.text) l.num (h - lines_bytes (p ∷ ps)) _ _ (λ h1 le1.
        map_flow-Tracks limit (λ z. (folding (l.text ∷ []) l.num, z))
          (follows (record { text = join b' ' (p ∷ ps); num = num }) h1 s le1))

  pub feed_raw-Follows :
      (fold : Option (Text → Bool))
      → Follows limit (feed_raw (bounded limit) fold next) (feed_raw unbounded fold full)
  unfolding feed_raw
  feed_raw-Follows none l h (f, s) le = map_flow-Tracks limit (λ z. (f, z)) (follows l h s le)
  feed_raw-Follows (some m) l h (f, s) le = elim (Bool-cases (m l.text)) [
    | inl e ↦ rw e (joined-Tracks f.pieces f.num l h s le)
    | inr e ↦ rw e (next-Tracks f.pieces f.num l h s le)
  ]

  module _ (ignore : List (Text → Bool)) (skip : Bool) where
    release_empty-Tracks :
        (es : List Line) (h : ℕ) (s : S)
        → h ≤ limit
        → Tracks limit
            (release_empty (bounded limit) ignore skip next es (h, s))
            (release_empty unbounded ignore skip full es (tt, s))
    unfolding release_empty
    release_empty-Tracks [] h s le = agrees h s le
    release_empty-Tracks (e ∷ es) h s le = elim (Bool-cases (matches_any ignore e.text)) [
      | inl m ↦
          rw (m, release_empty) (release_empty-Tracks es (h - line_bytes e.text) s (omega arith))
      | inr m ↦
          rw (m, release_empty)
            (bind-Tracks limit _ _ (follows e (h - line_bytes e.text) s (omega arith))
              (λ h1 s1 le1. release_empty-Tracks es h1 s1 le1))
    ]

    pub feed_folded-Follows :
        Follows limit
          (feed_folded (bounded limit) ignore skip next)
          (feed_folded unbounded ignore skip full)
    unfolding feed_folded
    feed_folded-Follows l h (e, s) le = elim (Bool-cases (edge_blank l.text skip)) [
      | inl b ↦ elim (Bool-cases (skip || not e.text)) [
        | inl f ↦ rw (b, f, feed_folded) (agrees h (e, s) le)
        | inr f ↦
            rw (b, f, feed_folded)
              (take_held-Tracks limit (line_bytes l.text) l.num h _ _ (λ h1 le1. agrees h1 _ le1))
      ]
      | inr b ↦
          rw (b, feed_folded)
            (map_flow-Tracks limit (λ z. (record { empty = []; text = true }, z))
              (bind-Tracks limit _ _ (release_empty-Tracks e.empty h s le) (λ h1 s1 le1.
                elim (Bool-cases (matches_any ignore l.text)) [
                  | inl m ↦ rw m (agrees h1 s1 le1)
                  | inr m ↦ rw m (follows l h1 s1 le1)
                ])))
    ]
