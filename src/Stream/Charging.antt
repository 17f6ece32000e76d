-- ===== src/Stream/Charging.antt =====
-- pkg/engine/stream.go: each stage in front of the selection leaves the counter of `hold` at the bytes
-- held, where what it hands its lines to does.
use jsonize.Prelude.{
  ℕ, ◌+◌, ◌-◌, ◌≤◌, ◌≡◌, ap, ◌∙◌, Bool, true, not, ◌||◌, List, [], ◌∷◌, Option, none, some, Text,
  arith, inl, inr, Bool-cases,
}
use jsonize.Space.{blank, trim_space}
use jsonize.Engine.Line.{Line}
use jsonize.Engine.Fold.{join}
use jsonize.Engine.Prepare.{edge_blank}
use jsonize.Csv.Quote.{Quote, feed}
use jsonize.Stream.Flow.{Flow, map_flow, no_join, bounded, line_bytes, lines_bytes, Sink}
use jsonize.Stream.Stages.{
  beside, inside, Grouping, Folding, flush_csv_record, feed_physical, release_folding, join_folding,
  next_folding, feed_raw, release_empty, feed_folded, matches_any,
}
use jsonize.Stream.Counting.{
  Holds, counted, ended, Counts, texts_of, grouping_bytes, folding_bytes, edges_bytes,
  lines_bytes-append, texts_of-append, line_bytes-join, bind-Holds, map_flow-Holds, take_held-Holds,
}

module _ {ℓ} {S : Type ℓ} (limit : ℕ) (bytes : S → ℕ) (next : Sink ℕ S)
    (counts : Counts limit bytes next) where
  abbrev grouping : Option Quote → List Text → ℕ → Grouping
  grouping q ps num = record { csv_in = q; pieces = ps; num = num }

  abbrev folding : List Text → ℕ → Folding
  folding ps num = record { pieces = ps; num = num }

  flushed-Holds :
      (n : ℕ) (q : Option Quote) (ps : List Text) (num h : ℕ) (s : S)
      → h ≡ n + (lines_bytes ps + bytes s)
      → h ≤ limit
      → Holds limit n
          (grouping_bytes bytes)
          (flush_csv_record (bounded limit) next (grouping q ps num) (h, s))
  unfolding flush_csv_record lines_bytes
  flushed-Holds n q [] num h s e le = counted h (grouping q [] num, s) e le
  flushed-Holds n q (p ∷ ps) num h s e le =
      let b = line_bytes-join b'\n' p ps in
      map_flow-Holds (λ z. (grouping q [] num, z))
        (counts n (record { text = join b'\n' (p ∷ ps); num = num })
          (h - line_bytes (join b'\n' (p ∷ ps))) s (omega arith) (omega arith))
        (λ a. omega arith)

  pub flush_csv_record-Holds :
      (n : ℕ) (g : Grouping) (h : ℕ) (s : S)
      → h ≡ n + grouping_bytes bytes (g, s)
      → h ≤ limit
      → Holds limit n (grouping_bytes bytes) (flush_csv_record (bounded limit) next g (h, s))
  flush_csv_record-Holds n g h s e le = flushed-Holds n g.csv_in g.pieces g.num h s e le

  behind_grouping-Holds :
      {n : ℕ} {r : Flow (ℕ × S)} (g : Grouping)
      → Holds limit n bytes r
      → Holds limit n bytes (map_flow inside (map_flow (beside g) r))
  behind_grouping-Holds g (counted h a e le) = counted h a e le
  behind_grouping-Holds g (ended e) = ended e

  closed-Holds :
      (n : ℕ) (q : Option Quote) (ps : List Text) (num h : ℕ) (s : S)
      → h ≡ n + (lines_bytes ps + bytes s)
      → h ≤ limit
      → Holds limit n bytes
          (map_flow inside (flush_csv_record (bounded limit) next (grouping q ps num) (h, s)))
  unfolding flush_csv_record lines_bytes
  closed-Holds n q [] num h s e le = counted h s (omega arith) le
  closed-Holds n q (p ∷ ps) num h s e le =
      let b = line_bytes-join b'\n' p ps in
      behind_grouping-Holds (grouping q [] num) (
        counts n (record { text = join b'\n' (p ∷ ps); num = num })
          (h - line_bytes (join b'\n' (p ∷ ps))) s (omega arith) (omega arith))

  -- What the end of the input flushes is held no more.
  pub flush_csv_record-inside :
      (n : ℕ) (g : Grouping) (h : ℕ) (s : S)
      → h ≡ n + grouping_bytes bytes (g, s)
      → h ≤ limit
      → Holds limit n bytes (map_flow inside (flush_csv_record (bounded limit) next g (h, s)))
  flush_csv_record-inside n g h s e le = closed-Holds n g.csv_in g.pieces g.num h s e le

  physical-Holds :
      (n : ℕ) (q : Option Quote) (ps : List Text) (num : ℕ) (l : Line) (h : ℕ) (s : S)
      → h ≡ n + (lines_bytes ps + bytes s)
      → h ≤ limit
      → Holds limit n
          (grouping_bytes bytes)
          (feed_physical (bounded limit) next l (h, (grouping q ps num, s)))
  unfolding feed_physical lines_bytes
  physical-Holds n none ps num l h s e le =
      map_flow-Holds (λ z. (grouping none ps num, z))
        (counts (n + lines_bytes ps) l h s (omega arith) le) (λ a. omega arith)
  physical-Holds n (some q) ps num l h s e le =
      let grown = lines_bytes-append ps (l.text ∷ []) in
      take_held-Holds limit n (grouping_bytes bytes) (line_bytes l.text) l.num h _ (λ h1 e1 le1.
        elim (Bool-cases (feed q l.text).quoted) [
          | inl o ↦ rw o (counted h1 _ (omega arith) le1)
          | inr o ↦ rw o (flush_csv_record-Holds n _ h1 s (omega arith) le1)
        ])

  pub feed_physical-Counts :
      Counts limit (grouping_bytes bytes) (feed_physical (bounded limit) next)
  feed_physical-Counts n l h (g, s) e le = physical-Holds n g.csv_in g.pieces g.num l h s e le

  released-Holds :
      (n : ℕ) (ps : List Text) (num h : ℕ) (s : S)
      → h ≡ n + (lines_bytes ps + bytes s)
      → h ≤ limit
      → Holds limit n bytes (release_folding (bounded limit) next (folding ps num) (h, s))
  unfolding release_folding lines_bytes
  released-Holds n [] num h s e le = counted h s (omega arith) le
  released-Holds n (p ∷ ps) num h s e le =
      counts n (record { text = join b' ' (p ∷ ps); num = num }) (h - lines_bytes (p ∷ ps)) s
        (omega arith) (omega arith)

  pub release_folding-Holds :
      (n : ℕ) (f : Folding) (h : ℕ) (s : S)
      → h ≡ n + folding_bytes bytes (f, s)
      → h ≤ limit
      → Holds limit n bytes (release_folding (bounded limit) next f (h, s))
  release_folding-Holds n f h s e le = released-Holds n f.pieces f.num h s e le

  joined-Holds :
      (n : ℕ) (ps : List Text) (num : ℕ) (l : Line) (h : ℕ) (s : S)
      → h ≡ n + (lines_bytes ps + bytes s)
      → h ≤ limit
      → Holds limit n
          (folding_bytes bytes)
          (join_folding (bounded limit) l (h, (folding ps num, s)))
  unfolding join_folding lines_bytes
  joined-Holds n [] num l h s e le = ended (no_join l.num)
  joined-Holds n (p ∷ ps) num l h s e le =
      let grown = lines_bytes-append (p ∷ ps) (trim_space l.text ∷ []) in
      elim (Bool-cases (blank p)) [
        | inl b ↦ rw (b, join_folding) (ended (no_join l.num))
        | inr b ↦
            rw (b, join_folding)
              (take_held-Holds limit n (folding_bytes bytes) (line_bytes (trim_space l.text)) l.num
                h _ (λ h1 e1 le1. counted h1 _ (omega arith) le1))
      ]

  next-Holds :
      (n : ℕ) (ps : List Text) (num : ℕ) (l : Line) (h : ℕ) (s : S)
      → h ≡ n + (lines_bytes ps + bytes s)
      → h ≤ limit
      → Holds limit n
          (folding_bytes bytes)
          (next_folding (bounded limit) next l (h, (folding ps num, s)))
  unfolding next_folding lines_bytes
  next-Holds n [] num l h s e le =
      take_held-Holds limit n (folding_bytes bytes) (line_bytes l.text) l.num h _
        (λ h1 e1 le1. counted h1 _ (omega arith) le1)
  next-Holds n (p ∷ ps) num l h s e le =
      take_held-Holds limit n (folding_bytes bytes) (line_bytes l.text) l.num
        (h - lines_bytes (p ∷ ps)) _
        (λ h1 e1 le1.
          map_flow-Holds (λ z. (folding (l.text ∷ []) l.num, z))
            (counts (n + line_bytes l.text) (record { text = join b' ' (p ∷ ps); num = num }) h1 s
              (omega arith) le1)
            (λ a. omega arith))

  pub feed_raw-Counts :
      (fold : Option (Text → Bool))
      → Counts limit (folding_bytes bytes) (feed_raw (bounded limit) fold next)
  unfolding feed_raw
  feed_raw-Counts none n l h (f, s) e le =
      map_flow-Holds (λ z. (f, z)) (counts (n + lines_bytes f.pieces) l h s (omega arith) le)
        (λ a. omega arith)
  feed_raw-Counts (some m) n l h (f, s) e le = elim (Bool-cases (m l.text)) [
    | inl c ↦ rw c (joined-Holds n f.pieces f.num l h s e le)
    | inr c ↦ rw c (next-Holds n f.pieces f.num l h s e le)
  ]

  module _ (ignore : List (Text → Bool)) (skip : Bool) where
    release_empty-Holds :
        (n : ℕ) (es : List Line) (h : ℕ) (s : S)
        → h ≡ n + (lines_bytes (texts_of es) + bytes s)
        → h ≤ limit
        → Holds limit n bytes (release_empty (bounded limit) ignore skip next es (h, s))
    unfolding release_empty lines_bytes
    release_empty-Holds n [] h s e le = counted h s (omega arith) le
    release_empty-Holds n (x ∷ es) h s e le = elim (Bool-cases (matches_any ignore x.text)) [
      | inl m ↦
          rw (m, release_empty)
            (release_empty-Holds n es (h - line_bytes x.text) s (omega arith) (omega arith))
      | inr m ↦
          rw (m, release_empty)
            (bind-Holds _
              (counts (n + lines_bytes (texts_of es)) x (h - line_bytes x.text) s (omega arith)
                (omega arith))
              (λ h1 s1 e1 le1. release_empty-Holds n es h1 s1 (omega arith) le1))
    ]

    pub feed_folded-Counts :
        Counts limit (edges_bytes bytes) (feed_folded (bounded limit) ignore skip next)
    unfolding feed_folded lines_bytes
    feed_folded-Counts n l h (d, s) e le =
        let grown =
          ap lines_bytes (texts_of-append d.empty (l ∷ []))
          ∙ lines_bytes-append (texts_of d.empty) (l.text ∷ []) in
        elim (Bool-cases (edge_blank l.text skip)) [
          | inl b ↦ elim (Bool-cases (skip || not d.text)) [
            | inl f ↦ rw (b, f, feed_folded) (counted h (d, s) e le)
            | inr f ↦
                rw (b, f, feed_folded)
                  (take_held-Holds limit n (edges_bytes bytes) (line_bytes l.text) l.num h _
                    (λ h1 e1 le1. counted h1 _ (omega arith) le1))
          ]
          | inr b ↦
              rw (b, feed_folded)
                (map_flow-Holds (λ z. (record { empty = []; text = true }, z))
                  (bind-Holds {m = n} {c = bytes} _ (release_empty-Holds n d.empty h s e le)
                    (λ h1 s1 e1 le1. elim (Bool-cases (matches_any ignore l.text)) [
                      | inl m ↦ rw m (counted h1 s1 e1 le1)
                      | inr m ↦ rw m (counts n l h1 s1 e1 le1)
                    ]))
                  (λ a. omega arith))
        ]
