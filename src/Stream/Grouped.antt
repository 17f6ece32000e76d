-- ===== src/Stream/Grouped.antt =====
-- `feedPhysical` of pkg/engine/stream.go against `csvRecords` of pkg/engine/csv.go.
use jsonize.Prelude.{
  ℕ, ◌≡◌, refl, ◌∙◌, sym, List, [], ◌∷◌, ◌++◌, Option, none, some, Text, Bool-cases, inl, inr,
}
use jsonize.Engine.Line.{Line}
use jsonize.Engine.Account.{records_of}
use jsonize.Csv.Quote.{Quote, feed, new_quote}
use jsonize.Csv.Records.{group, csv_records, record_line}
use jsonize.Stream.Whole.{new_grouping}
use jsonize.Stream.Flow.{
  Flow, ◌>>=◌, map_flow, unbounded, Sink, map_flow-bind, map_flow-map_flow, map_flow-id, bind-ok,
  feed_all,
}
use jsonize.Stream.Stages.{Grouping, feed_physical, flush_csv_record, beside, inside}

module _ {ℓ} {S : Type ℓ} (next : Sink (Unit {0}) S) where
  abbrev close : Unit {0} × (Grouping × S) → Flow (Unit {0} × S)
  close (h, (g, s)) = map_flow inside (flush_csv_record unbounded next g (h, s))

  abbrev reading : Quote → List Text → ℕ → Grouping
  reading q ps num = record { csv_in = some q; pieces = ps; num = num }

  -- the record that a line closes is handed on, and then the lines behind it
  flushed :
      (q : Quote) (ps : List Text) (num : ℕ) (ls : List Line) (s : S)
      → ((z : S)
          → (feed_all (feed_physical unbounded next) ls (tt, (reading q [] num, z)) >>= close)
            ≡ feed_all next (group q [] num ls) (tt, z))
      → (map_flow (beside (reading q [] num)) (next (record_line ps num) (tt, s))
          >>= feed_all (feed_physical unbounded next) ls
          >>= close)
        ≡ (next (record_line ps num) (tt, s) >>= feed_all next (group q [] num ls))
  flushed q ps num ls s h =
      map_flow-bind (next (record_line ps num) (tt, s)) (beside (reading q [] num))
        (feed_all (feed_physical unbounded next) ls) close (feed_all next (group q [] num ls))
        (λ x. h x.1)

  grouped :
      (q : Quote) (ps : List Text) (num : ℕ) (ls : List Line) (s : S)
      → (feed_all (feed_physical unbounded next) ls (tt, (reading q ps num, s)) >>= close)
        ≡ feed_all next (group q ps num ls) (tt, s)
  unfolding feed_all group flush_csv_record feed_physical
  grouped q [] num [] s = refl
  grouped q (p ∷ ps) num [] s =
      map_flow-map_flow (next (record_line (p ∷ ps) num) (tt, s)) (beside (reading q [] num)) inside
        (λ x. x) (λ x. refl)
      ∙ map_flow-id (next (record_line (p ∷ ps) num) (tt, s))
      ∙ sym (bind-ok (next (record_line (p ∷ ps) num) (tt, s)))
  grouped q [] num (l ∷ ls) s = elim (Bool-cases (feed q l.text).quoted) [
    | inl e ↦ rw (e, group) (grouped (feed q l.text) (l.text ∷ []) l.num ls s)
    | inr e ↦
        rw (e, group)
          (flushed (feed q l.text) (l.text ∷ []) l.num ls s
            (λ z. grouped (feed q l.text) [] l.num ls z))
  ]
  grouped q (p ∷ ps) num (l ∷ ls) s = elim (Bool-cases (feed q l.text).quoted) [
    | inl e ↦ rw (e, group) (grouped (feed q l.text) ((p ∷ ps) ++ l.text ∷ []) num ls s)
    | inr e ↦
        rw (e, group)
          (flushed (feed q l.text) ((p ∷ ps) ++ l.text ∷ []) num ls s
            (λ z. grouped (feed q l.text) [] num ls z))
  ]

  passed :
      (ls : List Line) (s : S)
      → (feed_all (feed_physical unbounded next) ls (tt, (new_grouping none, s)) >>= close)
        ≡ feed_all next ls (tt, s)
  unfolding feed_all feed_physical flush_csv_record
  passed [] s = refl
  passed (l ∷ ls) s =
      map_flow-bind (next l (tt, s)) (beside (new_grouping none))
        (feed_all (feed_physical unbounded next) ls) close (feed_all next ls) (λ x. passed ls x.1)

  -- Without a limit, the stage of a stream that groups the lines of a csv hands on the records that the
  -- whole reading makes of them, to the same effect.
  pub feed_physical-records_of :
      (csv : Option ℕ) (ls : List Line) (s : S)
      → (feed_all (feed_physical unbounded next) ls (tt, (new_grouping csv, s)) >>= close)
        ≡ feed_all next (records_of csv ls) (tt, s)
  unfolding csv_records
  feed_physical-records_of none ls s = passed ls s
  feed_physical-records_of (some delim) ls s = grouped (new_quote delim) [] 0 ls s
