-- ===== src/Stream/Agree.antt =====
-- pkg/engine/stream.go against `ParseAccounted` of pkg/engine/engine.go, up to the parser of each.
use jsonize.Prelude.{
  false, ltb, length, ◌≤◌, if◌then◌else◌, arith, suc, [], ℕ, ◌∷◌, Text, ◌≡◌, refl, ap, ◌∙◌, sym,
  List, Option, none, some,
}
use jsonize.Engine.Line.{Line}
use jsonize.Engine.Account.{Input, Options, records_of}
use jsonize.Engine.Split.{
  ◌>>=◌ as ◌>>>◌, Split, cut_records, trim_suffix, read_record, read_records, split_records,
}
use jsonize.Engine.Fold.{fold_lines}
use jsonize.Engine.Prepare.{prepare}
use jsonize.Engine.Select.{apply_select}
use jsonize.Stream.Flow.{
  Fault, bad_record, Flow, ok, err, ◌>>=◌, map_flow, done, unbounded, Sink, feed_all,
  map_flow-map_flow,
}
use jsonize.Stream.Stages.{inside, Edges, Picking, feed_physical, flush_csv_record, release_folding}
use jsonize.Stream.Whole.{
  to_selected, to_folded, to_raw, to_physical, finish, stream_lines, new_stages, Stages, new_edges,
  new_picking, new_folding,
}
use jsonize.Stream.Reading.{feed_text, feed_texts, stream_records, records_in}
use jsonize.Stream.Left.{left_lines, gate}
use jsonize.Stream.Grouped.{feed_physical-records_of}
use jsonize.Stream.Folded.{after, feed_raw-fold_lines}
use jsonize.Stream.Released.{feed_folded-prepare}
use jsonize.Stream.Picked.{feed_selected-apply_select}

bind_assoc {ℓ} :
    {A B C : Type ℓ} (r : Flow A) (f : A → Flow B) (g : B → Flow C)
    → (r >>= (λ x. f x >>= g)) ≡ (r >>= f >>= g)
bind_assoc (ok a) f g = refl
bind_assoc (err e) f g = refl

done-map_flow {ℓ} :
    {A B : Type ℓ} (f : A → B) (r : Flow A)
    → done (map_flow f r) ≡ elim (done r) [ none ↦ none | some a ↦ some (f a) ]
done-map_flow f (ok a) = refl
done-map_flow f (err e) = refl

module _ {ℓ} {S : Type ℓ} where
  abbrev whole : Input → Sink (Unit {0}) S → S → Split (List Line) → Option (Unit {0} × S)
  whole d next s (Split.err e) = none
  whole d next s (Split.ok folded) =
      let kept = (prepare d.skip_blank d.ignore folded).kept in
      gate (left_lines d.select kept)
        (done (feed_all next (apply_select d.select kept).region (tt, s)))

  -- what the whole reading hands to the parser, where it does not end before that
  unfoldable pub read_whole : Input → Sink (Unit {0}) S → List Line → S → Option (Unit {0} × S)
  unfolding left_lines
  read_whole d next lines s = whole d next s (fold_lines d.fold (records_of d.csv lines))

  -- the state of the parser alone
  abbrev pub parser_state : {H : Type 0} → H × (Edges × (Picking × S)) → H × S
  parser_state (h, (e, (p, s))) = (h, s)

  abbrev forget : Option (Unit {0} × (Edges × (Picking × S))) → Option (Unit {0} × S)
  forget none = none
  forget (some x) = some (parser_state x)

module _ {ℓ} {S : Type ℓ} (d : Input) (next : Sink (Unit {0}) S) (lines : List Line) (s : S) where
  stream_lines-after :
      done (stream_lines unbounded d next lines (tt, s))
      ≡ after
          (to_folded unbounded d next)
          (fold_lines d.fold (records_of d.csv lines))
          (new_edges, (new_picking, s))
  unfolding stream_lines finish to_physical to_raw
  stream_lines-after =
      ap done (
        bind_assoc
          (feed_all (feed_physical unbounded (to_raw unbounded d next)) lines (tt, new_stages d s))
          (λ x.
            map_flow inside
              (flush_csv_record unbounded (to_raw unbounded d next) x.1.0 (x.0, x.1.1)))
          (λ x. release_folding unbounded (to_folded unbounded d next) x.1.0 (x.0, x.1.1))
        ∙ ap
            (λ r.
              r
              >>= (λ x. release_folding unbounded (to_folded unbounded d next) x.1.0 (x.0, x.1.1)))
            (feed_physical-records_of (to_raw unbounded d next) d.csv lines
              (new_folding, (new_edges, (new_picking, s)))))
      ∙ feed_raw-fold_lines (to_folded unbounded d next) d.fold (records_of d.csv lines)
          (new_edges, (new_picking, s))

  pub stream_lines-read_whole :
      done (map_flow parser_state (stream_lines unbounded d next lines (tt, s)))
      ≡ read_whole d next lines s
  unfolding read_whole to_folded to_selected
  stream_lines-read_whole =
      done-map_flow parser_state (stream_lines unbounded d next lines (tt, s))
      ∙ ap forget stream_lines-after
      ∙ elim (fold_lines d.fold (records_of d.csv lines))
          as (λ r.
            forget (after (to_folded unbounded d next) r (new_edges, (new_picking, s)))
            ≡ whole d next s r) [
              | Split.err e ↦ refl
              | Split.ok folded ↦
                  let run =
                    feed_all (to_folded unbounded d next) folded
                      (tt, (new_edges, (new_picking, s))) in
                  let kept = (prepare d.skip_blank d.ignore folded).kept in
                  sym (done-map_flow parser_state run)
                  ∙ ap done (sym (map_flow-map_flow run inside inside parser_state (λ x. refl)))
                  ∙ ap (λ r. done (map_flow inside r))
                      (feed_folded-prepare d.ignore d.skip_blank (to_selected unbounded d next)
                        folded (new_picking, s))
                  ∙ feed_selected-apply_select d.select next kept (tt, s)
            ]

module _ {ℓ} {S : Type ℓ} (d : Input) (next : Sink (Unit {0}) S) (opts : Options) where
  abbrev text_fed : List Line → Unit {0} × Stages S → Option (Unit {0} × (Edges × (Picking × S)))
  text_fed ls x = done (feed_all (to_physical unbounded d next) ls x >>= finish unbounded d next)

  abbrev fed_result :
      Unit {0} × Stages S → Split (List Line) → Option (Unit {0} × (Edges × (Picking × S)))
  fed_result x (Split.err e) = none
  fed_result x (Split.ok ls) = text_fed ls x

  -- what a first line comes to, with the lines behind it
  abbrev first_fed :
      Flow (Unit {0} × Stages S) → Split (List Line) → Option (Unit {0} × (Edges × (Picking × S)))
  first_fed r (Split.err e) = none
  first_fed r (Split.ok ls) =
      done (r >>= feed_all (to_physical unbounded d next) ls >>= finish unbounded d next)

  first_fed-line :
      (l : Line) (x : Unit {0} × Stages S) (q : Split (List Line))
      → first_fed (to_physical unbounded d next l x) q
        ≡ fed_result x (q >>> (λ ls. Split.ok (l ∷ ls)))
  unfolding feed_all
  first_fed-line l x (Split.ok ls) = refl
  first_fed-line l x (Split.err e) = refl

  first_fed-fault : (e : Fault) (q : Split (List Line)) → none ≡ first_fed (err e) q
  first_fed-fault e (Split.ok ls) = refl
  first_fed-fault e (Split.err f) = refl

  fed_first :
      (x : Unit {0} × Stages S) (q : Split (List Line)) → fed_result x q ≡ first_fed (ok x) q
  fed_first x (Split.ok ls) = refl
  fed_first x (Split.err e) = refl

  abbrev reads : ℕ → List Text → Split (List Line)
  reads num rs = read_records d.sep opts.max_line opts.keep_escapes num rs

  abbrev rest_fed :
      ℕ → List Text → Flow (Unit {0} × Stages S) → Option (Unit {0} × (Edges × (Picking × S)))
  rest_fed num rs r =
      done (r >>= feed_texts unbounded d next opts num rs >>= finish unbounded d next)

  -- A line is fed before the records behind its own are looked at.
  feed_texts-read_records :
      (num : ℕ) (rs : List Text) (x : Unit {0} × Stages S)
      → rest_fed num rs (ok x) ≡ fed_result x (reads num rs)
  unfolding feed_texts feed_text read_records feed_all
  feed_texts-read_records num [] x = refl
  feed_texts-read_records num (r ∷ rs) x =
      elim (read_record d.sep opts.max_line opts.keep_escapes num r)
        as (λ l.
          rest_fed (suc num) rs (elim l [
            | Split.err e ↦ err (bad_record e)
            | Split.ok l ↦ to_physical unbounded d next l x
          ])
          ≡ fed_result x (l >>> (λ l. reads (suc num) rs >>> (λ ls. Split.ok (l ∷ ls))))) [
            | Split.err e ↦ refl
            | Split.ok l ↦
                elim (to_physical unbounded d next l x)
                  as (λ y. rest_fed (suc num) rs y ≡ first_fed y (reads (suc num) rs)) [
                    | ok y ↦
                        feed_texts-read_records (suc num) rs y ∙ fed_first y (reads (suc num) rs)
                    | err e ↦ first_fed-fault e (reads (suc num) rs)
                  ]
                ∙ first_fed-line l x (reads (suc num) rs)
          ]

  -- What the whole reading of a text hands to the parser; `ParseAccounted` refuses a text that is too
  -- long.
  unfoldable pub read_text : Text → S → Option (Unit {0} × S)
  unfolding read_whole
  read_text input s =
      if ltb opts.max_input (length input)
      then none
      else elim (split_records input d.sep opts.max_line opts.keep_escapes) [
        | Split.err e ↦ none
        | Split.ok lines ↦ read_whole d next lines s
      ]

  stream_records-fed :
      (input : Text) (x : Unit {0} × S)
      → done (stream_records unbounded d next opts input x)
        ≡ fed_result
            (x.0, new_stages d x.1)
            (split_records input d.sep opts.max_line opts.keep_escapes)
  unfolding stream_records split_records records_in feed_texts feed_all
  stream_records-fed [] x = refl
  stream_records-fed (c ∷ cs) x =
      feed_texts-read_records 1 (cut_records d.sep (trim_suffix d.sep (c ∷ cs)))
        (x.0, new_stages d x.1)

  pub stream_records-read_text :
      (input : Text) (s : S)
      → length input ≤ opts.max_input
      → done (map_flow parser_state (stream_records unbounded d next opts input (tt, s)))
        ≡ read_text input s
  unfolding read_text stream_lines
  stream_records-read_text input s within_limit =
      let accepted : ltb opts.max_input (length input) ≡ false = ground arith in
      rw (accepted, read_text)
        (done-map_flow parser_state (stream_records unbounded d next opts input (tt, s))
          ∙ ap forget (stream_records-fed input (tt, s))
          ∙ elim (split_records input d.sep opts.max_line opts.keep_escapes)
              as (λ r.
                forget (fed_result (tt, new_stages d s) r)
                ≡ (elim r [ Split.err e ↦ none | Split.ok lines ↦ read_whole d next lines s ])) [
                  | Split.err e ↦ refl
                  | Split.ok lines ↦
                      sym (done-map_flow parser_state (stream_lines unbounded d next lines (tt, s)))
                      ∙ stream_lines-read_whole d next lines s
                ])
