-- ===== src/Stream/Reading.antt =====
-- pkg/engine/stream.go, the loop of `Stream` over `recordio.Read`, against the records that `splitRecords`
-- of pkg/engine/engine.go cuts.
use jsonize.Prelude.{
  fun_ext, inl, inr, ◌≡◌, refl, sym, ap, ◌∙◌, ℕ, zero, suc, ◌<◌, Bool, true, false, not, ◌&&◌, List,
  [], ◌∷◌, Text, ◌==◌, ltb, length, arith, if◌then◌else◌, Bool-cases,
}
use jsonize.Record.{line, too_long, out_of_fuel, Read}
use jsonize.Record.Spec.{line_of, has_sep, behind, record_of, read-record_of}
use jsonize.Engine.Line.{record_too_long}
use jsonize.Engine.Account.{Input, Options}
use jsonize.Engine.Split.{
  ◌>>=◌ as ◌>>>◌, Split, read_record, cut_records, trim_suffix, push_head, check_record,
  prepare_record,
}
use jsonize.Stream.Flow.{Flow, ok, err, bad_record, out_of_rounds, ◌>>=◌, Holding, Sink}
use jsonize.Stream.Stages.{Edges, Picking}
use jsonize.Stream.Whole.{
  Stages, new_stages, to_physical, finish, feed_record_text, feed_input, stream_text, buffer_size,
  is_nil,
}

-- The records of a text, cut as the whole reading cuts them.
unfoldable pub records_in : ℕ → Text → List Text
records_in sep [] = []
records_in sep (c ∷ cs) = cut_records sep (trim_suffix sep (c ∷ cs))

-- The records behind the first.
abbrev rest_in : ℕ → Text → List Text
rest_in sep input = if has_sep sep input then records_in sep (behind sep input) else []

records_in-step :
    (sep c : ℕ) (cs : Text) → records_in sep (c ∷ cs) ≡ line_of sep (c ∷ cs) ∷ rest_in sep (c ∷ cs)
unfolding records_in line_of has_sep behind cut_records trim_suffix
records_in-step sep c [] = elim (Bool-cases (c == sep)) [
  | inl e ↦ rw e refl
  | inr e ↦ rw (e, e) refl
]
records_in-step sep c (d ∷ ds) =
    let ih = records_in-step sep d ds in
    elim (Bool-cases (c == sep)) [ inl e ↦ rw e refl | inr e ↦ rw e (ap (push_head c) ih) ]

has_sep-nil :
    (sep : ℕ) (input : Text) → line_of sep input ≡ [] → has_sep sep input ≡ false → input ≡ []
unfolding line_of has_sep
has_sep-nil sep [] e h = refl
has_sep-nil sep (c ∷ cs) e h = ground arith

behind-shorter :
    (sep : ℕ) (input : Text) → has_sep sep input ≡ true → length (behind sep input) < length input
unfolding behind has_sep
behind-shorter sep [] h = absurd (let bad : false ≡ true = h in cc)
behind-shorter sep (c ∷ cs) h = ground (arith, behind-shorter sep cs)

module _ {ℓ} {S : Type ℓ} {H : Type 0} (hold : Holding H) (d : Input) (next : Sink H S)
    (opts : Options) where
  -- A record with the limit on its length, as the whole reading takes it.
  unfoldable pub feed_text : ℕ → Text → H × Stages S → Flow (H × Stages S)
  unfolding read_record
  feed_text num rec x = elim (read_record d.sep opts.max_line opts.keep_escapes num rec) [
    | Split.err e ↦ err (bad_record e)
    | Split.ok l ↦ to_physical hold d next l x
  ]

  unfoldable pub feed_texts : ℕ → List Text → H × Stages S → Flow (H × Stages S)
  unfolding feed_text
  feed_texts num [] x = ok x
  feed_texts num (r ∷ rs) x = feed_text num r x >>= feed_texts (suc num) rs

  unfoldable pub stream_records : Text → H × S → Flow (H × (Edges × (Picking × S)))
  unfolding feed_texts records_in
  stream_records input (h, s) =
      feed_texts 1 (records_in d.sep input) (h, new_stages d s) >>= finish hold d next

  feed_text-short :
      (num : ℕ) (rec : Text) (x : H × Stages S)
      → ltb opts.max_line (length rec) ≡ false
      → feed_record_text hold d next opts num rec x ≡ feed_text num rec x
  unfolding feed_record_text read_record feed_text jsonize.Utf8.valid_utf8
  feed_text-short num rec x h =
      rw (h, feed_text, read_record)
        (elim (check_record (prepare_record rec d.sep num opts.keep_escapes) d.sep num)
          as (λ r.
            (elim r [
              | Split.err e ↦ err (bad_record e)
              | Split.ok text ↦ to_physical hold d next (record { text = text; num = num }) x
            ])
            ≡ (elim (r >>> (λ text. Split.ok (record { text = text; num = num }))) [
              | Split.err e ↦ err (bad_record e)
              | Split.ok l ↦ to_physical hold d next l x
            ])) [ Split.err e ↦ refl | Split.ok text ↦ refl ])

  -- A round of the loop, from what `Read` gives on.
  abbrev after_read : ℕ → ℕ → H × Stages S → Read → Flow (H × Stages S)
  after_read fuel num x too_long = err (bad_record (record_too_long num))
  after_read fuel num x out_of_fuel = err out_of_rounds
  after_read fuel num x (line raw ended rest) =
      if is_nil raw && not ended
      then ok x
      else feed_record_text hold d next opts num raw x >>= (λ y. elim ended [
        | true ↦ feed_input hold d next opts fuel (suc num) rest y
        | false ↦ ok y
      ])

  feed_input-after_read :
      (fuel num : ℕ) (input : Text) (x : H × Stages S)
      → feed_input hold d next opts (suc fuel) num input x
        ≡ after_read fuel num x (record_of d.sep opts.max_line input)
  unfolding feed_input
  feed_input-after_read fuel num input x =
      let known = read-record_of buffer_size d.sep opts.max_line input (omega arith) in
      ap (after_read fuel num x) known

  feed_text-long :
      (num : ℕ) (rec : Text) (x : H × Stages S)
      → ltb opts.max_line (length rec) ≡ true
      → feed_text num rec x ≡ err (bad_record (record_too_long num))
  unfolding feed_text read_record
  feed_text-long num rec x h = rw (h, feed_text, read_record) refl

  -- A round takes a record, and goes on as the loop over the records behind it does.
  after_read-record :
      (fuel num : ℕ) (rec : Text) (ended : Bool) (rest : Text) (x : H × Stages S)
      → (is_nil rec && not ended) ≡ false
      → (ended ≡ true
          → (y : H × Stages S)
          → feed_input hold d next opts fuel (suc num) rest y
            ≡ feed_texts (suc num) (records_in d.sep rest) y)
      → after_read fuel num x
          (if ltb opts.max_line (length rec) then too_long else line rec ended rest)
        ≡ feed_texts num (rec ∷ (if ended then records_in d.sep rest else [])) x
  unfolding feed_texts
  after_read-record fuel num rec ended rest x some_text ih =
      elim (Bool-cases (ltb opts.max_line (length rec))) [
        | inl t ↦ rw (t, feed_text-long num rec x t) refl
        | inr t ↦
            rw (t, some_text, ← feed_text-short num rec x t)
              (elim ended
                  as (λ b.
                    (b ≡ true
                      → (y : H × Stages S)
                      → feed_input hold d next opts fuel (suc num) rest y
                        ≡ feed_texts (suc num) (records_in d.sep rest) y)
                    → (feed_record_text hold d next opts num rec x >>= (λ y. elim b [
                      | true ↦ feed_input hold d next opts fuel (suc num) rest y
                      | false ↦ ok y
                    ]))
                      ≡ (feed_record_text hold d next opts num rec x
                          >>= feed_texts (suc num) (if b then records_in d.sep rest else []))) [
                            | true ↦ λ k.
                                ap (λ f. feed_record_text hold d next opts num rec x >>= f)
                                  (fun_ext (k refl))
                            | false ↦ λ k. refl
                          ]
                ih)
      ]

  nonempty :
      (c : ℕ) (cs : Text)
      → (is_nil (line_of d.sep (c ∷ cs)) && not (has_sep d.sep (c ∷ cs))) ≡ false
  unfolding line_of has_sep
  nonempty c cs = elim (Bool-cases (c == d.sep)) [ inl e ↦ rw e refl | inr e ↦ rw e refl ]

  -- The loop of a stream takes the records of the text, whatever the buffer: no fuel runs out.
  pub feed_input-records_in :
      (fuel num : ℕ) (input : Text) (x : H × Stages S)
      → length input < fuel
      → feed_input hold d next opts fuel num input x ≡ feed_texts num (records_in d.sep input) x
  unfolding feed_texts
  feed_input-records_in zero num input x h = absurd (omega arith)
  feed_input-records_in (suc fuel) num [] x h =
      feed_input-after_read fuel num [] x
      ∙ unfold line_of has_sep behind records_in in
        (let none_long : ltb opts.max_line 0 ≡ false = ground arith in rw none_long refl)
  feed_input-records_in (suc fuel) num (c ∷ cs) x h =
      feed_input-after_read fuel num (c ∷ cs) x
      ∙ after_read-record fuel num (line_of d.sep (c ∷ cs)) (has_sep d.sep (c ∷ cs))
          (behind d.sep (c ∷ cs)) x (nonempty c cs)
          (λ e y.
            let shorter = behind-shorter d.sep (c ∷ cs) e in
            feed_input-records_in fuel (suc num) (behind d.sep (c ∷ cs)) y (omega arith))
      ∙ ap (λ rs. feed_texts num rs x) (sym (records_in-step d.sep c cs))

  pub stream_text-stream_records :
      (input : Text) (x : H × S) → stream_text hold d next opts input x ≡ stream_records input x
  unfolding stream_text stream_records
  stream_text-stream_records input x =
      ap (λ r. r >>= finish hold d next)
        (feed_input-records_in (suc (length input)) 1 input (x.0, new_stages d x.1) (omega arith))
