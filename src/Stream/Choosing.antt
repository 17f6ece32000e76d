-- ===== src/Stream/Choosing.antt =====
-- pkg/engine/stream.go: `feedSelected` with a hold that has a limit, beside that with one that has none.
use jsonize.Prelude.{
  suc, ℕ, ◌≤◌, Bool, true, false, Option, none, some, Text, ltb, leb, ◌&&◌, Bool-cases, inl, inr,
}
use jsonize.Space.{blank}
use jsonize.Engine.Line.{Line}
use jsonize.Engine.Select.{Select}
use jsonize.Stream.Flow.{left_unread, Sink}
use jsonize.Stream.Stages.{
  Picking, left_out, feed_counted, feed_until, feed_selected, matched, unread_span,
}
use jsonize.Stream.Tracks.{Tracks, agrees, fails, map_flow-Tracks, Follows}

module _ {ℓ} {S : Type ℓ} (limit : ℕ) (next : Sink ℕ S) (full : Sink (Unit {0}) S)
    (follows : Follows limit next full) (sel : Select) where
  left_out-Tracks :
      (l : Line) (h : ℕ) (a : Picking × S)
      → h ≤ limit
      → Tracks limit (left_out l (h, a)) (left_out l (tt, a))
  unfolding left_out
  left_out-Tracks l h a le = elim (Bool-cases (blank l.text)) [
    | inl e ↦ rw e (agrees h a le)
    | inr e ↦ rw e (fails (left_unread (unread_span l)))
  ]

  matched-Tracks :
      (whole : Text → Bool) (l : Line) (h : ℕ) (a : Picking × S)
      → h ≤ limit
      → Tracks limit (matched whole l (h, a)) (matched whole l (tt, a))
  matched-Tracks whole l h a le = elim (Bool-cases (whole l.text)) [
    | inl e ↦ rw (e, matched) (agrees h a le)
    | inr e ↦ rw (e, matched) (left_out-Tracks l h a le)
  ]

  feed_counted-Follows : Follows limit (feed_counted sel next) (feed_counted sel full)
  unfolding feed_counted
  feed_counted-Follows l h (p, s) le = elim (Bool-cases (ltb p.skipped sel.skip)) [
    | inl e ↦
        rw (e, feed_counted) (left_out-Tracks l h (record p { skipped = suc p.skipped }, s) le)
    | inr e ↦ elim (Bool-cases (ltb 0 sel.limit && leb sel.limit p.taken)) [
      | inl f ↦ rw (e, f, feed_counted) (left_out-Tracks l h (p, s) le)
      | inr f ↦
          rw (e, f, feed_counted)
            (map_flow-Tracks limit (λ z. (record p { taken = suc p.taken }, z)) (follows l h s le))
    ]
  ]

  until-Tracks :
      (u : Option (Text → Bool)) (l : Line) (h : ℕ) (p : Picking) (s : S)
      → h ≤ limit
      → Tracks limit
          (elim u [
            | none ↦ feed_counted sel next l (h, (p, s))
            | some re ↦ elim (re l.text) [
              | true ↦ matched sel.end l (h, (record p { closed = true }, s))
              | false ↦ feed_counted sel next l (h, (p, s))
            ]
          ])
          (elim u [
            | none ↦ feed_counted sel full l (tt, (p, s))
            | some re ↦ elim (re l.text) [
              | true ↦ matched sel.end l (tt, (record p { closed = true }, s))
              | false ↦ feed_counted sel full l (tt, (p, s))
            ]
          ])
  until-Tracks none l h p s le = feed_counted-Follows l h (p, s) le
  until-Tracks (some re) l h p s le = elim (Bool-cases (re l.text)) [
    | inl m ↦ rw m (matched-Tracks sel.end l h (record p { closed = true }, s) le)
    | inr m ↦ rw m (feed_counted-Follows l h (p, s) le)
  ]

  feed_until-Follows : Follows limit (feed_until sel next) (feed_until sel full)
  unfolding feed_until
  feed_until-Follows l h (p, s) le = until-Tracks sel.until l h p s le

  heading-Tracks :
      (u : Option (Text → Bool)) (l : Line) (h : ℕ) (p : Picking) (s : S)
      → h ≤ limit
      → Tracks limit
          (elim u [
            | none ↦ feed_until sel next l (h, (p, s))
            | some re ↦ elim (re l.text) [
              | true ↦ matched sel.heading l (h, (record p { started = true }, s))
              | false ↦ left_out l (h, (p, s))
            ]
          ])
          (elim u [
            | none ↦ feed_until sel full l (tt, (p, s))
            | some re ↦ elim (re l.text) [
              | true ↦ matched sel.heading l (tt, (record p { started = true }, s))
              | false ↦ left_out l (tt, (p, s))
            ]
          ])
  heading-Tracks none l h p s le = feed_until-Follows l h (p, s) le
  heading-Tracks (some re) l h p s le = elim (Bool-cases (re l.text)) [
    | inl m ↦ rw m (matched-Tracks sel.heading l h (record p { started = true }, s) le)
    | inr m ↦ rw m (left_out-Tracks l h (p, s) le)
  ]

  pub feed_selected-Follows : Follows limit (feed_selected sel next) (feed_selected sel full)
  unfolding feed_selected
  feed_selected-Follows l h (p, s) le = elim (Bool-cases p.closed) [
    | inl c ↦ rw (c, feed_selected) (left_out-Tracks l h (p, s) le)
    | inr c ↦ elim (Bool-cases p.started) [
      | inl t ↦ rw (c, t, feed_selected) (feed_until-Follows l h (p, s) le)
      | inr t ↦ rw (c, t, feed_selected) (heading-Tracks sel.after l h p s le)
    ]
  ]
