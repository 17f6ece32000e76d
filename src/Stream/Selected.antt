-- ===== src/Stream/Selected.antt =====
-- pkg/engine/stream.go, `feedSelected`: the lines from the start of the selection on.
use jsonize.Prelude.{
  ◌⊎◌, ℕ, ◌≡◌, refl, ap, ◌∙◌, sym, Bool, true, false, List, [], ◌∷◌, ◌++◌, Option, none, some, Text,
  Bool-cases, Option-cases, inl, inr, arith,
}
use jsonize.Engine.Line.{Line}
use jsonize.Engine.Select.{Select, find_after, before_until, skip_limit}
use jsonize.Stream.Flow.{done, Sink, feed_all}
use jsonize.Stream.Stages.{left_out, matched, feed_counted, feed_until, feed_selected, beside}
use jsonize.Stream.Counted.{
  picking, left_of, outcome, followed, taken_of, closed-blank, matched-gate, nil-gate, Reads,
  counted-step,
}
use jsonize.Stream.Left.{
  blank_lines, unless, body_of, behind_body, left_until, gate, skip_limit-limited,
}

module _ {ℓ} {S : Type ℓ} {H : Type 0} (sel : Select) (next : Sink H S) (st : Bool) where
  -- The selection has started, or has no heading to wait for.
  abbrev IsOpen : Type 0
  IsOpen = (st ≡ true) ⊎ (sel.after ≡ none)

  past_heading :
      (l : Line) (i j : ℕ) (x : H × S)
      → IsOpen
      → feed_selected sel next l (beside (picking st i j) x)
        ≡ feed_until sel next l (beside (picking st i j) x)
  unfolding feed_selected
  past_heading l i j x o =
      elim st
          as (λ b.
            (b ≡ true) ⊎ (sel.after ≡ none)
            → feed_selected sel next l
                (beside (record { started = b; skipped = i; taken = j; closed = false }) x)
              ≡ feed_until sel next l
                  (beside (record { started = b; skipped = i; taken = j; closed = false }) x)) [
                    | true ↦ λ _. refl
                    | false ↦ λ q. elim q [
                      | inl e ↦ absurd (ground (arith, e))
                      | inr e ↦
                          ap
                            (λ u. elim u [
                              | none ↦ feed_until sel next l (
                                  beside
                                    (record {
                                      started = false;
                                      skipped = i;
                                      taken = j;
                                      closed = false;
                                    })
                                    x)
                              | some re ↦ elim (re l.text) [
                                | true ↦ matched sel.heading l (
                                    beside
                                      (record {
                                        started = true;
                                        skipped = i;
                                        taken = j;
                                        closed = false;
                                      })
                                      x)
                                | false ↦ left_out l (
                                    beside
                                      (record {
                                        started = false;
                                        skipped = i;
                                        taken = j;
                                        closed = false;
                                      })
                                      x)
                              ]
                            ])
                            e
                    ]
                  ]
        o

  feed_until-cases :
      (l : Line) (i j : ℕ) (x : H × S) (u : Option (Text → Bool))
      → sel.until ≡ u
      → feed_until sel next l (beside (picking st i j) x) ≡ (elim u [
        | none ↦ feed_counted sel next l (beside (picking st i j) x)
        | some re ↦ elim (re l.text) [
          | true ↦
              matched sel.end l
                (beside (record { started = st; skipped = i; taken = j; closed = true }) x)
          | false ↦ feed_counted sel next l (beside (picking st i j) x)
        ]
      ])
  unfolding feed_until
  feed_until-cases l i j x u e =
      ap
        (λ v. elim v [
          | none ↦ feed_counted sel next l (beside (picking st i j) x)
          | some re ↦ elim (re l.text) [
            | true ↦
                matched sel.end l
                  (beside (record { started = st; skipped = i; taken = j; closed = true }) x)
            | false ↦ feed_counted sel next l (beside (picking st i j) x)
          ]
        ])
        e

  whole-gate : (ls : List Line) → IsOpen → sel.until ≡ none → Reads sel next st ls ls []
  unfolding feed_all blank_lines
  whole-gate [] o e d k i j x a = sym (nil-gate sel next d k [] x)
  whole-gate (l ∷ ls) o e d k i j x a =
      ap (followed sel next ls) (past_heading l i j x o ∙ feed_until-cases l i j x none e)
      ∙ counted-step sel next st l ls ls [] d k i j x a (whole-gate ls o e)

  -- what an expression that closes the selection leaves unread, from its line on
  abbrev behind : (Text → Bool) → List Line → List Line
  behind re ls = elim (find_after re ls) [ none ↦ [] | some (l, rest) ↦ unless sel.end l ++ rest ]

  abbrev closed_outcome : Line → List Line → (i j : ℕ) → H × S → Bool → Option (H × S)
  closed_outcome l ls i j x b = followed sel next ls (elim b [
    | true ↦
        matched sel.end l
          (beside (record { started = st; skipped = i; taken = j; closed = true }) x)
    | false ↦ feed_counted sel next l (beside (picking st i j) x)
  ])

  close-gate :
      (re : Text → Bool) (ls : List Line)
      → IsOpen
      → sel.until ≡ some re
      → Reads sel next st ls (before_until re ls) (behind re ls)
  unfolding feed_all before_until find_after blank_lines
  close-gate re [] o e d k i j x a = sym (nil-gate sel next d k [] x)
  close-gate re (l ∷ ls) o e d k i j x a =
      ap (followed sel next ls) (past_heading l i j x o ∙ feed_until-cases l i j x (some re) e)
      ∙ elim (Bool-cases (re l.text)) [
        | inl m ↦
            ap (closed_outcome l ls i j x) m
            ∙ rw (m, before_until, find_after, behind)
                (matched-gate sel next sel.end l ls ls
                    (record { started = st; skipped = i; taken = j; closed = true }) x (some x)
                    (closed-blank sel next ls
                      (record { started = st; skipped = i; taken = j; closed = true }) x refl)
                  ∙ sym (nil-gate sel next d k (unless sel.end l ++ ls) x))
        | inr m ↦
            ap (closed_outcome l ls i j x) m
            ∙ rw (m, before_until, find_after, behind)
                (counted-step sel next st l ls (before_until re ls) (behind re ls) d k i j x a
                  (close-gate re ls o e))
      ]

  -- the lines that are read and left, where the closing expression is known
  until-Reads :
      (ls : List Line) {u : Option (Text → Bool)}
      → sel.until ≡ u
      → Reads sel next st ls
          (elim u [ none ↦ ls | some re ↦ before_until re ls ])
          (elim u [ none ↦ [] | some re ↦ behind re ls ])
      → Reads sel next st ls (body_of sel ls) (behind_body sel ls)
  until-Reads ls e reads d k i j x a =
      reads d k i j x a
      ∙ ap
          (λ u.
            gate
              (left_of sel d k (elim u [ none ↦ ls | some re ↦ before_until re ls ])
                (elim u [ none ↦ [] | some re ↦ behind re ls ]))
              (taken_of sel next d k (elim u [ none ↦ ls | some re ↦ before_until re ls ]) x))
          (sym e)

  -- The lines behind the heading, or all of them where there is none.
  started-gate :
      (ls : List Line) → IsOpen → Reads sel next st ls (body_of sel ls) (behind_body sel ls)
  started-gate ls o = elim (Option-cases sel.until) [
    | inl e ↦ until-Reads ls e (whole-gate ls o e)
    | inr (re, e) ↦ until-Reads ls e (close-gate re ls o e)
  ]

  -- A selection from its start on.
  pub open-gate :
      (ls : List Line) (x : H × S)
      → IsOpen
      → outcome sel next ls (picking st 0 0) x
        ≡ gate
            (left_until sel ls)
            (done (feed_all next (skip_limit sel.skip sel.limit (body_of sel ls)) x))
  unfolding left_until
  open-gate ls x o =
      started-gate ls o sel.skip sel.limit 0 0 x (omega arith, λ q. omega arith)
      ∙ ap (λ t. gate (left_until sel ls) (done (feed_all next t x)))
          (sym (skip_limit-limited sel.skip sel.limit (body_of sel ls)))
