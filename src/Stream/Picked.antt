-- ===== src/Stream/Picked.antt =====
-- pkg/engine/stream.go, `feedSelected` against `applySelect` of pkg/engine/engine.go.
use jsonize.Prelude.{
  ◌≡◌, refl, ap, ◌∙◌, sym, Bool, true, false, List, [], ◌∷◌, ◌++◌, Option, none, some, Text,
  Bool-cases, Option-cases, inl, inr,
}
use jsonize.Engine.Line.{Line}
use jsonize.Engine.Select.{
  Select, Region, find_after, before_until, skip_limit, select_until, apply_select,
}
use jsonize.Stream.Flow.{Flow, map_flow, done, Sink, feed_all}
use jsonize.Stream.Stages.{Picking, left_out, matched, feed_until, feed_selected, beside, inside}
use jsonize.Stream.Whole.{new_picking}
use jsonize.Stream.Counted.{outcome, followed, left_out-gate, matched-gate}
use jsonize.Stream.Left.{blank_lines, unless, body_of, left_until, left_lines, gate}
use jsonize.Stream.Selected.{open-gate}

module _ {ℓ} {S : Type ℓ} {H : Type 0} (sel : Select) (next : Sink H S) where
  abbrev started_picking : Picking
  started_picking = record new_picking { started = true }

  abbrev heading_step : Line → H × S → Bool → Flow (H × (Picking × S))
  heading_step l x b = elim b [
    | true ↦ matched sel.heading l (beside started_picking x)
    | false ↦ left_out l (beside new_picking x)
  ]

  feed_selected-heading :
      (re : Text → Bool) (l : Line) (x : H × S)
      → sel.after ≡ some re
      → feed_selected sel next l (beside new_picking x) ≡ heading_step l x (re l.text)
  unfolding feed_selected
  feed_selected-heading re l x e =
      ap
        (λ u. elim u [
          | none ↦ feed_until sel next l (beside new_picking x)
          | some h ↦ heading_step l x (h l.text)
        ])
        e

  abbrev behind_heading : (Text → Bool) → List Line → List Line
  behind_heading re ls = elim (find_after re ls) [
    | none ↦ []
    | some (l, rest) ↦ unless sel.heading l ++ left_until sel rest
  ]

  abbrev chosen : (Text → Bool) → List Line → List Line
  chosen re ls = elim (find_after re ls) [
    | none ↦ []
    | some (l, rest) ↦ skip_limit sel.skip sel.limit (body_of sel rest)
  ]

  -- The heading, and the lines behind it.
  heading-gate :
      (re : Text → Bool) (ls : List Line) (x : H × S)
      → sel.after ≡ some re
      → outcome sel next ls new_picking x
        ≡ gate (before_until re ls ++ behind_heading re ls) (done (feed_all next (chosen re ls) x))
  unfolding feed_all find_after before_until blank_lines
  heading-gate re [] x e = refl
  heading-gate re (l ∷ ls) x e =
      ap (followed sel next ls) (feed_selected-heading re l x e) ∙ elim (Bool-cases (re l.text)) [
        | inl m ↦
            ap (λ b. followed sel next ls (heading_step l x b)) m
            ∙ rw (m, before_until, behind_heading, chosen, find_after)
                (matched-gate sel next sel.heading l ls (left_until sel ls) started_picking x
                  (done (feed_all next (skip_limit sel.skip sel.limit (body_of sel ls)) x))
                  (open-gate sel next true ls x (inl refl)))
        | inr m ↦
            ap (λ b. followed sel next ls (heading_step l x b)) m
            ∙ rw (m, before_until, behind_heading, chosen, find_after)
                (left_out-gate sel next l ls (before_until re ls ++ behind_heading re ls)
                  new_picking x (done (feed_all next (chosen re ls) x)) (heading-gate re ls x e))
      ]

  select_until-region :
      (ls : List Line) (h : Option Line)
      → (select_until sel ls h).region ≡ skip_limit sel.skip sel.limit (body_of sel ls)
  unfolding select_until
  select_until-region ls h = elim (Option-cases sel.until) [
    | inl e ↦ rw (e, select_until) refl
    | inr (re, e) ↦ rw (e, select_until) refl
  ]

  abbrev region_from : (Text → Bool) → List Line → Region
  region_from re ls = elim (find_after re ls) [
    | none ↦ record { region = []; heading = none; end = none }
    | some (l, rest) ↦ select_until sel rest (some l)
  ]

  -- what a selection leaves out and hands on, by its first expression
  abbrev selected : List Line → H × S → Option (Text → Bool) → Option (H × S)
  selected ls x u =
      gate
        (elim u [ none ↦ left_until sel ls | some re ↦ before_until re ls ++ behind_heading re ls ])
        (done (
          feed_all next
            (elim u as (λ _. Region) [
              | none ↦ select_until sel ls none
              | some re ↦ region_from re ls
            ]).region
            x))

  region_from-chosen :
      (re : Text → Bool) (ls : List Line) → (region_from re ls).region ≡ chosen re ls
  region_from-chosen re ls =
      elim (find_after re ls)
        as (λ u.
          (elim u as (λ _. Region) [
            | none ↦ record { region = []; heading = none; end = none }
            | some (l, rest) ↦ select_until sel rest (some l)
          ]).region
          ≡ (elim u [
            | none ↦ []
            | some (l, rest) ↦ skip_limit sel.skip sel.limit (body_of sel rest)
          ])) [ none ↦ refl | some (l, rest) ↦ select_until-region rest (some l) ]

  -- Lines that go one at a time through the selection of a stream have the result of handing the region
  -- that the whole reading selects to the next stage, if the lines left out and not described in full by
  -- an expression of the selection are all blank, and no result otherwise.
  pub feed_selected-apply_select :
      (ls : List Line) (x : H × S)
      → done (map_flow inside (feed_all (feed_selected sel next) ls (beside new_picking x)))
        ≡ gate (left_lines sel ls) (done (feed_all next (apply_select sel ls).region x))
  unfolding apply_select left_lines
  feed_selected-apply_select ls x = elim (Option-cases sel.after) [
    | inl e ↦
        open-gate sel next false ls x (inr e)
        ∙ ap (λ t. gate (left_until sel ls) (done (feed_all next t x)))
            (sym (select_until-region ls none))
        ∙ ap (selected ls x) (sym e)
    | inr (re, e) ↦
        heading-gate re ls x e
        ∙ ap (λ t. gate (before_until re ls ++ behind_heading re ls) (done (feed_all next t x)))
            (sym (region_from-chosen re ls))
        ∙ ap (selected ls x) (sym e)
  ]
