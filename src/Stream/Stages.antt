-- ===== src/Stream/Stages.antt =====
-- pkg/engine/stream.go: the stages of a stream in front of its parser.
use jsonize.Prelude.{
  ℕ, suc, Bool, true, false, not, ◌&&◌, ◌||◌, List, [], ◌∷◌, ◌++◌, Option, none, some, Text, ltb,
  leb, if◌then◌else◌,
}
use jsonize.Space.{blank, trim_space}
use jsonize.Engine.Line.{Line, UnreadSpan}
use jsonize.Engine.Fold.{join}
use jsonize.Engine.Prepare.{edge_blank}
use jsonize.Engine.Select.{Select}
use jsonize.Engine.Ledger.{truncate}
use jsonize.Csv.Quote.{Quote, feed}
use jsonize.Stream.Flow.{
  Flow, ok, err, ◌>>=◌, map_flow, no_join, left_unread, Holding, line_bytes, lines_bytes, Sink,
}

-- `csvIn`, `csvRec` and `csvNum`; a nil `csvRec` is the empty list, which it never is otherwise.
pub record Grouping : Type 0 where
  pub csv_in : Option Quote
  pub pieces : List Text
  pub num : ℕ

-- `folding` and `foldNum`
pub record Folding : Type 0 where
  pub pieces : List Text
  pub num : ℕ

-- `empty` and `text`
pub record Edges : Type 0 where
  pub empty : List Line
  pub text : Bool

pub record Picking : Type 0 where
  pub started : Bool
  pub skipped : ℕ
  pub taken : ℕ
  pub closed : Bool

unfoldable pub matches_any : List (Text → Bool) → Text → Bool
matches_any [] s = false
matches_any (re ∷ res) s = re s || matches_any res s

-- the state of a stage beside that of the stages behind it
abbrev pub beside {ℓ κ} : {H : Type 0} {A : Type κ} {S : Type ℓ} → A → H × S → H × (A × S)
beside a (h, s) = (h, (a, s))

-- the state of the stages behind a stage
abbrev pub inside {ℓ κ} : {H : Type 0} {A : Type κ} {S : Type ℓ} → H × (A × S) → H × S
inside (h, (a, s)) = (h, s)

abbrev pub number_of : Grouping → ℕ → ℕ
number_of g num = elim g.pieces [ [] ↦ num | p ∷ ps ↦ g.num ]

module _ {ℓ} {S : Type ℓ} {H : Type 0} (hold : Holding H) where
  unfoldable pub flush_csv_record : Sink H S → Grouping → H × S → Flow (H × (Grouping × S))
  flush_csv_record next g (h, s) = elim g.pieces [
    | [] ↦ ok (h, (g, s))
    | p ∷ ps ↦
        let rec : Line = record { text = join b'\n' (p ∷ ps); num = g.num } in
        map_flow (beside (record g { pieces = [] }))
          (next rec (hold.give_bytes (line_bytes rec.text) h, s))
  ]

  unfoldable pub feed_physical : Sink H S → Sink H (Grouping × S)
  unfolding flush_csv_record
  feed_physical next l (h, (g, s)) = elim g.csv_in [
    | none ↦ map_flow (beside g) (next l (h, s))
    | some q ↦ hold.take_bytes (line_bytes l.text) l.num h >>= (λ h1.
        let grown : Grouping = record {
          csv_in = some (feed q l.text);
          pieces = g.pieces ++ l.text ∷ [];
          num = number_of g l.num;
        } in
        elim (feed q l.text).quoted [
          | true ↦ ok (h1, (grown, s))
          | false ↦ flush_csv_record next grown (h1, s)
        ])
  ]

  -- `releaseFolding`, and what `feedRaw` and `finish` hand on of it
  unfoldable pub release_folding : Sink H S → Folding → H × S → Flow (H × S)
  release_folding next f (h, s) = elim f.pieces [
    | [] ↦ ok (h, s)
    | p ∷ ps ↦
        next (record { text = join b' ' (p ∷ ps); num = f.num })
          (hold.give_bytes (lines_bytes (p ∷ ps)) h, s)
  ]

  unfoldable pub join_folding : Line → H × (Folding × S) → Flow (H × (Folding × S))
  join_folding l (h, (f, s)) = elim f.pieces [
    | [] ↦ err (no_join l.num)
    | p ∷ ps ↦ elim (blank p) [
      | true ↦ err (no_join l.num)
      | false ↦
          hold.take_bytes (line_bytes (trim_space l.text)) l.num h
          >>= (λ h1. ok (h1, (record f { pieces = (p ∷ ps) ++ trim_space l.text ∷ [] }, s)))
    ]
  ]

  -- The line behind the one held: that one is given back before this one is taken, and handed on
  -- after it.
  unfoldable pub next_folding : Sink H S → Line → H × (Folding × S) → Flow (H × (Folding × S))
  next_folding next l (h, (f, s)) =
      let held : Folding = record { pieces = l.text ∷ []; num = l.num } in
      elim f.pieces [
        | [] ↦ hold.take_bytes (line_bytes l.text) l.num h >>= (λ h1. ok (h1, (held, s)))
        | p ∷ ps ↦
            hold.take_bytes (line_bytes l.text) l.num (hold.give_bytes (lines_bytes (p ∷ ps)) h)
            >>= (λ h1.
                map_flow (beside held)
                  (next (record { text = join b' ' (p ∷ ps); num = f.num }) (h1, s)))
      ]

  unfoldable pub feed_raw : Option (Text → Bool) → Sink H S → Sink H (Folding × S)
  unfolding join_folding next_folding
  feed_raw none next l (h, (f, s)) = map_flow (beside f) (next l (h, s))
  feed_raw (some fold) next l x = elim (fold l.text) [
    | true ↦ join_folding l x
    | false ↦ next_folding next l x
  ]

  module _ (ignore : List (Text → Bool)) (skip_blank : Bool) where
    -- the loop over the lines held back
    unfoldable pub release_empty : Sink H S → List Line → H × S → Flow (H × S)
    unfolding matches_any
    release_empty next [] x = ok x
    release_empty next (e ∷ es) (h, s) =
        let given : H = hold.give_bytes (line_bytes e.text) h in
        elim (matches_any ignore e.text) [
          | true ↦ release_empty next es (given, s)
          | false ↦ next e (given, s) >>= release_empty next es
        ]

    unfoldable pub feed_folded : Sink H S → Sink H (Edges × S)
    unfolding release_empty
    feed_folded next l (h, (e, s)) = elim (edge_blank l.text skip_blank) [
      | true ↦ elim (skip_blank || not e.text) [
        | true ↦ ok (h, (e, s))
        | false ↦
            hold.take_bytes (line_bytes l.text) l.num h
            >>= (λ h1. ok (h1, (record e { empty = e.empty ++ l ∷ [] }, s)))
      ]
      | false ↦ map_flow (beside (record { empty = []; text = true })) (
          release_empty next e.empty (h, s)
          >>= (λ x. elim (matches_any ignore l.text) [ true ↦ ok x | false ↦ next l x ]))
    ]

abbrev pub unread_span : Line → UnreadSpan
unread_span l = record { line = l.num; column = 0; text = truncate l.text 80 }

module _ {ℓ} {S : Type ℓ} {H : Type 0} where
  -- `leftOut`
  unfoldable pub left_out : Line → H × (Picking × S) → Flow (H × (Picking × S))
  left_out l x = if blank l.text then ok x else err (left_unread (unread_span l))

  -- a line that `select.after` or `select.until` matched; the test says whether it describes all of it
  abbrev pub matched : (Text → Bool) → Line → H × (Picking × S) → Flow (H × (Picking × S))
  matched whole l x = elim (whole l.text) [ true ↦ ok x | false ↦ left_out l x ]

  -- past `after` and `until`
  unfoldable pub feed_counted : Select → Sink H S → Sink H (Picking × S)
  unfolding left_out
  feed_counted sel next l (h, (p, s)) = elim (ltb p.skipped sel.skip) [
    | true ↦ left_out l (h, (record p { skipped = suc p.skipped }, s))
    | false ↦ elim (ltb 0 sel.limit && leb sel.limit p.taken) [
      | true ↦ left_out l (h, (p, s))
      | false ↦ map_flow (beside (record p { taken = suc p.taken })) (next l (h, s))
    ]
  ]

  unfoldable pub feed_until : Select → Sink H S → Sink H (Picking × S)
  unfolding feed_counted left_out
  feed_until sel next l (h, (p, s)) = elim sel.until [
    | none ↦ feed_counted sel next l (h, (p, s))
    | some re ↦ elim (re l.text) [
      | true ↦ matched sel.end l (h, (record p { closed = true }, s))
      | false ↦ feed_counted sel next l (h, (p, s))
    ]
  ]

  unfoldable pub feed_selected : Select → Sink H S → Sink H (Picking × S)
  unfolding feed_until left_out
  feed_selected sel next l (h, (p, s)) = elim p.closed [
    | true ↦ left_out l (h, (p, s))
    | false ↦ elim p.started [
      | true ↦ feed_until sel next l (h, (p, s))
      | false ↦ elim sel.after [
        | none ↦ feed_until sel next l (h, (p, s))
        | some re ↦ elim (re l.text) [
          | true ↦ matched sel.heading l (h, (record p { started = true }, s))
          | false ↦ left_out l (h, (p, s))
        ]
      ]
    ]
  ]
