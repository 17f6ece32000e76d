-- ===== src/Stream/Folded.antt =====
-- `feedRaw` of pkg/engine/stream.go against `foldLines` of pkg/engine/engine.go.
use jsonize.Prelude.{
  ◌≡◌, refl, ap, ◌∙◌, sym, Bool, List, [], ◌∷◌, ◌++◌, Option, none, some, Text, Bool-cases, inl,
  inr, append_assoc, append-nil,
}
use jsonize.Space.{blank, trim_space}
use jsonize.Engine.Line.{Line}
use jsonize.Engine.Split.{Split}
use jsonize.Engine.Fold.{join, flush, fold_from, fold_lines}
use jsonize.Stream.Flow.{
  Flow, ok, err, ◌>>=◌, done, unbounded, Sink, feed_all, map_flow-bind, bind-ok,
}
use jsonize.Stream.Stages.{Folding, feed_raw, join_folding, next_folding, release_folding, beside}
use jsonize.Stream.Whole.{new_folding}

abbrev prefixed : List Line → Split (List Line) → Split (List Line)
prefixed out (Split.ok xs) = Split.ok (out ++ xs)
prefixed out (Split.err e) = Split.err e

prefixed-append :
    (a b : List Line) (r : Split (List Line)) → prefixed (a ++ b) r ≡ prefixed a (prefixed b r)
prefixed-append a b (Split.ok xs) = ap Split.ok (append_assoc a b xs)
prefixed-append a b (Split.err e) = refl

flush-out :
    (out : List Line) (last : Option (Line × List Text)) → flush out last ≡ out ++ flush [] last
unfolding flush
flush-out out none = sym (append-nil out)
flush-out out (some (l, ps)) = refl

-- the line held is put behind the others
released :
    (m : Text → Bool) (l : Line) (ls out : List Line) (last : Option (Line × List Text))
    → ((o : List Line)
        → fold_from m ls o (some (l, l.text ∷ []))
          ≡ prefixed o (fold_from m ls [] (some (l, l.text ∷ []))))
    → fold_from m ls (flush out last) (some (l, l.text ∷ []))
      ≡ prefixed out (fold_from m ls (flush [] last) (some (l, l.text ∷ [])))
released m l ls out last h =
    let rest = fold_from m ls [] (some (l, l.text ∷ [])) in
    h (flush out last)
    ∙ ap (λ o. prefixed o rest) (flush-out out last)
    ∙ prefixed-append out (flush [] last) rest
    ∙ ap (prefixed out) (sym (h (flush [] last)))

fold_from-out :
    (m : Text → Bool) (ls out : List Line) (last : Option (Line × List Text))
    → fold_from m ls out last ≡ prefixed out (fold_from m ls [] last)
unfolding fold_from
fold_from-out m [] out last = ap Split.ok (flush-out out last)
fold_from-out m (l ∷ ls) out none = elim (Bool-cases (m l.text)) [
  | inl e ↦ rw (e, fold_from) refl
  | inr e ↦
      rw (e, fold_from)
        (released m l ls out none (λ o. fold_from-out m ls o (some (l, l.text ∷ []))))
]
fold_from-out m (l ∷ ls) out (some (o, ps)) = elim (Bool-cases (m l.text)) [
  | inr e ↦
      rw (e, fold_from)
        (released m l ls out (some (o, ps)) (λ z. fold_from-out m ls z (some (l, l.text ∷ []))))
  | inl e ↦ elim (Bool-cases (blank o.text)) [
    | inl b ↦ rw (e, b, fold_from) refl
    | inr b ↦ rw (e, b, fold_from) (fold_from-out m ls out (some (o, ps ++ trim_space l.text ∷ [])))
  ]
]

abbrev waiting : Line → List Text → Folding
waiting o ps = record { pieces = o.text ∷ ps; num = o.num }

module _ {ℓ} {S : Type ℓ} (next : Sink (Unit {0}) S) where
  abbrev close : Unit {0} × (Folding × S) → Flow (Unit {0} × S)
  close (h, (f, s)) = release_folding unbounded next f (h, s)

  -- what is done with the lines of a result
  abbrev pub after : Split (List Line) → S → Option (Unit {0} × S)
  after (Split.ok ls) s = done (feed_all next ls (tt, s))
  after (Split.err e) s = none

  abbrev and_then : Flow (Unit {0} × S) → (S → Option (Unit {0} × S)) → Option (Unit {0} × S)
  and_then (ok x) k = k x.1
  and_then (err e) k = none

  after-prefixed :
      (p : Line) (r : Split (List Line)) (s : S)
      → after (prefixed (p ∷ []) r) s ≡ and_then (next p (tt, s)) (after r)
  unfolding feed_all
  after-prefixed p (Split.ok ls) s =
      elim (next p (tt, s))
        as (λ t. done (t >>= feed_all next ls) ≡ and_then t (after (Split.ok ls))) [
          | ok x ↦ refl
          | err e ↦ refl
        ]
  after-prefixed p (Split.err e) s =
      elim (next p (tt, s)) as (λ t. none ≡ and_then t (after (Split.err e))) [
        | ok x ↦ refl
        | err e' ↦ refl
      ]

  done-and_then :
      (r : Flow (Unit {0} × S)) (k : Unit {0} × S → Flow (Unit {0} × S))
      (g : S → Option (Unit {0} × S))
      → ((z : S) → done (k (tt, z)) ≡ g z)
      → done (r >>= k) ≡ and_then r g
  done-and_then (ok x) k g h = h x.1
  done-and_then (err e) k g h = refl

module _ {ℓ} {S : Type ℓ} (m : Text → Bool) (next : Sink (Unit {0}) S) where
  -- The line held is `o`, with the continuations joined to it so far.
  folded :
      (ls : List Line) (o : Line) (ps : List Text) (s : S)
      → done
          (feed_all (feed_raw unbounded (some m) next) ls (tt, (waiting o ps, s)) >>= (close next))
        ≡ after next (fold_from m ls [] (some (o, o.text ∷ ps))) s
  unfolding feed_all fold_from flush release_folding feed_raw join_folding next_folding
  folded [] o ps s =
      ap done (sym (bind-ok (next (record o { text = join b' ' (o.text ∷ ps) }) (tt, s))))
  folded (l ∷ ls) o ps s = elim (Bool-cases (m l.text)) [
    | inl e ↦ elim (Bool-cases (blank o.text)) [
      | inl b ↦ rw (e, fold_from, join_folding, b) refl
      | inr b ↦ rw (e, fold_from, join_folding, b) (folded ls o (ps ++ trim_space l.text ∷ []) s)
    ]
    | inr e ↦
        let held = record o { text = join b' ' (o.text ∷ ps) } in
        rw (e, fold_from, next_folding)
          (ap done (
              map_flow-bind (next held (tt, s)) (beside (waiting l []))
                (feed_all (feed_raw unbounded (some m) next) ls) (close next)
                (λ x.
                  feed_all (feed_raw unbounded (some m) next) ls (tt, (waiting l [], x.1))
                  >>= (close next))
                (λ x. refl))
            ∙ done-and_then next (next held (tt, s))
                (λ x.
                  feed_all (feed_raw unbounded (some m) next) ls (tt, (waiting l [], x.1))
                  >>= (close next))
                (after next (fold_from m ls [] (some (l, l.text ∷ [])))) (λ z. folded ls l [] z)
            ∙ sym (after-prefixed next held (fold_from m ls [] (some (l, l.text ∷ []))) s)
            ∙ ap (λ r. after next r s)
                (sym (fold_from-out m ls (held ∷ []) (some (l, l.text ∷ [])))))
  ]

  -- No line is held.
  folded_none :
      (ls : List Line) (s : S)
      → done
          (feed_all (feed_raw unbounded (some m) next) ls (tt, (new_folding, s)) >>= (close next))
        ≡ after next (fold_from m ls [] none) s
  unfolding feed_all fold_from flush release_folding feed_raw join_folding next_folding
  folded_none [] s = refl
  folded_none (l ∷ ls) s = elim (Bool-cases (m l.text)) [
    | inl e ↦ rw (e, fold_from, join_folding) refl
    | inr e ↦ rw (e, fold_from, next_folding) (folded ls l [] s)
  ]

module _ {ℓ} {S : Type ℓ} (next : Sink (Unit {0}) S) where
  passed :
      (ls : List Line) (s : S)
      → (feed_all (feed_raw unbounded none next) ls (tt, (new_folding, s)) >>= close next)
        ≡ feed_all next ls (tt, s)
  unfolding feed_all feed_raw release_folding
  passed [] s = refl
  passed (l ∷ ls) s =
      map_flow-bind (next l (tt, s)) (beside new_folding)
        (feed_all (feed_raw unbounded none next) ls) (close next) (feed_all next ls)
        (λ x. passed ls x.1)

  -- Without a limit, the stage that folds lines hands on the lines that the whole reading folds them
  -- into, to the same effect, and ends where that reading does.
  pub feed_raw-fold_lines :
      (fold : Option (Text → Bool)) (ls : List Line) (s : S)
      → done (feed_all (feed_raw unbounded fold next) ls (tt, (new_folding, s)) >>= close next)
        ≡ after next (fold_lines fold ls) s
  unfolding fold_lines
  feed_raw-fold_lines none ls s = ap done (passed ls s)
  feed_raw-fold_lines (some m) ls s = folded_none m next ls s
