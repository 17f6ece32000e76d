-- ===== src/Stream/Released.antt =====
-- `feedFolded` of pkg/engine/stream.go: the lines it hands on.
use jsonize.Prelude.{
  ◌≡◌, refl, ap, ◌∙◌, sym, Bool, true, false, not, ◌||◌, List, [], ◌∷◌, ◌++◌, Text, Bool-cases, inl,
  inr, append_assoc, append-nil, fun_ext,
}
use jsonize.Engine.Line.{Line}
use jsonize.Engine.Prepare.{edge_blank, prepare}
use jsonize.Stream.Flow.{
  ok, ◌>>=◌, map_flow, unbounded, Sink, feed_all, bind-ok, feed_all-append, bind-map_flow,
}
use jsonize.Stream.Stages.{Edges, matches_any, release_empty, feed_folded, beside, inside}
use jsonize.Stream.Prepared.{kept, handed, handed-prepare}
use jsonize.Stream.Whole.{new_edges}

module _ {ℓ} {S : Type ℓ} (ignore : List (Text → Bool)) (skip : Bool)
    (next : Sink (Unit {0}) S) where
  abbrev state : List Line → Bool → Edges
  state es text = record { empty = es; text = text }

  release_empty-kept :
      (es : List Line) (x : Unit {0} × S)
      → release_empty unbounded ignore skip next es x ≡ feed_all next (kept ignore false es) x
  unfolding release_empty feed_all kept
  release_empty-kept [] x = refl
  release_empty-kept (e ∷ es) x = elim (Bool-cases (matches_any ignore e.text)) [
    | inl m ↦ rw (m, release_empty) (release_empty-kept es x)
    | inr m ↦ rw (m, release_empty) (ap (λ k. next e x >>= k) (fun_ext (release_empty-kept es)))
  ]

  -- the line that lets the empty ones go, behind them
  let_go :
      (es : List Line) (l : Line) (x : Unit {0} × S)
      → (release_empty unbounded ignore skip next es x
          >>= (λ y. elim (matches_any ignore l.text) [ true ↦ ok y | false ↦ next l y ]))
        ≡ feed_all next (kept ignore false es ++ kept ignore false (l ∷ [])) x
  unfolding kept feed_all
  let_go es l x = elim (Bool-cases (matches_any ignore l.text)) [
    | inl m ↦ rw m (
        bind-ok (release_empty unbounded ignore skip next es x)
        ∙ release_empty-kept es x
        ∙ ap (λ t. feed_all next t x) (sym (append-nil (kept ignore false es))))
    | inr m ↦ rw m (
        ap (λ r. r >>= next l) (release_empty-kept es x)
        ∙ ap (λ k. feed_all next (kept ignore false es) x >>= k)
            (fun_ext (λ y. sym (bind-ok (next l y))))
        ∙ sym (feed_all-append next (kept ignore false es) (l ∷ []) x))
  ]

  feed_folded-handed :
      (ls es : List Line) (text : Bool) (s : S)
      → map_flow inside
          (feed_all (feed_folded unbounded ignore skip next) ls (tt, (state es text, s)))
        ≡ feed_all next (handed ignore skip es text ls) (tt, s)
  unfolding feed_all handed feed_folded
  feed_folded-handed [] es text s = refl
  feed_folded-handed (l ∷ ls) es text s = elim (Bool-cases (edge_blank l.text skip)) [
    | inl e ↦ elim (Bool-cases (skip || not text)) [
      | inl f ↦ rw (e, f, feed_folded) (feed_folded-handed ls es text s)
      | inr f ↦ rw (e, f, feed_folded) (feed_folded-handed ls (es ++ l ∷ []) text s)
    ]
    | inr e ↦
        let kept_now = kept ignore false es ++ kept ignore false (l ∷ []) in
        let after = handed ignore skip [] true ls in
        rw (e, feed_folded)
          (bind-map_flow
              (release_empty unbounded ignore skip next es (tt, s)
                >>= (λ x. elim (matches_any ignore l.text) [ true ↦ ok x | false ↦ next l x ]))
              (beside (state [] true)) (feed_all (feed_folded unbounded ignore skip next) ls) inside
              (feed_all next after) (λ x. feed_folded-handed ls [] true x.1)
            ∙ ap (λ r. r >>= feed_all next after) (let_go es l (tt, s))
            ∙ sym (feed_all-append next kept_now after (tt, s))
            ∙ ap (λ t. feed_all next t (tt, s))
                (append_assoc (kept ignore false es) (kept ignore false (l ∷ [])) after))
  ]

  -- Without a limit, the stage that drops lines hands on the lines that the whole reading keeps, to the
  -- same effect.
  pub feed_folded-prepare :
      (ls : List Line) (s : S)
      → map_flow inside (feed_all (feed_folded unbounded ignore skip next) ls (tt, (new_edges, s)))
        ≡ feed_all next (prepare skip ignore ls).kept (tt, s)
  feed_folded-prepare ls s =
      feed_folded-handed ls [] false s
      ∙ ap (λ t. feed_all next t (tt, s)) (handed-prepare ignore skip ls)
