-- ===== src/Schema/Steps.antt =====
-- The steps of a comparison that found no breaking change: what each says of the types and values it
-- compared.
use jsonize.Prelude.{
  ◌⊎◌, inl, inr, sym, ap, subst, ◌≡◌, refl, Bool, true, false, ◌||◌, List, [], ◌∷◌, ◌++◌, Option,
  none, some, Text, same, same_iff, contains, if◌then◌else◌, Bool-cases, Option-cases,
}
use jsonize.Schema.{Schema, Properties, unset, end, property, types, named}
use jsonize.Schema.Types.{same_types}
use jsonize.Schema.Compare.{
  Change, Comparer, Step, follow, is_empty, is_seen, ◌>>◌, add, compare_enum, none_of, Visit, each,
  compare_contents, compare_types, minus, Kind, Detail,
}
use jsonize.Schema.Growth.{
  calm, calm-append, Below, Below-trans, Good, if-Good, skip-Good, add-Good, contents-Good,
  each-Good,
}

minus-contains :
    (k : Text) (a b : List Text) → minus a b ≡ [] → contains k a ≡ true → contains k b ≡ true
unfolding minus contains
minus-contains k [] b h e = absurd (let bad : false ≡ true = e in cc)
minus-contains k (x ∷ a) b h e = elim (Bool-cases (contains x b)) [
  | inl y ↦ elim (Bool-cases (same x k)) [
    | inl z ↦ let eq : x ≡ k = (same_iff x k).0 z in rw (← eq) y
    | inr z ↦ minus-contains k a b (rw y at h) (rw z at e)
  ]
  | inr y ↦ absurd (let bad : x ∷ minus a b ≡ [] = (rw y at h) in cc)
]

none_of→nil : (l : List Text) → none_of l ≡ true → l ≡ []
none_of→nil [] h = refl
none_of→nil (_ ∷ _) h = cc

or_right : (l : List Text) (k : Text) → contains k l ≡ true → (none_of l || contains k l) ≡ true
or_right [] k h = refl
or_right (_ ∷ _) k h = h

outs : Option Comparer → List Change
outs none = []
outs (some c) = c.out

-- The step was made in a run that ends in `final`.
pub record Ran (final : Comparer) (f : Step) : Type 0 where
  pub before : Comparer
  pub after : Comparer
  pub run : f before ≡ some after
  pub reached : Below after final

-- Following two references comes to having met them before, or to the step behind.
pub follow-Ran :
    (final : Comparer) (p n : Text) (step : Step)
    → Ran final (follow p n step)
    → (((is_empty p || is_empty n) ≡ false) × (is_seen p n final.seen ≡ true)) ⊎ Ran final step
unfolding follow
follow-Ran final p n step r = elim (Bool-cases (is_empty p || is_empty n)) [
  | inl e ↦ inr (record {
    before = r.before;
    after = r.after;
    run = rw (e, follow) at r.run;
    reached = r.reached;
  })
  | inr e ↦ elim (Bool-cases (is_seen p n r.before.seen)) [
    | inl k ↦
        let same_state : some r.before ≡ some r.after = (rw (e, k, follow) at r.run) in
        let eq : r.before ≡ r.after = cc in inl (e, r.reached.kept p n (rw (← eq) k))
    | inr k ↦ inr (record {
      before = record r.before { seen = (p, n) ∷ r.before.seen };
      after = r.after;
      run = rw (e, k, follow) at r.run;
      reached = r.reached;
    })
  ]
]

module _ (prev_root next_root : Schema) (final : Comparer) (quiet : calm final.out ≡ true) where
  pub >>-Ran :
      {f g : Step} → Good prev_root next_root g → Ran final (f >> g) → Ran final f × Ran final g
  unfolding ◌>>◌
  >>-Ran {f} {g} good r = elim (Option-cases (f r.before)) [
    | inl e ↦ absurd (let bad : none ≡ some r.after = (rw (e, ◌>>◌) at r.run) in cc)
    | inr (c, e) ↦
        let run : g c ≡ some r.after = (rw (e, ◌>>◌) at r.run) in
        (
          record {
            before = r.before;
            after = c;
            run = e;
            reached = Below-trans (good c r.after run).below r.reached;
          },
          record { before = c; after = r.after; run = run; reached = r.reached },
        )
  ]

  pub add-Ran : (path : Text) (k : Kind) (d : Detail) → Ran final (add path k d true) → ⊥
  unfolding add calm outs
  add-Ran path k d r =
      let same_state : some (record r.before {
        out = r.before.out ++ record { path = path; kind = k; detail = d; breaking = true } ∷ [];
      })
          ≡ some r.after =
        r.run in
      let out : r.before.out ++ record { path = path; kind = k; detail = d; breaking = true } ∷ []
          ≡ r.after.out =
        ap (λ (o : Option Comparer). outs o) same_state in
      let h = r.reached.calm_before quiet in
      let bad : false ≡ true =
        (calm-append r.before.out
          (record { path = path; kind = k; detail = d; breaking = true } ∷ [])
          (subst (λ l. calm l ≡ true) (sym out) h)).1 in
      cc

  -- A step that only a test keeps from reporting a breaking change.
  pub if-Ran :
      (t : Bool) (path : Text) (k : Kind) (d : Detail) (f : Step)
      → Ran final (if t then add path k d true else f)
      → (t ≡ false) × Ran final f
  if-Ran true path k d f r = absurd (add-Ran path k d r)
  if-Ran false path k d f r = (refl, r)

  unless-Ran :
      (t : Bool) (path : Text) (k : Kind) (d : Detail) (f : Step)
      → Ran final (if t then f else add path k d true)
      → t ≡ true
  unless-Ran true path k d f r = refl
  unless-Ran false path k d f r = absurd (add-Ran path k d r)

  pub types-Ran :
      (rec : Visit) (good : (p n : Schema) (path : Text) → Good prev_root next_root (rec p n path))
      (prev next : Schema) (path : Text)
      → Ran final (compare_types rec prev next path)
      → (same_types (types prev) (types next) ≡ true)
        × Ran final (compare_contents rec prev next path)
  unfolding compare_types
  types-Ran rec good prev next path r = elim (Bool-cases (same_types (types prev) (types next))) [
    | inl e ↦ (e, rw (e, compare_types) at r)
    | inr e ↦
        let r' = rw (e, compare_types) at r in
        absurd (
          add-Ran _ _ _
            (>>-Ran (if-Good _ _ _ (contents-Good _ _ rec good prev next path) (skip-Good _ _))
              r').0)
  ]

  pub enum-Ran :
      (prev next : List Text) (path : Text)
      → Ran final (compare_enum prev next path)
      → (k : Text) → (none_of prev || contains k prev) ≡ true
      → (none_of next || contains k next) ≡ true
  unfolding compare_enum
  enum-Ran [] [] path r k h = refl
  enum-Ran [] (_ ∷ _) path r k h = absurd (add-Ran _ _ _ r)
  enum-Ran (_ ∷ _) [] path r k h = refl
  enum-Ran (p ∷ ps) (n ∷ ns) path r k h =
      let kept_values =
        unless-Ran _ _ _ _ _
          (>>-Ran (if-Good _ _ _ (skip-Good _ _) (add-Good _ _ path _ _ true)) r).0 in
      or_right (n ∷ ns) k (minus-contains k (p ∷ ps) (n ∷ ns) (none_of→nil _ kept_values) h)

  -- Every property was compared, by the body of the loop.
  pub each-Ran :
      (body : Text → Schema → Step)
      → ((name : Text) (s : Schema) → Good prev_root next_root (body name s))
      → (ps : Properties) (k : Text) (s : Schema) → Ran final (each body ps)
      → named ps k ≡ some s
      → Ran final (body k s)
  unfolding each named
  each-Ran body good unset k s r e = absurd (let bad : none ≡ some s = e in cc)
  each-Ran body good end k s r e = absurd (let bad : none ≡ some s = e in cc)
  each-Ran body good (property n d rest) k s r e =
      let parts = >>-Ran (each-Good _ _ body good rest) r in
      elim (Bool-cases (same n k)) [
        | inl y ↦
            let en : n ≡ k = (same_iff n k).0 y in
            let ed : d ≡ s = (let x : some d ≡ some s = (rw y at e) in cc) in
            rw (← en, ← ed) parts.0
        | inr y ↦ each-Ran body good rest k s parts.1 (rw y at e)
      ]
