-- ===== src/Schema/Growth.antt =====
-- What a comparison of schemas leaves: the changes and the pairs of references only grow, and every
-- pair that was added was compared.
use jsonize.Prelude.{
  ◌⊎◌, inl, inr, sym, ◌≡◌, refl, arith, ℕ, zero, suc, Bool, true, false, not, ◌&&◌, ◌||◌, List, [],
  ◌∷◌, ◌++◌, none, some, Text, same_iff, if◌then◌else◌, Bool-cases, Option-cases,
}
use jsonize.Schema.{
  Schema, schema, Properties, unset, end, property, Subschema, absent, present, ref, properties,
  additional_properties, items, prop,
}
use jsonize.Schema.Compare.{
  Change, Comparer, Step, skip, ◌>>◌, add, is_empty, resolve, compare_enum, Visit, compare_items,
  unnamed, compare_required, compare_prev, new_property, compare_next, each, compare_rest,
  compare_object, compare_contents, compare_types, is_seen, follow, visit, compare, Kind, Detail,
}

-- No change is breaking.
unfoldable pub calm : List Change → Bool
calm [] = true
calm (c ∷ cs) = not c.breaking && calm cs

pub calm-append :
    (xs ys : List Change) → calm (xs ++ ys) ≡ true → (calm xs ≡ true) × (calm ys ≡ true)
unfolding calm
calm-append [] ys h = (refl, h)
calm-append (x ∷ xs) ys h = ground (arith, calm-append xs ys)

pub record Below (a b : Comparer) : Type 0 where
  pub calm_before : calm b.out ≡ true → calm a.out ≡ true
  pub kept : (p n : Text) → is_seen p n a.seen ≡ true → is_seen p n b.seen ≡ true

pub Below-refl : (a : Comparer) → Below a a
Below-refl a = record { calm_before = λ h. h; kept = λ p n h. h }

pub Below-trans : {a b c : Comparer} → Below a b → Below b c → Below a c
Below-trans x y = record {
  calm_before = λ h. x.calm_before (y.calm_before h);
  kept = λ p n h. y.kept p n (x.kept p n h);
}

pub resolve-ref : (top s : Schema) → (resolve top s).1 ≡ ref s
unfolding resolve
resolve-ref top (schema [] _ _ _ _ _ _ _) = refl
resolve-ref top (schema (c ∷ r) _ _ _ _ _ _ _) = ground arith

is_seen-cons :
    (q m p n : Text) (seen : List (Text × Text))
    → is_seen q m ((p, n) ∷ seen) ≡ true
    → ((q ≡ p) × (m ≡ n)) ⊎ (is_seen q m seen ≡ true)
unfolding is_seen
is_seen-cons q m p n seen h = ground (arith, same_iff p q, same_iff n m)

module _ (prev_root next_root : Schema) where
  -- A pair of references whose schemas were compared in a run that the changes found stem from.
  pub record IsCompared (p n : Text) (c : Comparer) : Type 0 where
    pub prev : Schema
    pub next : Schema
    pub fuel : ℕ
    pub path : Text
    pub before : Comparer
    pub after : Comparer
    pub prev_ref : ref prev ≡ p
    pub next_ref : ref next ≡ n
    pub run :
        compare_types
          (compare prev_root next_root fuel)
          (resolve prev_root prev).0
          (resolve next_root next).0
          path
          before
        ≡ some after
    pub reached : Below after c

  pub record Outcome (a b : Comparer) : Type 0 where
    pub below : Below a b
    pub explained :
        (p n : Text) → is_seen p n b.seen ≡ true → (is_seen p n a.seen ≡ true) ⊎ IsCompared p n b

  IsCompared-Below : {p n : Text} {a b : Comparer} → IsCompared p n a → Below a b → IsCompared p n b
  IsCompared-Below e h = record {
    prev = e.prev;
    next = e.next;
    fuel = e.fuel;
    path = e.path;
    before = e.before;
    after = e.after;
    prev_ref = e.prev_ref;
    next_ref = e.next_ref;
    run = e.run;
    reached = Below-trans e.reached h;
  }

  pub Outcome-refl : (a : Comparer) → Outcome a a
  Outcome-refl a = record { below = Below-refl a; explained = λ p n h. inl h }

  pub Outcome-trans : {a b c : Comparer} → Outcome a b → Outcome b c → Outcome a c
  Outcome-trans x y = record {
    below = Below-trans x.below y.below;
    explained = λ p n h. elim (y.explained p n h) [
      | inr e ↦ inr e
      | inl k ↦ elim (x.explained p n k) [
        | inl m ↦ inl m
        | inr e ↦ inr (IsCompared-Below e y.below)
      ]
    ];
  }

  abbrev pub Good : Step → Type 0
  Good f = (a b : Comparer) → f a ≡ some b → Outcome a b

  Outcome-eq : {a b c : Comparer} → Outcome a b → some b ≡ some c → Outcome a c
  Outcome-eq {a} {b} {c} x e = let k : b ≡ c = cc in rw (← k) x

  pub skip-Good : Good skip
  skip-Good a b h = Outcome-eq (Outcome-refl a) h

  pub >>-Good : {f g : Step} → Good f → Good g → Good (f >> g)
  unfolding ◌>>◌
  >>-Good {f} {g} x y a b h = elim (Option-cases (f a)) [
    | inl e ↦ absurd (let bad : none ≡ some b = (rw (e, ◌>>◌) at h) in cc)
    | inr (c, e) ↦ Outcome-trans (x a c e) (y c b (rw (e, ◌>>◌) at h))
  ]

  pub if-Good : (t : Bool) {f g : Step} → Good f → Good g → Good (if t then f else g)
  if-Good true x y = x
  if-Good false x y = y

  pub add-Good : (path : Text) (k : Kind) (d : Detail) (t : Bool) → Good (add path k d t)
  unfolding add
  add-Good path k d t a b h =
      Outcome-eq
        (record {
          below = record { calm_before = λ e. (calm-append a.out _ e).0; kept = λ p n e. e };
          explained = λ p n e. inl e;
        })
        h

  pub each-Good :
      (body : Text → Schema → Step)
      → ((name : Text) (s : Schema) → Good (body name s))
      → (ps : Properties) → Good (each body ps)
  unfolding each
  each-Good body x unset = skip-Good
  each-Good body x end = skip-Good
  each-Good body x (property name s rest) = >>-Good (x name s) (each-Good body x rest)

  pub compare_enum-Good : (prev next : List Text) (path : Text) → Good (compare_enum prev next path)
  unfolding compare_enum
  compare_enum-Good prev next path = search (skip-Good, add-Good, if-Good, >>-Good)

  module _ (rec : Visit) (good : (p n : Schema) (path : Text) → Good (rec p n path)) where
    pub items-Good : (p n : Subschema) (path : Text) → Good (compare_items rec p n path)
    unfolding compare_items
    items-Good absent absent path = skip-Good
    items-Good absent (present _) path = add-Good _ _ _ _
    items-Good (present _) absent path = add-Good _ _ _ _
    items-Good (present p) (present n) path = good p n _

    pub rest-Good : (p n : Subschema) (path : Text) → Good (compare_rest rec p n path)
    unfolding compare_rest
    rest-Good absent absent path = skip-Good
    rest-Good absent (present _) path = add-Good _ _ _ _
    rest-Good (present _) absent path = add-Good _ _ _ _
    rest-Good (present p) (present n) path = good p n _

    pub unnamed-Good :
        (t : Bool) (s : Schema) (a : Subschema) (path : Text) → Good (unnamed rec t s a path)
    unfolding unnamed
    unnamed-Good t s absent path = add-Good _ _ _ _
    unnamed-Good t s (present a) path =
        >>-Good (if-Good t (add-Good _ _ _ _) skip-Good) (good s a path)

    pub required-Good : (t u : Bool) (path : Text) → Good (compare_required t u path)
    unfolding compare_required
    required-Good true false path = add-Good _ _ _ _
    required-Good false true path = add-Good _ _ _ _
    required-Good true true path = skip-Good
    required-Good false false path = skip-Good

    pub prev-Good :
        (prev next : Schema) (path name : Text) (s : Schema)
        → Good (compare_prev rec prev next path name s)
    unfolding compare_prev
    prev-Good prev next path name s = elim (Option-cases (prop next name)) [
      | inl e ↦ rw (e, compare_prev) (unnamed-Good _ s _ _)
      | inr (sub, e) ↦ rw (e, compare_prev) (>>-Good (required-Good _ _ _) (good s sub _))
    ]

    pub new_property-Good :
        (t : Bool) (s : Schema) (a : Subschema) (path : Text) → Good (new_property rec t s a path)
    unfolding new_property
    new_property-Good t s absent path = if-Good t (add-Good _ _ _ _) (add-Good _ _ _ _)
    new_property-Good t s (present a) path =
        >>-Good (if-Good t (add-Good _ _ _ _) skip-Good) (good a s path)

    pub next-Good :
        (prev next : Schema) (path name : Text) (s : Schema)
        → Good (compare_next rec prev next path name s)
    unfolding compare_next
    next-Good prev next path name s = elim (Option-cases (prop prev name)) [
      | inr (sub, e) ↦ rw (e, compare_next) skip-Good
      | inl e ↦ rw (e, compare_next) (new_property-Good _ s _ _)
    ]

    pub loops-Good :
        (prev next : Schema) (path : Text)
        → Good (
            each (compare_next rec prev next path) (properties next)
            >> compare_rest rec (additional_properties prev) (additional_properties next) path)
    loops-Good prev next path =
        >>-Good (each-Good _ (next-Good prev next path) (properties next)) (rest-Good _ _ path)

    pub prevs-Good :
        (prev next : Schema) (path : Text) (ps : Properties)
        → Good (each (compare_prev rec prev next path) ps)
    prevs-Good prev next path ps = each-Good _ (prev-Good prev next path) ps

    pub nexts-Good :
        (prev next : Schema) (path : Text) (ps : Properties)
        → Good (each (compare_next rec prev next path) ps)
    nexts-Good prev next path ps = each-Good _ (next-Good prev next path) ps

    pub object-Good : (prev next : Schema) (path : Text) → Good (compare_object rec prev next path)
    unfolding compare_object
    object-Good prev next path =
        >>-Good (prevs-Good prev next path (properties prev)) (loops-Good prev next path)

    pub behind_enum-Good :
        (prev next : Schema) (path : Text)
        → Good
            (compare_items rec (items prev) (items next) path >> compare_object rec prev next path)
    behind_enum-Good prev next path = >>-Good (items-Good _ _ path) (object-Good prev next path)

    pub contents-Good :
        (prev next : Schema) (path : Text) → Good (compare_contents rec prev next path)
    unfolding compare_contents
    contents-Good prev next path =
        >>-Good (compare_enum-Good _ _ path) (behind_enum-Good prev next path)

    pub types-Good : (prev next : Schema) (path : Text) → Good (compare_types rec prev next path)
    unfolding compare_types
    types-Good prev next path =
        if-Good _ (contents-Good prev next path)
          (>>-Good (add-Good _ _ _ _) (if-Good _ (contents-Good prev next path) skip-Good))

  pub follow-Good :
      (p n : Text) {step : Step}
      → Good step
      → ((a b : Comparer) → step a ≡ some b → IsCompared p n b)
      → Good (follow p n step)
  unfolding follow is_seen
  follow-Good p n {step} good compared a b h = elim (Bool-cases (is_empty p || is_empty n)) [
    | inl e ↦ good a b (rw e at h)
    | inr e ↦ elim (Bool-cases (is_seen p n a.seen)) [
      | inl k ↦ Outcome-eq (Outcome-refl a) (rw (e, k) at h)
      | inr k ↦
          let a' : Comparer = record a { seen = (p, n) ∷ a.seen } in
          let run : step a' ≡ some b = (rw (e, k) at h) in
          let o = good a' b run in
          record {
            below = record {
              calm_before = o.below.calm_before;
              kept = λ q m e. o.below.kept q m (ground arith);
            };
            explained = λ q m e. elim (o.explained q m e) [
              | inr x ↦ inr x
              | inl x ↦ elim (is_seen-cons q m p n a.seen x) [
                | inr y ↦ inl y
                | inl (eq, em) ↦ inr (rw (eq, em) (compared a' b run))
              ]
            ];
          }
    ]
  ]

  pub compare-Good :
      (fuel : ℕ) (prev next : Schema) (path : Text)
      → Good (compare prev_root next_root fuel prev next path)
  unfolding compare visit
  compare-Good zero prev next path = λ a b h. absurd (let bad : none ≡ some b = h in cc)
  compare-Good (suc fuel) prev next path =
      let p = resolve prev_root prev in
      let n = resolve next_root next in
      follow-Good p.1 n.1 (types-Good _ (compare-Good fuel) p.0 n.0 path) (λ a b run. record {
        prev = prev;
        next = next;
        fuel = fuel;
        path = path;
        before = a;
        after = b;
        prev_ref = sym (resolve-ref prev_root prev);
        next_ref = sym (resolve-ref next_root next);
        run = run;
        reached = Below-refl b;
      })
