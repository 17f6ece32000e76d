-- ===== src/Schema/Compat.antt =====
-- internal/schema/compat.go against internal/schema/validate.go, from `Compare` to `Validate`: what a
-- report of no breaking change promises.
use jsonize.Prelude.{
  inl, inr, ◌≡◌, refl, arith, ℕ, true, false, List, [], ◌∷◌, none, some, Text, codes, Option-cases,
}
use jsonize.Schema.{Schema}
use jsonize.Schema.Compare.{
  Change, Comparer, compare, is_seen, compare_schemas, breaking_changes, sort_changes, put_change,
}
use jsonize.Schema.Validate.{Value, root, validate_document}
use jsonize.Schema.Shape.{well_formed}
use jsonize.Schema.Growth.{calm, Below-refl, Outcome, IsCompared, compare-Good}
use jsonize.Schema.Sound.{fits}

breaking-put_change :
    (c : Change) (cs : List Change)
    → breaking_changes (put_change c cs) ≡ []
    → (c.breaking ≡ false) × (breaking_changes cs ≡ [])
unfolding put_change breaking_changes
breaking-put_change c [] h = ground arith
breaking-put_change c (d ∷ ds) h = ground (arith, breaking-put_change c ds)

calm-sort_changes : (cs : List Change) → breaking_changes (sort_changes cs) ≡ [] → calm cs ≡ true
unfolding sort_changes calm breaking_changes
calm-sort_changes [] h = refl
calm-sort_changes (c ∷ cs) h =
    let parts = breaking-put_change c (sort_changes cs) h in
    rw parts.0 (calm-sort_changes cs parts.1)

abbrev start : Comparer
start = record { out = []; seen = [] }

start_closed :
    (prev next : Schema) (c : Comparer)
    → Outcome prev next start c
    → (p n : Text) → is_seen p n c.seen ≡ true
    → IsCompared prev next p n c
unfolding is_seen
start_closed prev next c o p n h = elim (o.explained p n h) [
  | inl bad ↦ absurd (let b : false ≡ true = bad in cc)
  | inr e ↦ e
]

-- Where the comparison of two well-formed schemas ends and reports no breaking change, every document
-- that the old version accepts is accepted by the new one.
pub validate_document-compare_schemas :
    (fuel : ℕ) (prev next : Schema) (changes : List Change) (v : Value)
    → well_formed prev ≡ true
    → well_formed next ≡ true
    → compare_schemas fuel prev next ≡ some changes
    → breaking_changes changes ≡ []
    → validate_document prev v ≡ []
    → validate_document next v ≡ []
unfolding validate_document compare_schemas well_formed
validate_document-compare_schemas fuel prev next changes v hp hn run calm_changes h =
    elim (Option-cases (compare prev next fuel prev next (codes "$") start)) [
      | inl e ↦ absurd (let bad : none ≡ some changes = (rw (e, compare_schemas) at run) in cc)
      | inr (c, e) ↦
          let sorted : some (sort_changes c.out) ≡ some changes =
            (rw (e, compare_schemas) at run) in
          let eq : sort_changes c.out ≡ changes = cc in
          let quiet = calm-sort_changes c.out (rw eq calm_changes) in
          let outcome = compare-Good prev next fuel prev next (codes "$") start c e in
          fits prev next c quiet (start_closed prev next c outcome) (ground arith) (ground arith) v
            prev next root root (ground arith, ground arith)
            (record {
              fuel = fuel;
              path = codes "$";
              ran = record { before = start; after = c; run = e; reached = Below-refl c };
            })
            h
    ]
