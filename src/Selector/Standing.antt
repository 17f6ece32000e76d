-- ===== src/Selector/Standing.antt =====
-- pkg/selector/watch.go, `settledBetween`, against `settle`: a choice that is reported settled is the one
-- made at the end, whatever the definitions still open turn out to be.
use jsonize.Prelude.{
  ◌↔◌, inl, inr, ◌∙◌, sym, subst, ◌≡◌, refl, arith, Bool, true, false, List, [], ◌∷◌, ◌++◌, none,
  some, ◌==◌, ==_iff, if◌then◌else◌, Bool-cases, Option-cases, All,
}
use mathlib.Core.List.{Permᴰ}
use jsonize.Selector.{Entry, is_nil}
use jsonize.Selector.Settle.{settle}
use jsonize.Selector.Best.{LosesTo, Wins, settle-Wins}
use jsonize.Selector.Watch.{settled_between, holds_handle}

-- No two entries have one address.
abbrev pub Distinct : List Entry → Type 0
Distinct [] = Unit
Distinct (e ∷ es) = (holds_handle e.handle es ≡ false) × Distinct es

-- The entries that a verdict keeps.
unfoldable pub kept : (Entry → Bool) → List Entry → List Entry
kept p [] = []
kept p (e ∷ es) = let rest = kept p es in if p e then e ∷ rest else rest

All-kept :
    (b : Entry) (p : Entry → Bool) (es : List Entry)
    → All (LosesTo b) es
    → All (LosesTo b) (kept p es)
unfolding kept
All-kept b p [] a = tt
All-kept b p (e ∷ es) (l, a) = elim (Bool-cases (p e)) [
  | inl y ↦ rw y (l, All-kept b p es a)
  | inr y ↦ rw y (All-kept b p es a)
]

Permᴰ-symm : {l m : List Entry} → Permᴰ l m → Permᴰ m l
Permᴰ-symm Permᴰ.nil = Permᴰ.nil
Permᴰ-symm (Permᴰ.cons e p) = Permᴰ.cons (sym e) (Permᴰ-symm p)
Permᴰ-symm (Permᴰ.swap e f) = Permᴰ.swap (sym f) (sym e)
Permᴰ-symm (Permᴰ.trans p q) = Permᴰ.trans (Permᴰ-symm q) (Permᴰ-symm p)

All-Permᴰ : (b : Entry) {l m : List Entry} → Permᴰ l m → All (LosesTo b) l → All (LosesTo b) m
All-Permᴰ b Permᴰ.nil a = tt
All-Permᴰ b (Permᴰ.cons e p) (l, a) = (subst (LosesTo b) e l, All-Permᴰ b p a)
All-Permᴰ b (Permᴰ.swap e f) (k, (l, a)) = (subst (LosesTo b) f l, (subst (LosesTo b) e k, a))
All-Permᴰ b (Permᴰ.trans p q) a = All-Permᴰ b q (All-Permᴰ b p a)

Wins-Permᴰ : (b : Entry) {l m : List Entry} → Permᴰ l m → Wins b l → Wins b m
Wins-Permᴰ b Permᴰ.nil w = w
Wins-Permᴰ b (Permᴰ.cons e p) (inl (x, a)) = inl (sym e ∙ x, All-Permᴰ b p a)
Wins-Permᴰ b (Permᴰ.cons e p) (inr (l, w)) = inr (subst (LosesTo b) e l, Wins-Permᴰ b p w)
Wins-Permᴰ b (Permᴰ.swap e f) (inl (x, (l, a))) = inr (subst (LosesTo b) f l, inl (sym e ∙ x, a))
Wins-Permᴰ b (Permᴰ.swap e f) (inr (k, inl (x, a))) = inl (sym f ∙ x, (subst (LosesTo b) e k, a))
Wins-Permᴰ b (Permᴰ.swap e f) (inr (k, inr (l, w))) =
    inr (subst (LosesTo b) f l, inr (subst (LosesTo b) e k, w))
Wins-Permᴰ b (Permᴰ.trans p q) w = Wins-Permᴰ b q (Wins-Permᴰ b p w)

-- A definition loses to no other of its own address.
holds_handle-LosesTo : (b : Entry) (es : List Entry) → Wins b es → holds_handle b.handle es ≡ true
unfolding holds_handle
holds_handle-LosesTo b [] w = elim w [ ]
holds_handle-LosesTo b (e ∷ es) (inl (x, a)) =
    let y : (e.handle == b.handle) ≡ true = (rw x (ground arith)) in rw y refl
holds_handle-LosesTo b (e ∷ es) (inr (l, w)) = ground (arith, holds_handle-LosesTo b es w)

All-append-kept :
    (b : Entry) (fits rest : List Entry) (p : Entry → Bool)
    → All (LosesTo b) (fits ++ rest)
    → All (LosesTo b) (fits ++ kept p rest)
All-append-kept b [] rest p a = All-kept b p rest a
All-append-kept b (e ∷ fits) rest p (l, a) = (l, All-append-kept b fits rest p a)

-- The one that wins stands among the first, if its address does.
Wins-first :
    (b : Entry) (fits rest : List Entry) (p : Entry → Bool)
    → Distinct (fits ++ rest)
    → holds_handle b.handle fits ≡ true
    → Wins b (fits ++ rest)
    → Wins b (fits ++ kept p rest)
unfolding holds_handle
Wins-first b [] rest p d h w = absurd (let bad : false ≡ true = h in cc)
Wins-first b (e ∷ fits) rest p (n, d) h (inl (x, a)) = inl (x, All-append-kept b fits rest p a)
Wins-first b (e ∷ fits) rest p (n, d) h (inr (l, w)) = elim (Bool-cases (e.handle == b.handle)) [
  | inl y ↦
      let same_handle : e.handle ≡ b.handle = (==_iff e.handle b.handle).0 y in
      let bad : false ≡ true = sym n ∙ rw same_handle (holds_handle-LosesTo b (fits ++ rest) w) in
      cc
  | inr y ↦ inr (l, Wins-first b fits rest p d (rw y at h) w)
]

settle-same :
    (l m : List Entry) → ((b : Entry) → Wins b l ↔ Wins b m) → (settle l).best ≡ (settle m).best
settle-same l m h = elim (Option-cases (settle l).best) [
  | inr (b, e) ↦ e ∙ sym ((settle-Wins m b).1 ((h b).0 ((settle-Wins l b).0 e)))
  | inl e ↦ elim (Option-cases (settle m).best) [
    | inl u ↦ e ∙ sym u
    | inr (b, u) ↦
        let bad : none ≡ some b = sym e ∙ (settle-Wins l b).1 ((h b).1 ((settle-Wins m b).0 u)) in
        cc
  ]
]

-- Among definitions of distinct handles, a choice that is reported settled stays: whichever of the open
-- definitions come to fit, and in whatever order the definitions that fit are then listed, `settle`
-- chooses the same one.
pub settled_between-settle :
    (fits open_entries matched : List Entry) (p : Entry → Bool)
    → Distinct (fits ++ open_entries)
    → settled_between fits open_entries ≡ true
    → Permᴰ (fits ++ kept p open_entries) matched
    → (settle matched).best ≡ (settle (fits ++ open_entries)).best
unfolding settled_between kept
settled_between-settle fits [] matched p d h q =
    settle-same matched (fits ++ []) (λ b. (Wins-Permᴰ b (Permᴰ-symm q), Wins-Permᴰ b q))
settled_between-settle fits (o ∷ os) matched p d h q = elim (Bool-cases (is_nil fits)) [
  | inl n ↦ absurd (let bad : false ≡ true = (rw (n, settled_between) at h) in cc)
  | inr n ↦ elim (Option-cases (settle (fits ++ o ∷ os)).best) [
    | inl e ↦ absurd (let bad : false ≡ true = (rw (n, e, settled_between) at h) in cc)
    | inr (b, e) ↦
        let held : holds_handle b.handle fits ≡ true = (rw (n, e, settled_between) at h) in
        let won = Wins-first b fits (o ∷ os) p d held ((settle-Wins (fits ++ o ∷ os) b).0 e) in
        (settle-Wins matched b).1 (Wins-Permᴰ b q won) ∙ sym e
  ]
]
