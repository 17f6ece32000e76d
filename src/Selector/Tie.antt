-- ===== src/Selector/Tie.antt =====
-- pkg/selector/selector.go, `breakTie`: what a strictly highest priority among variants of one command
-- comes to.
use jsonize.Prelude.{
  ◌⊎◌, inl, inr, sym, ap, subst, ◌≡◌, ◌<◌, refl, arith, Bool, true, false, List, [], ◌∷◌, none,
  some, Text, same, same_iff, ltb, ◌==◌, Bool-cases, All,
}
use jsonize.Selector.{Entry}
use jsonize.Selector.Settle.{of_command, highest, break_tie}

abbrev pub IsLower : Entry → Entry → Type 0
IsLower b e = e.def.detect.priority < b.def.detect.priority

abbrev pub Tops : Entry → List Entry → Type 0
Tops b [] = ⊥
Tops b (e ∷ es) = ((e ≡ b) × All (IsLower b) es) ⊎ (IsLower b e × Tops b es)

highest-Tops :
    (best : Entry) (tied : Bool) (es : List Entry) (b : Entry)
    → highest best tied es ≡ (b, false)
    → ((tied ≡ false) × (best ≡ b) × All (IsLower b) es) ⊎ (IsLower b best × Tops b es)
unfolding highest
highest-Tops best tied [] b h = inl (ap (λ x. x.1) h, ap (λ x. x.0) h, tt)
highest-Tops best tied (e ∷ es) b h =
    elim (Bool-cases (ltb best.def.detect.priority e.def.detect.priority)) [
      | inl y ↦ elim (highest-Tops e false es b (rw y at h)) [
        | inl (_, eq, a) ↦ inr (rw (← eq) (ground arith), inl (eq, a))
        | inr (l, t) ↦ inr (ground arith, inr (l, t))
      ]
      | inr y ↦ elim (Bool-cases (e.def.detect.priority == best.def.detect.priority)) [
        | inl z ↦ elim (highest-Tops best true es b (rw (y, z) at h)) [
          | inl (bad, _, _) ↦ absurd (let k : true ≡ false = bad in cc)
          | inr (l, t) ↦ inr (l, inr (ground arith, t))
        ]
        | inr z ↦ elim (highest-Tops best tied es b (rw (y, z) at h)) [
          | inl (f, eq, a) ↦ inl (f, eq, (rw (← eq) (ground arith), a))
          | inr (l, t) ↦ inr (l, inr (ground arith, t))
        ]
      ]
    ]

lower-highest :
    (best : Entry) (tied : Bool) (es : List Entry)
    → All (IsLower best) es
    → highest best tied es ≡ (best, tied)
unfolding highest
lower-highest best tied [] a = refl
lower-highest best tied (e ∷ es) (l, a) =
    let y : ltb best.def.detect.priority e.def.detect.priority ≡ false = ground arith in
    let z : (e.def.detect.priority == best.def.detect.priority) ≡ false = ground arith in
    rw (y, z) (lower-highest best tied es a)

Tops-highest :
    (best : Entry) (tied : Bool) (es : List Entry) (b : Entry)
    → IsLower b best
    → Tops b es
    → highest best tied es ≡ (b, false)
unfolding highest
Tops-highest best tied [] b l t = elim t [ ]
Tops-highest best tied (e ∷ es) b l (inl (eq, a)) =
    let y : ltb best.def.detect.priority e.def.detect.priority ≡ true = (rw eq (ground arith)) in
    rw (y, eq) (lower-highest b false es a)
Tops-highest best tied (e ∷ es) b l (inr (m, t)) =
    elim (Bool-cases (ltb best.def.detect.priority e.def.detect.priority)) [
      | inl y ↦ rw y (Tops-highest e false es b m t)
      | inr y ↦ elim (Bool-cases (e.def.detect.priority == best.def.detect.priority)) [
        | inl z ↦ rw (y, z) (Tops-highest best true es b l t)
        | inr z ↦ rw (y, z) (Tops-highest best tied es b l t)
      ]
    ]

abbrev pub HasCommand : Text → Entry → Type 0
HasCommand c e = e.def.command ≡ c

of_command-All : (c : Text) (es : List Entry) → of_command c es ≡ true → All (HasCommand c) es
unfolding of_command
of_command-All c [] h = tt
of_command-All c (e ∷ es) h = elim (Bool-cases (same e.def.command c)) [
  | inl y ↦ ((same_iff e.def.command c).0 y, of_command-All c es (rw y at h))
  | inr y ↦ absurd (let bad : false ≡ true = (rw y at h) in cc)
]

All-of_command : (c : Text) (es : List Entry) → All (HasCommand c) es → of_command c es ≡ true
unfolding of_command
All-of_command c [] h = refl
All-of_command c (e ∷ es) (k, h) = rw ((same_iff e.def.command c).1 k) (All-of_command c es h)

first_Tops :
    (e : Entry) (es : List Entry) (b : Entry)
    → ((false ≡ false) × (e ≡ b) × All (IsLower b) es) ⊎ (IsLower b e × Tops b es)
    → Tops b (e ∷ es)
first_Tops e es b (inl (_, eq, a)) = inl (eq, a)
first_Tops e es b (inr t) = inr t

Tops-command :
    (c : Text) (es : List Entry) (b : Entry) → Tops b es → All (HasCommand c) es → b.def.command ≡ c
Tops-command c [] b t h = elim t [ ]
Tops-command c (e ∷ es) b (inl (eq, a)) (k, h) = rw (← eq) k
Tops-command c (e ∷ es) b (inr (l, t)) (k, h) = Tops-command c es b t h

-- Breaking a tie finds the one entry that the others are lower variants of.
pub break_tie-Tops :
    (es : List Entry) (b : Entry)
    → break_tie es ≡ some b
    → Tops b es × All (HasCommand b.def.command) es
unfolding break_tie
break_tie-Tops [] b h = absurd (let bad : none ≡ some b = h in cc)
break_tie-Tops (e ∷ es) b h = elim (Bool-cases (of_command e.def.command es)) [
  | inr y ↦ absurd (let bad : none ≡ some b = (rw y at h) in cc)
  | inl y ↦ elim (Bool-cases (highest e false es).1) [
    | inl z ↦ absurd (let bad : none ≡ some b = (rw (y, z) at h) in cc)
    | inr z ↦
        let same_best : some (highest e false es).0 ≡ some b = (rw (y, z) at h) in
        let eb : (highest e false es).0 ≡ b = cc in
        let pair : highest e false es ≡ (b, false) = λ i. (eb i, z i) in
        let commands : All (HasCommand e.def.command) (e ∷ es) =
          (refl, of_command-All e.def.command es y) in
        let tops = first_Tops e es b (highest-Tops e false es b pair) in
        (
          tops,
          subst (λ c. All (HasCommand c) (e ∷ es))
              (sym (Tops-command e.def.command (e ∷ es) b tops commands)) commands,
        )
  ]
]

pub Tops-break_tie :
    (es : List Entry) (b : Entry)
    → Tops b es
    → All (HasCommand b.def.command) es
    → break_tie es ≡ some b
unfolding break_tie
Tops-break_tie [] b t c = elim t [ ]
Tops-break_tie (e ∷ es) b (inl (eq, a)) (c, cs) =
    let o : of_command e.def.command es ≡ true =
      All-of_command e.def.command es (subst (λ k. All (HasCommand k) es) (sym c) cs) in
    let t : highest e false es ≡ (b, false) = (rw eq (lower-highest b false es a)) in rw (o, t)
Tops-break_tie (e ∷ es) b (inr (l, t)) (c, cs) =
    let o : of_command e.def.command es ≡ true =
      All-of_command e.def.command es (subst (λ k. All (HasCommand k) es) (sym c) cs) in
    rw (o, Tops-highest e false es b l t)
