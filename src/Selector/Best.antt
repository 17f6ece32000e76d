-- ===== src/Selector/Best.antt =====
-- pkg/selector/selector.go: the definition that `settle` chooses is the one that every other of those
-- that fit loses to, by the layering or by its priority.
use jsonize.Prelude.{
  ◌⊎◌, ◌↔◌, inl, inr, ◌∙◌, sym, subst, ◌≡◌, ◌≤◌, ◌<◌, refl, arith, ℕ, true, false, List, [], ◌∷◌,
  none, some, ltb, ◌==◌, ==_iff, if◌then◌else◌, Bool-cases, Option-cases, All,
}
use jsonize.Selector.{Entry}
use jsonize.Selector.Tie.{IsLower, Tops, HasCommand, break_tie-Tops, Tops-break_tie}
use jsonize.Selector.Settle.{
  least_precedence, of_precedence, most_preferred, break_tie, settle_among, settle,
}

-- `e` loses to `b`: it comes from a later registry, or is a variant of the same command, of the same
-- registry, with a lower priority.
abbrev pub LosesTo : Entry → Entry → Type 0
LosesTo b e =
    (b.precedence < e.precedence)
    ⊎ ((b.precedence ≡ e.precedence)
        × (e.def.command ≡ b.def.command)
        × (e.def.detect.priority < b.def.detect.priority))

-- One of the entries is `b`, and each of the others loses to it.
abbrev pub Wins : Entry → List Entry → Type 0
Wins b [] = ⊥
Wins b (e ∷ es) = ((e ≡ b) × All (LosesTo b) es) ⊎ (LosesTo b e × Wins b es)

abbrev AtLeast : ℕ → Entry → Type 0
AtLeast m e = m ≤ e.precedence

lower-LosesTo :
    (m : ℕ) (es : List Entry) (b : Entry)
    → All (AtLeast m) es
    → b.precedence ≡ m
    → All (IsLower b) (of_precedence m es)
    → All (HasCommand b.def.command) (of_precedence m es)
    → All (LosesTo b) es
unfolding of_precedence
lower-LosesTo m [] b a p low c = tt
lower-LosesTo m (e ∷ es) b (l, a) p low c = elim (Bool-cases (e.precedence == m)) [
  | inl y ↦
      let low' : All (IsLower b) (e ∷ of_precedence m es) = (rw y at low) in
      let c' : All (HasCommand b.def.command) (e ∷ of_precedence m es) = (rw y at c) in
      let pe : b.precedence ≡ e.precedence = ground arith in
      (inr (pe, c'.0, low'.0), lower-LosesTo m es b a p low'.1 c'.1)
  | inr y ↦ (inl (ground arith), lower-LosesTo m es b a p (rw y at low) (rw y at c))
]

of_precedence-IsLower :
    (es : List Entry) (b : Entry)
    → All (LosesTo b) es
    → All (IsLower b) (of_precedence b.precedence es)
      × All (HasCommand b.def.command) (of_precedence b.precedence es)
unfolding of_precedence
of_precedence-IsLower [] b a = (tt, tt)
of_precedence-IsLower (e ∷ es) b (inl l, a) =
    let y : (e.precedence == b.precedence) ≡ false = ground arith in
    rw y (of_precedence-IsLower es b a)
of_precedence-IsLower (e ∷ es) b (inr (p, c, l), a) =
    let y : (e.precedence == b.precedence) ≡ true = ground arith in
    let rest = of_precedence-IsLower es b a in rw y ((l, rest.0), (c, rest.1))

-- Among the entries of the earliest registry the winner tops the others.
of_precedence-Wins :
    (m : ℕ) (es : List Entry) (b : Entry)
    → All (AtLeast m) es
    → b.precedence ≡ m
    → Tops b (of_precedence m es)
    → All (HasCommand b.def.command) (of_precedence m es)
    → Wins b es
unfolding of_precedence
of_precedence-Wins m [] b a p t c = t
of_precedence-Wins m (e ∷ es) b (l, a) p t c = elim (Bool-cases (e.precedence == m)) [
  | inl y ↦
      let tops : Tops b (e ∷ of_precedence m es) = (rw y at t) in
      let commands : All (HasCommand b.def.command) (e ∷ of_precedence m es) = (rw y at c) in
      let pe : b.precedence ≡ e.precedence = ground arith in
      elim tops [
        | inl (eq, low) ↦ inl (eq, lower-LosesTo m es b a p low commands.1)
        | inr (low, rest) ↦
            inr (inr (pe, commands.0, low), of_precedence-Wins m es b a p rest commands.1)
      ]
  | inr y ↦ inr (inl (ground arith), of_precedence-Wins m es b a p (rw y at t) (rw y at c))
]

Wins-of_precedence :
    (es : List Entry) (b : Entry)
    → Wins b es
    → Tops b (of_precedence b.precedence es)
      × All (HasCommand b.def.command) (of_precedence b.precedence es)
unfolding of_precedence
Wins-of_precedence [] b w = elim w [ ]
Wins-of_precedence (e ∷ es) b (inl (eq, a)) =
    let y : (e.precedence == b.precedence) ≡ true = (rw eq (ground arith)) in
    let rest = of_precedence-IsLower es b a in rw y (inl (eq, rest.0), (rw eq refl, rest.1))
Wins-of_precedence (e ∷ es) b (inr (inl l, w)) =
    let y : (e.precedence == b.precedence) ≡ false = ground arith in
    rw y (Wins-of_precedence es b w)
Wins-of_precedence (e ∷ es) b (inr (inr (p, c, l), w)) =
    let y : (e.precedence == b.precedence) ≡ true = ground arith in
    let rest = Wins-of_precedence es b w in rw y (inr (l, rest.0), (c, rest.1))

least_precedence-le :
    (best : ℕ) (es : List Entry)
    → (least_precedence best es ≤ best) × All (AtLeast (least_precedence best es)) es
unfolding least_precedence
least_precedence-le best [] = (omega arith, tt)
least_precedence-le best (e ∷ es) =
    let next = if ltb e.precedence best then e.precedence else best in
    let rest = least_precedence-le next es in
    (ground (arith, rest.0), (ground (arith, rest.0), rest.1))

least_precedence-keeps :
    (best : ℕ) (es : List Entry) → All (AtLeast best) es → least_precedence best es ≡ best
unfolding least_precedence
least_precedence-keeps best [] a = refl
least_precedence-keeps best (e ∷ es) (l, a) =
    let y : ltb e.precedence best ≡ false = ground arith in rw y (least_precedence-keeps best es a)

LosesTo-AtLeast : (es : List Entry) (b : Entry) → All (LosesTo b) es → All (AtLeast b.precedence) es
LosesTo-AtLeast [] b a = tt
LosesTo-AtLeast (e ∷ es) b (inl l, a) = (omega arith, LosesTo-AtLeast es b a)
LosesTo-AtLeast (e ∷ es) b (inr (p, _, _), a) = (omega arith, LosesTo-AtLeast es b a)

Wins-least_precedence :
    (best : ℕ) (es : List Entry) (b : Entry)
    → Wins b es
    → b.precedence ≤ best
    → least_precedence best es ≡ b.precedence
unfolding least_precedence
Wins-least_precedence best [] b w l = elim w [ ]
Wins-least_precedence best (e ∷ es) b (inl (eq, a)) l =
    let pe : e.precedence ≡ b.precedence = (rw eq refl) in
    let next : (if ltb e.precedence best then e.precedence else best) ≡ b.precedence =
      ground arith in
    rw next (least_precedence-keeps b.precedence es (LosesTo-AtLeast es b a))
Wins-least_precedence best (e ∷ es) b (inr (l, w)) k =
    Wins-least_precedence (if ltb e.precedence best then e.precedence else best) es b w
      (ground arith)

Tops-precedence :
    (m : ℕ) (es : List Entry) (b : Entry) → Tops b (of_precedence m es) → b.precedence ≡ m
unfolding of_precedence
Tops-precedence m [] b t = elim t [ ]
Tops-precedence m (e ∷ es) b t = elim (Bool-cases (e.precedence == m)) [
  | inr y ↦ Tops-precedence m es b (rw y at t)
  | inl y ↦
      let t' : Tops b (e ∷ of_precedence m es) = (rw y at t) in
      elim t' [
        | inl (eq, _) ↦ rw (← eq) ((==_iff e.precedence m).0 y)
        | inr (_, rest) ↦ Tops-precedence m es b rest
      ]
]

Wins-first :
    (e : Entry) (es : List Entry) (b : Entry)
    → Wins b (e ∷ es)
    → least_precedence e.precedence es ≡ b.precedence
Wins-first e es b (inl (eq, a)) =
    rw eq (least_precedence-keeps b.precedence es (LosesTo-AtLeast es b a))
Wins-first e es b (inr (inl l, w)) = Wins-least_precedence e.precedence es b w (omega arith)
Wins-first e es b (inr (inr (p, _, _), w)) = Wins-least_precedence e.precedence es b w (omega arith)

settle_among-break_tie : (matched es : List Entry) → (settle_among matched es).best ≡ break_tie es
unfolding settle_among break_tie
settle_among-break_tie matched [] = refl
settle_among-break_tie matched (e ∷ []) = refl
settle_among-break_tie matched (e ∷ f ∷ es) = elim (Option-cases (break_tie (e ∷ f ∷ es))) [
  | inl h ↦ rw (h, settle_among)
  | inr (b, h) ↦ rw (h, settle_among)
]

break_tie-nil : (b : Entry) → break_tie [] ≡ some b → ⊥
unfolding break_tie
break_tie-nil b h = let bad : none ≡ some b = h in cc

break_tie-Wins : (es : List Entry) (b : Entry) → break_tie (most_preferred es) ≡ some b → Wins b es
unfolding most_preferred
break_tie-Wins [] b h = absurd (break_tie-nil b h)
break_tie-Wins (e ∷ es) b h =
    let m = least_precedence e.precedence es in
    let found = break_tie-Tops (of_precedence m (e ∷ es)) b h in
    let low = least_precedence-le e.precedence es in
    of_precedence-Wins m (e ∷ es) b low (Tops-precedence m (e ∷ es) b found.0) found.0 found.1

Wins-break_tie : (es : List Entry) (b : Entry) → Wins b es → break_tie (most_preferred es) ≡ some b
unfolding most_preferred
Wins-break_tie [] b w = elim w [ ]
Wins-break_tie (e ∷ es) b w =
    let m : least_precedence e.precedence es ≡ b.precedence = Wins-first e es b w in
    let found = Wins-of_precedence (e ∷ es) b w in
    subst (λ k. break_tie (of_precedence k (e ∷ es)) ≡ some b) (sym m)
      (Tops-break_tie (of_precedence b.precedence (e ∷ es)) b found.0 found.1)

-- What `settle` chooses is what breaking the tie among the preferred ones gives.
settle-break_tie : (es : List Entry) → (settle es).best ≡ break_tie (most_preferred es)
unfolding settle
settle-break_tie es = settle_among-break_tie es (most_preferred es)

-- `settle` chooses a definition exactly if every other of those that fit loses to it: it comes from a
-- later registry, or is a variant of the same command in the same registry with a lower priority.
pub settle-Wins : (es : List Entry) (b : Entry) → ((settle es).best ≡ some b) ↔ Wins b es
settle-Wins es b = (
  λ h. break_tie-Wins es b (sym (settle-break_tie es) ∙ h),
  λ w. settle-break_tie es ∙ Wins-break_tie es b w,
)
