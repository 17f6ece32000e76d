-- ===== src/Selector/Edits.antt =====
-- pkg/selector/selector.go, `levenshtein` against what an edit distance is: the least number of edits that
-- turn one text into the other.
use jsonize.Prelude.{
  inl, inr, ◌⊎◌, ◌≡◌, refl, sym, ap, arith, ℕ, suc, ◌+◌, ◌≤◌, List, [], ◌∷◌, ◌∙◌, Text, ◌==◌, min,
  if◌then◌else◌, Bool-cases,
}
use jsonize.Utf8.{runes}
use jsonize.Selector.Distance.{fill_row, next_row, rows, first_row, last_cell, levenshtein}

pub data Edit : Type 0 where
  keep replace remove insert : Edit

-- The edits turn the first list of runes into the second, from the front on.
unfoldable pub Turns : List Edit → List ℕ → List ℕ → Type 0
Turns [] [] [] = Unit
Turns [] [] (_ ∷ _) = ⊥
Turns [] (_ ∷ _) ys = ⊥
Turns (keep ∷ s) (a ∷ xs) (b ∷ ys) = (a ≡ b) × Turns s xs ys
Turns (keep ∷ s) [] ys = ⊥
Turns (keep ∷ s) (_ ∷ _) [] = ⊥
Turns (replace ∷ s) (_ ∷ xs) (_ ∷ ys) = Turns s xs ys
Turns (replace ∷ s) [] ys = ⊥
Turns (replace ∷ s) (_ ∷ _) [] = ⊥
Turns (remove ∷ s) (_ ∷ xs) ys = Turns s xs ys
Turns (remove ∷ s) [] ys = ⊥
Turns (insert ∷ s) xs (_ ∷ ys) = Turns s xs ys
Turns (insert ∷ s) xs [] = ⊥

-- every edit but keeping a rune counts
unfoldable pub cost : List Edit → ℕ
cost [] = 0
cost (keep ∷ s) = cost s
cost (replace ∷ s) = suc (cost s)
cost (remove ∷ s) = suc (cost s)
cost (insert ∷ s) = suc (cost s)

pub record IsLeast (xs ys : List ℕ) (n : ℕ) : Type 0 where
  pub reached : (s : List Edit) × (Turns s xs ys × (cost s ≡ n))
  pub least : (s : List Edit) → Turns s xs ys → n ≤ cost s

IsLeast-start : IsLeast [] [] 0
unfolding Turns cost
IsLeast-start = record { reached = ([], (tt, refl)); least = λ s t. omega arith }

IsLeast-removed : (a : ℕ) (xs : List ℕ) (n : ℕ) → IsLeast xs [] n → IsLeast (a ∷ xs) [] (suc n)
unfolding Turns cost
IsLeast-removed a xs n h = record {
  reached = (let (s, (t, e)) = h.reached in (remove ∷ s, (t, ap suc e)));
  least = λ s t. removed_least s t;
}
  where
    removed_least : (s : List Edit) → Turns s (a ∷ xs) [] → suc n ≤ cost s
    removed_least (remove ∷ s) t = let l = h.least s t in omega arith
    removed_least [] t = absurd t
    removed_least (keep ∷ s) t = absurd t
    removed_least (replace ∷ s) t = absurd t
    removed_least (insert ∷ s) t = absurd t

IsLeast-inserted : (b : ℕ) (ys : List ℕ) (n : ℕ) → IsLeast [] ys n → IsLeast [] (b ∷ ys) (suc n)
unfolding Turns cost
IsLeast-inserted b ys n h = record {
  reached = (let (s, (t, e)) = h.reached in (insert ∷ s, (t, ap suc e)));
  least = λ s t. inserted_least s t;
}
  where
    inserted_least : (s : List Edit) → Turns s [] (b ∷ ys) → suc n ≤ cost s
    inserted_least (insert ∷ s) t = let l = h.least s t in omega arith
    inserted_least [] t = absurd t
    inserted_least (keep ∷ s) t = absurd t
    inserted_least (replace ∷ s) t = absurd t
    inserted_least (remove ∷ s) t = absurd t

abbrev cell : ℕ → ℕ → ℕ → ℕ → ℕ → ℕ
cell x y up left corner = min (min (suc up) (suc left)) (corner + (if x == y then 0 else 1))

cell-cases :
    (x y up left corner : ℕ)
    → (cell x y up left corner ≡ suc up)
      ⊎ ((cell x y up left corner ≡ suc left)
          ⊎ (cell x y up left corner ≡ corner + (if x == y then 0 else 1)))
cell-cases x y up left corner = omega arith

changed :
    (x y : ℕ) (xs ys : List ℕ) (corner : ℕ)
    → IsLeast xs ys corner
    → (s : List Edit) × (Turns s (x ∷ xs) (y ∷ ys) × (cost s ≡ corner + (if x == y then 0 else 1)))
unfolding Turns cost
changed x y xs ys corner c =
    let (s, (t, e)) = c.reached in
    elim (Bool-cases (x == y)) [
      | inl h ↦ (keep ∷ s, ((ground arith, t), rw h (omega arith)))
      | inr h ↦ (replace ∷ s, (t, rw h (omega arith)))
    ]

cell_least :
    (x y : ℕ) (xs ys : List ℕ) (up left corner : ℕ)
    → IsLeast xs (y ∷ ys) up
    → IsLeast (x ∷ xs) ys left
    → IsLeast xs ys corner
    → (s : List Edit) → Turns s (x ∷ xs) (y ∷ ys)
    → cell x y up left corner ≤ cost s
unfolding Turns cost
cell_least x y xs ys up left corner u l c [] t = absurd t
cell_least x y xs ys up left corner u l c (keep ∷ s) (e, t) = let h = c.least s t in ground arith
cell_least x y xs ys up left corner u l c (replace ∷ s) t = let h = c.least s t in ground arith
cell_least x y xs ys up left corner u l c (remove ∷ s) t = let h = u.least s t in ground arith
cell_least x y xs ys up left corner u l c (insert ∷ s) t = let h = l.least s t in ground arith

-- A cell is least where the three it is made of are.
IsLeast-cell :
    (x y : ℕ) (xs ys : List ℕ) (up left corner : ℕ)
    → IsLeast xs (y ∷ ys) up
    → IsLeast (x ∷ xs) ys left
    → IsLeast xs ys corner
    → IsLeast (x ∷ xs) (y ∷ ys) (cell x y up left corner)
unfolding Turns cost
IsLeast-cell x y xs ys up left corner u l c = record {
  reached = elim (cell-cases x y up left corner) [
    | inl e ↦ (let (s, (t, f)) = u.reached in (remove ∷ s, (t, ap suc f ∙ sym e)))
    | inr (inl e) ↦ (let (s, (t, f)) = l.reached in (insert ∷ s, (t, ap suc f ∙ sym e)))
    | inr (inr e) ↦ (let (s, (t, f)) = changed x y xs ys corner c in (s, (t, f ∙ sym e)))
  ];
  least = cell_least x y xs ys up left corner u l c;
}

-- Each cell of a row behind one is the distance of the runes up to it, the last first.
abbrev LeastBehind : List ℕ → List ℕ → List ℕ → List ℕ → Type 0
LeastBehind xs ys [] [] = Unit
LeastBehind xs ys [] (_ ∷ _) = ⊥
LeastBehind xs ys (y ∷ rest) [] = ⊥
LeastBehind xs ys (y ∷ rest) (n ∷ ns) = IsLeast xs (y ∷ ys) n × LeastBehind xs (y ∷ ys) rest ns

fill_row-LeastBehind :
    (x left corner : ℕ) (xs ys rest above : List ℕ)
    → IsLeast (x ∷ xs) ys left
    → IsLeast xs ys corner
    → LeastBehind xs ys rest above
    → LeastBehind (x ∷ xs) ys rest (fill_row x left corner rest above)
unfolding fill_row
fill_row-LeastBehind x left corner xs ys [] above l c b = tt
fill_row-LeastBehind x left corner xs ys (y ∷ rest) [] l c b = absurd b
fill_row-LeastBehind x left corner xs ys (y ∷ rest) (up ∷ above) l c (u, b) =
    let here = IsLeast-cell x y xs ys up left corner u l c in
    (here, fill_row-LeastBehind x (cell x y up left corner) up xs (y ∷ ys) rest above here u b)

-- A whole row.
abbrev AreLeast : List ℕ → List ℕ → List ℕ → Type 0
AreLeast xs rest [] = ⊥
AreLeast xs rest (n ∷ ns) = IsLeast xs [] n × LeastBehind xs [] rest ns

-- The first list, turned around, in front of the second.
unfoldable onto {ℓ} : {A : Type ℓ} → List A → List A → List A
onto [] ys = ys
onto (x ∷ xs) ys = onto xs (x ∷ ys)

rows-AreLeast :
    (j : ℕ) (rs rest ns xs : List ℕ)
    → IsLeast xs [] j
    → LeastBehind xs [] rest ns
    → AreLeast (onto rs xs) rest (rows (suc j) rs rest (j ∷ ns))
unfolding rows next_row onto
rows-AreLeast j [] rest ns xs h b = (h, b)
rows-AreLeast j (r ∷ rs) rest ns xs h b =
    let head = IsLeast-removed r xs j h in
    rows-AreLeast (suc j) rs rest (fill_row r (suc j) j rest ns) (r ∷ xs) head
      (fill_row-LeastBehind r (suc j) j xs [] rest ns head h b)

first_row-LeastBehind :
    (j y : ℕ) (ys rest : List ℕ)
    → IsLeast [] (y ∷ ys) j
    → LeastBehind [] ys (y ∷ rest) (first_row j rest)
unfolding first_row
first_row-LeastBehind j y ys [] h = (h, tt)
first_row-LeastBehind j y ys (z ∷ rest) h =
    (h, first_row-LeastBehind (suc j) z (y ∷ ys) rest (IsLeast-inserted z (y ∷ ys) j h))

all_rows : (rs bs : List ℕ) → AreLeast (onto rs []) bs (rows 1 rs bs (first_row 0 bs))
unfolding first_row
all_rows rs [] = rows-AreLeast 0 rs [] [] [] IsLeast-start tt
all_rows rs (b ∷ bs) =
    rows-AreLeast 0 rs (b ∷ bs) (first_row 1 bs) [] IsLeast-start
      (first_row-LeastBehind 1 b [] bs (IsLeast-inserted b [] 0 IsLeast-start))

last_cell-IsLeast :
    (xs ys rest ns : List ℕ) (n : ℕ)
    → IsLeast xs ys n
    → LeastBehind xs ys rest ns
    → IsLeast xs (onto rest ys) (last_cell (n ∷ ns))
unfolding last_cell onto
last_cell-IsLeast xs ys [] [] n h b = h
last_cell-IsLeast xs ys [] (m ∷ ns) n h b = absurd b
last_cell-IsLeast xs ys (y ∷ rest) [] n h b = absurd b
last_cell-IsLeast xs ys (y ∷ rest) (m ∷ ns) n h (k, b) = last_cell-IsLeast xs (y ∷ ys) rest ns m k b

AreLeast-last :
    (xs rest ns : List ℕ) → AreLeast xs rest ns → IsLeast xs (onto rest []) (last_cell ns)
AreLeast-last xs rest [] h = absurd h
AreLeast-last xs rest (n ∷ ns) (h, b) = last_cell-IsLeast xs [] rest ns n h b

onto-onto {ℓ} : {A : Type ℓ} → (xs ys : List A) → onto (onto xs ys) [] ≡ onto ys xs
unfolding onto
onto-onto [] ys = refl
onto-onto (x ∷ xs) ys = onto-onto xs (x ∷ ys)

-- Edits that are done from the back turn the lists that are turned around.
onto-Turns :
    (s t : List Edit) (xs ys us vs : List ℕ)
    → Turns s xs ys
    → Turns t us vs
    → Turns (onto s t) (onto xs us) (onto ys vs)
unfolding Turns onto
onto-Turns [] t [] [] us vs p q = q
onto-Turns [] t [] (_ ∷ _) us vs p q = absurd p
onto-Turns [] t (_ ∷ _) ys us vs p q = absurd p
onto-Turns (keep ∷ s) t [] ys us vs p q = absurd p
onto-Turns (keep ∷ s) t (x ∷ xs) [] us vs p q = absurd p
onto-Turns (keep ∷ s) t (x ∷ xs) (y ∷ ys) us vs (e, p) q =
    onto-Turns s (keep ∷ t) xs ys (x ∷ us) (y ∷ vs) p (e, q)
onto-Turns (replace ∷ s) t [] ys us vs p q = absurd p
onto-Turns (replace ∷ s) t (x ∷ xs) [] us vs p q = absurd p
onto-Turns (replace ∷ s) t (x ∷ xs) (y ∷ ys) us vs p q =
    onto-Turns s (replace ∷ t) xs ys (x ∷ us) (y ∷ vs) p q
onto-Turns (remove ∷ s) t [] ys us vs p q = absurd p
onto-Turns (remove ∷ s) t (x ∷ xs) ys us vs p q = onto-Turns s (remove ∷ t) xs ys (x ∷ us) vs p q
onto-Turns (insert ∷ s) t xs [] us vs p q = absurd p
onto-Turns (insert ∷ s) t xs (y ∷ ys) us vs p q = onto-Turns s (insert ∷ t) xs ys us (y ∷ vs) p q

cost-onto : (s t : List Edit) → cost (onto s t) ≡ cost s + cost t
unfolding cost onto
cost-onto [] t = omega arith
cost-onto (keep ∷ s) t = cost-onto s (keep ∷ t)
cost-onto (replace ∷ s) t = let h = cost-onto s (replace ∷ t) in omega arith
cost-onto (remove ∷ s) t = let h = cost-onto s (remove ∷ t) in omega arith
cost-onto (insert ∷ s) t = let h = cost-onto s (insert ∷ t) in omega arith

turned_around : (xs ys : List ℕ) (n : ℕ) → IsLeast (onto xs []) (onto ys []) n → IsLeast xs ys n
unfolding Turns cost onto
turned_around xs ys n h = record {
  reached =
      (let (s, (t, e)) = h.reached in
        let back : Turns (onto s []) (onto (onto xs []) []) (onto (onto ys []) []) =
          onto-Turns s [] (onto xs []) (onto ys []) [] [] t tt in
        let c = cost-onto s [] in
        (onto s [], (rw (onto-onto xs [], onto-onto ys []) at back, omega arith)));
  least = λ s t.
      let l = h.least (onto s []) (onto-Turns s [] xs ys [] [] t tt) in
      let c = cost-onto s [] in omega arith;
}

-- `levenshtein` is the least number of insertions, removals and replacements of runes that turn one text
-- into the other.
pub levenshtein-IsLeast : (a b : Text) → IsLeast (runes a) (runes b) (levenshtein a b)
unfolding levenshtein
levenshtein-IsLeast a b =
    turned_around (runes a) (runes b) (levenshtein a b)
      (AreLeast-last (onto (runes a) []) (runes b) _ (all_rows (runes a) (runes b)))
