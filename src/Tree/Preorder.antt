-- ===== src/Tree/Preorder.antt =====
-- pkg/engine/tree.go: the nodes of `parseTree` in preorder, against the lines.
use jsonize.Prelude.{
  length-append, subst, Bool-cases, inr, inl, ◌⊎◌, ℕ, zero, suc, ◌≤◌, ◌<◌, ◌≡◌, ◌≢◌, refl, ap, ◌∙◌,
  sym, List, [], ◌∷◌, ◌++◌, some, Text, length, ltb, arith, append_assoc, append-nil,
}
use jsonize.Engine.Line.{Line}
use jsonize.Tree.Depth.{Depth, at, too_deep, ragged, tree_depth}
use jsonize.Tree.Nodes.{
  nodes_only, go_on, put_node, Node, Nodes, node, nil, cons, Result, ok, err, out_of_fuel, ◌>>=◌,
  Rules, node_of, tree_nodes, nodes_only, parse_tree,
}

-- A tree walked from the top: each node with its depth, before its children.
mutual
  pub preorder : {V : Type 0} → ℕ → Nodes V → List (ℕ × V)
  preorder depth nil = []
  preorder depth (cons n ns) = preorder_node depth n ++ preorder depth ns

  pub preorder_node : {V : Type 0} → ℕ → Node V → List (ℕ × V)
  preorder_node depth (node v children) = (depth, v) ∷ preorder (suc depth) children

module _ {V : Type 0} (rules : Rules V) where
  -- Each line stands at the depth beside it and is read as the value beside it.
  abbrev pub AreRead : List Line → List (ℕ × V) → Type 0
  AreRead [] [] = Unit
  AreRead [] (_ ∷ _) = ⊥
  AreRead (_ ∷ _) [] = ⊥
  AreRead (l ∷ ls) ((d, v) ∷ ps) =
      ((text : Text) × (tree_depth rules.indent l.text ≡ at d text)
        × (rules.read_node text l.num ≡ some v))
      × AreRead ls ps

  AreRead-append :
      (ls ms : List Line) (ps qs : List (ℕ × V))
      → AreRead ls ps
      → AreRead ms qs
      → AreRead (ls ++ ms) (ps ++ qs)
  AreRead-append [] ms [] qs a b = b
  AreRead-append [] ms (p ∷ ps) qs a b = absurd a
  AreRead-append (l ∷ ls) ms [] qs a b = absurd a
  AreRead-append (l ∷ ls) ms ((d, v) ∷ ps) qs (x, a) b = (x, AreRead-append ls ms ps qs a b)

  -- What a call of `treeNodes` says that succeeds.
  abbrev Reads : ℕ → List Line → Nodes V → List Line → Type 0
  Reads depth lines nodes rest =
      (used : List Line) × (lines ≡ used ++ rest) × AreRead used (preorder depth nodes)

Depth-cases :
    (x : Depth) → ((d : ℕ) × (text : Text) × (x ≡ at d text)) ⊎ (x ≡ too_deep) ⊎ (x ≡ ragged)
Depth-cases (at d text) = inl (d, text, refl)
Depth-cases too_deep = inr (inl refl)
Depth-cases ragged = inr (inr refl)

-- A chain that succeeds has a first answer, which its continuation takes to the last.
bind-eq-ok :
    {A B : Type 0} {answer : B} (first : Result A) (next : A → Result B)
    → first >>= next ≡ ok answer
    → (x : A) × (first ≡ ok x) × (next x ≡ ok answer)
bind-eq-ok out_of_fuel next h = cc
bind-eq-ok (err _) next h = cc
bind-eq-ok (ok x) next h = (x, refl, h)

bind-ne-fuel :
    {A B : Type 0} (m : Result A) (f : A → Result B)
    → m ≢ out_of_fuel
    → ((a : A) → m ≡ ok a → f a ≢ out_of_fuel)
    → m >>= f ≢ out_of_fuel
bind-ne-fuel (ok a) f h k = k a refl
bind-ne-fuel (err e) f h k = cc
bind-ne-fuel out_of_fuel f h k = absurd (h refl)

module _ {V : Type 0} (rules : Rules V) where
  -- What a node and the lines behind it were read from.
  record Step (f depth : ℕ) (l : Line) (ls : List Line) (text : Text) (nodes : Nodes V)
      (rest : List Line) : Type 0 where
    value : V
    children : Nodes V
    next : List Line
    others : Nodes V
    reads : node_of rules text l.num ≡ ok value
    below : tree_nodes rules f (suc depth) ls ≡ ok (children, next)
    behind : tree_nodes rules f depth next ≡ ok (others, rest)
    made : nodes ≡ cons (node value children) others

  read_on-Step :
      (f depth : ℕ) (l : Line) (ls : List Line) (text : Text) (nodes : Nodes V) (rest : List Line)
      → node_of rules text l.num
          >>= (λ v. tree_nodes rules f (suc depth) ls >>= go_on rules (tree_nodes rules f depth) v)
        ≡ ok (nodes, rest)
      → Step f depth l ls text nodes rest
  read_on-Step f depth l ls text nodes rest h =
      let (v, e, h1) =
        bind-eq-ok (node_of rules text l.num)
          (λ v. tree_nodes rules f (suc depth) ls >>= go_on rules (tree_nodes rules f depth) v) h in
      let ((children, next), e1, h2) =
        bind-eq-ok (tree_nodes rules f (suc depth) ls) (go_on rules (tree_nodes rules f depth) v)
          h1 in
      let ((others, r), e2, h3) =
        bind-eq-ok (tree_nodes rules f depth next) (put_node rules v children) h2 in
      record {
        value = v;
        children = children;
        next = next;
        others = others;
        reads = e;
        below = e1;
        behind = ground arith;
        made = ground arith;
      }

  node_of-reads :
      (text : Text) (num : ℕ) (v : V)
      → node_of rules text num ≡ ok v
      → rules.read_node text num ≡ some v
  unfolding node_of
  node_of-reads text num v h = ground arith

  tree_nodes-cases :
      (f depth : ℕ) (l : Line) (ls : List Line) (nodes : Nodes V) (rest : List Line)
      → tree_nodes rules (suc f) depth (l ∷ ls) ≡ ok (nodes, rest)
      → ((nodes ≡ nil) × (rest ≡ l ∷ ls))
        ⊎ ((text : Text) × (tree_depth rules.indent l.text ≡ at depth text)
            × Step f depth l ls text nodes rest)
  unfolding tree_nodes
  tree_nodes-cases f depth l ls nodes rest h = elim (Depth-cases (tree_depth rules.indent l.text)) [
    | inr (inl e) ↦ ground arith
    | inr (inr e) ↦ ground arith
    | inl (d, text, e) ↦ elim (Bool-cases (ltb d depth)) [
      | inl b ↦ inl (ground arith, ground arith)
      | inr b ↦ inr (text, ground arith, read_on-Step f depth l ls text nodes rest (ground arith))
    ]
  ]

  tree_nodes-nil :
      (f depth : ℕ) (nodes : Nodes V) (rest : List Line)
      → tree_nodes rules f depth [] ≡ ok (nodes, rest)
      → (nodes ≡ nil) × (rest ≡ [])
  unfolding tree_nodes
  tree_nodes-nil zero depth nodes rest h = cc
  tree_nodes-nil (suc f) depth nodes rest h = ground arith

  tree_nodes-zero :
      (depth : ℕ) (lines : List Line) (nodes : Nodes V) (rest : List Line)
      → tree_nodes rules 0 depth lines ≢ ok (nodes, rest)
  unfolding tree_nodes
  tree_nodes-zero depth lines nodes rest = cc

  preorder-cons :
      (depth : ℕ) (v : V) (children others nodes : Nodes V)
      → nodes ≡ cons (node v children) others
      → (depth, v) ∷ (preorder (suc depth) children ++ preorder depth others) ≡ preorder depth nodes
  unfolding preorder
  preorder-cons depth v children others nodes h = ground arith

  Reads-nil :
      (depth : ℕ) (lines : List Line) (nodes : Nodes V) (rest : List Line)
      → nodes ≡ nil
      → rest ≡ lines
      → Reads rules depth lines nodes rest
  Reads-nil depth lines nodes rest e e' =
      ([], sym e', subst (λ n. AreRead rules [] (preorder depth n)) (sym e) (unfold preorder in tt))

  tree_nodes-Reads :
      (f depth : ℕ) (lines : List Line) (nodes : Nodes V) (rest : List Line)
      → tree_nodes rules f depth lines ≡ ok (nodes, rest)
      → Reads rules depth lines nodes rest
  tree_nodes-Reads zero depth lines nodes rest h = absurd (tree_nodes-zero depth lines nodes rest h)
  tree_nodes-Reads (suc f) depth [] nodes rest h =
      let (e, e') = tree_nodes-nil (suc f) depth nodes rest h in Reads-nil depth [] nodes rest e e'
  tree_nodes-Reads (suc f) depth (l ∷ ls) nodes rest h =
      elim (tree_nodes-cases f depth l ls nodes rest h) [
        | inl (e, e') ↦ Reads-nil depth (l ∷ ls) nodes rest e e'
        | inr (text, e, s) ↦
            let (used, u, r) = tree_nodes-Reads f (suc depth) ls s.children s.next s.below in
            let (used', u', r') = tree_nodes-Reads f depth s.next s.others rest s.behind in
            let all : AreRead rules (l ∷ (used ++ used'))
                ((depth, s.value) ∷ (preorder (suc depth) s.children ++ preorder depth s.others)) =
              (
                (text, e, node_of-reads text l.num s.value s.reads),
                AreRead-append rules used used' (preorder (suc depth) s.children)
                    (preorder depth s.others) r r',
              ) in
            (
              l ∷ (used ++ used'),
              ap (◌∷◌ l) (u ∙ ap (λ t. used ++ t) u' ∙ sym (append_assoc used used' rest)),
              subst (AreRead rules (l ∷ (used ++ used')))
                  (preorder-cons depth s.value s.children s.others nodes s.made) all,
            )
      ]

  tree_nodes-top_step :
      (f : ℕ) (l : Line) (ls : List Line) (nodes : Nodes V) (rest : List Line)
      → tree_nodes rules (suc f) 0 (l ∷ ls) ≡ ok (nodes, rest)
      → (others : Nodes V) × (next : List Line) × (tree_nodes rules f 0 next ≡ ok (others, rest))
  unfolding tree_nodes
  tree_nodes-top_step f l ls nodes rest h = elim (Depth-cases (tree_depth rules.indent l.text)) [
    | inr (inl e) ↦ ground arith
    | inr (inr e) ↦ ground arith
    | inl (d, text, e) ↦
        let s : Step f 0 l ls text nodes rest =
          read_on-Step f 0 l ls text nodes rest (ground arith) in
        (s.others, s.next, s.behind)
  ]

  -- At the top level the loop stops at no line.
  tree_nodes-top :
      (f : ℕ) (lines : List Line) (nodes : Nodes V) (rest : List Line)
      → tree_nodes rules f 0 lines ≡ ok (nodes, rest)
      → rest ≡ []
  tree_nodes-top zero lines nodes rest h = absurd (tree_nodes-zero 0 lines nodes rest h)
  tree_nodes-top (suc f) [] nodes rest h = (tree_nodes-nil (suc f) 0 nodes rest h).1
  tree_nodes-top (suc f) (l ∷ ls) nodes rest h =
      let (others, next, e) = tree_nodes-top_step f l ls nodes rest h in
      tree_nodes-top f next others rest e

  length-rest :
      (f depth : ℕ) (lines : List Line) (nodes : Nodes V) (rest : List Line)
      → tree_nodes rules f depth lines ≡ ok (nodes, rest)
      → length rest ≤ length lines
  length-rest f depth lines nodes rest h =
      let (used, u, r) = tree_nodes-Reads f depth lines nodes rest h in
      omega (arith, ap length u, length-append used rest)

  node_of-ne-fuel : (text : Text) (num : ℕ) → node_of rules text num ≢ out_of_fuel
  unfolding node_of
  node_of-ne-fuel text num = ground arith

  tree_nodes-step_fuel :
      (f depth : ℕ) (l : Line) (ls : List Line)
      → ((text : Text)
          → node_of rules text l.num >>= (λ v.
            tree_nodes rules f (suc depth) ls >>= go_on rules (tree_nodes rules f depth) v)
            ≢ out_of_fuel)
      → tree_nodes rules (suc f) depth (l ∷ ls) ≢ out_of_fuel
  unfolding tree_nodes
  tree_nodes-step_fuel f depth l ls k = elim (Depth-cases (tree_depth rules.indent l.text)) [
    | inr (inl e) ↦ ground arith
    | inr (inr e) ↦ ground arith
    | inl (d, text, e) ↦ let never = k text in ground (arith, never)
  ]

  go_on-ne-fuel :
      (f depth : ℕ) (ls : List Line) (v : V) (r : Nodes V × List Line)
      → (length r.1 < f → tree_nodes rules f depth r.1 ≢ out_of_fuel)
      → length r.1 < f
      → go_on rules (tree_nodes rules f depth) v r ≢ out_of_fuel
  go_on-ne-fuel f depth ls v (children, next) k h =
      bind-ne-fuel (tree_nodes rules f depth next) (put_node rules v children) (k h)
        (λ (n, m) e. cc)

  tree_nodes-ne-fuel :
      (f depth : ℕ) (lines : List Line)
      → length lines < f
      → tree_nodes rules f depth lines ≢ out_of_fuel
  tree_nodes-ne-fuel zero depth lines h = absurd (omega arith)
  tree_nodes-ne-fuel (suc f) depth [] h = unfold tree_nodes in cc
  tree_nodes-ne-fuel (suc f) depth (l ∷ ls) h = tree_nodes-step_fuel f depth l ls λ text.
      bind-ne-fuel (node_of rules text l.num)
        (λ v. tree_nodes rules f (suc depth) ls >>= go_on rules (tree_nodes rules f depth) v)
        (node_of-ne-fuel text l.num)
        λ v _.
          bind-ne-fuel (tree_nodes rules f (suc depth) ls)
            (go_on rules (tree_nodes rules f depth) v)
            (tree_nodes-ne-fuel f (suc depth) ls (omega arith))
            λ r e.
              go_on-ne-fuel f depth ls v r (tree_nodes-ne-fuel f depth r.1)
                (omega (arith, length-rest f (suc depth) ls r.0 r.1 e))

  -- Reading a tree always ends: with an answer or an error, and never by the model's fuel.
  pub parse_tree-ne-fuel : (lines : List Line) → parse_tree rules lines ≢ out_of_fuel
  unfolding parse_tree
  parse_tree-ne-fuel lines =
      bind-ne-fuel (tree_nodes rules (suc (length lines)) 0 lines) (nodes_only rules)
        (tree_nodes-ne-fuel (suc (length lines)) 0 lines (omega arith)) (λ (n, r) e. cc)

  -- A tree that is read holds every line of the input, and nothing else: walked from the top, each node
  -- before its children, its nodes are the lines in order, each at the depth of its line and with what
  -- the line was read as.
  pub parse_tree-AreRead :
      (lines : List Line) (nodes : Nodes V)
      → parse_tree rules lines ≡ ok nodes
      → AreRead rules lines (preorder 0 nodes)
  unfolding parse_tree
  parse_tree-AreRead lines nodes h =
      let ((ns, rest), e, e') =
        bind-eq-ok (tree_nodes rules (suc (length lines)) 0 lines) (nodes_only rules) h in
      let (used, u, r) = tree_nodes-Reads (suc (length lines)) 0 lines ns rest e in
      let whole : lines ≡ used =
        u
        ∙ ap (λ t. used ++ t) (tree_nodes-top (suc (length lines)) lines ns rest e)
        ∙ append-nil used in
      let made : ns ≡ nodes = ground arith in
      subst (λ n. AreRead rules lines (preorder 0 n)) made
        (subst (λ t. AreRead rules t (preorder 0 ns)) (sym whole) r)
