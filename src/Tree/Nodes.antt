-- ===== src/Tree/Nodes.antt =====
-- pkg/engine/tree.go, `treeNodes` and `parseTree`. What a node reads from its line (`treeNode`), and the
-- test for a line at the top level (`root`), are arguments.
use jsonize.Prelude.{
  ℕ, zero, suc, Bool, not, ◌&&◌, List, [], ◌∷◌, Option, none, some, Text, length, ◌==◌, ltb,
  if◌then◌else◌,
}
use jsonize.Engine.Line.{Line}
use jsonize.Tree.Depth.{at, too_deep, ragged, tree_depth}

-- A node holds what its line says, and its children, which the source sets as a member of the object.
mutual
  pub data Node (V : Type 0) : Type 0 where
    node : V → Nodes V → Node V

  pub data Nodes (V : Type 0) : Type 0 where
    nil : Nodes V
    cons : Node V → Nodes V → Nodes V

pub data TreeError : Type 0 where
  nested_too_deep indented_raggedly not_root not_node : ℕ → TreeError
  -- the line, its level and the level expected
  no_parent : ℕ → ℕ → ℕ → TreeError

pub data Result (A : Type 0) : Type 0 where
  ok : A → Result A
  err : TreeError → Result A
  out_of_fuel : Result A

infixl 5 ◌>>=◌
abbrev pub ◌>>=◌ : {A B : Type 0} → Result A → (A → Result B) → Result B
ok a >>= f = f a
err e >>= f = err e
out_of_fuel >>= f = out_of_fuel

pub record Rules (V : Type 0) : Type 0 where
  pub indent : List Text
  pub is_root : Text → Bool
  pub read_node : Text → ℕ → Option V

module _ {V : Type 0} (rules : Rules V) where
  unfoldable pub node_of : Text → ℕ → Result V
  node_of text num = elim (rules.read_node text num) [ some v ↦ ok v | none ↦ err (not_node num) ]

  -- `out = append(out, obj)`, with the children set
  abbrev pub put_node : V → Nodes V → Nodes V × List Line → Result (Nodes V × List Line)
  put_node v children (others, rest) = ok (cons (node v children) others, rest)

  -- `i = next`: the loop goes on behind the children
  abbrev pub go_on :
      (List Line → Result (Nodes V × List Line))
      → V
      → Nodes V × List Line
      → Result (Nodes V × List Line)
  go_on again v (children, next) = again next >>= put_node v children

  -- The loop over the lines from here on at one depth: the nodes, and the lines of shallower levels.
  -- Each call reads a line, so the fuel is more than there are lines.
  unfoldable pub tree_nodes : ℕ → ℕ → List Line → Result (Nodes V × List Line)
  unfolding node_of
  tree_nodes zero depth lines = out_of_fuel
  tree_nodes (suc f) depth [] = ok (nil, [])
  tree_nodes (suc f) depth (l ∷ ls) = elim (tree_depth rules.indent l.text) [
    | too_deep ↦ err (nested_too_deep l.num)
    | ragged ↦ err (indented_raggedly l.num)
    | at d text ↦
        let read_on : Result (Nodes V × List Line) =
          node_of text l.num
          >>= (λ v. tree_nodes f (suc depth) ls >>= go_on (tree_nodes f depth) v) in
        if ltb d depth
        then ok (nil, l ∷ ls)
        else if ltb depth d
        then err (no_parent l.num d depth)
        else if depth == 0 && not (rules.is_root text)
        then err (not_root l.num)
        else read_on
  ]

  abbrev pub nodes_only : Nodes V × List Line → Result (Nodes V)
  nodes_only (nodes, _) = ok nodes

  unfoldable pub parse_tree : List Line → Result (Nodes V)
  parse_tree lines = tree_nodes (suc (length lines)) 0 lines >>= nodes_only
