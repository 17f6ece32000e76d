-- ===== src/Examples/Trees.antt =====
-- A tree of two levels of indentation.
use jsonize.Prelude.{◌≡◌, ◌≢◌, refl, true, List, [], ◌∷◌, some, Text, codes}
use jsonize.Engine.Line.{Line}
use jsonize.Tree.Depth.{tree_depth, IsSplit, tree_depth-IsSplit}
use jsonize.Tree.Nodes.{Nodes, node, nil, cons, ok, out_of_fuel, Rules, tree_nodes, parse_tree}
use jsonize.Tree.Preorder.{preorder, AreRead, parse_tree-AreRead, parse_tree-ne-fuel}

abbrev rules : Rules Text
rules = record { indent = codes "  " ∷ []; is_root = λ _. true; read_node = λ t _. some t }

abbrev lines : List Line
lines =
    record { text = codes "a"; num = 1 }
    ∷ record { text = codes "  b"; num = 2 }
    ∷ record { text = codes "    c"; num = 3 }
    ∷ record { text = codes "  d"; num = 4 }
    ∷ record { text = codes "e"; num = 5 }
    ∷ []

abbrev leaf : Text → Nodes Text → Nodes Text
leaf t ns = cons (node t nil) ns

abbrev tree : Nodes Text
tree =
    cons (node (codes "a") (cons (node (codes "b") (leaf (codes "c") nil)) (leaf (codes "d") nil)))
      (leaf (codes "e") nil)

lines_parsed : parse_tree rules lines ≡ ok tree
unfolding parse_tree tree_nodes tree_depth
lines_parsed = refl

parse_tree-AreRead_example : AreRead rules lines (preorder 0 tree)
parse_tree-AreRead_example = parse_tree-AreRead rules lines tree lines_parsed

parse_tree-ne-fuel_example : parse_tree rules lines ≢ out_of_fuel
parse_tree-ne-fuel_example = parse_tree-ne-fuel rules lines

tree_depth-IsSplit_example : IsSplit (codes "  " ∷ []) 0 (codes "    c") 2 (codes "c")
tree_depth-IsSplit_example =
    tree_depth-IsSplit (codes "  " ∷ []) (codes "    c") 2 (codes "c") (unfold tree_depth in refl)
