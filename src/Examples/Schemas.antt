-- ===== src/Examples/Schemas.antt =====
-- Two versions of the schema of a tree, and of a row, as the program publishes them.
use jsonize.Prelude.{◌≡◌, refl, true, false, [], ◌∷◌, some, arith, codes, List, same}
use jsonize.Schema.{
  Schema, schema, Properties, unset, end, property, absent, present, type_object, type_array,
  type_string,
}
use jsonize.Schema.Types.{type_order, same_types}
use jsonize.Schema.Compare.{Change, kind_added, new_may_appear, compare_schemas, breaking_changes}
use jsonize.Schema.Validate.{
  Value, string, array, object, nil, cons, done, field, validate_document,
}
use jsonize.Schema.Shape.{well_formed}
use jsonize.Schema.Compat.{validate_document-compare_schemas}
use jsonize.Schema.Ends.{height, is_plain, compare_schemas-plain}

abbrev text_schema : Schema
text_schema = schema [] (type_string ∷ []) [] unset [] absent absent unset

abbrev node_ref : Schema
node_ref = schema (codes "#/$defs/node") [] [] unset [] absent absent unset

abbrev nodes : Properties → Schema
nodes ds = schema [] (type_array ∷ []) [] unset [] absent (present node_ref) ds

abbrev node : Properties → Schema
node more =
    schema [] (type_object ∷ []) []
      (property (codes "name") text_schema (property (codes "children") (nodes unset) more))
      (codes "name" ∷ codes "children" ∷ []) absent absent unset

abbrev old_tree : Schema
old_tree = nodes (property (codes "node") (node end) end)

abbrev new_tree : Schema
new_tree = nodes (property (codes "node") (node (property (codes "mode") text_schema end)) end)

abbrev branch : Value
branch = array (
    cons
      (object (
        field (codes "children")
          (array (
            cons
              (object (
                field (codes "children") (array nil)
                  (field (codes "name") (string (codes "b")) done)))
              nil))
          (field (codes "name") (string (codes "a")) done)))
      nil)

abbrev mode_added : Change
mode_added = record {
  path = codes "$[].mode";
  kind = kind_added;
  detail = new_may_appear;
  breaking = false;
}

tree_compared : compare_schemas 8 old_tree new_tree ≡ some (mode_added ∷ [])
unfolding compare_schemas same_types type_order
tree_compared = refl

old_tree-well_formed : well_formed old_tree ≡ true
unfolding well_formed same
old_tree-well_formed = refl

new_tree-well_formed : well_formed new_tree ≡ true
unfolding well_formed same
new_tree-well_formed = refl

branch_fits : validate_document old_tree branch ≡ []
unfolding validate_document
branch_fits = refl

validate_document-compare_schemas_example : validate_document new_tree branch ≡ []
validate_document-compare_schemas_example =
    validate_document-compare_schemas 8 old_tree new_tree (mode_added ∷ []) branch
      old_tree-well_formed new_tree-well_formed tree_compared (unfold breaking_changes in refl)
      branch_fits

abbrev row : Schema
row =
    schema [] (type_object ∷ []) [] (property (codes "name") text_schema end) [] absent absent unset

compare_schemas-plain_example :
    (changes : List Change) × (compare_schemas 2 old_tree row ≡ some changes)
compare_schemas-plain_example =
    compare_schemas-plain 2 old_tree row (unfold is_plain in refl) (unfold height in omega arith)
