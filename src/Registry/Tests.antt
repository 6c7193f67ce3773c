-- ===== src/Registry/Tests.antt =====
-- Runs of remote_robot/registry.py on a small registry, and its theorems at concrete inputs.
use remote_robot.Prelude.{
  String, ◌≡◌, refl, ◌≢◌, Bool, true, false, not, List, [], ◌∷◌, string_eq, ==_iff, contains,
  length, keep, set_add, arith, sort_by,
}
use remote_robot.Dict
use remote_robot.Dict.{Dict}
use remote_robot.Text.{sort_texts, split_dots}
use remote_robot.Journal.Data.{ends_with}
use remote_robot.Registry.Model.{ok, raise, registry_error, out_of_fuel}
use remote_robot.Registry.Nodes.{
  composite, ResolvedGroup, IdentitySpec, group, child, find_group, find_child,
}
use remote_robot.Registry.Graph
use remote_robot.Registry.Graph.{
  Leaf, resolve_group, resolve_from, validate_graph, leaf_paths, depth, join_dots,
}
use remote_robot.Registry.Scopes
use remote_robot.Registry.Scopes.{
  validate_composite_aliases, validate_identity_scopes, partition_dot, validate,
}
use remote_robot.Registry.Sample.{nodes, good, cell, left_wrist}
use remote_robot.Registry.Ends.{validate_graph_ends}
use remote_robot.Registry.Complete.{validate_graph-leaf_paths}
use remote_robot.Registry.Paths.{Listed, resolve_group-leaf_paths}
use remote_robot.Registry.Aliases.{
  paths_to, validate_composite_aliases_lem, validate_identity_scopes_lem,
}

program : Unit {0}
unfolding resolve_group resolve_from validate_graph leaf_paths depth join_dots Graph.node
    Graph.found Graph.none_empty Graph.starts_dot Graph.children_of Graph.check_children
    Graph.check_references Graph.visit_all Graph.visit Graph.visit_nodes Graph.group_leaves
    Graph.extend_all group child find_group find_child Scopes.add_path Scopes.add_paths
    Scopes.is_unambiguous Scopes.check_paths validate_composite_aliases partition_dot
    Scopes.check_scopes Scopes.check_role Scopes.check_control Scopes.check_controls
    validate_identity_scopes Scopes.validate_aliases Scopes.validate_identities validate Dict.get
    Dict.lookup Dict.keys contains set_add sort_texts sort_by split_dots ends_with paths_to
program = tt

abbrev operator : IdentitySpec
operator = record {
  identity_id = "op";
  credential_env = "OP";
  discover = "*" ∷ [];
  observe = [];
  control = "cell.left.wrist" ∷ [];
  emergency_stop = [];
}

abbrev leaves : List Leaf
leaves =
    record { node_id = "arm7"; group_id = "wrist"; path = "left.wrist"; aliased = false }
    ∷ record { node_id = "arm7"; group_id = "wrist"; path = "spare.wrist"; aliased = true }
    ∷ []

accepted :
    validate (record {
      server_id = "s";
      nodes = good;
      identities = record { entries = ("op", operator) ∷ [] };
    })
    ≡ ok tt
unfolding program
accepted = refl

resolved : resolve_group good "cell" "left.wrist" ≡ ok left_wrist
unfolding program
resolved = refl

listed : leaf_paths good (depth good) "cell" [] false ≡ ok leaves
unfolding program
listed = refl

-- Two roles to one arm, neither of them an alias.
ambiguous : validate_composite_aliases (nodes "arm7" false) "cell" ≡ raise registry_error
unfolding program
ambiguous = refl

-- A cell that is its own child.
cyclic : validate_graph (nodes "cell" true) ≡ raise registry_error
unfolding program
cyclic = refl

validate_graph_ends_example : validate_graph (nodes "cell" true) ≢ raise out_of_fuel
validate_graph_ends_example = validate_graph_ends (nodes "cell" true)

validate_graph-leaf_paths_example :
    (ls : List Leaf) × (leaf_paths good (depth good) "cell" [] false ≡ ok ls)
unfolding program
validate_graph-leaf_paths_example =
    validate_graph-leaf_paths good ("cell" ∷ "arm7" ∷ []) "cell" (composite (cell "arm7" true)) refl
      refl [] false

resolve_group-leaf_paths_example :
    (a : Bool) × Listed leaves
      (record { node_id = "arm7"; group_id = "wrist"; path = "left.wrist"; aliased = a })
resolve_group-leaf_paths_example =
    resolve_group-leaf_paths good (depth good) "cell" "left.wrist" left_wrist leaves resolved listed

validate_composite_aliases_lem_example :
    length (keep (λ p. not p.1) (paths_to leaves "arm7" "wrist")) ≡ 1
unfolding program
validate_composite_aliases_lem_example =
    validate_composite_aliases_lem good "cell" leaves refl listed "arm7" "wrist" (omega arith)

validate_identity_scopes_lem_example :
    (r : ResolvedGroup) × (resolve_group good "cell" "left.wrist" ≡ ok r)
unfolding program
validate_identity_scopes_lem_example =
    validate_identity_scopes_lem good operator "cell.left.wrist" "left.wrist" refl refl
      (λ e. ground (arith, (==_iff {A = String} "cell.left.wrist" "*").1 e)) refl
      (λ e. ground (arith, (==_iff {A = String} "left.wrist" "*").1 e))
