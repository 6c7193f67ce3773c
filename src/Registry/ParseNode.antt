-- ===== src/Registry/ParseNode.antt =====
-- remote_robot/registry.py, `_parse_node`: physical and composite nodes.
use remote_robot.Prelude.{
  ℕ, ℤ, String, Bool, false, Option, none, some, List, [], ◌∷◌, ◌++◌, string_eq, nat_eq,
}
use remote_robot.Value.{Value, Items, Fields, dict, nil, cons, end, get}
use remote_robot.Registry.Model.{Letters, Result, ok, ◌>>=◌, ◌>>◌}
use remote_robot.Registry.Nodes.{
  ChildRef, PhysicalNode, CompositeNode, ControlNode, physical, composite, check_child,
  check_physical, check_composite,
}
use remote_robot.Registry.Graph.{found}
use remote_robot.Registry.Parse.{
  check_keys, item, mapping_of, list_of, str_of, int_of, bool_of, optional_strings, optional,
  parse_groups, parse_watchdog,
}

abbrev pub common_required : List String
common_required =
    "id" ∷ "kind" ∷ "revision" ∷ "exposed_as_run_root" ∷ "cross_collision_checked" ∷ []

abbrev pub common_optional : List String
common_optional = "resources" ∷ "safety_domains" ∷ "safety_policies" ∷ []

-- a value that has a default
unfoldable pub bool_or : Bool → Option Value → Result Bool
unfolding bool_of
bool_or default none = ok default
bool_or default (some v) = bool_of v

-- the connection of a node: a table, empty if it is missing
unfoldable pub connection_of : Option Value → Result Value
unfolding mapping_of
connection_of none = ok (dict end)
connection_of (some v) = do fs ← mapping_of v; ok (dict fs)

-- `_parse_node` of a physical node
unfoldable pub parse_physical : Letters → (ℤ → ℕ) → Fields → Result ControlNode
unfolding check_keys item list_of parse_groups connection_of str_of int_of bool_of optional_strings
    parse_watchdog found check_physical
parse_physical l to_float table = do
  check_keys table
      (common_required
        ++ "adapter" ∷ "adapter_revision" ∷ "configuration_revision" ∷ "groups" ∷ "watchdog" ∷ [])
      (common_optional ++ "connection" ∷ [])
  raw_groups ← item "groups" table >>= list_of
  groups ← parse_groups l to_float raw_groups
  connection ← connection_of (get "connection" table)
  id ← item "id" table >>= str_of
  revision ← item "revision" table >>= int_of
  exposed ← item "exposed_as_run_root" table >>= bool_of
  adapter ← item "adapter" table >>= str_of
  adapter_revision ← item "adapter_revision" table >>= int_of
  configuration_revision ← item "configuration_revision" table >>= int_of
  resources ← optional_strings table "resources"
  safety_domains ← optional_strings table "safety_domains"
  safety_policies ← optional_strings table "safety_policies"
  cross ← item "cross_collision_checked" table >>= bool_of
  watchdog ← item "watchdog" table >>= parse_watchdog
  let n : PhysicalNode = record {
    node_id = id;
    revision = revision;
    exposed_as_run_root = exposed;
    adapter = adapter;
    adapter_revision = adapter_revision;
    configuration_revision = configuration_revision;
    groups = groups;
    resources = resources;
    safety_domains = safety_domains;
    safety_policies = safety_policies;
    cross_collision_checked = cross;
    watchdog = some watchdog;
    connection = connection;
  }
  checked ← found (check_physical l n)
  ok (physical n)

-- one of `children`
unfoldable pub parse_child : Letters → Value → Result ChildRef
unfolding mapping_of check_keys item str_of bool_or found check_child
parse_child l raw = do
  table ← mapping_of raw
  check_keys table ("role" ∷ "node" ∷ []) ("alias" ∷ [])
  role ← item "role" table >>= str_of
  node_id ← item "node" table >>= str_of
  alias ← bool_or false (get "alias" table)
  let c : ChildRef = record { role = role; node_id = node_id; alias = alias }
  checked ← found (check_child l c)
  ok c

unfoldable pub parse_children : Letters → Items → Result (List ChildRef)
unfolding parse_child
parse_children l nil = ok []
parse_children l (cons v vs) = do c ← parse_child l v; cs ← parse_children l vs; ok (c ∷ cs)

-- `_parse_node` of a composite node
unfoldable pub parse_composite : Letters → Fields → Result ControlNode
unfolding check_keys item list_of parse_children str_of int_of bool_of optional_strings optional
    found check_composite
parse_composite l table = do
  check_keys table (common_required ++ "children" ∷ [])
      (common_optional ++ "max_start_skew_us" ∷ [])
  raw_children ← item "children" table >>= list_of
  children ← parse_children l raw_children
  id ← item "id" table >>= str_of
  revision ← item "revision" table >>= int_of
  exposed ← item "exposed_as_run_root" table >>= bool_of
  resources ← optional_strings table "resources"
  safety_domains ← optional_strings table "safety_domains"
  safety_policies ← optional_strings table "safety_policies"
  cross ← item "cross_collision_checked" table >>= bool_of
  max_start_skew_us ← optional int_of (get "max_start_skew_us" table)
  let n : CompositeNode = record {
    node_id = id;
    revision = revision;
    exposed_as_run_root = exposed;
    children = children;
    resources = resources;
    safety_domains = safety_domains;
    safety_policies = safety_policies;
    cross_collision_checked = cross;
    max_start_skew_us = max_start_skew_us;
  }
  checked ← found (check_composite l n)
  ok (composite n)
