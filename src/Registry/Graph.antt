-- ===== src/Registry/Graph.antt =====
-- remote_robot/registry.py, `CapabilityRegistry`: the graph of nodes, its validation, the paths to the
-- groups of a node, and the resolution of a role path.
use Prim.Native.String
use remote_robot.Prelude.{
  ℕ, zero, suc, length, String, Bool, true, false, not, ◌&&◌, ◌||◌, none, some, List, [], ◌∷◌, ◌++◌,
  ◌==◌, string_eq, nat_eq, contains, set_add,
}
use remote_robot.Dict
use remote_robot.Dict.{Dict}
use remote_robot.Text.{split_dots, sort_texts}
use remote_robot.Journal.Data.{ends_with}
use remote_robot.Registry.Model.{
  Result, ok, raise, ◌>>=◌, ◌>>◌, require, registry_error, key_error, out_of_fuel,
  ActuatorGroupSpec,
}
use remote_robot.Registry.Nodes.{
  ControlNode, physical, composite, PhysicalNode, ChildRef, ResolvedGroup, IdentitySpec, group,
  child,
}

-- `CapabilityRegistry`, less its cache
pub record CapabilityRegistry : Type 0 where
  pub server_id : String
  pub nodes : Dict String ControlNode
  pub identities : Dict String IdentitySpec

-- `node`
unfoldable pub node : Dict String ControlNode → String → Result ControlNode
node nodes node_id = elim (Dict.get nodes node_id) [ none ↦ raise registry_error | some n ↦ ok n ]

-- `identity`
unfoldable pub identity : Dict String IdentitySpec → String → Result IdentitySpec
identity identities identity_id = elim (Dict.get identities identity_id) [
  | none ↦ raise registry_error
  | some i ↦ ok i
]

-- a `KeyError` of a lookup, raised as a `RegistryError`
unfoldable pub found {ℓ} : {A : Type ℓ} → Result A → Result A
found (ok a) = ok a
found (raise e) = raise registry_error

-- The loop of `resolve_group`, from the node that it is at, over the segments that are left.
unfoldable pub resolve_from :
    Dict String ControlNode → ControlNode → List String → Result (PhysicalNode × ActuatorGroupSpec)
unfolding group child node found
resolve_from nodes (physical p) [] = raise registry_error
resolve_from nodes (physical p) (group_id ∷ []) = do g ← found (group p group_id); ok (p, g)
resolve_from nodes (physical p) (group_id ∷ more ∷ segments) = raise registry_error
resolve_from nodes (composite c) [] = raise registry_error
resolve_from nodes (composite c) (role ∷ segments) = do
  ref ← found (child c role)
  next ← node nodes ref.node_id
  resolve_from nodes next segments

-- No segment is empty.
unfoldable pub none_empty : List String → Bool
none_empty [] = true
none_empty (s ∷ ss) = not (s == "") && none_empty ss

unfoldable pub starts_dot : String → Bool
starts_dot String.[] = false
starts_dot (String.◌∷◌ c s) = String.◌∷◌ c String.[] == "."

-- `resolve_group`
unfoldable pub resolve_group : Dict String ControlNode → String → String → Result ResolvedGroup
unfolding node none_empty starts_dot ends_with split_dots resolve_from
resolve_group nodes root_id role_path = do
  require (not (role_path == "" || starts_dot role_path || ends_with "." role_path)) registry_error
  require (none_empty (split_dots role_path)) registry_error
  root ← node nodes root_id
  leaf ← resolve_from nodes root (split_dots role_path)
  ok (record {
    root_node_id = root_id;
    role_path = role_path;
    physical_node_id = leaf.0.node_id;
    group_id = leaf.1.group_id;
    group = leaf.1;
  })

unfoldable pub children_of : ControlNode → List ChildRef
children_of (physical p) = []
children_of (composite c) = c.children

-- Each child is a node of the registry.
unfoldable pub check_children : Dict String ControlNode → List ChildRef → Result (Unit {0})
check_children nodes [] = ok tt
check_children nodes (c ∷ cs) = elim (Dict.get nodes c.node_id) [
  | none ↦ raise registry_error
  | some n ↦ check_children nodes cs
]

-- The first loop of `_validate_graph`, over the nodes.
unfoldable pub check_references :
    Dict String ControlNode → List (String × ControlNode) → Result (Unit {0})
unfolding check_children children_of
check_references nodes [] = ok tt
check_references nodes ((node_id, n) ∷ rest) = do
  check_children nodes (children_of n)
  check_references nodes rest

-- `for child in node.children: visit(child.node_id)`, of the visited ids
unfoldable pub visit_all :
    (String → List String → Result (List String))
    → List ChildRef
    → List String
    → Result (List String)
visit_all visit [] visited = ok visited
visit_all visit (c ∷ cs) visited = do more ← visit c.node_id visited; visit_all visit cs more

-- `visit`, on fuel, of the ids that are being visited and those that have been
unfoldable pub visit :
    Dict String ControlNode → ℕ → List String → String → List String → Result (List String)
unfolding children_of visit_all
visit nodes zero visiting node_id visited = raise out_of_fuel
visit nodes (suc fuel) visiting node_id visited = elim (contains visiting node_id) [
  | true ↦ raise registry_error
  | false ↦ elim (contains visited node_id) [
    | true ↦ ok visited
    | false ↦ elim (Dict.get nodes node_id) [
      | none ↦ raise key_error
      | some n ↦ do
        more ← visit_all (visit nodes fuel (node_id ∷ visiting)) (children_of n) visited
        ok (set_add node_id more)
    ]
  ]
]

-- `for node_id in sorted(self._nodes): visit(node_id)`
unfoldable pub visit_nodes :
    Dict String ControlNode → ℕ → List String → List String → Result (List String)
unfolding visit
visit_nodes nodes fuel [] visited = ok visited
visit_nodes nodes fuel (node_id ∷ ids) visited = do
  more ← visit nodes fuel [] node_id visited
  visit_nodes nodes fuel ids more

-- One more than the number of nodes.
unfoldable pub depth : Dict String ControlNode → ℕ
depth nodes = suc (length (Dict.keys nodes))

-- `_validate_graph`, with the ids that it visited
unfoldable pub validate_graph : Dict String ControlNode → Result (List String)
unfolding check_references visit_nodes depth
validate_graph nodes = do
  check_references nodes nodes.entries
  visit_nodes nodes (depth nodes) (sort_texts (Dict.keys nodes)) []

-- A group that a node reaches, by one path.
pub record Leaf : Type 0 where
  pub node_id : String
  pub group_id : String
  pub path : String
  pub aliased : Bool

-- `".".join(names)`
unfoldable pub join_dots : List String → String
join_dots [] = ""
join_dots (s ∷ []) = s
join_dots (s ∷ t ∷ ss) = String.◌++◌ s (String.◌++◌ "." (join_dots (t ∷ ss)))

-- the groups of a physical node
unfoldable pub group_leaves : String → List String → Bool → List ActuatorGroupSpec → List Leaf
unfolding join_dots
group_leaves node_id prefix aliased [] = []
group_leaves node_id prefix aliased (g ∷ gs) =
    record {
      node_id = node_id;
      group_id = g.group_id;
      path = join_dots (prefix ++ g.group_id ∷ []);
      aliased = aliased;
    }
    ∷ group_leaves node_id prefix aliased gs

-- `for child in node.children: leaves.extend(…)`
unfoldable pub extend_all : (ChildRef → Result (List Leaf)) → List ChildRef → Result (List Leaf)
extend_all leaves [] = ok []
extend_all leaves (c ∷ cs) = do here ← leaves c; rest ← extend_all leaves cs; ok (here ++ rest)

-- `_leaf_paths`, on fuel
unfoldable pub leaf_paths :
    Dict String ControlNode → ℕ → String → List String → Bool → Result (List Leaf)
unfolding group_leaves extend_all
leaf_paths nodes zero node_id prefix aliased = raise out_of_fuel
leaf_paths nodes (suc fuel) node_id prefix aliased = elim (Dict.get nodes node_id) [
  | none ↦ raise key_error
  | some (physical p) ↦ ok (group_leaves p.node_id prefix aliased p.groups)
  | some (composite c) ↦
      extend_all
        (λ ref. leaf_paths nodes fuel ref.node_id (prefix ++ ref.role ∷ []) (aliased || ref.alias))
        c.children
]
