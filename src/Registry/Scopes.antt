-- ===== src/Registry/Scopes.antt =====
-- remote_robot/registry.py, `_validate`: the aliases of a composite node, the scopes of an identity and
-- the checks of a whole registry.
use remote_robot.Prelude.{
  length, String, Bool, true, false, not, ◌&&◌, ◌||◌, Option, none, some, List, [], ◌∷◌, ◌++◌, ◌==◌,
  string_eq, nat_eq, if◌then◌else◌, keep, is_some,
}
use remote_robot.Dict
use remote_robot.Dict.{Dict}
use remote_robot.Registry.Model.{Result, ok, ◌>>=◌, ◌>>◌, require, registry_error}
use remote_robot.Registry.Nodes.{ControlNode, physical, composite, IdentitySpec}
use remote_robot.Registry.Graph.{
  CapabilityRegistry, Leaf, resolve_group, validate_graph, leaf_paths, depth,
}

-- `by_leaf`: the paths to each group, with their alias flags
abbrev pub ByLeaf : Type 0
ByLeaf = List ((String × String) × List (String × Bool))

-- `by_leaf.setdefault(canonical, []).append((path, aliased))`
unfoldable pub add_path : ByLeaf → Leaf → ByLeaf
add_path [] l = ((l.node_id, l.group_id), (l.path, l.aliased) ∷ []) ∷ []
add_path (((node_id, group_id), paths) ∷ rest) l =
    let others = add_path rest l in
    if node_id == l.node_id && group_id == l.group_id
    then ((node_id, group_id), paths ++ (l.path, l.aliased) ∷ []) ∷ rest
    else ((node_id, group_id), paths) ∷ others

unfoldable pub add_paths : List Leaf → ByLeaf → ByLeaf
unfolding add_path
add_paths [] by_leaf = by_leaf
add_paths (l ∷ ls) by_leaf = add_paths ls (add_path by_leaf l)

-- There is one path, or one that is not an alias.
unfoldable pub is_unambiguous : List (String × Bool) → Bool
is_unambiguous paths = length paths == 1 || length (keep (λ p. not p.1) paths) == 1

unfoldable pub check_paths : ByLeaf → Result (Unit {0})
unfolding is_unambiguous
check_paths [] = ok tt
check_paths ((canonical, paths) ∷ rest) = do
  require (is_unambiguous paths) registry_error
  check_paths rest

-- `_validate_composite_aliases`, of a node id
unfoldable pub validate_composite_aliases : Dict String ControlNode → String → Result (Unit {0})
unfolding leaf_paths depth add_paths check_paths
validate_composite_aliases nodes node_id = do
  leaves ← leaf_paths nodes (depth nodes) node_id [] false
  check_paths (add_paths leaves [])

-- `value.partition(".")`, with `none` where there is no dot
unfoldable pub partition_dot : String → String × Option String
partition_dot String.[] = ("", none)
partition_dot (String.◌∷◌ c s) =
    let rest = partition_dot s in
    if String.◌∷◌ c String.[] == "." then ("", some s) else (String.◌∷◌ c (rest.0), rest.1)

-- a scope of `discover`, `observe` or `emergency_stop`
unfoldable pub check_scopes : Dict String ControlNode → List String → Result (Unit {0})
check_scopes nodes [] = ok tt
check_scopes nodes (value ∷ values) = do
  require (value == "*" || is_some (Dict.get nodes value)) registry_error
  check_scopes nodes values

-- the part of a scope of `control` behind the root
unfoldable pub check_role : Dict String ControlNode → String → Option String → Result (Unit {0})
unfolding resolve_group
check_role nodes root_id none = ok tt
check_role nodes root_id (some role_path) = elim (role_path == "*") [
  | true ↦ ok tt
  | false ↦ do resolved ← resolve_group nodes root_id role_path; ok tt
]

unfoldable pub check_control : Dict String ControlNode → String → Result (Unit {0})
unfolding partition_dot check_role
check_control nodes value = elim (value == "*") [
  | true ↦ ok tt
  | false ↦ do
    require (is_some (Dict.get nodes (partition_dot value).0)) registry_error
    check_role nodes (partition_dot value).0 (partition_dot value).1
]

unfoldable pub check_controls : Dict String ControlNode → List String → Result (Unit {0})
unfolding check_control
check_controls nodes [] = ok tt
check_controls nodes (value ∷ values) = do check_control nodes value; check_controls nodes values

-- `_validate_identity_scopes`
unfoldable pub validate_identity_scopes : Dict String ControlNode → IdentitySpec → Result (Unit {0})
unfolding check_scopes check_controls
validate_identity_scopes nodes i = do
  check_scopes nodes i.discover
  check_scopes nodes i.observe
  check_scopes nodes i.emergency_stop
  check_controls nodes i.control

unfoldable pub validate_aliases :
    Dict String ControlNode → List (String × ControlNode) → Result (Unit {0})
unfolding validate_composite_aliases
validate_aliases nodes [] = ok tt
validate_aliases nodes ((node_id, physical p) ∷ rest) = validate_aliases nodes rest
validate_aliases nodes ((node_id, composite c) ∷ rest) = do
  validate_composite_aliases nodes c.node_id
  validate_aliases nodes rest

unfoldable pub validate_identities :
    Dict String ControlNode → List (String × IdentitySpec) → Result (Unit {0})
unfolding validate_identity_scopes
validate_identities nodes [] = ok tt
validate_identities nodes ((identity_id, i) ∷ rest) = do
  validate_identity_scopes nodes i
  validate_identities nodes rest

-- `_validate`
unfoldable pub validate : CapabilityRegistry → Result (Unit {0})
unfolding validate_graph validate_aliases validate_identities
validate r = do
  require (not (r.server_id == "")) registry_error
  visited ← validate_graph r.nodes
  validate_aliases r.nodes r.nodes.entries
  validate_identities r.nodes r.identities.entries
