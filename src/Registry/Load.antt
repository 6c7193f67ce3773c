-- ===== src/Registry/Load.antt =====
-- remote_robot/registry.py: `_parse_node`, `_parse_identity` and `load`. The files are the documents that
-- tomllib gives of them, in the order of their names; no document is a directory that is missing.
use remote_robot.Prelude.{
  ℕ, ℤ, pos, String, Bool, true, false, not, Option, none, some, List, [], ◌∷◌, ◌==◌, string_eq,
  nat_eq, is_some,
}
use remote_robot.Dict
use remote_robot.Dict.{Dict}
use remote_robot.Text.{sort_texts}
use remote_robot.Value.{Value, Fields, get}
use remote_robot.Registry.Model.{Letters, Result, ok, raise, ◌>>=◌, ◌>>◌, require, registry_error}
use remote_robot.Registry.Nodes.{ControlNode, physical, composite, IdentitySpec, check_identity}
use remote_robot.Registry.Graph.{CapabilityRegistry, found, depth}
use remote_robot.Registry.Scopes.{validate}
use remote_robot.Registry.Describe.{manifest}
use remote_robot.Registry.Parse.{check_keys, item, mapping_of, str_of, int_of, strings_of}
use remote_robot.Registry.ParseNode.{parse_physical, parse_composite}

-- `_str(table.get(key), …)`
unfoldable pub str_in : Option Value → Result String
unfolding str_of
str_in none = raise registry_error
str_in (some v) = str_of v

unfoldable pub parse_kind : Letters → (ℤ → ℕ) → String → Fields → Result ControlNode
unfolding parse_physical parse_composite
parse_kind l to_float kind table = elim (kind == "physical") [
  | true ↦ parse_physical l to_float table
  | false ↦ elim (kind == "composite") [
    | true ↦ parse_composite l table
    | false ↦ raise registry_error
  ]
]

-- `_parse_node`
unfoldable pub parse_node : Letters → (ℤ → ℕ) → Fields → Result ControlNode
unfolding check_keys item mapping_of str_in parse_kind
parse_node l to_float document = do
  check_keys document ("node" ∷ []) []
  table ← item "node" document >>= mapping_of
  kind ← str_in (get "kind" table)
  parse_kind l to_float kind table

-- `_parse_identity`
unfoldable pub parse_identity : Letters → Fields → Result IdentitySpec
unfolding check_keys item mapping_of str_of strings_of found check_identity
parse_identity l document = do
  check_keys document ("identity" ∷ []) []
  table ← item "identity" document >>= mapping_of
  check_keys table
      ("id" ∷ "credential_env" ∷ "discover" ∷ "observe" ∷ "control" ∷ "emergency_stop" ∷ []) []
  id ← item "id" table >>= str_of
  credential_env ← item "credential_env" table >>= str_of
  discover ← item "discover" table >>= strings_of
  observe ← item "observe" table >>= strings_of
  control ← item "control" table >>= strings_of
  emergency_stop ← item "emergency_stop" table >>= strings_of
  let i : IdentitySpec = record {
    identity_id = id;
    credential_env = credential_env;
    discover = discover;
    observe = observe;
    control = control;
    emergency_stop = emergency_stop;
  }
  checked ← found (check_identity l i)
  ok i

-- `node.node_id`
unfoldable pub id_of : ControlNode → String
id_of (physical p) = p.node_id
id_of (composite c) = c.node_id

-- The loop over the files of `robots`.
unfoldable pub load_nodes :
    Letters → (ℤ → ℕ) → List Fields → Dict String ControlNode → Result (Dict String ControlNode)
unfolding parse_node id_of
load_nodes l to_float [] nodes = ok nodes
load_nodes l to_float (document ∷ documents) nodes = do
  n ← parse_node l to_float document
  require (not (is_some (Dict.get nodes (id_of n)))) registry_error
  load_nodes l to_float documents (Dict.put nodes (id_of n) n)

-- The loop over the files of `identities`.
unfoldable pub load_identities :
    Letters → List Fields → Dict String IdentitySpec → Result (Dict String IdentitySpec)
unfolding parse_identity
load_identities l [] identities = ok identities
load_identities l (document ∷ documents) identities = do
  i ← parse_identity l document
  require (not (is_some (Dict.get identities i.identity_id))) registry_error
  load_identities l documents (Dict.put identities i.identity_id i)

unfoldable pub has_entries : Dict String ControlNode → Bool
has_entries nodes = elim (nodes.entries) [ [] ↦ false | e ∷ es ↦ true ]

-- `server.registry_version` is 2.
unfoldable pub is_version : ℤ → Bool
is_version (pos n) = n == 2
is_version _ = false

-- `for node_id in sorted(self._nodes): self._manifest(node_id)`
unfoldable pub check_manifests :
    (Value → String) → String → Dict String ControlNode → List String → Result (Unit {0})
unfolding manifest depth
check_manifests digest server_id nodes [] = ok tt
check_manifests digest server_id nodes (node_id ∷ ids) = do
  m ← manifest digest server_id nodes (depth nodes) node_id
  check_manifests digest server_id nodes ids

-- `CapabilityRegistry.__init__`
unfoldable pub make_registry :
    (Value → String)
    → String
    → Dict String ControlNode
    → Dict String IdentitySpec
    → Result CapabilityRegistry
unfolding validate check_manifests
make_registry digest server_id nodes identities = do
  let r : CapabilityRegistry = record {
    server_id = server_id;
    nodes = nodes;
    identities = identities;
  }
  checked ← validate r
  described ← check_manifests digest server_id nodes (sort_texts (Dict.keys nodes))
  ok r

-- `load`, of the server's document and those of its robots and identities
unfoldable pub load :
    (Value → String)
    → Letters
    → (ℤ → ℕ)
    → Fields
    → List Fields
    → List Fields
    → Result CapabilityRegistry
unfolding check_keys item mapping_of int_of is_version str_of load_nodes has_entries load_identities
    found make_registry
load digest l to_float server_document robots identities = do
  check_keys server_document ("server" ∷ []) []
  server ← item "server" server_document >>= mapping_of
  check_keys server ("id" ∷ "registry_version" ∷ []) []
  version ← item "registry_version" server >>= int_of
  require (is_version version) registry_error
  server_id ← item "id" server >>= str_of
  nodes ← load_nodes l to_float robots Dict.empty
  require (has_entries nodes) registry_error
  known ← load_identities l identities Dict.empty
  found (make_registry digest server_id nodes known)
