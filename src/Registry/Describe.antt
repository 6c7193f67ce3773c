-- ===== src/Registry/Describe.antt =====
-- remote_robot/registry.py: `_manifest`, `describe` and `list_robots`.
use remote_robot.Prelude.{
  ℕ, zero, suc, length, String, Bool, true, false, ◌&&◌, Option, none, some, List, [], ◌∷◌, ◌==◌,
  string_eq, nat_eq, ltb,
}
use remote_robot.Dict
use remote_robot.Dict.{Dict}
use remote_robot.Text.{sort_texts}
use remote_robot.Value.{Value, Items, Fields, dict, nil, cons, get}
use remote_robot.Registry.Model.{
  Result, ok, raise, ◌>>=◌, ◌>>◌, require, key_error, registry_error, out_of_fuel,
}
use remote_robot.Registry.Nodes.{
  WatchdogSpec, ChildRef, PhysicalNode, ControlNode, physical, composite, IdentitySpec,
  can_discover,
}
use remote_robot.Registry.Graph.{CapabilityRegistry, node, identity, depth}
use remote_robot.Registry.Manifest.{physical_body, composite_body, child_dict, physical_descendants}

-- the watchdogs of the nodes that have one
unfoldable pub watchdogs_of : List PhysicalNode → List WatchdogSpec
watchdogs_of [] = []
watchdogs_of (p ∷ ps) = elim p.watchdog [ none ↦ watchdogs_of ps | some w ↦ w ∷ watchdogs_of ps ]

unfoldable pub all_watchdogs : (WatchdogSpec → Bool) → List WatchdogSpec → Bool
all_watchdogs test [] = true
all_watchdogs test (w ∷ ws) = test w && all_watchdogs test ws

-- an assurance: there are nodes below, each has a watchdog, and all watchdogs pass
unfoldable pub assured : (WatchdogSpec → Bool) → List PhysicalNode → Bool
unfolding watchdogs_of all_watchdogs
assured test ps =
    ltb 0 (length ps)
    && (length (watchdogs_of ps) == length ps)
    && all_watchdogs test (watchdogs_of ps)

-- `child_manifest["manifest_hash"]`
unfoldable pub hash_in : Fields → Result Value
hash_in manifest = elim (get "manifest_hash" manifest) [ none ↦ raise key_error | some h ↦ ok h ]

-- the loop over the children
unfoldable pub child_manifests : (String → Result Fields) → List ChildRef → Result Items
unfolding hash_in child_dict
child_manifests manifest [] = ok nil
child_manifests manifest (c ∷ cs) = do
  below ← manifest c.node_id
  hash ← hash_in below
  rest ← child_manifests manifest cs
  ok (cons (dict (child_dict c hash below)) rest)

module _ (digest : Value → String) (server_id : String) (nodes : Dict String ControlNode) where
  -- `_manifest`, on fuel and less its cache, of a node that is there
  unfoldable pub manifest_of : (String → Result Fields) → ℕ → ControlNode → Result Fields
  unfolding physical_body child_manifests physical_descendants assured composite_body
  manifest_of below fuel (physical p) =
      ok (physical_body server_id p (some (digest (dict (physical_body server_id p none)))))
  manifest_of below fuel (composite c) = do
    children ← child_manifests below c.children
    leaves ← physical_descendants nodes fuel c.node_id
    let crash_safe = assured (λ w. w.worker_crash_safe) leaves
    let unattended = assured (λ w. w.unattended_operation_allowed) leaves
    let body = composite_body server_id c children crash_safe unattended
    ok (body (some (digest (dict (body none)))))

  -- `_manifest`
  unfoldable pub manifest : ℕ → String → Result Fields
  unfolding node manifest_of
  manifest zero node_id = raise out_of_fuel
  manifest (suc fuel) node_id = do n ← node nodes node_id; manifest_of (manifest fuel) (suc fuel) n

-- `describe`, of an identity or of none
unfoldable pub describe :
    (Value → String) → CapabilityRegistry → String → Option String → Result Fields
unfolding manifest depth
describe digest r node_id none = manifest digest r.server_id r.nodes (depth r.nodes) node_id
describe digest r node_id (some identity_id) = do
  i ← identity r.identities identity_id
  require (can_discover i node_id) registry_error
  manifest digest r.server_id r.nodes (depth r.nodes) node_id

unfoldable pub is_exposed : ControlNode → Bool
is_exposed (physical p) = p.exposed_as_run_root
is_exposed (composite c) = c.exposed_as_run_root

unfoldable pub describe_all :
    (Value → String) → CapabilityRegistry → IdentitySpec → List String → Result (List Fields)
unfolding describe is_exposed can_discover
describe_all digest r i [] = ok []
describe_all digest r i (node_id ∷ ids) = elim (Dict.get r.nodes node_id) [
  | none ↦ describe_all digest r i ids
  | some n ↦ elim (is_exposed n && can_discover i node_id) [
    | false ↦ describe_all digest r i ids
    | true ↦ do
      one ← describe digest r node_id none
      rest ← describe_all digest r i ids
      ok (one ∷ rest)
  ]
]

-- `list_robots`
unfoldable pub list_robots : (Value → String) → CapabilityRegistry → String → Result (List Fields)
unfolding describe_all
list_robots digest r identity_id = do
  i ← identity r.identities identity_id
  describe_all digest r i (sort_texts (Dict.keys r.nodes))
