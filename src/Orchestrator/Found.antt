-- ===== src/Orchestrator/Found.antt =====
-- remote_robot/orchestrator.py over remote_robot/registry.py: `_collect_role_branch_locks` finds the
-- locks of each role path that `resolve_group` resolves, in the manifest that `describe` gives.
use mathlib.Core.Path.{subst}
use remote_robot.Prelude.{
  ℕ, zero, suc, String, ◌≡◌, refl, sym, ap, Bool, true, not, ◌||◌, none, some, List, [], ◌∷◌,
  string_eq, ==_refl, ◌==◌, arith,
}
use remote_robot.Dict
use remote_robot.Dict.{Dict}
use remote_robot.Value.{Value, Items, Fields, list, dict, get}
use remote_robot.Text.{split_dots}
use remote_robot.Journal.Data.{ends_with}
use remote_robot.Registry.Model
use remote_robot.Registry.Model.{ActuatorGroupSpec, registry_error}
use remote_robot.Registry.Nodes.{
  ControlNode, physical, composite, PhysicalNode, CompositeNode, ChildRef, ResolvedGroup, child,
  group,
}
use remote_robot.Registry.Graph.{
  CapabilityRegistry, node, found, resolve_from, resolve_group, none_empty, starts_dot, depth,
}
use remote_robot.Registry.Manifest.{physical_body, composite_body, child_dict, physical_descendants}
use remote_robot.Registry.Describe.{child_manifests, manifest_of, manifest, describe}
use remote_robot.Registry.Acyclic.{>>=-eq-ok}
use remote_robot.Registry.Paths.{found-ok, node-ok}
use remote_robot.Orchestrator.{ok, is_str}
use remote_robot.Orchestrator.Locks.{
  matching, only_manifest, child_manifest, own_locks, both, joined, collect_role_branch_locks,
}
use remote_robot.Orchestrator.Located.{
  HasRoles, own_locks-physical, own_locks-composite, matching-one, resolve_from-some,
}

collect-leaf :
    (m : Fields) (own : List String × List String) (name physical_id : String)
    → own_locks m ≡ ok own
    → is_str (get "kind" m) "physical" ≡ true
    → is_str (get "node_id" m) physical_id ≡ true
    → collect_role_branch_locks m (name ∷ []) physical_id ≡ ok (both own ([], []))
unfolding collect_role_branch_locks joined
collect-leaf m own name physical_id o k n = rw (o, k, n) refl

collect-below :
    (m below : Fields) (own others : List String × List String) (role next physical_id : String)
    (path : List String)
    → own_locks m ≡ ok own
    → is_str (get "kind" m) "composite" ≡ true
    → child_manifest m role ≡ ok below
    → collect_role_branch_locks below (next ∷ path) physical_id ≡ ok others
    → collect_role_branch_locks m (role ∷ next ∷ path) physical_id ≡ ok (both own others)
unfolding collect_role_branch_locks joined
collect-below m below own others role next physical_id path o k c b = rw (o, k, c, b) refl

child_manifest-one :
    (m below : Fields) (role : String) (ref : ChildRef) (hash : Value) (items : Items)
    → get "children" m ≡ some (list items)
    → matching role items ≡ child_dict ref hash below ∷ []
    → child_manifest m role ≡ ok below
unfolding child_manifest only_manifest child_dict get
child_manifest-one m below role ref hash items c one = rw (c, child_manifest) (rw one refl)

located-physical :
    (server_id : String) (q : PhysicalNode) (hash name physical_id : String)
    → q.node_id ≡ physical_id
    → collect_role_branch_locks (physical_body server_id q (some hash)) (name ∷ []) physical_id
      ≡ ok (both (q.resources, q.safety_domains) ([], []))
unfolding physical_body get is_str
located-physical server_id q hash name physical_id same =
    collect-leaf (physical_body server_id q (some hash)) (q.resources, q.safety_domains) name
      physical_id (own_locks-physical server_id q hash) refl
      (ground (arith, same, ==_refl q.node_id))

located-composite :
    (server_id : String) (c : CompositeNode) (items : Items) (safe unattended : Bool)
    (digest : String) (m below : Fields) (ref : ChildRef) (hash : Value) (role name : String)
    (path : List String) (physical_id : String) (names : List String)
    (others : List String × List String)
    → composite_body server_id c items safe unattended (some digest) ≡ m
    → names ≡ name ∷ path
    → matching role items ≡ child_dict ref hash below ∷ []
    → collect_role_branch_locks below names physical_id ≡ ok others
    → collect_role_branch_locks m (role ∷ names) physical_id
      ≡ ok (both (c.resources, c.safety_domains) others)
unfolding composite_body get is_str
located-composite server_id c items safe unattended digest m below ref hash role name path
      physical_id names others listed shape match collected =
    let body = composite_body server_id c items safe unattended (some digest) in
    let found_below =
      subst (λ ns. collect_role_branch_locks below ns physical_id ≡ ok others) shape collected in
    let here : collect_role_branch_locks body (role ∷ name ∷ path) physical_id
        ≡ ok (both (c.resources, c.safety_domains) others) =
      collect-below body below (c.resources, c.safety_domains) others role name physical_id path
        (own_locks-composite server_id c items safe unattended digest) refl
        (child_manifest-one body below role ref hash items refl match) found_below in
    subst
      (λ ns.
        collect_role_branch_locks m (role ∷ ns) physical_id
        ≡ ok (both (c.resources, c.safety_domains) others))
      (sym shape)
      (subst
        (λ x.
          collect_role_branch_locks x (role ∷ name ∷ path) physical_id
          ≡ ok (both (c.resources, c.safety_domains) others))
        listed here)

ok-inj : {x y : Fields} → Model.ok x ≡ Model.ok y → x ≡ y
ok-inj h = ground (arith, h)

module _ (digest : Value → String) (server_id : String) (nodes : Dict String ControlNode) where
  manifest-manifest_of :
      (fuel : ℕ) (node_id : String) (n : ControlNode) (m : Fields)
      → Dict.get nodes node_id ≡ some n
      → manifest digest server_id nodes (suc fuel) node_id ≡ Model.ok m
      → manifest_of digest server_id nodes (manifest digest server_id nodes fuel) (suc fuel) n
        ≡ Model.ok m
  unfolding manifest node
  manifest-manifest_of fuel node_id n m there h =
      let (n', found_node, rest) = >>=-eq-ok (node nodes node_id) _ m h in
      let same : n' ≡ n = ground (arith, node-ok nodes node_id n' found_node, there) in
      subst
        (λ k.
          manifest_of digest server_id nodes (manifest digest server_id nodes fuel) (suc fuel) k
          ≡ Model.ok m)
        same rest

  located :
      HasRoles nodes
      → (fuel : ℕ) (node_id : String) (n : ControlNode) (names : List String) (p : PhysicalNode)
        (g : ActuatorGroupSpec) (m : Fields)
      → Dict.get nodes node_id ≡ some n
      → resolve_from nodes n names ≡ Model.ok (p, g)
      → manifest digest server_id nodes fuel node_id ≡ Model.ok m
      → (locks : List String × List String) × (collect_role_branch_locks m names p.node_id
          ≡ ok locks)
  unfolding manifest manifest_of resolve_from
  located u zero node_id n names p g m there h e = absurd (ground (arith, e))
  located u (suc fuel) node_id (physical q) [] p g m there h e = absurd (ground (arith, h))
  located u (suc fuel) node_id (physical q) (x ∷ y ∷ names) p g m there h e =
      absurd (ground (arith, h))
  located u (suc fuel) node_id (physical q) (name ∷ []) p g m there h e =
      let (g', _, last) = >>=-eq-ok (found (group q name)) _ (p, g) h in
      let same : q ≡ p = ground (arith, last) in
      let body = manifest-manifest_of fuel node_id (physical q) m there e in
      let listed : physical_body server_id q (some (digest (dict (physical_body server_id q none))))
          ≡ m =
        ground (arith, body) in
      (
        both (q.resources, q.safety_domains) ([], []),
        subst
            (λ x.
              collect_role_branch_locks x (name ∷ []) p.node_id
              ≡ ok (both (q.resources, q.safety_domains) ([], [])))
            listed (located-physical server_id q _ name p.node_id (ap (λ n. n.node_id) same)),
      )
  located u (suc fuel) node_id (composite c) [] p g m there h e = absurd (ground (arith, h))
  located u (suc fuel) node_id (composite c) (role ∷ names) p g m there h e =
      let (ref, found_child, rest) = >>=-eq-ok (found (child c role)) _ (p, g) h in
      let (next, found_node, deeper) = >>=-eq-ok (node nodes ref.node_id) _ (p, g) rest in
      let (name, path, shape) = resolve_from-some nodes next names (p, g) deeper in
      let body = manifest-manifest_of fuel node_id (composite c) m there e in
      let (items, children, b1) =
        >>=-eq-ok (child_manifests (manifest digest server_id nodes fuel) c.children) _ m body in
      let (leaves, _, b2) = >>=-eq-ok (physical_descendants nodes (suc fuel) c.node_id) _ m b1 in
      let (below, hash, one, match) =
        matching-one (manifest digest server_id nodes fuel) role c.children ref items children
          (found-ok (child c role) ref found_child) (u node_id c there) in
      let (others, collected) =
        located u fuel ref.node_id next names p g below (node-ok nodes ref.node_id next found_node)
          deeper one in
      (
        both (c.resources, c.safety_domains) others,
        located-composite server_id c items _ _ _ m below ref hash role name path p.node_id names
            others (ok-inj b2) shape match collected,
      )

-- Where the registry resolves a role path, the locks of that path are found in the manifest that it
-- gives of the root. No two children of a composite node have one role.
pub describe-collect_role_branch_locks :
    (digest : Value → String) (r : CapabilityRegistry) (root_id role_path : String)
    (g : ResolvedGroup) (m : Fields)
    → HasRoles r.nodes
    → resolve_group r.nodes root_id role_path ≡ Model.ok g
    → describe digest r root_id none ≡ Model.ok m
    → (locks : List String × List String) × (collect_role_branch_locks m
          (split_dots role_path)
          g.physical_node_id
        ≡ ok locks)
unfolding resolve_group describe
describe-collect_role_branch_locks digest r root_id role_path g m u h e =
    let (_, _, h1) =
      >>=-eq-ok
        (Model.require (not (role_path == "" || starts_dot role_path || ends_with "." role_path))
          registry_error)
        _ g h in
    let (_, _, h2) =
      >>=-eq-ok (Model.require (none_empty (split_dots role_path)) registry_error) _ g h1 in
    let (root, at_root, h3) = >>=-eq-ok (node r.nodes root_id) _ g h2 in
    let (leaf, resolved, last) =
      >>=-eq-ok (resolve_from r.nodes root (split_dots role_path)) _ g h3 in
    let physical_id : leaf.0.node_id ≡ g.physical_node_id = ground (arith, last) in
    let (locks, collected) =
      located digest r.server_id r.nodes u (depth r.nodes) root_id root (split_dots role_path)
        (leaf.0) (leaf.1) m (node-ok r.nodes root_id root at_root) resolved e in
    (
      locks,
      subst (λ id. collect_role_branch_locks m (split_dots role_path) id ≡ ok locks) physical_id
          collected,
    )
