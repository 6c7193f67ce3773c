-- ===== src/Orchestrator/Located.antt =====
-- remote_robot/orchestrator.py over remote_robot/registry.py: the locks of a role path that resolves are
-- found in the root's manifest.
use remote_robot.Prelude.{
  String, ◌≡◌, refl, sym, ap, ◌∙◌, Bool, true, false, some, List, [], ◌∷◌, map, string_eq, ==_iff,
  ◌==◌, contains, arith, inl, inr, Bool-cases, if◌then◌else◌,
}
use remote_robot.Dict
use remote_robot.Dict.{Dict}
use remote_robot.Value.{Value, Items, Fields, list, dict, nil, cons, get}
use remote_robot.Registry.Model
use remote_robot.Registry.Model.{is_unique, ActuatorGroupSpec}
use remote_robot.Registry.Nodes.{
  ControlNode, physical, composite, PhysicalNode, CompositeNode, ChildRef, find_child,
}
use remote_robot.Registry.Graph.{found, resolve_from}
use remote_robot.Registry.Manifest.{texts, with_hash, physical_body, composite_body, child_dict}
use remote_robot.Registry.Describe.{hash_in, child_manifests}
use remote_robot.Registry.Acyclic.{>>=-eq-ok}
use remote_robot.Orchestrator.{ok, is_str}
use remote_robot.Orchestrator.Locks.{strings, string_list, matching, own_locks}

-- No two children of a composite node have one role, as `CompositeNode.__post_init__` checks.
abbrev pub HasRoles : Dict String ControlNode → Type 0
HasRoles nodes =
    (node_id : String) (c : CompositeNode)
    → Dict.get nodes node_id ≡ some (composite c)
    → is_unique (map (λ r. r.role) c.children) ≡ true

strings-texts : (names : List String) → strings (texts names) ≡ ok names
unfolding strings texts
strings-texts [] = refl
strings-texts (s ∷ ss) = rw (strings-texts ss) refl

own_locks_lem :
    (m : Fields) (resources domains : List String)
    → get "resources" m ≡ some (list (texts resources))
    → get "safety_domains" m ≡ some (list (texts domains))
    → own_locks m ≡ ok (resources, domains)
unfolding own_locks string_list
own_locks_lem m resources domains r d =
    ground (arith, r, d, strings-texts resources, strings-texts domains)

pub own_locks-physical :
    (server_id : String) (n : PhysicalNode) (hash : String)
    → own_locks (physical_body server_id n (some hash)) ≡ ok (n.resources, n.safety_domains)
unfolding get physical_body with_hash
own_locks-physical server_id n hash = own_locks_lem _ n.resources n.safety_domains refl refl

pub own_locks-composite :
    (server_id : String) (n : CompositeNode) (children : Items) (safe unattended : Bool)
    (hash : String)
    → own_locks (composite_body server_id n children safe unattended (some hash))
      ≡ ok (n.resources, n.safety_domains)
unfolding get composite_body with_hash
own_locks-composite server_id n children safe unattended hash =
    own_locks_lem _ n.resources n.safety_domains refl refl

matching-cons :
    (role : String) (c : ChildRef) (hash : Value) (m : Fields) (rest : Items)
    → matching role (cons (dict (child_dict c hash m)) rest)
      ≡ (if c.role == role then child_dict c hash m ∷ matching role rest else matching role rest)
unfolding matching child_dict get is_str
matching-cons role c hash m rest = refl

matching-listed :
    (role : String) (c : ChildRef) (hash : Value) (m : Fields) (rest items : Items)
    → cons (dict (child_dict c hash m)) rest ≡ items
    → matching role items
      ≡ (if c.role == role then child_dict c hash m ∷ matching role rest else matching role rest)
matching-listed role c hash m rest items listed =
    sym (ap (λ xs. matching role xs) listed) ∙ matching-cons role c hash m rest

matching-nil : (role : String) → matching role nil ≡ []
unfolding matching
matching-nil role = refl

matching-none :
    (below : String → Model.Result Fields) (role : String) (cs : List ChildRef) (items : Items)
    → child_manifests below cs ≡ Model.ok items
    → contains (map (λ r. r.role) cs) role ≡ false
    → matching role items ≡ []
unfolding child_manifests contains
matching-none below role [] items h none_such =
    let listed : nil ≡ items = ground (arith, h) in rw (← listed) (matching-nil role)
matching-none below role (c ∷ cs) items h none_such =
    let (m, one, h1) = >>=-eq-ok (below c.node_id) _ items h in
    let (hash, _, h2) = >>=-eq-ok (hash_in m) _ items h1 in
    let (rest, others, last) = >>=-eq-ok (child_manifests below cs) _ items h2 in
    let listed : cons (dict (child_dict c hash m)) rest ≡ items = ground (arith, last) in
    let other : (c.role == role) ≡ false = ground (arith, none_such) in
    rw (← listed) (
      matching-cons role c hash m rest
      ∙ rw other (matching-none below role cs rest others (ground (arith, none_such))))

pub matching-one :
    (below : String → Model.Result Fields) (role : String) (cs : List ChildRef) (c : ChildRef)
    (items : Items)
    → child_manifests below cs ≡ Model.ok items
    → find_child role cs ≡ Model.ok c
    → is_unique (map (λ r. r.role) cs) ≡ true
    → (m : Fields) × (hash : Value) × (below c.node_id ≡ Model.ok m)
      × (matching role items ≡ child_dict c hash m ∷ [])
unfolding child_manifests find_child is_unique
matching-one below role [] c items h f u = absurd (ground (arith, f))
matching-one below role (x ∷ cs) c items h f u =
    let (m, one, h1) = >>=-eq-ok (below x.node_id) _ items h in
    let (hash, _, h2) = >>=-eq-ok (hash_in m) _ items h1 in
    let (rest, others, last) = >>=-eq-ok (child_manifests below cs) _ items h2 in
    let listed : cons (dict (child_dict x hash m)) rest ≡ items = ground (arith, last) in
    elim (Bool-cases (x.role == role)) [
      | inl this ↦
          let same : x ≡ c = ground (arith, f, this) in
          let nothing : matching role rest ≡ [] =
            matching-none below role cs rest others
              (ground (arith, u, (==_iff x.role role).0 this)) in
          rw (← same) (
            m,
            hash,
            one,
            rw (← listed) (
                matching-cons role x hash m rest
                ∙ rw this (ap (λ r. child_dict x hash m ∷ r) nothing)),
          )
      | inr other ↦
          let (m', hash', one', found) =
            matching-one below role cs c rest others (ground (arith, f, other))
              (ground (arith, u)) in
          (m', hash', one', matching-listed role x hash m rest items listed ∙ rw other found)
    ]

-- `resolve_from` never ends at a role.
pub resolve_from-some :
    (nodes : Dict String ControlNode) (n : ControlNode) (names : List String)
    (out : PhysicalNode × ActuatorGroupSpec)
    → resolve_from nodes n names ≡ Model.ok out
    → (name : String) × (rest : List String) × (names ≡ name ∷ rest)
unfolding resolve_from
resolve_from-some nodes (physical p) [] out h = absurd (ground (arith, h))
resolve_from-some nodes (composite c) [] out h = absurd (ground (arith, h))
resolve_from-some nodes n (name ∷ rest) out h = (name, rest, refl)
