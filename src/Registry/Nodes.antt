-- ===== src/Registry/Nodes.antt =====
-- remote_robot/model.py: the nodes of the registry and the identities, with their checks and queries.
use Prim.Native.String
use remote_robot.Prelude.{
  ℤ, String, Bool, true, not, ◌&&◌, ◌||◌, Option, none, some, List, [], ◌∷◌, map, ◌==◌, string_eq,
  if◌then◌else◌, contains,
}
use remote_robot.Value.{Value}
use remote_robot.Registry.Model.{
  Letters, Result, ok, raise, ◌>>◌, require, value_error, key_error, require_identifier,
  require_unique, is_positive, is_empty, ActuatorGroupSpec,
}

pub record WatchdogSpec : Type 0 where
  pub strategy : String
  pub deadline_ms : Option ℤ
  pub expiry_action : String
  pub worker_crash_safe : Bool
  pub unattended_operation_allowed : Bool

unfoldable pub is_deadline : Option ℤ → Bool
unfolding is_positive
is_deadline none = true
is_deadline (some n) = is_positive n

-- `WatchdogSpec.__post_init__`
unfoldable pub check_watchdog : WatchdogSpec → Result (Unit {0})
unfolding is_deadline
check_watchdog w = do
  require (not (w.strategy == "")) value_error
  require (is_deadline w.deadline_ms) value_error
  require (not (w.expiry_action == "")) value_error
  require (not (w.unattended_operation_allowed && not w.worker_crash_safe)) value_error

pub record ChildRef : Type 0 where
  pub role : String
  pub node_id : String
  pub alias : Bool

-- `ChildRef.__post_init__`
unfoldable pub check_child : Letters → ChildRef → Result (Unit {0})
unfolding require_identifier
check_child l c = do require_identifier l c.role; require_identifier l c.node_id

pub record PhysicalNode : Type 0 where
  pub node_id : String
  pub revision : ℤ
  pub exposed_as_run_root : Bool
  pub adapter : String
  pub adapter_revision : ℤ
  pub configuration_revision : ℤ
  pub groups : List ActuatorGroupSpec
  pub resources : List String
  pub safety_domains : List String
  pub safety_policies : List String
  pub cross_collision_checked : Bool
  pub watchdog : Option WatchdogSpec
  pub connection : Value

-- `PhysicalNode.__post_init__`
unfoldable pub check_physical : Letters → PhysicalNode → Result (Unit {0})
unfolding require_identifier is_positive require_unique
check_physical l n = do
  require_identifier l n.node_id
  require
      (is_positive n.revision
        && is_positive n.adapter_revision
        && is_positive n.configuration_revision)
      value_error
  require (not (n.adapter == "")) value_error
  require (not (is_empty n.groups)) value_error
  require_unique (map (λ g. g.group_id) n.groups)
  require_unique n.resources
  require_unique n.safety_domains
  require_unique n.safety_policies

unfoldable pub find_group : String → List ActuatorGroupSpec → Result ActuatorGroupSpec
find_group group_id [] = raise key_error
find_group group_id (g ∷ gs) = if g.group_id == group_id then ok g else find_group group_id gs

-- `PhysicalNode.group`
unfoldable pub group : PhysicalNode → String → Result ActuatorGroupSpec
unfolding find_group
group n group_id = find_group group_id n.groups

pub record CompositeNode : Type 0 where
  pub node_id : String
  pub revision : ℤ
  pub exposed_as_run_root : Bool
  pub children : List ChildRef
  pub resources : List String
  pub safety_domains : List String
  pub safety_policies : List String
  pub cross_collision_checked : Bool
  pub max_start_skew_us : Option ℤ

-- `CompositeNode.__post_init__`
unfoldable pub check_composite : Letters → CompositeNode → Result (Unit {0})
unfolding require_identifier is_positive require_unique is_deadline
check_composite l n = do
  require_identifier l n.node_id
  require (is_positive n.revision) value_error
  require (not (is_empty n.children)) value_error
  require_unique (map (λ c. c.role) n.children)
  require_unique n.resources
  require_unique n.safety_domains
  require_unique n.safety_policies
  require (is_deadline n.max_start_skew_us) value_error

unfoldable pub find_child : String → List ChildRef → Result ChildRef
find_child role [] = raise key_error
find_child role (c ∷ cs) = if c.role == role then ok c else find_child role cs

-- `CompositeNode.child`
unfoldable pub child : CompositeNode → String → Result ChildRef
unfolding find_child
child n role = find_child role n.children

pub data ControlNode : Type 0 where
  physical : PhysicalNode → ControlNode
  composite : CompositeNode → ControlNode

pub record ResolvedGroup : Type 0 where
  pub root_node_id : String
  pub role_path : String
  pub physical_node_id : String
  pub group_id : String
  pub group : ActuatorGroupSpec

-- `ResolvedGroup.canonical_id`
unfoldable pub canonical_id : ResolvedGroup → String
canonical_id r = String.◌++◌ r.physical_node_id (String.◌++◌ "." r.group_id)

pub record IdentitySpec : Type 0 where
  pub identity_id : String
  pub credential_env : String
  pub discover : List String
  pub observe : List String
  pub control : List String
  pub emergency_stop : List String

-- `IdentitySpec.__post_init__`
unfoldable pub check_identity : Letters → IdentitySpec → Result (Unit {0})
unfolding require_identifier require_unique
check_identity l i = do
  require_identifier l i.identity_id
  require (not (i.credential_env == "")) value_error
  require_unique i.discover
  require_unique i.observe
  require_unique i.control
  require_unique i.emergency_stop

unfoldable pub can_discover : IdentitySpec → String → Bool
unfolding contains
can_discover i node_id = contains i.discover "*" || contains i.discover node_id

unfoldable pub can_observe : IdentitySpec → String → Bool
unfolding contains
can_observe i node_id = contains i.observe "*" || contains i.observe node_id

unfoldable pub can_emergency_stop : IdentitySpec → String → Bool
unfolding contains
can_emergency_stop i node_id = contains i.emergency_stop "*" || contains i.emergency_stop node_id

-- `can_control`, of a role path
unfoldable pub can_control : IdentitySpec → String → String → Bool
unfolding contains
can_control i node_id role_path =
    contains i.control "*"
    || contains i.control node_id
    || contains i.control (String.◌++◌ node_id ".*")
    || contains i.control (String.◌++◌ node_id (String.◌++◌ "." role_path))
