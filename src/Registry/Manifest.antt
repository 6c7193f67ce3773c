-- ===== src/Registry/Manifest.antt =====
-- remote_robot/registry.py and remote_robot/model.py: the public manifest of a node, its entries in
-- canonical order. The digest, `canonical_cbor_sha256`, is a parameter.
use remote_robot.Prelude.{
  ℕ, zero, suc, ℤ, pos, length, String, Bool, Option, none, some, List, [], ◌∷◌, string_eq, nat_eq,
}
use remote_robot.Dict
use remote_robot.Dict.{Dict}
use remote_robot.Text.{sort_texts}
use remote_robot.Value.{
  Value, Items, Fields, null, bool, int, float, str, list, dict, nil, cons, end, field,
}
use remote_robot.Registry.Model.{
  Result, ok, raise, ◌>>=◌, key_error, out_of_fuel, AxisSpec, ActuatorGroupSpec,
}
use remote_robot.Registry.Nodes.{
  WatchdogSpec, ChildRef, PhysicalNode, CompositeNode, ControlNode, physical, composite,
}

unfoldable pub texts : List String → Items
texts [] = nil
texts (s ∷ ss) = cons (str s) (texts ss)

unfoldable pub int_or_null : Option ℤ → Value
int_or_null none = null
int_or_null (some n) = int n

-- `AxisSpec.public_dict`
unfoldable pub axis_dict : AxisSpec → Fields
axis_dict a = field (str "kind") (str a.kind) (
    field (str "unit") (str a.unit) (
      field (str "axis_id") (str a.axis_id) (
        field (str "maximum") (float a.maximum) (
          field (str "minimum") (float a.minimum) (elim a.max_velocity [
            | none ↦ end
            | some v ↦ field (str "max_velocity") (float v) end
          ])))))

unfoldable pub axes_items : List AxisSpec → Items
unfolding axis_dict
axes_items [] = nil
axes_items (a ∷ rest) = cons (dict (axis_dict a)) (axes_items rest)

-- `ActuatorGroupSpec.public_dict`
unfoldable pub group_dict : ActuatorGroupSpec → Fields
unfolding axes_items texts
group_dict g = field (str "axes") (list (axes_items g.axes)) (
    field (str "group_id") (str g.group_id) (
      field (str "dimension") (int (pos (length g.axes))) (
        field (str "command_schemas") (list (texts g.command_schemas)) (
          field (str "control_rate_hz") (float g.control_rate_hz)
            (field (str "telemetry_schemas") (list (texts g.telemetry_schemas)) end)))))

unfoldable pub groups_items : List ActuatorGroupSpec → Items
unfolding group_dict
groups_items [] = nil
groups_items (g ∷ rest) = cons (dict (group_dict g)) (groups_items rest)

-- `WatchdogSpec.public_dict`
unfoldable pub watchdog_dict : WatchdogSpec → Fields
unfolding int_or_null
watchdog_dict w = field (str "strategy") (str w.strategy) (
    field (str "deadline_ms") (int_or_null w.deadline_ms) (
      field (str "expiry_action") (str w.expiry_action) (
        field (str "worker_crash_safe") (bool w.worker_crash_safe)
          (field (str "unattended_operation_allowed") (bool w.unattended_operation_allowed) end))))

unfoldable pub watchdog_or_null : Option WatchdogSpec → Value
unfolding watchdog_dict
watchdog_or_null none = null
watchdog_or_null (some w) = dict (watchdog_dict w)

-- `manifest_hash`, in the manifest but not in what is digested
unfoldable pub with_hash : Option String → Fields → Fields
with_hash none behind = behind
with_hash (some hash) behind = field (str "manifest_hash") (str hash) behind

unfoldable pub safety_dict : List String → Bool → Fields
unfolding texts
safety_dict policies checked =
    field (str "policies") (list (texts policies))
      (field (str "cross_collision_checked") (bool checked) end)

-- the manifest of a physical node
unfoldable pub physical_body : String → PhysicalNode → Option String → Fields
unfolding groups_items safety_dict watchdog_or_null texts with_hash
physical_body server_id n hash = field (str "kind") (str "physical") (
    field (str "groups") (list (groups_items n.groups)) (
      field (str "safety") (dict (safety_dict n.safety_policies n.cross_collision_checked)) (
        field (str "adapter")
          (dict (
            field (str "name") (str n.adapter)
              (field (str "revision") (int n.adapter_revision) end)))
          (field (str "node_id") (str n.node_id) (
            field (str "protocol") (str "robot-stream.v2") (
              field (str "revision") (int n.revision) (
                field (str "watchdog") (watchdog_or_null n.watchdog) (
                  field (str "resources") (list (texts n.resources)) (
                    field (str "server_id") (str server_id) (
                      with_hash hash (
                        field (str "safety_domains") (list (texts n.safety_domains)) (
                          field (str "exposed_as_run_root") (bool n.exposed_as_run_root) (
                            field (str "configuration_revision") (int n.configuration_revision)
                              end)))))))))))))

-- one entry of `children`
unfoldable pub child_dict : ChildRef → Value → Fields → Fields
child_dict ref hash manifest = field (str "role") (str ref.role) (
    field (str "alias") (bool ref.alias) (
      field (str "node_id") (str ref.node_id)
        (field (str "manifest") (dict manifest) (field (str "manifest_hash") hash end))))

-- the manifest of a composite node, of its children's and of its assurances
unfoldable pub composite_body :
    String → CompositeNode → Items → Bool → Bool → Option String → Fields
unfolding safety_dict texts int_or_null with_hash
composite_body server_id n children crash_safe unattended hash =
    field (str "kind") (str "composite") (
      field (str "safety") (dict (safety_dict n.safety_policies n.cross_collision_checked)) (
        field (str "node_id") (str n.node_id) (
          field (str "children") (list children) (
            field (str "protocol") (str "robot-stream.v2") (
              field (str "revision") (int n.revision) (
                field (str "resources") (list (texts n.resources)) (
                  field (str "server_id") (str server_id) (
                    field (str "assurances")
                      (dict (
                        field (str "worker_crash_safe") (bool crash_safe)
                          (field (str "unattended_operation_allowed") (bool unattended) end)))
                      (with_hash hash (
                        field (str "safety_domains") (list (texts n.safety_domains)) (
                          field (str "max_start_skew_us") (int_or_null n.max_start_skew_us) (
                            field (str "exposed_as_run_root") (bool n.exposed_as_run_root)
                              end))))))))))))

-- `for child in node.children: collect(child.node_id)`
unfoldable pub collect_all :
    (String → Dict String PhysicalNode → Result (Dict String PhysicalNode))
    → List ChildRef
    → Dict String PhysicalNode
    → Result (Dict String PhysicalNode)
collect_all collect [] result = ok result
collect_all collect (c ∷ cs) result = do
  more ← collect c.node_id result
  collect_all collect cs more

-- `collect`, on fuel
unfoldable pub collect :
    Dict String ControlNode
    → ℕ
    → String
    → Dict String PhysicalNode
    → Result (Dict String PhysicalNode)
unfolding collect_all
collect nodes zero node_id result = raise out_of_fuel
collect nodes (suc fuel) node_id result = elim (Dict.get nodes node_id) [
  | none ↦ raise key_error
  | some (physical p) ↦ ok (Dict.put result p.node_id p)
  | some (composite c) ↦ collect_all (collect nodes fuel) c.children result
]

unfoldable pub values_of : Dict String PhysicalNode → List String → List PhysicalNode
values_of result [] = []
values_of result (k ∷ ks) = elim (Dict.get result k) [
  | none ↦ values_of result ks
  | some p ↦ p ∷ values_of result ks
]

-- `_physical_descendants`
unfoldable pub physical_descendants :
    Dict String ControlNode → ℕ → String → Result (List PhysicalNode)
unfolding collect values_of
physical_descendants nodes fuel node_id = do
  result ← collect nodes fuel node_id Dict.empty
  ok (values_of result (sort_texts (Dict.keys result)))
