-- ===== src/Registry/LoadTests.antt =====
-- remote_robot/registry.py, `load` of a server with one arm.
use remote_robot.Prelude.{
  ℕ, ℤ, pos, negsuc, String, ◌≡◌, refl, true, false, none, some, [], ◌∷◌, ◌*◌, ◌^◌, string_eq,
}
use remote_robot.Dict
use remote_robot.Dict.{Dict}
use remote_robot.Text.{sort_texts}
use remote_robot.Value.{
  Value, Fields, bool, int, str, dict, list, nil, cons, end, field, text_keys, keys, get,
}
use remote_robot.Registry.Model.{Letters, ok, raise, registry_error, AxisSpec, ActuatorGroupSpec}
use remote_robot.Registry.Nodes.{physical, PhysicalNode, WatchdogSpec}
use remote_robot.Registry.Graph.{CapabilityRegistry}
use remote_robot.Registry.Scopes.{validate}
use remote_robot.Registry.Load.{load, id_of}
use remote_robot.Registry.Loaded.{Passes, load_lem}

-- Each character is a letter, the whole numbers 0 and 1 become the floats 0 and 1, and every digest is the same.
abbrev letters : Letters
letters = record { is_alpha = λ c. true; is_alnum = λ c. true }

abbrev to_float : ℤ → ℕ
to_float (pos n) = n * (1023 * 2 ^ 52)
to_float (negsuc n) = 0

abbrev digest : Value → String
digest v = "digest"

abbrev entry : String → Value → Fields → Fields
entry k v fs = field (str k) v fs

abbrev server : ℕ → Fields
server version =
    entry "server"
      (dict (entry "id" (str "lab") (entry "registry_version" (int (pos version)) end))) end

abbrev axis_document : Value
axis_document = dict (
    entry "id" (str "wrist") (
      entry "kind" (str "revolute") (
        entry "unit" (str "rad")
          (entry "minimum" (int (pos 0)) (entry "maximum" (int (pos 1)) end)))))

abbrev group_document : Value
group_document = dict (
    entry "id" (str "arm") (
      entry "control_rate_hz" (int (pos 1)) (
        entry "command_schemas" (list (cons (str "joint/v1") nil)) (
          entry "telemetry_schemas" (list (cons (str "state/v1") nil))
            (entry "axes" (list (cons axis_document nil)) end)))))

abbrev watchdog_document : Value
watchdog_document = dict (
    entry "strategy" (str "none") (
      entry "expiry_action" (str "none") (
        entry "worker_crash_safe" (bool false)
          (entry "unattended_operation_allowed" (bool false) end))))

abbrev robot : Fields
robot =
    entry "node"
      (dict (
        entry "id" (str "arm7") (
          entry "kind" (str "physical") (
            entry "revision" (int (pos 1)) (
              entry "exposed_as_run_root" (bool true) (
                entry "cross_collision_checked" (bool false) (
                  entry "adapter" (str "sim") (
                    entry "adapter_revision" (int (pos 1)) (
                      entry "configuration_revision" (int (pos 1)) (
                        entry "groups" (list (cons group_document nil))
                          (entry "watchdog" watchdog_document end)))))))))))
      end

abbrev axis : AxisSpec
axis = record {
  axis_id = "wrist";
  kind = "revolute";
  unit = "rad";
  minimum = 0;
  maximum = 1023 * 2 ^ 52;
  max_velocity = none;
}

abbrev arm_group : ActuatorGroupSpec
arm_group = record {
  group_id = "arm";
  axes = axis ∷ [];
  command_schemas = "joint/v1" ∷ [];
  telemetry_schemas = "state/v1" ∷ [];
  control_rate_hz = 1023 * 2 ^ 52;
}

abbrev watchdog_spec : WatchdogSpec
watchdog_spec = record {
  strategy = "none";
  deadline_ms = none;
  expiry_action = "none";
  worker_crash_safe = false;
  unattended_operation_allowed = false;
}

abbrev arm : PhysicalNode
arm = record {
  node_id = "arm7";
  revision = pos 1;
  exposed_as_run_root = true;
  adapter = "sim";
  adapter_revision = pos 1;
  configuration_revision = pos 1;
  groups = arm_group ∷ [];
  resources = [];
  safety_domains = [];
  safety_policies = [];
  cross_collision_checked = false;
  watchdog = some watchdog_spec;
  connection = dict end;
}

abbrev lab : CapabilityRegistry
lab = record {
  server_id = "lab";
  nodes = record { entries = ("arm7", physical arm) ∷ [] };
  identities = record { entries = [] };
}

arm_loaded : load digest letters to_float (server 2) (robot ∷ []) [] ≡ ok lab
unfolding load text_keys keys get Dict.empty Dict.get Dict.put sort_texts Dict.keys
arm_loaded = refl

-- The other version, no robot, and the same robot twice are refused.
old_server : load digest letters to_float (server 1) (robot ∷ []) [] ≡ raise registry_error
unfolding load text_keys keys get Dict.empty Dict.get Dict.put
old_server = refl

no_robots : load digest letters to_float (server 2) [] [] ≡ raise registry_error
unfolding load text_keys keys get Dict.empty Dict.get Dict.put
no_robots = refl

same_robot_twice :
    load digest letters to_float (server 2) (robot ∷ robot ∷ []) [] ≡ raise registry_error
unfolding load text_keys keys get Dict.empty Dict.get Dict.put
same_robot_twice = refl

arm_located : Dict.get lab.nodes "arm7" ≡ some (physical arm)
unfolding Dict.get
arm_located = refl

load_lem_example :
    ((id_of (physical arm) ≡ "arm7") × Passes letters (physical arm)) × (validate lab ≡ ok tt)
load_lem_example =
    load_lem digest letters to_float (server 2) (robot ∷ []) [] lab "arm7" (physical arm) arm_loaded
      arm_located
