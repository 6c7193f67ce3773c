-- ===== src/Registry/Parse.antt =====
-- remote_robot/registry.py: the parsing of the TOML documents, which are values here. `to_float` is
-- `float` of an integer. Each `ValueError` of a class is raised as a `RegistryError`.
use remote_robot.Prelude.{
  ℕ, ℤ, String, Bool, Option, none, some, List, [], ◌∷◌, ◌++◌, ◌==◌, string_eq, if◌then◌else◌,
  subset,
}
use remote_robot.Value.{
  Value, Items, Fields, bool, int, float, str, list, dict, nil, cons, get, keys, text_keys,
}
use remote_robot.Registry.Model.{
  Letters, Result, ok, raise, ◌>>=◌, ◌>>◌, require, registry_error, AxisSpec, ActuatorGroupSpec,
  check_axis, check_group,
}
use remote_robot.Registry.Nodes.{WatchdogSpec, check_watchdog}
use remote_robot.Registry.Graph.{found}

-- `_check_keys`
unfoldable pub check_keys : Fields → List String → List String → Result (Unit {0})
unfolding subset
check_keys table required optional = do
  require (subset required (text_keys (keys table))) registry_error
  require (subset (text_keys (keys table)) (required ++ optional)) registry_error

-- `table[key]`
unfoldable pub item : String → Fields → Result Value
item key table = elim (get key table) [ none ↦ raise registry_error | some v ↦ ok v ]

-- `_mapping`
unfoldable pub mapping_of : Value → Result Fields
mapping_of (dict fs) = ok fs
mapping_of _ = raise registry_error

-- `_list`
unfoldable pub list_of : Value → Result Items
list_of (list xs) = ok xs
list_of _ = raise registry_error

-- `_str`
unfoldable pub str_of : Value → Result String
str_of (str s) = if s == "" then raise registry_error else ok s
str_of _ = raise registry_error

-- `_int`
unfoldable pub int_of : Value → Result ℤ
int_of (int n) = ok n
int_of _ = raise registry_error

-- `_number`
unfoldable pub number_of : (ℤ → ℕ) → Value → Result ℕ
number_of to_float (int n) = ok (to_float n)
number_of to_float (float bits) = ok bits
number_of to_float _ = raise registry_error

-- `_bool`
unfoldable pub bool_of : Value → Result Bool
bool_of (bool b) = ok b
bool_of _ = raise registry_error

unfoldable pub strings_in : Items → Result (List String)
unfolding str_of
strings_in nil = ok []
strings_in (cons v vs) = do s ← str_of v; ss ← strings_in vs; ok (s ∷ ss)

-- `_strings`
unfoldable pub strings_of : Value → Result (List String)
unfolding list_of strings_in
strings_of v = do xs ← list_of v; strings_in xs

-- `_optional_strings`
unfoldable pub optional_strings : Fields → String → Result (List String)
unfolding strings_of
optional_strings table key = elim (get key table) [ none ↦ ok [] | some v ↦ strings_of v ]

-- `None if value is None else …`, of an entry
unfoldable pub optional {ℓ} : {A : Type ℓ} → (Value → Result A) → Option Value → Result (Option A)
optional parse none = ok none
optional parse (some v) = do a ← parse v; ok (some a)

-- `_parse_axis`
unfoldable pub parse_axis : Letters → (ℤ → ℕ) → Value → Result AxisSpec
unfolding mapping_of check_keys item str_of number_of optional found check_axis
parse_axis l to_float raw = do
  table ← mapping_of raw
  check_keys table ("id" ∷ "kind" ∷ "unit" ∷ "minimum" ∷ "maximum" ∷ []) ("max_velocity" ∷ [])
  id ← item "id" table >>= str_of
  kind ← item "kind" table >>= str_of
  unit ← item "unit" table >>= str_of
  minimum ← item "minimum" table >>= number_of to_float
  maximum ← item "maximum" table >>= number_of to_float
  max_velocity ← optional (number_of to_float) (get "max_velocity" table)
  let axis : AxisSpec = record {
    axis_id = id;
    kind = kind;
    unit = unit;
    minimum = minimum;
    maximum = maximum;
    max_velocity = max_velocity;
  }
  checked ← found (check_axis l axis)
  ok axis

unfoldable pub parse_axes : Letters → (ℤ → ℕ) → Items → Result (List AxisSpec)
unfolding parse_axis
parse_axes l to_float nil = ok []
parse_axes l to_float (cons v vs) = do
  axis ← parse_axis l to_float v
  axes ← parse_axes l to_float vs
  ok (axis ∷ axes)

-- `_parse_group`
unfoldable pub parse_group : Letters → (ℤ → ℕ) → Value → Result ActuatorGroupSpec
unfolding mapping_of check_keys item list_of parse_axes str_of strings_of number_of found
    check_group
parse_group l to_float raw = do
  table ← mapping_of raw
  check_keys table
      ("id" ∷ "control_rate_hz" ∷ "command_schemas" ∷ "telemetry_schemas" ∷ "axes" ∷ []) []
  raw_axes ← item "axes" table >>= list_of
  axes ← parse_axes l to_float raw_axes
  id ← item "id" table >>= str_of
  command_schemas ← item "command_schemas" table >>= strings_of
  telemetry_schemas ← item "telemetry_schemas" table >>= strings_of
  control_rate_hz ← item "control_rate_hz" table >>= number_of to_float
  let g : ActuatorGroupSpec = record {
    group_id = id;
    axes = axes;
    command_schemas = command_schemas;
    telemetry_schemas = telemetry_schemas;
    control_rate_hz = control_rate_hz;
  }
  checked ← found (check_group l g)
  ok g

unfoldable pub parse_groups : Letters → (ℤ → ℕ) → Items → Result (List ActuatorGroupSpec)
unfolding parse_group
parse_groups l to_float nil = ok []
parse_groups l to_float (cons v vs) = do
  g ← parse_group l to_float v
  gs ← parse_groups l to_float vs
  ok (g ∷ gs)

-- `_parse_watchdog`
unfoldable pub parse_watchdog : Value → Result WatchdogSpec
unfolding mapping_of check_keys item str_of int_of bool_of optional found check_watchdog
parse_watchdog raw = do
  table ← mapping_of raw
  check_keys table
      ("strategy" ∷ "expiry_action" ∷ "worker_crash_safe" ∷ "unattended_operation_allowed" ∷ [])
      ("deadline_ms" ∷ [])
  strategy ← item "strategy" table >>= str_of
  deadline_ms ← optional int_of (get "deadline_ms" table)
  expiry_action ← item "expiry_action" table >>= str_of
  worker_crash_safe ← item "worker_crash_safe" table >>= bool_of
  unattended ← item "unattended_operation_allowed" table >>= bool_of
  let w : WatchdogSpec = record {
    strategy = strategy;
    deadline_ms = deadline_ms;
    expiry_action = expiry_action;
    worker_crash_safe = worker_crash_safe;
    unattended_operation_allowed = unattended;
  }
  checked ← found (check_watchdog w)
  ok w
