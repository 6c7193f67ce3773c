-- ===== src/Registry/Sample.antt =====
-- A registry of one arm that a cell reaches under two roles, for the tests on remote_robot/registry.py.
use remote_robot.Prelude.{pos, String, Bool, true, false, none, [], ◌∷◌, string_eq}
use remote_robot.Dict.{Dict}
use remote_robot.Value.{null}
use remote_robot.Registry.Model.{ActuatorGroupSpec}
use remote_robot.Registry.Nodes.{
  ControlNode, physical, composite, PhysicalNode, CompositeNode, ResolvedGroup,
}

abbrev pub wrist : ActuatorGroupSpec
wrist = record {
  group_id = "wrist";
  axes = [];
  command_schemas = [];
  telemetry_schemas = [];
  control_rate_hz = 0;
}

abbrev pub arm : PhysicalNode
arm = record {
  node_id = "arm7";
  revision = pos 1;
  exposed_as_run_root = false;
  adapter = "sim";
  adapter_revision = pos 1;
  configuration_revision = pos 1;
  groups = wrist ∷ [];
  resources = [];
  safety_domains = [];
  safety_policies = [];
  cross_collision_checked = false;
  watchdog = none;
  connection = null;
}

-- The cell, whose second role is an alias or not.
abbrev pub cell : String → Bool → CompositeNode
cell target alias = record {
  node_id = "cell";
  revision = pos 1;
  exposed_as_run_root = true;
  children =
      record { role = "left"; node_id = "arm7"; alias = false }
      ∷ record { role = "spare"; node_id = target; alias = alias }
      ∷ [];
  resources = [];
  safety_domains = [];
  safety_policies = [];
  cross_collision_checked = false;
  max_start_skew_us = none;
}

abbrev pub nodes : String → Bool → Dict String ControlNode
nodes target alias = record {
  entries = ("cell", composite (cell target alias)) ∷ ("arm7", physical arm) ∷ [];
}

abbrev pub good : Dict String ControlNode
good = nodes "arm7" true

abbrev pub left_wrist : ResolvedGroup
left_wrist = record {
  root_node_id = "cell";
  role_path = "left.wrist";
  physical_node_id = "arm7";
  group_id = "wrist";
  group = wrist;
}
