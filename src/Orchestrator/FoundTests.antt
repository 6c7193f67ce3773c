-- ===== src/Orchestrator/FoundTests.antt =====
-- The locks of a role path, from the registry to remote_robot/orchestrator.py, at a concrete input.
use remote_robot.Prelude.{
  String, ◌≡◌, refl, true, none, List, string_eq, ◌==◌, arith, inl, inr, Bool-cases, contains,
  sort_by,
}
use remote_robot.Dict
use remote_robot.Value
use remote_robot.Value.{Fields, get}
use remote_robot.Text.{split_dots, sort_texts}
use remote_robot.Registry.Model
use remote_robot.Registry.Model.{is_unique}
use remote_robot.Registry.Nodes.{find_group, find_child, group, child}
use remote_robot.Registry.Graph
use remote_robot.Registry.Graph.{CapabilityRegistry, resolve_group, resolve_from, depth}
use remote_robot.Registry.Manifest
use remote_robot.Registry.Describe
use remote_robot.Registry.Describe.{describe}
use remote_robot.Registry.Sample.{good, cell, left_wrist}
use remote_robot.Journal.Data.{ends_with}
use remote_robot.Orchestrator.{ok}
use remote_robot.Orchestrator.Locks.{collect_role_branch_locks}
use remote_robot.Orchestrator.Located.{HasRoles}
use remote_robot.Orchestrator.Found.{describe-collect_role_branch_locks}

abbrev server : CapabilityRegistry
server = record { server_id = "s"; nodes = good; identities = Dict.empty }

good-HasRoles : HasRoles good
unfolding Dict.get Dict.lookup is_unique contains
good-HasRoles node_id c h = elim (Bool-cases ("cell" == node_id)) [
  | inl root ↦ let same : cell "arm7" true ≡ c = ground (arith, h, root) in rw (← same) refl
  | inr other ↦ absurd (ground (arith, h, other))
]

value_of : Model.Result Fields → Fields
value_of (Model.ok m) = m
value_of (Model.raise e) = Value.end

-- The manifest of the cell, with a digest that is always "h".
unfoldable cell_manifest : Fields
unfolding value_of describe
cell_manifest = value_of (describe (λ v. "h") server "cell" none)

describe-collect_role_branch_locks_example :
    (locks : List String × List String) × (collect_role_branch_locks cell_manifest
        (split_dots "left.wrist")
        "arm7"
      ≡ ok locks)
unfolding resolve_group resolve_from Graph.node Graph.found Graph.none_empty Graph.starts_dot depth
    group child find_group find_child Dict.get Dict.lookup Dict.keys Dict.put Dict.empty split_dots
    ends_with cell_manifest value_of describe Describe.manifest Describe.manifest_of
    Describe.child_manifests Describe.hash_in Describe.assured Describe.watchdogs_of
    Describe.all_watchdogs Manifest.physical_body Manifest.composite_body Manifest.with_hash
    Manifest.collect Manifest.collect_all Manifest.values_of Manifest.physical_descendants
    Manifest.child_dict Manifest.groups_items Manifest.group_dict Manifest.axes_items Manifest.texts
    Manifest.safety_dict Manifest.watchdog_or_null Manifest.int_or_null get sort_texts sort_by
describe-collect_role_branch_locks_example =
    describe-collect_role_branch_locks (λ v. "h") server "cell" "left.wrist" left_wrist
      cell_manifest good-HasRoles refl refl
