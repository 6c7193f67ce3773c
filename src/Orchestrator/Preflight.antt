-- ===== src/Orchestrator/Preflight.antt =====
-- remote_robot/orchestrator.py, `_preflight` and `lock_requirements`: what is checked before a run may
-- touch a lease or a worker. Of program.py and registry.py they take what `Checks` names.
use Prim.Native.String
use remote_robot.Prelude.{
  String, Bool, true, false, ◌&&◌, Option, none, some, List, [], ◌∷◌, ◌==◌, string_eq, set_add,
}
use remote_robot.Text.{split_dots}
use remote_robot.Value.{Value, Fields, str, list, dict, nil, end, field, get}
use remote_robot.Orchestrator.{OrchestratorError, Result, ok, raise, unsupported, program_error}
use remote_robot.Orchestrator.Plans.{CompiledProgram, ◌>>=◌, phase_sequences, sequences_of}
use remote_robot.Orchestrator.Locks.{collect_role_branch_locks}

-- `CompiledProgram.from_bytes(program.to_bytes())` with `validate_for_current_registry`,
-- `registry.describe`, and `authorizer.require_control` of an identity, a root and role paths.
pub record Checks : Type 0 where
  pub recheck : CompiledProgram → Result CompiledProgram
  pub describe : String → Result Fields
  pub require_control : String → String → List String → Result (Unit {0})

-- `phase.get("completion") != DEFAULT_COMPLETION` does not hold
unfoldable pub is_default_completion : Option Value → Bool
is_default_completion (some (dict (field (str k) (str v) end))) =
    k == "schema" && v == "all_sequences_finished/v1"
is_default_completion _ = false

-- `phase.get("transitions")` is false: it is missing, or an empty list
unfoldable pub has_no_transitions : Option Value → Bool
has_no_transitions none = true
has_no_transitions (some (list nil)) = true
has_no_transitions _ = false

abbrev pub require : Bool → OrchestratorError → Result (Unit {0})
require true e = ok tt
require false e = raise e

-- `sequence_map.get("role_path")`, a text
unfoldable pub role_path : Fields → Result String
role_path sequence = elim (get "role_path" sequence) [
  | some (str p) ↦ ok p
  | _ ↦ raise program_error
]

unfoldable pub add_role_paths : List Fields → List String → Result (List String)
unfolding role_path
add_role_paths [] paths = ok paths
add_role_paths (sequence ∷ sequences) paths = do
  path ← role_path sequence
  add_role_paths sequences (set_add path paths)

-- The loop of `_preflight`.
unfoldable pub check_phases : List Fields → List String → Result (List String)
unfolding is_default_completion has_no_transitions phase_sequences add_role_paths
check_phases [] paths = ok paths
check_phases (phase ∷ phases) paths = do
  complete ← require (is_default_completion (get "completion" phase)) unsupported
  plain ← require (has_no_transitions (get "transitions" phase)) unsupported
  sequences ← phase_sequences phase
  more ← add_role_paths sequences paths
  check_phases phases more

-- `_preflight`
unfoldable pub preflight : Checks → String → CompiledProgram → Result CompiledProgram
unfolding check_phases
preflight checks identity_id program = do
  checked ← checks.recheck program
  paths ← check_phases checked.phases []
  allowed ← checks.require_control identity_id checked.root_id paths
  ok checked

-- `LockRequirements`
pub record LockRequirements : Type 0 where
  pub leaves : List String
  pub resources : List String
  pub safety_domains : List String

unfoldable pub add_all : List String → List String → List String
add_all [] names = names
add_all (x ∷ xs) names = add_all xs (set_add x names)

unfoldable pub text_in : String → Fields → Result String
text_in key fs = elim (get key fs) [ some (str s) ↦ ok s | _ ↦ raise program_error ]

unfoldable pub mapping_in : String → Fields → Result Fields
mapping_in key fs = elim (get key fs) [ some (dict gs) ↦ ok gs | _ ↦ raise program_error ]

unfoldable pub mappings_in : String → Fields → Result (List Fields)
unfolding sequences_of
mappings_in key fs = elim (get key fs) [
  | some (list xs) ↦ sequences_of xs
  | _ ↦ raise program_error
]

-- one sequence of the outline
unfoldable pub add_sequence : Fields → Fields → LockRequirements → Result LockRequirements
unfolding mapping_in text_in add_all collect_role_branch_locks split_dots
add_sequence manifest sequence locks = do
  target ← mapping_in "resolved_target" sequence
  physical_id ← text_in "physical_node_id" target
  group_id ← text_in "group_id" target
  path ← text_in "role_path" sequence
  found ← collect_role_branch_locks manifest (split_dots path) physical_id
  ok (record {
    leaves = set_add (String.◌++◌ physical_id (String.◌++◌ "." group_id)) locks.leaves;
    resources = add_all found.0 locks.resources;
    safety_domains = add_all found.1 locks.safety_domains;
  })

unfoldable pub add_sequences : Fields → List Fields → LockRequirements → Result LockRequirements
unfolding add_sequence
add_sequences manifest [] locks = ok locks
add_sequences manifest (sequence ∷ sequences) locks = do
  more ← add_sequence manifest sequence locks
  add_sequences manifest sequences more

unfoldable pub add_outline : Fields → List Fields → LockRequirements → Result LockRequirements
unfolding mappings_in add_sequences
add_outline manifest [] locks = ok locks
add_outline manifest (phase ∷ phases) locks = do
  sequences ← mappings_in "sequences" phase
  more ← add_sequences manifest sequences locks
  add_outline manifest phases more

-- `lock_requirements`
unfoldable pub lock_requirements : Checks → CompiledProgram → Result LockRequirements
unfolding mappings_in add_outline
lock_requirements checks program = do
  manifest ← checks.describe program.root_id
  phases ← mappings_in "phases" program.outline
  add_outline manifest phases (record { leaves = []; resources = []; safety_domains = [] })
