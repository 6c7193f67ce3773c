-- ===== src/Orchestrator/Tests.antt =====
-- Waits, skews and replies of remote_robot/orchestrator.py on concrete events, and its theorems at
-- concrete inputs.
use remote_robot.Prelude.{
  ◌≡◌, refl, ◌↔◌, ℕ, String, true, some, List, [], ◌∷◌, ◌++◌, All, string_eq, nat_eq, pos, contains,
}
use remote_robot.Value.{Fields, str, int, field, end, get, list, dict, cons, nil}
use remote_robot.Orchestrator.Locks.{
  strings, string_list, matching, only_manifest, child_manifest, own_locks, joined,
  collect_role_branch_locks,
}
use remote_robot.Orchestrator.Branches.{
  here, below, is_locked, mentions, collect_role_branch_locks_covers,
}
use remote_robot.Orchestrator.{
  ok, raise, phase_execution, program_error, is_str, matches, is_terminal, is_awaited, is_failure,
  wait_one, actual_start, actual_starts, largest, smallest, spread, observed_start_skew_us,
  max_start_skew_us, is_over, returned, raised, all_returned, is_acknowledged, are_acknowledged,
  start_all,
}
use remote_robot.Orchestrator.Waits.{IsSkipped, wait_one_iff}
use remote_robot.Orchestrator.Replies.{replies_of, start_all_iff}

program : Unit {0}
unfolding is_str matches is_terminal is_awaited is_failure wait_one actual_start actual_starts
    largest smallest spread observed_start_skew_us max_start_skew_us is_over all_returned
    is_acknowledged are_acknowledged start_all get contains
program = tt

-- An event of a kind, of a phase execution of run "r", with an actual start.
abbrev event : String → String → ℕ → Fields
event kind execution n = field (str "type") (str kind) (
    field (str "run_id") (str "r") (
      field (str "actual_start_us") (int (pos n))
        (field (str "phase_execution_id") (str execution) end)))

abbrev stale : Fields
stale = event "phase_started" "e0" 3

abbrev started : Fields
started = event "phase_started" "e1" 10

-- A stop of another execution is read over, one of this execution is not.
terminated :
    wait_one "r" "e1" "phase_started"
      (event "worker_stopped" "e0" 0 ∷ event "worker_stopped" "e1" 0 ∷ started ∷ [])
    ≡ some (raise phase_execution)
unfolding program
terminated = refl

-- An end before a start fails the wait for the start.
ended_early :
    wait_one "r" "e1" "phase_started" (event "phase_completed" "e1" 0 ∷ started ∷ [])
    ≡ some (raise phase_execution)
unfolding program
ended_early = refl

no_workers : observed_start_skew_us [] ≡ raise phase_execution
unfolding program
no_workers = refl

no_limit :
    max_start_skew_us (field (str "max_start_skew_us") (int (pos 0)) end) ≡ raise program_error
unfolding program
no_limit = refl

wait_one_iff_example :
    (wait_one "r" "e1" "phase_started" (stale ∷ started ∷ []) ≡ some (ok (started, []))) ↔ (
      (skipped : List Fields) × (stale ∷ started ∷ [] ≡ skipped ++ started ∷ [])
      × All (IsSkipped "r" "e1" "phase_started") skipped
      × (is_awaited "r" "e1" "phase_started" started ≡ true))
wait_one_iff_example = wait_one_iff "r" "e1" "phase_started" (stale ∷ started ∷ []) started []

abbrev near : List Fields
near = started ∷ event "phase_started" "e1" 17 ∷ []

near_observed : observed_start_skew_us near ≡ ok 7
unfolding program
near_observed = refl

abbrev scheduled_reply : Fields
scheduled_reply =
    field (str "run_id") (str "r")
      (field (str "status") (str "scheduled") (field (str "phase_execution_id") (str "e1") end))

one_raised :
    start_all "r" "e1" (("a", returned scheduled_reply) ∷ ("b", raised "WorkerStateError") ∷ [])
    ≡ raise phase_execution
unfolding program
one_raised = refl

start_all_iff_example :
    (start_all "r" "e1" (("a", returned scheduled_reply) ∷ []) ≡ ok (("a", scheduled_reply) ∷ []))
    ↔ ((("a", returned scheduled_reply) ∷ [] ≡ replies_of (("a", scheduled_reply) ∷ []))
        × All {A = String × Fields}
            (λ r. is_acknowledged "r" "e1" r.1 ≡ true)
            (("a", scheduled_reply) ∷ []))
start_all_iff_example =
    start_all_iff "r" "e1" (("a", returned scheduled_reply) ∷ []) (("a", scheduled_reply) ∷ [])

abbrev arm : Fields
arm = field (str "kind") (str "physical") (
    field (str "node_id") (str "arm7")
      (field (str "resources") (list (cons (str "gripper") nil)) end))

abbrev cell : Fields
cell = field (str "kind") (str "composite") (
    field (str "children")
      (list
        (cons (dict (field (str "role") (str "left") (field (str "manifest") (dict arm) end))) nil))
      (field (str "safety_domains") (list (cons (str "fence") nil)) end))

branch : Unit {0}
unfolding get is_str collect_role_branch_locks own_locks string_list strings joined child_manifest
    matching only_manifest contains
branch = tt

cell_locks :
    collect_role_branch_locks cell ("left" ∷ "wrist" ∷ []) "arm7"
    ≡ ok ("gripper" ∷ [], "fence" ∷ [])
unfolding branch
cell_locks = refl

other_node : collect_role_branch_locks cell ("left" ∷ "wrist" ∷ []) "arm8" ≡ raise program_error
unfolding branch
other_node = refl

arm_found : child_manifest cell "left" ≡ ok arm
unfolding branch
arm_found = refl

collect_role_branch_locks_covers_example :
    is_locked true ("gripper" ∷ [], "fence" ∷ []) "gripper" ≡ true
unfolding branch mentions
collect_role_branch_locks_covers_example =
    collect_role_branch_locks_covers cell arm ("left" ∷ "wrist" ∷ []) "arm7"
      ("gripper" ∷ [], "fence" ∷ []) true (cons (str "gripper") nil) "gripper" cell_locks
      (below arm_found here) refl refl
