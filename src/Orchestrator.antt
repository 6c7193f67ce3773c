-- ===== src/Orchestrator.antt =====
-- remote_robot/orchestrator.py: what a run asks of the replies and events of its workers before it
-- goes on. A worker's reply is the dict that it returns or an exception; the replies of one call to
-- all workers come in the order of their names. The events of a worker are a list, in its order.
pub mod Waits
pub mod Skew
pub mod Replies
pub mod Locks
pub mod Plans
pub mod Port
pub mod Trace
pub mod Steps
pub mod Protocol
pub mod Ensures
pub mod Course
pub mod Rounds
pub mod Workers
pub mod Terminal
pub mod Neutral
pub mod Events
pub mod Leased
pub mod Preflight
pub mod Execute
pub mod Active
pub mod Authorizer
pub mod Located
pub mod Found
pub mod Branches
mod Tests
mod RunTests
mod AuthorizerTests
mod FoundTests
use remote_robot.Prelude.{
  ℕ, pos, ◌-◌, String, Bool, true, false, not, ◌||◌, ◌&&◌, Option, none, some, List, [], ◌∷◌, ◌==◌,
  string_eq, if◌then◌else◌, ltb,
}
use remote_robot.Lease.Request.{LeaseError}
use remote_robot.Journal.Data.{JournalError}
use remote_robot.Value.{Value, Fields, null, int, str, get}

pub data OrchestratorError : Type 0 where
  authorization missing_worker unsupported run_already_active run_id_reuse : OrchestratorError
  phase_execution program_error key_error cancelled : OrchestratorError
  -- `next(iter(plans.values()))` of no plans
  stop_iteration : OrchestratorError
  journal_error : JournalError → OrchestratorError
  lease_error : LeaseError → OrchestratorError
  -- `RunExecutionError`, with its cause
  run_execution : OrchestratorError → OrchestratorError

pub data Result {ℓ} (A : Type ℓ) : Type ℓ where
  ok : A → Result A
  raise : OrchestratorError → Result A

-- `value == text`, of an entry that may be missing
unfoldable pub is_str : Option Value → String → Bool
is_str (some (str s)) text = s == text
is_str _ text = false

-- `matches` in `wait_one`
unfoldable pub matches : String → String → Fields → Bool
unfolding is_str
matches run_id phase_execution_id event =
    is_str (get "run_id" event) run_id && is_str (get "phase_execution_id" event) phase_execution_id

unfoldable pub is_terminal : Fields → Bool
unfolding is_str
is_terminal event =
    is_str (get "type" event) "worker_fault"
    || is_str (get "type" event) "worker_faulted"
    || is_str (get "type" event) "worker_stopped"

-- The event that `wait_one` returns.
unfoldable pub is_awaited : String → String → String → Fields → Bool
unfolding matches
is_awaited run_id phase_execution_id expected_type event =
    matches run_id phase_execution_id event && is_str (get "type" event) expected_type

-- The events at which `wait_one` raises, if it did not return before.
unfoldable pub is_failure : String → String → String → Fields → Bool
unfolding is_terminal
is_failure run_id phase_execution_id expected_type event =
    (matches run_id phase_execution_id event && is_terminal event)
    || (matches run_id phase_execution_id event
        && (expected_type == "phase_started")
        && is_str (get "type" event) "phase_completed")

-- `wait_one` over the events that arrive: the event and those behind it, or `none` while it waits
unfoldable pub wait_one :
    String → String → String → List Fields → Option (Result (Fields × List Fields))
unfolding is_awaited is_failure
wait_one run_id phase_execution_id expected_type [] = none
wait_one run_id phase_execution_id expected_type (event ∷ events) =
    let rest = wait_one run_id phase_execution_id expected_type events in
    if is_awaited run_id phase_execution_id expected_type event
    then some (ok (event, events))
    else (if is_failure run_id phase_execution_id expected_type event
        then some (raise phase_execution)
        else rest)

-- `actual_start_us` of an event, with its checks
unfoldable pub actual_start : Fields → Result ℕ
actual_start event = elim (get "actual_start_us" event) [
  | some (int (pos n)) ↦ ok n
  | _ ↦ raise phase_execution
]

-- The loop of `_observed_start_skew_us`.
unfoldable pub actual_starts : List Fields → Result (List ℕ)
unfolding actual_start
actual_starts [] = ok []
actual_starts (event ∷ events) = elim (actual_start event) [
  | raise e ↦ raise e
  | ok n ↦ elim (actual_starts events) [ raise e ↦ raise e | ok ns ↦ ok (n ∷ ns) ]
]

-- `max` and `min` of a list that begins with a number
unfoldable pub largest : ℕ → List ℕ → ℕ
largest n [] = n
largest n (m ∷ ms) = let rest = largest n ms in if ltb rest m then m else rest

unfoldable pub smallest : ℕ → List ℕ → ℕ
smallest n [] = n
smallest n (m ∷ ms) = let rest = smallest n ms in if ltb m rest then m else rest

unfoldable pub spread : List ℕ → Result ℕ
unfolding largest smallest
spread [] = raise phase_execution
spread (n ∷ ns) = ok (largest n ns - smallest n ns)

-- `_observed_start_skew_us`, of the workers' start events
unfoldable pub observed_start_skew_us : List Fields → Result ℕ
unfolding actual_starts spread
observed_start_skew_us events = elim (actual_starts events) [
  | raise e ↦ raise e
  | ok ns ↦ spread ns
]

-- `_max_start_skew_us`, of the root's manifest
unfoldable pub max_start_skew_us : Fields → Result (Option ℕ)
max_start_skew_us manifest = elim (get "max_start_skew_us" manifest) [
  | none ↦ ok none
  | some null ↦ ok none
  | some (int (pos n)) ↦ if ltb 0 n then ok (some n) else raise program_error
  | _ ↦ raise program_error
]

-- the test of `_execute_leased` on the two
unfoldable pub is_over : Option ℕ → ℕ → Bool
is_over none observed = false
is_over (some limit) observed = ltb limit observed

-- What a worker's method returns, or the name of the exception's type.
pub data Reply : Type 0 where
  returned : Fields → Reply
  raised : String → Reply

-- The replies of `gather`, all of them returned, as in `_call_all`, `_prepare_all`, `_start_all`.
unfoldable pub all_returned : List (String × Reply) → Result (List (String × Fields))
all_returned [] = ok []
all_returned ((name, raised type_name) ∷ replies) = raise phase_execution
all_returned ((name, returned result) ∷ replies) = elim (all_returned replies) [
  | raise e ↦ raise e
  | ok results ↦ ok ((name, result) ∷ results)
]

-- the acknowledgement that `_start_all` asks for
unfoldable pub is_acknowledged : String → String → Fields → Bool
unfolding is_str
is_acknowledged run_id phase_execution_id result =
    is_str (get "status" result) "scheduled"
    && is_str (get "run_id" result) run_id
    && is_str (get "phase_execution_id" result) phase_execution_id

unfoldable pub are_acknowledged : String → String → List (String × Fields) → Bool
unfolding is_acknowledged
are_acknowledged run_id phase_execution_id [] = true
are_acknowledged run_id phase_execution_id ((name, result) ∷ results) =
    is_acknowledged run_id phase_execution_id result
    && are_acknowledged run_id phase_execution_id results

-- `_start_all`, of the workers' replies
unfoldable pub start_all : String → String → List (String × Reply) → Result (List (String × Fields))
unfolding all_returned are_acknowledged
start_all run_id phase_execution_id replies = elim (all_returned replies) [
  | raise e ↦ raise e
  | ok results ↦
      if are_acknowledged run_id phase_execution_id results
      then ok results
      else raise phase_execution
]
