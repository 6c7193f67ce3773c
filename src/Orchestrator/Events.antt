-- ===== src/Orchestrator/Events.antt =====
-- remote_robot/orchestrator.py, `_execute_leased` and `_stop_all`: the events that a run writes to the
-- journal and the context of a stop, their entries in canonical order.
use remote_robot.Prelude.{ℕ, pos, String, Option, none, some, List, [], ◌∷◌}
use remote_robot.Text.{sort_texts}
use remote_robot.Value.{Value, Items, Fields, null, int, str, list, dict, nil, cons, end, field}
use remote_robot.Lease.Request.{LeaseReceipt}
use remote_robot.Journal.Data
use remote_robot.Orchestrator.{
  OrchestratorError, phase_execution, program_error, key_error, cancelled, stop_iteration,
  journal_error, Reply,
}
use remote_robot.Orchestrator.Plans.{CompiledProgram, safe_results}

unfoldable pub texts_of : List String → Items
texts_of [] = nil
texts_of (s ∷ ss) = cons (str s) (texts_of ss)

unfoldable pub text_or_null : Option String → Value
text_or_null none = null
text_or_null (some s) = str s

unfoldable pub number_or_null : Option ℕ → Value
number_or_null none = null
number_or_null (some n) = int (pos n)

-- `run.opened`
unfoldable pub opened_event : String → CompiledProgram → LeaseReceipt → Fields
unfolding texts_of
opened_event identity_id program receipt = field (str "type") (str "run.opened") (
    field (str "lease")
      (dict (
        field (str "leaves") (list (texts_of (sort_texts receipt.leaves))) (
          field (str "resources") (list (texts_of (sort_texts receipt.resources))) (
            field (str "safety_domains") (list (texts_of (sort_texts receipt.safety_domains)))
              end))))
      (field (str "root_id") (str program.root_id) (
        field (str "identity_id") (str identity_id) (
          field (str "manifest_hash") (str program.manifest_hash)
            (field (str "program_sha256") (str program.sha256) end)))))

unfoldable pub disabled_event : List (String × Reply) → Fields
disabled_event replies =
    field (str "type") (str "workers.disabled") (field (str "workers") (safe_results replies) end)

-- `phase.prepared`, `phase.scheduled`, `phase.started` and `phase.completed`, with the entries
-- between the index and the id of the execution, and behind it
unfoldable pub phase_event :
    String → List (String × Reply) → String → ℕ → String → Option Value → Fields → Fields
phase_event kind replies phase index execution limit behind =
    let tail = field (str "phase_execution_id") (str execution) behind in
    field (str "type") (str kind) (
      field (str "workers") (safe_results replies) (
        field (str "phase_id") (str phase) (
          field (str "phase_index") (int (pos index))
            (elim limit [ none ↦ tail | some v ↦ field (str "max_start_skew_us") v tail ]))))

unfoldable pub completed_event : ℕ → List (String × Reply) → Fields
completed_event count replies = field (str "type") (str "run.completed") (
    field (str "safe_idle") (safe_results replies)
      (field (str "phase_count") (int (pos count)) end))

-- The name of an exception's type, of those that a leased run can meet.
unfoldable pub error_name : OrchestratorError → String
error_name phase_execution = "PhaseExecutionError"
error_name program_error = "ProgramError"
error_name key_error = "KeyError"
error_name cancelled = "CancelledError"
error_name stop_iteration = "StopIteration"
error_name (journal_error Data.type_error) = "TypeError"
error_name (journal_error Data.value_error) = "ValueError"
error_name (journal_error Data.secret_data) = "SecretDataError"
error_name (journal_error Data.os_error) = "OSError"
error_name (journal_error Data.read_only) = "JournalReadOnlyError"
error_name _ = "Exception"

unfoldable pub faulted_event :
    Option String → Option String → OrchestratorError → List (String × Reply) → Fields
unfolding text_or_null error_name
faulted_event phase execution error replies = field (str "type") (str "run.faulted") (
    field (str "phase_id") (text_or_null phase) (
      field (str "safe_stop") (safe_results replies) (
        field (str "error_type") (str (error_name error))
          (field (str "phase_execution_id") (text_or_null execution) end))))

-- the context that `_stop_all` sends
unfoldable pub stop_context : String → String → Option String → Option String → Fields
unfolding text_or_null
stop_context code run_id phase execution = field (str "code") (str code) (
    field (str "details")
      (dict (
        field (str "run_id") (str run_id) (
          field (str "phase_id") (text_or_null phase)
            (field (str "phase_execution_id") (text_or_null execution) end))))
      end)
