-- ===== src/Orchestrator/Leased.antt =====
-- remote_robot/orchestrator.py, `_execute_leased`: a run from its leases to its terminal event.
use remote_robot.Prelude.{
  ℕ, suc, pos, ◌+◌, String, Bool, true, false, not, none, some, List, [], ◌∷◌, map, length,
  if◌then◌else◌, ◌==◌, string_eq,
}
use remote_robot.Text.{sort_texts}
use remote_robot.Value.{Value, Fields, int, str, end, field}
use remote_robot.Lease.Request.{LeaseReceipt}
use remote_robot.Journal.Data.{Codec, JournalEvent}
use remote_robot.Orchestrator.{
  OrchestratorError, Result, ok, raise, run_execution, cancelled, phase_execution, program_error,
  stop_iteration, Reply, returned, raised, all_returned, start_all, observed_start_skew_us,
  max_start_skew_us, is_over,
}
use remote_robot.Orchestrator.Plans.{CompiledProgram, worker_phase_plans, entry}
use remote_robot.Orchestrator.Events.{
  opened_event, disabled_event, phase_event, completed_event, faulted_event, stop_context,
  number_or_null,
}
use remote_robot.Orchestrator.Port.{
  Request, prepare_disabled, prepare_phase, start_phase, stop, Port, Run, Step, pure, ◌>>=◌, ◌>>◌,
  lift, set_phase, set_execution, append, clock, gather_all, wait_all,
}

pub record RunResult : Type 0 where
  pub run_id : String
  pub status : String
  pub phase_count : ℕ
  pub program_sha256 : String
  pub terminal_event_seq : ℕ

abbrev pub require : Bool → OrchestratorError → Result (Unit {0})
require true e = ok tt
require false e = raise e

-- The plan of a worker.
unfoldable pub plan_for : List (String × Fields) → String → Fields
plan_for [] name = end
plan_for ((other, plan) ∷ plans) name = if other == name then plan else plan_for plans name

-- The dicts of the replies that are not exceptions.
unfoldable pub events_in : List (String × Reply) → List Fields
events_in [] = []
events_in ((name, returned fs) ∷ replies) = fs ∷ events_in replies
events_in ((name, raised type_name) ∷ replies) = events_in replies

-- No reply is an exception.
unfoldable pub none_raised : List (String × Reply) → Bool
none_raised [] = true
none_raised ((name, returned fs) ∷ replies) = none_raised replies
none_raised ((name, raised type_name) ∷ replies) = false

-- `int(d[key])`, of an integer
unfoldable pub int_entry : String → Fields → Result Value
unfolding entry
int_entry key fs = elim (entry key fs) [
  | ok (int n) ↦ ok (int n)
  | ok v ↦ raise program_error
  | raise e ↦ raise e
]

unfoldable pub none_planned : List (String × Fields) → Bool
none_planned [] = true
none_planned (plan ∷ plans) = false

-- `str(d[key])`, with what `str` makes of a value that is no text
unfoldable pub text_entry : (Value → String) → String → Fields → Result String
unfolding entry
text_entry text_of key fs = elim (entry key fs) [
  | ok (str s) ↦ ok s
  | ok v ↦ ok (text_of v)
  | raise e ↦ raise e
]

-- What a run is made of: the codec of the journal, the workers, what `str` makes of a value, and the
-- orchestrator's own settings.
pub record Setting (W : Type 0) : Type 0 where
  pub codec : Codec
  pub text_of : Value → String
  pub port : Port W
  pub start_lead_us : ℕ
  pub root_manifest : Fields
  pub run_id : String
  pub identity_id : String
  pub program : CompiledProgram
  pub names : List String

-- A cancellation is raised again as it is, any other exception as the cause of another.
unfoldable pub outward : OrchestratorError → OrchestratorError
outward cancelled = cancelled
outward error = run_execution error

module _ {W : Type 0} (s : Setting W) where
  unfoldable pub write : Fields → Step W JournalEvent
  unfolding append
  write event = append s.port s.codec s.run_id event

  -- `_call_all` and `_prepare_all`
  unfoldable pub call_all : (String → Request) → List String → Step W (List (String × Reply))
  unfolding all_returned
  call_all request names = do
    replies ← gather_all s.port request names
    results ← lift (all_returned replies)
    pure replies

  -- `_start_all`
  unfoldable pub start_workers : String → ℕ → List String → Step W (List (String × Reply))
  unfolding start_all
  start_workers execution start_at names = do
    replies ← gather_all s.port (λ name. start_phase start_at) names
    results ← lift (start_all s.run_id execution replies)
    pure replies

  -- `_stop_all`, for the phase and execution that the run is at
  unfoldable pub stop_all : String → Step W (List (String × Reply))
  unfolding gather_all stop_context
  stop_all code r =
      gather_all s.port
        (λ name. stop (stop_context code s.run_id r.current_phase r.current_execution)) s.names r

  -- one round of the loop over the phases, from the events of the start on
  unfoldable pub round_started :
      ℕ → Fields → String → String → ℕ → List String → List (String × Reply) → Step W (Unit {0})
  unfolding int_entry events_in phase_event number_or_null
  round_started index phase phase_id execution start_at names started = do
    observed ← lift (observed_start_skew_us (events_in started))
    limit ← lift (max_start_skew_us s.root_manifest)
    write (
        phase_event "phase.started" started phase_id index execution (some (number_or_null limit)) (
          field (str "start_at_monotonic_us") (int (pos start_at))
            (field (str "observed_start_skew_us") (int (pos observed)) end)))
    lift (require (not (is_over limit observed)) phase_execution)
    duration ← lift (int_entry "duration_us" phase)
    completed ← wait_all s.port s.run_id execution "phase_completed" names
    write (phase_event "phase.completed" completed phase_id index execution none end)
    pure tt

  -- one round of the loop over the phases
  unfoldable pub phase_round : ℕ → Fields → Step W (Unit {0})
  unfolding text_entry call_all plan_for start_workers none_planned phase_event round_started
  phase_round index phase = do
    phase_id ← lift (text_entry s.text_of "phase_id" phase)
    set_phase phase_id
    planned ← lift (worker_phase_plans s.run_id s.program index phase)
    lift (require (not (none_planned planned.1)) stop_iteration)
    let names = sort_texts (map (λ plan. plan.0) planned.1)
    let execution = planned.0
    set_execution execution
    prepared ← call_all (λ name. prepare_phase (plan_for planned.1 name)) names
    write (phase_event "phase.prepared" prepared phase_id index execution none end)
    now ← clock s.port
    let start_at = now + s.start_lead_us
    scheduled ← start_workers execution start_at names
    let start_entry = field (str "start_at_monotonic_us") (int (pos start_at)) end
    write (phase_event "phase.scheduled" scheduled phase_id index execution none start_entry)
    started ← wait_all s.port s.run_id execution "phase_started" names
    round_started index phase phase_id execution start_at names started

  unfoldable pub run_phases : ℕ → List Fields → Step W (Unit {0})
  unfolding phase_round
  run_phases index [] = pure tt
  run_phases index (phase ∷ phases) = do phase_round index phase; run_phases (suc index) phases

  -- from the last phase to the result
  unfoldable pub finish : Step W RunResult
  unfolding stop_all none_raised completed_event
  finish = do
    replies ← stop_all "RUN_COMPLETED"
    lift (require (none_raised replies) phase_execution)
    terminal ← write (completed_event (length s.program.phases) replies)
    pure (record {
      run_id = s.run_id;
      status = "completed";
      phase_count = length s.program.phases;
      program_sha256 = s.program.sha256;
      terminal_event_seq = terminal.event_seq;
    })

  -- the body of the `try`
  unfoldable pub run_program : Step W RunResult
  unfolding call_all disabled_event run_phases finish
  run_program = do
    disabled ← call_all (λ name. prepare_disabled) s.names
    write (disabled_event disabled)
    run_phases 0 s.program.phases
    finish

  -- the `except` behind its `_stop_all`: the event `run.faulted` if it can be written, and what is
  -- raised
  unfoldable pub faulted :
      OrchestratorError → Run W → Result (List (String × Reply)) × Run W → Result RunResult × Run W
  unfolding write faulted_event outward
  faulted error r (raise e, stopped) = (raise e, stopped)
  faulted error r (ok safe_stop, stopped) =
      let (written, r') =
        write (faulted_event r.current_phase r.current_execution error safe_stop) stopped in
      (raise (outward error), r')

  -- the `except`, if the `try` raised
  unfoldable pub concluded : Result RunResult × Run W → Result RunResult × Run W
  unfolding stop_all faulted
  concluded (ok done, r) = (ok done, r)
  concluded (raise error, r) = faulted error r (stop_all "ORCHESTRATION_FAILURE" r)

  -- `_execute_leased` behind the event `run.opened`
  unfoldable pub proceed : Result JournalEvent × Run W → Result RunResult × Run W
  unfolding run_program concluded
  proceed (raise e, r) = (raise e, r)
  proceed (ok item, r) = concluded (run_program r)

  -- `_execute_leased`
  unfoldable pub execute_leased : LeaseReceipt → Step W RunResult
  unfolding write opened_event proceed
  execute_leased receipt r = proceed (write (opened_event s.identity_id s.program receipt) r)
