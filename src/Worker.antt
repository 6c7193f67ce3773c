-- ===== src/Worker.antt =====
-- remote_robot/worker.py, `InMemoryWorker`: the state machine of one execution worker. A method
-- returns its result or exception beside the worker as it is left. Readings of the clock are
-- arguments; CBOR is the argument `Cbor` of Ipc. The task of `_execute_phase` is the place where it
-- sleeps, and `run_task` runs it on to its next sleep; a task that is cancelled is gone.
pub mod Data
pub mod Coherent
pub mod History
pub mod Stopping
pub mod Phases
mod Tests
use remote_robot.Prelude.{
  ℕ, pos, String, Bool, true, false, not, ◌&&◌, Option, none, some, List, [], ◌∷◌, ◌==◌, string_eq,
  if◌then◌else◌, eqb,
}
use remote_robot.Value.{Value, Fields, null, int, str, dict, end, field, get}
use remote_robot.Ipc.{Cbor, data_copy}
use remote_robot.Ipc
use Data.{
  Status, created, disabled, prepared, scheduled, running, completed, stopped, closed, Task,
  waiting, executing, Worker, WorkerError, worker_closed, worker_state, schema, ipc_error, Result,
  ok, raise, typed, phase_fields, disabled_fields, scheduled_fields, started_fields,
  completed_fields, stopped_fields, is_closed, is_busy, can_prepare, is_prepared, is_scheduled,
  is_running, text_of, number, status_text, emit, emit_return,
}

-- `prepare_disabled`
unfoldable pub prepare_disabled : Cbor → Worker → Result Fields × Worker
unfolding emit_return typed disabled_fields
prepare_disabled c w =
    let w' = record w { status = disabled; phase_plan = none } in
    if is_closed w.status
    then (raise worker_closed, w)
    else (if is_busy w.status
        then (raise worker_state, w)
        else emit_return c w' (typed "worker_disabled" (disabled_fields w')) (disabled_fields w'))

-- `not isinstance(value, str) or not value` does not hold
unfoldable pub is_text : Option Value → Bool
is_text (some (str s)) = not (s == "")
is_text _ = false

-- the check of `duration_us` in `prepare_phase`
unfoldable pub is_duration : Option Value → Bool
is_duration none = true
is_duration (some (int (pos n))) = true
is_duration _ = false

unfoldable pub is_plan : Fields → Bool
unfolding is_text is_duration
is_plan plan =
    is_text (get "run_id" plan)
    && is_text (get "phase_id" plan)
    && is_text (get "phase_execution_id" plan)
    && is_duration (get "duration_us" plan)

-- `prepare_phase` from the copy of the plan on
unfoldable pub prepare_copied : Cbor → Worker → Fields → Result Fields × Worker
unfolding emit_return typed is_plan
prepare_copied c w plan =
    let w' = record w { status = prepared; phase_plan = some plan } in
    if is_plan plan
    then emit_return c w' (typed "phase_prepared" (phase_fields w' end end))
        (phase_fields w' end end)
    else (raise schema, record w { phase_plan = none })

-- `prepare_phase`, of a dict
unfoldable pub prepare_phase : Cbor → Worker → Fields → Result Fields × Worker
unfolding prepare_copied
prepare_phase c w plan =
    if is_closed w.status
    then (raise worker_closed, w)
    else (if can_prepare w.status
        then elim (data_copy c plan) [
          | Ipc.raise e ↦ (raise ipc_error, w)
          | Ipc.ok copied ↦ prepare_copied c w copied
        ]
        else (raise worker_state, w))

-- `start_phase`, of an integer that is not negative
unfoldable pub start_phase : Worker → ℕ → Result Fields × Worker
unfolding scheduled_fields
start_phase w deadline =
    let w' = record w {
      last_start_deadline_us = some deadline;
      status = scheduled;
      phase_task = some (waiting deadline);
    } in
    if is_closed w.status
    then (raise worker_closed, w)
    else (if is_prepared w.status
        then (ok (scheduled_fields w' deadline), w')
        else (raise worker_state, w))

-- `int((self._phase_plan or {}).get("duration_us", 0))`, of a plan that passed
unfoldable pub duration_of : Option Fields → ℕ
duration_of none = 0
duration_of (some plan) = elim (get "duration_us" plan) [ some (int (pos n)) ↦ n | _ ↦ 0 ]

-- `_execute_phase` from the end of the second sleep on
unfoldable pub complete_phase : Cbor → Worker → ℕ → ℕ → ℕ → ℕ → Worker
unfolding emit completed_fields
complete_phase c w deadline started completed_us completed_at_us =
    let w' = record w { status = completed } in
    let event = completed_fields w' deadline started completed_us completed_at_us in
    if is_running w.status
    then record (emit c w' event).1 { phase_task = none }
    else record w { phase_task = none }

-- `_execute_phase` from its first event on, with what `_emit` gave: an exception ends the task
unfoldable pub execute_started : Cbor → Result (Unit {0}) → Worker → ℕ → ℕ → ℕ → ℕ → Worker
unfolding complete_phase duration_of
execute_started c (raise e) w deadline started completed_us completed_at_us = record w {
  phase_task = none;
}
execute_started c (ok _) w deadline started completed_us completed_at_us =
    if eqb (duration_of w.phase_plan) 0
    then complete_phase c w deadline started completed_us completed_at_us
    else w

-- `_execute_phase` from the end of the first sleep on
unfoldable pub begin_phase : Cbor → Worker → ℕ → ℕ → ℕ → ℕ → Worker
unfolding emit started_fields execute_started
begin_phase c w deadline started completed_us completed_at_us =
    let w' = record w { status = running; phase_task = some (executing deadline started) } in
    let begun = emit c w' (started_fields w' deadline started) in
    if is_scheduled w.status
    then execute_started c begun.0 begun.1 deadline started completed_us completed_at_us
    else record w { phase_task = none }

-- The task runs on from where it sleeps: the clock when it wakes at the start, and the two readings
-- at the end.
unfoldable pub run_task : Cbor → Worker → ℕ → ℕ → ℕ → Worker
unfolding begin_phase complete_phase
run_task c w started completed_us completed_at_us = elim w.phase_task [
  | none ↦ w
  | some (waiting deadline) ↦ begin_phase c w deadline started completed_us completed_at_us
  | some (executing deadline begun) ↦ complete_phase c w deadline begun completed_us completed_at_us
]

-- `stop`, of a dict; the task is cancelled before the context is copied
unfoldable pub stop : Cbor → Worker → Fields → Result Fields × Worker
unfolding emit_return typed stopped_fields
stop c w fault_context =
    let idle = record w { phase_task = none } in
    if is_closed w.status then (raise worker_closed, w) else elim (data_copy c fault_context) [
      | Ipc.raise e ↦ (raise ipc_error, idle)
      | Ipc.ok copied ↦
          let w' = record idle { last_stop = some copied; status = stopped } in
          emit_return c w' (typed "worker_stopped" (stopped_fields w' copied))
            (stopped_fields w' copied)
    ]

unfoldable pub or_null : Option Fields → Value
or_null none = null
or_null (some fs) = dict fs

unfoldable pub number_or_null : Option ℕ → Value
number_or_null none = null
number_or_null (some n) = number n

-- `state`
unfoldable pub state : Cbor → Worker → Result Fields
unfolding or_null number_or_null
state c w =
    if is_closed w.status
    then raise worker_closed
    else elim (data_copy c (
        field (str "run_id") (str (text_of "run_id" w.phase_plan)) (
          field (str "status") (str (status_text w.status)) (
            field (str "adapter") (str w.adapter_name) (
              field (str "phase_id") (str (text_of "phase_id" w.phase_plan)) (
                field (str "last_stop") (or_null w.last_stop) (
                  field (str "phase_execution_id") (str (text_of "phase_execution_id" w.phase_plan))
                    (field (str "last_start_deadline_us") (number_or_null w.last_start_deadline_us)
                      end)))))))) [ Ipc.raise e ↦ raise ipc_error | Ipc.ok copied ↦ ok copied ]

-- `next_event` where an event waits; `none` stands for the wait or its time-out
unfoldable pub next_event : Worker → Result (Option Fields) × Worker
next_event w =
    if is_closed w.status
    then (raise worker_closed, w)
    else elim w.events [ [] ↦ (ok none, w) | e ∷ es ↦ (ok (some e), record w { events = es }) ]

-- `close`
unfoldable pub close : Worker → Worker
close w = if is_closed w.status then w else record w { phase_task = none; status = closed }
