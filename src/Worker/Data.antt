-- ===== src/Worker/Data.antt =====
-- remote_robot/worker.py: the state of an `InMemoryWorker`, its exceptions and its events. An event
-- is the dict that the source puts in the queue.
use remote_robot.Prelude.{
  ℕ, ℤ, pos, negsuc, ◌-◌, String, Bool, true, false, Option, none, some, List, [], ◌∷◌, ◌++◌,
  string_eq, if◌then◌else◌, length, leb, ltb,
}
use remote_robot.Value.{Value, Fields, int, str, dict, end, field, get}
use remote_robot.Ipc.{Cbor, data_copy}
use remote_robot.Ipc

pub data Status : Type 0 where
  created disabled prepared scheduled running completed stopped closed : Status

-- `self._status` as the text that it is in the source
unfoldable pub status_text : Status → String
status_text created = "created"
status_text disabled = "disabled"
status_text prepared = "prepared"
status_text scheduled = "scheduled"
status_text running = "running"
status_text completed = "completed"
status_text stopped = "stopped"
status_text closed = "closed"

-- The tests on `self._status`.
abbrev pub is_closed : Status → Bool
is_closed closed = true
is_closed _ = false

abbrev pub is_busy : Status → Bool
is_busy scheduled = true
is_busy running = true
is_busy _ = false

abbrev pub can_prepare : Status → Bool
can_prepare disabled = true
can_prepare stopped = true
can_prepare prepared = true
can_prepare completed = true
can_prepare _ = false

abbrev pub is_prepared : Status → Bool
is_prepared prepared = true
is_prepared _ = false

abbrev pub is_scheduled : Status → Bool
is_scheduled scheduled = true
is_scheduled _ = false

abbrev pub is_running : Status → Bool
is_running running = true
is_running _ = false

-- Where `_execute_phase` sleeps: before the start at a deadline, or after the start, with the
-- deadline and the actual start.
pub data Task : Type 0 where
  waiting : ℕ → Task
  executing : ℕ → ℕ → Task

pub record Worker : Type 0 where
  pub adapter_name : String
  pub event_limit : ℕ
  pub events : List Fields
  pub status : Status
  pub phase_plan : Option Fields
  pub last_start_deadline_us : Option ℕ
  pub last_stop : Option Fields
  pub phase_task : Option Task

pub data WorkerError : Type 0 where
  value_error worker_closed worker_state queue_full schema ipc_error : WorkerError

pub data Result {ℓ} (A : Type ℓ) : Type ℓ where
  ok : A → Result A
  raise : WorkerError → Result A

-- `InMemoryWorker(adapter_name, event_limit)`, with a positive limit
unfoldable pub init : String → ℕ → Worker
init adapter_name event_limit = record {
  adapter_name = adapter_name;
  event_limit = event_limit;
  events = [];
  status = created;
  phase_plan = none;
  last_start_deadline_us = none;
  last_stop = none;
  phase_task = none;
}

-- `str(plan.get(key, ""))`, where the entry is missing or, as in a plan that passed, a text
unfoldable pub text_of : String → Option Fields → String
text_of key none = ""
text_of key (some plan) = elim (get key plan) [ some (str s) ↦ s | _ ↦ "" ]

-- `actual - requested`
unfoldable pub skew : ℕ → ℕ → ℤ
skew actual requested =
    if ltb actual requested then negsuc (requested - actual - 1) else pos (actual - requested)

unfoldable pub number : ℕ → Value
number n = int (pos n)

abbrev pub append_fields : Fields → Fields → Fields
append_fields end gs = gs
append_fields (field k v fs) gs = field k v (append_fields fs gs)

-- `_phase_identity`, the status, and the entries that a method adds to them
unfoldable pub phase_fields : Worker → Fields → Fields → Fields
unfolding text_of status_text
phase_fields w between behind = field (str "run_id") (str (text_of "run_id" w.phase_plan)) (
    field (str "status") (str (status_text w.status)) (
      field (str "phase_id") (str (text_of "phase_id" w.phase_plan)) (
        append_fields between (
          field (str "phase_execution_id") (str (text_of "phase_execution_id" w.phase_plan))
            behind))))

-- `{"type": …, **result}`
unfoldable pub typed : String → Fields → Fields
typed t result = field (str "type") (str t) result

-- the result of `prepare_disabled`
unfoldable pub disabled_fields : Worker → Fields
unfolding status_text
disabled_fields w =
    field (str "status") (str (status_text w.status))
      (field (str "adapter") (str w.adapter_name) end)

-- the result of `start_phase`
unfoldable pub scheduled_fields : Worker → ℕ → Fields
unfolding phase_fields number
scheduled_fields w deadline =
    phase_fields w end (field (str "requested_start_us") (number deadline) end)

-- the event of `_execute_phase` at the start
unfoldable pub started_fields : Worker → ℕ → ℕ → Fields
unfolding phase_fields number skew typed
started_fields w deadline started = typed "phase_started" (
    phase_fields w
      (field (str "start_skew_us") (int (skew started deadline))
        (field (str "actual_start_us") (number started) end))
      (field (str "requested_start_us") (number deadline) end))

-- the event of `_execute_phase` at the end, with its two readings of the clock
unfoldable pub completed_fields : Worker → ℕ → ℕ → ℕ → ℕ → Fields
unfolding phase_fields number typed
completed_fields w deadline started completed_us completed_at_us = typed "phase_completed" (
    phase_fields w
      (field (str "actual_start_us") (number started)
        (field (str "completed_at_us") (number completed_at_us) end))
      (field (str "requested_start_us") (number deadline)
        (field (str "actual_completed_us") (number completed_us) end)))

-- the result of `stop`
unfoldable pub stopped_fields : Worker → Fields → Fields
unfolding phase_fields
stopped_fields w fault_context =
    phase_fields w (field (str "fault_context") (dict fault_context) end) end

-- `_emit`: the event is copied, then put into the queue
unfoldable pub emit : Cbor → Worker → Fields → Result (Unit {0}) × Worker
emit c w event = elim (data_copy c event) [
  | Ipc.raise e ↦ (raise ipc_error, w)
  | Ipc.ok copied ↦
      if leb w.event_limit (length w.events)
      then (raise queue_full, w)
      else (ok tt, record w { events = w.events ++ copied ∷ [] })
]

unfoldable pub returning : Result (Unit {0}) → Fields → Result Fields
returning (ok _) result = ok result
returning (raise e) result = raise e

-- The end of a method: the event, then the result.
unfoldable pub emit_return : Cbor → Worker → Fields → Fields → Result Fields × Worker
unfolding emit returning
emit_return c w event result = (returning (emit c w event).0 result, (emit c w event).1)
