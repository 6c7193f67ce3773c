-- ===== src/Worker/Tests.antt =====
-- Runs of remote_robot/worker.py on concrete plans, and its theorems at concrete inputs.
use remote_robot.Prelude.{
  ◌≡◌, refl, ℕ, zero, suc, true, none, some, Option, List, [], ◌∷◌, ◌==◌, string_eq, nat_eq, pos,
  if◌then◌else◌, arith,
}
use remote_robot.Bytes.{same_bytes}
use remote_robot.Value.{Value, Fields, dict, str, int, field, end, get}
use remote_robot.Ipc
use remote_robot.Ipc.{Cbor, data_copy}
use remote_robot.Worker.Data.{
  Worker, init, raise, queue_full, scheduled, disabled, stopped, prepared, running, completed,
  text_of, phase_fields, number, skew, typed, started_fields, completed_fields, stopped_fields,
  disabled_fields, scheduled_fields, status_text, emit, emit_return, returning,
}
use remote_robot.Worker.{
  prepare_disabled, prepare_phase, prepare_copied, start_phase, run_task, begin_phase,
  execute_started, complete_phase, stop, close, next_event, is_plan, is_text, is_duration,
  duration_of,
}
use remote_robot.Worker.Coherent.{IsCoherent}
use remote_robot.Worker.History.{
  prepares, starts, wakes, stops, step, run, run-IsCoherent, init-IsCoherent,
}
use remote_robot.Worker.Stopping.{IsHalted, run-stop, run-close}
use remote_robot.Worker.Phases.{prepared_event, started_event, completed_event}
use remote_robot.Orchestrator
use remote_robot.Worker.Data
use remote_robot.Orchestrator.{is_acknowledged, wait_one, actual_start}
use remote_robot.Orchestrator.Workers.{run_phase_awaited}

abbrev plan : Fields
plan = field (str "run_id") (str "r1") (
    field (str "phase_id") (str "p")
      (field (str "duration_us") (int (pos 5)) (field (str "phase_execution_id") (str "e1") end)))

abbrev ready : Worker
ready = record (init "arm" 4) { status = disabled }

-- A codec for the plan and the three events of its phase.
abbrev dumps_by : Option Value → List ℕ
dumps_by (some (str s)) =
    if s == "phase_prepared" then 0 ∷ [] else (if s == "phase_started" then 1 ∷ [] else 2 ∷ [])
dumps_by _ = 3 ∷ []

abbrev toy_dumps : Value → List ℕ
toy_dumps (dict fs) = dumps_by (get "type" fs)
toy_dumps _ = []

abbrev toy_loads : List ℕ → Option Value
toy_loads (zero ∷ []) = some (dict (prepared_event ready plan 100 107 130 131))
toy_loads (suc zero ∷ []) = some (dict (started_event ready plan 100 107 130 131))
toy_loads (suc (suc zero) ∷ []) = some (dict (completed_event ready plan 100 107 130 131))
toy_loads (suc (suc (suc zero)) ∷ []) = some (dict plan)
toy_loads _ = none

abbrev toy : Cbor
toy = record { dumps = toy_dumps; loads = toy_loads }

program : Unit {0}
unfolding init text_of phase_fields number skew typed started_fields completed_fields stopped_fields
    disabled_fields scheduled_fields status_text emit emit_return returning prepare_disabled
    prepare_phase prepare_copied start_phase run_task begin_phase execute_started complete_phase
    stop close next_event is_plan is_text is_duration duration_of data_copy Ipc.canonical_payload
    Ipc.validate_value Ipc.decode_payload Ipc.check_message Ipc.is_int64 same_bytes get step run
program = tt

plan_copied : data_copy toy plan ≡ Ipc.ok plan
unfolding program
plan_copied = refl

prepared_copied :
    data_copy toy (prepared_event ready plan 100 107 130 131)
    ≡ Ipc.ok (prepared_event ready plan 100 107 130 131)
unfolding program
prepared_copied = refl

started_copied :
    data_copy toy (started_event ready plan 100 107 130 131)
    ≡ Ipc.ok (started_event ready plan 100 107 130 131)
unfolding program
started_copied = refl

completed_copied :
    data_copy toy (completed_event ready plan 100 107 130 131)
    ≡ Ipc.ok (completed_event ready plan 100 107 130 131)
unfolding program
completed_copied = refl

plan_good : is_plan plan ≡ true
unfolding program
plan_good = refl

run_phase_awaited_example :
    (reply prepared_last started ended : Fields) × ((start_phase
        (prepare_phase toy ready plan).1
        100).0
      ≡ Data.ok reply)
    × (is_acknowledged "r1" "e1" reply ≡ true)
    × ((run toy ready
          (prepares plan ∷ starts 100 ∷ wakes 107 130 131 ∷ wakes 107 130 131 ∷ [])).events
        ≡ prepared_last ∷ started ∷ ended ∷ [])
    × ((run toy ready
          (prepares plan ∷ starts 100 ∷ wakes 107 130 131 ∷ wakes 107 130 131 ∷ [])).status
        ≡ completed)
    × ((run toy ready
          (prepares plan ∷ starts 100 ∷ wakes 107 130 131 ∷ wakes 107 130 131 ∷ [])).phase_task
        ≡ none)
    × (wait_one "r1" "e1" "phase_started" (prepared_last ∷ started ∷ ended ∷ [])
        ≡ some (Orchestrator.ok (started, ended ∷ [])))
    × (actual_start started ≡ Orchestrator.ok 107)
    × (wait_one "r1" "e1" "phase_completed" (ended ∷ []) ≡ some (Orchestrator.ok (ended, [])))
unfolding init get
run_phase_awaited_example =
    run_phase_awaited ready plan 100 107 130 131 "r1" "e1" refl refl toy refl plan_good plan_copied
      (omega arith) prepared_copied started_copied completed_copied

run-stop_example : IsHalted (run toy (stop toy ready plan).1 (starts 9 ∷ wakes 1 2 3 ∷ []))
run-stop_example =
    run-stop toy ready plan plan (starts 9 ∷ wakes 1 2 3 ∷ []) refl plan_copied (refl, (refl, tt))

ready-IsCoherent : IsCoherent ready
unfolding init
ready-IsCoherent = record { fitting = refl; bounded = omega arith }

run-close_example : run toy (close ready) (prepares plan ∷ starts 9 ∷ []) ≡ close ready
run-close_example = run-close toy ready (prepares plan ∷ starts 9 ∷ []) ready-IsCoherent

run-IsCoherent_example : IsCoherent (run toy (init "arm" 4) (prepares plan ∷ starts 9 ∷ []))
run-IsCoherent_example =
    run-IsCoherent toy (init "arm" 4) (prepares plan ∷ starts 9 ∷ []) (init-IsCoherent "arm" 4)

-- A codec for the empty message.
abbrev void : Cbor
void = record { dumps = λ _. 0 ∷ []; loads = λ _. some (dict end) }

-- A refused plan leaves the status `prepared` with no plan, and a phase can be started all the same.
refused_plan :
    ((run void
        (record ready { status = prepared; phase_plan = some plan })
        (prepares end ∷ starts 9 ∷ [])).status
      ≡ scheduled)
    × ((run void
          (record ready { status = prepared; phase_plan = some plan })
          (prepares end ∷ starts 9 ∷ [])).phase_plan
        ≡ none)
unfolding program
refused_plan = (refl, refl)

-- A `stop` on a full queue raises, and has stopped the worker.
full_queue :
    (stop void (record ready { events = end ∷ end ∷ end ∷ end ∷ []; status = running }) end).0
    ≡ raise queue_full
unfolding program
full_queue = refl

-- A `stop` whose context cannot be copied cancels the task and leaves the status `scheduled`.
lost_task :
    let w =
      run toy ready
        (prepares plan ∷ starts 9 ∷ stops (field (int (pos 1)) (int (pos 1)) end) ∷ []) in
    (w.status ≡ scheduled) × (w.phase_task ≡ none)
unfolding program
lost_task = (refl, refl)
