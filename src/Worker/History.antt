-- ===== src/Worker/History.antt =====
-- remote_robot/worker.py: any sequence of calls on an `InMemoryWorker`, with its task in between.
use remote_robot.Prelude.{ℕ, refl, String, List, [], ◌∷◌, arith}
use remote_robot.Value.{Fields}
use remote_robot.Ipc.{Cbor}
use remote_robot.Worker.Data.{Worker, init}
use remote_robot.Worker.{
  prepare_disabled, prepare_phase, start_phase, run_task, stop, next_event, close,
}
use remote_robot.Worker.Coherent.{
  IsCoherent, prepare_disabled-IsCoherent, prepare_phase-IsCoherent, start_phase-IsCoherent,
  stop-IsCoherent, next_event-IsCoherent, close-IsCoherent, run_task-IsCoherent,
}

-- One step: a method with its arguments, or the task that runs on with what it reads of the clock.
pub data Call : Type 0 where
  disables takes closes : Call
  prepares stops : Fields → Call
  starts : ℕ → Call
  wakes : ℕ → ℕ → ℕ → Call

unfoldable pub step : Cbor → Worker → Call → Worker
step c w disables = (prepare_disabled c w).1
step c w takes = (next_event w).1
step c w closes = close w
step c w (prepares plan) = (prepare_phase c w plan).1
step c w (stops context) = (stop c w context).1
step c w (starts deadline) = (start_phase w deadline).1
step c w (wakes started completed_us completed_at_us) =
    run_task c w started completed_us completed_at_us

unfoldable pub run : Cbor → Worker → List Call → Worker
run c w [] = w
run c w (call ∷ calls) = run c (step c w call) calls

step-IsCoherent : (c : Cbor) (w : Worker) (call : Call) → IsCoherent w → IsCoherent (step c w call)
unfolding step
step-IsCoherent c w disables k = prepare_disabled-IsCoherent c w k
step-IsCoherent c w takes k = next_event-IsCoherent w k
step-IsCoherent c w closes k = close-IsCoherent w k
step-IsCoherent c w (prepares plan) k = prepare_phase-IsCoherent c w plan k
step-IsCoherent c w (stops context) k = stop-IsCoherent c w context k
step-IsCoherent c w (starts deadline) k = start_phase-IsCoherent w deadline k
step-IsCoherent c w (wakes s t u) k = run_task-IsCoherent c w s t u k

-- After any steps, failing or not, a task waits only in a scheduled worker, has started only in a
-- running one, and the queue is within its limit, if this held before.
pub run-IsCoherent :
    (c : Cbor) (w : Worker) (calls : List Call) → IsCoherent w → IsCoherent (run c w calls)
unfolding run
run-IsCoherent c w [] k = k
run-IsCoherent c w (call ∷ calls) k =
    run-IsCoherent c (step c w call) calls (step-IsCoherent c w call k)

pub init-IsCoherent : (name : String) (limit : ℕ) → IsCoherent (init name limit)
unfolding init
init-IsCoherent name limit = record { fitting = refl; bounded = omega arith }
