-- ===== src/Worker/Stopping.antt =====
-- remote_robot/worker.py: what a stopped and a closed `InMemoryWorker` still do.
use remote_robot.Prelude.{◌≡◌, refl, Bool, true, false, none, some, List, [], ◌∷◌, All, arith}
use remote_robot.Value.{Fields}
use remote_robot.Ipc
use remote_robot.Ipc.{Cbor, data_copy}
use remote_robot.Worker.Data.{closed, stopped, Worker, emit, emit_return, is_closed, is_prepared}
use remote_robot.Worker.{
  prepare_disabled, prepare_phase, start_phase, run_task, stop, next_event, close,
}
use remote_robot.Worker.Coherent.{IsCoherent}
use remote_robot.Worker.History.{
  Call, disables, takes, closes, prepares, stops, starts, wakes, step, run,
}

-- No phase runs, and none can be started.
pub record IsHalted (w : Worker) : Type 0 where
  pub idle : w.phase_task ≡ none
  pub unprepared : is_prepared w.status ≡ false

-- A call that is not `prepare_phase`.
abbrev pub is_not_prepare : Call → Bool
is_not_prepare (prepares plan) = false
is_not_prepare _ = true

emit-IsHalted : (c : Cbor) (w : Worker) (e : Fields) → IsHalted w → IsHalted (emit c w e).1
unfolding emit
emit-IsHalted c w e h = record {
  idle = ground (arith, h.idle);
  unprepared = ground (arith, h.unprepared);
}

-- A `stop` of a worker that is not closed, with a context that can be copied, ends in the status
-- `stopped`, with no task and the context kept, whether or not the event queue has room.
stop_lem :
    (c : Cbor) (w : Worker) (context copied : Fields)
    → is_closed w.status ≡ false
    → data_copy c context ≡ Ipc.ok copied
    → ((stop c w context).1.status ≡ stopped)
      × ((stop c w context).1.phase_task ≡ none)
      × ((stop c w context).1.last_stop ≡ some copied)
      × ((stop c w context).1.phase_plan ≡ w.phase_plan)
unfolding stop emit_return emit
stop_lem c w context copied is_open copy = rw (is_open, copy) (ground arith)

step-IsHalted :
    (c : Cbor) (w : Worker) (call : Call)
    → is_not_prepare call ≡ true
    → IsHalted w
    → IsHalted (step c w call)
unfolding step prepare_disabled start_phase run_task stop next_event close emit_return emit
step-IsHalted c w disables ne h = record {
  idle = ground (arith, h.idle, h.unprepared);
  unprepared = ground (arith, h.idle, h.unprepared);
}
step-IsHalted c w takes ne h = record {
  idle = ground (arith, h.idle, h.unprepared);
  unprepared = ground (arith, h.idle, h.unprepared);
}
step-IsHalted c w closes ne h = record {
  idle = ground (arith, h.idle, h.unprepared);
  unprepared = ground (arith, h.idle, h.unprepared);
}
step-IsHalted c w (prepares plan) ne h = absurd (ground arith)
step-IsHalted c w (stops context) ne h = record {
  idle = ground (arith, h.idle, h.unprepared);
  unprepared = ground (arith, h.idle, h.unprepared);
}
step-IsHalted c w (starts deadline) ne h = record {
  idle = ground (arith, h.idle, h.unprepared);
  unprepared = ground (arith, h.idle, h.unprepared);
}
step-IsHalted c w (wakes s t u) ne h = record {
  idle = ground (arith, h.idle, h.unprepared);
  unprepared = ground (arith, h.idle, h.unprepared);
}

step_closed :
    (c : Cbor) (w : Worker) (call : Call)
    → w.status ≡ closed
    → w.phase_task ≡ none
    → step c w call ≡ w
unfolding step prepare_disabled prepare_phase start_phase run_task stop next_event close
step_closed c w disables is_shut idle = rw is_shut refl
step_closed c w takes is_shut idle = rw is_shut refl
step_closed c w closes is_shut idle = rw is_shut refl
step_closed c w (prepares plan) is_shut idle = rw is_shut refl
step_closed c w (stops context) is_shut idle = rw is_shut refl
step_closed c w (starts deadline) is_shut idle = rw is_shut refl
step_closed c w (wakes s t u) is_shut idle = rw idle refl

run-IsHalted :
    (c : Cbor) (w : Worker) (calls : List Call)
    → All (λ call. is_not_prepare call ≡ true) calls
    → IsHalted w
    → IsHalted (run c w calls)
unfolding run
run-IsHalted c w [] ne h = h
run-IsHalted c w (call ∷ calls) ne h =
    run-IsHalted c (step c w call) calls ne.1 (step-IsHalted c w call ne.0 h)

-- After a `stop` of a worker that is not closed, with a context that can be copied, no calls but
-- `prepare_phase` make a task or the status `prepared`: until then no phase can run. This holds
-- although the stop itself may raise because the event queue is full.
pub run-stop :
    (c : Cbor) (w : Worker) (context copied : Fields) (calls : List Call)
    → is_closed w.status ≡ false
    → data_copy c context ≡ Ipc.ok copied
    → All (λ call. is_not_prepare call ≡ true) calls
    → IsHalted (run c (stop c w context).1 calls)
run-stop c w context copied calls is_open copy ne =
    let (status, idle, _, _) = stop_lem c w context copied is_open copy in
    run-IsHalted c (stop c w context).1 calls ne
      (record { idle = idle; unprepared = rw status refl })

run_closed :
    (c : Cbor) (w : Worker) (calls : List Call)
    → w.status ≡ closed
    → w.phase_task ≡ none
    → run c w calls ≡ w
unfolding run
run_closed c w [] shut idle = refl
run_closed c w (call ∷ calls) shut idle =
    rw (step_closed c w call shut idle) (run_closed c w calls shut idle)

-- A worker that is closed stays as it is, whatever is called. Before the `close` its task fitted its
-- status.
pub run-close :
    (c : Cbor) (w : Worker) (calls : List Call) → IsCoherent w → run c (close w) calls ≡ close w
unfolding close
run-close c w calls k = run_closed c (close w) calls (ground arith) (ground (arith, k.fitting))
