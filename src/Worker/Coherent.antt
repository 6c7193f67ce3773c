-- ===== src/Worker/Coherent.antt =====
-- remote_robot/worker.py: the task of an `InMemoryWorker` fits its status, and its queue its limit.
use remote_robot.Prelude.{
  ℕ, ◌≤◌, ◌≡◌, refl, Bool, true, false, Option, none, some, length, length-append, arith,
  if◌then◌else◌, eqb,
}
use remote_robot.Value.{Fields}
use remote_robot.Ipc
use remote_robot.Ipc.{Cbor, data_copy}
use remote_robot.Worker.Data.{
  Status, scheduled, running, completed, Task, waiting, executing, Worker, Result, ok, raise, emit,
  emit_return, is_closed, is_busy, can_prepare, is_prepared, is_scheduled, is_running,
  completed_fields, started_fields,
}
use remote_robot.Worker.{
  prepare_disabled, prepare_phase, prepare_copied, start_phase, run_task, begin_phase,
  complete_phase, stop, next_event, close, execute_started, is_plan, duration_of,
}

-- A task waits only in a worker that is scheduled, and has started only in one that is running.
abbrev pub is_coherent : Status → Option Task → Bool
is_coherent _ none = true
is_coherent scheduled (some (waiting d)) = true
is_coherent running (some (executing d t)) = true
is_coherent _ (some t) = false

-- The task fits the status, and the queue holds no more than its limit.
pub record IsCoherent (w : Worker) : Type 0 where
  pub fitting : is_coherent w.status w.phase_task ≡ true
  pub bounded : length w.events ≤ w.event_limit

length-emit :
    (c : Cbor) (w : Worker) (e : Fields)
    → length w.events ≤ w.event_limit
    → length (emit c w e).1.events ≤ (emit c w e).1.event_limit
unfolding emit
length-emit c w e l = grind (arith, l, length-append)

emit-IsCoherent : (c : Cbor) (w : Worker) (e : Fields) → IsCoherent w → IsCoherent (emit c w e).1
unfolding emit
emit-IsCoherent c w e k = record {
  fitting = ground (arith, k.fitting);
  bounded = length-emit c w e k.bounded;
}

if-IsCoherent {ℓ} :
    {A : Type ℓ} (b : Bool) (x y : A × Worker)
    → (b ≡ true → IsCoherent x.1)
    → (b ≡ false → IsCoherent y.1)
    → IsCoherent (if b then x else y).1
if-IsCoherent true x y if_true if_false = if_true refl
if-IsCoherent false x y if_true if_false = if_false refl

copied-IsCoherent :
    (r : Ipc.Result Fields) (x : Result Fields × Worker) (f : Fields → Result Fields × Worker)
    → IsCoherent x.1
    → ((a : Fields) → IsCoherent (f a).1)
    → IsCoherent (elim r as (λ _. Result Fields × Worker) [ Ipc.raise e ↦ x | Ipc.ok a ↦ f a ]).1
copied-IsCoherent (Ipc.raise e) x f failed done = failed
copied-IsCoherent (Ipc.ok a) x f failed done = done a

pub prepare_disabled-IsCoherent :
    (c : Cbor) (w : Worker) → IsCoherent w → IsCoherent (prepare_disabled c w).1
unfolding prepare_disabled emit_return
prepare_disabled-IsCoherent c w k =
    if-IsCoherent (is_closed w.status) _ _ (λ _. k)
      λ is_open.
        if-IsCoherent (is_busy w.status) _ _ (λ _. k)
          λ idle.
            emit-IsCoherent c _ _
              (record { fitting = ground (arith, k.fitting, idle); bounded = k.bounded })

prepare_copied-IsCoherent :
    (c : Cbor) (w : Worker) (plan : Fields)
    → can_prepare w.status ≡ true
    → IsCoherent w
    → IsCoherent (prepare_copied c w plan).1
unfolding prepare_copied emit_return
prepare_copied-IsCoherent c w plan can k =
    if-IsCoherent (is_plan plan) _ _
      (λ good.
        emit-IsCoherent c _ _
          (record { fitting = ground (arith, k.fitting, can); bounded = k.bounded }))
      (λ bad. record { fitting = k.fitting; bounded = k.bounded })

pub prepare_phase-IsCoherent :
    (c : Cbor) (w : Worker) (plan : Fields) → IsCoherent w → IsCoherent (prepare_phase c w plan).1
unfolding prepare_phase
prepare_phase-IsCoherent c w plan k =
    if-IsCoherent (is_closed w.status) _ _ (λ _. k)
      λ is_open.
        if-IsCoherent (can_prepare w.status) _ _
          (λ can.
            copied-IsCoherent (data_copy c plan) _ (prepare_copied c w) k
              (λ copied. prepare_copied-IsCoherent c w copied can k))
          (λ _. k)

pub start_phase-IsCoherent : (w : Worker) (d : ℕ) → IsCoherent w → IsCoherent (start_phase w d).1
unfolding start_phase
start_phase-IsCoherent w d k =
    if-IsCoherent (is_closed w.status) _ _ (λ _. k)
      λ is_open.
        if-IsCoherent (is_prepared w.status) _ _
          (λ ready. record { fitting = refl; bounded = k.bounded }) (λ _. k)

pub stop-IsCoherent :
    (c : Cbor) (w : Worker) (x : Fields) → IsCoherent w → IsCoherent (stop c w x).1
unfolding stop emit_return
stop-IsCoherent c w x k =
    if-IsCoherent (is_closed w.status) _ _ (λ _. k)
      λ is_open.
        copied-IsCoherent (data_copy c x) _ _
          (record { fitting = ground (arith, k.fitting); bounded = k.bounded })
          (λ copied. emit-IsCoherent c _ _ (record { fitting = refl; bounded = k.bounded }))

pub next_event-IsCoherent : (w : Worker) → IsCoherent w → IsCoherent (next_event w).1
unfolding next_event
next_event-IsCoherent w k = record {
  fitting = ground (arith, k.fitting);
  bounded = ground (arith, k.bounded);
}

pub close-IsCoherent : (w : Worker) → IsCoherent w → IsCoherent (close w)
unfolding close
close-IsCoherent w k = record {
  fitting = ground (arith, k.fitting);
  bounded = ground (arith, k.bounded);
}

-- Without a task every status fits.
idle-IsCoherent :
    (w : Worker) → length w.events ≤ w.event_limit → IsCoherent (record w { phase_task = none })
idle-IsCoherent w l = record { fitting = refl; bounded = l }

branch-IsCoherent :
    (b : Bool) (x y : Worker)
    → (b ≡ true → IsCoherent x)
    → (b ≡ false → IsCoherent y)
    → IsCoherent (if b then x else y)
branch-IsCoherent true x y if_true if_false = if_true refl
branch-IsCoherent false x y if_true if_false = if_false refl

complete_phase-IsCoherent :
    (c : Cbor) (w : Worker) (d s t u : ℕ)
    → length w.events ≤ w.event_limit
    → IsCoherent (complete_phase c w d s t u)
unfolding complete_phase
complete_phase-IsCoherent c w d s t u l =
    let w' = record w { status = completed } in
    let event = completed_fields w' d s t u in
    branch-IsCoherent (is_running w.status) _ _
      (λ _. idle-IsCoherent (emit c w' event).1 (length-emit c w' event l))
      (λ _. idle-IsCoherent w l)

execute_started-IsCoherent :
    (c : Cbor) (r : Result (Unit {0})) (w : Worker) (d s t u : ℕ)
    → IsCoherent w
    → IsCoherent (execute_started c r w d s t u)
unfolding execute_started
execute_started-IsCoherent c (raise e) w d s t u k = idle-IsCoherent w k.bounded
execute_started-IsCoherent c (ok _) w d s t u k =
    branch-IsCoherent (eqb (duration_of w.phase_plan) 0) _ _
      (λ _. complete_phase-IsCoherent c w d s t u k.bounded) (λ _. k)

begin_phase-IsCoherent :
    (c : Cbor) (w : Worker) (d s t u : ℕ)
    → length w.events ≤ w.event_limit
    → IsCoherent (begin_phase c w d s t u)
unfolding begin_phase
begin_phase-IsCoherent c w d s t u l =
    let w' = record w { status = running; phase_task = some (executing d s) } in
    branch-IsCoherent (is_scheduled w.status) _ _
      (λ _.
        execute_started-IsCoherent c _ _ d s t u
          (emit-IsCoherent c w' (started_fields w' d s) (record { fitting = refl; bounded = l })))
      (λ _. idle-IsCoherent w l)

pub run_task-IsCoherent :
    (c : Cbor) (w : Worker) (s t u : ℕ) → IsCoherent w → IsCoherent (run_task c w s t u)
unfolding run_task
run_task-IsCoherent c w s t u k =
    elim w.phase_task
      as (λ task. IsCoherent (elim task as (λ _. Worker) [
        | none ↦ w
        | some (waiting d) ↦ begin_phase c w d s t u
        | some (executing d begun) ↦ complete_phase c w d begun t u
      ])) [
        | none ↦ k
        | some (waiting d) ↦ begin_phase-IsCoherent c w d s t u k.bounded
        | some (executing d begun) ↦ complete_phase-IsCoherent c w d begun t u k.bounded
      ]
