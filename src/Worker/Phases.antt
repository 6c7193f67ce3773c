-- ===== src/Worker/Phases.antt =====
-- remote_robot/worker.py: a phase from its preparation to its end, where nothing fails.
use remote_robot.Prelude.{
  ℕ, ◌+◌, ◌≤◌, ◌<◌, ◌≡◌, refl, inl, inr, true, false, none, some, [], ◌∷◌, ◌++◌, length,
  length-append, arith, eqb, Bool-cases,
}
use mathlib.Core.List.{append_assoc}
use remote_robot.Value.{Fields, end}
use remote_robot.Ipc
use remote_robot.Ipc.{Cbor, data_copy}
use remote_robot.Worker.Data.{
  prepared, scheduled, running, completed, Worker, waiting, executing, ok, emit, emit_return,
  is_closed, can_prepare, typed, phase_fields, started_fields, completed_fields,
}
use remote_robot.Worker.{
  prepare_phase, prepare_copied, start_phase, run_task, begin_phase, execute_started,
  complete_phase, is_plan, duration_of,
}
use remote_robot.Worker.History.{prepares, starts, wakes, step, run}

emit_room :
    (c : Cbor) (w : Worker) (e : Fields)
    → data_copy c e ≡ Ipc.ok e
    → length w.events < w.event_limit
    → emit c w e ≡ (ok tt, record w { events = w.events ++ e ∷ [] })
unfolding emit
emit_room c w e copy l = rw (emit, copy) (ground (arith, l))

-- The three events of a phase, of a plan and its times.
module _ (w : Worker) (plan : Fields) (deadline started completed_us completed_at_us : ℕ) where
  abbrev pub prepared_event : Fields
  prepared_event =
      typed "phase_prepared"
        (phase_fields (record w { status = prepared; phase_plan = some plan }) end end)

  abbrev pub started_event : Fields
  started_event =
      started_fields (record w { status = running; phase_plan = some plan }) deadline started

  abbrev pub completed_event : Fields
  completed_event =
      completed_fields (record w { status = completed; phase_plan = some plan }) deadline started
        completed_us completed_at_us

module _ (c : Cbor) (w : Worker) (plan : Fields) (d s t u : ℕ) (can : can_prepare w.status ≡ true)
    (good : is_plan plan ≡ true) (copy : data_copy c plan ≡ Ipc.ok plan)
    (room : length w.events + 3 ≤ w.event_limit) where
  abbrev pub after_prepare : Worker
  after_prepare = record w {
    status = prepared;
    phase_plan = some plan;
    events = w.events ++ prepared_event w plan d s t u ∷ [];
  }

  pub prepare_phase_room :
      data_copy c (prepared_event w plan d s t u) ≡ Ipc.ok (prepared_event w plan d s t u)
      → (prepare_phase c w plan).1 ≡ after_prepare
  unfolding prepare_phase typed
  prepare_phase_room e1 =
      let is_open : is_closed w.status ≡ false = ground (arith, can) in
      rw
        (
          prepare_phase,
          is_open,
          can,
          copy,
          prepare_copied,
          good,
          emit_return,
          emit_room c (record w { status = prepared; phase_plan = some plan })
              (prepared_event w plan d s t u) e1 (omega arith),
        )
        refl

  abbrev after_start : Worker
  after_start = record after_prepare {
    last_start_deadline_us = some d;
    status = scheduled;
    phase_task = some (waiting d);
  }

  start_phase_room : (start_phase after_prepare d).1 ≡ after_start
  unfolding start_phase
  start_phase_room = refl

  abbrev after_begin : Worker
  after_begin = record after_start {
    status = running;
    phase_task = some (executing d s);
    events = after_start.events ++ started_event w plan d s t u ∷ [];
  }

  abbrev after_end : Worker
  after_end = record after_begin {
    status = completed;
    phase_task = none;
    events = after_begin.events ++ completed_event w plan d s t u ∷ [];
  }

  room_to_start : length after_prepare.events < w.event_limit
  room_to_start =
      let l = length-append w.events (prepared_event w plan d s t u ∷ []) in omega (arith, l)

  room_to_end : length after_begin.events < w.event_limit
  room_to_end =
      let l = length-append w.events (prepared_event w plan d s t u ∷ []) in
      let m = length-append after_prepare.events (started_event w plan d s t u ∷ []) in
      omega (arith, l, m)

  complete_phase_room :
      data_copy c (completed_event w plan d s t u) ≡ Ipc.ok (completed_event w plan d s t u)
      → complete_phase c after_begin d s t u ≡ after_end
  unfolding completed_fields phase_fields complete_phase
  complete_phase_room e3 =
      rw
        (
          complete_phase,
          emit_room c (record after_begin { status = completed }) (completed_event w plan d s t u)
              e3 room_to_end,
        )
        refl

  begin_phase_room :
      data_copy c (started_event w plan d s t u) ≡ Ipc.ok (started_event w plan d s t u)
      → begin_phase c after_start d s t u ≡ execute_started c (ok tt) after_begin d s t u
  unfolding started_fields phase_fields begin_phase
  begin_phase_room e2 =
      rw
        (
          begin_phase,
          emit_room c (record after_start { status = running; phase_task = some (executing d s) })
              (started_event w plan d s t u) e2 room_to_start,
        )
        refl

  -- The two wakes of the task end the phase, whatever its duration.
  wakes_room :
      data_copy c (started_event w plan d s t u) ≡ Ipc.ok (started_event w plan d s t u)
      → data_copy c (completed_event w plan d s t u) ≡ Ipc.ok (completed_event w plan d s t u)
      → run c after_start (wakes s t u ∷ wakes s t u ∷ []) ≡ after_end
  unfolding run step run_task execute_started
  wakes_room e2 e3 = elim (Bool-cases (eqb (duration_of (some plan)) 0)) [
    | inl instant ↦ rw (begin_phase_room e2, instant, complete_phase_room e3) refl
    | inr lasting ↦ rw (begin_phase_room e2, lasting, complete_phase_room e3) refl
  ]

  -- A plan that passes is prepared, started and run to its end in a worker where nothing fails:
  -- the worker accepts a plan, the queue has room for three events, and the plan and the events are
  -- their own copies. Then exactly those three events are added, with the plan's identity and the
  -- times, and the worker is completed and has no task.
  pub run_phase :
      data_copy c (prepared_event w plan d s t u) ≡ Ipc.ok (prepared_event w plan d s t u)
      → data_copy c (started_event w plan d s t u) ≡ Ipc.ok (started_event w plan d s t u)
      → data_copy c (completed_event w plan d s t u) ≡ Ipc.ok (completed_event w plan d s t u)
      → ((run c w (prepares plan ∷ starts d ∷ wakes s t u ∷ wakes s t u ∷ [])).events
          ≡ w.events
            ++ prepared_event w plan d s t u
              ∷ started_event w plan d s t u
              ∷ completed_event w plan d s t u
              ∷ [])
        × ((run c w (prepares plan ∷ starts d ∷ wakes s t u ∷ wakes s t u ∷ [])).status ≡ completed)
        × ((run c w (prepares plan ∷ starts d ∷ wakes s t u ∷ wakes s t u ∷ [])).phase_task ≡ none)
  unfolding run step start_phase
  run_phase e1 e2 e3 =
      let done : run c w (prepares plan ∷ starts d ∷ wakes s t u ∷ wakes s t u ∷ []) ≡ after_end =
        rw (prepare_phase_room e1) (wakes_room e2 e3) in
      rw done (simp (append_assoc), refl, refl)
