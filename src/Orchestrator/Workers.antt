-- ===== src/Orchestrator/Workers.antt =====
-- remote_robot/orchestrator.py and remote_robot/worker.py: the events of a phase that a worker runs,
-- as the orchestrator's waits read them.
use remote_robot.Prelude.{
  ℕ, ◌+◌, ◌≤◌, String, ==_refl, ◌≡◌, refl, ◌∙◌, true, none, some, List, [], ◌∷◌, ◌++◌, string_eq,
  length, arith,
}
use remote_robot.Value.{Fields, str, get}
use remote_robot.Ipc
use remote_robot.Ipc.{Cbor, data_copy}
use remote_robot.Orchestrator.{
  ok, wait_one, is_awaited, is_failure, is_terminal, is_acknowledged, matches, is_str, actual_start,
}
use remote_robot.Worker.Data
use remote_robot.Worker.Data.{
  waiting, completed, Worker, can_prepare, scheduled, status_text, phase_fields, started_fields,
  completed_fields, scheduled_fields, text_of, number, typed,
}
use remote_robot.Worker.{is_plan, prepare_phase, start_phase}
use remote_robot.Worker.History.{prepares, starts, wakes, run}
use remote_robot.Worker.Phases.{
  prepared_event, started_event, completed_event, run_phase, after_prepare, prepare_phase_room,
}

module _ (w : Worker) (plan : Fields) (d s t u : ℕ) (run_id execution : String)
    (named : get "run_id" plan ≡ some (str run_id))
    (executes : get "phase_execution_id" plan ≡ some (str execution)) where
  prepared_passed :
      (events : List Fields)
      → wait_one run_id execution "phase_started" (prepared_event w plan d s t u ∷ events)
        ≡ wait_one run_id execution "phase_started" events
  unfolding wait_one is_awaited is_failure is_terminal matches is_str get phase_fields typed text_of
  prepared_passed events = ground (arith, named, executes)

  start_found :
      (events : List Fields)
      → wait_one run_id execution "phase_started" (started_event w plan d s t u ∷ events)
        ≡ some (ok (started_event w plan d s t u, events))
  unfolding wait_one is_awaited matches is_str get started_fields phase_fields typed text_of
  start_found events = ground (arith, named, executes, ==_refl run_id, ==_refl execution)

  end_found :
      (events : List Fields)
      → wait_one run_id execution "phase_completed" (completed_event w plan d s t u ∷ events)
        ≡ some (ok (completed_event w plan d s t u, events))
  unfolding wait_one is_awaited matches is_str get completed_fields phase_fields typed text_of
  end_found events = ground (arith, named, executes, ==_refl run_id, ==_refl execution)

  start_read : actual_start (started_event w plan d s t u) ≡ ok s
  unfolding actual_start get started_fields phase_fields number
  start_read = refl

  start_acknowledged :
      (w' : Worker)
      → w'.status ≡ scheduled
      → w'.phase_plan ≡ some plan
      → is_acknowledged run_id execution (scheduled_fields w' d) ≡ true
  unfolding is_acknowledged is_str get scheduled_fields phase_fields text_of status_text
  start_acknowledged w' waits planned =
      rw (waits, planned) (ground (arith, named, executes, ==_refl run_id, ==_refl execution))

  -- A phase that a worker runs is what the orchestrator waits for, where nothing fails: the worker
  -- accepts a plan, this plan passes and names the run and the execution, the queue has room for three
  -- events, and the plan and the events are their own copies. Its reply to the start is an
  -- acknowledgement for that run and execution; it adds three events and ends completed, without a
  -- task; of the three, the wait for the start finds the second, with the time of the start, and
  -- the wait for the end then finds the third.
  pub run_phase_awaited :
      (c : Cbor)
      → can_prepare w.status ≡ true
      → is_plan plan ≡ true
      → data_copy c plan ≡ Ipc.ok plan
      → length w.events + 3 ≤ w.event_limit
      → data_copy c (prepared_event w plan d s t u) ≡ Ipc.ok (prepared_event w plan d s t u)
      → data_copy c (started_event w plan d s t u) ≡ Ipc.ok (started_event w plan d s t u)
      → data_copy c (completed_event w plan d s t u) ≡ Ipc.ok (completed_event w plan d s t u)
      → (reply prepared_last started ended : Fields) × ((start_phase (prepare_phase c w plan).1 d).0
          ≡ Data.ok reply)
        × (is_acknowledged run_id execution reply ≡ true)
        × ((run c w (prepares plan ∷ starts d ∷ wakes s t u ∷ wakes s t u ∷ [])).events
            ≡ w.events ++ prepared_last ∷ started ∷ ended ∷ [])
        × ((run c w (prepares plan ∷ starts d ∷ wakes s t u ∷ wakes s t u ∷ [])).status ≡ completed)
        × ((run c w (prepares plan ∷ starts d ∷ wakes s t u ∷ wakes s t u ∷ [])).phase_task ≡ none)
        × (wait_one run_id execution "phase_started" (prepared_last ∷ started ∷ ended ∷ [])
            ≡ some (ok (started, ended ∷ [])))
        × (actual_start started ≡ ok s)
        × (wait_one run_id execution "phase_completed" (ended ∷ []) ≡ some (ok (ended, [])))
  unfolding start_phase
  run_phase_awaited c can good copy room e1 e2 e3 =
      let (grown, status, idle) = run_phase c w plan d s t u can good copy room e1 e2 e3 in
      let after = after_prepare c w plan d s t u can good copy room in
      let waits : Worker = record after {
        last_start_deadline_us = some d;
        status = scheduled;
        phase_task = some (waiting d);
      } in
      (
        scheduled_fields waits d,
        prepared_event w plan d s t u,
        started_event w plan d s t u,
        completed_event w plan d s t u,
        rw (prepare_phase_room c w plan d s t u can good copy room e1) refl,
        start_acknowledged waits refl refl,
        grown,
        status,
        idle,
        prepared_passed (started_event w plan d s t u ∷ completed_event w plan d s t u ∷ [])
            ∙ start_found (completed_event w plan d s t u ∷ []),
        start_read,
        end_found [],
      )
