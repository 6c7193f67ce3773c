-- ===== src/Orchestrator/Course.antt =====
-- remote_robot/orchestrator.py, `_execute_leased`: the events and requests of a run, on each outcome.
use remote_robot.Prelude.{String, ◌≡◌, refl, List, [], ◌∷◌, ◌++◌, ◌⊎◌, inl, inr}
use remote_robot.Value.{Fields, str, get}
use remote_robot.Lease.Request.{LeaseReceipt}
use remote_robot.Journal.Data.{JournalEvent}
use remote_robot.Orchestrator.{OrchestratorError, Result, ok, raise, cancelled, Reply}
use remote_robot.Orchestrator.Events.{opened_event, faulted_event}
use remote_robot.Orchestrator.Port.{Run}
use remote_robot.Orchestrator.Leased.{
  Setting, RunResult, write, stop_all, run_program, faulted, concluded, proceed, execute_leased,
}
use remote_robot.Orchestrator.Trace.{
  Kind, Grows-request, stops, to_all, event_type, Begins, Grows, Follows, Grows-trans, Grows-refl,
  Grows-log, Grows-none,
}
use remote_robot.Orchestrator.Steps.{CallsAll}
use remote_robot.Orchestrator.Protocol.{
  program_events, program_requests, write-last, stop_all-CallsAll, run_program-Adds,
}

module _ {W : Type 0} (s : Setting W) where
  abbrev failure_stops : List (String × Kind)
  failure_stops = to_all (stops (str "ORCHESTRATION_FAILURE")) s.names

  -- A run that raises `e`, past its first event: `us` and `vs` are what the program came to. Then all
  -- workers are told to stop and `run.faulted` is the last event if it could be written; or the run is
  -- cancelled while it tells them, and it is the first of them that were told.
  abbrev pub Faulted :
      OrchestratorError → Run W → Run W → List String → List (String × Kind) → Type 0
  Faulted e r r' us vs =
      ((e ≡ cancelled)
        × (ws : List (String × Kind)) × Begins failure_stops ws
        × Grows s.run_id r r' us (vs ++ ws))
      ⊎ (Grows s.run_id r r' us (vs ++ failure_stops)
          ⊎ Grows s.run_id r r' (us ++ "run.faulted" ∷ []) (vs ++ failure_stops))

  abbrev pub Course : Run W → Result RunResult × Run W → Type 0
  Course r (ok result, r') =
      Grows s.run_id r r' ("run.opened" ∷ program_events s.program ++ "run.completed" ∷ [])
        (program_requests s.run_id s.program s.names)
  Course r (raise e, r') =
      Grows s.run_id r r' [] []
      ⊎ ((us : List String) × (vs : List (String × Kind)) × Begins (program_events s.program) us
          × Begins (program_requests s.run_id s.program s.names) vs
          × Faulted e r r' ("run.opened" ∷ us) vs)

  faulted-Course :
      (error : OrchestratorError) (r r' : Run W) (us : List String) (vs : List (String × Kind))
      (out : Result (List (String × Reply)) × Run W)
      → Grows s.run_id r r' ("run.opened" ∷ us) vs
      → CallsAll s.run_id s.port failure_stops r' out
      → Begins (program_events s.program) us
      → Begins (program_requests s.run_id s.program s.names) vs
      → Course r (faulted s error r' out)
  unfolding faulted faulted_event event_type get
  faulted-Course error r r' us vs (raise e, stopped) g (cut, ws, first, h) b c =
      inr (us, vs, b, c, inl (cut, ws, first, Grows-request s.run_id g h))
  faulted-Course error r r' us vs (ok replies, stopped) g h b c = inr (
    us,
    vs,
    b,
    c,
    inr (last (write s event stopped) ((write-last s event "run.faulted" refl).follows stopped)),
  )
    where
      event : Fields
      event = faulted_event r'.current_phase r'.current_execution error replies

      all_told : Grows s.run_id r stopped ("run.opened" ∷ us) (vs ++ failure_stops)
      all_told = Grows-request s.run_id g h

      last :
          (out : Result JournalEvent × Run W)
          → Follows s.run_id [] ("run.faulted" ∷ []) [] stopped out
          → Grows s.run_id r out.1 ("run.opened" ∷ us) (vs ++ failure_stops)
            ⊎ Grows s.run_id r out.1
                (("run.opened" ∷ us) ++ "run.faulted" ∷ [])
                (vs ++ failure_stops)
      last (ok item, r'') h = inr (Grows-log s.run_id all_told h)
      last (raise e, r'') (ts, qs, no_ts, no_qs, h) =
          inl (Grows-none s.run_id all_told no_ts no_qs h)

  concluded-Course :
      (r r' : Run W) (out : Result RunResult × Run W)
      → Grows s.run_id r r' ("run.opened" ∷ []) []
      → Follows s.run_id
          (program_events s.program)
          (program_events s.program ++ "run.completed" ∷ [])
          (program_requests s.run_id s.program s.names)
          r'
          out
      → Course r (concluded s out)
  unfolding concluded
  concluded-Course r r' (ok done, r'') g h = Grows-trans s.run_id g h
  concluded-Course r r' (raise e, r'') g (us, vs, b, c, h) =
      faulted-Course e r r'' us vs (stop_all s "ORCHESTRATION_FAILURE" r'')
        (Grows-trans s.run_id g h) (stop_all-CallsAll s "ORCHESTRATION_FAILURE" r'') b c

  proceed-Course :
      (r : Run W) (out : Result JournalEvent × Run W)
      → Follows s.run_id [] ("run.opened" ∷ []) [] r out
      → Course r (proceed s out)
  unfolding proceed
  proceed-Course r (raise e, r') (us, vs, no_us, no_vs, g) =
      inl (Grows-none s.run_id (Grows-refl s.run_id) no_us no_vs g)
  proceed-Course r (ok item, r') g =
      concluded-Course r r' (run_program s r') g ((run_program-Adds s).follows r')

  -- On every outcome a leased run keeps to the protocol. One that returns writes `run.opened`,
  -- `workers.disabled`, the four events of each phase in order and `run.completed`, and asks all its
  -- workers to disable, the workers of each phase to prepare and then to start, and all to stop. One
  -- that raises either wrote and sent nothing, or wrote `run.opened` and sent a beginning of that, never
  -- `run.completed`, then told all its workers to stop, and `run.faulted` is the last event if it
  -- could be written. Only a run that raises a cancellation may have told the first of its workers
  -- alone to stop, and then it does not write `run.faulted`.
  pub execute_leased-Course :
      (receipt : LeaseReceipt) (r : Run W) → Course r (execute_leased s receipt r)
  unfolding execute_leased opened_event event_type get
  execute_leased-Course receipt r =
      let event = opened_event s.identity_id s.program receipt in
      proceed-Course r (write s event r) ((write-last s event "run.opened" refl).follows r)
