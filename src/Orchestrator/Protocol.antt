-- ===== src/Orchestrator/Protocol.antt =====
-- remote_robot/orchestrator.py, `_execute_leased`: the order of a run's events and requests, as an
-- independent list, and that the parts of the run keep to it.
use mathlib.Core.Path.{subst}
use mathlib.Core.List.{append-nil}
use remote_robot.Prelude.{ℕ, suc, ◌+◌, String, Option, ◌≡◌, refl, List, [], ◌∷◌, ◌++◌, map}
use remote_robot.Text.{sort_texts}
use remote_robot.Value.{Value, Fields, str, get}
use remote_robot.Journal.Data.{JournalEvent}
use remote_robot.Orchestrator.{ok, raise, Reply}
use remote_robot.Orchestrator.Plans.{CompiledProgram, worker_phase_plans}
use remote_robot.Orchestrator.Events.{disabled_event, phase_event, completed_event, stop_context}
use remote_robot.Orchestrator.Port.{
  Request, prepare_disabled, prepare_phase, start_phase, stop, Run, Step, ◌>>=◌,
}
use remote_robot.Orchestrator.Leased.{
  Setting, write, call_all, start_workers, stop_all, phase_round, round_started, run_phases, finish,
  run_program, plan_for,
}
use remote_robot.Orchestrator.Trace.{
  Kind, disables, prepares, starts, stops, kind_of, code_of, to_all, event_type, Adds, Adds->>=,
  Adds-quiet, Adds-lift,
}
use remote_robot.Orchestrator.Steps.{
  pure-Adds, set_phase-Adds, set_execution-Adds, clock-Adds, append-Follows, Follows-weaken,
  gather_all-Adds, CallsAll, gather_all-CallsAll, wait_all-Adds, pure-after-Adds,
}

-- The workers of a phase, in their order.
unfoldable pub workers_of : String → CompiledProgram → ℕ → Fields → List String
workers_of run_id program index phase = elim (worker_phase_plans run_id program index phase) [
  | raise e ↦ []
  | ok planned ↦ sort_texts (map (λ plan. plan.0) planned.1)
]

pub workers_of-planned :
    (run_id : String) (program : CompiledProgram) (index : ℕ) (phase : Fields)
    (planned : String × List (String × Fields))
    → worker_phase_plans run_id program index phase ≡ ok planned
    → workers_of run_id program index phase ≡ sort_texts (map (λ plan. plan.0) planned.1)
unfolding workers_of
workers_of-planned run_id program index phase planned h = rw (h, workers_of) refl

-- All workers of a phase prepare, then all start.
unfoldable pub phase_requests : String → CompiledProgram → ℕ → List Fields → List (String × Kind)
unfolding to_all workers_of
phase_requests run_id program index [] = []
phase_requests run_id program index (phase ∷ phases) =
    let names = workers_of run_id program index phase in
    (to_all prepares names ++ to_all starts names)
    ++ phase_requests run_id program (suc index) phases

abbrev phase_order : List String
phase_order = "phase.prepared" ∷ "phase.scheduled" ∷ "phase.started" ∷ "phase.completed" ∷ []

unfoldable pub phase_events : List Fields → List String
phase_events [] = []
phase_events (phase ∷ phases) = phase_order ++ phase_events phases

-- The events of a run between the first and the last.
unfoldable pub program_events : CompiledProgram → List String
unfolding phase_events
program_events program = "workers.disabled" ∷ phase_events program.phases

-- The requests of a run that returns, to its workers `names`.
unfoldable pub program_requests : String → CompiledProgram → List String → List (String × Kind)
unfolding to_all phase_requests
program_requests run_id program names =
    to_all disables names
    ++ (phase_requests run_id program 0 program.phases
        ++ to_all (stops (str "RUN_COMPLETED")) names)

module _ {W : Type 0} (s : Setting W) where
  write-Adds :
      (event : Fields) (t : String)
      → event_type event ≡ t
      → Adds s.run_id (t ∷ []) (t ∷ []) [] (write s event)
  unfolding write
  write-Adds event t h = record {
    follows = λ r.
        Follows-weaken s.run_id s.port (t ∷ []) [] r _
          (append-Follows s.run_id s.port s.codec event t r h);
  }

  pub write-last :
      (event : Fields) (t : String)
      → event_type event ≡ t
      → Adds s.run_id [] (t ∷ []) [] (write s event)
  unfolding write
  write-last event t h = record {
    follows = λ r. append-Follows s.run_id s.port s.codec event t r h;
  }

  write-then :
      {A : Type 0} {ps us : List String} {vs : List (String × Kind)} (event : Fields) (t : String)
      {f : JournalEvent → Step W A}
      → event_type event ≡ t
      → ((item : JournalEvent) → Adds s.run_id ps us vs (f item))
      → Adds s.run_id (t ∷ ps) (t ∷ us) vs (write s event >>= f)
  write-then event t h next = Adds->>= s.run_id (write-Adds event t h) next

  call_all-Adds :
      (request : String → Request) (k : Kind) (names : List String)
      → ((name : String) → kind_of (request name) ≡ k)
      → Adds s.run_id [] [] (to_all k names) (call_all s request names)
  unfolding call_all
  call_all-Adds request k names same = rw (← append-nil (to_all k names)) (
      Adds->>= s.run_id (gather_all-Adds s.run_id s.port request k same names)
        λ replies. Adds-lift s.run_id λ results _. pure-Adds s.run_id s.port replies)

  start_workers-Adds :
      (execution : String) (start_at : ℕ) (names : List String)
      → Adds s.run_id [] [] (to_all starts names) (start_workers s execution start_at names)
  unfolding start_workers kind_of
  start_workers-Adds execution start_at names = rw (← append-nil (to_all starts names)) (
      Adds->>= s.run_id
        (gather_all-Adds s.run_id s.port (λ name. start_phase start_at) starts (λ name. refl) names)
        λ replies. Adds-lift s.run_id λ results _. pure-Adds s.run_id s.port replies)

  phase-type :
      (kind : String) (replies : List (String × Reply)) (phase : String) (index : ℕ)
      (execution : String) (limit : Option Value) (behind : Fields)
      → event_type (phase_event kind replies phase index execution limit behind) ≡ kind
  unfolding event_type phase_event get
  phase-type kind replies phase index execution limit behind = refl

  phase_round-Adds :
      (index : ℕ) (phase : Fields)
      → let names = workers_of s.run_id s.program index phase in
        Adds s.run_id phase_order phase_order
          (to_all prepares names ++ to_all starts names)
          (phase_round s index phase)
  unfolding phase_round round_started kind_of phase_event event_type get
  phase_round-Adds index phase = Adds-lift s.run_id λ phase_id _.
      Adds-quiet s.run_id (set_phase-Adds s.run_id s.port phase_id) λ _.
        Adds-lift s.run_id λ planned known.
          rw (workers_of-planned s.run_id s.program index phase planned known) (
            let names = sort_texts (map (λ plan. plan.0) planned.1) in
            Adds-lift s.run_id λ _ _.
              Adds-quiet s.run_id (set_execution-Adds s.run_id s.port planned.0) λ _.
                Adds->>= s.run_id
                  (call_all-Adds (λ name. prepare_phase (plan_for planned.1 name)) prepares names
                    (λ name. refl))
                  λ prepared. write-then _ "phase.prepared" refl λ _.
                    Adds-quiet s.run_id (clock-Adds s.run_id s.port) λ now.
                      rw (← append-nil (to_all starts names)) (
                        Adds->>= s.run_id
                          (start_workers-Adds planned.0 (now + s.start_lead_us) names)
                          λ scheduled. write-then _ "phase.scheduled" refl λ _.
                            Adds-quiet s.run_id
                              (wait_all-Adds s.run_id s.port planned.0 "phase_started" names)
                              λ started. Adds-lift s.run_id λ observed _.
                                Adds-lift s.run_id λ limit _. write-then _ "phase.started" refl λ _.
                                  Adds-lift s.run_id λ _ _. Adds-lift s.run_id λ duration _.
                                    Adds-quiet s.run_id
                                      (wait_all-Adds s.run_id s.port planned.0 "phase_completed"
                                        names)
                                      λ completed.
                                        write-then _ "phase.completed" refl
                                          λ _. pure-Adds s.run_id s.port tt))

  run_phases-Adds :
      (index : ℕ) (phases : List Fields)
      → Adds s.run_id
          (phase_events phases)
          (phase_events phases)
          (phase_requests s.run_id s.program index phases)
          (run_phases s index phases)
  unfolding run_phases phase_events phase_requests
  run_phases-Adds index [] = pure-Adds s.run_id s.port tt
  run_phases-Adds index (phase ∷ phases) =
      Adds->>= s.run_id (phase_round-Adds index phase) λ _. run_phases-Adds (suc index) phases

  stop_all-Adds :
      (code : String) → Adds s.run_id [] [] (to_all (stops (str code)) s.names) (stop_all s code)
  unfolding stop_all kind_of code_of stop_context get
  stop_all-Adds code = record {
    follows = λ r.
        (gather_all-Adds s.run_id s.port
            (λ name. stop (stop_context code s.run_id r.current_phase r.current_execution))
            (stops (str code)) (λ name. refl) s.names).follows
          r;
  }

  finish-Adds :
      Adds s.run_id []
        ("run.completed" ∷ [])
        (to_all (stops (str "RUN_COMPLETED")) s.names)
        (finish s)
  unfolding finish completed_event event_type get
  finish-Adds = rw (← append-nil (to_all (stops (str "RUN_COMPLETED")) s.names)) (
      Adds->>= s.run_id (stop_all-Adds "RUN_COMPLETED") λ replies.
        Adds-lift s.run_id
          λ _ _. pure-after-Adds s.run_id s.port _ (write-last _ "run.completed" refl))

  pub run_program-Adds :
      Adds s.run_id
        (program_events s.program)
        (program_events s.program ++ "run.completed" ∷ [])
        (program_requests s.run_id s.program s.names)
        (run_program s)
  unfolding run_program disabled_event event_type get kind_of program_events program_requests
  run_program-Adds =
      subst
        (λ ps.
          Adds s.run_id ("workers.disabled" ∷ ps) (program_events s.program ++ "run.completed" ∷ [])
            (program_requests s.run_id s.program s.names) (run_program s))
        (append-nil (phase_events s.program.phases))
        (Adds->>= s.run_id
          (call_all-Adds (λ name. prepare_disabled) disables s.names (λ name. refl))
          λ disabled.
            write-then _ "workers.disabled" refl
              λ _. Adds->>= s.run_id (run_phases-Adds 0 s.program.phases) λ _. finish-Adds)

  -- All workers are told to stop, or the run is cancelled and the first of them were.
  pub stop_all-CallsAll :
      (code : String) (r : Run W)
      → CallsAll s.run_id s.port (to_all (stops (str code)) s.names) r (stop_all s code r)
  unfolding stop_all kind_of code_of stop_context get
  stop_all-CallsAll code r =
      gather_all-CallsAll s.run_id s.port
        (λ name. stop (stop_context code s.run_id r.current_phase r.current_execution))
        (stops (str code)) (λ name. refl) s.names r
