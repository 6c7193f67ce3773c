-- ===== src/Orchestrator/Terminal.antt =====
-- remote_robot/orchestrator.py, `_execute_leased`: the number of a run's last event.
use remote_robot.Prelude.{
  suc, ◌+◌, ◌*◌, String, ◌≡◌, refl, ap, List, [], ◌∷◌, ◌++◌, length, length-append, ==_refl,
  string_eq, arith,
}
use remote_robot.Value.{Fields, dict}
use remote_robot.Lease.Request.{LeaseReceipt}
use remote_robot.Journal
use remote_robot.Journal.{Journal, events_of}
use remote_robot.Journal.Data
use remote_robot.Journal.Data.{Codec, Moment, JournalEvent}
use remote_robot.Journal.Sequence.{append_returned}
use remote_robot.Orchestrator.{OrchestratorError, Result, ok, raise, Reply}
use remote_robot.Orchestrator.Events.{opened_event}
use remote_robot.Orchestrator.Port.{Run, append, from_journal}
use remote_robot.Orchestrator.Leased.{
  Setting, RunResult, write, stop_all, finish, run_program, faulted, concluded, proceed,
  execute_leased,
}
use remote_robot.Orchestrator.Ensures.{Holds, Ensures, Ensures->>=, Ensures-pure}
use remote_robot.Orchestrator.Trace.{event_types, types}
use remote_robot.Orchestrator.Protocol.{phase_events, program_events}
use remote_robot.Orchestrator.Course.{execute_leased-Course}

length-event_types : (items : List JournalEvent) → length (event_types items) ≡ length items
unfolding event_types
length-event_types [] = refl
length-event_types (item ∷ items) = ap suc (length-event_types items)

length-phase_events : (phases : List Fields) → length (phase_events phases) ≡ 4 * length phases
unfolding phase_events
length-phase_events [] = refl
length-phase_events (phase ∷ phases) = ground (arith, length-phase_events phases)

module _ {W : Type 0} (s : Setting W) where
  -- The event is the run's last.
  abbrev IsLast : JournalEvent → Run W → Type 0
  IsLast item r = item.event_seq ≡ length (events_of r.journal s.run_id)

  from_journal-IsLast :
      (r : Run W) (event : Fields) (now : Moment) (out : Data.Result JournalEvent × Journal)
      → Journal.append s.codec r.journal s.run_id (dict event) now ≡ out
      → Holds IsLast (from_journal r out)
  unfolding from_journal
  from_journal-IsLast r event now (Data.ok item, j) same =
      let returned =
        append_returned s.codec r.journal s.run_id (dict event) now item (ap (λ out. out.0) same) in
      ground (
        arith,
        returned.0,
        returned.2 s.run_id,
        ap (λ out. out.1) same,
        ==_refl s.run_id,
        length-append (events_of r.journal s.run_id) (item ∷ []),
      )
  from_journal-IsLast r event now (Data.raise e, j) same = tt

  write-IsLast : (event : Fields) → Ensures IsLast (write s event)
  unfolding write append
  write-IsLast event = record {
    holds = λ r.
        let now = s.port.moment r.world in
        from_journal-IsLast r event now (Journal.append s.codec r.journal s.run_id (dict event) now)
          refl;
  }

  -- The number of the result is that of the last event.
  abbrev NamesLast : RunResult → Run W → Type 0
  NamesLast result r =
      (result.terminal_event_seq ≡ length (events_of r.journal s.run_id))
      × (result.phase_count ≡ length s.program.phases)

  finish-NamesLast : Ensures NamesLast (finish s)
  unfolding finish
  finish-NamesLast = Ensures->>= _ λ replies.
      Ensures->>= _ λ _. Ensures-pure NamesLast _ (λ item r h. (h, refl)) (write-IsLast _)

  run_program-NamesLast : Ensures NamesLast (run_program s)
  unfolding run_program
  run_program-NamesLast = Ensures->>= _ λ _. Ensures->>= _ λ _. Ensures->>= _ λ _. finish-NamesLast

  concluded-NamesLast :
      (out : Result RunResult × Run W) → Holds NamesLast out → Holds NamesLast (concluded s out)
  unfolding concluded
  concluded-NamesLast (ok result, r) h = h
  concluded-NamesLast (raise e, r) h = faulted_raises e r (stop_all s "ORCHESTRATION_FAILURE" r)
    where
      faulted_raises :
          (e : OrchestratorError) (r : Run W) (out : Result (List (String × Reply)) × Run W)
          → Holds NamesLast (faulted s e r out)
      faulted_raises e r (ok replies, r') = tt
      faulted_raises e r (raise f, r') = tt

  execute_leased-NamesLast :
      (receipt : LeaseReceipt) (r : Run W) → Holds NamesLast (execute_leased s receipt r)
  unfolding execute_leased proceed
  execute_leased-NamesLast receipt r =
      proceed_holds (write s (opened_event s.identity_id s.program receipt) r)
    where
      proceed_holds : (out : Result JournalEvent × Run W) → Holds NamesLast (proceed s out)
      proceed_holds (raise e, r) = tt
      proceed_holds (ok item, r) =
          concluded-NamesLast (run_program s r) (run_program-NamesLast.holds r)

  -- A run that returns gives its last event, which is 3 + 4 · n events past those that it had
  -- before, where n is the number of its phases, and it tells n.
  pub execute_leased_last :
      (receipt : LeaseReceipt) (r r' : Run W) (result : RunResult)
      → execute_leased s receipt r ≡ (ok result, r')
      → (result.terminal_event_seq ≡ length (events_of r'.journal s.run_id))
        × (result.terminal_event_seq
            ≡ length (events_of r.journal s.run_id) + (3 + 4 * length s.program.phases))
        × (result.phase_count ≡ length s.program.phases)
  unfolding types program_events
  execute_leased_last receipt r r' result h =
      let grown = (rw h at (execute_leased-Course s receipt r)).logged in
      let (number, count) = rw h at (execute_leased-NamesLast receipt r) in
      let before = events_of r.journal s.run_id in
      let events = "run.opened" ∷ program_events s.program ++ "run.completed" ∷ [] in
      let longer = ap (λ ts. length ts) grown in
      (
        number,
        ground (
          arith,
          number,
          longer,
          length-event_types (events_of r'.journal s.run_id),
          length-event_types before,
          length-append (event_types before) events,
          length-append (phase_events s.program.phases) ("run.completed" ∷ []),
          length-phase_events s.program.phases,
        ),
        count,
      )
