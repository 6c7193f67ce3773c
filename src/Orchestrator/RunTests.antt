-- ===== src/Orchestrator/RunTests.antt =====
-- Runs of remote_robot/orchestrator.py with one worker and one phase, and the theorems on runs at
-- concrete inputs.
use remote_robot.Prelude.{
  ◌+◌, ◌*◌, String, ◌≡◌, refl, false, none, some, List, [], ◌∷◌, pos, length, contains, sort_by,
  string_eq, set_add,
}
use remote_robot.Value.{
  Fields, str, int, list, dict, nil, cons, end, field, get, keys, text_keys, are_texts,
}
use remote_robot.Lease.Request.{LeaseReceipt, LeaseTarget}
use remote_robot.Journal.Data.{Codec, underscored}
use remote_robot.Orchestrator.{
  ok, Reply, returned, is_str, matches, is_terminal, is_awaited, is_failure, wait_one, actual_start,
  actual_starts, largest, smallest, spread, observed_start_skew_us, max_start_skew_us, is_over,
  all_returned, is_acknowledged, are_acknowledged, start_all,
}
use remote_robot.Orchestrator.Plans.{CompiledProgram}
use remote_robot.Orchestrator.Port.{
  Request, prepare_disabled, prepare_phase, start_phase, stop, Port, Run,
}
use remote_robot.Orchestrator.Leased.{Setting, RunResult, execute_leased, phase_round}
use remote_robot.Orchestrator.Rounds.{HasStarted, phase_round_starts}
use remote_robot.Orchestrator.Protocol.{workers_of}
use remote_robot.Orchestrator.Preflight.{Checks}
use remote_robot.Orchestrator.Execute.{Orchestrator, execute}
use remote_robot.Orchestrator.Trace.{
  types, kinds, event_types, event_type, kind_of, code_of, disables, prepares, starts, stops,
}
use remote_robot.Dict
use remote_robot.Lease
use remote_robot.Lease.{owner_of}
use remote_robot.Lease.Invariant.{IsConsistent, init-IsConsistent}
use remote_robot.Journal.{events_of}
use remote_robot.Orchestrator.Course.{Course, execute_leased-Course}
use remote_robot.Orchestrator.Terminal.{execute_leased_last}
use remote_robot.Orchestrator.Neutral.{execute_leases}
use remote_robot.Orchestrator.Active
use remote_robot.Orchestrator.Active.{
  Calls, begins, ends, run, are_distinct, IsExclusive, run-IsExclusive,
}
use remote_robot.Journal
use remote_robot.Journal.Data
use remote_robot.Orchestrator.Port
use remote_robot.Orchestrator.Locks
use remote_robot.Orchestrator.Preflight
use remote_robot.Orchestrator.Execute
use remote_robot.Lease.Request
use remote_robot.Orchestrator.Plans
use remote_robot.Orchestrator.Events
use remote_robot.Orchestrator.Leased
use remote_robot.Text.{is_canonical, sort_texts, count, split_dots}

abbrev matched : String → Fields
matched kind = field (str "type") (str kind) (
    field (str "run_id") (str "r") (
      field (str "actual_start_us") (int (pos 10))
        (field (str "phase_execution_id") (str "r:0:aaaaaaaaaaaa") end)))

abbrev scheduled : Fields
scheduled =
    field (str "status") (str "scheduled") (
      field (str "run_id") (str "r")
        (field (str "phase_execution_id") (str "r:0:aaaaaaaaaaaa") end))

-- A worker that answers each call; its world is the events that it has yet to give.
abbrev answers : String → Request → List Fields → Reply × List Fields
answers name (start_phase at) w = (returned scheduled, w)
answers name request w = (returned end, w)

abbrev willing : Port (List Fields)
willing = record {
  call = answers;
  arrivals = λ name w. w;
  leave = λ name rest w. rest;
  monotonic_ns = λ w. 5000;
  moment = λ w. record { time_ns = 1; writing = Data.succeeds };
  is_cancelled = λ w. false;
  calls_before_cancel = λ w. none;
}

abbrev plain : Codec
plain = record {
  dumps = λ v. some (0 ∷ []);
  loads = λ b. none;
  sha256 = λ b. [];
  casefold = λ s. s;
}

abbrev sequence : Fields
sequence = field (str "role_path") (str "arm.wrist") (
    field (str "resolved_target")
      (dict (field (str "physical_node_id") (str "left") (field (str "group_id") (str "arm") end)))
      end)

abbrev phase : Fields
phase = field (str "sha256") (str "aaaaaaaaaaaaaaaa") (
    field (str "phase_id") (str "lift") (
      field (str "duration_us") (int (pos 9)) (
        field (str "completion") (dict (field (str "schema") (str "all_sequences_finished/v1") end))
          (field (str "sequences") (list (cons (dict sequence) nil)) end))))

abbrev lifting : CompiledProgram
lifting = record {
  root_id = "root";
  manifest_hash = "m";
  sha256 = "p";
  phases = phase ∷ [];
  outline = end;
}

abbrev setting : Setting (List Fields)
setting = record {
  codec = plain;
  text_of = λ v. "";
  port = willing;
  start_lead_us = 20;
  root_manifest = end;
  run_id = "r";
  identity_id = "me";
  program = lifting;
  names = "left" ∷ [];
}

program : Unit {0}
unfolding execute_leased Leased.write Port.append Port.from_journal Journal.append
    Journal.append_open Journal.append_checked Journal.events_of Journal.persist Journal.write_frame
    Data.check_run_id Data.event_data Data.validate_plain_data Data.looks_secret Data.ends_with
    Data.overlaps contains is_canonical Leased.proceed Leased.concluded Leased.run_program
    Leased.call_all Port.gather_all Port.gather Port.cut_at Port.gather_cut Port.◌>>=◌ Port.pure
    Port.lift Port.set_phase Port.set_execution Port.clock all_returned Leased.run_phases
    Leased.phase_round Leased.round_started Leased.finish Leased.stop_all Leased.text_entry
    Leased.int_entry Leased.none_planned Leased.none_raised Leased.plan_for Leased.start_workers
    start_all Plans.entry Plans.worker_phase_plans Plans.phase_digest Plans.execution_id
    Plans.phase_sequences Plans.sequences_of Plans.tracks_of Plans.add_track Plans.physical_id
    Plans.plan_of Plans.items_of Plans.decimal Plans.decimal_from Plans.digit_text Plans.first_chars
    Port.wait_all Port.wait_each Port.wait_for Port.waited wait_one matches is_awaited is_failure
    is_terminal is_str is_acknowledged are_acknowledged observed_start_skew_us max_start_skew_us
    is_over actual_start actual_starts largest smallest spread Leased.events_in Events.opened_event
    Events.disabled_event Events.phase_event Events.completed_event Events.faulted_event
    Events.stop_context Events.texts_of Events.text_or_null Events.number_or_null Plans.safe_results
    Plans.safe_result Plans.mapping Plans.fields_of Plans.key_le sort_by sort_texts count get
    Dict.get Dict.put Dict.empty Dict.remove Journal.init Lease.init types kinds event_types
    event_type kind_of code_of keys text_keys are_texts underscored
program = tt

abbrev receipt : LeaseReceipt
receipt = record {
  run_id = "r";
  leaves = [];
  resources = [];
  safety_domains = [];
  acquired_at_monotonic_ns = 0;
}

abbrev begin : Run (List Fields)
begin = record {
  journal = Journal.init;
  world = matched "phase_started" ∷ matched "phase_completed" ∷ [];
  requests = [];
  current_phase = none;
  current_execution = none;
}

returns :
    (execute_leased setting receipt begin).0
    ≡ ok (record {
      run_id = "r";
      status = "completed";
      phase_count = 1;
      program_sha256 = "p";
      terminal_event_seq = 7;
    })
unfolding program
returns = refl

requests_of : kinds (execute_leased setting receipt begin).1.requests ≡ (
    ("left", disables)
    ∷ ("left", prepares)
    ∷ ("left", starts)
    ∷ ("left", stops (str "RUN_COMPLETED"))
    ∷ [])
unfolding program
requests_of = refl

-- The worker that never reports its start: the run is stopped and marked as failed.
timed_out :
    let r = (execute_leased setting receipt (record begin { world = [] })).1 in
    (types "r" r
      ≡ "run.opened" ∷ "workers.disabled" ∷ "phase.prepared" ∷ "phase.scheduled" ∷ "run.faulted"
        ∷ [])
    × (kinds r.requests
        ≡ ("left", disables)
          ∷ ("left", prepares)
          ∷ ("left", starts)
          ∷ ("left", stops (str "ORCHESTRATION_FAILURE"))
          ∷ [])
unfolding program
timed_out = (refl, refl)

execute_leased-Course_example : Course setting begin (execute_leased setting receipt begin)
execute_leased-Course_example = execute_leased-Course setting receipt begin

execute_leased_last_example :
    let r' = (execute_leased setting receipt begin).1 in
    (7 ≡ length (events_of r'.journal "r")) × (7 ≡ 0 + (3 + 4 * 1)) × (1 ≡ length lifting.phases)
unfolding program
execute_leased_last_example =
    execute_leased_last setting receipt begin (execute_leased setting receipt begin).1
      (record {
        run_id = "r";
        status = "completed";
        phase_count = 1;
        program_sha256 = "p";
        terminal_event_seq = 7;
      })
      refl

-- A root that allows 8 µs between the starts.
abbrev limited : Setting (List Fields)
limited = record setting { root_manifest = field (str "max_start_skew_us") (int (pos 8)) end }

limited_round : phase_round limited 0 phase begin ≡ (ok tt, (phase_round limited 0 phase begin).1)
unfolding program
limited_round = refl

phase_round_starts_example :
    HasStarted limited 8 (workers_of "r" lifting 0 phase) (phase_round limited 0 phase begin).1
unfolding program
phase_round_starts_example =
    phase_round_starts limited 0 phase begin (phase_round limited 0 phase begin).1 8 limited_round
      refl

-- An orchestrator with one worker whose root has one role, "arm".
abbrev arm : Fields
arm = field (str "kind") (str "physical") (field (str "node_id") (str "left") end)

abbrev child : Fields
child = field (str "role") (str "arm") (field (str "manifest") (dict arm) end)

abbrev root : Fields
root =
    field (str "kind") (str "composite") (field (str "children") (list (cons (dict child) nil)) end)

abbrev station : Orchestrator (List Fields)
station = record {
  checks = record {
    recheck = λ p. ok p;
    describe = λ id. ok root;
    require_control = λ identity id paths. ok tt;
  };
  codec = plain;
  text_of = λ v. "";
  port = willing;
  start_lead_us = 20;
  workers = "left" ∷ [];
  active_run_ids = [];
  leases = Lease.init;
  journal = Journal.init;
  world = matched "phase_started" ∷ matched "phase_completed" ∷ [];
  requests = [];
}

abbrev outlined : CompiledProgram
outlined = record lifting { outline = field (str "phases") (list (cons (dict phase) nil)) end }

executed :
    (execute station "r" "me" outlined).0
    ≡ ok (record {
      run_id = "r";
      status = "completed";
      phase_count = 1;
      program_sha256 = "p";
      terminal_event_seq = 7;
    })
unfolding program execute Execute.enter Execute.leave Execute.execute_entered Execute.execute_active
    Execute.checked_run Execute.leased Execute.run_leased Execute.make_ready Execute.has_history
    Execute.missing Execute.is_empty Journal.latest Preflight.preflight Preflight.check_phases
    Preflight.is_default_completion Preflight.has_no_transitions Preflight.add_role_paths
    Preflight.role_path Preflight.lock_requirements Preflight.mappings_in Preflight.mapping_in
    Preflight.text_in Preflight.add_outline Preflight.add_sequences Preflight.add_sequence
    Preflight.add_all set_add Plans.participant_worker_ids Plans.add_phases Plans.add_ids
    Locks.strings Locks.string_list Locks.matching Locks.only_manifest Locks.child_manifest
    Locks.own_locks Locks.joined Locks.collect_role_branch_locks split_dots Lease.acquire
    Lease.acquire_checked Lease.acquire_new Lease.conflicts Lease.take_targets Lease.grant_of
    Request.check_run_id Request.lease_request Request.targets Request.canonical_keys
executed = refl

execute_leases_example :
    ((t : LeaseTarget)
      → owner_of (execute station "r" "me" outlined).1.leases t ≡ owner_of Lease.init t)
    × ((r : String)
        → Dict.get (execute station "r" "me" outlined).1.leases.grants r
          ≡ Dict.get (Lease.init).grants r)
    × IsConsistent (execute station "r" "me" outlined).1.leases
unfolding program
execute_leases_example = execute_leases station "r" "me" outlined init-IsConsistent refl

abbrev idle : Calls
idle = record { active_run_ids = []; under_way = [] }

idle-IsExclusive : IsExclusive idle
unfolding are_distinct contains
idle-IsExclusive = record { distinct = refl; active = λ r. refl }

-- A second call for a run is refused while the first is under way, and another run is not.
refused_twice : (run idle (begins "r" ∷ begins "q" ∷ begins "r" ∷ [])).under_way ≡ "q" ∷ "r" ∷ []
unfolding run Active.step Active.entered Execute.enter contains set_add
refused_twice = refl

run-IsExclusive_example :
    IsExclusive (run idle (begins "r" ∷ begins "q" ∷ begins "r" ∷ ends "r" ∷ []))
run-IsExclusive_example =
    run-IsExclusive idle (begins "r" ∷ begins "q" ∷ begins "r" ∷ ends "r" ∷ []) idle-IsExclusive
