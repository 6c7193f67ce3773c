-- ===== src/Orchestrator/Execute.antt =====
-- remote_robot/orchestrator.py, `RunOrchestrator.execute`: from the checks of a program to the release
-- of its leases. `execute` is a call that runs alone. Of several calls in turn, Lease/History has the
-- calls of the lease manager in any order, and Orchestrator/Active those of `enter` and `leave`.
use remote_robot.Prelude.{
  ℕ, String, Bool, true, false, not, none, some, List, [], ◌∷◌, ◌++◌, if◌then◌else◌, ◌==◌,
  string_eq, contains, set_add, keep,
}
use remote_robot.Text.{sort_texts}
use remote_robot.Value.{Value, Fields}
use remote_robot.Lease
use remote_robot.Lease.{LeaseManager}
use remote_robot.Lease.Request
use remote_robot.Lease.Request.{LeaseReceipt}
use remote_robot.Journal
use remote_robot.Journal.{Journal}
use remote_robot.Journal.Data
use remote_robot.Journal.Data.{Codec}
use remote_robot.Orchestrator.{
  Result, ok, raise, missing_worker, run_already_active, run_id_reuse, journal_error, lease_error,
}
use remote_robot.Orchestrator.Plans.{CompiledProgram, ◌>>=◌, participant_worker_ids}
use remote_robot.Orchestrator.Port
use remote_robot.Orchestrator.Port.{Port, Run}
use remote_robot.Orchestrator.Leased.{RunResult, Setting, execute_leased}
use remote_robot.Orchestrator.Preflight.{
  Checks, require, preflight, LockRequirements, lock_requirements,
}

-- `RunOrchestrator`, with the state around it
pub record Orchestrator (W : Type 0) : Type 0 where
  pub checks : Checks
  pub codec : Codec
  pub text_of : Value → String
  pub port : Port W
  pub start_lead_us : ℕ
  pub workers : List String
  pub active_run_ids : List String
  pub leases : LeaseManager
  pub journal : Journal
  pub world : W
  pub requests : List (String × Port.Request)

unfoldable pub is_empty : List String → Bool
is_empty [] = true
is_empty (x ∷ xs) = false

-- `sorted(worker_ids - self.workers.keys())`
unfoldable pub missing : List String → List String → List String
missing ids workers = keep (λ name. not (contains workers name)) ids

-- `self.journal.latest(run_id) is not None`
unfoldable pub has_history : Journal → String → Result Bool
has_history j run_id = elim (Journal.latest j run_id) [
  | Data.raise e ↦ raise (journal_error e)
  | Data.ok none ↦ ok false
  | Data.ok (some item) ↦ ok true
]

-- What is known once the checks have passed: the program, its locks and its workers.
pub record Ready : Type 0 where
  pub checked : CompiledProgram
  pub locks : LockRequirements
  pub names : List String
  pub root_manifest : Fields

-- `execute` up to the leases
unfoldable pub make_ready :
    {W : Type 0} → Orchestrator W → String → String → CompiledProgram → Result Ready
unfolding preflight lock_requirements participant_worker_ids missing has_history is_empty
make_ready o run_id identity_id program = do
  used ← has_history o.journal run_id
  fresh ← require (not used) run_id_reuse
  checked ← preflight o.checks identity_id program
  locks ← lock_requirements o.checks checked
  ids ← participant_worker_ids checked
  present ← require (is_empty (missing ids o.workers)) missing_worker
  manifest ← o.checks.describe checked.root_id
  ok (record { checked = checked; locks = locks; names = sort_texts ids; root_manifest = manifest })

-- `execute` once the leases are taken, with their release
unfoldable pub run_leased :
    {W : Type 0}
    → Orchestrator W
    → String
    → String
    → Ready
    → LeaseReceipt
    → Result RunResult × Orchestrator W
unfolding execute_leased
run_leased o run_id identity_id ready receipt =
    let setting : Setting _ = record {
      codec = o.codec;
      text_of = o.text_of;
      port = o.port;
      start_lead_us = o.start_lead_us;
      root_manifest = ready.root_manifest;
      run_id = run_id;
      identity_id = identity_id;
      program = ready.checked;
      names = ready.names;
    } in
    let (result, r) = execute_leased setting receipt (record {
      journal = o.journal;
      world = o.world;
      requests = [];
      current_phase = none;
      current_execution = none;
    }) in
    (
      result,
      record o {
        journal = r.journal;
        world = r.world;
        requests = o.requests ++ r.requests;
        leases = (Lease.release o.leases run_id).1;
      },
    )

-- `execute` behind `acquire`
unfoldable pub leased :
    {W : Type 0}
    → Orchestrator W
    → String
    → String
    → Ready
    → Request.Result LeaseReceipt × LeaseManager
    → Result RunResult × Orchestrator W
unfolding run_leased
leased o run_id identity_id ready (Request.raise e, leases) =
    (raise (lease_error e), record o { leases = leases })
leased o run_id identity_id ready (Request.ok receipt, leases) =
    run_leased (record o { leases = leases }) run_id identity_id ready receipt

-- `execute` behind the checks
unfoldable pub checked_run :
    {W : Type 0}
    → Orchestrator W
    → String
    → String
    → Result Ready
    → Result RunResult × Orchestrator W
unfolding leased
checked_run o run_id identity_id (raise e) = (raise e, o)
checked_run o run_id identity_id (ok ready) = leased o run_id identity_id ready (
    Lease.acquire o.leases run_id ready.locks.leaves ready.locks.resources
      ready.locks.safety_domains (o.port.monotonic_ns o.world))

-- `execute` from the first lock on
unfoldable pub execute_active :
    {W : Type 0}
    → Orchestrator W
    → String
    → String
    → CompiledProgram
    → Result RunResult × Orchestrator W
unfolding make_ready checked_run
execute_active o run_id identity_id program =
    checked_run o run_id identity_id (make_ready o run_id identity_id program)

-- The block under the first `_active_lock`, which a call for a run that is active does not pass.
unfoldable pub enter : List String → String → Result (List String)
enter active run_id =
    if contains active run_id then raise run_already_active else ok (set_add run_id active)

-- The block under the last `_active_lock`.
unfoldable pub leave : List String → String → List String
leave active run_id = keep (λ id. not (id == run_id)) active

-- `execute` behind the first `_active_lock`
unfoldable pub execute_entered :
    {W : Type 0}
    → Orchestrator W
    → String
    → String
    → CompiledProgram
    → Result (List String)
    → Result RunResult × Orchestrator W
unfolding execute_active leave
execute_entered o run_id identity_id program (raise e) = (raise e, o)
execute_entered o run_id identity_id program (ok ids) =
    let entered = record o { active_run_ids = ids } in
    let (result, left) = execute_active entered run_id identity_id program in
    (result, record left { active_run_ids = leave left.active_run_ids run_id })

-- `execute`
unfoldable pub execute :
    {W : Type 0}
    → Orchestrator W
    → String
    → String
    → CompiledProgram
    → Result RunResult × Orchestrator W
unfolding execute_entered enter
execute o run_id identity_id program =
    execute_entered o run_id identity_id program (enter o.active_run_ids run_id)
