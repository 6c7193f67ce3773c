-- ===== src/Orchestrator/Neutral.antt =====
-- remote_robot/orchestrator.py, `RunOrchestrator.execute`: the leases after a run.
use mathlib.Core.Path.{subst}
use remote_robot.Prelude.{String, ◌≡◌, refl, sym, ap, ◌∙◌, none, string_eq, List}
use remote_robot.Dict
use remote_robot.Lease
use remote_robot.Lease.{LeaseManager, owner_of}
use remote_robot.Lease.Request
use remote_robot.Lease.Request.{LeaseReceipt, LeaseTarget}
use remote_robot.Lease.Invariant.{IsConsistent}
use remote_robot.Lease.Acquire.{acquire_raised, acquire-IsConsistent}
use remote_robot.Lease.Release.{release_any-IsConsistent}
use remote_robot.Lease.Cycle.{Agrees, Agrees-refl, release-Agrees}
use remote_robot.Orchestrator.{Result, ok, raise}
use remote_robot.Orchestrator.Plans.{CompiledProgram}
use remote_robot.Orchestrator.Execute.{
  Orchestrator, Ready, make_ready, run_leased, leased, checked_run, execute_active, execute_entered,
  enter, execute,
}

-- The leases are as they were, and consistent.
record Kept (m m' : LeaseManager) : Type 0 where
  agrees : Agrees m m'
  consistent : IsConsistent m'

module _ {W : Type 0} (run_id identity_id : String) where
  leased-Kept :
      (o : Orchestrator W) (ready : Ready) (out : Request.Result LeaseReceipt × LeaseManager)
      → IsConsistent o.leases
      → Dict.get o.leases.grants run_id ≡ none
      → Lease.acquire o.leases run_id ready.locks.leaves ready.locks.resources
          ready.locks.safety_domains
          (o.port.monotonic_ns o.world)
        ≡ out
      → Kept o.leases (leased o run_id identity_id ready out).1.leases
  unfolding leased run_leased
  leased-Kept o ready (Request.ok g, leases) c fresh same = rw (← ap (λ out. out.1) same) (
      let now = o.port.monotonic_ns o.world in
      let l = ready.locks in
      record {
        agrees =
            release-Agrees o.leases run_id l.leaves l.resources l.safety_domains now g c fresh
              (ap (λ out. out.0) same);
        consistent =
            release_any-IsConsistent _ run_id
              (acquire-IsConsistent o.leases c run_id l.leaves l.resources l.safety_domains now);
      })
  leased-Kept o ready (Request.raise e, leases) c fresh same =
      let l = ready.locks in
      let kept =
        acquire_raised e o.leases run_id l.leaves l.resources l.safety_domains
          (o.port.monotonic_ns o.world) (ap (λ out. out.0) same) in
      subst (λ m. Kept o.leases m) (sym kept ∙ ap (λ out. out.1) same)
        (record { agrees = Agrees-refl o.leases; consistent = c })

  checked_run-Kept :
      (o : Orchestrator W) (ready : Result Ready)
      → IsConsistent o.leases
      → Dict.get o.leases.grants run_id ≡ none
      → Kept o.leases (checked_run o run_id identity_id ready).1.leases
  unfolding checked_run
  checked_run-Kept o (raise e) c fresh = record { agrees = Agrees-refl o.leases; consistent = c }
  checked_run-Kept o (ok ready) c fresh = leased-Kept o ready _ c fresh refl

module _ {W : Type 0} (o : Orchestrator W) (run_id identity_id : String)
    (program : CompiledProgram) where
  execute_entered-Kept :
      (out : Result (List String))
      → IsConsistent o.leases
      → Dict.get o.leases.grants run_id ≡ none
      → Kept o.leases (execute_entered o run_id identity_id program out).1.leases
  unfolding execute_entered execute_active
  execute_entered-Kept (raise e) c fresh = record { agrees = Agrees-refl o.leases; consistent = c }
  execute_entered-Kept (ok ids) c fresh =
      let entered : Orchestrator W = record o { active_run_ids = ids } in
      checked_run-Kept run_id identity_id entered (make_ready entered run_id identity_id program) c
        fresh

  -- Whatever a run comes to, `execute` leaves the owner of each target and the grant of each run as
  -- they were, and the manager consistent. The manager was consistent and the run had no grant.
  pub execute_leases :
      IsConsistent o.leases
      → Dict.get o.leases.grants run_id ≡ none
      → ((t : LeaseTarget)
          → owner_of (execute o run_id identity_id program).1.leases t ≡ owner_of o.leases t)
        × ((r : String)
            → Dict.get (execute o run_id identity_id program).1.leases.grants r
              ≡ Dict.get o.leases.grants r)
        × IsConsistent (execute o run_id identity_id program).1.leases
  unfolding execute
  execute_leases c fresh =
      let kept = execute_entered-Kept (enter o.active_run_ids run_id) c fresh in
      (kept.agrees.owners, kept.agrees.grants, kept.consistent)
