-- ===== src/Lease/Tests.antt =====
-- Runs of remote_robot/lease.py on concrete requests, and its theorems at concrete inputs.
use remote_robot.Prelude.{
  ◌⊎◌, String, ◌≡◌, refl, none, List, [], ◌∷◌, ◌≢◌, ◌&&◌, not, contains, if◌then◌else◌, ◌==◌,
  string_eq, set_add, same_set, is_some,
}
use remote_robot.Text.{is_canonical}
use remote_robot.Dict
use remote_robot.Lease.Request.{
  LeaseTarget, LeaseRequest, LeaseConflictItem, leaf, resource, ok, raise, conflict, value_error,
  request_mismatch, targets, request, target_eq, target_of, check_run_id, lease_request,
  same_request, canonical_keys,
}
use remote_robot.Lease.{
  LeaseManager, init, acquire, release, owner_of, active_grants, grant_for, acquire_again, grant_of,
  conflicts, acquire_new, acquire_checked, take_targets, drop_targets, release_grant,
}
use remote_robot.Lease.Targets.{owned_by}
use remote_robot.Lease.Invariant.{IsConsistent, init-IsConsistent}
use remote_robot.Lease.Acquire.{acquire_raised, acquire_twice, acquire-IsConsistent}
use remote_robot.Lease.Refused.{lists, acquire_conflict}
use remote_robot.Lease.Release.{release_lem, release-acquire}
use remote_robot.Lease.History.{Call, acquires, step, run, run_exclusive, run-IsConsistent}

program : Unit {0}
unfolding init acquire release owner_of active_grants grant_for acquire_again request lists run
    Dict.get Dict.put Dict.empty Dict.remove Dict.keys target_eq targets check_run_id lease_request
    same_request contains is_canonical canonical_keys set_add same_set conflicts acquire_new
    acquire_checked take_targets grant_of drop_targets release_grant step
program = tt

abbrev one : LeaseManager
one = (acquire init "r1" ("left" ∷ []) ("bench" ∷ []) [] 5).1

abbrev wanted : LeaseRequest
wanted = record { leaf_ids = "left" ∷ []; resource_keys = "bench" ∷ []; safety_domain_keys = [] }

padded : (acquire init " r1" [] [] [] 0).0 ≡ raise value_error
unfolding program
padded = refl

busy :
    (acquire one "r2" ("right" ∷ []) ("bench" ∷ []) [] 6).0
    ≡ raise
        (conflict "r2" (record { target = target_of resource "bench"; owner_run_id = "r1" } ∷ []))
unfolding program
busy = refl

changed : (acquire one "r1" ("right" ∷ []) [] [] 6).0 ≡ raise request_mismatch
unfolding program
changed = refl

acquire_raised_example : (acquire init " r1" [] [] [] 0).1 ≡ init
acquire_raised_example = acquire_raised value_error init " r1" [] [] [] 0 padded

acquire_twice_example :
    acquire one "r1" ("left" ∷ []) ("bench" ∷ []) [] 9
    ≡ acquire init "r1" ("left" ∷ []) ("bench" ∷ []) [] 5
unfolding program
acquire_twice_example =
    acquire_twice init "r1" ("left" ∷ []) ("bench" ∷ []) [] 5 {q = wanted} refl refl refl refl 9

abbrev second : LeaseRequest
second = record { leaf_ids = "right" ∷ []; resource_keys = "bench" ∷ []; safety_domain_keys = [] }

acquire_conflict_example :
    (items : List LeaseConflictItem) × ((t : LeaseTarget) (r : String)
      → lists items t r
        ≡ (contains (targets second) t && (owned_by (Dict.get one.owners t) r && not (r == "r2"))))
    × (((items ≡ [])
          × ((acquire one "r2" ("right" ∷ []) ("bench" ∷ []) [] 6).0 ≡ ok (grant_of "r2" second 6)))
        ⊎ ((items ≢ [])
            × ((acquire one "r2" ("right" ∷ []) ("bench" ∷ []) [] 6).0
                ≡ raise (conflict "r2" items))))
unfolding program
acquire_conflict_example =
    acquire_conflict one "r2" ("right" ∷ []) ("bench" ∷ []) [] 6 {q = second} refl refl refl

one-IsConsistent : IsConsistent one
one-IsConsistent =
    acquire-IsConsistent init init-IsConsistent "r1" ("left" ∷ []) ("bench" ∷ []) [] 5

release_lem_example :
    ((release one "r1").0 ≡ ok (is_some (Dict.get one.grants "r1")))
    × ((r : String)
        → Dict.get (release one "r1").1.grants r
          ≡ (if "r1" == r then none else Dict.get one.grants r))
    × ((t : LeaseTarget)
        → owner_of (release one "r1").1 t
          ≡ (if owned_by (owner_of one t) "r1" then none else owner_of one t))
unfolding check_run_id is_canonical
release_lem_example = release_lem one "r1" one-IsConsistent refl

release-acquire_example :
    owner_of (release one "r1").1 (target_of leaf "left") ≡ owner_of init (target_of leaf "left")
unfolding program
release-acquire_example =
    release-acquire init "r1" ("left" ∷ []) ("bench" ∷ []) [] 5 {q = wanted} init-IsConsistent refl
      refl refl refl (target_of leaf "left")

abbrev calls : List Call
calls =
    acquires "r1" ("left" ∷ []) ("bench" ∷ []) [] 5
    ∷ acquires "r2" ("right" ∷ []) ("bench" ∷ []) [] 6
    ∷ acquires "r3" ("right" ∷ []) [] [] 7
    ∷ []

run-IsConsistent_example : IsConsistent (run init calls)
run-IsConsistent_example = run-IsConsistent init calls init-IsConsistent

run_exclusive_example : ◌≡◌ {A = String} "r1" "r1"
unfolding program
run_exclusive_example =
    run_exclusive calls "r1" "r1" (grant_of "r1" wanted 5) (grant_of "r1" wanted 5) wanted wanted
      (target_of leaf "left") refl refl refl refl refl refl
