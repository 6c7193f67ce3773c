-- ===== src/Lease/Cycle.antt =====
-- remote_robot/lease.py: a run that takes its leases and gives them back.
use remote_robot.Prelude.{ℕ, String, ◌≡◌, refl, none, [], List, arith, inl, inr, string_eq, ==_iff}
use remote_robot.Dict
use remote_robot.Dict.{get-put}
use remote_robot.Lease.Request.{
  LeaseTarget, LeaseRequest, LeaseReceipt, ok, targets, lease_request, check_run_id, target_eq,
}
use remote_robot.Lease.{LeaseManager, acquire, conflicts, release, owner_of, grant_of}
use remote_robot.Lease.Targets.{check_run_id_same}
use remote_robot.Lease.Invariant.{IsConsistent}
use remote_robot.Lease.Acquire.{
  List-cases, Result-cases, acquire_fresh, acquire_new-free, acquire_new-busy, acquire-IsConsistent,
}
use remote_robot.Lease.Release.{release_lem, release-acquire}

-- The two managers tell the same: each target has the same owner and each run the same grant.
pub record Agrees (m m' : LeaseManager) : Type 0 where
  pub owners : (t : LeaseTarget) → owner_of m' t ≡ owner_of m t
  pub grants : (r : String) → Dict.get m'.grants r ≡ Dict.get m.grants r

pub Agrees-refl : (m : LeaseManager) → Agrees m m
Agrees-refl m = record { owners = λ t. refl; grants = λ r. refl }

module _ (m : LeaseManager) (run_id : String) (leaves resources safety_domains : List String)
    (now : ℕ) where
  -- What a fresh grant shows of the request.
  record Granted : Type 0 where
    wanted : LeaseRequest
    named : check_run_id run_id ≡ ok run_id
    valid : lease_request leaves resources safety_domains ≡ ok wanted
    free : conflicts m.owners run_id (targets wanted) ≡ []

  acquire-Granted :
      (g : LeaseReceipt)
      → Dict.get m.grants run_id ≡ none
      → (acquire m run_id leaves resources safety_domains now).0 ≡ ok g
      → Granted
  unfolding acquire
  acquire-Granted g fresh h = elim (Result-cases (check_run_id run_id)) [
    | inr (e, bad) ↦ absurd (ground (arith, bad))
    | inl (k, known) ↦
        let named : check_run_id run_id ≡ ok run_id =
          ground (arith, known, check_run_id_same run_id k known) in
        elim (Result-cases (lease_request leaves resources safety_domains)) [
          | inr (e, bad) ↦ absurd (ground (arith, named, bad))
          | inl (q, valid) ↦ elim (List-cases (conflicts m.owners run_id (targets q))) [
            | inl free ↦ record { wanted = q; named = named; valid = valid; free = free }
            | inr (x, xs, busy) ↦ absurd (
                ground (
                  arith,
                  acquire_fresh m run_id leaves resources safety_domains now named valid fresh,
                  acquire_new-busy m run_id q now x xs busy,
                ))
          ]
        ]
  ]

  pub release-Agrees :
      (g : LeaseReceipt)
      → IsConsistent m
      → Dict.get m.grants run_id ≡ none
      → (acquire m run_id leaves resources safety_domains now).0 ≡ ok g
      → Agrees m (release (acquire m run_id leaves resources safety_domains now).1 run_id).1
  release-Agrees g c fresh h =
      let granted = acquire-Granted g fresh h in
      let q = granted.wanted in
      let taken =
        acquire_fresh m run_id leaves resources safety_domains now granted.named granted.valid
          fresh in
      let released =
        release_lem (acquire m run_id leaves resources safety_domains now).1 run_id
          (acquire-IsConsistent m c run_id leaves resources safety_domains now) granted.named in
      record {
        owners = λ t.
            release-acquire m run_id leaves resources safety_domains now c granted.named
              granted.valid fresh granted.free t;
        grants = λ r. ground (
          arith,
          released.1 r,
          taken,
          acquire_new-free m run_id q now granted.free,
          get-put m.grants run_id r (grant_of run_id q now),
          ==_iff run_id r,
          fresh,
        );
      }
