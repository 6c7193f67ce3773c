-- ===== src/Lease/Release.antt =====
-- remote_robot/lease.py, `LeaseManager.release`: exactly the run's own targets are freed.
use remote_robot.Prelude.{
  ℕ, List, [], String, ◌≡◌, true, false, none, some, ◌==◌, string_eq, ==_iff, arith, if◌then◌else◌,
  Option-cases, inl, inr, is_some,
}
use remote_robot.Dict
use remote_robot.Dict.{get-remove}
use remote_robot.Lease.Request.{
  LeaseTarget, LeaseRequest, LeaseReceipt, ok, check_run_id, target_eq, request, targets,
  lease_request,
}
use remote_robot.Lease.{LeaseManager, release, release_grant, owner_of, acquire, conflicts}
use remote_robot.Lease.Targets.{owned_by, check_run_id_same, conflicts-eq-nil}
use remote_robot.Lease.Invariant.{
  IsConsistent, released_manager, owner-released, released-IsConsistent,
}
use remote_robot.Lease.Acquire.{Result-cases, acquire-IsConsistent, owner_of-acquire}

release_held :
    (m : LeaseManager) (run_id : String) (g : LeaseReceipt) (q : LeaseRequest)
    → check_run_id run_id ≡ ok run_id
    → Dict.get m.grants run_id ≡ some g
    → request g ≡ ok q
    → release m run_id ≡ (ok true, released_manager m run_id q)
unfolding release release_grant
release_held m run_id g q named live readable =
    rw (named, release) (rw (live, release) (rw (readable, release_grant)))

release_unheld :
    (m : LeaseManager) (run_id : String)
    → check_run_id run_id ≡ ok run_id
    → Dict.get m.grants run_id ≡ none
    → release m run_id ≡ (ok false, m)
unfolding release
release_unheld m run_id named none_live = rw (named, release) (rw (none_live, release))

owned_none :
    (m : LeaseManager)
    → IsConsistent m
    → (r : String) → Dict.get m.grants r ≡ none
    → (t : LeaseTarget) → owned_by (Dict.get m.owners t) r ≡ false
owned_none m c r none_live t = elim (Option-cases (Dict.get m.owners t)) [
  | inl e ↦ rw e
  | inr (s, e) ↦ ground (arith, e, (c.owned t s e).granted, ==_iff s r)
]

module _ (m : LeaseManager) (run_id : String) (c : IsConsistent m)
    (named : check_run_id run_id ≡ ok run_id) where
  -- On a consistent manager `release` of a valid run id never raises, and tells whether the run
  -- held a grant. After it the run has no grant, the other runs have theirs, the targets that the run owned are
  -- free, and the other targets have their owners.
  pub release_lem :
      ((release m run_id).0 ≡ ok (is_some (Dict.get m.grants run_id)))
      × ((r : String)
          → Dict.get (release m run_id).1.grants r
            ≡ (if run_id == r then none else Dict.get m.grants r))
      × ((t : LeaseTarget)
          → owner_of (release m run_id).1 t
            ≡ (if owned_by (owner_of m t) run_id then none else owner_of m t))
  unfolding owner_of
  release_lem = elim (Option-cases (Dict.get m.grants run_id)) [
    | inl e ↦
        rw (release_unheld m run_id named e)
          (rw e, (λ r. ground (arith, ==_iff run_id r)), (λ t. rw (owned_none m c run_id e t)))
    | inr (g, e) ↦
        let held = c.held run_id g e in
        rw (release_held m run_id g held.wanted named e held.readable) (
          rw e,
          (λ r. get-remove m.grants run_id r),
          (λ t. owner-released m run_id g held.wanted c e held.readable t),
        )
  ]

  release-IsConsistent : IsConsistent (release m run_id).1
  release-IsConsistent = elim (Option-cases (Dict.get m.grants run_id)) [
    | inl e ↦ rw (release_unheld m run_id named e) c
    | inr (g, e) ↦
        let held = c.held run_id g e in
        rw (release_held m run_id g held.wanted named e held.readable)
          (released-IsConsistent m run_id g held.wanted c e held.readable)
  ]

-- `release` keeps a manager consistent, also at an invalid run id.
pub release_any-IsConsistent :
    (m : LeaseManager) (run_id : String) → IsConsistent m → IsConsistent (release m run_id).1
unfolding release
release_any-IsConsistent m run_id c = elim (Result-cases (check_run_id run_id)) [
  | inr (e, bad) ↦ rw (bad, release) c
  | inl (k, named) ↦
      release-IsConsistent m run_id c (ground (arith, named, check_run_id_same run_id k))
]

-- Releasing a fresh grant gives each target the owner that it had before the grant. The manager is
-- consistent, the run id and the keys are valid, the run had no grant and no target was another's.
pub release-acquire :
    (m : LeaseManager) (run_id : String) (leaves resources safety_domains : List String) (now : ℕ)
    {q : LeaseRequest}
    → IsConsistent m
    → check_run_id run_id ≡ ok run_id
    → lease_request leaves resources safety_domains ≡ ok q
    → Dict.get m.grants run_id ≡ none
    → conflicts m.owners run_id (targets q) ≡ []
    → (t : LeaseTarget)
    → owner_of (release (acquire m run_id leaves resources safety_domains now).1 run_id).1 t
      ≡ owner_of m t
unfolding owner_of
release-acquire m run_id ls rs ds now {q} c named wanted fresh free t = ground (
  arith,
  (release_lem (acquire m run_id ls rs ds now).1 run_id
        (acquire-IsConsistent m c run_id ls rs ds now) named).2
      t,
  owner_of-acquire m run_id ls rs ds now named wanted fresh free t,
  owned_none m c run_id fresh t,
  conflicts-eq-nil m.owners run_id (targets q) t free,
  ==_iff run_id run_id,
)
