-- ===== src/Lease/Acquire.antt =====
-- remote_robot/lease.py, `LeaseManager.acquire`: all targets or none, and repeated requests.
use remote_robot.Prelude.{
  ℕ, String, ◌≡◌, refl, none, some, List, [], ◌∷◌, string_eq, arith, contains, if◌then◌else◌,
  Option-cases, inl, inr, ◌⊎◌, same_set_refl, ==_refl, ◌∙◌,
}
use remote_robot.Dict
use remote_robot.Dict.{Dict, get-put, get-remove, get-empty}
use remote_robot.Lease.Request.{
  LeaseTarget, LeaseRequest, LeaseConflictItem, LeaseError, Result, ok, raise, conflict, targets,
  request, target_eq, lease_request, check_run_id, same_request,
}
use remote_robot.Lease.{
  LeaseManager, conflicts, grant_of, acquire_new, acquire_again, acquire_checked, acquire, owner_of,
}
use remote_robot.Lease.Targets.{get-take_targets, request-grant_of}
use remote_robot.Lease.Invariant.{IsConsistent, granted_manager, granted-IsConsistent}

pub List-cases {ℓ} :
    {A : Type ℓ} (xs : List A) → (xs ≡ []) ⊎ ((y : A) × (ys : List A) × (xs ≡ y ∷ ys))
List-cases [] = inl refl
List-cases (x ∷ xs) = inr (x, xs, refl)

pub Result-cases {ℓ} :
    {A : Type ℓ} (r : Result A) → ((a : A) × (r ≡ ok a)) ⊎ ((e : LeaseError) × (r ≡ raise e))
Result-cases (ok a) = inl (a, refl)
Result-cases (raise e) = inr (e, refl)

module _ (m : LeaseManager) (owner : String) (q : LeaseRequest) (now : ℕ) where
  pub acquire_new-free :
      conflicts m.owners owner (targets q) ≡ []
      → acquire_new m owner q now ≡ (ok (grant_of owner q now), granted_manager m owner q now)
  unfolding acquire_new
  acquire_new-free h = rw (h, acquire_new)

  pub acquire_new-busy :
      (x : LeaseConflictItem) (xs : List LeaseConflictItem)
      → conflicts m.owners owner (targets q) ≡ x ∷ xs
      → acquire_new m owner q now ≡ (raise (conflict owner (x ∷ xs)), m)
  unfolding acquire_new
  acquire_new-busy x xs h = rw (h, acquire_new)

-- `acquire` from a valid run id and a valid request on.
acquire_valid :
    (m : LeaseManager) (run_id : String) (leaves resources safety_domains : List String) (now : ℕ)
    {q : LeaseRequest}
    → check_run_id run_id ≡ ok run_id
    → lease_request leaves resources safety_domains ≡ ok q
    → acquire m run_id leaves resources safety_domains now ≡ acquire_checked m run_id q now
unfolding acquire
acquire_valid m run_id leaves resources safety_domains now named wanted = rw (named, wanted)

module _ (m : LeaseManager) (run_id : String) (leaves resources safety_domains : List String)
    (now : ℕ) {q : LeaseRequest} (named : check_run_id run_id ≡ ok run_id)
    (wanted : lease_request leaves resources safety_domains ≡ ok q) where
  pub acquire_fresh :
      Dict.get m.grants run_id ≡ none
      → acquire m run_id leaves resources safety_domains now ≡ acquire_new m run_id q now
  unfolding acquire_checked acquire_new
  acquire_fresh fresh =
      acquire_valid m run_id leaves resources safety_domains now named wanted
      ∙ (rw (fresh, acquire_checked))

  -- Right after a fresh grant, the owner of a target is the run if the request names the target,
  -- and whoever it was if not. The run id and the keys are valid, and no target is another run's.
  pub owner_of-acquire :
      Dict.get m.grants run_id ≡ none
      → conflicts m.owners run_id (targets q) ≡ []
      → (t : LeaseTarget)
      → owner_of (acquire m run_id leaves resources safety_domains now).1 t
        ≡ (if contains (targets q) t then some run_id else owner_of m t)
  unfolding owner_of
  owner_of-acquire fresh free t =
      rw (acquire_fresh fresh, acquire_new-free m run_id q now free)
        (get-take_targets m.owners run_id (targets q) t)

  -- The same request again, after a fresh grant, is answered with the first receipt and changes
  -- nothing.
  pub acquire_twice :
      Dict.get m.grants run_id ≡ none
      → conflicts m.owners run_id (targets q) ≡ []
      → (later : ℕ)
      → acquire
          (acquire m run_id leaves resources safety_domains now).1
          run_id
          leaves
          resources
          safety_domains
          later
        ≡ acquire m run_id leaves resources safety_domains now
  unfolding acquire_checked acquire_again same_request
  acquire_twice fresh free later =
      rw (acquire_fresh fresh, acquire_new-free m run_id q now free)
        (acquire_valid _ run_id leaves resources safety_domains later named wanted
          ∙ ground (
            arith,
            get-put m.grants run_id run_id (grant_of run_id q now),
            ==_refl run_id,
            request-grant_of run_id now leaves resources safety_domains wanted,
            same_set_refl q.leaf_ids,
            same_set_refl q.resource_keys,
            same_set_refl q.safety_domain_keys,
          ))

module _ (e : LeaseError) (m : LeaseManager) where
  acquire_new_raised :
      (owner : String) (q : LeaseRequest) (now : ℕ)
      → (acquire_new m owner q now).0 ≡ raise e
      → (acquire_new m owner q now).1 ≡ m
  acquire_new_raised owner q now h = elim (List-cases (conflicts m.owners owner (targets q))) [
    | inl free ↦ absurd (ground (arith, acquire_new-free m owner q now free))
    | inr (x, xs, busy) ↦ rw (acquire_new-busy m owner q now x xs busy)
  ]

  acquire_checked_raised :
      (owner : String) (q : LeaseRequest) (now : ℕ)
      → (acquire_checked m owner q now).0 ≡ raise e
      → (acquire_checked m owner q now).1 ≡ m
  unfolding acquire_checked
  acquire_checked_raised owner q now h = elim (Option-cases (Dict.get m.grants owner)) [
    | inl fresh ↦
        rw (fresh, acquire_checked)
          (acquire_new_raised owner q now (rw (fresh, acquire_checked) at h))
    | inr (g, live) ↦ rw (live, acquire_checked)
  ]

  -- An `acquire` that raises, whatever the exception, leaves the manager as it was.
  pub acquire_raised :
      (run_id : String) (leaves resources safety_domains : List String) (now : ℕ)
      → (acquire m run_id leaves resources safety_domains now).0 ≡ raise e
      → (acquire m run_id leaves resources safety_domains now).1 ≡ m
  unfolding acquire
  acquire_raised run_id ls rs ds now h = elim (Result-cases (check_run_id run_id)) [
    | inr (f, bad) ↦ rw bad
    | inl (k, named) ↦ elim (Result-cases (lease_request ls rs ds)) [
      | inr (f, bad) ↦ rw (named, bad)
      | inl (q, wanted) ↦
          rw (named, wanted) (acquire_checked_raised k q now (rw (named, wanted) at h))
    ]
  ]

module _ (m : LeaseManager) (c : IsConsistent m) where
  acquire_new-IsConsistent :
      (owner : String) (q : LeaseRequest) (now : ℕ)
      → Dict.get m.grants owner ≡ none
      → request (grant_of owner q now) ≡ ok q
      → IsConsistent (acquire_new m owner q now).1
  acquire_new-IsConsistent owner q now fresh readable =
      elim (List-cases (conflicts m.owners owner (targets q))) [
        | inl free ↦
            rw (acquire_new-free m owner q now free)
              (granted-IsConsistent m owner q now c fresh free readable)
        | inr (x, xs, busy) ↦ rw (acquire_new-busy m owner q now x xs busy) c
      ]

  acquire_checked-IsConsistent :
      (owner : String) (q : LeaseRequest) (now : ℕ)
      → request (grant_of owner q now) ≡ ok q
      → IsConsistent (acquire_checked m owner q now).1
  unfolding acquire_checked
  acquire_checked-IsConsistent owner q now readable =
      elim (Option-cases (Dict.get m.grants owner)) [
        | inl fresh ↦
            rw (fresh, acquire_checked) (acquire_new-IsConsistent owner q now fresh readable)
        | inr (g, live) ↦ rw (live, acquire_checked) c
      ]

  pub acquire-IsConsistent :
      (run_id : String) (leaves resources safety_domains : List String) (now : ℕ)
      → IsConsistent (acquire m run_id leaves resources safety_domains now).1
  unfolding acquire
  acquire-IsConsistent run_id ls rs ds now = elim (Result-cases (check_run_id run_id)) [
    | inr (f, bad) ↦ rw bad c
    | inl (k, named) ↦ elim (Result-cases (lease_request ls rs ds)) [
      | inr (f, bad) ↦ rw (named, bad) c
      | inl (q, wanted) ↦
          rw (named, wanted)
            (acquire_checked-IsConsistent k q now (request-grant_of k now ls rs ds wanted))
    ]
  ]
