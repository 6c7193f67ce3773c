-- ===== src/Lease/Refused.antt =====
-- remote_robot/lease.py: what a `LeaseConflict` lists.
use remote_robot.Prelude.{
  ℕ, String, ◌≡◌, refl, Bool, true, false, none, some, List, [], ◌∷◌, ◌==◌, string_eq, ==_iff,
  arith, contains, Option-cases, inl, inr, ◌&&◌, ◌||◌, not, ◌≢◌, ◌⊎◌,
}
use remote_robot.Dict
use remote_robot.Dict.{Dict}
use remote_robot.Lease.Request.{
  LeaseTarget, LeaseRequest, LeaseReceipt, LeaseConflictItem, ok, raise, conflict, targets,
  lease_request, check_run_id, target_eq,
}
use remote_robot.Lease.{LeaseManager, conflicts, acquire, grant_of}
use remote_robot.Lease.Targets.{owned_by, conflicts-eq-nil}
use remote_robot.Lease.Acquire.{List-cases, acquire_fresh, acquire_new-free, acquire_new-busy}

-- The items say that `r` owns `t`.
unfoldable pub lists : List LeaseConflictItem → LeaseTarget → String → Bool
lists [] t r = false
lists (i ∷ is) t r = (i.target == t && i.owner_run_id == r) || lists is t r

-- Each entry of the comprehension, and each target of another owner.
lists-conflicts :
    (owners : Dict LeaseTarget String) (owner : String) (ts : List LeaseTarget) (t : LeaseTarget)
    (r : String)
    → lists (conflicts owners owner ts) t r
      ≡ (contains ts t && (owned_by (Dict.get owners t) r && not (r == owner)))
unfolding lists conflicts contains
lists-conflicts owners owner [] t r = refl
lists-conflicts owners owner (u ∷ ts) t r = elim (Option-cases (Dict.get owners u)) [
  | inl free ↦ ground (arith, free, lists-conflicts owners owner ts t r, ==_iff u t)
  | inr (s, held) ↦ ground (
    arith,
    held,
    lists-conflicts owners owner ts t r,
    ==_iff u t,
    ==_iff s r,
    ==_iff s owner,
    ==_iff r owner,
  )
]

module _ (m : LeaseManager) (run_id : String) (leaves resources safety_domains : List String)
    (now : ℕ) {q : LeaseRequest} (named : check_run_id run_id ≡ ok run_id)
    (wanted : lease_request leaves resources safety_domains ≡ ok q)
    (fresh : Dict.get m.grants run_id ≡ none) where
  -- What a run with no live grant is answered to a valid request. The items are the targets of the
  -- request that other runs own, with those runs; if there are none it is granted the request, and if
  -- there are any it is refused for conflict with them.
  pub acquire_conflict :
      (items : List LeaseConflictItem) × ((t : LeaseTarget) (r : String)
        → lists items t r
          ≡ (contains (targets q) t && (owned_by (Dict.get m.owners t) r && not (r == run_id))))
      × (((items ≡ [])
            × ((acquire m run_id leaves resources safety_domains now).0
                ≡ ok (grant_of run_id q now)))
          ⊎ ((items ≢ [])
              × ((acquire m run_id leaves resources safety_domains now).0
                  ≡ raise (conflict run_id items))))
  acquire_conflict =
      let answer = acquire_fresh m run_id leaves resources safety_domains now named wanted fresh in
      (
        conflicts m.owners run_id (targets q),
        lists-conflicts m.owners run_id (targets q),
        elim (List-cases (conflicts m.owners run_id (targets q))) [
          | inl free ↦ inl (free, ground (arith, answer, acquire_new-free m run_id q now free))
          | inr (x, xs, busy) ↦
              rw busy (
                inr
                  ((λ e. cc e), ground (arith, answer, acquire_new-busy m run_id q now x xs busy)))
        ],
      )

  -- A grant means that no target of the request was another run's.
  pub acquire_granted :
      (g : LeaseReceipt)
      → (acquire m run_id leaves resources safety_domains now).0 ≡ ok g
      → (t : LeaseTarget) (r : String) → contains (targets q) t ≡ true
      → Dict.get m.owners t ≡ some r
      → r ≡ run_id
  acquire_granted g h t r w o = elim (List-cases (conflicts m.owners run_id (targets q))) [
    | inl free ↦ ground (arith, conflicts-eq-nil m.owners run_id (targets q) t free w)
    | inr (x, xs, busy) ↦ absurd (
        ground (
          arith,
          acquire_fresh m run_id leaves resources safety_domains now named wanted fresh,
          acquire_new-busy m run_id q now x xs busy,
        ))
  ]
