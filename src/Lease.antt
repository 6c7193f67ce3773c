-- ===== src/Lease.antt =====
-- remote_robot/lease.py: exclusive ownership of robot leaves, resources and safety domains.
-- A method returns its result or exception beside the manager as it leaves it, since what was
-- written before a raise stays written. The clock reading of `acquire` is an argument.
pub mod Request
pub mod Targets
pub mod Invariant
pub mod Acquire
pub mod Refused
pub mod Release
pub mod History
pub mod Cycle
mod Tests
use remote_robot.Prelude.{
  ℕ, String, Bool, true, false, Option, none, some, List, [], ◌∷◌, ◌==◌, string_eq, if◌then◌else◌,
}
use remote_robot.Dict
use remote_robot.Dict.{Dict}
use remote_robot.Text.{sort_texts}
use Request.{
  LeaseTarget, LeaseRequest, LeaseConflictItem, LeaseReceipt, Result, ok, raise, ◌>>=◌, conflict,
  request_mismatch, check_run_id, lease_request, same_request, targets, request, target_eq,
}

pub record LeaseManager : Type 0 where
  pub owners : Dict LeaseTarget String
  pub grants : Dict String LeaseReceipt

-- `LeaseManager()`
unfoldable pub init : LeaseManager
init = record { owners = Dict.empty; grants = Dict.empty }

-- The comprehension over `request.targets` that collects the targets of other owners.
unfoldable pub conflicts :
    Dict LeaseTarget String → String → List LeaseTarget → List LeaseConflictItem
conflicts owners owner [] = []
conflicts owners owner (t ∷ ts) =
    let rest = conflicts owners owner ts in
    elim (Dict.get owners t) [
      | none ↦ rest
      | some held_by ↦
          if held_by == owner then rest else record { target = t; owner_run_id = held_by } ∷ rest
    ]

-- `for target in request.targets: self._owners[target] = owner`
unfoldable pub take_targets :
    Dict LeaseTarget String → String → List LeaseTarget → Dict LeaseTarget String
take_targets owners owner [] = owners
take_targets owners owner (t ∷ ts) = take_targets (Dict.put owners t owner) owner ts

unfoldable pub grant_of : String → LeaseRequest → ℕ → LeaseReceipt
grant_of owner q now = record {
  run_id = owner;
  leaves = q.leaf_ids;
  resources = q.resource_keys;
  safety_domains = q.safety_domain_keys;
  acquired_at_monotonic_ns = now;
}

-- `acquire` past the lookup of a live grant: the conflicts, then the writes
unfoldable pub acquire_new :
    LeaseManager → String → LeaseRequest → ℕ → Result LeaseReceipt × LeaseManager
unfolding conflicts take_targets grant_of
acquire_new m owner q now = elim (conflicts m.owners owner (targets q)) [
  | item ∷ items ↦ (raise (conflict owner (item ∷ items)), m)
  | [] ↦ (
    ok (grant_of owner q now),
    record {
      owners = take_targets m.owners owner (targets q);
      grants = Dict.put m.grants owner (grant_of owner q now);
    },
  )
]

-- `acquire` for a run that holds a grant
unfoldable pub acquire_again : LeaseReceipt → LeaseRequest → Result LeaseReceipt
unfolding request
acquire_again existing q = do
  held ← request existing
  if same_request held q then ok existing else raise request_mismatch

unfoldable pub acquire_checked :
    LeaseManager → String → LeaseRequest → ℕ → Result LeaseReceipt × LeaseManager
acquire_checked m owner q now = elim (Dict.get m.grants owner) [
  | some existing ↦ (acquire_again existing q, m)
  | none ↦ acquire_new m owner q now
]

abbrev or_raise {ℓ} :
    {A : Type ℓ}
    → LeaseManager
    → Result A
    → (A → Result LeaseReceipt × LeaseManager)
    → Result LeaseReceipt × LeaseManager
or_raise m (ok a) f = f a
or_raise m (raise e) f = (raise e, m)

-- `acquire`
unfoldable pub acquire :
    LeaseManager
    → String
    → List String
    → List String
    → List String
    → ℕ
    → Result LeaseReceipt × LeaseManager
unfolding acquire_checked
acquire m run_id leaves resources safety_domains now = or_raise m (check_run_id run_id) λ owner.
    or_raise m (lease_request leaves resources safety_domains) λ q. acquire_checked m owner q now

-- `for target in grant.request.targets: if self._owners.get(target) == owner: del ...`
unfoldable pub drop_targets :
    Dict LeaseTarget String → String → List LeaseTarget → Dict LeaseTarget String
drop_targets owners owner [] = owners
drop_targets owners owner (t ∷ ts) = elim (Dict.get owners t) [
  | none ↦ drop_targets owners owner ts
  | some held_by ↦
      if held_by == owner
      then drop_targets (Dict.remove owners t) owner ts
      else drop_targets owners owner ts
]

-- The rest of `release` once the grant is popped.
unfoldable pub release_grant : LeaseManager → String → LeaseReceipt → Result Bool × LeaseManager
unfolding drop_targets request
release_grant m owner grant = elim (request grant) [
  | ok q ↦ (
    ok true,
    record {
      owners = drop_targets m.owners owner (targets q);
      grants = Dict.remove m.grants owner;
    },
  )
  | raise e ↦ (raise e, record m { grants = Dict.remove m.grants owner })
]

-- `release`
unfoldable pub release : LeaseManager → String → Result Bool × LeaseManager
unfolding release_grant
release m run_id = elim (check_run_id run_id) [
  | raise e ↦ (raise e, m)
  | ok owner ↦ elim (Dict.get m.grants owner) [
    | none ↦ (ok false, m)
    | some grant ↦ release_grant m owner grant
  ]
]

-- `owner_of`
unfoldable pub owner_of : LeaseManager → LeaseTarget → Option String
owner_of m t = Dict.get m.owners t

-- `grant_for`
unfoldable pub grant_for : LeaseManager → String → Result (Option LeaseReceipt)
grant_for m run_id = do owner ← check_run_id run_id; ok (Dict.get m.grants owner)

unfoldable pub grants_of : Dict String LeaseReceipt → List String → List LeaseReceipt
grants_of grants [] = []
grants_of grants (k ∷ ks) = elim (Dict.get grants k) [
  | none ↦ grants_of grants ks
  | some g ↦ g ∷ grants_of grants ks
]

-- `active_grants`
unfoldable pub active_grants : LeaseManager → List LeaseReceipt
unfolding grants_of
active_grants m = grants_of m.grants (sort_texts (Dict.keys m.grants))
