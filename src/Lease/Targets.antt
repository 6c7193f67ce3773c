-- ===== src/Lease/Targets.antt =====
-- remote_robot/lease.py: what the loops over `request.targets` compute, and how a receipt gives
-- its request back.
use remote_robot.Prelude.{
  ℕ, String, ◌≡◌, refl, Bool, true, false, ◌&&◌, Option, none, some, List, [], ◌∷◌, ◌==◌, string_eq,
  ==_iff, arith, set_add, contains, if◌then◌else◌, Bool-cases, inl, inr, ◌⊎◌,
}
use remote_robot.Dict
use remote_robot.Dict.{Dict, get-put, get-remove}
use remote_robot.Lease.Request.{
  LeaseTarget, LeaseRequest, ok, check_run_id, canonical_keys, >>=-eq-ok, lease_request, request,
  target_eq,
}
use remote_robot.Lease.{conflicts, take_targets, drop_targets, grant_of}

set_add_new : (k : String) (ks : List String) → contains ks k ≡ false → set_add k ks ≡ k ∷ ks
unfolding set_add
set_add_new k ks h = rw h

pub check_run_id_same : (s k : String) → check_run_id s ≡ ok k → s ≡ k
unfolding check_run_id
check_run_id_same s k h = ground arith

canonical_keys_again :
    (k : String) (rest : List String)
    → check_run_id k ≡ ok k
    → canonical_keys rest ≡ ok rest
    → canonical_keys (set_add k rest) ≡ ok (set_add k rest)
unfolding canonical_keys set_add
canonical_keys_again k rest c h = elim (Bool-cases (contains rest k)) [
  | inl old ↦ rw old h
  | inr new ↦ rw (new, c, h, new)
]

canonical_keys_idem :
    (values : List String) {ks : List String}
    → canonical_keys values ≡ ok ks
    → canonical_keys ks ≡ ok ks
unfolding canonical_keys
canonical_keys_idem [] h = ground arith
canonical_keys_idem (v ∷ values) h =
    let (k, checked, more) = >>=-eq-ok (check_run_id v) _ h in
    let (rest, found, added) = >>=-eq-ok (canonical_keys values) _ more in
    ground (
      arith,
      check_run_id_same v k checked,
      canonical_keys_again k rest,
      canonical_keys_idem values found,
    )

lease_request_idem :
    (ls rs ds : List String) {q : LeaseRequest}
    → lease_request ls rs ds ≡ ok q
    → lease_request q.leaf_ids q.resource_keys q.safety_domain_keys ≡ ok q
unfolding lease_request
lease_request_idem ls rs ds h =
    let (l, leaves, more) = >>=-eq-ok (canonical_keys ls) _ h in
    let (r, resources, more') = >>=-eq-ok (canonical_keys rs) _ more in
    let (d, domains, built) = >>=-eq-ok (canonical_keys ds) _ more' in
    ground (
      arith,
      canonical_keys_idem ls leaves,
      canonical_keys_idem rs resources,
      canonical_keys_idem ds domains,
    )

-- A receipt gives back the request that it was granted for.
pub request-grant_of :
    (owner : String) (now : ℕ) (ls rs ds : List String) {q : LeaseRequest}
    → lease_request ls rs ds ≡ ok q
    → request (grant_of owner q now) ≡ ok q
unfolding request grant_of
request-grant_of owner now ls rs ds h = lease_request_idem ls rs ds h

pub get-take_targets :
    (owners : Dict LeaseTarget String) (owner : String) (ts : List LeaseTarget) (t : LeaseTarget)
    → Dict.get (take_targets owners owner ts) t
      ≡ (if contains ts t then some owner else Dict.get owners t)
unfolding take_targets contains
get-take_targets owners owner [] t = refl
get-take_targets owners owner (u ∷ ts) t =
    ground (arith, get-take_targets (Dict.put owners u owner) owner ts t, get-put owners u t owner)

-- `owner` holds the target.
abbrev pub owned_by : Option String → String → Bool
owned_by none owner = false
owned_by (some r) owner = r == owner

pub get-drop_targets :
    (owners : Dict LeaseTarget String) (owner : String) (ts : List LeaseTarget) (t : LeaseTarget)
    → Dict.get (drop_targets owners owner ts) t
      ≡ (if contains ts t && owned_by (Dict.get owners t) owner then none else Dict.get owners t)
unfolding drop_targets contains
get-drop_targets owners owner [] t = refl
get-drop_targets owners owner (u ∷ ts) t = ground (
  arith,
  get-drop_targets owners owner ts t,
  get-drop_targets (Dict.remove owners u) owner ts t,
  get-remove owners u t,
  ==_iff u t,
)

held_by_owner : (o : Option String) (owner : String) → owned_by o owner ≡ true → o ≡ some owner
held_by_owner none owner h = cc
held_by_owner (some r) owner h = ground (arith, ==_iff r owner)

-- No conflict means that each target is free or the run's own.
pub conflicts-eq-nil :
    (owners : Dict LeaseTarget String) (owner : String) (ts : List LeaseTarget) (t : LeaseTarget)
    → conflicts owners owner ts ≡ []
    → contains ts t ≡ true
    → (Dict.get owners t ≡ none) ⊎ (Dict.get owners t ≡ some owner)
unfolding conflicts contains
conflicts-eq-nil owners owner [] t h m = ground arith
conflicts-eq-nil owners owner (u ∷ ts) t h m =
    ground (
      arith,
      conflicts-eq-nil owners owner ts t,
      ==_iff u t,
      held_by_owner (Dict.get owners u) owner,
    )
