-- ===== src/Lease/Invariant.antt =====
-- remote_robot/lease.py: what holds of a manager between calls. The owner table and the grants
-- say the same: a target has an owner exactly when that run's grant names it.
use remote_robot.Prelude.{
  ℕ, String, ◌≡◌, true, none, some, [], ◌==◌, string_eq, ==_iff, arith, contains, if◌then◌else◌,
  Bool-cases, Option-cases, inl, inr,
}
use remote_robot.Dict
use remote_robot.Dict.{Dict, get-put, get-remove, get-empty}
use remote_robot.Lease.Request.{
  LeaseTarget, LeaseRequest, LeaseReceipt, ok, targets, request, target_eq,
}
use remote_robot.Lease.{LeaseManager, init, conflicts, take_targets, drop_targets, grant_of}
use remote_robot.Lease.Targets.{get-take_targets, get-drop_targets, conflicts-eq-nil, owned_by}

-- The grant `g` of run `r` reads back as a request, and all its targets are the run's.
pub record IsHeld (m : LeaseManager) (r : String) (g : LeaseReceipt) : Type 0 where
  pub wanted : LeaseRequest
  pub readable : request g ≡ ok wanted
  pub holds : (t : LeaseTarget) → contains (targets wanted) t ≡ true → Dict.get m.owners t ≡ some r

-- The owner `r` of `t` has a grant that names `t`.
pub record IsGranted (m : LeaseManager) (t : LeaseTarget) (r : String) : Type 0 where
  pub receipt : LeaseReceipt
  pub wanted : LeaseRequest
  pub granted : Dict.get m.grants r ≡ some receipt
  pub readable : request receipt ≡ ok wanted
  pub named : contains (targets wanted) t ≡ true

pub record IsConsistent (m : LeaseManager) : Type 0 where
  pub held : (r : String) (g : LeaseReceipt) → Dict.get m.grants r ≡ some g → IsHeld m r g
  pub owned : (t : LeaseTarget) (r : String) → Dict.get m.owners t ≡ some r → IsGranted m t r

pub init-IsConsistent : IsConsistent init
unfolding init
init-IsConsistent = record {
  held = λ r g h. absurd (ground (arith, get-empty {V = LeaseReceipt} r));
  owned = λ t r h. absurd (ground (arith, get-empty {V = String} t));
}

-- The manager that `acquire_new` leaves behind when there is no conflict.
abbrev pub granted_manager : LeaseManager → String → LeaseRequest → ℕ → LeaseManager
granted_manager m owner q now = record {
  owners = take_targets m.owners owner (targets q);
  grants = Dict.put m.grants owner (grant_of owner q now);
}

module _ (m : LeaseManager) (owner : String) (q : LeaseRequest) (now : ℕ) (c : IsConsistent m)
    (fresh : Dict.get m.grants owner ≡ none) (free : conflicts m.owners owner (targets q) ≡ [])
    (readable : request (grant_of owner q now) ≡ ok q) where
  -- no target of the request is owned yet
  unowned :
      (t : LeaseTarget) (r : String)
      → contains (targets q) t ≡ true
      → Dict.get m.owners t ≡ some r
      → ⊥
  unowned t r w h =
      ground (arith, conflicts-eq-nil m.owners owner (targets q) t free w, (c.owned t r h).granted)

  granted-IsHeld :
      (r : String) (g : LeaseReceipt)
      → Dict.get (granted_manager m owner q now).grants r ≡ some g
      → IsHeld (granted_manager m owner q now) r g
  granted-IsHeld r g h = elim (Bool-cases (owner == r)) [
    | inl own ↦ record {
      wanted = q;
      readable = ground (arith, get-put m.grants owner r (grant_of owner q now));
      holds = λ t w. ground (arith, ==_iff owner r, get-take_targets m.owners owner (targets q) t);
    }
    | inr other ↦
        let old = c.held r g (ground (arith, get-put m.grants owner r (grant_of owner q now))) in
        record {
          wanted = old.wanted;
          readable = old.readable;
          holds = λ t w.
              ground
                (arith, old.holds t w, unowned t r, get-take_targets m.owners owner (targets q) t);
        }
  ]

  taken-IsGranted :
      (t : LeaseTarget) (r : String)
      → Dict.get (granted_manager m owner q now).owners t ≡ some r
      → IsGranted (granted_manager m owner q now) t r
  taken-IsGranted t r h = elim (Bool-cases (contains (targets q) t)) [
    | inl new ↦ record {
      receipt = grant_of owner q now;
      wanted = q;
      granted = ground (
        arith,
        get-take_targets m.owners owner (targets q) t,
        get-put m.grants owner r (grant_of owner q now),
        ==_iff owner r,
      );
      readable = readable;
      named = new;
    }
    | inr before ↦
        let old = c.owned t r (ground (arith, get-take_targets m.owners owner (targets q) t)) in
        record {
          receipt = old.receipt;
          wanted = old.wanted;
          granted =
              ground (
                arith,
                old.granted,
                get-put m.grants owner r (grant_of owner q now),
                ==_iff owner r,
              );
          readable = old.readable;
          named = old.named;
        }
  ]

  pub granted-IsConsistent : IsConsistent (granted_manager m owner q now)
  granted-IsConsistent = record { held = granted-IsHeld; owned = taken-IsGranted }

-- The manager that `release_grant` leaves behind for a readable grant.
abbrev pub released_manager : LeaseManager → String → LeaseRequest → LeaseManager
released_manager m owner q = record {
  owners = drop_targets m.owners owner (targets q);
  grants = Dict.remove m.grants owner;
}

module _ (m : LeaseManager) (owner : String) (g : LeaseReceipt) (q : LeaseRequest)
    (c : IsConsistent m) (granted : Dict.get m.grants owner ≡ some g)
    (readable : request g ≡ ok q) where
  -- the owner's targets are those of its request
  own : (t : LeaseTarget) → Dict.get m.owners t ≡ some owner → contains (targets q) t ≡ true
  own t h = let old = c.owned t owner h in ground (arith, old.granted, old.readable, old.named)

  -- Release frees the owner's targets and no others.
  pub owner-released :
      (t : LeaseTarget)
      → Dict.get (released_manager m owner q).owners t
        ≡ (if owned_by (Dict.get m.owners t) owner then none else Dict.get m.owners t)
  owner-released t = elim (Option-cases (Dict.get m.owners t)) [
    | inl e ↦ ground (arith, e, get-drop_targets m.owners owner (targets q) t)
    | inr (r, e) ↦
        ground (arith, e, get-drop_targets m.owners owner (targets q) t, own t, ==_iff r owner)
  ]

  released-IsHeld :
      (r : String) (g' : LeaseReceipt)
      → Dict.get (released_manager m owner q).grants r ≡ some g'
      → IsHeld (released_manager m owner q) r g'
  released-IsHeld r g' h =
      let old = c.held r g' (ground (arith, get-remove m.grants owner r)) in
      record {
        wanted = old.wanted;
        readable = old.readable;
        holds = λ t w. ground (
          arith,
          old.holds t w,
          owner-released t,
          get-remove m.grants owner r,
          ==_iff r owner,
          ==_iff owner r,
        );
      }

  released-IsGranted :
      (t : LeaseTarget) (r : String)
      → Dict.get (released_manager m owner q).owners t ≡ some r
      → IsGranted (released_manager m owner q) t r
  released-IsGranted t r h =
      let old = c.owned t r (ground (arith, owner-released t)) in
      record {
        receipt = old.receipt;
        wanted = old.wanted;
        granted = ground (
          arith,
          old.granted,
          owner-released t,
          get-remove m.grants owner r,
          ==_iff r owner,
          ==_iff owner r,
        );
        readable = old.readable;
        named = old.named;
      }

  pub released-IsConsistent : IsConsistent (released_manager m owner q)
  released-IsConsistent = record { held = released-IsHeld; owned = released-IsGranted }
