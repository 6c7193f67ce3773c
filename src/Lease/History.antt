-- ===== src/Lease/History.antt =====
-- remote_robot/lease.py: any sequence of calls on a new manager.
use remote_robot.Prelude.{ℕ, String, ◌≡◌, true, some, List, [], ◌∷◌, string_eq, arith, contains}
use remote_robot.Dict
use remote_robot.Lease.Request.{
  LeaseTarget, LeaseReceipt, LeaseRequest, ok, targets, request, target_eq,
}
use remote_robot.Lease.{LeaseManager, init, acquire, release}
use remote_robot.Lease.Invariant.{IsConsistent, init-IsConsistent}
use remote_robot.Lease.Acquire.{acquire-IsConsistent}
use remote_robot.Lease.Release.{release_any-IsConsistent}

-- One call: the run id, the three key lists and the clock of an `acquire`; the run id of a `release`.
pub data Call : Type 0 where
  acquires : String → List String → List String → List String → ℕ → Call
  releases : String → Call

unfoldable pub step : LeaseManager → Call → LeaseManager
step m (acquires run_id leaves resources safety_domains now) =
    (acquire m run_id leaves resources safety_domains now).1
step m (releases run_id) = (release m run_id).1

unfoldable pub run : LeaseManager → List Call → LeaseManager
unfolding step
run m [] = m
run m (c ∷ cs) = run (step m c) cs

step-IsConsistent : (m : LeaseManager) (call : Call) → IsConsistent m → IsConsistent (step m call)
unfolding step
step-IsConsistent m (acquires r ls rs ds now) c = acquire-IsConsistent m c r ls rs ds now
step-IsConsistent m (releases r) c = release_any-IsConsistent m r c

-- The owner table and the grants agree after any calls, failing or not, if they did before.
pub run-IsConsistent :
    (m : LeaseManager) (cs : List Call) → IsConsistent m → IsConsistent (run m cs)
unfolding run
run-IsConsistent m [] c = c
run-IsConsistent m (call ∷ cs) c = run-IsConsistent (step m call) cs (step-IsConsistent m call c)

-- After any calls on a new manager no target is in the grants of two runs.
pub run_exclusive :
    (cs : List Call) (r s : String) (g h : LeaseReceipt) (p q : LeaseRequest) (t : LeaseTarget)
    → Dict.get (run init cs).grants r ≡ some g
    → Dict.get (run init cs).grants s ≡ some h
    → request g ≡ ok p
    → request h ≡ ok q
    → contains (targets p) t ≡ true
    → contains (targets q) t ≡ true
    → r ≡ s
run_exclusive cs r s g h p q t gr gs pr qs tp tq =
    let c = run-IsConsistent init cs init-IsConsistent in
    let first = c.held r g gr in
    let second = c.held s h gs in
    ground (arith, first.readable, second.readable, first.holds t, second.holds t)
