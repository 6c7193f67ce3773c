-- ===== src/Orchestrator/Active.antt =====
-- remote_robot/orchestrator.py, `RunOrchestrator.execute`: the active run ids under several calls at
-- once. A call enters, stands at its awaits for a while, and leaves; other calls come in between.
use remote_robot.Prelude.{
  String, ◌≡◌, refl, Bool, true, false, not, ◌&&◌, List, [], ◌∷◌, ◌==◌, string_eq, ==_iff, contains,
  contains-set_add, set_add, if◌then◌else◌, arith, inl, inr, Bool-cases,
}
use remote_robot.Orchestrator.{Result, ok, raise}
use remote_robot.Orchestrator.Execute.{enter, leave}

-- A call begins, or the call for a run that is under way ends.
pub data Move : Type 0 where
  begins ends : String → Move

-- The set, and the runs of the calls that entered and have not left.
pub record Calls : Type 0 where
  pub active_run_ids : List String
  pub under_way : List String

-- One of the calls for the run is over.
unfoldable pub without : String → List String → List String
without run_id [] = []
without run_id (id ∷ ids) = let rest = without run_id ids in if id == run_id then ids else id ∷ rest

unfoldable pub entered : Calls → String → Result (List String) → Calls
entered calls run_id (raise e) = calls
entered calls run_id (ok ids) = record {
  active_run_ids = ids;
  under_way = run_id ∷ calls.under_way;
}

unfoldable pub step : Calls → Move → Calls
unfolding enter leave without entered
step calls (begins run_id) = entered calls run_id (enter calls.active_run_ids run_id)
step calls (ends run_id) =
    if contains calls.under_way run_id
    then record {
      active_run_ids = leave calls.active_run_ids run_id;
      under_way = without run_id calls.under_way;
    }
    else calls

unfoldable pub run : Calls → List Move → Calls
unfolding step
run calls [] = calls
run calls (move ∷ moves) = run (step calls move) moves

-- No two of the runs are the same.
unfoldable pub are_distinct : List String → Bool
are_distinct [] = true
are_distinct (id ∷ ids) = not (contains ids id) && are_distinct ids

-- The calls under way are for different runs, and the set has those runs.
pub record IsExclusive (calls : Calls) : Type 0 where
  pub distinct : are_distinct calls.under_way ≡ true
  pub active : (r : String) → contains calls.active_run_ids r ≡ contains calls.under_way r

contains-leave :
    (ids : List String) (run_id r : String)
    → contains (leave ids run_id) r ≡ (contains ids r && not (r == run_id))
unfolding leave contains
contains-leave [] run_id r = refl
contains-leave (id ∷ ids) run_id r =
    ground (arith, contains-leave ids run_id r, ==_iff id run_id, ==_iff id r, ==_iff r run_id)

contains-without :
    (ids : List String) (run_id r : String)
    → are_distinct ids ≡ true
    → contains (without run_id ids) r ≡ (contains ids r && not (r == run_id))
unfolding without contains are_distinct
contains-without [] run_id r h = refl
contains-without (id ∷ ids) run_id r h =
    ground (arith, h, contains-without ids run_id r, ==_iff id run_id, ==_iff id r, ==_iff r run_id)

without-distinct :
    (ids : List String) (run_id : String)
    → are_distinct ids ≡ true
    → are_distinct (without run_id ids) ≡ true
unfolding without are_distinct
without-distinct [] run_id h = refl
without-distinct (id ∷ ids) run_id h =
    ground (arith, h, without-distinct ids run_id, contains-without ids run_id id, ==_iff id run_id)

entered-IsExclusive :
    (calls : Calls) (run_id : String) (out : Result (List String))
    → enter calls.active_run_ids run_id ≡ out
    → IsExclusive calls
    → IsExclusive (entered calls run_id out)
unfolding entered enter are_distinct contains
entered-IsExclusive calls run_id (raise e) h k = k
entered-IsExclusive calls run_id (ok ids) h k =
    let idle : contains calls.active_run_ids run_id ≡ false = ground (arith, h) in
    let added : set_add run_id calls.active_run_ids ≡ ids = ground (arith, h) in
    record {
      distinct = ground (arith, idle, k.active run_id, k.distinct);
      active = λ r.
          rw (← added)
            (ground (arith, contains-set_add run_id r calls.active_run_ids, k.active r, idle));
    }

left-IsExclusive :
    (calls : Calls) (run_id : String)
    → IsExclusive calls
    → IsExclusive (record {
      active_run_ids = leave calls.active_run_ids run_id;
      under_way = without run_id calls.under_way;
    })
left-IsExclusive calls run_id k = record {
  distinct = without-distinct calls.under_way run_id k.distinct;
  active = λ r. ground (
    arith,
    contains-leave calls.active_run_ids run_id r,
    contains-without calls.under_way run_id r k.distinct,
    k.active r,
  );
}

step-IsExclusive : (calls : Calls) (move : Move) → IsExclusive calls → IsExclusive (step calls move)
unfolding step
step-IsExclusive calls (begins run_id) k =
    entered-IsExclusive calls run_id (enter calls.active_run_ids run_id) refl k
step-IsExclusive calls (ends run_id) k = elim (Bool-cases (contains calls.under_way run_id)) [
  | inr unknown ↦ rw (step, unknown) k
  | inl known ↦ rw (step, known) (left-IsExclusive calls run_id k)
]

-- However calls for runs begin and end, in any order and refused or not, no two calls under way are
-- for one run, and the set of active run ids has the runs of the calls under way, if this held before.
pub run-IsExclusive :
    (calls : Calls) (moves : List Move) → IsExclusive calls → IsExclusive (run calls moves)
unfolding run
run-IsExclusive calls [] k = k
run-IsExclusive calls (move ∷ moves) k =
    run-IsExclusive (step calls move) moves (step-IsExclusive calls move k)
