-- ===== src/Orchestrator/Replies.antt =====
-- remote_robot/orchestrator.py, `_start_all`: which replies of the workers let a phase start.
use remote_robot.Prelude.{◌≡◌, refl, ◌↔◌, String, true, &&_parts, List, [], ◌∷◌, All, arith}
use remote_robot.Value.{Fields}
use remote_robot.Orchestrator.{
  ok, Reply, returned, raised, all_returned, is_acknowledged, are_acknowledged, start_all,
}

-- The replies in which every worker returned.
abbrev pub replies_of : List (String × Fields) → List (String × Reply)
replies_of [] = []
replies_of ((name, result) ∷ results) = (name, returned result) ∷ replies_of results

all_returned-replies_of :
    (results : List (String × Fields)) → all_returned (replies_of results) ≡ ok results
unfolding all_returned
all_returned-replies_of [] = refl
all_returned-replies_of ((name, result) ∷ results) = rw (all_returned-replies_of results) refl

all_returned_only :
    (replies : List (String × Reply)) (results : List (String × Fields))
    → all_returned replies ≡ ok results
    → replies ≡ replies_of results
unfolding all_returned
all_returned_only [] results h = ground (arith, h)
all_returned_only ((name, raised type_name) ∷ replies) results h = absurd (ground arith)
all_returned_only ((name, returned result) ∷ replies) [] h = absurd (ground arith)
all_returned_only ((name, returned result) ∷ replies) ((other, r) ∷ results) h =
    let (named, same, others) : (name ≡ other)
        × (result ≡ r)
        × (all_returned replies ≡ ok results) =
      ground (arith, h) in
    rw (named, same, all_returned_only replies results others) refl

are_acknowledged_iff :
    (run_id phase_execution_id : String) (results : List (String × Fields))
    → (are_acknowledged run_id phase_execution_id results ≡ true)
      ↔ All (λ r. is_acknowledged run_id phase_execution_id r.1 ≡ true) results
unfolding are_acknowledged
are_acknowledged_iff run_id phase_execution_id [] = (λ _. tt, λ _. refl)
are_acknowledged_iff run_id phase_execution_id ((name, r) ∷ rs) =
    let rest = are_acknowledged_iff run_id phase_execution_id rs in
    (
      λ h.
          let (first, others) = &&_parts (is_acknowledged run_id phase_execution_id r) _ h in
          (first, rest.0 others),
      λ (first, others). rw (first, rest.1 others) refl,
    )

start_all_parts :
    (run_id phase_execution_id : String) (replies : List (String × Reply))
    (results : List (String × Fields))
    → start_all run_id phase_execution_id replies ≡ ok results
    → (all_returned replies ≡ ok results)
      × (are_acknowledged run_id phase_execution_id results ≡ true)
unfolding start_all
start_all_parts run_id phase_execution_id replies results h = ground (arith, h)

-- `_start_all` gives results exactly when every worker returned, with those results, and each of
-- them acknowledges that it is scheduled, for this run and this execution of the phase.
pub start_all_iff :
    (run_id phase_execution_id : String) (replies : List (String × Reply))
    (results : List (String × Fields))
    → (start_all run_id phase_execution_id replies ≡ ok results) ↔ (
        (replies ≡ replies_of results)
        × All (λ r. is_acknowledged run_id phase_execution_id r.1 ≡ true) results)
unfolding start_all
start_all_iff run_id phase_execution_id replies results = (
  λ h.
      let (all, good) = start_all_parts run_id phase_execution_id replies results h in
      (
        all_returned_only replies results all,
        (are_acknowledged_iff run_id phase_execution_id results).0 good,
      ),
  λ (eq, good).
      rw
        (
          eq,
          start_all,
          all_returned-replies_of results,
          (are_acknowledged_iff run_id phase_execution_id results).1 good,
        )
        refl,
)
