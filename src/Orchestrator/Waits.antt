-- ===== src/Orchestrator/Waits.antt =====
-- remote_robot/orchestrator.py, `wait_one`: which event it returns.
use remote_robot.Prelude.{
  ◌≡◌, refl, ◌↔◌, String, true, false, some, List, [], ◌∷◌, ◌++◌, All, arith, inl, inr, Bool-cases,
  ap,
}
use remote_robot.Value.{Fields}
use remote_robot.Orchestrator.{ok, is_awaited, is_failure, wait_one}

module _ (run_id phase_execution_id expected_type : String) where
  -- An event that `wait_one` reads over.
  abbrev pub IsSkipped : Fields → Type 0
  IsSkipped event =
      (is_awaited run_id phase_execution_id expected_type event ≡ false)
      × (is_failure run_id phase_execution_id expected_type event ≡ false)

  wait_one_finds :
      (skipped : List Fields) (event : Fields) (rest : List Fields)
      → All IsSkipped skipped
      → is_awaited run_id phase_execution_id expected_type event ≡ true
      → wait_one run_id phase_execution_id expected_type (skipped ++ event ∷ rest)
        ≡ some (ok (event, rest))
  unfolding wait_one
  wait_one_finds [] event rest all good = rw good refl
  wait_one_finds (e ∷ es) event rest all good =
      rw (all.0.0, all.0.1) (wait_one_finds es event rest all.1 good)

  wait_one_found :
      (events : List Fields) (event : Fields) (rest : List Fields)
      → wait_one run_id phase_execution_id expected_type events ≡ some (ok (event, rest))
      → (skipped : List Fields) × (events ≡ skipped ++ event ∷ rest)
        × All IsSkipped skipped
        × (is_awaited run_id phase_execution_id expected_type event ≡ true)
  unfolding wait_one
  wait_one_found [] event rest h = absurd (ground arith)
  wait_one_found (e ∷ es) event rest h =
      elim (Bool-cases (is_awaited run_id phase_execution_id expected_type e)) [
        | inl good ↦ ([], ground (arith, h, good), tt, ground (arith, h, good))
        | inr other ↦ elim (Bool-cases (is_failure run_id phase_execution_id expected_type e)) [
          | inl bad ↦ absurd (ground arith)
          | inr skip ↦
              let (skipped, eq, all, good) =
                wait_one_found es event rest (ground (arith, h, other, skip)) in
              (e ∷ skipped, ap (λ l. e ∷ l) eq, ((other, skip), all), good)
        ]
      ]

  -- `wait_one` returns an event exactly when it is the first of the expected type, for this run and
  -- this execution of the phase, and no event before it ends the wait with an exception.
  pub wait_one_iff :
      (events : List Fields) (event : Fields) (rest : List Fields)
      → (wait_one run_id phase_execution_id expected_type events ≡ some (ok (event, rest))) ↔ (
          (skipped : List Fields) × (events ≡ skipped ++ event ∷ rest)
          × All IsSkipped skipped
          × (is_awaited run_id phase_execution_id expected_type event ≡ true))
  wait_one_iff events event rest = (
    wait_one_found events event rest,
    λ (skipped, eq, all, good). rw eq (wait_one_finds skipped event rest all good),
  )
