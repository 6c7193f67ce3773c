-- ===== src/Orchestrator/Ensures.antt =====
-- remote_robot/orchestrator.py: what holds of the steps of a run that return.
use remote_robot.Prelude.{◌≡◌, refl}
use remote_robot.Orchestrator.{Result, ok, raise}
use remote_robot.Orchestrator.Port.{Run, Step, pure, ◌>>=◌, lift}

module _ {W : Type 0} where
  -- What holds of the value and of the run as the step leaves it, if it returns.
  abbrev pub Holds : {A : Type 0} → (A → Run W → Type 0) → Result A × Run W → Type 0
  Holds P (ok a, r) = P a r
  Holds P (raise e, r) = Unit

  pub record Ensures {A : Type 0} (P : A → Run W → Type 0) (m : Step W A) : Type 0 where
    pub holds : (r : Run W) → Holds P (m r)

  -- What the last of several steps ensures, all of them ensure.
  pub Ensures->>= :
      {A B : Type 0} {P : B → Run W → Type 0} (m : Step W A) {f : A → Step W B}
      → ((a : A) → Ensures P (f a))
      → Ensures P (m >>= f)
  unfolding ◌>>=◌
  Ensures->>= {A} {B} {P} m {f} h = record { holds = λ r. go (m r) }
    where
      go : (out : Result A × Run W) → Holds P (((λ _. out) >>= f) out.1)
      go (ok a, r) = (h a).holds r
      go (raise e, r) = tt

  pub Ensures-pure :
      {A B : Type 0} {P : A → Run W → Type 0} (Q : B → Run W → Type 0) {m : Step W A} (g : A → B)
      → ((a : A) (r : Run W) → P a r → Q (g a) r)
      → Ensures P m
      → Ensures Q (m >>= λ a. pure (g a))
  unfolding ◌>>=◌ pure
  Ensures-pure {A} {B} {P} Q {m} g weaker h = record { holds = λ r. go (m r) (h.holds r) }
    where
      go : (out : Result A × Run W) → Holds P out → Holds Q (((λ _. out) >>= λ a. pure (g a)) out.1)
      go (ok a, r) p = weaker a r p
      go (raise e, r) p = tt

  -- A value that is computed without the run, before a step.
  pub Ensures-lift :
      {A B : Type 0} {P : B → Run W → Type 0} (v : Result A) {f : A → Step W B}
      → ((a : A) → v ≡ ok a → Ensures P (f a))
      → Ensures P (lift v >>= f)
  unfolding ◌>>=◌ lift
  Ensures-lift (ok a) h = record { holds = λ r. (h a refl).holds r }
  Ensures-lift (raise e) h = record { holds = λ r. tt }

  -- A step that may use what the first of them returned.
  pub Ensures-after :
      {A B : Type 0} {P : B → Run W → Type 0} (m : Step W A) (f : A → Step W B)
      → ((r r1 : Run W) (a : A) → m r ≡ (ok a, r1) → Holds P (f a r1))
      → Ensures P (m >>= f)
  unfolding ◌>>=◌
  Ensures-after {A} {B} {P} m f h = record { holds = λ r. go r (m r) refl }
    where
      go : (r : Run W) (out : Result A × Run W) → m r ≡ out → Holds P (((λ _. out) >>= f) out.1)
      go r (ok a, r1) same = h r r1 a same
      go r (raise e, r1) same = tt
