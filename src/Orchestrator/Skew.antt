-- ===== src/Orchestrator/Skew.antt =====
-- remote_robot/orchestrator.py: what the observed skew of a phase says about its workers' starts.
use remote_robot.Prelude.{
  ℕ, ◌+◌, ◌≤◌, ◌≡◌, refl, true, pos, some, List, [], ◌∷◌, arith, contains, nat_eq, ==_iff, inl, inr,
  ◌⊎◌,
}
use remote_robot.Value.{Fields, int, get}
use remote_robot.Orchestrator.{
  OrchestratorError, Result, ok, raise, actual_start, actual_starts, observed_start_skew_us,
  largest, smallest, spread,
}

bounds :
    (n : ℕ) (ns : List ℕ) (m : ℕ)
    → contains (n ∷ ns) m ≡ true
    → (smallest n ns ≤ m) × (m ≤ largest n ns)
unfolding largest smallest contains
bounds n [] m h = ground (arith, h, ==_iff n m)
bounds n (k ∷ ks) m h =
    ground (arith, bounds n ks m, bounds n ks n, ==_iff k m, ==_iff n m, ==_iff n n)

contains-largest : (n : ℕ) (ns : List ℕ) → contains (n ∷ ns) (largest n ns) ≡ true
unfolding largest contains
contains-largest n [] = ground (arith, ==_iff n n)
contains-largest n (k ∷ ks) = ground (arith, contains-largest n ks, ==_iff k k)

contains-smallest : (n : ℕ) (ns : List ℕ) → contains (n ∷ ns) (smallest n ns) ≡ true
unfolding smallest contains
contains-smallest n [] = ground (arith, ==_iff n n)
contains-smallest n (k ∷ ks) = ground (arith, contains-smallest n ks, ==_iff k k)

spread_bound :
    (ns : List ℕ) (k x y : ℕ)
    → spread ns ≡ ok k
    → contains ns x ≡ true
    → contains ns y ≡ true
    → x ≤ y + k
unfolding spread
spread_bound [] k x y h hx hy = absurd (ground arith)
spread_bound (n ∷ ns) k x y h hx hy = ground (arith, h, bounds n ns x hx, bounds n ns y hy)

spread_attained :
    (ns : List ℕ) (k : ℕ)
    → spread ns ≡ ok k
    → (x y : ℕ) × (contains ns x ≡ true) × (contains ns y ≡ true) × (x ≡ y + k)
unfolding spread
spread_attained [] k h = absurd (ground arith)
spread_attained (n ∷ ns) k h = (
  largest n ns,
  smallest n ns,
  contains-largest n ns,
  contains-smallest n ns,
  ground (arith, h, bounds n ns (largest n ns) (contains-largest n ns)),
)

-- The numbers are the `actual_start_us` of the events, one for each, in their order.
abbrev pub StartsOf : List Fields → List ℕ → Type 0
StartsOf [] [] = Unit
StartsOf (event ∷ events) (n ∷ ns) =
    (get "actual_start_us" event ≡ some (int (pos n))) × StartsOf events ns
StartsOf _ _ = ⊥

-- No two of the numbers are further apart than `k`.
abbrev pub IsNear : ℕ → ℕ → List ℕ → Type 0
IsNear k n [] = Unit
IsNear k n (m ∷ ms) = (n ≤ m + k) × (m ≤ n + k) × IsNear k n ms

abbrev pub AreNear : ℕ → List ℕ → Type 0
AreNear k [] = Unit
AreNear k (n ∷ ns) = IsNear k n ns × AreNear k ns

actual_start-entry :
    (event : Fields) (n : ℕ)
    → actual_start event ≡ ok n
    → get "actual_start_us" event ≡ some (int (pos n))
unfolding actual_start
actual_start-entry event n h = ground arith

Result-cases {ℓ} :
    {A : Type ℓ} (r : Result A) → ((a : A) × (r ≡ ok a)) ⊎ ((e : OrchestratorError) × (r ≡ raise e))
Result-cases (ok a) = inl (a, refl)
Result-cases (raise e) = inr (e, refl)

actual_starts-StartsOf :
    (events : List Fields) (ns : List ℕ) → actual_starts events ≡ ok ns → StartsOf events ns
unfolding actual_starts
actual_starts-StartsOf [] [] h = tt
actual_starts-StartsOf [] (n ∷ ns) h = absurd (ground (arith, h))
actual_starts-StartsOf (event ∷ events) ns h = elim (Result-cases (actual_start event)) [
  | inr (e, bad) ↦ absurd (ground (arith, h, bad))
  | inl (m, one) ↦ elim (Result-cases (actual_starts events)) [
    | inr (e, bad) ↦ absurd (ground (arith, h, one, bad))
    | inl (ms, more) ↦
        let same : m ∷ ms ≡ ns = ground (arith, h, one, more) in
        rw (← same) (actual_start-entry event m one, actual_starts-StartsOf events ms more)
  ]
]

each-IsNear :
    (k n : ℕ) (ms : List ℕ)
    → ((m : ℕ) → contains ms m ≡ true → (n ≤ m + k) × (m ≤ n + k))
    → IsNear k n ms
unfolding contains
each-IsNear k n [] h = tt
each-IsNear k n (m ∷ ms) h =
    let (lower, upper) = h m (ground (arith, ==_iff m m)) in
    (lower, upper, each-IsNear k n ms (λ x held. h x (ground (arith, held))))

each-AreNear :
    (k : ℕ) (ns : List ℕ)
    → ((x y : ℕ) → contains ns x ≡ true → contains ns y ≡ true → x ≤ y + k)
    → AreNear k ns
unfolding contains
each-AreNear k [] h = tt
each-AreNear k (n ∷ ns) h =
    let first : contains (n ∷ ns) n ≡ true = ground (arith, ==_iff n n) in
    let later : (x : ℕ) → contains ns x ≡ true → contains (n ∷ ns) x ≡ true =
      λ x held. ground (arith, held) in
    (
      each-IsNear k n ns (λ m held. (h n m first (later m held), h m n (later m held) first)),
      each-AreNear k ns (λ x y hx hy. h x y (later x hx) (later y hy)),
    )

-- The starts behind an observed skew, which is within a limit: no two are further apart than the
-- limit, and two are as far apart as the skew.
pub observed_start_skew_us_lem :
    (events : List Fields) (k limit : ℕ)
    → observed_start_skew_us events ≡ ok k
    → k ≤ limit
    → (ns : List ℕ) × StartsOf events ns
      × AreNear limit ns
      × ((x y : ℕ) × (contains ns x ≡ true) × (contains ns y ≡ true) × (x ≡ y + k))
unfolding observed_start_skew_us
observed_start_skew_us_lem events k limit h small = elim (Result-cases (actual_starts events)) [
  | inr (e, bad) ↦ absurd (ground (arith, h, bad))
  | inl (ns, starts) ↦
      let seen : spread ns ≡ ok k = ground (arith, h, starts) in
      (
        ns,
        actual_starts-StartsOf events ns starts,
        each-AreNear limit ns (λ x y hx hy.
            let close = spread_bound ns k x y seen hx hy in omega (arith, close, small)),
        spread_attained ns k seen,
      )
]
