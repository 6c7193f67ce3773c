-- ===== src/Orchestrator/Port.antt =====
-- remote_robot/orchestrator.py: the workers as the orchestrator sees them, the state of one run, and
-- a step of a run, which returns or raises and leaves the state either way.
use remote_robot.Prelude.{
  ◌/◌, ℕ, String, Bool, Option, none, some, List, [], ◌∷◌, ◌++◌, if◌then◌else◌, take,
}
use remote_robot.Value.{Fields, dict}
use remote_robot.Journal
use remote_robot.Journal.{Journal}
use remote_robot.Journal.Data
use remote_robot.Journal.Data.{Codec, Moment, JournalEvent}
use remote_robot.Orchestrator.{
  Result, ok, raise, journal_error, phase_execution, cancelled, Reply, returned, wait_one,
}

-- A call of `WorkerPort`.
pub data Request : Type 0 where
  prepare_disabled : Request
  prepare_phase : Fields → Request
  start_phase : ℕ → Request
  stop : Fields → Request

-- What is around a run, the workers and the clocks, as states of a type `W`. `call` is one call of
-- one worker. `arrivals` are the events that `next_event` gives until the wait's time is over, and
-- `leave` says which of them are not read. `is_cancelled` tells whether the task of the run is
-- cancelled at a wait for events, and `calls_before_cancel` whether it is at the wait for the calls
-- of a `gather`, and how many of the calls were begun by then: `gather` makes a task of each, and a
-- task that is cancelled before its first step does not make its call.
pub record Port (W : Type 0) : Type 0 where
  pub call : String → Request → W → Reply × W
  pub arrivals : String → W → List Fields
  pub leave : String → List Fields → W → W
  pub monotonic_ns : W → ℕ
  pub moment : W → Moment
  pub is_cancelled : W → Bool
  pub calls_before_cancel : W → Option ℕ

-- A run: its journal and surroundings, the requests that it sent, and the local variables
-- `current_phase` and `current_phase_execution_id`.
pub record Run (W : Type 0) : Type 0 where
  pub journal : Journal
  pub world : W
  pub requests : List (String × Request)
  pub current_phase : Option String
  pub current_execution : Option String

abbrev pub Step : Type 0 → Type 0 → Type 0
Step W A = Run W → Result A × Run W

module _ {W : Type 0} where
  unfoldable pub pure : {A : Type 0} → A → Step W A
  pure a r = (ok a, r)

  infixl 5 ◌>>=◌ ◌>>◌
  unfoldable pub ◌>>=◌ : {A B : Type 0} → Step W A → (A → Step W B) → Step W B
  ◌>>=◌ m f r = let (a, r') = m r in elim a [ ok x ↦ f x r' | raise e ↦ (raise e, r') ]

  abbrev pub ◌>>◌ : {A B : Type 0} → Step W A → Step W B → Step W B
  m >> k = m >>= λ _. k

  unfoldable pub lift : {A : Type 0} → Result A → Step W A
  lift a r = (a, r)

  unfoldable pub set_phase : String → Step W (Unit {0})
  set_phase phase r = (ok tt, record r { current_phase = some phase })

  unfoldable pub set_execution : String → Step W (Unit {0})
  set_execution execution r = (ok tt, record r { current_execution = some execution })

  unfoldable pub from_journal :
      Run W → Data.Result JournalEvent × Journal → Result JournalEvent × Run W
  from_journal r (Data.ok item, j) = (ok item, record r { journal = j })
  from_journal r (Data.raise e, j) = (raise (journal_error e), record r { journal = j })

  module _ (p : Port W) where
    -- `self.journal.append(run_id, event)`
    unfoldable pub append : Codec → String → Fields → Step W JournalEvent
    unfolding from_journal
    append c run_id event r =
        from_journal r (Journal.append c r.journal run_id (dict event) (p.moment r.world))

    -- `time.monotonic_ns() // 1_000`
    unfoldable pub clock : Step W ℕ
    clock r = (ok (p.monotonic_ns r.world / 1000), r)

    -- `asyncio.gather(…, return_exceptions=True)` of one call for each name
    unfoldable pub gather : (String → Request) → List String → Run W → List (String × Reply) × Run W
    gather request [] r = ([], r)
    gather request (name ∷ names) r =
        let (reply, w) = p.call name (request name) r.world in
        let sent : Run W = record r {
          world = w;
          requests = r.requests ++ (name, request name) ∷ [];
        } in
        let (replies, r') = gather request names sent in ((name, reply) ∷ replies, r')

    -- A `gather` of no calls does not wait.
    unfoldable pub cut_at : List String → W → Option ℕ
    cut_at [] w = none
    cut_at (name ∷ names) w = p.calls_before_cancel w

    -- A `gather` to its end, or to the cancellation behind the first `n` calls.
    unfoldable pub gather_cut :
        (String → Request) → List String → Option ℕ → Step W (List (String × Reply))
    unfolding gather
    gather_cut request names none r = let (replies, r') = gather request names r in (ok replies, r')
    gather_cut request names (some n) r = (raise cancelled, (gather request (take n names) r).1)

    -- `gather` where the run's task may be cancelled
    unfoldable pub gather_all : (String → Request) → List String → Step W (List (String × Reply))
    unfolding gather_cut cut_at
    gather_all request names r = gather_cut request names (cut_at names r.world) r

    -- what `wait_one` comes to: `TimeoutError` if it still waits when the time is over
    unfoldable pub waited : String → Option (Result (Fields × List Fields)) → Step W Fields
    waited name none r = (raise phase_execution, r)
    waited name (some (raise e)) r = (raise e, r)
    waited name (some (ok (event, rest))) r =
        (ok event, record r { world = p.leave name rest r.world })

    -- `wait_one` of one worker, up to its time-out
    unfoldable pub wait_for : String → String → String → String → Step W Fields
    unfolding wait_one waited
    wait_for run_id execution expected_type name r =
        waited name (wait_one run_id execution expected_type (p.arrivals name r.world)) r

    -- The tasks of `_wait_all_for_event`, until one fails.
    unfoldable pub wait_each :
        String → String → String → List String → Step W (List (String × Reply))
    unfolding wait_for
    wait_each run_id execution expected_type [] = pure []
    wait_each run_id execution expected_type (name ∷ names) = do
      event ← wait_for run_id execution expected_type name
      events ← wait_each run_id execution expected_type names
      pure ((name, returned event) ∷ events)

    -- `_wait_all_for_event`
    unfoldable pub wait_all :
        String → String → String → List String → Step W (List (String × Reply))
    unfolding wait_each
    wait_all run_id execution expected_type names r =
        if p.is_cancelled r.world
        then (raise cancelled, r)
        else wait_each run_id execution expected_type names r
