-- ===== src/Journal/Outcome.antt =====
-- remote_robot/journal.py: what `append` does on each branch.
use remote_robot.Prelude.{
  ◌+◌, String, ◌≡◌, refl, false, [], ◌∷◌, ◌++◌, string_eq, contains, length, arith, inl, inr, ◌⊎◌,
  Bool-cases, ap,
}
use remote_robot.Dict
use remote_robot.Dict.{Dict, get-put, get-empty}
use remote_robot.Value.{Value, Fields, dict}
use remote_robot.Journal.Data.{
  Codec, Moment, JournalEvent, JournalError, Result, ok, raise, value_error, read_only,
  check_run_id, event_data,
}
use remote_robot.Journal.Frame.{record_of}
use remote_robot.Journal.{Journal, Store, events_of, persist, append_checked, append_open, append}

pub Result-cases {ℓ} :
    {A : Type ℓ} (r : Result A) → ((a : A) × (r ≡ ok a)) ⊎ ((e : JournalError) × (r ≡ raise e))
Result-cases (ok a) = inl (a, refl)
Result-cases (raise e) = inr (e, refl)

pub persist-cases :
    (out : Result (Unit {0}) × Store)
    → ((store : Store) × (out ≡ (ok tt, store)))
      ⊎ ((e : JournalError) × (store : Store) × (out ≡ (raise e, store)))
persist-cases (ok tt, store) = inl (store, refl)
persist-cases (raise e, store) = inr (e, store, refl)

check_run_id_same : (s k : String) → check_run_id s ≡ ok k → s ≡ k
unfolding check_run_id
check_run_id_same s k h = ground arith

-- What an event passes on is its own data, so it passes the checks again.
event_data_again :
    (c : Codec) (v : Value) (fs : Fields) → event_data c v ≡ ok fs → event_data c (dict fs) ≡ ok fs
unfolding event_data
event_data_again c (dict gs) fs h =
    let same : gs ≡ fs = ground arith in rw (← same) (rw (← same) at h)
event_data_again c _ fs h = absurd (ground arith)

-- The next event of a run.
abbrev pub next_event : Journal → String → Fields → Moment → JournalEvent
next_event j owner event now = record {
  run_id = owner;
  event_seq = length (events_of j owner) + 1;
  recorded_at_ns = now.time_ns;
  event = event;
}

-- What an `append` may do: refuse and leave the journal; fail to write and leave an entry for the
-- run with the events that it had, and what reached the file; or write the next event.
pub data Outcome (c : Codec) (j : Journal) (owner : String) (now : Moment)
    (out : Result JournalEvent × Journal) : Type 0 where
  refused : (e : JournalError) → out ≡ (raise e, j) → Outcome c j owner now out
  unwritten :
      (event : Fields) (e : JournalError) (store : Store)
      → persist c now.writing j.store (record_of (next_event j owner event now)) ≡ (raise e, store)
      → out ≡ (
        raise e,
        record j {
          events_by_run = Dict.put j.events_by_run owner (events_of j owner);
          store = store;
        },
      )
      → Outcome c j owner now out
  written :
      (event : Fields) (store : Store)
      → j.closed ≡ false
      → contains j.recovered_run_ids owner ≡ false
      → check_run_id owner ≡ ok owner
      → event_data c (dict event) ≡ ok event
      → persist c now.writing j.store (record_of (next_event j owner event now)) ≡ (ok tt, store)
      → out ≡ (
        ok (next_event j owner event now),
        record j {
          events_by_run =
              Dict.put
                (Dict.put j.events_by_run owner (events_of j owner))
                owner
                (events_of j owner ++ next_event j owner event now ∷ []);
          store = store;
        },
      )
      → Outcome c j owner now out

module _ (c : Codec) (j : Journal) (owner : String) (event : Fields) (now : Moment) where
  pub append_checked-unwritten :
      (e : JournalError) (store : Store)
      → persist c now.writing j.store (record_of (next_event j owner event now)) ≡ (raise e, store)
      → append_checked c j owner event now ≡ (
        raise e,
        record j {
          events_by_run = Dict.put j.events_by_run owner (events_of j owner);
          store = store;
        },
      )
  unfolding append_checked
  append_checked-unwritten e store h =
      rw (append_checked, ap (λ out. out.0) h) (rw (ap (λ out. out.1) h) refl)

  pub append_checked-written :
      (store : Store)
      → persist c now.writing j.store (record_of (next_event j owner event now)) ≡ (ok tt, store)
      → append_checked c j owner event now ≡ (
        ok (next_event j owner event now),
        record j {
          events_by_run =
              Dict.put
                (Dict.put j.events_by_run owner (events_of j owner))
                owner
                (events_of j owner ++ next_event j owner event now ∷ []);
          store = store;
        },
      )
  unfolding append_checked
  append_checked-written store h =
      rw (append_checked, ap (λ out. out.0) h) (rw (ap (λ out. out.1) h) refl)

  append_open-Outcome :
      check_run_id owner ≡ ok owner
      → event_data c (dict event) ≡ ok event
      → Outcome c j owner now (append_open c j owner event now)
  unfolding append_open
  append_open-Outcome named safe = elim (Bool-cases j.closed) [
    | inl shut ↦ refused value_error (ground (arith, shut))
    | inr unshut ↦ elim (Bool-cases (contains j.recovered_run_ids owner)) [
      | inl old ↦ refused read_only (ground (arith, unshut, old))
      | inr fresh ↦
          elim (persist-cases
            (persist c now.writing j.store (record_of (next_event j owner event now)))) [
              | inr (e, store, bad) ↦
                  unwritten event e store bad
                    (ground (arith, unshut, fresh, append_checked-unwritten e store bad))
              | inl (store, done) ↦
                  written event store unshut fresh named safe done
                    (ground (arith, unshut, fresh, append_checked-written store done))
            ]
    ]
  ]

-- Every call of `append` has one of the three outcomes.
pub append-Outcome :
    (c : Codec) (j : Journal) (run_id : String) (event : Value) (now : Moment)
    → Outcome c j run_id now (append c j run_id event now)
unfolding append
append-Outcome c j run_id event now = elim (Result-cases (check_run_id run_id)) [
  | inr (e, bad) ↦ refused e (rw (bad, append))
  | inl (k, named) ↦
      let same = check_run_id_same run_id k named in
      elim (Result-cases (event_data c event)) [
        | inr (e, bad) ↦ refused e (rw (named, append) (rw bad))
        | inl (safe, good) ↦
            rw (named, append)
              (rw good (
                rw (← same) (
                  append_open-Outcome c j run_id safe now (rw (← same) at named)
                    (event_data_again c event safe good))))
      ]
]
