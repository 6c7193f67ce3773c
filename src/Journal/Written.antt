-- ===== src/Journal/Written.antt =====
-- remote_robot/journal.py: an event that `append` returns holds the data that it was given.
use remote_robot.Prelude.{String, ◌≡◌, refl, string_eq, contains, arith, inl, inr, Bool-cases}
use remote_robot.Value.{Fields, dict}
use remote_robot.Journal.Data.{Codec, Moment, JournalEvent, ok, check_run_id, event_data}
use remote_robot.Journal.Frame.{record_of}
use remote_robot.Journal.{Journal, persist, append_checked, append_open, append}
use remote_robot.Journal.Outcome.{
  Result-cases, persist-cases, next_event, append_checked-unwritten, append_checked-written,
}

event_data_same : (c : Codec) (fs safe : Fields) → event_data c (dict fs) ≡ ok safe → safe ≡ fs
unfolding event_data
event_data_same c fs safe h = ground arith

module _ (c : Codec) (j : Journal) (owner : String) (event : Fields) (now : Moment)
    (item : JournalEvent) where
  append_checked_data : (append_checked c j owner event now).0 ≡ ok item → item.event ≡ event
  append_checked_data h =
      elim (persist-cases
        (persist c now.writing j.store (record_of (next_event j owner event now)))) [
          | inr (e, store, bad) ↦
              absurd (ground (arith, append_checked-unwritten c j owner event now e store bad))
          | inl (store, done) ↦
              let same : next_event j owner event now ≡ item =
                ground (arith, append_checked-written c j owner event now store done) in
              rw (← same) refl
        ]

  append_open_data : (append_open c j owner event now).0 ≡ ok item → item.event ≡ event
  unfolding append_open
  append_open_data h = elim (Bool-cases j.closed) [
    | inl shut ↦ absurd (ground (arith, shut))
    | inr unshut ↦ elim (Bool-cases (contains j.recovered_run_ids owner)) [
      | inl old ↦ absurd (ground (arith, unshut, old))
      | inr fresh ↦ append_checked_data (ground (arith, unshut, fresh))
    ]
  ]

pub append_data :
    (c : Codec) (j : Journal) (run_id : String) (fs : Fields) (now : Moment) (item : JournalEvent)
    → (append c j run_id (dict fs) now).0 ≡ ok item
    → item.event ≡ fs
unfolding append
append_data c j run_id fs now item h = elim (Result-cases (check_run_id run_id)) [
  | inr (e, bad) ↦ absurd (ground (arith, bad))
  | inl (k, named) ↦ elim (Result-cases (event_data c (dict fs))) [
    | inr (e, bad) ↦ absurd (ground (arith, named, bad))
    | inl (safe, good) ↦
        let past = rw (named, append) at h in
        rw (← event_data_same c fs safe good)
          (append_open_data c j k safe now item (rw good at past))
  ]
]
