-- ===== src/Journal.antt =====
-- remote_robot/journal.py: the events of each run, numbered from 1, and the checks on event data.
-- An exception comes beside the journal as it is left, since what was written before it stays.
-- The clock reading of `append` and what its writing comes to are an argument; so are the library's CBOR coding, SHA-256 and
-- `str.casefold`, in the record `Codec`.
pub mod Data
pub mod Frame
pub mod Load
pub mod Outcome
pub mod Written
pub mod Sequence
pub mod Backed
pub mod Restart
pub mod Reopen
mod Tests
use remote_robot.Prelude.{
  ℕ, suc, ◌+◌, String, Bool, true, false, Option, none, some, List, [], ◌∷◌, ◌++◌, ◌==◌, string_eq,
  contains, if◌then◌else◌, length, keep, ltb, last?, take,
}
use remote_robot.Dict
use remote_robot.Dict.{Dict}
use remote_robot.Text.{sort_texts}
use remote_robot.Value.{Value, Fields}
use Data.{
  Codec, Writing, succeeds, fails, Moment, JournalEvent, JournalError, Result, ok, raise, ◌>>=◌,
  value_error, os_error, read_only, check_run_id, event_data,
}
use Frame.{frame, record_of}

-- Where `_persist_record` writes: nowhere, or at the end of a file, whose bytes are counted with
-- those in the buffer of its handle.
pub data Store : Type 0 where
  in_memory : Store
  file : List ℕ → Store

pub record Journal : Type 0 where
  pub events_by_run : Dict String (List JournalEvent)
  pub recovered_run_ids : List String
  pub closed : Bool
  pub store : Store

-- `InMemoryRunJournal()`
unfoldable pub init : Journal
init = record {
  events_by_run = Dict.empty;
  recovered_run_ids = [];
  closed = false;
  store = in_memory;
}

unfoldable pub events_of : Journal → String → List JournalEvent
events_of j run_id = elim (Dict.get j.events_by_run run_id) [ none ↦ [] | some es ↦ es ]

-- `_persist_record`
unfoldable pub write_frame : Writing → List ℕ → Result (List ℕ) → Result (Unit {0}) × Store
write_frame writing bs (raise e) = (raise e, file bs)
write_frame succeeds bs (ok framed) = (ok tt, file (bs ++ framed))
write_frame (fails n) bs (ok framed) = (raise os_error, file (bs ++ take n framed))

unfoldable pub persist : Codec → Writing → Store → Value → Result (Unit {0}) × Store
unfolding write_frame
persist c writing in_memory r = (ok tt, in_memory)
persist c writing (file bs) r = write_frame writing bs (frame c r)

-- `append`, from the check of the closed flag on: `setdefault`, the record, the list.
unfoldable pub append_checked :
    Codec → Journal → String → Fields → Moment → Result JournalEvent × Journal
unfolding events_of
append_checked c j owner event now =
    let events = events_of j owner in
    let opened = record j { events_by_run = Dict.put j.events_by_run owner events } in
    let item : JournalEvent = record {
      run_id = owner;
      event_seq = length events + 1;
      recorded_at_ns = now.time_ns;
      event = event;
    } in
    let (done, store) = persist c now.writing j.store (record_of item) in
    elim done [
      | raise e ↦ (raise e, record opened { store = store })
      | ok tt ↦ (
        ok item,
        record opened {
          events_by_run = Dict.put opened.events_by_run owner (events ++ item ∷ []);
          store = store;
        },
      )
    ]

unfoldable pub append_open :
    Codec → Journal → String → Fields → Moment → Result JournalEvent × Journal
append_open c j owner event now =
    if j.closed
    then (raise value_error, j)
    else (if contains j.recovered_run_ids owner
        then (raise read_only, j)
        else append_checked c j owner event now)

-- `append`
unfoldable pub append : Codec → Journal → String → Value → Moment → Result JournalEvent × Journal
append c j run_id event now = elim (check_run_id run_id) [
  | raise e ↦ (raise e, j)
  | ok owner ↦ elim (event_data c event) [
    | raise e ↦ (raise e, j)
    | ok safe ↦ append_open c j owner safe now
  ]
]

-- `replay`, of a number that is not negative
unfoldable pub replay : Journal → String → ℕ → Result (List JournalEvent)
replay j run_id after_event_seq = do
  owner ← check_run_id run_id
  ok (keep (λ e. ltb after_event_seq e.event_seq) (events_of j owner))

-- `latest`
unfoldable pub latest : Journal → String → Result (Option JournalEvent)
latest j run_id = do owner ← check_run_id run_id; ok (last? (events_of j owner))

-- `run_ids`
unfoldable pub run_ids : Journal → List String
run_ids j = sort_texts (Dict.keys j.events_by_run)

-- `close`
unfoldable pub close : Journal → Journal
close j = record j { closed = true }
