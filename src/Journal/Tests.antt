-- ===== src/Journal/Tests.antt =====
-- Runs of remote_robot/journal.py on a small codec, and its theorems at concrete inputs.
use remote_robot.Prelude.{
  ℕ, zero, suc, ◌+◌, String, ◌≡◌, refl, ◌≢◌, true, false, Option, none, some, List, [], ◌∷◌, ◌++◌,
  ◌==◌, string_eq, contains, if◌then◌else◌, length, drop, arith, same_set,
}
use remote_robot.Text.{is_canonical}
use remote_robot.Dict
use remote_robot.Value.{Value, Fields, str, dict, end, field, get, keys, text_keys, are_texts, null}
use remote_robot.Journal.Data.{
  Codec, JournalEvent, ok, raise, read_only, check_run_id, event_data, secret_data, looks_secret,
  ends_with, validate_plain_data, Moment, succeeds, fails, os_error, corruption,
}
use remote_robot.Bytes.{pack, unpack}
use remote_robot.Journal.Frame.{
  record_fields, record_of, header, header_fields, frame, decode_frame,
}
use remote_robot.Journal.Load.{
  open_file, load_events, event_from_record, owner_of_record, sequence_of, expected_of,
  timestamp_of, event_of,
}
use remote_robot.Journal.{
  Journal, Store, init, in_memory, file, write_frame, events_of, append, append_open,
  append_checked, persist, replay, latest, close,
}
use remote_robot.Journal.Sequence.{
  IsSequenced, append-IsSequenced, replay-drop, append_returned, append_raised, StoreLeft,
}
use remote_robot.Journal.Backed.{Reads}
use remote_robot.Journal.Reopen.{Call, AllRead, run, open_file-run}

program : Unit {0}
unfolding init append append_open append_checked persist write_frame replay latest close
    check_run_id is_canonical event_data looks_secret ends_with validate_plain_data contains get
    keys text_keys Dict.get Dict.put Dict.empty Dict.keys events_of frame pack record_fields
    open_file run same_set are_texts
program = tt

abbrev opened : Fields
opened = field (str "type") (str "run.opened") end

-- The clock and the file of the calls: nothing fails, or the file fails behind the whole frame.
abbrev on_time : Moment
on_time = record { time_ns = 7; writing = succeeds }

abbrev on_failure : Moment
on_failure = record { time_ns = 7; writing = fails 100 }

abbrev first : JournalEvent
first = record { run_id = "r1"; event_seq = 1; recorded_at_ns = 7; event = opened }

zeros : ℕ → List ℕ
zeros zero = []
zeros (suc n) = 0 ∷ zeros n

-- A codec that knows the header and one event.
abbrev toy_dumps : Value → Option (List ℕ)
toy_dumps (dict fs) = elim (get "format" fs) [ none ↦ some (1 ∷ []) | some v ↦ some (0 ∷ []) ]
toy_dumps _ = none

abbrev toy_loads : List ℕ → Option Value
toy_loads (zero ∷ []) = some header
toy_loads _ = some (record_of first)

abbrev toy : Codec
toy = record { dumps = toy_dumps; loads = toy_loads; sha256 = λ b. zeros 32; casefold = λ s. s }

abbrev first_call : List Call
first_call = ("r1", dict opened, on_time) ∷ []

secret_refused :
    (append toy init "r1" (dict (field (str "api-key") null end)) on_time).0 ≡ raise secret_data
unfolding program
secret_refused = refl

one_event : (append toy init "r1" (dict opened) on_time).0 ≡ ok first
unfolding program
one_event = refl

init-IsSequenced : IsSequenced init
unfolding program
init-IsSequenced r = tt

append-IsSequenced_example : IsSequenced (append toy init "r1" (dict opened) on_time).1
append-IsSequenced_example = append-IsSequenced toy init "r1" (dict opened) on_time init-IsSequenced

abbrev after_one : Journal
after_one = (append toy init "r1" (dict opened) on_time).1

replay-drop_example : replay after_one "r1" 1 ≡ ok (drop 1 (events_of after_one "r1"))
unfolding check_run_id is_canonical
replay-drop_example =
    replay-drop after_one "r1" 1
      (append-IsSequenced toy init "r1" (dict opened) on_time init-IsSequenced) refl

append_returned_example :
    (first.event_seq ≡ length (events_of init "r1") + 1)
    × (latest after_one "r1" ≡ ok (some first))
    × ((r : String)
        → events_of after_one r
          ≡ (if "r1" == r then events_of init "r1" ++ first ∷ [] else events_of init r))
    × (contains init.recovered_run_ids "r1" ≡ false)
    × (init.closed ≡ false)
append_returned_example = append_returned toy init "r1" (dict opened) on_time first one_event

abbrev recovered : Journal
recovered = record {
  events_by_run = Dict.empty;
  recovered_run_ids = "r1" ∷ [];
  closed = false;
  store = Store.in_memory;
}

read_only_run : (append toy recovered "r1" (dict opened) on_time).0 ≡ raise read_only
unfolding program
read_only_run = refl

abbrev new_journal : Journal
new_journal = record {
  events_by_run = Dict.empty;
  recovered_run_ids = [];
  closed = false;
  store = file ((b'R' ∷ b'R' ∷ b'J' ∷ b'2' ∷ []) ++ (pack 1 ++ (zeros 32 ++ (0 ∷ []))));
}

unsynced : (append toy new_journal "r1" (dict opened) on_failure).0 ≡ raise os_error
unfolding program zeros
unsynced = refl

append_raised_example :
    ((r : String)
      → events_of (append toy new_journal "r1" (dict opened) on_failure).1 r
        ≡ events_of new_journal r)
    × StoreLeft toy new_journal "r1" on_failure os_error
        (append toy new_journal "r1" (dict opened) on_failure).1.store
append_raised_example =
    append_raised toy new_journal "r1" (dict opened) on_failure os_error unsynced

header-Reads : Reads toy header_fields
unfolding program zeros
header-Reads = record {
  loads-dumps = λ payload h. let e : 0 ∷ [] ≡ payload = ground arith in rw (← e) refl;
  length-sha256 = λ payload h. refl;
}

first-Reads : Reads toy (record_fields first)
unfolding program zeros
first-Reads = record {
  loads-dumps = λ payload h. let e : 1 ∷ [] ≡ payload = ground arith in rw (← e) refl;
  length-sha256 = λ payload h. refl;
}

first_call-AllRead : AllRead toy new_journal first_call
unfolding program
first_call-AllRead = ((λ e h. let same : first ≡ e = ground arith in rw (← same) first-Reads), tt)

abbrev written : List ℕ
written =
    (b'R' ∷ b'R' ∷ b'J' ∷ b'2' ∷ [])
    ++ ((pack 1 ++ (zeros 32 ++ (0 ∷ []))) ++ (pack 1 ++ (zeros 32 ++ (1 ∷ []))))

open_file-run_example :
    (j' : Journal) × (open_file toy (some written) ≡ ok j')
    × ((r : String) → events_of j' r ≡ events_of (run toy new_journal first_call) r)
    × ((r : String)
        → events_of (run toy new_journal first_call) r ≢ []
        → contains j'.recovered_run_ids r ≡ true)
unfolding program zeros
open_file-run_example =
    open_file-run toy new_journal first_call written refl header-Reads (refl, tt) first_call-AllRead
      refl

abbrev bytes_of : Store → List ℕ
bytes_of in_memory = []
bytes_of (file bs) = bs

-- A record whose flush failed is in the file, and the next event has its number again, so the next
-- restart refuses the file.
number_twice :
    open_file toy (
      some (
        bytes_of (
          (run toy new_journal
            (("r1", dict opened, on_failure) ∷ ("r1", dict opened, on_time) ∷ [])).store)))
    ≡ raise corruption
unfolding program zeros decode_frame unpack load_events event_from_record owner_of_record
    sequence_of expected_of timestamp_of event_of
number_twice = refl
