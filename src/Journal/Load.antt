-- ===== src/Journal/Load.antt =====
-- remote_robot/journal.py: reading a journal file back, `FileRunJournal` and its restart.
use remote_robot.Prelude.{
  ℕ, pos, zero, suc, ◌+◌, String, Bool, false, ◌&&◌, Option, none, some, List, [], ◌∷◌, ◌++◌, ◌==◌,
  string_eq, nat_eq, if◌then◌else◌, length, take, drop, same_set,
}
use remote_robot.Dict
use remote_robot.Dict.{Dict}
use remote_robot.Value.{Value, Fields, int, float, str, get, keys, text_keys, are_texts}
use remote_robot.Journal.Data.{
  Codec, JournalEvent, Result, ok, raise, ◌>>=◌, ◌>>◌, require, corruption, out_of_fuel,
  check_run_id, event_data,
}
use remote_robot.Bytes.{same_bytes}
use remote_robot.Journal.Frame.{frame, header, magic, decode_frame}
use remote_robot.Journal.{Journal, file}

-- `v == 2`: the number 2, or the float 2.0
unfoldable pub is_two : Option Value → Bool
is_two (some (int (pos n))) = n == 2
is_two (some (float bits)) = bits == 0x4000000000000000
is_two _ = false

-- `set(d) == ks`
unfoldable pub has_keys : Fields → List String → Bool
has_keys fs ks = are_texts (keys fs) && same_set (text_keys (keys fs)) ks

-- `header != {…}` does not hold
unfoldable pub is_header : Option (Fields × List ℕ) → Bool
unfolding is_two has_keys
is_header none = false
is_header (some (fs, rest)) =
    has_keys fs ("format" ∷ "version" ∷ [])
    && is_two (get "version" fs)
    && (elim (get "format" fs) [ some (str s) ↦ s == "remote-robot-run-journal" | _ ↦ false ])

-- `_validate_run_id(record["run_id"])`, its exceptions turned into corruption
unfoldable pub owner_of_record : Option Value → Result String
owner_of_record (some (str s)) = elim (check_run_id s) [ ok k ↦ ok k | raise e ↦ raise corruption ]
owner_of_record _ = raise corruption

unfoldable pub sequence_of : Option Value → ℕ → Result ℕ
sequence_of (some (int (pos n))) expected = if n == expected then ok n else raise corruption
sequence_of _ expected = raise corruption

unfoldable pub timestamp_of : Option Value → Result ℕ
timestamp_of (some (int (pos n))) = ok n
timestamp_of _ = raise corruption

unfoldable pub event_of : Codec → Option Value → Result Fields
event_of c (some v) = elim (event_data c v) [ ok fs ↦ ok fs | raise e ↦ raise corruption ]
event_of c none = raise corruption

abbrev pub required_keys : List String
required_keys = "version" ∷ "run_id" ∷ "event_seq" ∷ "recorded_at_ns" ∷ "event" ∷ []

unfoldable pub expected_of : Dict String ℕ → String → ℕ
expected_of expected owner = elim (Dict.get expected owner) [ none ↦ 1 | some n ↦ n + 1 ]

-- `_event_from_record`: the event, and the sequence numbers with it written
unfoldable pub event_from_record :
    Codec → Fields → Dict String ℕ → Result (JournalEvent × Dict String ℕ)
event_from_record c record_fields expected = do
  require (has_keys record_fields required_keys && is_two (get "version" record_fields)) corruption
  owner ← owner_of_record (get "run_id" record_fields)
  sequence ← sequence_of (get "event_seq" record_fields) (expected_of expected owner)
  timestamp ← timestamp_of (get "recorded_at_ns" record_fields)
  event ← event_of c (get "event" record_fields)
  ok (
    record { run_id = owner; event_seq = sequence; recorded_at_ns = timestamp; event = event },
    Dict.put expected owner sequence,
  )

-- `events.setdefault(item.run_id, []).append(item)`
unfoldable pub add_event :
    Dict String (List JournalEvent) → JournalEvent → Dict String (List JournalEvent)
add_event events item =
    Dict.put events item.run_id
      ((elim (Dict.get events item.run_id) [ none ↦ [] | some es ↦ es ]) ++ item ∷ [])

-- The loop of `_load`, on fuel.
unfoldable pub load_events :
    Codec
    → ℕ
    → List ℕ
    → Dict String (List JournalEvent)
    → Dict String ℕ
    → Result (Dict String (List JournalEvent))
unfolding add_event
load_events c zero bs events expected = raise out_of_fuel
load_events c (suc fuel) bs events expected = elim (decode_frame c bs) [
  | raise e ↦ raise e
  | ok none ↦ ok events
  | ok (some (fields, rest)) ↦ elim (event_from_record c fields expected) [
    | raise e ↦ raise e
    | ok (item, expected') ↦ load_events c fuel rest (add_event events item) expected'
  ]
]

-- `_load`, past the magic: each frame has at least a length, so the file's length is fuel enough.
unfoldable pub load_frames : Codec → List ℕ → Result (Dict String (List JournalEvent))
unfolding is_header
load_frames c bs = elim (decode_frame c bs) [
  | raise e ↦ raise e
  | ok none ↦ raise corruption
  | ok (some (fields, rest)) ↦
      if is_header (some (fields, rest))
      then load_events c (suc (length rest)) rest Dict.empty Dict.empty
      else raise corruption
]

-- `_load`
unfoldable pub load : Codec → List ℕ → Result (Dict String (List JournalEvent))
unfolding load_frames same_bytes
load c bs = if same_bytes (take 4 bs) magic then load_frames c (drop 4 bs) else raise corruption

-- `FileRunJournal(path)` over the bytes of the file, or over no file: a recovered run is read-only.
unfoldable pub open_file : Codec → Option (List ℕ) → Result Journal
unfolding load
open_file c (some bs) = do
  events ← load c bs
  ok (record {
    events_by_run = events;
    recovered_run_ids = Dict.keys events;
    closed = false;
    store = file bs;
  })
open_file c none = do
  head ← frame c header
  ok (record {
    events_by_run = Dict.empty;
    recovered_run_ids = [];
    closed = false;
    store = file (magic ++ head);
  })
