-- ===== src/Journal/Frame.antt =====
-- remote_robot/journal.py: one record as bytes, length, SHA-256 and canonical CBOR, and back.
use remote_robot.Prelude.{
  ℕ, pos, ◌+◌, ◌*◌, not, ◌||◌, Option, none, some, List, [], ◌∷◌, ◌++◌, string_eq, nat_eq,
  if◌then◌else◌, length, take, drop, ltb, eqb,
}
use remote_robot.Bytes.{same_bytes, pack, unpack}
use remote_robot.Value.{Value, Fields, int, str, dict, end, field}
use remote_robot.Journal.Data.{
  Codec, JournalEvent, Result, ok, raise, ◌>>=◌, ◌>>◌, require, value_error, corruption,
}

abbrev pub max_frame_bytes : ℕ
max_frame_bytes = 16 * 1024 * 1024

-- `_record`, its keys in canonical order
unfoldable pub record_fields : JournalEvent → Fields
record_fields e = field (str "event") (dict e.event) (
    field (str "run_id") (str e.run_id) (
      field (str "version") (int (pos 2)) (
        field (str "event_seq") (int (pos e.event_seq))
          (field (str "recorded_at_ns") (int (pos e.recorded_at_ns)) end))))

abbrev pub record_of : JournalEvent → Value
record_of e = dict (record_fields e)

abbrev pub header_fields : Fields
header_fields =
    field (str "format") (str "remote-robot-run-journal") (field (str "version") (int (pos 2)) end)

abbrev pub header : Value
header = dict header_fields

abbrev pub magic : List ℕ
magic = b'R' ∷ b'R' ∷ b'J' ∷ b'2' ∷ []

-- `_frame`
unfoldable pub frame : Codec → Value → Result (List ℕ)
frame c v = elim (c.dumps v) [
  | none ↦ raise value_error
  | some payload ↦
      if eqb (length payload) 0 || ltb max_frame_bytes (length payload)
      then raise value_error
      else ok (pack (length payload) ++ (c.sha256 payload ++ payload))
]

-- `_decode_frame` from the decoded payload on: a map, in canonical form.
unfoldable pub check_canonical : Codec → List ℕ → Value → Result Fields
check_canonical c payload (dict fs) = elim (c.dumps (dict fs)) [
  | none ↦ raise corruption
  | some again ↦ if same_bytes again payload then ok fs else raise corruption
]
check_canonical c payload _ = raise corruption

unfoldable pub decode_payload : Codec → List ℕ → Result Fields
unfolding check_canonical
decode_payload c payload = elim (c.loads payload) [
  | none ↦ raise corruption
  | some v ↦ check_canonical c payload v
]

-- `_decode_frame`: `none` at the end of the file, else the map and the bytes that are left
unfoldable pub decode_frame : Codec → List ℕ → Result (Option (Fields × List ℕ))
unfolding decode_payload same_bytes
decode_frame c [] = ok none
decode_frame c (b ∷ bs) = do
  let size_bytes = take 4 (b ∷ bs)
  require (eqb (length size_bytes) 4) corruption
  let size = unpack size_bytes
  require (not (eqb size 0 || ltb max_frame_bytes size)) corruption
  let checksum = take 32 (drop 4 (b ∷ bs))
  require (eqb (length checksum) 32) corruption
  let payload = take size (drop 36 (b ∷ bs))
  require (eqb (length payload) size) corruption
  require (same_bytes (c.sha256 payload) checksum) corruption
  value ← decode_payload c payload
  ok (some (value, drop (36 + size) (b ∷ bs)))
