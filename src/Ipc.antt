-- ===== src/Ipc.antt =====
-- remote_robot/ipc.py: messages between the server and a worker as length-prefixed canonical CBOR.
-- The library's CBOR coding is the argument `Cbor`. A stream is the bytes that come before its end.
pub mod Frames
pub mod Depth
pub mod Wire
pub mod Envelopes
mod Tests
use remote_robot.Prelude.{
  ℕ, ℤ, pos, negsuc, ◌+◌, ◌*◌, ◌^◌, String, Bool, true, false, not, ◌||◌, Option, none, some, List,
  [], ◌∷◌, ◌++◌, if◌then◌else◌, length, take, drop, ltb, leb, eqb,
}
use remote_robot.Bytes.{same_bytes, pack, unpack}
use remote_robot.Value.{
  Value, Items, Fields, null, bool, int, float, str, bytes, list, dict, other, nil, cons, end,
  field, is_finite,
}

-- `cbor2.dumps(…, canonical=True)`, of data that passed `validate_value`, and `cbor2.loads`, with
-- `none` where it raises
pub record Cbor : Type 0 where
  pub dumps : Value → List ℕ
  pub loads : List ℕ → Option Value

pub data IpcError : Type 0 where
  frame_too_large truncated_frame schema non_canonical value_error : IpcError

pub data Result {ℓ} (A : Type ℓ) : Type ℓ where
  ok : A → Result A
  raise : IpcError → Result A

infixl 5 ◌>>=◌ ◌>>◌
abbrev pub ◌>>=◌ {κ ℓ} : {X : Type κ} {Y : Type ℓ} → Result X → (X → Result Y) → Result Y
raise e >>= next = raise e
ok x >>= next = next x

abbrev pub ◌>>◌ {ℓ} : {Y : Type ℓ} → Result (Unit {0}) → Result Y → Result Y
checked >> next = checked >>= λ _. next

abbrev pub require : Bool → IpcError → Result (Unit {0})
require true e = ok tt
require false e = raise e

abbrev pub max_value_depth : ℕ
max_value_depth = 32

-- `-(2**63) <= value < 2**63`
unfoldable pub is_int64 : ℤ → Bool
is_int64 (pos n) = ltb n (2 ^ 63)
is_int64 (negsuc n) = ltb n (2 ^ 63)

-- `_validate_value`
unfoldable mutual
  pub validate_value : Value → ℕ → Result (Unit {0})
  validate_value null depth = require (leb depth max_value_depth) schema
  validate_value (str s) depth = require (leb depth max_value_depth) schema
  validate_value (bytes b) depth = require (leb depth max_value_depth) schema
  validate_value (bool b) depth = require (leb depth max_value_depth) schema
  validate_value (int n) depth =
      require (leb depth max_value_depth) schema >> require (is_int64 n) schema
  validate_value (float bits) depth =
      require (leb depth max_value_depth) schema >> require (is_finite bits) schema
  validate_value (other type_name) depth =
      require (leb depth max_value_depth) schema >> raise schema
  validate_value (list xs) depth =
      require (leb depth max_value_depth) schema >> validate_items xs (depth + 1)
  validate_value (dict fs) depth =
      require (leb depth max_value_depth) schema >> validate_fields fs (depth + 1)

  pub validate_items : Items → ℕ → Result (Unit {0})
  validate_items nil depth = ok tt
  validate_items (cons x xs) depth = validate_value x depth >> validate_items xs depth

  pub validate_fields : Fields → ℕ → Result (Unit {0})
  validate_fields end depth = ok tt
  validate_fields (field (str k) v fs) depth = validate_value v depth >> validate_fields fs depth
  validate_fields (field _ v fs) depth = raise schema

-- `canonical_payload`
unfoldable pub canonical_payload : Cbor → Fields → Result (List ℕ)
canonical_payload c message = do validate_value (dict message) 0; ok (c.dumps (dict message))

-- `encode_frame`
unfoldable pub encode_frame : Cbor → Fields → ℕ → Result (List ℕ)
encode_frame c message max_frame_bytes = do
  require (not (eqb max_frame_bytes 0 || ltb 0xFFFFFFFF max_frame_bytes)) value_error
  payload ← canonical_payload c message
  require (not (eqb (length payload) 0)) schema
  require (leb (length payload) max_frame_bytes) frame_too_large
  ok (pack (length payload) ++ payload)

-- `decode_payload`, once the CBOR is decoded
unfoldable pub check_message : Cbor → List ℕ → Option Value → Result Fields
check_message c payload (some (dict fs)) = do
  validate_value (dict fs) 0
  require (same_bytes (c.dumps (dict fs)) payload) non_canonical
  ok fs
check_message c payload _ = raise schema

-- `decode_payload`
unfoldable pub decode_payload : Cbor → List ℕ → ℕ → Result Fields
decode_payload c payload max_frame_bytes = do
  require (not (eqb (length payload) 0)) schema
  require (leb (length payload) max_frame_bytes) frame_too_large
  check_message c payload (c.loads payload)

-- `decode_frame`
unfoldable pub decode_frame : Cbor → List ℕ → ℕ → Result Fields
decode_frame c frame max_frame_bytes = do
  require (leb 4 (length frame)) truncated_frame
  let size = unpack (take 4 frame)
  require (leb size max_frame_bytes) frame_too_large
  require (leb (4 + size) (length frame)) truncated_frame
  require (leb (length frame) (4 + size)) schema
  decode_payload c (drop 4 frame) max_frame_bytes

-- `read_frame`: `none` at a clean end of the stream, else the message and the bytes behind it
unfoldable pub read_frame : Cbor → List ℕ → ℕ → Bool → Result (Option (Fields × List ℕ))
read_frame c [] max_frame_bytes allow_eof = if allow_eof then ok none else raise truncated_frame
read_frame c (b ∷ bs) max_frame_bytes allow_eof = do
  let stream = b ∷ bs
  require (leb 4 (length stream)) truncated_frame
  let size = unpack (take 4 stream)
  require (leb size max_frame_bytes) frame_too_large
  require (leb (4 + size) (length stream)) truncated_frame
  message ← decode_payload c (take size (drop 4 stream)) max_frame_bytes
  ok (some (message, drop (4 + size) stream))

-- `_data_copy` of worker.py: through canonical CBOR and back
unfoldable pub data_copy : Cbor → Fields → Result Fields
data_copy c value = do
  payload ← canonical_payload c value
  decode_payload c payload (4 * 1024 * 1024)
