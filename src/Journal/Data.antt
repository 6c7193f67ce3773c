-- ===== src/Journal/Data.antt =====
-- remote_robot/journal.py: events, exceptions, and what an event may hold.
use Prim.Native.Char.{code}
use remote_robot.Prelude.{
  ◌≡◌, refl, ℕ, String, Bool, true, false, Option, List, [], ◌∷◌, ◌==◌, string_eq, eqb, contains,
  if◌then◌else◌, ◌||◌, not,
}
use remote_robot.Text.{is_canonical}
use remote_robot.Value.{
  Value, Items, Fields, null, bool, int, float, str, bytes, list, dict, other, nil, cons, end,
  field, is_finite, text_keys, keys,
}

-- What the module calls of other packages. `dumps` is `cbor2.dumps(…, canonical=True)`, with
-- `none` where it raises; `loads` is `cbor2.loads`.
pub record Codec : Type 0 where
  pub dumps : Value → Option (List ℕ)
  pub loads : List ℕ → Option Value
  pub sha256 : List ℕ → List ℕ
  pub casefold : String → String

pub record JournalEvent : Type 0 where
  pub run_id : String
  pub event_seq : ℕ
  pub recorded_at_ns : ℕ
  pub event : Fields

pub data JournalError : Type 0 where
  type_error value_error secret_data corruption read_only : JournalError
  -- `OSError`
  os_error : JournalError
  -- not an exception of the source: the loop of `load` ran out of fuel
  out_of_fuel : JournalError

-- What the write, flush and fsync of a frame come to. If one of them raises, so many bytes of the
-- frame are in the file, at once or once the buffer of the file handle is written.
pub data Writing : Type 0 where
  succeeds : Writing
  fails : ℕ → Writing

-- What `append` meets: the clock and the file.
pub record Moment : Type 0 where
  pub time_ns : ℕ
  pub writing : Writing

pub data Result {ℓ} (A : Type ℓ) : Type ℓ where
  ok : A → Result A
  raise : JournalError → Result A

infixl 5 ◌>>=◌ ◌>>◌
abbrev pub ◌>>=◌ {κ ℓ} : {X : Type κ} {Y : Type ℓ} → Result X → (X → Result Y) → Result Y
raise e >>= next = raise e
ok x >>= next = next x

abbrev pub ◌>>◌ {ℓ} : {Y : Type ℓ} → Result (Unit {0}) → Result Y → Result Y
checked >> next = checked >>= λ _. next

-- Inversion of a successful bind.
pub >>=-eq-ok {κ ℓ} :
    {X : Type κ} {Y : Type ℓ} (first : Result X) (next : X → Result Y) {y : Y}
    → (first >>= next) ≡ ok y
    → (x : X) × (first ≡ ok x) × (next x ≡ ok y)
>>=-eq-ok (raise e) next done = cc
>>=-eq-ok (ok x) next done = (x, refl, done)

abbrev pub require : Bool → JournalError → Result (Unit {0})
require true e = ok tt
require false e = raise e

-- `_validate_run_id`
unfoldable pub check_run_id : String → Result String
check_run_id run_id = if is_canonical run_id then ok run_id else raise value_error

-- `.replace("-", "_").replace(" ", "_")`
unfoldable pub underscored : String → String
underscored String.[] = String.[]
underscored (String.◌∷◌ c s) =
    let rest = underscored s in
    if eqb (code c) b'-' || eqb (code c) b' ' then String.◌∷◌ "_" rest else String.◌∷◌ c rest

-- `s.endswith(suffix)`
unfoldable pub ends_with : String → String → Bool
ends_with suffix String.[] = suffix == ""
ends_with suffix (String.◌∷◌ c s) = String.◌∷◌ c s == suffix || ends_with suffix s

abbrev pub forbidden_keys : List String
forbidden_keys =
    "api_key" ∷ "authorization" ∷ "cookie" ∷ "credential" ∷ "credentials" ∷ "password"
    ∷ "private_key" ∷ "refresh_token" ∷ "secret" ∷ "serial_credentials" ∷ "set_cookie" ∷ "token"
    ∷ []

-- `_looks_secret`
unfoldable pub looks_secret : Codec → String → Bool
unfolding underscored
looks_secret c key =
    let normalized = underscored (c.casefold key) in
    contains forbidden_keys normalized
    || ends_with "_password" normalized
    || ends_with "_secret" normalized
    || ends_with "_credential" normalized
    || ends_with "_credentials" normalized
    || ends_with "_token" normalized

-- `_validate_plain_data`
unfoldable mutual
  pub validate_plain_data : Codec → Value → Result (Unit {0})
  validate_plain_data c null = ok tt
  validate_plain_data c (bool b) = ok tt
  validate_plain_data c (int n) = ok tt
  validate_plain_data c (str s) = ok tt
  validate_plain_data c (bytes b) = ok tt
  validate_plain_data c (float bits) = require (is_finite bits) value_error
  validate_plain_data c (other type_name) = raise type_error
  validate_plain_data c (dict fs) = validate_fields c fs
  validate_plain_data c (list xs) = validate_items c xs

  pub validate_items : Codec → Items → Result (Unit {0})
  validate_items c nil = ok tt
  validate_items c (cons x xs) = validate_plain_data c x >> validate_items c xs

  pub validate_fields : Codec → Fields → Result (Unit {0})
  validate_fields c end = ok tt
  validate_fields c (field (str k) v fs) =
      require (not (looks_secret c k)) secret_data
      >> (validate_plain_data c v >> validate_fields c fs)
  validate_fields c (field _ v fs) = raise type_error

abbrev pub reserved_keys : List String
reserved_keys = "run_id" ∷ "event_seq" ∷ "recorded_at_ns" ∷ []

unfoldable pub overlaps : List String → List String → Bool
overlaps [] ks = false
overlaps (k ∷ ks) reserved = contains reserved k || overlaps ks reserved

-- `_event_data`
unfoldable pub event_data : Codec → Value → Result Fields
unfolding overlaps
event_data c (dict fs) = do
  require (not (overlaps (text_keys (keys fs)) reserved_keys)) value_error
  validate_plain_data c (dict fs)
  ok fs
event_data c _ = raise type_error
