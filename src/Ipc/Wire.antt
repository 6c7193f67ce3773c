-- ===== src/Ipc/Wire.antt =====
-- remote_robot/ipc.py, `validate_wire_message`: the envelopes of the worker protocol.
use remote_robot.Prelude.{
  suc, zero, pos, String, Bool, true, false, not, ◌&&◌, Option, some, List, [], ◌∷◌, ◌++◌, ◌==◌,
  string_eq, subset, if◌then◌else◌,
}
use remote_robot.Value.{
  Value, Items, Fields, bool, int, str, list, dict, nil, cons, get, keys, text_keys,
}
use remote_robot.Ipc.{Result, ok, raise, ◌>>◌, require, schema, validate_value}

-- `_expect_exact_keys`
unfoldable pub expect_exact_keys : Fields → List String → Result (Unit {0})
expect_exact_keys message required = do
  require (subset required (text_keys (keys message))) schema
  require (subset (text_keys (keys message)) required) schema

-- `_expect_int`, with the least value 1
unfoldable pub is_positive : Option Value → Bool
is_positive (some (int (pos (suc n)))) = true
is_positive _ = false

-- the two tests on `version`
unfoldable pub is_version : Option Value → Bool
is_version (some (int (pos (suc zero)))) = true
is_version _ = false

unfoldable pub is_text : Option Value → Bool
is_text (some (str s)) = true
is_text _ = false

-- a text that is not empty
unfoldable pub is_name : Option Value → Bool
is_name (some (str s)) = not (s == "")
is_name _ = false

unfoldable pub is_dict : Option Value → Bool
is_dict (some (dict fs)) = true
is_dict _ = false

unfoldable pub are_texts : Items → Bool
are_texts nil = true
are_texts (cons (str s) xs) = are_texts xs
are_texts (cons _ xs) = false

unfoldable pub is_texts : Option Value → Bool
unfolding are_texts
is_texts (some (list xs)) = are_texts xs
is_texts _ = false

-- a dict with exactly a code and a message, both texts
unfoldable pub is_error : Option Value → Bool
unfolding is_text
is_error (some (dict fs)) =
    subset ("code" ∷ "message" ∷ []) (text_keys (keys fs))
    && subset (text_keys (keys fs)) ("code" ∷ "message" ∷ [])
    && is_text (get "code" fs)
    && is_text (get "message" fs)
is_error _ = false

unfoldable pub is_protocol : Option Value → Bool
is_protocol (some (str s)) = s == "remote-robot-worker"
is_protocol _ = false

unfoldable pub check_hello : Fields → Result (Unit {0})
unfolding expect_exact_keys is_protocol is_version is_name is_texts
check_hello m = do
  expect_exact_keys m ("kind" ∷ "protocol" ∷ "version" ∷ "adapter" ∷ "capabilities" ∷ [])
  require (is_protocol (get "protocol" m)) schema
  require (is_version (get "version" m)) schema
  require (is_name (get "adapter" m)) schema
  require (is_texts (get "capabilities" m)) schema

unfoldable pub check_request : Fields → Result (Unit {0})
unfolding expect_exact_keys is_positive is_name is_dict
check_request m = do
  expect_exact_keys m ("kind" ∷ "version" ∷ "request_id" ∷ "method" ∷ "params" ∷ [])
  require (is_positive (get "request_id" m)) schema
  require (is_name (get "method" m)) schema
  require (is_dict (get "params" m)) schema

abbrev pub response_keys : List String
response_keys = "kind" ∷ "version" ∷ "request_id" ∷ "ok" ∷ []

-- The two kinds of response, by the entry `ok`.
unfoldable pub check_outcome : Option Value → Fields → Result (Unit {0})
unfolding expect_exact_keys is_dict is_error
check_outcome (some (bool true)) m = do
  expect_exact_keys m (response_keys ++ "result" ∷ [])
  require (is_dict (get "result" m)) schema
check_outcome (some (bool false)) m = do
  expect_exact_keys m (response_keys ++ "error" ∷ [])
  require (is_error (get "error" m)) schema
check_outcome _ m = raise schema

unfoldable pub check_response : Fields → Result (Unit {0})
unfolding check_outcome is_positive
check_response m = do
  check_outcome (get "ok" m) m
  require (is_positive (get "request_id" m)) schema

unfoldable pub check_event : Fields → Result (Unit {0})
unfolding expect_exact_keys is_dict
check_event m = do
  expect_exact_keys m ("kind" ∷ "version" ∷ "event" ∷ [])
  require (is_dict (get "event" m)) schema

-- The kinds but `hello`, behind the check of the version.
unfoldable pub check_kind : String → Fields → Result (Unit {0})
unfolding check_request check_response check_event
check_kind kind m =
    if kind == "request"
    then check_request m
    else (if kind == "response"
        then check_response m
        else (if kind == "event" then check_event m else raise schema))

unfoldable pub check_envelope : Option Value → Fields → Result (Unit {0})
unfolding check_hello check_kind is_version
check_envelope (some (str kind)) m =
    if kind == "hello"
    then check_hello m
    else (do require (is_version (get "version" m)) schema; check_kind kind m)
check_envelope _ m = raise schema

-- `validate_wire_message`
unfoldable pub validate_wire_message : Fields → Result Fields
unfolding check_envelope
validate_wire_message m = do validate_value (dict m) 0; check_envelope (get "kind" m) m; ok m
