-- ===== src/Ipc/Envelopes.antt =====
-- remote_robot/ipc.py: what a message holds that `validate_wire_message` accepts.
use remote_robot.Prelude.{
  ℕ, suc, pos, String, true, false, ◌≡◌, ◌≢◌, ◌⊎◌, refl, arith, Option, some, [], ◌∷◌, ◌++◌, ==_iff,
  string_eq, subset, inl, inr,
}
use remote_robot.Value.{Value, Fields, bool, int, str, dict, get, keys, text_keys}
use remote_robot.Ipc.{ok}
use remote_robot.Ipc.Wire.{
  expect_exact_keys, is_positive, is_version, is_name, is_dict, is_error, check_request,
  check_response, check_outcome, check_kind, check_envelope, response_keys, validate_wire_message,
}

positive_value :
    (v : Option Value) → is_positive v ≡ true → (n : ℕ) × (v ≡ some (int (pos (suc n))))
unfolding is_positive
positive_value (some (int (pos (suc n)))) h = (n, refl)
positive_value _ h = absurd (ground arith)

name_value : (v : Option Value) → is_name v ≡ true → (s : String) × (v ≡ some (str s)) × (s ≢ "")
unfolding is_name
name_value (some (str s)) h = (s, refl, ground (arith, h, ==_iff s ""))
name_value _ h = absurd (ground arith)

dict_value : (v : Option Value) → is_dict v ≡ true → (fs : Fields) × (v ≡ some (dict fs))
unfolding is_dict
dict_value (some (dict fs)) h = (fs, refl)
dict_value _ h = absurd (ground arith)

-- The checks of an accepted request.
request_checked :
    (m : Fields)
    → check_request m ≡ ok tt
    → (is_positive (get "request_id" m) ≡ true)
      × (is_name (get "method" m) ≡ true)
      × (is_dict (get "params" m) ≡ true)
unfolding check_request expect_exact_keys
request_checked m h = ground (arith, h)

accepted :
    (m r : Fields) (kind : String)
    → validate_wire_message m ≡ ok r
    → get "kind" m ≡ some (str kind)
    → (r ≡ m) × (check_envelope (some (str kind)) m ≡ ok tt)
unfolding validate_wire_message
accepted m r kind h k = ground (arith, h, k)

-- An accepted request is passed on as it is: version 1, a request id of at least 1, a method that is
-- not empty, and a dict of parameters.
pub validate_wire_message-request :
    (m r : Fields)
    → validate_wire_message m ≡ ok r
    → get "kind" m ≡ some (str "request")
    → (r ≡ m)
      × (is_version (get "version" m) ≡ true)
      × ((n : ℕ) × (get "request_id" m ≡ some (int (pos (suc n)))))
      × ((s : String) × (get "method" m ≡ some (str s)) × (s ≢ ""))
      × ((fs : Fields) × (get "params" m ≡ some (dict fs)))
unfolding check_envelope check_kind
validate_wire_message-request m r h k =
    let (same, checked) = accepted m r "request" h k in
    let (version, request) : (is_version (get "version" m) ≡ true) × (check_request m ≡ ok tt) =
      ground (arith, checked) in
    let (id, method, params) = request_checked m request in
    (same, version, positive_value _ id, name_value _ method, dict_value _ params)

response_checked :
    (m : Fields)
    → check_response m ≡ ok tt
    → (check_outcome (get "ok" m) m ≡ ok tt) × (is_positive (get "request_id" m) ≡ true)
unfolding check_response
response_checked m h = ground (arith, h)

-- A response holds a result and nothing of an error, or an error and nothing of a result.
outcome :
    (v : Option Value) (m : Fields)
    → check_outcome v m ≡ ok tt
    → ((v ≡ some (bool true))
        × ((fs : Fields) × (get "result" m ≡ some (dict fs)))
        × (subset (text_keys (keys m)) (response_keys ++ "result" ∷ []) ≡ true))
      ⊎ ((v ≡ some (bool false))
          × (is_error (get "error" m) ≡ true)
          × (subset (text_keys (keys m)) (response_keys ++ "error" ∷ []) ≡ true))
unfolding check_outcome expect_exact_keys
outcome (some (bool true)) m h =
    let (is_result, only) : (is_dict (get "result" m) ≡ true)
        × (subset (text_keys (keys m)) (response_keys ++ "result" ∷ []) ≡ true) =
      ground (arith, h) in
    inl (refl, dict_value _ is_result, only)
outcome (some (bool false)) m h =
    let (is_failure, only) : (is_error (get "error" m) ≡ true)
        × (subset (text_keys (keys m)) (response_keys ++ "error" ∷ []) ≡ true) =
      ground (arith, h) in
    inr (refl, is_failure, only)
outcome _ m h = absurd (ground arith)

-- An accepted response has version 1 and a request id of at least 1, and either its `ok` is true and
-- it holds a dict as result, and no error, or its `ok` is false and it holds an error of a code and a
-- message, and no result.
pub validate_wire_message-response :
    (m r : Fields)
    → validate_wire_message m ≡ ok r
    → get "kind" m ≡ some (str "response")
    → (is_version (get "version" m) ≡ true)
      × ((n : ℕ) × (get "request_id" m ≡ some (int (pos (suc n)))))
      × (((get "ok" m ≡ some (bool true))
            × ((fs : Fields) × (get "result" m ≡ some (dict fs)))
            × (subset (text_keys (keys m)) (response_keys ++ "result" ∷ []) ≡ true))
          ⊎ ((get "ok" m ≡ some (bool false))
              × (is_error (get "error" m) ≡ true)
              × (subset (text_keys (keys m)) (response_keys ++ "error" ∷ []) ≡ true)))
unfolding check_envelope check_kind
validate_wire_message-response m r h k =
    let (same, checked) = accepted m r "response" h k in
    let (version, response) : (is_version (get "version" m) ≡ true) × (check_response m ≡ ok tt) =
      ground (arith, checked) in
    let (held, id) = response_checked m response in
    (version, positive_value _ id, outcome (get "ok" m) m held)
