-- ===== src/Ipc/Tests.antt =====
-- Frames and values of remote_robot/ipc.py, and its theorems at concrete inputs.
use remote_robot.Prelude.{
  ◌≡◌, ◌≢◌, ◌⊎◌, ◌↔◌, ◌≤◌, ◌+◌, ℕ, suc, String, refl, true, false, none, some, [], ◌∷◌, ◌++◌, pos,
  arith, ◌^◌, string_eq, subset, contains,
}
use remote_robot.Bytes.{pack, unpack, same_bytes}
use remote_robot.Value.{
  Value, Fields, bool, int, str, list, dict, nil, cons, end, field, null, is_finite, get, keys,
  text_keys,
}
use remote_robot.Ipc.Wire.{
  validate_wire_message, check_envelope, check_kind, check_request, check_response, check_outcome,
  expect_exact_keys, is_positive, is_version, is_name, is_dict, is_error, response_keys,
}
use remote_robot.Ipc.Envelopes.{validate_wire_message-request, validate_wire_message-response}
use remote_robot.Ipc.{
  Cbor, ok, raise, truncated_frame, frame_too_large, schema, value_error, validate_value,
  canonical_payload, encode_frame, check_message, decode_payload, decode_frame, read_frame,
  data_copy, is_int64,
}
use remote_robot.Ipc.Frames.{decode_frame-encode_frame, read_frame-encode_frame, decode_frame_cut}
use remote_robot.Ipc.Depth.{depth, is_plain, validate_value_iff}

-- A codec for one message, the empty one.
abbrev toy : Cbor
toy = record { dumps = λ _. 1 ∷ []; loads = λ _. some (dict end) }

abbrev nested : Value
nested = list (cons (dict (field (str "a") (int (pos 7)) end)) (cons null nil))

program : Unit {0}
unfolding canonical_payload encode_frame check_message decode_payload decode_frame read_frame
    data_copy validate_value is_int64 pack unpack same_bytes is_finite depth is_plain
program = tt

frame_bytes : encode_frame toy end 10 ≡ ok (0 ∷ 0 ∷ 0 ∷ 1 ∷ 1 ∷ [])
unfolding program
frame_bytes = refl

no_room : encode_frame toy end 0 ≡ raise value_error
unfolding program
no_room = refl

clean_end : read_frame toy [] 10 true ≡ ok none
unfolding program
clean_end = refl

trailing : decode_frame toy (0 ∷ 0 ∷ 0 ∷ 1 ∷ 1 ∷ 9 ∷ []) 10 ≡ raise schema
unfolding program
trailing = refl

too_large : decode_frame toy (0 ∷ 0 ∷ 1 ∷ 0 ∷ 1 ∷ []) 10 ≡ raise frame_too_large
unfolding program
too_large = refl

big_int : validate_value (int (pos (2 ^ 63))) 0 ≡ raise schema
unfolding program
big_int = refl

decode_frame-encode_frame_example : decode_frame toy (0 ∷ 0 ∷ 0 ∷ 1 ∷ 1 ∷ []) 10 ≡ ok end
decode_frame-encode_frame_example =
    decode_frame-encode_frame toy end 10 (0 ∷ 0 ∷ 0 ∷ 1 ∷ 1 ∷ []) frame_bytes refl

read_frame-encode_frame_example :
    read_frame toy (0 ∷ 0 ∷ 0 ∷ 1 ∷ 1 ∷ 8 ∷ 9 ∷ []) 10 true ≡ ok (some (end, 8 ∷ 9 ∷ []))
read_frame-encode_frame_example =
    read_frame-encode_frame toy end 10 (0 ∷ 0 ∷ 0 ∷ 1 ∷ 1 ∷ []) frame_bytes (8 ∷ 9 ∷ []) true refl

decode_frame_cut_example : decode_frame toy (0 ∷ 0 ∷ 0 ∷ 1 ∷ []) 10 ≡ raise truncated_frame
decode_frame_cut_example =
    decode_frame_cut toy end 10 (0 ∷ 0 ∷ 0 ∷ 1 ∷ 1 ∷ []) frame_bytes 4 (omega arith)

end_valid : validate_value (dict end) 0 ≡ ok tt
unfolding program
end_valid = refl

validate_value_iff_example :
    (validate_value nested 30 ≡ ok tt) ↔ ((30 + depth nested ≤ 32) × (is_plain nested ≡ true))
validate_value_iff_example = validate_value_iff nested 30

abbrev request_message : Fields
request_message = field (str "kind") (str "request") (
    field (str "method") (str "stop") (
      field (str "params") (dict end)
        (field (str "version") (int (pos 1)) (field (str "request_id") (int (pos 3)) end))))

abbrev response_message : Fields
response_message = field (str "ok") (bool true) (
    field (str "kind") (str "response") (
      field (str "result") (dict end)
        (field (str "version") (int (pos 1)) (field (str "request_id") (int (pos 3)) end))))

wire : Unit {0}
unfolding program validate_wire_message check_envelope check_kind check_request check_response
    check_outcome expect_exact_keys is_positive is_version is_name is_dict get keys text_keys subset
    contains
wire = tt

request_accepted : validate_wire_message request_message ≡ ok request_message
unfolding wire
request_accepted = refl

request_kind : get "kind" request_message ≡ some (str "request")
unfolding wire
request_kind = refl

response_accepted : validate_wire_message response_message ≡ ok response_message
unfolding wire
response_accepted = refl

response_kind : get "kind" response_message ≡ some (str "response")
unfolding wire
response_kind = refl

-- A request id of 0 is refused.
zeroth :
    validate_wire_message (
      field (str "kind") (str "request") (
        field (str "method") (str "stop") (
          field
            (str "params")
            (dict end)
            (field (str "version") (int (pos 1)) (field (str "request_id") (int (pos 0)) end)))))
    ≡ raise schema
unfolding wire
zeroth = refl

validate_wire_message-request_example :
    (request_message ≡ request_message)
    × (is_version (get "version" request_message) ≡ true)
    × ((n : ℕ) × (get "request_id" request_message ≡ some (int (pos (suc n)))))
    × ((s : String) × (get "method" request_message ≡ some (str s)) × (s ≢ ""))
    × ((fs : Fields) × (get "params" request_message ≡ some (dict fs)))
validate_wire_message-request_example =
    validate_wire_message-request request_message request_message request_accepted request_kind

validate_wire_message-response_example :
    (is_version (get "version" response_message) ≡ true)
    × ((n : ℕ) × (get "request_id" response_message ≡ some (int (pos (suc n)))))
    × (((get "ok" response_message ≡ some (bool true))
          × ((fs : Fields) × (get "result" response_message ≡ some (dict fs)))
          × (subset (text_keys (keys response_message)) (response_keys ++ "result" ∷ []) ≡ true))
        ⊎ ((get "ok" response_message ≡ some (bool false))
            × (is_error (get "error" response_message) ≡ true)
            × (subset (text_keys (keys response_message)) (response_keys ++ "error" ∷ []) ≡ true)))
validate_wire_message-response_example =
    validate_wire_message-response response_message response_message response_accepted response_kind
