-- ===== src/Ipc/Frames.antt =====
-- remote_robot/ipc.py: frames are read back as they were written, and cut frames are noticed.
use remote_robot.Prelude.{
  ℕ, zero, suc, length-take, ◌+◌, ◌≤◌, ◌<◌, ◌≡◌, refl, Bool, some, List, ◌++◌, length,
  length-append, take, drop, take_append, drop_append, drop-drop, arith, ap, sym, ◌∙◌,
}
use remote_robot.Bytes.{pack, unpack, same_bytes_refl, unpack-pack}
use remote_robot.Value.{Fields, dict}
use remote_robot.Ipc.{
  Cbor, ok, raise, truncated_frame, validate_value, canonical_payload, encode_frame, check_message,
  decode_payload, decode_frame, read_frame, data_copy,
}

-- The first `k` bytes of a frame of `n` payload bytes.
cut :
    (c : Cbor) (p : List ℕ) (limit k : ℕ)
    → unpack (pack (length p)) ≡ length p
    → length p ≤ limit
    → k < 4 + length p
    → decode_frame c (take k (pack (length p) ++ p)) limit ≡ raise truncated_frame
unfolding decode_frame pack
cut c p limit zero size fits l = refl
cut c p limit (suc zero) size fits l = refl
cut c p limit (suc (suc zero)) size fits l = refl
cut c p limit (suc (suc (suc zero))) size fits l = refl
cut c p limit (suc (suc (suc (suc k)))) size fits l =
    rw size (ground (arith, fits, length-take k p))

-- What an encoded frame is made of.
module _ (c : Cbor) (m : Fields) (limit : ℕ) (bs : List ℕ)
    (h : encode_frame c m limit ≡ ok bs) where
  encode_frame_parts :
      (bs ≡ pack (length (c.dumps (dict m))) ++ c.dumps (dict m))
      × (validate_value (dict m) 0 ≡ ok tt)
      × (0 < length (c.dumps (dict m)))
      × (length (c.dumps (dict m)) ≤ limit)
      × (limit < 4294967296)
  unfolding encode_frame canonical_payload
  encode_frame_parts = ground arith

  decode_payload-dumps :
      c.loads (c.dumps (dict m)) ≡ some (dict m) → decode_payload c (c.dumps (dict m)) limit ≡ ok m
  unfolding decode_payload check_message
  decode_payload-dumps loads =
      let (_, valid, some_bytes, fits, _) = encode_frame_parts in
      rw loads (ground (arith, valid, some_bytes, fits, same_bytes_refl (c.dumps (dict m))))

  -- A frame decodes to the message that it encodes, with the same limit. The codec reads the
  -- message back from its own bytes.
  pub decode_frame-encode_frame :
      c.loads (c.dumps (dict m)) ≡ some (dict m) → decode_frame c bs limit ≡ ok m
  unfolding decode_frame pack
  decode_frame-encode_frame loads =
      let (eq, _, _, fits, small) = encode_frame_parts in
      let size : unpack (pack (length (c.dumps (dict m)))) ≡ length (c.dumps (dict m)) =
        unpack-pack (length (c.dumps (dict m))) (omega arith) in
      rw (eq, size) (ground (arith, fits, decode_payload-dumps loads))

  -- A frame at the head of a stream is read as the message that it encodes, and the bytes behind it
  -- are left. The codec reads the message back from its own bytes.
  pub read_frame-encode_frame :
      (rest : List ℕ) (allow_eof : Bool)
      → c.loads (c.dumps (dict m)) ≡ some (dict m)
      → read_frame c (bs ++ rest) limit allow_eof ≡ ok (some (m, rest))
  unfolding read_frame pack
  read_frame-encode_frame rest allow_eof loads =
      let p = c.dumps (dict m) in
      let (eq, _, _, fits, small) = encode_frame_parts in
      let size : unpack (pack (length p)) ≡ length p = unpack-pack (length p) (omega arith) in
      let body : take (length p) (p ++ rest) ≡ p = take_append (length p) p rest refl in
      let left : drop (4 + length p) (pack (length p) ++ (p ++ rest)) ≡ rest =
        sym (drop-drop 4 (length p) (pack (length p) ++ (p ++ rest)))
        ∙ drop_append (length p) p rest refl in
      rw (eq, size, body, left, decode_payload-dumps loads)
        (ground (arith, fits, length-append p rest))

  -- A frame cut anywhere is refused as truncated.
  pub decode_frame_cut :
      (k : ℕ) → k < length bs → decode_frame c (take k bs) limit ≡ raise truncated_frame
  unfolding pack
  decode_frame_cut k l =
      let (eq, _, _, fits, small) = encode_frame_parts in
      rw eq (
        cut c (c.dumps (dict m)) limit k (unpack-pack (length (c.dumps (dict m))) (omega arith))
          fits (omega (arith, ap length eq)))

-- A message that passes the checks is its own copy, unless its frame is too large for one.
data_copy_lem :
    (c : Cbor) (m : Fields)
    → validate_value (dict m) 0 ≡ ok tt
    → c.loads (c.dumps (dict m)) ≡ some (dict m)
    → 0 < length (c.dumps (dict m))
    → length (c.dumps (dict m)) ≤ 4194304
    → data_copy c m ≡ ok m
unfolding data_copy canonical_payload decode_payload check_message
data_copy_lem c m valid loads some_bytes fits =
    rw (valid, loads) (ground (arith, valid, some_bytes, fits, same_bytes_refl (c.dumps (dict m))))
