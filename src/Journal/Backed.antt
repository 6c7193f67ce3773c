-- ===== src/Journal/Backed.antt =====
-- remote_robot/journal.py: the file holds what the journal holds, so that a restart reads it back.
use remote_robot.Prelude.{
  ℕ, ◌+◌, ◌≤◌, ◌<◌, ◌≡◌, refl, some, List, ◌++◌, string_eq, length, take, drop, take_append,
  drop_append, drop-drop, arith, sym, ap, ◌∙◌, inl, inr, Option-cases,
}
use mathlib.Core.List.{append_assoc}
use remote_robot.Bytes.{pack, unpack, same_bytes_refl, unpack-pack}
use remote_robot.Value.{Fields, dict}
use remote_robot.Journal.Data.{Codec, ok}
use remote_robot.Journal.Frame.{frame, decode_frame, decode_payload, check_canonical}

-- The codec reads the map `fs` back from its bytes, and the checksum of those has 32 bytes: what
-- CBOR and SHA-256 promise of one record.
pub record Reads (c : Codec) (fs : Fields) : Type 0 where
  pub loads-dumps :
      (payload : List ℕ) → c.dumps (dict fs) ≡ some payload → c.loads payload ≡ some (dict fs)
  pub length-sha256 :
      (payload : List ℕ) → c.dumps (dict fs) ≡ some payload → length (c.sha256 payload) ≡ 32

module _ (c : Codec) (fs : Fields) (reads : Reads c fs) where
  decode_payload-dumps :
      (payload : List ℕ) → c.dumps (dict fs) ≡ some payload → decode_payload c payload ≡ ok fs
  unfolding decode_payload
  decode_payload-dumps payload h =
      rw (reads.loads-dumps payload h, decode_payload)
        (rw (h, check_canonical) (rw (same_bytes_refl payload)))

  frame-dumps :
      (bs : List ℕ)
      → frame c (dict fs) ≡ ok bs
      → (payload : List ℕ) × (c.dumps (dict fs) ≡ some payload)
        × (0 < length payload)
        × (length payload ≤ 16777216)
        × (bs ≡ pack (length payload) ++ (c.sha256 payload ++ payload))
  unfolding frame
  frame-dumps bs h = elim (Option-cases (c.dumps (dict fs))) [
    | inl e ↦ absurd (ground (arith, e))
    | inr (payload, e) ↦ (payload, e, ground (arith, e), ground (arith, e), ground (arith, e))
  ]

  decode_frame-packed :
      (payload rest : List ℕ)
      → c.dumps (dict fs) ≡ some payload
      → 0 < length payload
      → length payload ≤ 16777216
      → decode_frame c (pack (length payload) ++ (c.sha256 payload ++ (payload ++ rest)))
        ≡ ok (some (fs, rest))
  unfolding decode_frame pack
  decode_frame-packed payload rest h pos' fits =
      let whole = pack (length payload) ++ (c.sha256 payload ++ (payload ++ rest)) in
      let size : unpack (pack (length payload)) ≡ length payload =
        unpack-pack (length payload) (omega arith) in
      let sum : take 32 (c.sha256 payload ++ (payload ++ rest)) ≡ c.sha256 payload =
        take_append 32 (c.sha256 payload) (payload ++ rest) (reads.length-sha256 payload h) in
      let past : drop 36 whole ≡ payload ++ rest =
        drop_append 32 (c.sha256 payload) (payload ++ rest) (reads.length-sha256 payload h) in
      let body : take (length payload) (payload ++ rest) ≡ payload =
        take_append (length payload) payload rest refl in
      let left : drop (36 + length payload) whole ≡ rest =
        sym (drop-drop 36 (length payload) whole)
        ∙ (ap (drop (length payload)) past ∙ drop_append (length payload) payload rest refl) in
      rw (size, sum, past, body, left, decode_payload-dumps payload h)
        (ground
          (arith, pos', fits, reads.length-sha256 payload h, same_bytes_refl (c.sha256 payload)))

  -- A frame at the head of a file is decoded to its map and the bytes behind it.
  pub decode_frame-frame :
      (bs rest : List ℕ)
      → frame c (dict fs) ≡ ok bs
      → decode_frame c (bs ++ rest) ≡ ok (some (fs, rest))
  decode_frame-frame bs rest h =
      let (payload, dumped, pos', fits, eq) = frame-dumps bs h in
      rw (eq, append_assoc, append_assoc) (decode_frame-packed payload rest dumped pos' fits)

  pub frame-ne-nil : (bs : List ℕ) → frame c (dict fs) ≡ ok bs → 0 < length bs
  unfolding pack
  frame-ne-nil bs h =
      let (payload, dumped, pos', fits, eq) = frame-dumps bs h in rw eq (omega arith)
