-- ===== src/Protocol/Codec/RoundTrip.antt =====
-- `decode` behind `encode`, and `encode` behind `decode`.
use native.Mathlib.Nat.{zero-add}
use mini_ran.Common.{
  IsU32, IsU64, drop_cons, take-drop-suc, ◌<◌, ◌∷◌, [], length-drop, All-drop, All-take, IsU8,
  take-append-drop, ◌∙◌, All, drop-drop, ap, sym, length-take, take, ◌++◌, drop, ◌≤◌, List, u32,
  ◌+◌, arith, length, ℕ, ◌≡◌,
}
use mini_ran.ByteBuffer.Words.{
  be_value, be_bytes, be_value-be_bytes_4, be_value-be_bytes_8, be_bytes-be_value_4,
  be_bytes-be_value_8,
}
use mini_ran.Protocol.Message.{
  type_of_byte-IsMessageType, byte_of_type-type_of_byte, ProtocolMessage, IsMessage, byte_of_type,
  type_of_byte,
}
use mini_ran.Protocol.Codec.{encode, decode, ok}
use mini_ran.Protocol.Codec.Layout.{
  message_of, accept, frame, encode-frame, IsBytes, field, header_of, parse, decode-parse,
}

frame-IsBytes : (m : ProtocolMessage) → IsMessage m → IsBytes (frame m)
frame-IsBytes m v = ground arith

-- A frame is the header of 28 bytes and the payload.
pub length-encode : (m : ProtocolMessage) → length (encode m) ≡ 28 + length m.payload
length-encode m = rw (encode-frame m) (omega arith)

pub encode-IsBytes : (m : ProtocolMessage) → IsMessage m → IsBytes (encode m)
encode-IsBytes m v = rw (encode-frame m) (frame-IsBytes m v)

header_of-frame : (m : ProtocolMessage) → IsMessage m → header_of (frame m) ≡ m.header
header_of-frame m v = ground (
  arith,
  be_value-be_bytes_4 m.session_id,
  be_value-be_bytes_4 m.ue_id,
  be_value-be_bytes_4 m.sequence_number,
  be_value-be_bytes_8 m.timestamp_ms,
  be_value-be_bytes_4 (u32 (length m.payload)),
  v.type_valid.canonical,
)

parse-frame : (m : ProtocolMessage) → IsMessage m → parse (frame m) ≡ ok m
unfolding accept
parse-frame m v = ground (arith, header_of-frame m v, be_value-be_bytes_4 (u32 (length m.payload)))

-- Decoding what `encode` wrote for a well-formed message gives the message back, also with a type
-- byte that no enumerator names and with any flags.
pub decode-encode : (m : ProtocolMessage) → IsMessage m → decode (encode m) ≡ ok m
decode-encode m v =
    rw (encode-frame m, decode-parse (frame m) (frame-IsBytes m v)) (parse-frame m v)

accept-ok :
    (size : ℕ) (m : ProtocolMessage) {m' : ProtocolMessage}
    → accept size m ≡ ok m'
    → (m' ≡ m) × (m.version ≡ 1) × (m.header_length ≡ 28) × (size ≡ 28 + m.payload_length)
unfolding accept
accept-ok size m e = ground arith

be_bytes-be_value_4_run :
    (xs : List ℕ) → All IsU8 xs → length xs ≡ 4 → be_bytes 4 (be_value xs) ≡ xs
be_bytes-be_value_4_run (a ∷ b ∷ c ∷ d ∷ []) h e = be_bytes-be_value_4 a b c d h
be_bytes-be_value_4_run _ h e = absurd (omega arith)

be_bytes-be_value_8_run :
    (xs : List ℕ) → All IsU8 xs → length xs ≡ 8 → be_bytes 8 (be_value xs) ≡ xs
be_bytes-be_value_8_run (a ∷ b ∷ c ∷ d ∷ e ∷ f ∷ g ∷ h ∷ []) p q =
    be_bytes-be_value_8 a b c d e f g h p
be_bytes-be_value_8_run _ h e = absurd (omega arith)

be_value-IsU8_run : (xs : List ℕ) → All IsU8 xs → length xs ≡ 1 → IsU8 (be_value xs)
be_value-IsU8_run (a ∷ []) h e = omega arith
be_value-IsU8_run _ h e = absurd (omega arith)

be_value-IsU32_run : (xs : List ℕ) → All IsU8 xs → length xs ≡ 4 → IsU32 (be_value xs)
be_value-IsU32_run (a ∷ b ∷ c ∷ d ∷ []) h e = omega arith
be_value-IsU32_run _ h e = absurd (omega arith)

be_value-IsU64_run : (xs : List ℕ) → All IsU8 xs → length xs ≡ 8 → IsU64 (be_value xs)
be_value-IsU64_run (a ∷ b ∷ c ∷ d ∷ e ∷ f ∷ g ∷ h ∷ []) p q = omega arith
be_value-IsU64_run _ h e = absurd (omega arith)

module _ (bs : List ℕ) (v : IsBytes bs) where
  -- The `n` bytes from byte `k` on, and what follows them.
  chunk : (k n : ℕ) → take n (drop k bs) ++ drop (k + n) bs ≡ drop k bs
  chunk k n = rw (← drop-drop k n bs) (take-append-drop n (drop k bs))

  run :
      (k n : ℕ)
      → k + n ≤ length bs
      → All IsU8 (take n (drop k bs)) × (length (take n (drop k bs)) ≡ n)
  run k n h = (
    All-take IsU8 n (drop k bs) (All-drop IsU8 k bs v.0),
    length-take n (drop k bs) (omega (arith, length-drop k bs)),
  )

  word_4 : (k : ℕ) → k + 4 ≤ length bs → be_bytes 4 (field k 4 bs) ++ drop (k + 4) bs ≡ drop k bs
  word_4 k h =
      let (small, size) = run k 4 h in
      ap (λ xs. xs ++ drop (k + 4) bs) (be_bytes-be_value_4_run (take 4 (drop k bs)) small size)
      ∙ chunk k 4

  word_8 : (k : ℕ) → k + 8 ≤ length bs → be_bytes 8 (field k 8 bs) ++ drop (k + 8) bs ≡ drop k bs
  word_8 k h =
      let (small, size) = run k 8 h in
      ap (λ xs. xs ++ drop (k + 8) bs) (be_bytes-be_value_8_run (take 8 (drop k bs)) small size)
      ∙ chunk k 8

  byte_1 : (k : ℕ) → k < length bs → field k 1 bs ∷ drop (k + 1) bs ≡ drop k bs
  byte_1 k h =
      rw (take-drop-suc 0 k bs 0 h)
        (ap (λ x. x ∷ drop (k + 1) bs) (zero-add _) ∙ sym (drop_cons k bs 0 h))

  byte_field-IsU8 : (k : ℕ) → k + 1 ≤ length bs → IsU8 (field k 1 bs)
  byte_field-IsU8 k h =
      let (small, size) = run k 1 h in be_value-IsU8_run (take 1 (drop k bs)) small size

  word_field-IsU32 : (k : ℕ) → k + 4 ≤ length bs → IsU32 (field k 4 bs)
  word_field-IsU32 k h =
      let (small, size) = run k 4 h in be_value-IsU32_run (take 4 (drop k bs)) small size

  long_field-IsU64 : (k : ℕ) → k + 8 ≤ length bs → IsU64 (field k 8 bs)
  long_field-IsU64 k h =
      let (small, size) = run k 8 h in be_value-IsU64_run (take 8 (drop k bs)) small size

  -- The words of the header, from the last one back, and then its first four bytes.
  frame-message_of : length bs ≡ 28 + field 24 4 bs → frame (message_of bs) ≡ bs
  frame-message_of e =
      let fits : u32 (length (drop 28 bs)) ≡ field 24 4 bs =
        omega (arith, length-drop 28 bs, word_field-IsU32 24 (omega arith)) in
      let from_24 : be_bytes 4 (u32 (length (drop 28 bs))) ++ drop 28 bs ≡ drop 24 bs =
        ap (λ n. be_bytes 4 n ++ drop 28 bs) fits ∙ word_4 24 (omega arith) in
      let from_16 = ap (λ t. be_bytes 8 (field 16 8 bs) ++ t) from_24 ∙ word_8 16 (omega arith) in
      let from_12 = ap (λ t. be_bytes 4 (field 12 4 bs) ++ t) from_16 ∙ word_4 12 (omega arith) in
      let from_8 = ap (λ t. be_bytes 4 (field 8 4 bs) ++ t) from_12 ∙ word_4 8 (omega arith) in
      let from_4 = ap (λ t. be_bytes 4 (field 4 4 bs) ++ t) from_8 ∙ word_4 4 (omega arith) in
      ap
        (λ t.
          field 0 1 bs
          ∷ byte_of_type (type_of_byte (field 1 1 bs))
          ∷ field 2 1 bs
          ∷ field 3 1 bs
          ∷ t)
        from_4
      ∙ cc (
        byte_of_type-type_of_byte (field 1 1 bs),
        byte_1 0 (omega arith),
        byte_1 1 (omega arith),
        byte_1 2 (omega arith),
        byte_1 3 (omega arith),
      )

  message_of-IsMessage :
      length bs ≡ 28 + field 24 4 bs
      → field 0 1 bs ≡ 1
      → field 3 1 bs ≡ 28
      → IsMessage (message_of bs)
  message_of-IsMessage size version header = record {
    version_current = version;
    header_length_current = header;
    type_valid = type_of_byte-IsMessageType (field 1 1 bs) (byte_field-IsU8 1 (omega arith));
    flags_fit = byte_field-IsU8 2 (omega arith);
    session_id_fits = word_field-IsU32 4 (omega arith);
    ue_id_fits = word_field-IsU32 8 (omega arith);
    sequence_number_fits = word_field-IsU32 12 (omega arith);
    timestamp_fits = long_field-IsU64 16 (omega arith);
    payload_fits = omega (arith, length-drop 28 bs, word_field-IsU32 24 (omega arith));
    payload_length_counts = omega (arith, length-drop 28 bs);
    payload_IsU8 = All-drop IsU8 28 bs v.0;
  }

-- Only what `encode` writes decodes: if a vector of bytes decodes to a message, encoding the
-- message gives the same bytes back, and the message is well formed.
pub encode-decode :
    (bs : List ℕ) (m : ProtocolMessage)
    → IsBytes bs
    → decode bs ≡ ok m
    → (encode m ≡ bs) × IsMessage m
encode-decode bs m v e =
    let parsed : parse bs ≡ ok m = sym (decode-parse bs v) ∙ e in
    let (same, version, header, size) = accept-ok (length bs) (message_of bs) parsed in
    rw same (
      encode-frame (message_of bs) ∙ frame-message_of bs v size,
      message_of-IsMessage bs v size version header,
    )
