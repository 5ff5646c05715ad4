-- ===== src/Protocol/Codec/Layout.antt =====
-- The frame on the wire, field by field: the layout that `encode` writes and that `decode` accepts.
use mini_ran.Common.{
  take_all, ◌==◌, not, ℕ, ◌+◌, ◌≤◌, ◌≡◌, ◌∙◌, Option, none, some, List, ◌∷◌, ◌++◌, ltb,
  if◌then◌else◌, length, take, drop, All, IsU8, IsU64, u32, arith, length-drop, append_assoc,
}
use mini_ran.ByteBuffer.{make_reader, Reader, read_u8, read_u32, read_u64}
use mini_ran.ByteBuffer.Words.{be_value, be_bytes}
use mini_ran.ByteBuffer.Writes.{bytes-write_u8, bytes-write_u32, bytes-write_u64, bytes-write_bytes}
use mini_ran.ByteBuffer.Reads.{
  has_remaining-rest, read_bytes-takes, IsReader, takes, read_u8-takes, read_u32-takes,
  read_u64-takes,
}
use mini_ran.Protocol.Message.{ProtocolHeader, ProtocolMessage, byte_of_type, type_of_byte}
use mini_ran.Protocol.Codec.{
  unsupported_header_length, unsupported_version, ok, trailing_bytes, short_header,
  payload_mismatch, err, Decoded, read_payload, decode, encode, read_header,
}

-- The 28 bytes of the header and then the payload.
abbrev pub frame : ProtocolMessage → List ℕ
frame m =
    m.version ∷ byte_of_type m.message_type ∷ m.flags ∷ m.header_length ∷ be_bytes 4 m.session_id
    ++ (be_bytes 4 m.ue_id
        ++ (be_bytes 4 m.sequence_number
            ++ (be_bytes 8 m.timestamp_ms ++ (be_bytes 4 (u32 (length m.payload)) ++ m.payload))))

pub encode-frame : (m : ProtocolMessage) → encode m ≡ frame m
unfolding encode
encode-frame m =
    simp (bytes-write_u8, bytes-write_u32, bytes-write_u64, bytes-write_bytes, append_assoc)

-- The field of `n` bytes from byte `k` on.
abbrev pub field : ℕ → ℕ → List ℕ → ℕ
field k n bs = be_value (take n (drop k bs))

abbrev pub header_of : List ℕ → ProtocolHeader
header_of bs = record {
  version = field 0 1 bs;
  message_type = type_of_byte (field 1 1 bs);
  flags = field 2 1 bs;
  header_length = field 3 1 bs;
  session_id = field 4 4 bs;
  ue_id = field 8 4 bs;
  sequence_number = field 12 4 bs;
  timestamp_ms = field 16 8 bs;
  payload_length = field 24 4 bs;
}

-- A vector of bytes whose size fits `std::size_t`.
abbrev pub IsBytes : List ℕ → Type 0
IsBytes bs = All IsU8 bs × IsU64 (length bs)

abbrev cursor : List ℕ → ℕ → Reader
cursor bs k = record { bytes = bs; offset = k }

cursor-IsReader : (bs : List ℕ) (k : ℕ) → IsBytes bs → k ≤ length bs → IsReader (cursor bs k)
cursor-IsReader bs k v h = record { within = h; sized = v.1; bytes_IsU8 = v.0 }

-- A read at byte `k`, in terms of the whole frame.
abbrev reads : ℕ → ℕ → List ℕ → Option (ℕ × Reader)
reads k n bs = if ltb (length bs) (k + n) then none else some (field k n bs, cursor bs (k + n))

takes-reads :
    (bs : List ℕ) (k n : ℕ) → k ≤ length bs → takes n be_value (cursor bs k) ≡ reads k n bs
takes-reads bs k n h = ground (arith, length-drop k bs)

u8_at : (bs : List ℕ) (k : ℕ) → IsBytes bs → k ≤ length bs → read_u8 (cursor bs k) ≡ reads k 1 bs
u8_at bs k v h = read_u8-takes _ (cursor-IsReader bs k v h) ∙ takes-reads bs k 1 h

u32_at : (bs : List ℕ) (k : ℕ) → IsBytes bs → k ≤ length bs → read_u32 (cursor bs k) ≡ reads k 4 bs
u32_at bs k v h = read_u32-takes _ (cursor-IsReader bs k v h) ∙ takes-reads bs k 4 h

u64_at : (bs : List ℕ) (k : ℕ) → IsBytes bs → k ≤ length bs → read_u64 (cursor bs k) ≡ reads k 8 bs
u64_at bs k v h = read_u64-takes _ (cursor-IsReader bs k v h) ∙ takes-reads bs k 8 h

read_header_lem :
    (bs : List ℕ)
    → IsBytes bs
    → read_header (cursor bs 0)
      ≡ (if ltb (length bs) 28 then none else some (header_of bs, cursor bs 28))
unfolding read_header
read_header_lem bs v = ground (
  arith,
  u8_at bs 0 v,
  u8_at bs 1 v,
  u8_at bs 2 v,
  u8_at bs 3 v,
  u32_at bs 4 v,
  u32_at bs 8 v,
  u32_at bs 12 v,
  u64_at bs 16 v,
  u32_at bs 24 v,
)

-- The checks of a frame of `size` bytes, in the order of the code.
unfoldable pub accept : ℕ → ProtocolMessage → Decoded
accept size m =
    if ltb size 28
    then err short_header
    else if not (m.version == 1)
    then err (unsupported_version m.version)
    else if not (m.header_length == 28)
    then err (unsupported_header_length m.header_length)
    else if ltb size (28 + m.payload_length)
    then err payload_mismatch
    else if ltb (28 + m.payload_length) size
    then err trailing_bytes
    else ok m

abbrev pub message_of : List ℕ → ProtocolMessage
message_of bs = record { header = header_of bs; payload = drop 28 bs }

-- What a frame means, in plain arithmetic on its bytes.
abbrev pub parse : List ℕ → Decoded
parse bs = accept (length bs) (message_of bs)

read_payload_lem :
    (bs : List ℕ) (header : ProtocolHeader)
    → IsBytes bs
    → 28 ≤ length bs
    → read_payload header (cursor bs 28) ≡ (
        if ltb (length bs) (28 + header.payload_length)
        then err payload_mismatch
        else if ltb (28 + header.payload_length) (length bs)
        then err trailing_bytes
        else ok (record { header = header; payload = drop 28 bs }))
unfolding read_payload
read_payload_lem bs header v h = ground (
  arith,
  read_bytes-takes (cursor bs 28) header.payload_length (cursor-IsReader bs 28 v h),
  has_remaining-rest (record { bytes = bs; offset = 28 + header.payload_length }),
  length-drop 28 bs,
  length-drop (28 + header.payload_length) bs,
  take_all header.payload_length (drop 28 bs),
)

-- On any vector of bytes `decode` is `parse`, which reads each field at its position and gives the
-- first failure, in the order of short header, version, header length, short payload and trailing
-- bytes, or the message.
pub decode-parse : (bs : List ℕ) → IsBytes bs → decode bs ≡ parse bs
unfolding decode accept make_reader
decode-parse bs v = ground (arith, read_header_lem bs v, read_payload_lem bs (header_of bs) v)
