-- ===== src/Protocol/Codec.antt =====
-- src/protocol/frame_codec.cpp: `FrameCodec::encode` and `FrameCodec::decode`. The texts that
-- `decode` stores in its out-parameter are the constructors of `DecodeError`.
pub mod Layout
pub mod RoundTrip
mod Examples
use mini_ran.Common.{◌>>=◌, ℕ, not, Option, none, some, List, length, u32, ◌==◌, if◌then◌else◌}
use mini_ran.ByteBuffer.{
  empty_writer, write_u8, write_u32, write_u64, write_bytes, Reader, make_reader, read_u8, read_u32,
  read_u64, read_bytes, has_remaining,
}
use mini_ran.Protocol.Message.{
  ProtocolHeader, ProtocolMessage, byte_of_type, type_of_byte, protocol_version, header_bytes,
}

pub encode : ProtocolMessage → List ℕ
encode m =
    let w = write_u8 empty_writer m.version in
    let w = write_u8 w (byte_of_type m.message_type) in
    let w = write_u8 w m.flags in
    let w = write_u8 w m.header_length in
    let w = write_u32 w m.session_id in
    let w = write_u32 w m.ue_id in
    let w = write_u32 w m.sequence_number in
    let w = write_u64 w m.timestamp_ms in
    let w = write_u32 w (u32 (length m.payload)) in (write_bytes w m.payload).bytes

pub data DecodeError : Type 0 where
  short_header : DecodeError
  unsupported_version : ℕ → DecodeError
  unsupported_header_length : ℕ → DecodeError
  payload_mismatch : DecodeError
  trailing_bytes : DecodeError

pub data Decoded : Type 0 where
  ok : ProtocolMessage → Decoded
  err : DecodeError → Decoded

-- The chain of reads; the type byte is cast here, where nothing has looked at it yet.
read_header : Reader → Option (ProtocolHeader × Reader)
read_header r = do
  (version, r) ← read_u8 r
  (type_byte, r) ← read_u8 r
  (flags, r) ← read_u8 r
  (header_length, r) ← read_u8 r
  (session_id, r) ← read_u32 r
  (ue_id, r) ← read_u32 r
  (sequence_number, r) ← read_u32 r
  (timestamp_ms, r) ← read_u64 r
  (payload_length, r) ← read_u32 r
  some (
    record {
      version = version;
      message_type = type_of_byte type_byte;
      flags = flags;
      header_length = header_length;
      session_id = session_id;
      ue_id = ue_id;
      sequence_number = sequence_number;
      timestamp_ms = timestamp_ms;
      payload_length = payload_length;
    },
    r,
  )

read_payload : ProtocolHeader → Reader → Decoded
read_payload header r = elim (read_bytes r header.payload_length) [
  | none ↦ err payload_mismatch
  | some (payload, r') ↦
      if has_remaining r'
      then err trailing_bytes
      else ok (record { header = header; payload = payload })
]

pub decode : List ℕ → Decoded
decode bytes = elim (read_header (make_reader bytes)) [
  | none ↦ err short_header
  | some (header, r) ↦
      if not (header.version == protocol_version)
      then err (unsupported_version header.version)
      else if not (header.header_length == header_bytes)
      then err (unsupported_header_length header.header_length)
      else read_payload header r
]
