-- ===== src/Protocol/Message.antt =====
-- include/miniran/protocol/protocol_message.h, and `toString` and `makeMessage` of
-- src/protocol/frame_codec.cpp.
use Prim.Native.String.{String}
use mini_ran.Common.{
  ℕ, ◌≡◌, ap, Bool, List, [], length, u32, ◌==◌, if◌then◌else◌, arith, IsU8, IsU32, IsU64, All,
}

-- `enum class MessageType : std::uint8_t`. Any byte may be cast to it: `unnamed` holds one that no
-- enumerator names.
pub data MessageType : Type 0 where
  attach_request attach_accept attach_reject : MessageType
  heartbeat heartbeat_ack data_packet : MessageType
  detach_request detach_accept error : MessageType
  unnamed : ℕ → MessageType

-- `static_cast<std::uint8_t>(type)`.
abbrev pub byte_of_type : MessageType → ℕ
byte_of_type attach_request = 1
byte_of_type attach_accept = 2
byte_of_type attach_reject = 3
byte_of_type heartbeat = 4
byte_of_type heartbeat_ack = 5
byte_of_type data_packet = 6
byte_of_type detach_request = 7
byte_of_type detach_accept = 8
byte_of_type error = 9
byte_of_type (unnamed n) = n

-- `static_cast<MessageType>(byte)`.
unfoldable pub type_of_byte : ℕ → MessageType
type_of_byte n =
    if n == 1
    then attach_request
    else if n == 2
    then attach_accept
    else if n == 3
    then attach_reject
    else if n == 4
    then heartbeat
    else if n == 5
    then heartbeat_ack
    else if n == 6
    then data_packet
    else if n == 7
    then detach_request
    else if n == 8
    then detach_accept
    else if n == 9
    then error
    else unnamed n

-- `==` of two values of the enumeration.
abbrev pub same_type : MessageType → MessageType → Bool
same_type a b = byte_of_type a == byte_of_type b

-- `enum class SessionState`; the program makes it from its enumerators only.
pub data SessionState : Type 0 where
  idle attaching attached detaching released rejected : SessionState

abbrev pub byte_of_state : SessionState → ℕ
byte_of_state idle = 0
byte_of_state attaching = 1
byte_of_state attached = 2
byte_of_state detaching = 3
byte_of_state released = 4
byte_of_state rejected = 5

abbrev pub same_state : SessionState → SessionState → Bool
same_state a b = byte_of_state a == byte_of_state b

pub record ProtocolHeader : Type 0 where
  pub version : ℕ
  pub message_type : MessageType
  pub flags : ℕ
  pub header_length : ℕ
  pub session_id : ℕ
  pub ue_id : ℕ
  pub sequence_number : ℕ
  pub timestamp_ms : ℕ
  pub payload_length : ℕ

pub record ProtocolMessage : Type 0 where
  pub header : ProtocolHeader
  pub open header use *
  pub payload : List ℕ

abbrev pub protocol_version : ℕ
protocol_version = 1

abbrev pub header_bytes : ℕ
header_bytes = 28

-- `ProtocolMessage{}`, every field at its default.
abbrev pub default_message : ProtocolMessage
default_message = record {
  header = record {
    version = 1;
    message_type = error;
    flags = 0;
    header_length = 28;
    session_id = 0;
    ue_id = 0;
    sequence_number = 0;
    timestamp_ms = 0;
    payload_length = 0;
  };
  payload = [];
}

unfoldable pub make_message : MessageType → ℕ → ℕ → ℕ → ℕ → List ℕ → ProtocolMessage
make_message type ue_id session_id sequence_number timestamp_ms payload = record {
  header = record {
    version = protocol_version;
    message_type = type;
    flags = 0;
    header_length = header_bytes;
    session_id = session_id;
    ue_id = ue_id;
    sequence_number = sequence_number;
    timestamp_ms = timestamp_ms;
    payload_length = u32 (length payload);
  };
  payload = payload;
}

abbrev pub type_to_string : MessageType → String
type_to_string attach_request = "AttachRequest"
type_to_string attach_accept = "AttachAccept"
type_to_string attach_reject = "AttachReject"
type_to_string heartbeat = "Heartbeat"
type_to_string heartbeat_ack = "HeartbeatAck"
type_to_string data_packet = "Data"
type_to_string detach_request = "DetachRequest"
type_to_string detach_accept = "DetachAccept"
type_to_string error = "Error"
type_to_string (unnamed n) = "Unknown"

abbrev pub state_to_string : SessionState → String
state_to_string idle = "Idle"
state_to_string attaching = "Attaching"
state_to_string attached = "Attached"
state_to_string detaching = "Detaching"
state_to_string released = "Released"
state_to_string rejected = "Rejected"

-- A value of the enumeration as the cast of a byte gives it.
pub record IsMessageType (t : MessageType) : Type 0 where
  pub fits : IsU8 (byte_of_type t)
  pub canonical : type_of_byte (byte_of_type t) ≡ t

pub byte_of_type-type_of_byte : (n : ℕ) → byte_of_type (type_of_byte n) ≡ n
unfolding type_of_byte
byte_of_type-type_of_byte n = ground arith

pub type_of_byte-IsMessageType : (n : ℕ) → IsU8 n → IsMessageType (type_of_byte n)
type_of_byte-IsMessageType n h = record {
  fits = omega (arith, byte_of_type-type_of_byte n);
  canonical = ap type_of_byte (byte_of_type-type_of_byte n);
}

-- Every field fits its width, and the length field is the payload's.
pub record IsMessage (m : ProtocolMessage) : Type 0 where
  pub version_current : m.version ≡ protocol_version
  pub header_length_current : m.header_length ≡ header_bytes
  pub type_valid : IsMessageType m.message_type
  pub flags_fit : IsU8 m.flags
  pub session_id_fits : IsU32 m.session_id
  pub ue_id_fits : IsU32 m.ue_id
  pub sequence_number_fits : IsU32 m.sequence_number
  pub timestamp_fits : IsU64 m.timestamp_ms
  pub payload_fits : IsU32 (length m.payload)
  pub payload_length_counts : m.payload_length ≡ length m.payload
  pub payload_IsU8 : All IsU8 m.payload

-- The message's type is the enumerator `t`, as `==` compares them.
abbrev pub HasType : ProtocolMessage → MessageType → Type 0
HasType m t = byte_of_type m.message_type ≡ byte_of_type t

-- One of the nine enumerators.
abbrev pub IsNamed : MessageType → Type 0
IsNamed (unnamed n) = ⊥
IsNamed _ = Unit {0}

pub named-IsMessageType : (t : MessageType) → IsNamed t → IsMessageType t
unfolding type_of_byte
named-IsMessageType (unnamed n) h = absurd h
named-IsMessageType _ h = ground arith
