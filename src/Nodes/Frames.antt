-- ===== src/Nodes/Frames.antt =====
-- A message in a frame between the nodes, from the one end to the other.
use mini_ran.Common.{IsU8, refl, All, arith, length, IsU64, IsU32, ◌≡◌, List, ℕ}
use mini_ran.Nodes.Ue
use mini_ran.Nodes.Ue.{Ue}
use mini_ran.Nodes.AccessNode
use mini_ran.Nodes.AccessNode.{AccessNode}
use mini_ran.Protocol.Message.{IsMessage, IsMessageType, ProtocolMessage, make_message, MessageType}
use mini_ran.Transport.Datagram.{Datagram}
use mini_ran.Protocol.Codec.{encode}
use mini_ran.Core.{reply}
use mini_ran.Protocol.Codec.RoundTrip.{decode-encode}

-- The messages that the nodes make are well formed if the numbers in them fit their fields.
pub make_message-IsMessage :
    (type : MessageType) (ue_id session_id number now : ℕ) (payload : List ℕ)
    → IsMessageType type
    → IsU32 ue_id
    → IsU32 session_id
    → IsU32 number
    → IsU64 now
    → IsU32 (length payload)
    → All IsU8 payload
    → IsMessage (make_message type ue_id session_id number now payload)
unfolding make_message
make_message-IsMessage type ue_id session_id number now payload t u s n w l p = record {
  version_current = refl;
  header_length_current = refl;
  type_valid = t;
  flags_fit = omega arith;
  session_id_fits = s;
  ue_id_fits = u;
  sequence_number_fits = n;
  timestamp_fits = w;
  payload_fits = l;
  payload_length_counts = omega arith;
  payload_IsU8 = p;
}

pub reply-IsMessage :
    (type : MessageType) (ue_id session_id number now : ℕ)
    → IsMessageType type
    → IsU32 ue_id
    → IsU32 session_id
    → IsU32 number
    → IsU64 now
    → IsMessage (reply type ue_id session_id number now)
reply-IsMessage type ue_id session_id number now t u s n w = record {
  version_current = refl;
  header_length_current = refl;
  type_valid = t;
  flags_fit = omega arith;
  session_id_fits = s;
  ue_id_fits = u;
  sequence_number_fits = n;
  timestamp_fits = w;
  payload_fits = omega arith;
  payload_length_counts = refl;
  payload_IsU8 = tt;
}

pub ue_receives :
    (ue : Ue) (d : Datagram) (m : ProtocolMessage) (now : ℕ)
    → d.bytes ≡ encode m
    → IsMessage m
    → Ue.on_datagram ue d now ≡ Ue.on_message ue m now
unfolding Ue.on_datagram
ue_receives ue d m now e v = ground (arith, decode-encode m v)

pub node_receives :
    (node : AccessNode) (d : Datagram) (m : ProtocolMessage) (now : ℕ)
    → d.bytes ≡ encode m
    → IsMessage m
    → AccessNode.on_datagram node d now ≡ AccessNode.route node m (length d.bytes) now
unfolding AccessNode.on_datagram
node_receives node d m now e v = ground (arith, decode-encode m v)
