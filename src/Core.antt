-- ===== src/Core.antt =====
-- include/miniran/core/core_network.h and src/core/core_network.cpp: the core's table of sessions.
-- A handler returns the core after the call and the reply, if there is one. Counters of type
-- `std::size_t` and `std::uint64_t` wrap at 64 bits.
pub mod UnorderedMap
pub mod Cases
pub mod Expiry
pub mod Invariant
pub mod History
pub mod Handlers
pub mod Data
pub mod Answers
pub mod Active
pub mod Accounting
pub mod Registry
pub mod Represents
pub mod Refinement
mod Examples
use UnorderedMap.{Table, find, insert, erase}
use mathlib.Core.Option
use mini_ran.Common.{
  ℕ, ◌+◌, Bool, true, false, not, ◌&&◌, ◌||◌, Option, none, some, List, [], ◌∷◌, ◌==◌,
  if◌then◌else◌, length, add32, add64, sub64, leb, ltb,
}
use mini_ran.Protocol.Message.{
  MessageType, attach_request, attach_accept, heartbeat, heartbeat_ack, data_packet, detach_request,
  detach_accept, error, same_type, SessionState, idle, attached, same_state, ProtocolMessage,
  default_message, make_message,
}
use mini_ran.Protocol.Session.{SessionTimers, has_elapsed}

pub record SessionRecord : Type 0 where
  pub ue_id : ℕ
  pub session_id : ℕ
  pub state : SessionState
  pub attached_at_ms : ℕ
  pub last_seen_ms : ℕ
  pub delivered_bytes : ℕ
  pub delivered_packets : ℕ

abbrev pub default_session : SessionRecord
default_session = record {
  ue_id = 0;
  session_id = 0;
  state = idle;
  attached_at_ms = 0;
  last_seen_ms = 0;
  delivered_bytes = 0;
  delivered_packets = 0;
}

pub record CoreNetwork : Type 0 where
  pub timers : SessionTimers
  pub sessions : Table SessionRecord
  pub next_session_id : ℕ
  pub delivered_bytes : ℕ
  pub delivered_packets : ℕ
  pub expired_sessions : ℕ

unfoldable pub make_core : SessionTimers → CoreNetwork
make_core timers = record {
  timers = timers;
  sessions = [];
  next_session_id = 1000;
  delivered_bytes = 0;
  delivered_packets = 0;
  expired_sessions = 0;
}

unfoldable pub has_active_session : CoreNetwork → ℕ → Bool
has_active_session core ue_id = elim (find ue_id core.sessions) [
  | none ↦ false
  | some s ↦ same_state s.state attached
]

count_active : Table SessionRecord → ℕ → ℕ
count_active [] count = count
count_active ((_, s) ∷ rest) count =
    count_active rest (if same_state s.state attached then add64 count 1 else count)

unfoldable pub active_session_count : CoreNetwork → ℕ
unfolding count_active
active_session_count core = count_active core.sessions 0

-- `ProtocolMessage{}` with the fields that the handlers set.
abbrev pub reply : MessageType → ℕ → ℕ → ℕ → ℕ → ProtocolMessage
reply type ue_id session_id sequence_number now = record default_message {
  header = record default_message.header {
    message_type = type;
    ue_id = ue_id;
    session_id = session_id;
    sequence_number = sequence_number;
    timestamp_ms = now;
  };
}

abbrev pub new_session : ℕ → ℕ → ℕ → SessionRecord
new_session ue_id session_id now = record default_session {
  ue_id = ue_id;
  state = attached;
  session_id = session_id;
  attached_at_ms = now;
  last_seen_ms = now;
}

unfoldable pub handle_attach_request :
    CoreNetwork → ProtocolMessage → ℕ → CoreNetwork × Option ProtocolMessage
unfolding has_active_session
handle_attach_request core request now =
    let ue_id = request.ue_id in
    let number = request.sequence_number in
    let session = Option.get_or (find ue_id core.sessions) default_session in
    if not (same_type request.message_type attach_request)
    then (core, none)
    else if ue_id == 0 || number == 0 || not (request.session_id == 0)
    then (core, some (reply error ue_id request.session_id number now))
    else if has_active_session core ue_id
    then (
      record core { sessions = insert ue_id (record session { last_seen_ms = now }) core.sessions },
      some (reply attach_accept ue_id session.session_id number now),
    )
    else (
      record core {
        sessions = insert ue_id (new_session ue_id core.next_session_id now) core.sessions;
        next_session_id = add32 core.next_session_id 1;
      },
      some (reply attach_accept ue_id core.next_session_id number now),
    )

unfoldable pub handle_detach_request :
    CoreNetwork → ProtocolMessage → ℕ → CoreNetwork × Option ProtocolMessage
handle_detach_request core request now =
    let ue_id = request.ue_id in
    let answer = λ (type : MessageType).
      some (reply type ue_id request.session_id request.sequence_number now) in
    if not (same_type request.message_type detach_request)
    then (core, none)
    else elim (find ue_id core.sessions) [
      | none ↦ (core, answer detach_accept)
      | some session ↦
          if not (session.session_id == request.session_id)
          then (core, answer error)
          else (record core { sessions = erase ue_id core.sessions }, answer detach_accept)
    ]

unfoldable pub handle_heartbeat :
    CoreNetwork → ProtocolMessage → ℕ → CoreNetwork × Option ProtocolMessage
handle_heartbeat core request now =
    let ue_id = request.ue_id in
    if not (same_type request.message_type heartbeat)
    then (core, none)
    else elim (find ue_id core.sessions) [
      | none ↦ (core, none)
      | some session ↦ if not (same_state session.state attached) then (core, none) else (
        record core {
          sessions = insert ue_id (record session { last_seen_ms = now }) core.sessions;
        },
        some (make_message heartbeat_ack ue_id session.session_id request.sequence_number now []),
      )
    ]

-- The record after a packet of `size` bytes.
abbrev pub count_packet : SessionRecord → ℕ → ℕ → SessionRecord
count_packet session size now = record session {
  delivered_bytes = add64 session.delivered_bytes size;
  delivered_packets = add64 session.delivered_packets 1;
  last_seen_ms = now;
}

unfoldable pub handle_data : CoreNetwork → ProtocolMessage → ℕ → CoreNetwork
handle_data core request now =
    let ue_id = request.ue_id in
    let size = length request.payload in
    if not (same_type request.message_type data_packet)
    then core
    else elim (find ue_id core.sessions) [
      | none ↦ core
      | some session ↦
          if not (same_state session.state attached)
          then core
          else if not (request.session_id == session.session_id)
          then core
          else if not (size == request.payload_length)
          then core
          else if size == 0
          then core
          else record core {
            sessions = insert ue_id (count_packet session size now) core.sessions;
            delivered_bytes = add64 core.delivered_bytes size;
            delivered_packets = add64 core.delivered_packets 1;
          }
    ]

-- The loop of `expireInactiveSessions`: the sessions that stay, and the count of the others.
unfoldable pub expire_loop : ℕ → ℕ → Table SessionRecord → ℕ → Table SessionRecord × ℕ
expire_loop timeout now [] expired = ([], expired)
expire_loop timeout now ((ue_id, s) ∷ rest) expired =
    let inactive = has_elapsed now s.last_seen_ms timeout in
    let (kept, total) =
      expire_loop timeout now rest (if inactive then add64 expired 1 else expired) in
    (if inactive then kept else (ue_id, s) ∷ kept, total)

unfoldable pub expire_inactive_sessions : CoreNetwork → ℕ → CoreNetwork
unfolding expire_loop
expire_inactive_sessions core now =
    let (kept, total) =
      expire_loop core.timers.inactivity_timeout_ms now core.sessions core.expired_sessions in
    record core { sessions = kept; expired_sessions = total }
