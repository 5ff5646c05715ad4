-- ===== src/Nodes/Ue.antt =====
-- include/miniran/nodes/ue.h and src/nodes/ue.cpp: the user equipment. Its methods return the UE
-- after the call; `outgoing` is the queue of datagrams that `flush_outgoing` hands over.
use mini_ran.Common.{false, ◌∷◌, ◌==◌, ◌++◌, true, not, length, if◌then◌else◌, [], Bool, List, ℕ}
use mini_ran.Protocol.Message.{
  make_message, same_type, MessageType, SessionState, ProtocolMessage, attach_request, heartbeat,
  heartbeat_ack, data_packet, attach_accept, detach_request, detach_accept,
}
use mini_ran.Protocol.Session.{
  on_heartbeat_response, on_detach_accepted, on_attach_accepted, can_send_data,
  take_sequence_number, make_session, is_attached, SessionManager, SessionTimers, begin_attach,
  begin_detach, on_tick,
}
use mini_ran.Transport.Datagram.{default_datagram, Datagram}
use mini_ran.Metrics.{count_sent, no_metrics, FlowMetrics}
use mini_ran.Protocol.Codec.{err, encode, ok, decode}

pub record Ue : Type 0 where
  pub node_id : ℕ
  pub access_node_id : ℕ
  pub session : SessionManager
  pub metrics : FlowMetrics
  pub outgoing : List Datagram

-- The transport mode is an argument of the constructor that it ignores.
unfoldable pub make_ue : ℕ → ℕ → SessionTimers → Ue
make_ue node_id access_node_id timers = record {
  node_id = node_id;
  access_node_id = access_node_id;
  session = make_session node_id timers;
  metrics = no_metrics;
  outgoing = [];
}

abbrev pub ue_state : Ue → SessionState
ue_state ue = ue.session.state

abbrev pub ue_is_attached : Ue → Bool
ue_is_attached ue = is_attached ue.session

-- `makeMessage` with the session's identifiers and its next sequence number.
unfoldable pub session_message :
    SessionManager → MessageType → ℕ → List ℕ → SessionManager × ProtocolMessage
session_message m type now payload =
    let (m', number) = take_sequence_number m in
    (m', make_message type m.ue_id m.session_id number now payload)

-- The datagram to the access node that carries a message.
abbrev pub to_access_node : Ue → Bool → ProtocolMessage → ℕ → Datagram
to_access_node ue control_plane message now = record default_datagram {
  from_node_id = ue.node_id;
  to_node_id = ue.access_node_id;
  enqueue_time_ms = now;
  control_plane = control_plane;
  bytes = encode message;
}

-- `outgoing_.push_back` of a message that is made from the session `m`.
unfoldable pub queue_message : Ue → SessionManager → MessageType → ℕ → List ℕ → Bool → Ue
unfolding session_message
queue_message ue m type now payload control_plane =
    let (m', message) = session_message m type now payload in
    record ue {
      session = m';
      outgoing = ue.outgoing ++ to_access_node ue control_plane message now ∷ [];
    }

unfoldable pub start_attach : Ue → ℕ → Ue
start_attach ue now =
    let (m, started) = begin_attach ue.session now in
    if started then queue_message ue m attach_request now [] true else record ue { session = m }

unfoldable pub start_detach : Ue → ℕ → Ue
start_detach ue now =
    let (m, started) = begin_detach ue.session now in
    if not started then record ue { session = m } else queue_message ue m detach_request now [] true

unfoldable pub send_traffic : Ue → List ℕ → ℕ → Ue
send_traffic ue payload now =
    if not (can_send_data ue.session)
    then ue
    else queue_message (record ue { metrics = count_sent ue.metrics (length payload) }) ue.session
        data_packet now payload false

-- A control message of a tick is counted with the size of its frame.
abbrev retransmits : Ue → SessionManager → MessageType → ℕ → Ue
retransmits ue m type now =
    let size = length (encode (session_message m type now []).1) in
    queue_message (record ue { metrics = count_sent ue.metrics size }) m type now [] true

unfoldable pub tick : Ue → ℕ → Ue
tick ue now =
    let (m, decision) = on_tick ue.session now in
    let type = decision.message_type in
    if not decision.should_retransmit
    then record ue { session = m }
    else if same_type type attach_request
    then retransmits ue m attach_request now
    else if same_type type detach_request
    then retransmits ue m detach_request now
    else if same_type type heartbeat
    then retransmits ue m heartbeat now
    else record ue { session = m }

-- What the session does with a message that came for this UE.
unfoldable pub on_message : Ue → ProtocolMessage → ℕ → Ue
on_message ue message now =
    let id = message.session_id in
    if not (message.ue_id == ue.node_id)
    then ue
    else if same_type message.message_type attach_accept
    then record ue { session = (on_attach_accepted ue.session id now).0 }
    else if same_type message.message_type detach_accept
    then (if not (id == ue.session.session_id)
        then ue
        else record ue { session = (on_detach_accepted ue.session now).0 })
    else if same_type message.message_type heartbeat_ack
    then (if not (id == ue.session.session_id)
        then ue
        else record ue { session = on_heartbeat_response ue.session now })
    else ue

unfoldable pub on_datagram : Ue → Datagram → ℕ → Ue
on_datagram ue datagram now = elim (decode datagram.bytes) [
  | ok message ↦ on_message ue message now
  | err e ↦ ue
]

-- The queued datagrams, oldest first, and the UE with an empty queue.
unfoldable pub flush_outgoing : Ue → Ue × List Datagram
flush_outgoing ue = (record ue { outgoing = [] }, ue.outgoing)
