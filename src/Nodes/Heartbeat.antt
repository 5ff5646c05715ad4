-- ===== src/Nodes/Heartbeat.antt =====
-- The heartbeat of an attached UE, from its tick to the acknowledgement.
use mini_ran.Nodes.Ue
use mini_ran.Nodes.AccessNode
use mini_ran.Common.{ℕ, ◌≡◌, refl, ◌∙◌, sym, [], ◌∷◌, ◌++◌, true, some, length, IsU64, arith, inl}
use mini_ran.Nodes.Frames.{make_message-IsMessage, node_receives, ue_receives}
use mini_ran.Nodes.AccessNode.{to_ue, AccessNode, queue_response_to_ue}
use mini_ran.Protocol.Session.{has_elapsed, take_sequence_number, on_heartbeat_response, on_tick}
use mini_ran.Protocol.Message.{
  named-IsMessageType, IsMessage, attached, heartbeat, HasType, ProtocolMessage, heartbeat_ack,
  make_message,
}
use mini_ran.Nodes.Ue.{to_access_node, session_message, queue_message, Ue}
use mini_ran.Core.{handle_heartbeat, SessionRecord}
use mini_ran.Nodes.Traffic.{node_answers, AreConnected}
use mini_ran.Transport.Datagram.{Datagram}
use mini_ran.Nodes.Handshake.{next_message-IsMessage, next_message}
use mini_ran.Core.UnorderedMap.{find}
use mini_ran.Core.Handlers.{heartbeat_refreshes}

tick_beats :
    (ue : Ue) (now : ℕ)
    → ue.session.state ≡ attached
    → has_elapsed now ue.session.last_heartbeat_ack_ms ue.session.heartbeat_interval_ms ≡ true
    → ((Ue.tick ue now).outgoing
        ≡ ue.outgoing ++ to_access_node ue true (next_message ue heartbeat now []) now ∷ [])
      × ((Ue.tick ue now).session.state ≡ attached)
      × ((Ue.tick ue now).session.session_id ≡ ue.session.session_id)
      × ((Ue.tick ue now).node_id ≡ ue.node_id)
unfolding Ue.tick on_tick queue_message session_message take_sequence_number
tick_beats ue now a e = ground arith

route_heartbeat-core :
    (node : AccessNode) (m : ProtocolMessage) (size now : ℕ)
    → HasType m heartbeat
    → (AccessNode.route node m size now).core ≡ (handle_heartbeat node.core m now).0
unfolding AccessNode.route queue_response_to_ue
route_heartbeat-core node m size now t = ground arith

ue_takes_ack :
    (ue : Ue) (ue_id session_id number sent now : ℕ)
    → ue.node_id ≡ ue_id
    → ue.session.session_id ≡ session_id
    → Ue.on_message ue (make_message heartbeat_ack ue_id session_id number sent []) now
      ≡ record ue { session = on_heartbeat_response ue.session now }
unfolding Ue.on_message make_message
ue_takes_ack ue ue_id session_id number sent now i s = ground arith

-- The whole heartbeat, for an attached UE, a node whose core holds the attached session that the UE
-- is under, a heartbeat interval that has passed, and times of 64 bits: a tick queues one datagram,
-- the node answers it with one and its core marks the session as seen then, and with the answer the
-- UE is attached still and notes the time as that of its last acknowledgement.
pub heartbeat_exchange :
    (ue : Ue) (node : AccessNode) (s : SessionRecord) (sent answered received : ℕ)
    → AreConnected ue node s
    → has_elapsed sent ue.session.last_heartbeat_ack_ms ue.session.heartbeat_interval_ms ≡ true
    → IsU64 sent
    → IsU64 answered
    → (d : Datagram) × (r : Datagram) × ((Ue.tick ue sent).outgoing ≡ ue.outgoing ++ d ∷ [])
      × ((AccessNode.on_datagram node d answered).outgoing ≡ node.outgoing ++ r ∷ [])
      × (find ue.node_id (AccessNode.on_datagram node d answered).core.sessions
          ≡ some (record s { last_seen_ms = answered }))
      × ((Ue.on_datagram (Ue.tick ue sent) r received).session.state ≡ attached)
      × ((Ue.on_datagram (Ue.tick ue sent) r received).session.last_heartbeat_ack_ms ≡ received)
unfolding make_message on_heartbeat_response
heartbeat_exchange ue node s sent answered received c due hs ha =
    let m = next_message ue heartbeat sent [] in
    let d = to_access_node ue true m sent in
    let u = c.is_ue in
    let good : IsMessage m = next_message-IsMessage ue heartbeat sent [] u tt hs (omega arith) tt in
    let (out, state, same, id) = tick_beats ue sent c.ue_attached due in
    let (seen, answer, _) =
      heartbeat_refreshes node.core m answered s refl (rw u.id_is_own c.held) c.core_attached in
    let ack = make_message heartbeat_ack m.ue_id s.session_id m.sequence_number answered [] in
    let r = to_ue node ack answered in
    let queued =
      node_answers node m ack (length d.bytes) answered heartbeat refl (inl (refl, answer)) in
    let arrives = node_receives node d m answered refl good in
    let returns = ue_receives (Ue.tick ue sent) r ack received refl (
      make_message-IsMessage heartbeat_ack m.ue_id s.session_id m.sequence_number answered []
        (named-IsMessageType heartbeat_ack tt) (omega arith)
        (rw (← c.same_session) u.session_id_fits) u.number_fits ha (omega arith) tt) in
    let taken =
      ue_takes_ack (Ue.tick ue sent) m.ue_id s.session_id m.sequence_number answered received
        (id ∙ sym u.id_is_own) (same ∙ c.same_session) in
    (
      d,
      r,
      out,
      rw arrives queued,
      rw (arrives, route_heartbeat-core node m (length d.bytes) answered refl, ← u.id_is_own) seen,
      rw (returns, taken) state,
      rw (returns, taken) refl,
    )
