-- ===== src/Nodes/Traffic.antt =====
-- Data, heartbeats and the detach of an attached UE, from the UE's call to the core and back.
use mini_ran.Common.{
  sym, inr, inl, ◌⊎◌, true, none, refl, ◌∙◌, nonempty-length, ◌+◌, [], ◌≢◌, ◌∷◌, IsU8, false, add64,
  All, some, arith, length, ◌++◌, IsU32, IsU64, ◌≡◌, List, ℕ,
}
use mini_ran.Nodes.Ue
use mini_ran.Nodes.Ue.{start_detach, to_access_node, queue_message, send_traffic, Ue}
use mini_ran.Nodes.AccessNode
use mini_ran.Nodes.AccessNode.{to_ue, queue_response_to_ue, AccessNode}
use mini_ran.Nodes.Handshake.{IsUe, next_message, next_message-IsMessage}
use mini_ran.Core.{
  reply, handle_heartbeat, handle_detach_request, count_packet, CoreNetwork, SessionRecord,
  handle_data,
}
use mini_ran.Protocol.Message.{
  named-IsMessageType, detach_accept, released, detaching, heartbeat, MessageType, detach_request,
  IsMessage, attached, data_packet, HasType, ProtocolMessage, make_message,
}
use mini_ran.Protocol.Session.{on_detach_accepted, begin_detach, take_sequence_number}
use mini_ran.Core.Handlers.{detach_releases}
use mini_ran.Core.Data.{IsAccepted}
use mini_ran.Core.UnorderedMap.{IsTable, find, insert}
use mini_ran.Metrics.{count_delivered}
use mini_ran.Transport.Datagram.{Datagram}
use mini_ran.Nodes.Frames.{reply-IsMessage, ue_receives, node_receives}
use mini_ran.Protocol.Codec.RoundTrip.{length-encode}

-- The UE is attached under the session `s` that the core holds for it.
pub record AreConnected (ue : Ue) (node : AccessNode) (s : SessionRecord) : Type 0 where
  pub is_ue : IsUe ue
  pub ue_attached : ue.session.state ≡ attached
  pub held : find ue.node_id node.core.sessions ≡ some s
  pub core_attached : s.state ≡ attached
  pub same_session : ue.session.session_id ≡ s.session_id

send_traffic_lem :
    (ue : Ue) (payload : List ℕ) (now : ℕ)
    → ue.session.state ≡ attached
    → (send_traffic ue payload now).outgoing
      ≡ ue.outgoing ++ to_access_node ue false (next_message ue data_packet now payload) now ∷ []
unfolding send_traffic queue_message take_sequence_number
send_traffic_lem ue payload now a = ground arith

node_counts_data :
    (node : AccessNode) (m : ProtocolMessage) (size now : ℕ)
    → HasType m data_packet
    → AccessNode.route node m size now ≡ record node {
      metrics = count_delivered node.metrics size;
      core = handle_data node.core m now;
    }
unfolding AccessNode.route
node_counts_data node m size now t = ground arith

handle_data_lem :
    (core : CoreNetwork) (m : ProtocolMessage) (k now : ℕ) (s : SessionRecord)
    → m.ue_id ≡ k
    → IsAccepted core m s
    → handle_data core m now ≡ record core {
      sessions = insert k (count_packet s (length m.payload) now) core.sessions;
      delivered_bytes = add64 core.delivered_bytes (length m.payload);
      delivered_packets = add64 core.delivered_packets 1;
    }
unfolding handle_data
handle_data_lem core m k now s e a = ground arith

-- An attached UE, a node whose core holds the attached session that the UE is under, a payload of
-- bytes that is not empty and whose size fits 32 bits, a time of 64 bits: `sendTraffic` queues one
-- datagram, and a node that receives it counts the frame as delivered and the payload once for the
-- UE's session and once in the totals, and changes nothing else.
pub data_reaches_core :
    (ue : Ue) (node : AccessNode) (s : SessionRecord) (payload : List ℕ) (sent arrived : ℕ)
    → AreConnected ue node s
    → IsU64 sent
    → IsU32 (length payload)
    → All IsU8 payload
    → payload ≢ []
    → (d : Datagram) × ((send_traffic ue payload sent).outgoing ≡ ue.outgoing ++ d ∷ [])
      × (AccessNode.on_datagram node d arrived ≡ record node {
        metrics = count_delivered node.metrics (28 + length payload);
        core = record node.core {
          sessions =
              insert ue.node_id
                (record s {
                  delivered_bytes = add64 s.delivered_bytes (length payload);
                  delivered_packets = add64 s.delivered_packets 1;
                  last_seen_ms = arrived;
                })
                node.core.sessions;
          delivered_bytes = add64 node.core.delivered_bytes (length payload);
          delivered_packets = add64 node.core.delivered_packets 1;
        };
      })
unfolding make_message
data_reaches_core ue node s payload sent arrived c hs hl hp ne =
    let m = next_message ue data_packet sent payload in
    let d = to_access_node ue false m sent in
    let u = c.is_ue in
    let good : IsMessage m = next_message-IsMessage ue data_packet sent payload u tt hs hl hp in
    let accepted : IsAccepted node.core m s = record {
      type_is = refl;
      found = rw u.id_is_own c.held;
      active = c.core_attached;
      id_matches = c.same_session;
      length_matches = omega arith;
      nonempty = nonempty-length payload ne;
    } in
    (
      d,
      send_traffic_lem ue payload sent c.ue_attached,
      node_receives node d m arrived refl good
          ∙ node_counts_data node m (length d.bytes) arrived refl
          ∙ rw (
            length-encode m,
            handle_data_lem node.core m ue.node_id arrived s u.id_is_own accepted,
          ),
    )

pub node_answers :
    (node : AccessNode) (m answer : ProtocolMessage) (size now : ℕ) (type : MessageType)
    → HasType m type
    → (type ≡ heartbeat) × ((handle_heartbeat node.core m now).1 ≡ some answer)
      ⊎ (type ≡ detach_request) × ((handle_detach_request node.core m now).1 ≡ some answer)
    → (AccessNode.route node m size now).outgoing ≡ node.outgoing ++ to_ue node answer now ∷ []
unfolding AccessNode.route queue_response_to_ue
node_answers node m answer size now type t (inl (e, a)) = ground arith
node_answers node m answer size now type t (inr (e, a)) = ground arith

start_detach_lem :
    (ue : Ue) (now : ℕ)
    → ue.session.state ≡ attached
    → ((start_detach ue now).outgoing
        ≡ ue.outgoing ++ to_access_node ue true (next_message ue detach_request now []) now ∷ [])
      × ((start_detach ue now).session.state ≡ detaching)
      × ((start_detach ue now).session.session_id ≡ ue.session.session_id)
      × ((start_detach ue now).node_id ≡ ue.node_id)
unfolding start_detach begin_detach queue_message take_sequence_number
start_detach_lem ue now a = ground arith

ue_takes_release :
    (ue : Ue) (ue_id session_id number sent now : ℕ)
    → ue.node_id ≡ ue_id
    → ue.session.state ≡ detaching
    → ue.session.session_id ≡ session_id
    → let after = Ue.on_message ue (reply detach_accept ue_id session_id number sent) now in
      (after.session.state ≡ released) × (after.session.session_id ≡ 0)
unfolding Ue.on_message on_detach_accepted
ue_takes_release ue ue_id session_id number sent now i a s = ground arith

route_detach-core :
    (node : AccessNode) (m : ProtocolMessage) (size now : ℕ)
    → HasType m detach_request
    → (AccessNode.route node m size now).core ≡ (handle_detach_request node.core m now).0
unfolding AccessNode.route queue_response_to_ue
route_detach-core node m size now t = ground arith

-- The whole detach, for an attached UE, a node whose core holds the attached session that the UE is
-- under, and times of 64 bits: `startDetach` queues one datagram, the node answers it with one, the
-- core then has no session for the UE, and with the answer the UE is released and has no session
-- identifier.
pub detach_handshake :
    (ue : Ue) (node : AccessNode) (s : SessionRecord) (sent answered received : ℕ)
    → AreConnected ue node s
    → IsTable node.core.sessions
    → IsU64 sent
    → IsU64 answered
    → (d : Datagram) × (r : Datagram) × ((start_detach ue sent).outgoing ≡ ue.outgoing ++ d ∷ [])
      × ((AccessNode.on_datagram node d answered).outgoing ≡ node.outgoing ++ r ∷ [])
      × (find ue.node_id (AccessNode.on_datagram node d answered).core.sessions ≡ none)
      × ((Ue.on_datagram (start_detach ue sent) r received).session.state ≡ released)
      × ((Ue.on_datagram (start_detach ue sent) r received).session.session_id ≡ 0)
unfolding make_message
detach_handshake ue node s sent answered received c keys hs ha =
    let m = next_message ue detach_request sent [] in
    let d = to_access_node ue true m sent in
    let u = c.is_ue in
    let good : IsMessage m =
      next_message-IsMessage ue detach_request sent [] u tt hs (omega arith) tt in
    let (out, state, same, id) = start_detach_lem ue sent c.ue_attached in
    let (gone, answer, _) =
      detach_releases node.core m answered keys refl
        (inr (s, rw u.id_is_own c.held, sym c.same_session)) in
    let farewell = reply detach_accept m.ue_id m.session_id m.sequence_number answered in
    let r = to_ue node farewell answered in
    let queued =
      node_answers node m farewell (length d.bytes) answered detach_request refl
        (inr (refl, answer)) in
    let arrives = node_receives node d m answered refl good in
    let returns = ue_receives (start_detach ue sent) r farewell received refl (
      reply-IsMessage detach_accept m.ue_id m.session_id m.sequence_number answered
        (named-IsMessageType detach_accept tt) (omega arith) u.session_id_fits u.number_fits ha) in
    let (done, forgotten) =
      ue_takes_release (start_detach ue sent) m.ue_id m.session_id m.sequence_number answered
        received (id ∙ sym u.id_is_own) state same in
    (
      d,
      r,
      out,
      rw arrives queued,
      rw (arrives, route_detach-core node m (length d.bytes) answered refl, ← u.id_is_own) gone,
      rw returns done,
      rw returns forgotten,
    )
