-- ===== src/Nodes/Stale.antt =====
-- What is left of a session whose detach was never answered, and the next attach.
use mini_ran.Common.{refl, ◌∙◌, length, true, [], ◌≢◌, ◌∷◌, ◌++◌, ◌⊎◌, arith, IsU64, ◌≡◌, ℕ}
use mini_ran.Nodes.Ue
use mini_ran.Nodes.Ue.{to_access_node, queue_message, start_attach, Ue}
use mini_ran.Nodes.AccessNode
use mini_ran.Nodes.AccessNode.{to_ue, queue_response_to_ue, AccessNode}
use mini_ran.Nodes.Handshake.{IsUe, next_message, next_message-IsMessage}
use mini_ran.Core.{reply}
use mini_ran.Protocol.Message.{
  named-IsMessageType, IsMessage, attaching, rejected, released, attach_request, HasType, idle,
  ProtocolMessage, error, make_message,
}
use mini_ran.Protocol.Session.{take_sequence_number, begin_attach}
use mini_ran.Transport.Datagram.{Datagram}
use mini_ran.Core.Handlers.{attach_refuses}
use mini_ran.Nodes.Frames.{reply-IsMessage, ue_receives, node_receives}

-- A UE between sessions that still has the identifier of an old one.
pub record IsStale (ue : Ue) : Type 0 where
  pub is_ue : IsUe ue
  pub between_sessions :
      (ue.session.state ≡ idle) ⊎ (ue.session.state ≡ released) ⊎ (ue.session.state ≡ rejected)
  pub old_session : ue.session.session_id ≢ 0

start_attach_stale :
    (ue : Ue) (now : ℕ)
    → IsStale ue
    → ((start_attach ue now).outgoing
        ≡ ue.outgoing ++ to_access_node ue true (next_message ue attach_request now []) now ∷ [])
      × ((start_attach ue now).session.state ≡ attaching)
      × ((start_attach ue now).session.session_id ≡ ue.session.session_id)
unfolding start_attach begin_attach queue_message take_sequence_number
start_attach_stale ue now c = ground arith

node_refuses :
    (node : AccessNode) (m : ProtocolMessage) (size now : ℕ)
    → HasType m attach_request
    → m.session_id ≢ 0
    → let after = AccessNode.route node m size now in
      (after.outgoing
        ≡ node.outgoing
          ++ to_ue node (reply error m.ue_id m.session_id m.sequence_number now) now ∷ [])
      × (after.core ≡ node.core)
unfolding AccessNode.route queue_response_to_ue
node_refuses node m size now t e = ground (arith, attach_refuses node.core m now t)

ue_ignores_error :
    (ue : Ue) (ue_id session_id number sent now : ℕ)
    → Ue.on_message ue (reply error ue_id session_id number sent) now ≡ ue
unfolding Ue.on_message
ue_ignores_error ue ue_id session_id number sent now = ground arith

-- A UE between sessions that has the identifier of an old one, and times of 64 bits: `startAttach`
-- queues one datagram, the node answers it with one and leaves its core as it was, and on that
-- answer the UE changes nothing: it goes on attaching with the old identifier.
pub stale_attach_refused :
    (ue : Ue) (node : AccessNode) (sent answered received : ℕ)
    → IsStale ue
    → IsU64 sent
    → IsU64 answered
    → (d : Datagram) × (r : Datagram) × ((start_attach ue sent).outgoing ≡ ue.outgoing ++ d ∷ [])
      × ((AccessNode.on_datagram node d answered).outgoing ≡ node.outgoing ++ r ∷ [])
      × ((AccessNode.on_datagram node d answered).core ≡ node.core)
      × (Ue.on_datagram (start_attach ue sent) r received ≡ start_attach ue sent)
      × ((start_attach ue sent).session.state ≡ attaching)
      × ((start_attach ue sent).session.session_id ≡ ue.session.session_id)
unfolding make_message
stale_attach_refused ue node sent answered received c hs ha =
    let m = next_message ue attach_request sent [] in
    let d = to_access_node ue true m sent in
    let u = c.is_ue in
    let good : IsMessage m =
      next_message-IsMessage ue attach_request sent [] u tt hs (omega arith) tt in
    let (out, state, same) = start_attach_stale ue sent c in
    let refusal = reply error m.ue_id m.session_id m.sequence_number answered in
    let r = to_ue node refusal answered in
    let (queued, kept) = node_refuses node m (length d.bytes) answered refl c.old_session in
    let arrives = node_receives node d m answered refl good in
    let returns = ue_receives (start_attach ue sent) r refusal received refl (
      reply-IsMessage error m.ue_id m.session_id m.sequence_number answered
        (named-IsMessageType error tt) (omega arith) u.session_id_fits u.number_fits ha) in
    (
      d,
      r,
      out,
      rw arrives queued,
      rw arrives kept,
      returns ∙ ue_ignores_error (start_attach ue sent) _ _ _ _ received,
      state,
      same,
    )
