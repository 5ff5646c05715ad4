-- ===== src/Nodes/Handshake.antt =====
-- The exchanges of the protocol, from the UE's call through both frames to its last state.
use mini_ran.Common.{
  sym, ◌∙◌, refl, ◌^◌, ◌<◌, ◌+◌, ◌∷◌, IsU8, true, All, ◌≢◌, some, length, ◌++◌, arith, IsU64, [],
  ◌⊎◌, IsU32, List, ◌≡◌, ℕ,
}
use mini_ran.Nodes.Ue
use mini_ran.Nodes.Ue.{to_access_node, queue_message, start_attach, Ue}
use mini_ran.Nodes.AccessNode
use mini_ran.Nodes.AccessNode.{to_ue, queue_response_to_ue, AccessNode}
use mini_ran.Protocol.Message.{
  named-IsMessageType, IsMessage, rejected, attached, released, HasType, attach_accept, IsNamed,
  attach_request, idle, ProtocolMessage, attaching, MessageType, make_message,
}
use mini_ran.Protocol.Session.{take_sequence_number, begin_attach, on_attach_accepted}
use mini_ran.Core.Handlers.{attach_establishes, IsAttachRequest}
use mini_ran.Core.{CoreNetwork, handle_attach_request, SessionRecord, reply}
use mini_ran.Nodes.Frames.{reply-IsMessage, ue_receives, node_receives, make_message-IsMessage}
use mini_ran.Core.Invariant.{IsCore}
use mini_ran.Transport.Datagram.{Datagram}
use mini_ran.Core.UnorderedMap.{find}
use mini_ran.Core.History.{step-next_session_id, asks_attach, step-IsCore}

-- The UE's numbers fit their fields, and its session is under its own identifier.
pub record IsUe (ue : Ue) : Type 0 where
  pub id_is_own : ue.session.ue_id ≡ ue.node_id
  pub id_fits : IsU32 ue.node_id
  pub session_id_fits : IsU32 ue.session.session_id
  pub number_fits : IsU32 ue.session.next_sequence_number

-- The message that the UE's session sends next.
abbrev pub next_message : Ue → MessageType → ℕ → List ℕ → ProtocolMessage
next_message ue type now payload =
    make_message type ue.session.ue_id ue.session.session_id ue.session.next_sequence_number now
      payload

pub next_message-IsMessage :
    (ue : Ue) (type : MessageType) (now : ℕ) (payload : List ℕ)
    → IsUe ue
    → IsNamed type
    → IsU64 now
    → IsU32 (length payload)
    → All IsU8 payload
    → IsMessage (next_message ue type now payload)
next_message-IsMessage ue type now payload u t w l p =
    make_message-IsMessage type _ _ _ now payload (named-IsMessageType type t) (omega arith)
      u.session_id_fits u.number_fits w l p

-- An attach may start: no attempt or session is under way, nothing is left of an old session, and
-- the numbers are ones that the core takes.
pub record CanAttach (ue : Ue) : Type 0 where
  pub is_ue : IsUe ue
  pub between_sessions :
      (ue.session.state ≡ idle) ⊎ (ue.session.state ≡ released) ⊎ (ue.session.state ≡ rejected)
  pub no_old_session : ue.session.session_id ≡ 0
  pub id_set : ue.node_id ≢ 0
  pub number_set : ue.session.next_sequence_number ≢ 0

start_attach_lem :
    (ue : Ue) (now : ℕ)
    → CanAttach ue
    → ((start_attach ue now).outgoing
        ≡ ue.outgoing ++ to_access_node ue true (next_message ue attach_request now []) now ∷ [])
      × ((start_attach ue now).session.state ≡ attaching)
      × ((start_attach ue now).node_id ≡ ue.node_id)
unfolding start_attach begin_attach queue_message take_sequence_number
start_attach_lem ue now c = ground arith

request-IsAttachRequest :
    (ue : Ue) (now : ℕ) → CanAttach ue → IsAttachRequest (next_message ue attach_request now [])
unfolding make_message
request-IsAttachRequest ue now c = ground arith

node_answers_attach :
    (node : AccessNode) (m : ProtocolMessage) (size now : ℕ) (s : SessionRecord)
    → HasType m attach_request
    → (handle_attach_request node.core m now).1
      ≡ some (reply attach_accept m.ue_id s.session_id m.sequence_number now)
    → let after = AccessNode.route node m size now in
      (after.outgoing
        ≡ node.outgoing
          ++ to_ue node (reply attach_accept m.ue_id s.session_id m.sequence_number now) now ∷ [])
      × (after.core ≡ (handle_attach_request node.core m now).0)
unfolding AccessNode.route queue_response_to_ue
node_answers_attach node m size now s t e = ground arith

-- A session that an attach request leaves in the core has an identifier of 32 bits.
granted-IsU32 :
    (core : CoreNetwork) (m : ProtocolMessage) (now : ℕ) (s : SessionRecord)
    → IsCore core
    → core.next_session_id + 1 < 2 ^ 32
    → find m.ue_id (handle_attach_request core m now).0.sessions ≡ some s
    → IsU32 s.session_id
granted-IsU32 core m now s c room e =
    let after = step-IsCore core now (asks_attach m) room c in
    let entry = after.entries m.ue_id s e in
    omega (arith, entry.3, step-next_session_id core now (asks_attach m) room)

ue_takes_accept :
    (ue : Ue) (ue_id session_id number sent now : ℕ)
    → ue.node_id ≡ ue_id
    → ue.session.state ≡ attaching
    → let after = Ue.on_message ue (reply attach_accept ue_id session_id number sent) now in
      (after.session.state ≡ attached) × (after.session.session_id ≡ session_id)
unfolding Ue.on_message on_attach_accepted
ue_takes_accept ue ue_id session_id number sent now i a = ground arith

-- The whole attach, for a UE that may attach, a core in order whose next session identifier does
-- not wrap, and times of 64 bits. `startAttach` queues one datagram, the node answers it with one,
-- and with that answer the UE is attached, under the identifier of the session, attached too, that
-- the core then holds for it.
pub attach_handshake :
    (ue : Ue) (node : AccessNode) (sent answered received : ℕ)
    → CanAttach ue
    → IsCore node.core
    → node.core.next_session_id + 1 < 2 ^ 32
    → IsU64 sent
    → IsU64 answered
    → (d : Datagram) × (r : Datagram) × (s : SessionRecord) × ((start_attach ue sent).outgoing
        ≡ ue.outgoing ++ d ∷ [])
      × ((AccessNode.on_datagram node d answered).outgoing ≡ node.outgoing ++ r ∷ [])
      × (find ue.node_id (AccessNode.on_datagram node d answered).core.sessions ≡ some s)
      × (s.state ≡ attached)
      × ((Ue.on_datagram (start_attach ue sent) r received).session.state ≡ attached)
      × ((Ue.on_datagram (start_attach ue sent) r received).session.session_id ≡ s.session_id)
unfolding make_message
attach_handshake ue node sent answered received c core room hs ha =
    let m = next_message ue attach_request sent [] in
    let d = to_access_node ue true m sent in
    let u = c.is_ue in
    let good : IsMessage m =
      next_message-IsMessage ue attach_request sent [] u tt hs (omega arith) tt in
    let (out, state, id) = start_attach_lem ue sent c in
    let (s, found, active, _, answer, _) =
      attach_establishes node.core m answered (request-IsAttachRequest ue sent c) in
    let accept = reply attach_accept m.ue_id s.session_id m.sequence_number answered in
    let small : IsU32 s.session_id = granted-IsU32 node.core m answered s core room found in
    let r = to_ue node accept answered in
    let (queued, after) = node_answers_attach node m (length d.bytes) answered s refl answer in
    let arrives = node_receives node d m answered refl good in
    let returns = ue_receives (start_attach ue sent) r accept received refl (
      reply-IsMessage attach_accept m.ue_id s.session_id m.sequence_number answered
        (named-IsMessageType attach_accept tt) (omega arith) small u.number_fits ha) in
    let (attached_now, same) =
      ue_takes_accept (start_attach ue sent) m.ue_id s.session_id m.sequence_number answered
        received (id ∙ sym u.id_is_own) state in
    (
      d,
      r,
      s,
      out,
      rw arrives queued,
      rw (arrives, after, ← u.id_is_own) found,
      active,
      rw returns attached_now,
      rw returns same,
    )
