-- ===== src/Nodes/Control.antt =====
-- The control messages of both nodes, which carry no payload.
use mini_ran.Protocol.Codec.Layout.{frame, IsBytes}
use mini_ran.Protocol.Message.{
  heartbeat_ack, attached, same_state, detach_accept, heartbeat, attach_accept, error,
  attach_request, detach_request, IsNamed, ProtocolMessage, make_message, MessageType,
  named-IsMessageType, IsMessageType, data_packet, same_type,
}
use mini_ran.Common.{
  inr, inl, Option-cases, ◌||◌, ◌==◌, refl, [], not, false, if_cases, none, IsU8, arith, some, ◌≡◌,
  Option, ℕ,
}
use mini_ran.Core.{
  has_active_session, reply, CoreNetwork, handle_attach_request, handle_detach_request,
  handle_heartbeat,
}
use mini_ran.Core.UnorderedMap.{find}

-- A message without payload whose type is not that of data.
pub record IsControl (m : ProtocolMessage) : Type 0 where
  pub version_fits : IsU8 m.version
  pub flags_fit : IsU8 m.flags
  pub header_length_fits : IsU8 m.header_length
  pub type_fits : IsMessageType m.message_type
  pub no_data : same_type m.message_type data_packet ≡ false
  pub no_payload : m.payload ≡ []

pub control-IsBytes : (m : ProtocolMessage) → IsControl m → IsBytes (frame m)
control-IsBytes m v = ground (arith, v.no_payload)

pub make_message-IsControl :
    (type : MessageType) (ue_id session_id number now : ℕ)
    → IsNamed type
    → same_type type data_packet ≡ false
    → IsControl (make_message type ue_id session_id number now [])
unfolding make_message
make_message-IsControl type ue_id session_id number now t n = record {
  version_fits = omega arith;
  flags_fit = omega arith;
  header_length_fits = omega arith;
  type_fits = named-IsMessageType type t;
  no_data = n;
  no_payload = refl;
}

pub reply-IsControl :
    (type : MessageType) (ue_id session_id number now : ℕ)
    → IsNamed type
    → same_type type data_packet ≡ false
    → IsControl (reply type ue_id session_id number now)
reply-IsControl type ue_id session_id number now t n = record {
  version_fits = omega arith;
  flags_fit = omega arith;
  header_length_fits = omega arith;
  type_fits = named-IsMessageType type t;
  no_data = n;
  no_payload = refl;
}

-- What a handler answers with, if it does.
abbrev pub Answers : Option ProtocolMessage → Type 0
Answers none = Unit {0}
Answers (some m) = IsControl m

pub attach-Answers :
    (core : CoreNetwork) (m : ProtocolMessage) (now : ℕ)
    → Answers (handle_attach_request core m now).1
unfolding handle_attach_request
attach-Answers core m now =
    let is = λ (p : CoreNetwork × Option ProtocolMessage). Answers p.1 in
    let number = m.sequence_number in
    if_cases is (not (same_type m.message_type attach_request)) _ _ tt (
      if_cases is (m.ue_id == 0 || number == 0 || not (m.session_id == 0)) _ _
        (reply-IsControl error m.ue_id m.session_id number now tt refl)
        (if_cases is (has_active_session core m.ue_id) _ _
          (reply-IsControl attach_accept m.ue_id _ number now tt refl)
          (reply-IsControl attach_accept m.ue_id core.next_session_id number now tt refl)))

pub detach-Answers :
    (core : CoreNetwork) (m : ProtocolMessage) (now : ℕ)
    → Answers (handle_detach_request core m now).1
unfolding handle_detach_request
detach-Answers core m now =
    let is = λ (p : CoreNetwork × Option ProtocolMessage). Answers p.1 in
    let accepts =
      reply-IsControl detach_accept m.ue_id m.session_id m.sequence_number now tt refl in
    let refuses = reply-IsControl error m.ue_id m.session_id m.sequence_number now tt refl in
    if_cases is (not (same_type m.message_type detach_request)) _ _ tt
      (elim (Option-cases (find m.ue_id core.sessions)) [
        | inl e ↦ rw e accepts
        | inr (s, e) ↦ rw e (if_cases is (not (s.session_id == m.session_id)) _ _ refuses accepts)
      ])

pub heartbeat-Answers :
    (core : CoreNetwork) (m : ProtocolMessage) (now : ℕ) → Answers (handle_heartbeat core m now).1
unfolding handle_heartbeat
heartbeat-Answers core m now =
    let is = λ (p : CoreNetwork × Option ProtocolMessage). Answers p.1 in
    if_cases is (not (same_type m.message_type heartbeat)) _ _ tt
      (elim (Option-cases (find m.ue_id core.sessions)) [
        | inl e ↦ rw e tt
        | inr (s, e) ↦ rw e (
            if_cases is (not (same_state s.state attached)) _ _ tt (
              make_message-IsControl heartbeat_ack m.ue_id s.session_id m.sequence_number now tt
                refl))
      ])
