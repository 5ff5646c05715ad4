-- ===== src/Core/Data.antt =====
-- Which packets the core counts: `handleData` on every branch.
use mini_ran.Common.{
  false, not, ◌==◌, ◌&&◌, Bool-cases, Bool, true, Option-cases, inr, inl, add64, length, ◌⊎◌, arith,
  ◌≢◌, ℕ, ◌≡◌, some,
}
use mini_ran.Protocol.Message.{HasType, ProtocolMessage, attached, data_packet}
use mini_ran.Core.{same_state, find, same_type, insert, CoreNetwork, SessionRecord, handle_data}

-- The packets that the core counts: of an attached session, under its identifier, with a payload
-- that is there and as long as the header says.
pub record IsAccepted (core : CoreNetwork) (m : ProtocolMessage) (s : SessionRecord) : Type 0 where
  pub type_is : HasType m data_packet
  pub found : find m.ue_id core.sessions ≡ some s
  pub active : s.state ≡ attached
  pub id_matches : m.session_id ≡ s.session_id
  pub length_matches : length m.payload ≡ m.payload_length
  pub nonempty : length m.payload ≢ 0

accepts : ProtocolMessage → SessionRecord → Bool
accepts m s =
    same_type m.message_type data_packet
    && same_state s.state attached
    && m.session_id == s.session_id
    && length m.payload == m.payload_length
    && not (length m.payload == 0)

accepts-IsAccepted :
    (core : CoreNetwork) (m : ProtocolMessage) (s : SessionRecord)
    → find m.ue_id core.sessions ≡ some s
    → accepts m s ≡ true
    → IsAccepted core m s
unfolding accepts
accepts-IsAccepted core m s e h = ground arith

IsAccepted-accepts :
    (core : CoreNetwork) (m : ProtocolMessage) (s r : SessionRecord)
    → find m.ue_id core.sessions ≡ some s
    → IsAccepted core m r
    → accepts m s ≡ true
unfolding accepts
IsAccepted-accepts core m s r e a = ground arith

data_ignored :
    (core : CoreNetwork) (m : ProtocolMessage) (now : ℕ) (s : SessionRecord)
    → find m.ue_id core.sessions ≡ some s
    → accepts m s ≡ false
    → handle_data core m now ≡ core
unfolding accepts handle_data
data_ignored core m now s e h = ground arith

-- For any core and message, one of two. Either the core holds a session for which the message is
-- accepted, that is a data packet under an attached session's identifier with a payload that is
-- there and as long as the header says; then `handleData` adds the payload's size to the bytes and
-- one to the packets, modulo 2 ^ 64, both of that session and of the totals, notes the time as when
-- the session was last seen, and changes nothing else. Or no session makes it accepted; then
-- `handleData` changes nothing.
pub data_counted_exactly :
    (core : CoreNetwork) (m : ProtocolMessage) (now : ℕ)
    → ((s : SessionRecord) × IsAccepted core m s
        × (handle_data core m now ≡ record core {
          sessions =
              insert m.ue_id
                (record s {
                  delivered_bytes = add64 s.delivered_bytes (length m.payload);
                  delivered_packets = add64 s.delivered_packets 1;
                  last_seen_ms = now;
                })
                core.sessions;
          delivered_bytes = add64 core.delivered_bytes (length m.payload);
          delivered_packets = add64 core.delivered_packets 1;
        }))
      ⊎ (((s : SessionRecord) → ¬ IsAccepted core m s) × (handle_data core m now ≡ core))
unfolding handle_data
data_counted_exactly core m now = elim (Option-cases (find m.ue_id core.sessions)) [
  | inl e ↦ inr (λ s a. cc (a.found), ground arith)
  | inr (s, e) ↦ elim (Bool-cases (accepts m s)) [
    | inl good ↦
        inl (
          s,
          accepts-IsAccepted core m s e good,
          ground (arith, accepts-IsAccepted core m s e good),
        )
    | inr bad ↦
        inr (λ r a. cc (bad, IsAccepted-accepts core m s r e a), data_ignored core m now s e bad)
  ]
]
