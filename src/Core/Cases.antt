-- ===== src/Core/Cases.antt =====
-- What each handler can do to the core, as rules to prove a property of the core after it.
use mini_ran.Common.{
  add64, length, Option-cases, add32, arith, false, true, ◌≢◌, ℕ, ◌≡◌, some, inl, inr,
}
use mini_ran.Protocol.Message.{ProtocolMessage, attached, same_state}
use mini_ran.Core.UnorderedMap.{find, insert, erase}
use mini_ran.Core.{
  SessionRecord, CoreNetwork, has_active_session, new_session, count_packet, handle_attach_request,
  handle_detach_request, handle_heartbeat, handle_data,
}

same_state-attached : (s : SessionRecord) → same_state s.state attached ≡ true → s.state ≡ attached
same_state-attached s h = ground arith

-- An attach request changes nothing, refreshes the session of its UE, or gives it a new one.
pub attach_cases :
    (P : CoreNetwork → Type 0) (core : CoreNetwork) (m : ProtocolMessage) (now : ℕ)
    → P core
    → ((s : SessionRecord)
        → find m.ue_id core.sessions ≡ some s
        → s.state ≡ attached
        → m.ue_id ≢ 0
        → P (record core {
          sessions = insert m.ue_id (record s { last_seen_ms = now }) core.sessions;
        }))
    → (has_active_session core m.ue_id ≡ false
        → m.ue_id ≢ 0
        → P (record core {
          sessions = insert m.ue_id (new_session m.ue_id core.next_session_id now) core.sessions;
          next_session_id = add32 core.next_session_id 1;
        }))
    → P (handle_attach_request core m now).0
unfolding handle_attach_request
attach_cases P core m now kept refreshed created =
    elim (Option-cases (find m.ue_id core.sessions)) [
      | inl e ↦ ground (arith, created)
      | inr (s, e) ↦ ground (arith, refreshed s e, created)
    ]

-- A detach request changes nothing or erases the entry of its UE.
pub detach_cases :
    (P : CoreNetwork → Type 0) (core : CoreNetwork) (m : ProtocolMessage) (now : ℕ)
    → P core
    → ((s : SessionRecord)
        → find m.ue_id core.sessions ≡ some s
        → P (record core { sessions = erase m.ue_id core.sessions }))
    → P (handle_detach_request core m now).0
unfolding handle_detach_request
detach_cases P core m now kept erased = elim (Option-cases (find m.ue_id core.sessions)) [
  | inl e ↦ ground arith
  | inr (s, e) ↦ ground (arith, erased s e)
]

-- A heartbeat changes nothing or refreshes the session of its UE.
pub heartbeat_cases :
    (P : CoreNetwork → Type 0) (core : CoreNetwork) (m : ProtocolMessage) (now : ℕ)
    → P core
    → ((s : SessionRecord)
        → find m.ue_id core.sessions ≡ some s
        → s.state ≡ attached
        → P (record core {
          sessions = insert m.ue_id (record s { last_seen_ms = now }) core.sessions;
        }))
    → P (handle_heartbeat core m now).0
unfolding handle_heartbeat
heartbeat_cases P core m now kept refreshed = elim (Option-cases (find m.ue_id core.sessions)) [
  | inl e ↦ ground arith
  | inr (s, e) ↦ ground (arith, refreshed s e)
]

-- A data packet changes nothing or is counted once, for its session and in all.
pub data_cases :
    (P : CoreNetwork → Type 0) (core : CoreNetwork) (m : ProtocolMessage) (now : ℕ)
    → P core
    → ((s : SessionRecord)
        → find m.ue_id core.sessions ≡ some s
        → s.state ≡ attached
        → length m.payload ≢ 0
        → P (record core {
          sessions = insert m.ue_id (count_packet s (length m.payload) now) core.sessions;
          delivered_bytes = add64 core.delivered_bytes (length m.payload);
          delivered_packets = add64 core.delivered_packets 1;
        }))
    → P (handle_data core m now)
unfolding handle_data
data_cases P core m now kept counted = elim (Option-cases (find m.ue_id core.sessions)) [
  | inl e ↦ ground arith
  | inr (s, e) ↦ ground (arith, counted s e)
]
