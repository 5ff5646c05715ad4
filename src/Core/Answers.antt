-- ===== src/Core/Answers.antt =====
-- Each request that the core answers, on every branch of its handler.
use mini_ran.Common.{ℕ, ◌≡◌, ◌≢◌, ◌⊎◌, ◌==◌, ◌||◌, not, inl, inr, some, none, arith, Bool-cases}
use mini_ran.Protocol.Message.{
  attach_request, attach_accept, detach_accept, error, attached, HasType, ProtocolMessage,
}
use mini_ran.Core.UnorderedMap.{find}
use mini_ran.Core.{handle_attach_request, reply, SessionRecord, handle_detach_request, CoreNetwork}
use mini_ran.Core.Handlers.{attach_establishes, attach_refuses, IsAttachRequest}

-- The UE has a session, attached and seen now, under which the reply accepts; the others' stay.
abbrev pub IsEstablished : CoreNetwork → ProtocolMessage → ℕ → CoreNetwork → Type 0
IsEstablished core m now after =
    (s : SessionRecord) × (find m.ue_id after.sessions ≡ some s)
    × (s.state ≡ attached)
    × (s.last_seen_ms ≡ now)
    × ((handle_attach_request core m now).1
        ≡ some (reply attach_accept m.ue_id s.session_id m.sequence_number now))
    × ((k : ℕ) → k ≢ m.ue_id → find k after.sessions ≡ find k core.sessions)

-- An attach request is in order or it is not. If it is, with a UE identifier and a sequence number
-- that are not 0 and no session identifier, then after it the UE has a session, attached and seen
-- now, the reply accepts under that session's identifier, and the other UEs' sessions are as they
-- were. If not, nothing changes, and the reply is an error that carries the request's identifiers.
pub attach_answers :
    (core : CoreNetwork) (m : ProtocolMessage) (now : ℕ)
    → HasType m attach_request
    → IsAttachRequest m × IsEstablished core m now (handle_attach_request core m now).0
      ⊎ ((m.ue_id ≡ 0) ⊎ (m.sequence_number ≡ 0) ⊎ (m.session_id ≢ 0))
        × (handle_attach_request core m now
            ≡ (core, some (reply error m.ue_id m.session_id m.sequence_number now)))
attach_answers core m now t =
    elim (Bool-cases (m.ue_id == 0 || m.sequence_number == 0 || not (m.session_id == 0))) [
      | inl bad ↦
          let why : (m.ue_id ≡ 0) ⊎ (m.sequence_number ≡ 0) ⊎ (m.session_id ≢ 0) = ground arith in
          inr (why, attach_refuses core m now t why)
      | inr good ↦
          let request : IsAttachRequest m = ground arith in
          inl (request, attach_establishes core m now request)
    ]

-- The reply accepts, the UE has no session any more, and the others' stay.
abbrev pub IsReleased : CoreNetwork → ProtocolMessage → ℕ → CoreNetwork → Type 0
IsReleased core m now after =
    (find m.ue_id after.sessions ≡ none)
    × ((handle_detach_request core m now).1
        ≡ some (reply detach_accept m.ue_id m.session_id m.sequence_number now))
    × ((k : ℕ) → k ≢ m.ue_id → find k after.sessions ≡ find k core.sessions)
