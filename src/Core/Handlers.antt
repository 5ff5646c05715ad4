-- ===== src/Core/Handlers.antt =====
-- What each handler of the core that answers does and answers, on every branch.
use mini_ran.Common.{inr, [], inl, ◌⊎◌, if◌then◌else◌, arith, ◌≢◌, ℕ, ◌≡◌, none, some}
use mini_ran.Protocol.Message.{HasType, ProtocolMessage, attached, attach_request, attach_accept}
use mini_ran.Core.UnorderedMap.{find-erase, IsTable, find-insert, find, insert}
use mini_ran.Core.{
  heartbeat_ack, detach_accept, make_message, error, detach_request, heartbeat,
  handle_detach_request, handle_heartbeat, same_state, SessionRecord, CoreNetwork, new_session,
  handle_attach_request, reply,
}

-- A request that `handleAttachRequest` does not refuse.
pub record IsAttachRequest (m : ProtocolMessage) : Type 0 where
  pub type_is : HasType m attach_request
  pub ue_id_set : m.ue_id ≢ 0
  pub number_set : m.sequence_number ≢ 0
  pub no_session : m.session_id ≡ 0

-- The session that such a request is answered with.
granted : CoreNetwork → ProtocolMessage → ℕ → SessionRecord
granted core m now = elim (find m.ue_id core.sessions) [
  | none ↦ new_session m.ue_id core.next_session_id now
  | some s ↦
      if same_state s.state attached
      then record s { last_seen_ms = now }
      else new_session m.ue_id core.next_session_id now
]

granted-attached :
    (core : CoreNetwork) (m : ProtocolMessage) (now : ℕ)
    → ((granted core m now).state ≡ attached) × ((granted core m now).last_seen_ms ≡ now)
unfolding granted
granted-attached core m now = ground arith

attach_lem :
    (core : CoreNetwork) (m : ProtocolMessage) (now : ℕ)
    → IsAttachRequest m
    → ((handle_attach_request core m now).0.sessions
        ≡ insert m.ue_id (granted core m now) core.sessions)
      × ((handle_attach_request core m now).1
          ≡ some
              (reply attach_accept m.ue_id (granted core m now).session_id m.sequence_number now))
unfolding granted handle_attach_request
attach_lem core m now r = ground arith

-- After an attach request with a UE identifier and a sequence number that are not 0 and no session
-- identifier, the UE has a session, attached and seen now; the reply accepts under that session's
-- identifier; the other UEs' sessions are as they were.
pub attach_establishes :
    (core : CoreNetwork) (m : ProtocolMessage) (now : ℕ)
    → IsAttachRequest m
    → let after = (handle_attach_request core m now).0 in
      (s : SessionRecord) × (find m.ue_id after.sessions ≡ some s)
      × (s.state ≡ attached)
      × (s.last_seen_ms ≡ now)
      × ((handle_attach_request core m now).1
          ≡ some (reply attach_accept m.ue_id s.session_id m.sequence_number now))
      × ((k : ℕ) → k ≢ m.ue_id → find k after.sessions ≡ find k core.sessions)
attach_establishes core m now r =
    let g = granted core m now in
    let (sessions, answer) = attach_lem core m now r in
    let (state, seen) = granted-attached core m now in
    (
      g,
      rw (sessions, find-insert m.ue_id m.ue_id g core.sessions) (ground arith),
      state,
      seen,
      answer,
      λ k ne. rw (sessions, find-insert m.ue_id k g core.sessions) (ground arith),
    )

-- An attach request without a UE identifier, without a sequence number or with a session identifier
-- changes nothing and is answered by an error that carries its identifiers back.
pub attach_refuses :
    (core : CoreNetwork) (m : ProtocolMessage) (now : ℕ)
    → HasType m attach_request
    → (m.ue_id ≡ 0) ⊎ (m.sequence_number ≡ 0) ⊎ (m.session_id ≢ 0)
    → handle_attach_request core m now
      ≡ (core, some (reply error m.ue_id m.session_id m.sequence_number now))
unfolding handle_attach_request
attach_refuses core m now t bad = ground arith

attach_refreshes :
    (core : CoreNetwork) (m : ProtocolMessage) (k now : ℕ) (s : SessionRecord)
    → IsAttachRequest m
    → m.ue_id ≡ k
    → find k core.sessions ≡ some s
    → s.state ≡ attached
    → handle_attach_request core m now ≡ (
      record core { sessions = insert k (record s { last_seen_ms = now }) core.sessions },
      some (reply attach_accept k s.session_id m.sequence_number now),
    )
unfolding handle_attach_request
attach_refreshes core m k now s r u e a = ground arith

-- Two attach requests of one UE that are in order, the second right after the first at any time:
-- the second is accepted under the identifier of the session that the first left, and changes only
-- the time that the session was seen.
pub attach_again :
    (core : CoreNetwork) (m m' : ProtocolMessage) (now later : ℕ)
    → IsAttachRequest m
    → IsAttachRequest m'
    → m'.ue_id ≡ m.ue_id
    → let first = handle_attach_request core m now in
      (s : SessionRecord) × (find m.ue_id first.0.sessions ≡ some s)
      × (handle_attach_request first.0 m' later ≡ (
        record first.0 {
          sessions = insert m.ue_id (record s { last_seen_ms = later }) first.0.sessions;
        },
        some (reply attach_accept m.ue_id s.session_id m'.sequence_number later),
      ))
attach_again core m m' now later r r' same =
    let (s, found, state, _, _, _) = attach_establishes core m now r in
    (
      s,
      found,
      attach_refreshes (handle_attach_request core m now).0 m' m.ue_id later s r' same found state,
    )

-- A detach request, when the UE has no session or has the one that the request names, is accepted;
-- after it the UE has none, and the other UEs' sessions are as they were.
pub detach_releases :
    (core : CoreNetwork) (m : ProtocolMessage) (now : ℕ)
    → IsTable core.sessions
    → HasType m detach_request
    → (find m.ue_id core.sessions ≡ none)
      ⊎ ((s : SessionRecord) × (find m.ue_id core.sessions ≡ some s)
          × (s.session_id ≡ m.session_id))
    → let after = (handle_detach_request core m now).0 in
      (find m.ue_id after.sessions ≡ none)
      × ((handle_detach_request core m now).1
          ≡ some (reply detach_accept m.ue_id m.session_id m.sequence_number now))
      × ((k : ℕ) → k ≢ m.ue_id → find k after.sessions ≡ find k core.sessions)
unfolding handle_detach_request
detach_releases core m now h t (inl e) = (ground arith, ground arith, λ k ne. ground arith)
detach_releases core m now h t (inr (s, e, i)) = (
  ground (arith, find-erase m.ue_id m.ue_id core.sessions h),
  ground arith,
  λ k ne. ground (arith, find-erase m.ue_id k core.sessions h),
)

-- A detach request that names another session than the UE has changes nothing and is answered by an
-- error that carries its identifiers back.
pub detach_refuses :
    (core : CoreNetwork) (m : ProtocolMessage) (now : ℕ) (s : SessionRecord)
    → HasType m detach_request
    → find m.ue_id core.sessions ≡ some s
    → s.session_id ≢ m.session_id
    → handle_detach_request core m now
      ≡ (core, some (reply error m.ue_id m.session_id m.sequence_number now))
unfolding handle_detach_request
detach_refuses core m now s t e ne = ground arith

-- A heartbeat of a UE with an attached session, whatever session it names, marks the UE's session
-- as seen now and is acknowledged under its identifier; the other UEs' sessions are as they were.
pub heartbeat_refreshes :
    (core : CoreNetwork) (m : ProtocolMessage) (now : ℕ) (s : SessionRecord)
    → HasType m heartbeat
    → find m.ue_id core.sessions ≡ some s
    → s.state ≡ attached
    → let after = handle_heartbeat core m now in
      (find m.ue_id after.0.sessions ≡ some (record s { last_seen_ms = now }))
      × (after.1 ≡ some (make_message heartbeat_ack m.ue_id s.session_id m.sequence_number now []))
      × ((k : ℕ) → k ≢ m.ue_id → find k after.0.sessions ≡ find k core.sessions)
unfolding handle_heartbeat
heartbeat_refreshes core m now s t e a =
    let seen : SessionRecord = record s { last_seen_ms = now } in
    (
      ground (arith, find-insert m.ue_id m.ue_id seen core.sessions),
      ground arith,
      λ k ne. ground (arith, find-insert m.ue_id k seen core.sessions),
    )
