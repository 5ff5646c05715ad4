-- ===== src/Core/Registry.antt =====
-- What the core promises, without a table: a registry gives for each UE its session, if it has one.
use mini_ran.Common.{
  ◌&&◌, Bool, ℕ, ◌==◌, ◌||◌, not, Option, none, some, List, [], ◌∷◌, if◌then◌else◌, length, add32,
  add64,
}
use mini_ran.Protocol.Message.{
  ProtocolMessage, attach_request, attach_accept, detach_request, detach_accept, heartbeat,
  heartbeat_ack, data_packet, error, same_type, same_state, attached,
}
use mini_ran.Protocol.Session.{SessionTimers, has_elapsed}
use mini_ran.Core.{MessageType, SessionRecord}
use mini_ran.Core.History.{Call, asks_attach, asks_detach, beats, sends, expires}

pub record Registry : Type 0 where
  pub timeout : ℕ
  pub session_of : ℕ → Option SessionRecord
  pub next_session_id : ℕ
  pub delivered_bytes : ℕ
  pub delivered_packets : ℕ

abbrev pub new_registry : SessionTimers → Registry
new_registry timers = record {
  timeout = timers.inactivity_timeout_ms;
  session_of = λ k. none;
  next_session_id = 1000;
  delivered_bytes = 0;
  delivered_packets = 0;
}

-- The registry with another entry for one UE.
abbrev pub with_entry : Registry → ℕ → Option SessionRecord → Registry
with_entry r k entry = record r { session_of = λ (j : ℕ). if k == j then entry else r.session_of j }

-- What the core writes: a message without a payload, of no flags.
abbrev pub says : MessageType → ℕ → ℕ → ℕ → ℕ → ProtocolMessage
says type ue_id session_id sequence_number now = record {
  header = record {
    version = 1;
    message_type = type;
    flags = 0;
    header_length = 28;
    sequence_number = sequence_number;
    session_id = session_id;
    ue_id = ue_id;
    timestamp_ms = now;
    payload_length = 0;
  };
  payload = [];
}

-- A session at its start, attached and seen now, with nothing counted.
abbrev pub newcomer : ℕ → ℕ → ℕ → SessionRecord
newcomer ue_id session_id now = record {
  ue_id = ue_id;
  session_id = session_id;
  state = attached;
  attached_at_ms = now;
  last_seen_ms = now;
  delivered_bytes = 0;
  delivered_packets = 0;
}

-- A new session takes the next identifier.
abbrev pub enrol : Registry → ProtocolMessage → ℕ → Registry × Option ProtocolMessage
enrol r m now = (
  record (with_entry r m.ue_id (some (newcomer m.ue_id r.next_session_id now))) {
    next_session_id = add32 r.next_session_id 1;
  },
  some (says attach_accept m.ue_id r.next_session_id m.sequence_number now),
)

abbrev pub grant :
    Registry → ProtocolMessage → ℕ → Option SessionRecord → Registry × Option ProtocolMessage
grant r m now none = enrol r m now
grant r m now (some s) =
    if same_state s.state attached
    then (
      with_entry r m.ue_id (some (record s { last_seen_ms = now })),
      some (says attach_accept m.ue_id s.session_id m.sequence_number now),
    )
    else enrol r m now

abbrev pub release :
    Registry → ProtocolMessage → ℕ → Option SessionRecord → Registry × Option ProtocolMessage
release r m now none = (r, some (says detach_accept m.ue_id m.session_id m.sequence_number now))
release r m now (some s) =
    if s.session_id == m.session_id
    then (
      with_entry r m.ue_id none,
      some (says detach_accept m.ue_id m.session_id m.sequence_number now),
    )
    else (r, some (says error m.ue_id m.session_id m.sequence_number now))

abbrev pub acknowledge :
    Registry → ProtocolMessage → ℕ → Option SessionRecord → Registry × Option ProtocolMessage
acknowledge r m now none = (r, none)
acknowledge r m now (some s) =
    if same_state s.state attached
    then (
      with_entry r m.ue_id (some (record s { last_seen_ms = now })),
      some (says heartbeat_ack m.ue_id s.session_id m.sequence_number now),
    )
    else (r, none)

-- A packet counts for an attached session under its identifier, with a payload as long as declared.
abbrev pub credits : ProtocolMessage → SessionRecord → Bool
credits m s =
    same_state s.state attached
    && m.session_id == s.session_id
    && length m.payload == m.payload_length
    && not (length m.payload == 0)

abbrev pub credit : Registry → ProtocolMessage → ℕ → Option SessionRecord → Registry
credit r m now none = r
credit r m now (some s) =
    if credits m s
    then record (with_entry r m.ue_id (
        some (record s {
          delivered_bytes = add64 s.delivered_bytes (length m.payload);
          delivered_packets = add64 s.delivered_packets 1;
          last_seen_ms = now;
        }))) {
          delivered_bytes = add64 r.delivered_bytes (length m.payload);
          delivered_packets = add64 r.delivered_packets 1;
        }
    else r

-- A session that was not seen for the timeout is gone.
abbrev pub fresh : ℕ → ℕ → Option SessionRecord → Option SessionRecord
fresh timeout now none = none
fresh timeout now (some s) = if has_elapsed now s.last_seen_ms timeout then none else some s

-- One call: the registry after it, and the reply.
abbrev pub serve : Registry → ℕ × Call → Registry × Option ProtocolMessage
serve r (now, asks_attach m) =
    if not (same_type m.message_type attach_request)
    then (r, none)
    else if m.ue_id == 0 || m.sequence_number == 0 || not (m.session_id == 0)
    then (r, some (says error m.ue_id m.session_id m.sequence_number now))
    else grant r m now (r.session_of m.ue_id)
serve r (now, asks_detach m) =
    if same_type m.message_type detach_request
    then release r m now (r.session_of m.ue_id)
    else (r, none)
serve r (now, beats m) =
    if same_type m.message_type heartbeat
    then acknowledge r m now (r.session_of m.ue_id)
    else (r, none)
serve r (now, sends m) = (
  if same_type m.message_type data_packet then credit r m now (r.session_of m.ue_id) else r,
  none,
)
serve r (now, expires) =
    (record r { session_of = λ (k : ℕ). fresh r.timeout now (r.session_of k) }, none)

abbrev pub serve_all : Registry → List (ℕ × Call) → Registry
serve_all r [] = r
serve_all r (call ∷ calls) = serve_all (serve r call).0 calls

abbrev pub replies : Registry → List (ℕ × Call) → List (Option ProtocolMessage)
replies r [] = []
replies r (call ∷ calls) = (serve r call).1 ∷ replies (serve r call).0 calls
