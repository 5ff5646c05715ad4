-- ===== src/Protocol/Session.antt =====
-- include/miniran/protocol/session_manager.h and src/protocol/session_manager.cpp: the UE's side of
-- a session. A method returns the manager after the call and its result. Times are `std::uint64_t`,
-- identifiers and counters `std::uint32_t`.
pub mod Machine
pub mod Retries
mod Examples
use mini_ran.Common.{ℕ, Bool, true, false, ◌&&◌, ◌||◌, ltb, leb, if◌then◌else◌, add32, sub64}
use mini_ran.Protocol.Message.{
  MessageType, attach_request, heartbeat, detach_request, error, SessionState, idle, attaching,
  attached, detaching, released, rejected, same_state,
}

pub record SessionTimers : Type 0 where
  pub attach_timeout_ms : ℕ
  pub detach_timeout_ms : ℕ
  pub heartbeat_interval_ms : ℕ
  pub inactivity_timeout_ms : ℕ
  pub max_attach_retries : ℕ
  pub max_detach_retries : ℕ

abbrev pub default_timers : SessionTimers
default_timers = record {
  attach_timeout_ms = 150;
  detach_timeout_ms = 150;
  heartbeat_interval_ms = 200;
  inactivity_timeout_ms = 700;
  max_attach_retries = 3;
  max_detach_retries = 2;
}

pub record RetryDecision : Type 0 where
  pub should_retransmit : Bool
  pub message_type : MessageType

-- `{}` and `{true, type}` as results of `onTick`.
abbrev pub no_retry : RetryDecision
no_retry = record { should_retransmit = false; message_type = error }

abbrev pub retransmit : MessageType → RetryDecision
retransmit type = record { should_retransmit = true; message_type = type }

pub record SessionManager : Type 0 where
  pub ue_id : ℕ
  pub timers : SessionTimers
  pub open timers use *
  pub state : SessionState
  pub session_id : ℕ
  pub next_sequence_number : ℕ
  pub last_control_tx_ms : ℕ
  pub last_heartbeat_ack_ms : ℕ
  pub attach_retry_count : ℕ
  pub detach_retry_count : ℕ

unfoldable pub make_session : ℕ → SessionTimers → SessionManager
make_session ue_id timers = record {
  ue_id = ue_id;
  timers = timers;
  state = idle;
  session_id = 0;
  next_sequence_number = 1;
  last_control_tx_ms = 0;
  last_heartbeat_ack_ms = 0;
  attach_retry_count = 0;
  detach_retry_count = 0;
}

abbrev pub in_state : SessionManager → SessionState → Bool
in_state m s = same_state m.state s

abbrev pub is_attached : SessionManager → Bool
is_attached m = in_state m attached

abbrev pub can_send_data : SessionManager → Bool
can_send_data m = is_attached m

-- `nextSequenceNumber_++`: the number before the increment.
unfoldable pub take_sequence_number : SessionManager → SessionManager × ℕ
take_sequence_number m =
    (record m { next_sequence_number = add32 m.next_sequence_number 1 }, m.next_sequence_number)

unfoldable pub begin_attach : SessionManager → ℕ → SessionManager × Bool
begin_attach m now =
    if in_state m idle || in_state m released || in_state m rejected
    then (record m { state = attaching; attach_retry_count = 0; last_control_tx_ms = now }, true)
    else (m, false)

unfoldable pub on_attach_accepted : SessionManager → ℕ → ℕ → SessionManager × Bool
on_attach_accepted m session_id now =
    if in_state m attaching
    then (
      record m {
        session_id = session_id;
        state = attached;
        last_control_tx_ms = now;
        last_heartbeat_ack_ms = now;
      },
      true,
    )
    else (m, false)

unfoldable pub begin_detach : SessionManager → ℕ → SessionManager × Bool
begin_detach m now =
    if in_state m attached
    then (record m { state = detaching; detach_retry_count = 0; last_control_tx_ms = now }, true)
    else (m, false)

unfoldable pub on_detach_accepted : SessionManager → ℕ → SessionManager × Bool
on_detach_accepted m now =
    if in_state m detaching
    then (
      record m {
        state = released;
        session_id = 0;
        last_control_tx_ms = now;
        last_heartbeat_ack_ms = now;
      },
      true,
    )
    else (m, false)

unfoldable pub on_heartbeat_response : SessionManager → ℕ → SessionManager
on_heartbeat_response m now = record m { last_heartbeat_ack_ms = now }

-- `(nowMs - since) >= limit`, in 64 bits.
abbrev pub has_elapsed : ℕ → ℕ → ℕ → Bool
has_elapsed now since limit = leb limit (sub64 now since)

unfoldable pub on_tick : SessionManager → ℕ → SessionManager × RetryDecision
on_tick m now =
    if in_state m attaching && has_elapsed now m.last_control_tx_ms m.attach_timeout_ms
    then (if ltb m.attach_retry_count m.max_attach_retries
        then (
          record m { attach_retry_count = add32 m.attach_retry_count 1; last_control_tx_ms = now },
          retransmit attach_request,
        )
        else (record m { state = rejected; attach_retry_count = 0 }, no_retry))
    else if in_state m detaching && has_elapsed now m.last_control_tx_ms m.detach_timeout_ms
    then (if ltb m.detach_retry_count m.max_detach_retries
        then (
          record m { detach_retry_count = add32 m.detach_retry_count 1; last_control_tx_ms = now },
          retransmit detach_request,
        )
        else (record m { state = released; detach_retry_count = 0 }, no_retry))
    else if in_state m attached && has_elapsed now m.last_heartbeat_ack_ms m.heartbeat_interval_ms
    then (m, retransmit heartbeat)
    else (m, no_retry)

unfoldable pub reset : SessionManager → SessionManager
reset m = record m {
  state = idle;
  session_id = 0;
  next_sequence_number = 1;
  last_control_tx_ms = 0;
  last_heartbeat_ack_ms = 0;
  attach_retry_count = 0;
  detach_retry_count = 0;
}
