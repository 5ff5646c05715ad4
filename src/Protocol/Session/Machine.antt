-- ===== src/Protocol/Session/Machine.antt =====
-- The session as a state machine: its events, the edges that they may take, and its invariant.
use mini_ran.Common.{
  ◌∷◌, [], inl, inr, refl, false, Bool-cases, true, ◌⊎◌, ◌||◌, List, Bool, IsU32, arith, ◌≡◌, ◌≢◌,
  ℕ, ◌≤◌,
}
use mini_ran.Protocol.Message.{
  SessionState, idle, attaching, attached, detaching, released, rejected, same_state,
}
use mini_ran.Protocol.Session.{
  SessionManager, SessionTimers, make_session, take_sequence_number, begin_attach,
  on_attach_accepted, begin_detach, on_detach_accepted, on_heartbeat_response, on_tick, reset,
}

-- A call of each method that changes the manager.
pub data Event : Type 0 where
  draws_number begins_attach begins_detach : Event
  detach_acknowledged heartbeat_answered ticks resets : Event
  attach_acknowledged : ℕ → Event

abbrev pub step : SessionManager → ℕ × Event → SessionManager
step m (now, draws_number) = (take_sequence_number m).0
step m (now, begins_attach) = (begin_attach m now).0
step m (now, begins_detach) = (begin_detach m now).0
step m (now, detach_acknowledged) = (on_detach_accepted m now).0
step m (now, heartbeat_answered) = on_heartbeat_response m now
step m (now, ticks) = (on_tick m now).0
step m (now, resets) = reset m
step m (now, attach_acknowledged id) = (on_attach_accepted m id now).0

abbrev pub run : SessionManager → List (ℕ × Event) → SessionManager
run m [] = m
run m (e ∷ es) = run (step m e) es

-- The moves of the protocol.
pub data Edge : SessionState → SessionState → Type 0 where
  begins : Edge idle attaching
  begins_again : Edge released attaching
  begins_after_refusal : Edge rejected attaching
  gives_up : Edge attaching rejected
  is_accepted : Edge attaching attached
  leaves : Edge attached detaching
  is_released : Edge detaching released

abbrev pub Moves : SessionState → SessionState → Type 0
Moves s t = (s ≡ t) ⊎ Edge s t

-- The same as a test, which the methods compute to.
is_edge : SessionState → SessionState → Bool
is_edge idle attaching = true
is_edge released attaching = true
is_edge rejected attaching = true
is_edge attaching rejected = true
is_edge attaching attached = true
is_edge attached detaching = true
is_edge detaching released = true
is_edge _ _ = false

is_edge-Edge : (s t : SessionState) → is_edge s t ≡ true → Edge s t
unfolding is_edge
is_edge-Edge idle attaching h = begins
is_edge-Edge released attaching h = begins_again
is_edge-Edge rejected attaching h = begins_after_refusal
is_edge-Edge attaching rejected h = gives_up
is_edge-Edge attaching attached h = is_accepted
is_edge-Edge attached detaching h = leaves
is_edge-Edge detaching released h = is_released
is_edge-Edge _ _ h = cc

may_move : SessionState → SessionState → Bool
may_move s t = same_state s t || is_edge s t

same_state-eq : (s t : SessionState) → same_state s t ≡ true → s ≡ t
same_state-eq s t h = ground arith

may_move-Moves : (s t : SessionState) → may_move s t ≡ true → Moves s t
unfolding may_move
may_move-Moves s t h = elim (Bool-cases (same_state s t)) [
  | inl same ↦ inl (same_state-eq s t same)
  | inr other ↦ inr (is_edge-Edge s t (rw other at h))
]

step-may_move :
    (m : SessionManager) (now : ℕ) (e : Event)
    → e ≢ resets
    → may_move m.state (step m (now, e)).state ≡ true
unfolding may_move is_edge take_sequence_number begin_attach on_attach_accepted begin_detach
    on_detach_accepted on_heartbeat_response on_tick
step-may_move m now resets h = absurd (h refl)
step-may_move m now _ h = ground arith

-- Every call but `reset` keeps the state or takes an edge of the protocol.
pub step-Moves :
    (m : SessionManager) (now : ℕ) (e : Event) → e ≢ resets → Moves m.state (step m (now, e)).state
step-Moves m now e h = may_move-Moves _ _ (step-may_move m now e h)

-- Limits of the timers fit their type, and so do the counters; no retry count passes its limit;
-- a session that has not begun has no identifier.
pub record IsSession (m : SessionManager) : Type 0 where
  pub attach_limit_fits : IsU32 m.max_attach_retries
  pub detach_limit_fits : IsU32 m.max_detach_retries
  pub attach_retries_le : m.attach_retry_count ≤ m.max_attach_retries
  pub detach_retries_le : m.detach_retry_count ≤ m.max_detach_retries
  pub sequence_number_fits : IsU32 m.next_sequence_number
  pub idle_has_no_id : m.state ≡ idle → m.session_id ≡ 0

pub make_session-IsSession :
    (ue_id : ℕ) (timers : SessionTimers)
    → IsU32 timers.max_attach_retries
    → IsU32 timers.max_detach_retries
    → IsSession (make_session ue_id timers)
unfolding make_session
make_session-IsSession ue_id timers ha hd = ground arith

pub step-IsSession :
    (m : SessionManager) (now : ℕ) (e : Event) → IsSession m → IsSession (step m (now, e))
unfolding take_sequence_number begin_attach on_attach_accepted begin_detach on_detach_accepted
    on_heartbeat_response on_tick reset
step-IsSession m now resets v = ground arith
step-IsSession m now _ v = ground arith

-- Any history of calls keeps this: both retry limits fit 32 bits, neither retry counter passes its
-- limit, the sequence number fits 32 bits, and an idle session has no identifier.
pub run-IsSession :
    (m : SessionManager) (es : List (ℕ × Event)) → IsSession m → IsSession (run m es)
run-IsSession m [] v = v
run-IsSession m ((now, e) ∷ es) v = run-IsSession (step m (now, e)) es (step-IsSession m now e v)
