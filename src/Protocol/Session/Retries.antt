-- ===== src/Protocol/Session/Retries.antt =====
-- How often a control message is sent again: what a series of ticks does to a session.
use mini_ran.Common.{
  refl, ◌⊎◌, All, leb, suc, zero, suc, arith, replicate, IsU64, length, ◌+◌, ◌≡◌, if◌then◌else◌,
  List, ◌∷◌, [], ℕ, ◌≤◌,
}
use mini_ran.Protocol.Message.{
  detach_request, released, heartbeat, detaching, idle, attached, MessageType, attach_request,
  attaching, rejected,
}
use mini_ran.Protocol.Session.{SessionManager, on_tick}
use mini_ran.Protocol.Session.Machine.{IsSession}

-- The manager after ticks at these times, and the messages that it asked to send, oldest first.
pub tick_all : SessionManager → List ℕ → SessionManager × List MessageType
tick_all m [] = (m, [])
tick_all m (now ∷ times) =
    let (m', decision) = on_tick m now in
    let (last, sent) = tick_all m' times in
    (last, if decision.should_retransmit then decision.message_type ∷ sent else sent)

-- Each time is at least `limit` after the one before it, the first after `since`.
abbrev pub Spaced : ℕ → ℕ → List ℕ → Type 0
Spaced limit since [] = Unit {0}
Spaced limit since (now ∷ times) = (since + limit ≤ now) × IsU64 now × Spaced limit now times

-- A session that is attaching, with `n` retries left and no answer, is ticked `n + 1` times, each
-- time at least the timeout after the last: the request is sent again `n` times, and the attempt
-- ends in `rejected`.
pub attach_gives_up :
    (m : SessionManager) (n : ℕ) (times : List ℕ)
    → IsSession m
    → m.state ≡ attaching
    → m.attach_retry_count + n ≡ m.max_attach_retries
    → Spaced m.attach_timeout_ms m.last_control_tx_ms times
    → length times ≡ n + 1
    → ((tick_all m times).0.state ≡ rejected) × ((tick_all m times).1 ≡ replicate n attach_request)
unfolding tick_all on_tick
attach_gives_up m n [] v s left gaps size = absurd (omega arith)
attach_gives_up m zero (now ∷ []) v s left gaps size = ground arith
attach_gives_up m zero (now ∷ _ ∷ _) v s left gaps size = absurd (omega arith)
attach_gives_up m (suc n) (now ∷ times) v s left gaps size = ground (
  arith,
  attach_gives_up
      (record m { attach_retry_count = m.attach_retry_count + 1; last_control_tx_ms = now }) n
      times,
)

-- A session that is detaching, with `n` retries left and no answer, is ticked `n + 1` times, each
-- time at least the timeout after the last: the request is sent again `n` times, the session ends
-- in `released`, and it keeps its session identifier.
pub detach_gives_up :
    (m : SessionManager) (n : ℕ) (times : List ℕ)
    → IsSession m
    → m.state ≡ detaching
    → m.detach_retry_count + n ≡ m.max_detach_retries
    → Spaced m.detach_timeout_ms m.last_control_tx_ms times
    → length times ≡ n + 1
    → ((tick_all m times).0.state ≡ released)
      × ((tick_all m times).0.session_id ≡ m.session_id)
      × ((tick_all m times).1 ≡ replicate n detach_request)
unfolding tick_all on_tick
detach_gives_up m n [] v s left gaps size = absurd (omega arith)
detach_gives_up m zero (now ∷ []) v s left gaps size = ground arith
detach_gives_up m zero (now ∷ _ ∷ _) v s left gaps size = absurd (omega arith)
detach_gives_up m (suc n) (now ∷ times) v s left gaps size = ground (
  arith,
  detach_gives_up
      (record m { detach_retry_count = m.detach_retry_count + 1; last_control_tx_ms = now }) n
      times,
)

-- Ticks do nothing to a session that is not under way.
tick_all_quiet :
    (m : SessionManager) (times : List ℕ)
    → (m.state ≡ idle) ⊎ (m.state ≡ released) ⊎ (m.state ≡ rejected)
    → tick_all m times ≡ (m, [])
unfolding tick_all on_tick
tick_all_quiet m [] s = refl
tick_all_quiet m (now ∷ times) s = ground (arith, tick_all_quiet m times s)

-- Whatever the times of the ticks, a session that is attaching asks for no more messages than the
-- retries that it has left.
pub attach_retries_bounded :
    (m : SessionManager) (times : List ℕ)
    → IsSession m
    → m.state ≡ attaching
    → length (tick_all m times).1 + m.attach_retry_count ≤ m.max_attach_retries
unfolding tick_all on_tick
attach_retries_bounded m [] v s = omega arith
attach_retries_bounded m (now ∷ times) v s = ground (
  arith,
  attach_retries_bounded m times v s,
  attach_retries_bounded
      (record m { attach_retry_count = m.attach_retry_count + 1; last_control_tx_ms = now }) times,
  tick_all_quiet (record m { state = rejected; attach_retry_count = 0 }) times,
)

-- The times at which an attached session asks for a heartbeat.
abbrev pub overdue : ℕ → ℕ → List ℕ → List MessageType
overdue limit since [] = []
overdue limit since (now ∷ times) =
    let others = overdue limit since times in
    if leb (since + limit) now then heartbeat ∷ others else others

-- Ticks at times of 64 bits, none before the last acknowledged heartbeat, leave an attached session
-- as it is, however many there are. Each at least the heartbeat interval after that acknowledgement
-- asks for a heartbeat, also if the tick before it did: the session asks again at every tick until
-- it is acknowledged, not once in an interval. The others ask for nothing.
pub attached_never_gives_up :
    (m : SessionManager) (times : List ℕ)
    → m.state ≡ attached
    → All (λ now. (m.last_heartbeat_ack_ms ≤ now) × IsU64 now) times
    → tick_all m times ≡ (m, overdue m.heartbeat_interval_ms m.last_heartbeat_ack_ms times)
unfolding tick_all on_tick
attached_never_gives_up m [] s h = refl
attached_never_gives_up m (now ∷ times) s h = ground (arith, attached_never_gives_up m times s h.1)
