-- ===== src/Core/History.antt =====
-- The invariant of the core's table through any history of calls.
use mini_ran.Common.{
  none, Option, ◌≡◌, add32, ◌≤◌, ◌-◌, ◌^◌, arith, ◌<◌, length, ◌+◌, ℕ, List, [], ◌∷◌, refl, inl,
  inr,
}
use mini_ran.Core.Invariant.{IsCore, insert-IsCore, IsCore-same, make_core-IsCore}
use mini_ran.Protocol.Message.{ProtocolMessage}
use mini_ran.Core.{
  count_packet, handle_attach_request, handle_detach_request, handle_heartbeat, handle_data,
  expire_inactive_sessions, SessionTimers, CoreNetwork, make_core,
}
use mini_ran.Core.Cases.{attach_cases, detach_cases, heartbeat_cases, data_cases}
use mini_ran.Core.Expiry.{expire_keeps_next, expire-IsTable, find-expire}
use mini_ran.Core.UnorderedMap.{erase-IsTable, find-erase}

-- A call of each handler, and the expiry.
pub data Call : Type 0 where
  asks_attach asks_detach beats sends : ProtocolMessage → Call
  expires : Call

-- The core after a call, and the reply if there is one.
abbrev pub reply_to : CoreNetwork → ℕ × Call → CoreNetwork × Option ProtocolMessage
reply_to core (now, asks_attach m) = handle_attach_request core m now
reply_to core (now, asks_detach m) = handle_detach_request core m now
reply_to core (now, beats m) = handle_heartbeat core m now
reply_to core (now, sends m) = (handle_data core m now, none)
reply_to core (now, expires) = (expire_inactive_sessions core now, none)

abbrev pub step : CoreNetwork → ℕ × Call → CoreNetwork
step core call = (reply_to core call).0

attach-IsCore :
    (core : CoreNetwork) (m : ProtocolMessage) (now : ℕ)
    → core.next_session_id + 1 < 2 ^ 32
    → IsCore core
    → IsCore (handle_attach_request core m now).0
attach-IsCore core m now room c =
    attach_cases IsCore core m now c
      (λ s e a ne.
        insert-IsCore core m.ue_id core.next_session_id _ c (omega arith) (c.entries m.ue_id s e)
          (inr (s, e, refl)))
      (λ free ne.
        let wrap : add32 core.next_session_id 1 ≡ core.next_session_id + 1 = omega arith in
        rw wrap (
          insert-IsCore core m.ue_id (core.next_session_id + 1) _ c (omega arith)
            (refl, ne, refl, omega arith) (inl (omega arith))))

detach-IsCore :
    (core : CoreNetwork) (m : ProtocolMessage) (now : ℕ)
    → IsCore core
    → IsCore (handle_detach_request core m now).0
detach-IsCore core m now c = detach_cases IsCore core m now c λ s e.
    let gone = λ (j : ℕ). find-erase m.ue_id j core.sessions c.keys in
    record {
      keys = erase-IsTable m.ue_id core.sessions c.keys;
      entries = λ j r f. ground (arith, gone j, c.entries j r);
      distinct = λ i j r q f g. ground (arith, gone i, gone j, c.distinct i j r q);
    }

heartbeat-IsCore :
    (core : CoreNetwork) (m : ProtocolMessage) (now : ℕ)
    → IsCore core
    → IsCore (handle_heartbeat core m now).0
heartbeat-IsCore core m now c = heartbeat_cases IsCore core m now c λ s e a.
    insert-IsCore core m.ue_id core.next_session_id _ c (omega arith) (c.entries m.ue_id s e)
      (inr (s, e, refl))

data-IsCore :
    (core : CoreNetwork) (m : ProtocolMessage) (now : ℕ)
    → IsCore core
    → IsCore (handle_data core m now)
data-IsCore core m now c = data_cases IsCore core m now c λ s e a size.
    IsCore-same _ _
      (insert-IsCore core m.ue_id core.next_session_id (count_packet s (length m.payload) now) c
        (omega arith) (c.entries m.ue_id s e) (inr (s, e, refl)))
      refl refl

expire-IsCore :
    (core : CoreNetwork) (now : ℕ) → IsCore core → IsCore (expire_inactive_sessions core now)
expire-IsCore core now c =
    let left = λ (k : ℕ). find-expire core now k c.keys in
    record {
      keys = expire-IsTable core now c.keys;
      entries = λ k s e. ground (arith, left k, c.entries k s, expire_keeps_next core now);
      distinct = λ j k r s e f. ground (arith, left j, left k, c.distinct j k r s);
    }

-- Only a new session moves the next identifier, and by one.
pub step-next_session_id :
    (core : CoreNetwork) (now : ℕ) (call : Call)
    → core.next_session_id + 1 < 2 ^ 32
    → (step core (now, call)).next_session_id ≤ core.next_session_id + 1
step-next_session_id core now (asks_attach m) h =
    attach_cases (λ c. c.next_session_id ≤ core.next_session_id + 1) core m now (omega arith)
      (λ s e a ne. omega arith) (λ free ne. omega arith)
step-next_session_id core now (asks_detach m) h =
    detach_cases (λ c. c.next_session_id ≤ core.next_session_id + 1) core m now (omega arith)
      (λ s e. omega arith)
step-next_session_id core now (beats m) h =
    heartbeat_cases (λ c. c.next_session_id ≤ core.next_session_id + 1) core m now (omega arith)
      (λ s e a. omega arith)
step-next_session_id core now (sends m) h =
    data_cases (λ c. c.next_session_id ≤ core.next_session_id + 1) core m now (omega arith)
      (λ s e a size. omega arith)
step-next_session_id core now expires h = omega (arith, expire_keeps_next core now)

-- Each call keeps the table in order, as long as the next identifier has not wrapped.
pub step-IsCore :
    (core : CoreNetwork) (now : ℕ) (call : Call)
    → core.next_session_id + 1 < 2 ^ 32
    → IsCore core
    → IsCore (step core (now, call))
step-IsCore core now (asks_attach m) room c = attach-IsCore core m now room c
step-IsCore core now (asks_detach m) room c = detach-IsCore core m now c
step-IsCore core now (beats m) room c = heartbeat-IsCore core m now c
step-IsCore core now (sends m) room c = data-IsCore core m now c
step-IsCore core now expires room c = expire-IsCore core now c

abbrev pub run : CoreNetwork → List (ℕ × Call) → CoreNetwork
run core [] = core
run core (call ∷ calls) = run (step core call) calls

run-IsCore_from :
    (core : CoreNetwork) (calls : List (ℕ × Call))
    → core.next_session_id + length calls < 2 ^ 32
    → IsCore core
    → IsCore (run core calls)
run-IsCore_from core [] room c = c
run-IsCore_from core ((now, call) ∷ calls) room c =
    run-IsCore_from (step core (now, call)) calls
      (omega (arith, step-next_session_id core now call (omega arith)))
      (step-IsCore core now call (omega arith) c)

-- From a new core on, after any history of handler calls and expiries that is shorter than 2 ^ 32 -
-- 1000: there is one entry for each UE, each entry is attached, is the UE's own and has an
-- identifier that was given out, and no two entries share one.
pub run-IsCore :
    (timers : SessionTimers) (calls : List (ℕ × Call))
    → length calls < 2 ^ 32 - 1000
    → IsCore (run (make_core timers) calls)
unfolding make_core
run-IsCore timers calls h = run-IsCore_from _ calls (omega arith) (make_core-IsCore timers)
