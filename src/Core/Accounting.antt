-- ===== src/Core/Accounting.antt =====
-- The core's totals against its sessions.
use mini_ran.Common.{List, add64, length, ◌^◌, arith, ◌<◌, ◌≤◌, ◌+◌, ℕ, ◌≡◌, [], ◌∷◌, some}
use mini_ran.Core.UnorderedMap.{Table, find, insert, erase}
use mini_ran.Core.{
  SessionTimers, make_core, count_packet, new_session, expire_loop, expire_inactive_sessions,
  SessionRecord, CoreNetwork,
}
use mini_ran.Core.History.{expires, run, beats, asks_detach, asks_attach, step, sends, Call}
use mini_ran.Core.Cases.{data_cases, heartbeat_cases, detach_cases, attach_cases}
use mini_ran.Core.Expiry.{expire_keeps_totals}

module _ (amount : SessionRecord → ℕ) where
  -- The sum of an amount over all sessions.
  abbrev pub sum_of : Table SessionRecord → ℕ
  sum_of [] = 0
  sum_of ((_, s) ∷ t) = amount s + sum_of t

  pub sum_of-insert :
      (k : ℕ) (v : SessionRecord) (t : Table SessionRecord)
      → sum_of (insert k v t) ≤ sum_of t + amount v
  unfolding insert
  sum_of-insert k v [] = omega arith
  sum_of-insert k v ((j, s) ∷ t) = ground (arith, sum_of-insert k v t)

  pub sum_of-insert_old :
      (k : ℕ) (v s : SessionRecord) (t : Table SessionRecord)
      → find k t ≡ some s
      → sum_of (insert k v t) + amount s ≡ sum_of t + amount v
  unfolding find insert
  sum_of-insert_old k v s [] e = cc
  sum_of-insert_old k v s ((j, r) ∷ t) e = ground (arith, sum_of-insert_old k v s t)

  pub sum_of-erase : (k : ℕ) (t : Table SessionRecord) → sum_of (erase k t) ≤ sum_of t
  unfolding erase
  sum_of-erase k [] = omega arith
  sum_of-erase k ((j, r) ∷ t) = ground (arith, sum_of-erase k t)

  sum_of-expire_loop :
      (timeout now : ℕ) (t : Table SessionRecord) (n : ℕ)
      → sum_of (expire_loop timeout now t n).0 ≤ sum_of t
  unfolding expire_loop
  sum_of-expire_loop timeout now [] n = omega arith
  sum_of-expire_loop timeout now ((j, r) ∷ t) n =
      ground
        (arith, sum_of-expire_loop timeout now t n, sum_of-expire_loop timeout now t (add64 n 1))

  pub sum_of-expire :
      (core : CoreNetwork) (now : ℕ)
      → sum_of (expire_inactive_sessions core now).sessions ≤ sum_of core.sessions
  unfolding expire_inactive_sessions
  sum_of-expire core now =
      sum_of-expire_loop core.timers.inactivity_timeout_ms now core.sessions core.expired_sessions

abbrev pub bytes_of : SessionRecord → ℕ
bytes_of s = s.delivered_bytes

abbrev pub packets_of : SessionRecord → ℕ
packets_of s = s.delivered_packets

-- The sessions' bytes and packets are within the totals, and no packet is empty.
pub record IsBalanced (core : CoreNetwork) : Type 0 where
  pub bytes_covered : sum_of bytes_of core.sessions ≤ core.delivered_bytes
  pub packets_covered : sum_of packets_of core.sessions ≤ core.delivered_packets
  pub no_empty_packet : core.delivered_packets ≤ core.delivered_bytes

-- The bytes that a call could add to the totals.
abbrev pub load : Call → ℕ
load (sends m) = length m.payload
load _ = 0

abbrev pub loads : List (ℕ × Call) → ℕ
loads [] = 0
loads ((_, call) ∷ calls) = load call + loads calls

step-delivered_bytes :
    (core : CoreNetwork) (now : ℕ) (call : Call)
    → core.delivered_bytes + load call < 2 ^ 64
    → (step core (now, call)).delivered_bytes ≤ core.delivered_bytes + load call
step-delivered_bytes core now (asks_attach m) h =
    attach_cases (λ c. c.delivered_bytes ≤ core.delivered_bytes + 0) core m now (omega arith)
      (λ s e a ne. omega arith) (λ free ne. omega arith)
step-delivered_bytes core now (asks_detach m) h =
    detach_cases (λ c. c.delivered_bytes ≤ core.delivered_bytes + 0) core m now (omega arith)
      (λ s e. omega arith)
step-delivered_bytes core now (beats m) h =
    heartbeat_cases (λ c. c.delivered_bytes ≤ core.delivered_bytes + 0) core m now (omega arith)
      (λ s e a. omega arith)
step-delivered_bytes core now (sends m) h =
    data_cases (λ c. c.delivered_bytes ≤ core.delivered_bytes + length m.payload) core m now
      (omega arith) (λ s e a size. omega arith)
step-delivered_bytes core now expires h = omega (arith, expire_keeps_totals core now)

-- Each call keeps the totals above the sessions' sums, as long as they do not wrap.
pub step-IsBalanced :
    (core : CoreNetwork) (now : ℕ) (call : Call)
    → core.delivered_bytes + load call < 2 ^ 64
    → IsBalanced core
    → IsBalanced (step core (now, call))
step-IsBalanced core now (asks_attach m) room b =
    attach_cases IsBalanced core m now b
      (λ s e a ne.
        let seen : SessionRecord = record s { last_seen_ms = now } in
        ground (
          arith,
          sum_of-insert_old bytes_of m.ue_id seen s core.sessions e,
          sum_of-insert_old packets_of m.ue_id seen s core.sessions e,
        ))
      (λ free ne.
        let fresh = new_session m.ue_id core.next_session_id now in
        ground (
          arith,
          sum_of-insert bytes_of m.ue_id fresh core.sessions,
          sum_of-insert packets_of m.ue_id fresh core.sessions,
        ))
step-IsBalanced core now (asks_detach m) room b = detach_cases IsBalanced core m now b λ s e.
    ground (
      arith,
      sum_of-erase bytes_of m.ue_id core.sessions,
      sum_of-erase packets_of m.ue_id core.sessions,
    )
step-IsBalanced core now (beats m) room b = heartbeat_cases IsBalanced core m now b λ s e a.
    let seen : SessionRecord = record s { last_seen_ms = now } in
    ground (
      arith,
      sum_of-insert_old bytes_of m.ue_id seen s core.sessions e,
      sum_of-insert_old packets_of m.ue_id seen s core.sessions e,
    )
step-IsBalanced core now (sends m) room b = data_cases IsBalanced core m now b λ s e a size.
    let counted = count_packet s (length m.payload) now in
    ground (
      arith,
      sum_of-insert_old bytes_of m.ue_id counted s core.sessions e,
      sum_of-insert_old packets_of m.ue_id counted s core.sessions e,
    )
step-IsBalanced core now expires room b = ground (
  arith,
  sum_of-expire bytes_of core now,
  sum_of-expire packets_of core now,
  expire_keeps_totals core now,
)

run-IsBalanced_from :
    (core : CoreNetwork) (calls : List (ℕ × Call))
    → core.delivered_bytes + loads calls < 2 ^ 64
    → IsBalanced core
    → IsBalanced (run core calls)
run-IsBalanced_from core [] room b = b
run-IsBalanced_from core ((now, call) ∷ calls) room b =
    run-IsBalanced_from (step core (now, call)) calls
      (omega (arith, step-delivered_bytes core now call (omega arith)))
      (step-IsBalanced core now call (omega arith) b)

-- From a new core on, after any history of calls whose data payloads add up to less than 2 ^ 64
-- bytes: the bytes and the packets of the sessions that are there add up to no more than the core's
-- totals, and the total of packets is no more than that of bytes.
pub run-IsBalanced :
    (timers : SessionTimers) (calls : List (ℕ × Call))
    → loads calls < 2 ^ 64
    → IsBalanced (run (make_core timers) calls)
unfolding make_core
run-IsBalanced timers calls h = run-IsBalanced_from _ calls (omega arith) (omega arith)
