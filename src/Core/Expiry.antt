-- ===== src/Core/Expiry.antt =====
-- `expireInactiveSessions`: who stays, and how many are counted out.
use mini_ran.Common.{
  ◌^◌, ◌<◌, add64, length, if◌then◌else◌, Option, arith, ◌+◌, ℕ, ◌≡◌, refl, [], ◌∷◌, none, some,
}
use mini_ran.Protocol.Session.{has_elapsed}
use mini_ran.Core.UnorderedMap.{Table, find, IsTable}
use mini_ran.Core.{SessionRecord, CoreNetwork, expire_loop, expire_inactive_sessions}

module _ (timeout now : ℕ) where
  -- What is left of an entry.
  abbrev stays : Option SessionRecord → Option SessionRecord
  stays none = none
  stays (some s) = if has_elapsed now s.last_seen_ms timeout then none else some s

  find-expire_loop :
      (k : ℕ) (t : Table SessionRecord) (n : ℕ)
      → IsTable t
      → find k (expire_loop timeout now t n).0 ≡ stays (find k t)
  unfolding find expire_loop
  find-expire_loop k [] n h = refl
  find-expire_loop k ((j, s) ∷ t) n h = ground (
    arith,
    find-expire_loop k t n h.1,
    find-expire_loop k t (add64 n 1) h.1,
    find-expire_loop j t (add64 n 1) h.1,
  )

  expire_loop-IsTable :
      (t : Table SessionRecord) (n : ℕ) → IsTable t → IsTable (expire_loop timeout now t n).0
  unfolding expire_loop
  expire_loop-IsTable [] n h = tt
  expire_loop-IsTable ((j, s) ∷ t) n h = ground (
    arith,
    expire_loop-IsTable t n h.1,
    expire_loop-IsTable t (add64 n 1) h.1,
    find-expire_loop j t n h.1,
  )

  expire_loop_counts :
      (t : Table SessionRecord) (n : ℕ)
      → n + length t < 2 ^ 64
      → (expire_loop timeout now t n).1 + length (expire_loop timeout now t n).0 ≡ n + length t
  unfolding expire_loop
  expire_loop_counts [] n h = omega arith
  expire_loop_counts ((j, s) ∷ t) n h =
      ground (arith, expire_loop_counts t n, expire_loop_counts t (n + 1))

-- After expiry a UE has a session exactly if it had one that was seen less than the inactivity
-- timeout ago, the difference of the times taken in 64 bits, and it is the same session.
pub find-expire :
    (core : CoreNetwork) (now k : ℕ)
    → IsTable core.sessions
    → find k (expire_inactive_sessions core now).sessions
      ≡ stays core.timers.inactivity_timeout_ms now (find k core.sessions)
unfolding expire_inactive_sessions
find-expire core now k h =
    find-expire_loop core.timers.inactivity_timeout_ms now k core.sessions core.expired_sessions h

pub expire-IsTable :
    (core : CoreNetwork) (now : ℕ)
    → IsTable core.sessions
    → IsTable (expire_inactive_sessions core now).sessions
unfolding expire_inactive_sessions
expire-IsTable core now h =
    expire_loop-IsTable core.timers.inactivity_timeout_ms now core.sessions core.expired_sessions h

-- If the count of expired sessions and of present ones together fits 64 bits, expiry keeps their
-- sum: it counts as many sessions as it removes.
pub expire_counts :
    (core : CoreNetwork) (now : ℕ)
    → core.expired_sessions + length core.sessions < 2 ^ 64
    → let after = expire_inactive_sessions core now in
      after.expired_sessions + length after.sessions ≡ core.expired_sessions + length core.sessions
unfolding expire_inactive_sessions
expire_counts core now h =
    expire_loop_counts core.timers.inactivity_timeout_ms now core.sessions core.expired_sessions h

pub expire_keeps_next :
    (core : CoreNetwork) (now : ℕ)
    → (expire_inactive_sessions core now).next_session_id ≡ core.next_session_id
unfolding expire_inactive_sessions
expire_keeps_next core now = refl

pub expire_keeps_totals :
    (core : CoreNetwork) (now : ℕ)
    → let after = expire_inactive_sessions core now in
      (after.delivered_bytes ≡ core.delivered_bytes)
      × (after.delivered_packets ≡ core.delivered_packets)
unfolding expire_inactive_sessions
expire_keeps_totals core now = (refl, refl)
