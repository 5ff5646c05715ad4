-- ===== src/Core/Active.antt =====
-- `hasActiveSession` and `activeSessionCount` against the table.
use mini_ran.Common.{ℕ, ◌≡◌, ◌+◌, ◌<◌, ◌^◌, ◌↔◌, [], ◌∷◌, length, arith, some, true}
use mini_ran.Core.UnorderedMap.{find, IsTable, Table}
use mini_ran.Protocol.Message.{attached}
use mini_ran.Core.{
  SessionRecord, CoreNetwork, count_active, has_active_session, active_session_count,
}
use mini_ran.Core.Invariant.{IsCore}

count_active-length :
    (t : Table SessionRecord) (n : ℕ)
    → IsTable t
    → ((k : ℕ) (s : SessionRecord) → find k t ≡ some s → s.state ≡ attached)
    → n + length t < 2 ^ 64
    → count_active t n ≡ n + length t
unfolding count_active find
count_active-length [] n keys all room = omega arith
count_active-length ((k, s) ∷ t) n keys all room =
    let first : s.state ≡ attached = all k s (ground arith) in
    ground (
      arith,
      first,
      count_active-length t (n + 1) keys.1 (λ j r e. all j r (ground (arith, keys.0)))
          (omega arith),
    )

-- In a core in order, with fewer than 2 ^ 64 sessions, `activeSessionCount` is the number of
-- sessions, and `hasActiveSession` is true of just the UEs that have one.
pub active_sessions_lem :
    (core : CoreNetwork)
    → IsCore core
    → length core.sessions < 2 ^ 64
    → (active_session_count core ≡ length core.sessions)
      × ((k : ℕ)
          → (has_active_session core k ≡ true)
            ↔ ((s : SessionRecord) × (find k core.sessions ≡ some s)))
unfolding active_session_count has_active_session
active_sessions_lem core c room = (
  omega (
    arith,
    count_active-length core.sessions 0 c.keys (λ k s e. (c.entries k s e).2) (omega arith),
  ),
  λ k. (λ h. ground arith, λ (s, e). ground (arith, c.entries k s e)),
)
