-- ===== src/Core/Invariant.antt =====
-- What holds of the core's table at all times, and its preservation by each handler.
use mini_ran.Common.{◌∙◌, sym, arith, ◌<◌, ◌⊎◌, ◌≢◌, ◌≤◌, ℕ, ◌≡◌, some, inl, inr}
use mini_ran.Protocol.Message.{attached}
use mini_ran.Core.UnorderedMap.{Table, find, insert, IsTable, find-insert, insert-IsTable}
use mini_ran.Core.{SessionTimers, SessionRecord, CoreNetwork, make_core}

-- The entry of UE `k` is its own, attached, and under an identifier already given out.
abbrev pub IsEntry : ℕ → ℕ → SessionRecord → Type 0
IsEntry next k s = (s.ue_id ≡ k) × (k ≢ 0) × (s.state ≡ attached) × (s.session_id < next)

-- No two UEs hold the same session.
abbrev pub AreDistinct : Table SessionRecord → Type 0
AreDistinct t =
    (j k : ℕ) (r s : SessionRecord)
    → find j t ≡ some r
    → find k t ≡ some s
    → r.session_id ≡ s.session_id
    → j ≡ k

pub record IsCore (core : CoreNetwork) : Type 0 where
  pub keys : IsTable core.sessions
  pub entries :
      (k : ℕ) (s : SessionRecord) → find k core.sessions ≡ some s → IsEntry core.next_session_id k s
  pub distinct : AreDistinct core.sessions

pub make_core-IsCore : (timers : SessionTimers) → IsCore (make_core timers)
unfolding make_core find
make_core-IsCore timers = record {
  keys = tt;
  entries = λ k s e. cc;
  distinct = λ j k r s e f g. cc;
}

-- The identifier of `v` is new, or that of the session that UE `k` has.
abbrev IsFresh : CoreNetwork → ℕ → SessionRecord → Type 0
IsFresh core k v =
    (core.next_session_id ≤ v.session_id)
    ⊎ ((s : SessionRecord) × (find k core.sessions ≡ some s) × (s.session_id ≡ v.session_id))

holder :
    (core : CoreNetwork) (k : ℕ) (v : SessionRecord)
    → IsCore core
    → IsFresh core k v
    → (j : ℕ) (s : SessionRecord) → find j core.sessions ≡ some s
    → s.session_id ≡ v.session_id
    → j ≡ k
holder core k v c (inl new) j s e same =
    let entry : IsEntry core.next_session_id j s = c.entries j s e in absurd (omega arith)
holder core k v c (inr (r, f, i)) j s e same = c.distinct j k s r e f (same ∙ sym i)

-- A write of an entry that keeps the identifier of the UE's session, or takes a new one.
pub insert-IsCore :
    (core : CoreNetwork) (k next : ℕ) (v : SessionRecord)
    → IsCore core
    → core.next_session_id ≤ next
    → IsEntry next k v
    → IsFresh core k v
    → IsCore (record core { sessions = insert k v core.sessions; next_session_id = next })
insert-IsCore core k next v c le entry fresh = record {
  keys = insert-IsTable k v core.sessions c.keys;
  entries = λ j s e. ground (arith, find-insert k j v core.sessions, c.entries j s);
  distinct = λ i j r s e f g. ground (
    arith,
    find-insert k i v core.sessions,
    find-insert k j v core.sessions,
    c.distinct i j r s,
    holder core k v c fresh i r,
    holder core k v c fresh j s,
  );
}

-- Other fields than the table and the next identifier do not matter.
pub IsCore-same :
    (core other : CoreNetwork)
    → IsCore core
    → other.sessions ≡ core.sessions
    → other.next_session_id ≡ core.next_session_id
    → IsCore other
IsCore-same core other c e f = record {
  keys = rw e c.keys;
  entries = λ k s g. rw f (c.entries k s (rw e at g));
  distinct = λ j k r s g h. c.distinct j k r s (rw e at g) (rw e at h);
}
