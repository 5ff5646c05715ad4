-- ===== src/Core/Represents.antt =====
-- The table of the core against the registry, handler by handler.
use mini_ran.Core.UnorderedMap.{
  find, find-insert, find-erase, insert-IsTable, erase-IsTable, IsTable, insert,
}
use mini_ran.Core.{
  detach_request, heartbeat, count_packet, data_packet, attached, same_state, attach_accept,
  attach_request, same_type, new_session, ℕ, Option, ProtocolMessage, CoreNetwork,
  handle_attach_request, handle_detach_request, handle_heartbeat, handle_data,
  expire_inactive_sessions, has_active_session, SessionRecord, reply,
}
use mini_ran.Core.Expiry.{find-expire, expire-IsTable}
use mini_ran.Core.History.{asks_attach, asks_detach, beats, sends, expires}
use mini_ran.Core.Registry
use mini_ran.Core.Registry.{Registry, new_registry, with_entry, serve, serve_all, fresh}
use mini_ran.Protocol.Message.{make_message}
use mini_ran.Common.{
  if_all, if_both, if_not, add64, length, arith, refl, inr, sym, none, inl, Option-cases, ◌||◌,
  ◌==◌, ap, false, ◌∙◌, add32, ◌≡◌, some, not, if◌then◌else◌, ℕ, Option,
}

pub record Represents (core : CoreNetwork) (r : Registry) : Type 0 where
  pub keys : IsTable core.sessions
  pub agree : (k : ℕ) → find k core.sessions ≡ r.session_of k
  pub same_timeout : core.timers.inactivity_timeout_ms ≡ r.timeout
  pub same_next : core.next_session_id ≡ r.next_session_id
  pub same_bytes : core.delivered_bytes ≡ r.delivered_bytes
  pub same_packets : core.delivered_packets ≡ r.delivered_packets

-- The same reply, and what is left still agrees.
abbrev pub Matches :
    CoreNetwork × Option ProtocolMessage → Registry × Option ProtocolMessage → Type 0
Matches p q = Represents p.0 q.0 × (p.1 ≡ q.1)

module _ (core : CoreNetwork) (r : Registry) (rep : Represents core r) where
  insert_agree :
      (k : ℕ) (s : SessionRecord) (j : ℕ)
      → find j (insert k s core.sessions) ≡ (with_entry r k (some s)).session_of j
  insert_agree k s j =
      find-insert k j s core.sessions ∙ ap (λ o. if k == j then some s else o) (rep.agree j)

  insert-Represents :
      (k : ℕ) (s : SessionRecord)
      → Represents (record core { sessions = insert k s core.sessions }) (with_entry r k (some s))
  insert-Represents k s = record {
    keys = insert-IsTable k s core.sessions rep.keys;
    agree = insert_agree k s;
    same_timeout = rep.same_timeout;
    same_next = rep.same_next;
    same_bytes = rep.same_bytes;
    same_packets = rep.same_packets;
  }

  enrol-Matches :
      (m : ProtocolMessage) (now : ℕ)
      → Matches
          (
            record core {
              sessions =
                  insert m.ue_id (new_session m.ue_id core.next_session_id now) core.sessions;
              next_session_id = add32 core.next_session_id 1;
            },
            some (reply attach_accept m.ue_id core.next_session_id m.sequence_number now),
          )
          (Registry.enrol r m now)
  enrol-Matches m now =
      let k = m.ue_id in
      let made = λ (n : ℕ). new_session k n now in
      (
        record {
          keys = insert-IsTable k (made core.next_session_id) core.sessions rep.keys;
          agree = λ j.
              insert_agree k (made core.next_session_id) j
              ∙ ap (λ n. if k == j then some (made n) else r.session_of j) rep.same_next;
          same_timeout = rep.same_timeout;
          same_next = ap (λ n. add32 n 1) rep.same_next;
          same_bytes = rep.same_bytes;
          same_packets = rep.same_packets;
        },
        ap (λ n. some (reply attach_accept k n m.sequence_number now)) rep.same_next,
      )

  -- What the registry has of a UE is what the table has.
  entry : (k : ℕ) (o : Option SessionRecord) → find k core.sessions ≡ o → r.session_of k ≡ o
  entry k o e = sym (rep.agree k) ∙ e

  active_some :
      (k : ℕ) (s : SessionRecord)
      → find k core.sessions ≡ some s
      → has_active_session core k ≡ same_state s.state attached
  unfolding has_active_session
  active_some k s e = ground (arith, e)

  active_none : (k : ℕ) → find k core.sessions ≡ none → has_active_session core k ≡ false
  unfolding has_active_session
  active_none k e = ground (arith, e)

  pub attach-Matches :
      (m : ProtocolMessage) (now : ℕ)
      → Matches (handle_attach_request core m now) (serve r (now, asks_attach m))
  unfolding handle_attach_request has_active_session
  attach-Matches m now =
      if_both Matches (not (same_type m.message_type attach_request)) _ _ _ _ (rep, refl)
        (if_both Matches (m.ue_id == 0 || m.sequence_number == 0 || not (m.session_id == 0)) _ _ _ _
          (rep, refl)
          (elim (Option-cases (find m.ue_id core.sessions)) [
            | inl e ↦ rw (active_none m.ue_id e, entry m.ue_id none e) (enrol-Matches m now)
            | inr (s, e) ↦
                rw (active_some m.ue_id s e, e, entry m.ue_id (some s) e)
                  (if_both Matches (same_state s.state attached) _ _ _ _
                    (insert-Represents m.ue_id (record s { last_seen_ms = now }), refl)
                    (enrol-Matches m now))
          ]))

  pub detach-Matches :
      (m : ProtocolMessage) (now : ℕ)
      → Matches (handle_detach_request core m now) (serve r (now, asks_detach m))
  unfolding handle_detach_request
  detach-Matches m now =
      if_not Matches (same_type m.message_type detach_request) _ _ _ _ (rep, refl)
        (elim (Option-cases (find m.ue_id core.sessions)) [
          | inl e ↦ rw (e, entry m.ue_id none e) (rep, refl)
          | inr (s, e) ↦
              rw (e, entry m.ue_id (some s) e)
                (if_not Matches (s.session_id == m.session_id) _ _ _ _ (rep, refl)
                  (
                    record {
                      keys = erase-IsTable m.ue_id core.sessions rep.keys;
                      agree = λ j.
                          find-erase m.ue_id j core.sessions rep.keys
                          ∙ ap (λ o. if m.ue_id == j then none else o) (rep.agree j);
                      same_timeout = rep.same_timeout;
                      same_next = rep.same_next;
                      same_bytes = rep.same_bytes;
                      same_packets = rep.same_packets;
                    },
                    refl,
                  ))
        ])

  pub heartbeat-Matches :
      (m : ProtocolMessage) (now : ℕ)
      → Matches (handle_heartbeat core m now) (serve r (now, beats m))
  unfolding handle_heartbeat make_message
  heartbeat-Matches m now =
      if_not Matches (same_type m.message_type heartbeat) _ _ _ _ (rep, refl)
        (elim (Option-cases (find m.ue_id core.sessions)) [
          | inl e ↦ rw (e, entry m.ue_id none e) (rep, refl)
          | inr (s, e) ↦
              rw (e, entry m.ue_id (some s) e)
                (if_not Matches (same_state s.state attached) _ _ _ _ (rep, refl)
                  (insert-Represents m.ue_id (record s { last_seen_ms = now }), refl))
        ])

  credit-Represents :
      (m : ProtocolMessage) (now : ℕ) (s : SessionRecord)
      → Represents
          (record core {
            sessions = insert m.ue_id (count_packet s (length m.payload) now) core.sessions;
            delivered_bytes = add64 core.delivered_bytes (length m.payload);
            delivered_packets = add64 core.delivered_packets 1;
          })
          (record (with_entry r m.ue_id (some (count_packet s (length m.payload) now))) {
            delivered_bytes = add64 r.delivered_bytes (length m.payload);
            delivered_packets = add64 r.delivered_packets 1;
          })
  credit-Represents m now s = record {
    keys = insert-IsTable m.ue_id (count_packet s (length m.payload) now) core.sessions rep.keys;
    agree = insert_agree m.ue_id (count_packet s (length m.payload) now);
    same_timeout = rep.same_timeout;
    same_next = rep.same_next;
    same_bytes = ap (λ n. add64 n (length m.payload)) rep.same_bytes;
    same_packets = ap (λ n. add64 n 1) rep.same_packets;
  }

  pub data-Represents :
      (m : ProtocolMessage) (now : ℕ)
      → Represents (handle_data core m now) (serve r (now, sends m)).0
  unfolding handle_data
  data-Represents m now =
      if_not Represents (same_type m.message_type data_packet) _ _ _ _ rep
        (elim (Option-cases (find m.ue_id core.sessions)) [
          | inl e ↦ rw (e, entry m.ue_id none e) rep
          | inr (s, e) ↦
              rw (e, entry m.ue_id (some s) e)
                (if_all Represents (same_state s.state attached) (m.session_id == s.session_id)
                  (length m.payload == m.payload_length) (length m.payload == 0) _ _ _ _
                  (credit-Represents m now s) rep)
        ])

  expired_agree :
      (k now : ℕ) (o p : Option SessionRecord)
      → find k core.sessions ≡ o
      → o ≡ p
      → find k (expire_inactive_sessions core now).sessions ≡ fresh r.timeout now p
  expired_agree k now o p e f =
      ground (arith, find-expire core now k rep.keys, e, f, rep.same_timeout)

  pub expire-Represents :
      (now : ℕ) → Represents (expire_inactive_sessions core now) (serve r (now, expires)).0
  unfolding expire_inactive_sessions
  expire-Represents now = record {
    keys = expire-IsTable core now rep.keys;
    agree = λ k. expired_agree k now _ _ refl (rep.agree k);
    same_timeout = rep.same_timeout;
    same_next = rep.same_next;
    same_bytes = rep.same_bytes;
    same_packets = rep.same_packets;
  }
