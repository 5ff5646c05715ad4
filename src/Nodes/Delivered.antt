-- ===== src/Nodes/Delivered.antt =====
-- What the access node makes of an amount of data, and the core's totals of it.
use mini_ran.Nodes.AccessNode
use mini_ran.Nodes.Control.{
  IsControl, Answers, attach-Answers, detach-Answers, heartbeat-Answers, reply-IsControl,
}
use mini_ran.Nodes.Carried.{data_in, amount, amount-control}
use mini_ran.Nodes.AccessNode.{AccessNode, queue_response_to_ue, answer, to_ue}
use mini_ran.Transport.Network.Carried.{carried, carried-append_one}
use mini_ran.Core.Cases.{data_cases, heartbeat_cases, detach_cases, attach_cases}
use mini_ran.Core.{
  reply, handle_heartbeat, handle_detach_request, handle_attach_request, handle_data,
  expire_inactive_sessions, make_core, CoreNetwork,
}
use mini_ran.Common.{if_when, refl, none, if_cases, length, some, ◌≤◌, arith, ◌+◌, ◌≡◌, Option, ℕ}
use mini_ran.Protocol.Session.{SessionTimers}
use mini_ran.Protocol.Message.{
  error, detach_request, data_packet, heartbeat, attach_request, same_type, ProtocolMessage,
}
use mini_ran.Transport.Datagram.{Datagram}
use mini_ran.Protocol.Codec.{decode, err, ok, Decoded}
use mini_ran.Metrics.{count_dropped, count_delivered}

-- A total of the core that only data packets add to, each at most the weight of its payload.
pub record IsTotal (weight : ℕ → ℕ) (total : CoreNetwork → ℕ) : Type 0 where
  pub starts_empty : (timers : SessionTimers) → total (make_core timers) ≡ 0
  pub counts_data :
      (core : CoreNetwork) (m : ProtocolMessage) (now : ℕ)
      → total (handle_data core m now) ≤ total core + weight (length m.payload)
  pub attach_keeps :
      (core : CoreNetwork) (m : ProtocolMessage) (now : ℕ)
      → total (handle_attach_request core m now).0 ≡ total core
  pub detach_keeps :
      (core : CoreNetwork) (m : ProtocolMessage) (now : ℕ)
      → total (handle_detach_request core m now).0 ≡ total core
  pub heartbeat_keeps :
      (core : CoreNetwork) (m : ProtocolMessage) (now : ℕ)
      → total (handle_heartbeat core m now).0 ≡ total core
  pub expire_keeps :
      (core : CoreNetwork) (now : ℕ) → total (expire_inactive_sessions core now) ≡ total core

pub packets-IsTotal : IsTotal (λ size. 1) (λ core. core.delivered_packets)
unfolding make_core expire_inactive_sessions
packets-IsTotal = record {
  starts_empty = λ timers. refl;
  counts_data = λ core m now.
      data_cases (λ c. c.delivered_packets ≤ core.delivered_packets + 1) core m now (omega arith)
        (λ s e a size. omega arith);
  attach_keeps = λ core m now.
      attach_cases (λ c. c.delivered_packets ≡ core.delivered_packets) core m now refl
        (λ s e a ne. refl) (λ free ne. refl);
  detach_keeps = λ core m now.
      detach_cases (λ c. c.delivered_packets ≡ core.delivered_packets) core m now refl
        (λ s e. refl);
  heartbeat_keeps = λ core m now.
      heartbeat_cases (λ c. c.delivered_packets ≡ core.delivered_packets) core m now refl
        (λ s e a. refl);
  expire_keeps = λ core now. refl;
}

pub bytes-IsTotal : IsTotal (λ size. size) (λ core. core.delivered_bytes)
unfolding make_core expire_inactive_sessions
bytes-IsTotal = record {
  starts_empty = λ timers. refl;
  counts_data = λ core m now.
      data_cases (λ c. c.delivered_bytes ≤ core.delivered_bytes + length m.payload) core m now
        (omega arith) (λ s e a size. omega arith);
  attach_keeps = λ core m now.
      attach_cases (λ c. c.delivered_bytes ≡ core.delivered_bytes) core m now refl
        (λ s e a ne. refl) (λ free ne. refl);
  detach_keeps = λ core m now.
      detach_cases (λ c. c.delivered_bytes ≡ core.delivered_bytes) core m now refl (λ s e. refl);
  heartbeat_keeps = λ core m now.
      heartbeat_cases (λ c. c.delivered_bytes ≡ core.delivered_bytes) core m now refl
        (λ s e a. refl);
  expire_keeps = λ core now. refl;
}

module _ (weight : ℕ → ℕ) (total : CoreNetwork → ℕ) (is : IsTotal weight total) where
  -- The total and what waits to be sent back.
  abbrev pub held : AccessNode → ℕ
  held node = total node.core + carried (amount weight) node.outgoing

  pub tick-held : (node : AccessNode) (now : ℕ) → held (AccessNode.tick node now) ≡ held node
  unfolding AccessNode.tick
  tick-held node now = omega (arith, is.expire_keeps node.core now)

  queue_response-held :
      (node : AccessNode) (m : ProtocolMessage) (now : ℕ)
      → IsControl m
      → held (queue_response_to_ue node m now) ≡ held node
  unfolding queue_response_to_ue
  queue_response-held node m now c = omega (
    arith,
    carried-append_one (amount weight) node.outgoing (to_ue node m now),
    amount-control weight m c,
  )

  answer-held :
      (node : AccessNode) (result : CoreNetwork × Option ProtocolMessage) (now : ℕ)
      → Answers result.1
      → total result.0 ≡ total node.core
      → held (answer node result now) ≡ held node
  answer-held node (core, none) now a e = omega arith
  answer-held node (core, some m) now a e =
      omega (arith, queue_response-held (record node { core = core }) m now a)

  route-held :
      (node : AccessNode) (m : ProtocolMessage) (size now : ℕ)
      → held (AccessNode.route node m size now) ≤ held node + data_in weight (ok m)
  unfolding AccessNode.route
  route-held node m size now =
      let counted = record node { metrics = count_delivered node.metrics size } in
      let type = m.message_type in
      let small = λ (n : AccessNode). held n ≤ held node + data_in weight (ok m) in
      if_cases small (same_type type attach_request) _ _
        (omega (
          arith,
          answer-held counted (handle_attach_request node.core m now) now
              (attach-Answers node.core m now) (is.attach_keeps node.core m now),
        ))
        (if_cases small (same_type type heartbeat) _ _
          (omega (
            arith,
            answer-held counted (handle_heartbeat node.core m now) now
                (heartbeat-Answers node.core m now) (is.heartbeat_keeps node.core m now),
          ))
          (if_when small (same_type type data_packet) _ _
            (λ counts. rw counts (omega (arith, is.counts_data node.core m now)))
            (if_cases small (same_type type detach_request) _ _
              (omega (
                arith,
                answer-held counted (handle_detach_request node.core m now) now
                    (detach-Answers node.core m now) (is.detach_keeps node.core m now),
              ))
              (omega (
                arith,
                queue_response-held (record node { metrics = count_dropped node.metrics })
                    (reply error m.ue_id m.session_id m.sequence_number now) now
                    (reply-IsControl error m.ue_id m.session_id m.sequence_number now tt refl),
              )))))

  pub on_datagram-held :
      (node : AccessNode) (d : Datagram) (now : ℕ)
      → held (AccessNode.on_datagram node d now) ≤ held node + amount weight d.bytes
  unfolding AccessNode.on_datagram
  on_datagram-held node d now = decoded (decode d.bytes)
    where
      decoded :
          (result : Decoded)
          → held (elim result as (λ _. AccessNode) [
            | ok message ↦ AccessNode.route node message (length d.bytes) now
            | err e ↦ record node { metrics = count_dropped node.metrics }
          ])
            ≤ held node + data_in weight result
      decoded (ok m) = route-held node m (length d.bytes) now
      decoded (err e) = omega arith
