-- ===== src/Nodes/Counting.antt =====
-- The counters and the queues of both nodes: what each datagram adds to them.
use mini_ran.Common.{
  none, refl, some, inl, if_cases, inr, Option, [], ◌∷◌, ◌++◌, ◌⊎◌, length, add64, ◌≡◌, ℕ,
}
use mini_ran.Nodes.AccessNode
use mini_ran.Nodes.AccessNode.{to_ue, answer, queue_response_to_ue, AccessNode}
use mini_ran.Transport.Datagram.{Datagram}
use mini_ran.Protocol.Codec.{decode, err, ok, Decoded}
use mini_ran.Core.{
  handle_detach_request, handle_data, handle_heartbeat, handle_attach_request, reply, CoreNetwork,
}
use mini_ran.Protocol.Message.{
  error, detach_request, data_packet, heartbeat, attach_request, same_type, MessageType,
  ProtocolMessage,
}
use mini_ran.Metrics.{count_delivered, count_dropped}

-- The datagram was counted as delivered, or it was counted as dropped and the core is as it was.
abbrev pub Receives : AccessNode → Datagram → AccessNode → Type 0
Receives node d after =
    (after.metrics.packets_delivered ≡ add64 node.metrics.packets_delivered 1)
      × (after.metrics.bytes_delivered ≡ add64 node.metrics.bytes_delivered (length d.bytes))
      × (after.metrics.packets_dropped ≡ node.metrics.packets_dropped)
    ⊎ (after.metrics.packets_delivered ≡ node.metrics.packets_delivered)
      × (after.metrics.bytes_delivered ≡ node.metrics.bytes_delivered)
      × (after.metrics.packets_dropped ≡ add64 node.metrics.packets_dropped 1)
      × (after.core ≡ node.core)

-- Nothing was queued, or one datagram from the node to its UE, which is counted as sent.
abbrev pub Replies : AccessNode → AccessNode → Type 0
Replies node after =
    (after.outgoing ≡ node.outgoing)
      × (after.metrics.packets_sent ≡ node.metrics.packets_sent)
      × (after.metrics.bytes_sent ≡ node.metrics.bytes_sent)
    ⊎ ((r : Datagram) × (after.outgoing ≡ node.outgoing ++ r ∷ [])
        × (r.from_node_id ≡ node.node_id)
        × (r.to_node_id ≡ node.ue_node_id)
        × (after.metrics.packets_sent ≡ add64 node.metrics.packets_sent 1)
        × (after.metrics.bytes_sent ≡ add64 node.metrics.bytes_sent (length r.bytes)))

pub record Outcome (node : AccessNode) (d : Datagram) (after : AccessNode) : Type 0 where
  pub received : Receives node d after
  pub replied : Replies node after

answer-Outcome :
    (node : AccessNode) (d : Datagram) (result : CoreNetwork × Option ProtocolMessage) (now : ℕ)
    → Outcome node d (
        answer (record node { metrics = count_delivered node.metrics (length d.bytes) }) result now)
unfolding queue_response_to_ue
answer-Outcome node d (core, none) now = record {
  received = inl (refl, refl, refl);
  replied = inl (refl, refl, refl);
}
answer-Outcome node d (core, some m) now = record {
  received = inl (refl, refl, refl);
  replied = inr (to_ue node m now, refl, refl, refl, refl, refl);
}

refusal-Outcome :
    (node : AccessNode) (d : Datagram) (m : ProtocolMessage) (now : ℕ)
    → Outcome node d
        (queue_response_to_ue (record node { metrics = count_dropped node.metrics }) m now)
unfolding queue_response_to_ue
refusal-Outcome node d m now = record {
  received = inr (refl, refl, refl, refl);
  replied = inr (to_ue node m now, refl, refl, refl, refl, refl);
}

data-Outcome :
    (node : AccessNode) (d : Datagram) (core : CoreNetwork)
    → Outcome node d
        (record node { metrics = count_delivered node.metrics (length d.bytes); core = core })
data-Outcome node d core = record {
  received = inl (refl, refl, refl);
  replied = inl (refl, refl, refl);
}

route-Outcome :
    (node : AccessNode) (d : Datagram) (m : ProtocolMessage) (now : ℕ)
    → Outcome node d (AccessNode.route node m (length d.bytes) now)
unfolding AccessNode.route
route-Outcome node d m now =
    let is = λ (type : MessageType). same_type m.message_type type in
    if_cases (Outcome node d) (is attach_request) _ _
      (answer-Outcome node d (handle_attach_request node.core m now) now)
      (if_cases (Outcome node d) (is heartbeat) _ _
        (answer-Outcome node d (handle_heartbeat node.core m now) now)
        (if_cases (Outcome node d) (is data_packet) _ _
          (data-Outcome node d (handle_data node.core m now))
          (if_cases (Outcome node d) (is detach_request) _ _
            (answer-Outcome node d (handle_detach_request node.core m now) now)
            (refusal-Outcome node d (reply error m.ue_id m.session_id m.sequence_number now) now))))

-- Any datagram is counted once: as delivered with its size, or as dropped, and then the core is as
-- it was. The node queues nothing, or one datagram to its UE, which it counts as sent with its
-- size.
pub node_counts :
    (node : AccessNode) (d : Datagram) (now : ℕ)
    → Outcome node d (AccessNode.on_datagram node d now)
unfolding AccessNode.on_datagram
node_counts node d now = decoded (decode d.bytes)
  where
    decoded :
        (result : Decoded)
        → Outcome node d (elim result as (λ _. AccessNode) [
          | ok message ↦ AccessNode.route node message (length d.bytes) now
          | err e ↦ record node { metrics = count_dropped node.metrics }
        ])
    decoded (ok m) = route-Outcome node d m now
    decoded (err e) = record {
      received = inr (refl, refl, refl, refl);
      replied = inl (refl, refl, refl);
    }
