-- ===== src/Nodes/AccessNode.antt =====
-- include/miniran/nodes/access_node.h and src/nodes/access_node.cpp: the access node, which decodes
-- frames, calls the core and queues the replies to its one UE.
use mini_ran.Common.{none, ◌∷◌, ◌++◌, true, length, if◌then◌else◌, [], some, Option, List, ℕ}
use mini_ran.Protocol.Message.{
  same_type, ProtocolMessage, attach_request, heartbeat, data_packet, detach_request, error,
}
use mini_ran.Core.{
  CoreNetwork, handle_attach_request, handle_heartbeat, handle_data, handle_detach_request,
  expire_inactive_sessions, reply,
}
use mini_ran.Metrics.{count_dropped, count_sent, count_delivered, FlowMetrics, no_metrics}
use mini_ran.Transport.Datagram.{default_datagram, Datagram}
use mini_ran.Protocol.Codec.{encode, err, ok, decode}

pub record AccessNode : Type 0 where
  pub node_id : ℕ
  pub ue_node_id : ℕ
  pub core : CoreNetwork
  pub metrics : FlowMetrics
  pub outgoing : List Datagram

unfoldable pub make_access_node : ℕ → ℕ → CoreNetwork → AccessNode
make_access_node node_id ue_node_id core = record {
  node_id = node_id;
  ue_node_id = ue_node_id;
  core = core;
  metrics = no_metrics;
  outgoing = [];
}

unfoldable pub tick : AccessNode → ℕ → AccessNode
tick node now = record node { core = expire_inactive_sessions node.core now }

abbrev pub to_ue : AccessNode → ProtocolMessage → ℕ → Datagram
to_ue node message now = record default_datagram {
  from_node_id = node.node_id;
  to_node_id = node.ue_node_id;
  enqueue_time_ms = now;
  control_plane = true;
  bytes = encode message;
}

unfoldable pub queue_response_to_ue : AccessNode → ProtocolMessage → ℕ → AccessNode
queue_response_to_ue node message now = record node {
  metrics = count_sent node.metrics (length (encode message));
  outgoing = node.outgoing ++ to_ue node message now ∷ [];
}

-- The core after a handler, and its reply queued if there is one.
abbrev pub answer : AccessNode → CoreNetwork × Option ProtocolMessage → ℕ → AccessNode
answer node (core, none) now = record node { core = core }
answer node (core, some message) now =
    queue_response_to_ue (record node { core = core }) message now

-- A decoded message of a frame of `size` bytes, routed by its type.
unfoldable pub route : AccessNode → ProtocolMessage → ℕ → ℕ → AccessNode
route node message size now =
    let counted = record node { metrics = count_delivered node.metrics size } in
    if same_type message.message_type attach_request
    then answer counted (handle_attach_request node.core message now) now
    else if same_type message.message_type heartbeat
    then answer counted (handle_heartbeat node.core message now) now
    else if same_type message.message_type data_packet
    then record counted { core = handle_data node.core message now }
    else if same_type message.message_type detach_request
    then answer counted (handle_detach_request node.core message now) now
    else queue_response_to_ue (record node { metrics = count_dropped node.metrics })
        (reply error message.ue_id message.session_id message.sequence_number now) now

unfoldable pub on_datagram : AccessNode → Datagram → ℕ → AccessNode
on_datagram node datagram now = elim (decode datagram.bytes) [
  | ok message ↦ route node message (length datagram.bytes) now
  | err e ↦ record node { metrics = count_dropped node.metrics }
]

unfoldable pub flush_outgoing : AccessNode → AccessNode × List Datagram
flush_outgoing node = (record node { outgoing = [] }, node.outgoing)
