-- ===== src/Nodes/Examples.antt =====
-- A UE and its access node in concrete exchanges.
use mini_ran.Common.{refl, ◌≡◌, [], ◌∷◌, arith, none, some}
use mini_ran.Nodes.Ue
use mini_ran.Nodes.AccessNode
use mini_ran.Nodes.Ue.{start_attach, send_traffic, start_detach, make_ue, Ue}
use mini_ran.Nodes.AccessNode.{make_access_node, AccessNode}
use mini_ran.Core.{count_packet, make_core, default_session, SessionRecord}
use mini_ran.Nodes.Handshake.{attach_handshake, IsUe, CanAttach}
use mini_ran.Core.Invariant.{make_core-IsCore, IsCore}
use mini_ran.Core.UnorderedMap.{insert, find}
use mini_ran.Nodes.Stale.{stale_attach_refused, IsStale}
use mini_ran.Transport.Datagram.{default_datagram, Datagram}
use mini_ran.Protocol.Session.{default_timers, make_session}
use mini_ran.Protocol.Message.{attaching, attached, released}
use mini_ran.Nodes.Traffic.{data_reaches_core, detach_handshake, AreConnected}
use mini_ran.Nodes.Counting.{node_counts, Outcome}
use mini_ran.Metrics.{count_delivered}
use mini_ran.Nodes.Heartbeat.{heartbeat_exchange}

-- Both ends before the attach.
abbrev new_ue : Ue
unfolding make_ue make_session
new_ue = make_ue 7 1 default_timers

abbrev new_node : AccessNode
unfolding make_access_node make_core
new_node = make_access_node 1 7 (make_core default_timers)

-- The UE with a session, and with what a detach without an answer leaves of it.
abbrev attached_ue : Ue
attached_ue = record new_ue {
  session = record new_ue.session { state = attached; session_id = 1000; next_sequence_number = 2 };
}

abbrev stale_ue : Ue
stale_ue = record attached_ue { session = record attached_ue.session { state = released } }

abbrev held : SessionRecord
held = record default_session { ue_id = 7; session_id = 1000; state = attached }

abbrev serving_node : AccessNode
serving_node = record new_node {
  core = record new_node.core { sessions = (7, held) ∷ []; next_session_id = 1001 };
}

new_ue-IsUe : IsUe new_ue
unfolding new_ue
new_ue-IsUe = ground arith

new_ue-CanAttach : CanAttach new_ue
unfolding new_ue
new_ue-CanAttach = ground arith

new_core-IsCore : IsCore new_node.core
unfolding new_node
new_core-IsCore = make_core-IsCore default_timers

attached_ue-AreConnected : AreConnected attached_ue serving_node held
unfolding new_ue new_node find
attached_ue-AreConnected = ground arith

stale_ue-IsStale : IsStale stale_ue
unfolding new_ue
stale_ue-IsStale = ground arith

attach_handshake_example :
    (d : Datagram) × (r : Datagram) × (s : SessionRecord) × ((start_attach new_ue 10).outgoing
      ≡ d ∷ [])
    × ((AccessNode.on_datagram new_node d 20).outgoing ≡ r ∷ [])
    × (find 7 (AccessNode.on_datagram new_node d 20).core.sessions ≡ some s)
    × (s.state ≡ attached)
    × ((Ue.on_datagram (start_attach new_ue 10) r 30).session.state ≡ attached)
    × ((Ue.on_datagram (start_attach new_ue 10) r 30).session.session_id ≡ s.session_id)
unfolding new_ue new_node find
attach_handshake_example =
    attach_handshake new_ue new_node 10 20 30 new_ue-CanAttach new_core-IsCore (omega arith)
      (omega arith) (omega arith)

stale_attach_refused_example :
    (d : Datagram) × (r : Datagram) × ((start_attach stale_ue 10).outgoing ≡ d ∷ [])
    × ((AccessNode.on_datagram new_node d 20).outgoing ≡ r ∷ [])
    × ((AccessNode.on_datagram new_node d 20).core ≡ new_node.core)
    × (Ue.on_datagram (start_attach stale_ue 10) r 30 ≡ start_attach stale_ue 10)
    × ((start_attach stale_ue 10).session.state ≡ attaching)
    × ((start_attach stale_ue 10).session.session_id ≡ 1000)
unfolding new_node new_ue
stale_attach_refused_example =
    stale_attach_refused stale_ue new_node 10 20 30 stale_ue-IsStale (omega arith) (omega arith)

data_reaches_core_example :
    (d : Datagram) × ((send_traffic attached_ue (5 ∷ 6 ∷ []) 10).outgoing ≡ d ∷ [])
    × (AccessNode.on_datagram serving_node d 20 ≡ record serving_node {
      metrics = count_delivered serving_node.metrics 30;
      core = record serving_node.core {
        sessions = insert 7 (count_packet held 2 20) serving_node.core.sessions;
        delivered_bytes = 2;
        delivered_packets = 1;
      };
    })
unfolding new_ue new_node find
data_reaches_core_example =
    data_reaches_core attached_ue serving_node held (5 ∷ 6 ∷ []) 10 20 attached_ue-AreConnected
      (omega arith) (omega arith) (ground arith) (λ e. cc)

detach_handshake_example :
    (d : Datagram) × (r : Datagram) × ((start_detach attached_ue 10).outgoing ≡ d ∷ [])
    × ((AccessNode.on_datagram serving_node d 20).outgoing ≡ r ∷ [])
    × (find 7 (AccessNode.on_datagram serving_node d 20).core.sessions ≡ none)
    × ((Ue.on_datagram (start_detach attached_ue 10) r 30).session.state ≡ released)
    × ((Ue.on_datagram (start_detach attached_ue 10) r 30).session.session_id ≡ 0)
unfolding find new_ue new_node
detach_handshake_example =
    detach_handshake attached_ue serving_node held 10 20 30 attached_ue-AreConnected (ground arith)
      (omega arith) (omega arith)

abbrev noise : Datagram
noise = record default_datagram { bytes = 1 ∷ 6 ∷ [] }

node_counts_example : Outcome serving_node noise (AccessNode.on_datagram serving_node noise 20)
unfolding new_node find
node_counts_example = node_counts serving_node noise 20

heartbeat_exchange_example :
    (d : Datagram) × (r : Datagram) × ((Ue.tick attached_ue 300).outgoing ≡ d ∷ [])
    × ((AccessNode.on_datagram serving_node d 310).outgoing ≡ r ∷ [])
    × (find 7 (AccessNode.on_datagram serving_node d 310).core.sessions
        ≡ some (record held { last_seen_ms = 310 }))
    × ((Ue.on_datagram (Ue.tick attached_ue 300) r 320).session.state ≡ attached)
    × ((Ue.on_datagram (Ue.tick attached_ue 300) r 320).session.last_heartbeat_ack_ms ≡ 320)
unfolding new_ue new_node find
heartbeat_exchange_example =
    heartbeat_exchange attached_ue serving_node held 300 310 320 attached_ue-AreConnected refl
      (omega arith) (omega arith)
