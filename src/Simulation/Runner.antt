-- ===== src/Simulation/Runner.antt =====
-- src/simulation/scenario_runner.cpp. The local variables of `run` that its loops change are a World;
-- each of its three phases is a loop on fuel.
pub mod Time
pub mod Termination
pub mod Reachable
pub mod Report
pub mod Accounting
pub mod Deliveries
use Prim.Native.String.{String}
use mini_ran.Nodes.Ue
use mini_ran.Nodes.AccessNode
use mini_ran.Common.{
  ℕ, ◌==◌, ◌++◌, not, ◌&&◌, ◌||◌, Bool, List, [], ◌∷◌, length, add64, leb, ltb, true, false, Option,
  some, while, if◌then◌else◌, ◌>>=◌,
}
use mini_ran.Double.{Double}
use mini_ran.Transport.Network.{make_network, submit, VirtualNetwork, poll_ready, Random}
use mini_ran.Nodes.Ue.{
  start_attach, ue_state, make_ue, send_traffic, Ue, start_detach, ue_is_attached,
}
use mini_ran.Transport.Datagram.{Datagram}
use mini_ran.Simulation.Scenario.{empty_result, SimulationResult, ScenarioConfig}
use mini_ran.Traffic.Profile.{TrafficEvent}
use mini_ran.Core.{make_core, active_session_count}
use mini_ran.Nodes.AccessNode.{make_access_node, AccessNode}
use mini_ran.Protocol.Message.{detaching, same_state}
use mini_ran.Traffic.Generator.{generate}

module _ (double : Double) (random : Random double) where
  open double use {Real, of_nat, times, over}

  pub record World : Type 0 where
    pub ue : Ue
    pub node : AccessNode
    pub network : VirtualNetwork double random
    pub now : ℕ

  -- The loop of `submitOutgoing`.
  unfoldable pub submit_all :
      VirtualNetwork double random → List Datagram → ℕ → VirtualNetwork double random
  submit_all network [] now = network
  submit_all network (d ∷ ds) now = submit_all (submit double random network d now).0 ds now

  -- `submitOutgoing` of what each node has queued.
  abbrev pub submit_ue : World → World
  submit_ue w =
      let (ue, queued) = Ue.flush_outgoing w.ue in
      record w { ue = ue; network = submit_all w.network queued w.now }

  abbrev pub submit_node : World → World
  submit_node w =
      let (node, queued) = AccessNode.flush_outgoing w.node in
      record w { node = node; network = submit_all w.network queued w.now }

  -- A datagram that arrives goes to the node that it is for, if there is one.
  abbrev pub dispatch : World → Datagram → World
  dispatch w d =
      if d.to_node_id == w.ue.node_id
      then record w { ue = Ue.on_datagram w.ue d w.now }
      else if d.to_node_id == w.node.node_id
      then record w { node = AccessNode.on_datagram w.node d w.now }
      else w

  unfoldable pub dispatch_all : World → List Datagram → World
  dispatch_all w [] = w
  dispatch_all w (d ∷ ds) = dispatch_all (dispatch w d) ds

  unfoldable pub deliver_ready : World → World
  deliver_ready w =
      let (network, ready) = poll_ready double random w.network w.now in
      dispatch_all (record w { network = network }) ready

  -- The body that the three loops share.
  unfoldable pub advance : ScenarioConfig double → World → World
  advance c w =
      let now = add64 w.now c.step_ms in
      deliver_ready (
        submit_node (
          submit_ue
            (record w { ue = Ue.tick w.ue now; node = AccessNode.tick w.node now; now = now })))

  -- The nodes as they are made, and the attach that is sent at time 0.
  unfoldable pub start : ScenarioConfig double → World
  start c =
      let ue = make_ue c.ue_id c.access_node_id c.timers in
      deliver_ready (
        submit_ue (record {
          ue = start_attach ue 0;
          node = make_access_node c.access_node_id c.ue_id (make_core c.timers);
          network = make_network double random c.link_profile 1337;
          now = 0;
        }))

  abbrev pub still_attaching : ScenarioConfig double → World → Bool
  still_attaching c w = leb w.now c.attach_phase_budget_ms && not (ue_is_attached w.ue)

  -- The world and the events that are left, and whether traffic has started.
  pub record Traffic : Type 0 where
    pub world : World
    pub events : List TrafficEvent
    pub started : Bool

  -- The inner loop: the events whose time has come.
  unfoldable pub send_due : ℕ → World → List TrafficEvent → Bool → Traffic
  send_due since w [] started = record { world = w; events = []; started = started }
  send_due since w (e ∷ es) started =
      let sent = record w { ue = send_traffic w.ue e.payload w.now } in
      let later = send_due since sent es (if ue_is_attached w.ue then true else started) in
      if leb (add64 since e.timestamp_ms) w.now
      then later
      else record { world = w; events = e ∷ es; started = started }

  abbrev pub has_time : ScenarioConfig double → ℕ → Traffic → Bool
  has_time c since t = ltb t.world.now (add64 since c.traffic_profile.duration_ms)

  unfoldable pub exchange_traffic : ScenarioConfig double → ℕ → Traffic → Traffic
  exchange_traffic c since t =
      let sent = send_due since t.world t.events t.started in
      record sent { world = advance c sent.world }

  unfoldable pub ask_detach : World → World
  ask_detach w = deliver_ready (submit_ue (record w { ue = start_detach w.ue w.now }))

  abbrev pub still_detaching : ℕ → World → Bool
  still_detaching deadline w =
      leb w.now deadline
      && (ue_is_attached w.ue
          || same_state (ue_state w.ue) detaching
          || ltb 0 (active_session_count w.node.core))

  abbrev pub count_bytes : List TrafficEvent → ℕ → ℕ
  count_bytes [] total = total
  count_bytes (e ∷ es) total = count_bytes es (add64 total (length e.payload))

  -- What both returns of `run` report.
  abbrev pub report : ScenarioConfig double → List TrafficEvent → World → SimulationResult double
  report c events w = record (empty_result double) {
    scenario_name = c.scenario_name;
    packets_generated = length events;
    bytes_generated = count_bytes events 0;
    total_duration_ms = w.now;
    final_ue_state = ue_state w.ue;
    packets_dropped_in_network = w.network.metrics.packets_dropped;
    packets_delivered_by_network = w.network.metrics.packets_delivered;
    active_sessions_at_end = active_session_count w.node.core;
  }

  unfoldable pub attach_failed :
      ScenarioConfig double → List TrafficEvent → World → SimulationResult double
  attach_failed c events w = record (report c events w) {
    notes =
        "Attach phase ended without reaching Attached state."
        ∷ "Traffic and detach phases skipped because no session was established." ∷ [];
  }

  abbrev pub detach_notes : World → List String
  detach_notes w =
      let active = active_session_count w.node.core in
      if not (ue_is_attached w.ue) && active == 0
      then []
      else if not (ue_is_attached w.ue) && ltb 0 active
      then "UE left Attached state, but CoreNetwork still has an active session." ∷ []
      else "Detach phase did not close the session cleanly." ∷ []

  unfoldable pub finished :
      ScenarioConfig double → List TrafficEvent → Bool → World → SimulationResult double
  finished c events started w =
      let core = w.node.core in
      let duration = c.traffic_profile.duration_ms in
      let bits = times (of_nat core.delivered_bytes) (of_nat 8) in
      let rate = over (over bits (over (of_nat duration) (of_nat 1000))) (of_nat 1_000_000) in
      record (report c events w) {
        attach_succeeded = true;
        traffic_started = started;
        detach_succeeded = not (ue_is_attached w.ue) && active_session_count core == 0;
        packets_delivered_to_core = core.delivered_packets;
        bytes_delivered_to_core = core.delivered_bytes;
        throughput_mbps = if duration == 0 then of_nat 0 else rate;
        expired_sessions = core.expired_sessions;
        notes =
            detach_notes w
            ++ (if core.delivered_bytes == 0
                then "No user-plane payload reached the simplified core." ∷ []
                else []);
      }

  -- `run` after an attach that succeeded.
  unfoldable pub use_session :
      ℕ → ScenarioConfig double → List TrafficEvent → World → Option (SimulationResult double)
  use_session fuel c events w = do
    t ←
        while fuel (has_time c w.now) (exchange_traffic c w.now)
          (record { world = w; events = events; started = false })
    let asked = ask_detach t.world
    last ← while fuel (still_detaching (add64 asked.now c.detach_phase_budget_ms)) (advance c) asked
    some (finished c events t.started last)

  unfoldable pub run : ℕ → ScenarioConfig double → Option (SimulationResult double)
  run fuel c = do
    events ← generate double fuel c.traffic_profile
    w ← while fuel (still_attaching c) (advance c) (start c)
    if not (ue_is_attached w.ue)
        then some (attach_failed c events w)
        else use_session fuel c events w
