-- ===== src/Simulation/Runner/Accounting.antt =====
-- What the core counts against what the traffic generator made, over a whole scenario.
use mini_ran.Nodes.Ue
use mini_ran.Nodes.AccessNode
use mini_ran.Nodes.Ue.{ue_is_attached, Ue, start_attach, start_detach, send_traffic, make_ue}
use mini_ran.Nodes.AccessNode.{AccessNode, make_access_node}
use mini_ran.Nodes.Carried.{
  amount, IsWithin, carried-start_attach, carried-start_detach, carried-tick, carried-on_datagram,
}
use mini_ran.Nodes.Delivered.{IsTotal, held, tick-held, on_datagram-held}
use mini_ran.Transport.Network.{make_network}
use mini_ran.Transport.Network.Carried.{carried, carried-submit, carried-poll_ready}
use mini_ran.Simulation.Runner.{
  submit, poll_ready, VirtualNetwork, ScenarioConfig, ask_detach, start, TrafficEvent, Datagram,
  Random, Double, ℕ, World, submit_all, submit_ue, submit_node, dispatch, dispatch_all,
  deliver_ready, advance,
}
use mini_ran.Common.{◌≡◌, ap, ◌==◌, [], arith, if_cases, add64, ◌∷◌, All, ◌+◌, ◌≤◌, List, ℕ}
use mini_ran.Core.{make_core, CoreNetwork}

module _ (weight : ℕ → ℕ) (total : CoreNetwork → ℕ) (is : IsTotal weight total) where
  abbrev pub carries : List Datagram → ℕ
  carries ds = carried (amount weight) ds

  -- What the events may add, each within its bound.
  abbrev pub bounds : (TrafficEvent → ℕ) → List TrafficEvent → ℕ
  bounds bound [] = 0
  bounds bound (e ∷ es) = bound e + bounds bound es

  abbrev pub AreWithin : (TrafficEvent → ℕ) → List TrafficEvent → Type 0
  AreWithin bound es = All (λ e. IsWithin weight (bound e) e.payload) es

  module _ (double : Double) (random : Random double) where
    -- The core's total, and what is on its way in the queues.
    abbrev pub account : World double random → ℕ
    account w = held weight total is w.node + carries w.ue.outgoing + carries w.network.queue

    carries-submit_all :
        (network : VirtualNetwork double random) (ds : List Datagram) (now : ℕ)
        → carries (submit_all double random network ds now).queue
          ≤ carries network.queue + carries ds
    unfolding submit_all
    carries-submit_all network [] now = omega arith
    carries-submit_all network (d ∷ ds) now = omega (
      arith,
      carries-submit_all (submit double random network d now).0 ds now,
      carried-submit (amount weight) network d now,
    )

    account-submit_ue : (w : World double random) → account (submit_ue double random w) ≤ account w
    unfolding Ue.flush_outgoing
    account-submit_ue w = omega (arith, carries-submit_all w.network w.ue.outgoing w.now)

    account-submit_node :
        (w : World double random) → account (submit_node double random w) ≤ account w
    unfolding AccessNode.flush_outgoing
    account-submit_node w = omega (arith, carries-submit_all w.network w.node.outgoing w.now)

    account-dispatch :
        (w : World double random) (d : Datagram)
        → account (dispatch double random w d) ≤ account w + amount weight d.bytes
    account-dispatch w d =
        let small = λ (v : World double random). account v ≤ account w + amount weight d.bytes in
        if_cases small (d.to_node_id == w.ue.node_id) _ _
          (omega (arith, ap carries (carried-on_datagram weight w.ue d w.now)))
          (if_cases small (d.to_node_id == w.node.node_id) _ _
            (omega (arith, on_datagram-held weight total is w.node d w.now)) (omega arith))

    account-dispatch_all :
        (w : World double random) (ds : List Datagram)
        → account (dispatch_all double random w ds) ≤ account w + carries ds
    unfolding dispatch_all
    account-dispatch_all w [] = omega arith
    account-dispatch_all w (d ∷ ds) =
        omega (arith, account-dispatch_all (dispatch double random w d) ds, account-dispatch w d)

    account-deliver_ready :
        (w : World double random) → account (deliver_ready double random w) ≤ account w
    unfolding deliver_ready
    account-deliver_ready w =
        let (network, ready) = poll_ready double random w.network w.now in
        omega (
          arith,
          account-dispatch_all (record w { network = network }) ready,
          carried-poll_ready (amount weight) w.network w.now,
        )

    pub account-advance :
        (c : ScenarioConfig double) (w : World double random)
        → account (advance double random c w) ≤ account w
    unfolding advance
    account-advance c w =
        let now = add64 w.now c.step_ms in
        let ticked : World double random = record w {
          ue = Ue.tick w.ue now;
          node = AccessNode.tick w.node now;
          now = now;
        } in
        let first = submit_ue double random ticked in
        omega (
          arith,
          account-deliver_ready (submit_node double random first),
          account-submit_node first,
          account-submit_ue ticked,
          carried-tick weight w.ue now,
          tick-held weight total is w.node now,
        )

    pub account-ask_detach :
        (w : World double random) → account (ask_detach double random w) ≤ account w
    unfolding ask_detach
    account-ask_detach w =
        let asked : World double random = record w { ue = start_detach w.ue w.now } in
        omega (
          arith,
          account-deliver_ready (submit_ue double random asked),
          account-submit_ue asked,
          carried-start_detach weight w.ue w.now,
        )

    pub account-start : (c : ScenarioConfig double) → account (start double random c) ≡ 0
    unfolding start make_ue make_access_node make_network
    account-start c =
        let made = make_ue c.ue_id c.access_node_id c.timers in
        let begun : World double random = record {
          ue = start_attach made 0;
          node = make_access_node c.access_node_id c.ue_id (make_core c.timers);
          network = make_network double random c.link_profile 1337;
          now = 0;
        } in
        omega (
          arith,
          account-deliver_ready (submit_ue double random begun),
          account-submit_ue begun,
          carried-start_attach weight made 0,
          is.starts_empty c.timers,
        )
