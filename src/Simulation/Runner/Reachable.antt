-- ===== src/Simulation/Runner/Reachable.antt =====
-- The worlds that a scenario passes through, and what holds of all of them.
use mini_ran.Nodes.Ue
use mini_ran.Nodes.AccessNode
use mini_ran.Common.{◌∙◌, ◌==◌, add64, ℕ, ◌≡◌, refl, List, [], ◌∷◌, if_cases, IsU32}
use mini_ran.Double.{Double}
use mini_ran.Transport.Network.{Random}
use mini_ran.Nodes.Ue.{
  session_message, queue_message, start_detach, start_attach, Ue, send_traffic, make_ue,
}
use mini_ran.Simulation.Scenario.{ScenarioConfig}
use mini_ran.Simulation.Runner.{
  make_network, submit, make_core, submit_ue, submit_node, dispatch, poll_ready, World, Datagram,
  VirtualNetwork, advance, submit_all, dispatch_all, deliver_ready, ask_detach, start,
}
use mini_ran.Nodes.Lifetime.{
  make_ue-node_id, on_datagram-node_id, calls-node_id, attaches, receives, flushes, ticks, detaches,
  sends, InOrder, step-InOrder, make_ue-InOrder,
}
use mini_ran.Nodes.AccessNode.{make_access_node}
use mini_ran.Transport.Network.Conservation.{
  run-IsConserving, submit-IsConserving, poll_ready-IsConserving, IsConserving,
}

module _ {double : Double} {random : Random double} where
  -- A step of the scenario.
  pub data Reachable (c : ScenarioConfig double) : World double random → Type 0 where
    starts : Reachable c (start double random c)
    advances : (w : World double random) → Reachable c w → Reachable c (advance double random c w)
    sends_payload :
        (w : World double random) (payload : List ℕ)
        → Reachable c w
        → Reachable c (record w { ue = send_traffic w.ue payload w.now })
    asks : (w : World double random) → Reachable c w → Reachable c (ask_detach double random w)

  -- Both nodes are the scenario's, the UE is in order, and the network's accounts agree.
  pub record IsWorld (c : ScenarioConfig double) (w : World double random) : Type 0 where
    pub ue_in_order : InOrder w.ue
    pub ue_is : w.ue.node_id ≡ c.ue_id
    pub network_conserves : IsConserving double random w.network

  update-IsWorld :
      (c : ScenarioConfig double) (v w : World double random)
      → IsWorld c v
      → InOrder w.ue
      → w.ue.node_id ≡ v.ue.node_id
      → IsConserving double random w.network
      → IsWorld c w
  update-IsWorld c v w i u same n = record {
    ue_in_order = u;
    ue_is = same ∙ i.ue_is;
    network_conserves = n;
  }

  submit_all-IsConserving :
      (network : VirtualNetwork double random) (ds : List Datagram) (now : ℕ)
      → IsConserving double random network
      → IsConserving double random (submit_all double random network ds now)
  unfolding submit_all
  submit_all-IsConserving network [] now v = v
  submit_all-IsConserving network (d ∷ ds) now v =
      submit_all-IsConserving (submit double random network d now).0 ds now
        (submit-IsConserving double random network d now v)

  submit_ue-IsWorld :
      (c : ScenarioConfig double) (w : World double random)
      → IsWorld c w
      → IsWorld c (submit_ue double random w)
  unfolding Ue.flush_outgoing
  submit_ue-IsWorld c w i =
      update-IsWorld c w _ i (step-InOrder w.ue w.now flushes i.ue_in_order) refl
        (submit_all-IsConserving w.network w.ue.outgoing w.now i.network_conserves)

  submit_node-IsWorld :
      (c : ScenarioConfig double) (w : World double random)
      → IsWorld c w
      → IsWorld c (submit_node double random w)
  unfolding AccessNode.flush_outgoing
  submit_node-IsWorld c w i =
      update-IsWorld c w _ i i.ue_in_order refl
        (submit_all-IsConserving w.network w.node.outgoing w.now i.network_conserves)

  dispatch-IsWorld :
      (c : ScenarioConfig double) (w : World double random) (d : Datagram)
      → IsWorld c w
      → IsWorld c (dispatch double random w d)
  dispatch-IsWorld c w d i =
      if_cases (IsWorld c) (d.to_node_id == w.ue.node_id) _ _
        (update-IsWorld c w (record w { ue = Ue.on_datagram w.ue d w.now }) i
          (step-InOrder w.ue w.now (receives d) i.ue_in_order) (on_datagram-node_id w.ue d w.now)
          i.network_conserves)
        (if_cases (IsWorld c) (d.to_node_id == w.node.node_id) _ _
          (update-IsWorld c w _ i i.ue_in_order refl i.network_conserves) i)

  dispatch_all-IsWorld :
      (c : ScenarioConfig double) (w : World double random) (ds : List Datagram)
      → IsWorld c w
      → IsWorld c (dispatch_all double random w ds)
  unfolding dispatch_all
  dispatch_all-IsWorld c w [] i = i
  dispatch_all-IsWorld c w (d ∷ ds) i =
      dispatch_all-IsWorld c (dispatch double random w d) ds (dispatch-IsWorld c w d i)

  deliver_ready-IsWorld :
      (c : ScenarioConfig double) (w : World double random)
      → IsWorld c w
      → IsWorld c (deliver_ready double random w)
  unfolding deliver_ready
  deliver_ready-IsWorld c w i =
      dispatch_all-IsWorld c _ (poll_ready double random w.network w.now).1 (
        update-IsWorld c w _ i i.ue_in_order refl
          (poll_ready-IsConserving double random w.network w.now i.network_conserves))

  advance-IsWorld :
      (c : ScenarioConfig double) (w : World double random)
      → IsWorld c w
      → IsWorld c (advance double random c w)
  unfolding advance
  advance-IsWorld c w i =
      let now = add64 w.now c.step_ms in
      let ticked : World double random = record w {
        ue = Ue.tick w.ue now;
        node = AccessNode.tick w.node now;
        now = now;
      } in
      deliver_ready-IsWorld c _ (
        submit_node-IsWorld c _ (
          submit_ue-IsWorld c ticked (
            update-IsWorld c w ticked i (step-InOrder w.ue now ticks i.ue_in_order)
              (calls-node_id w.ue now []).0 i.network_conserves)))

  ask_detach-IsWorld :
      (c : ScenarioConfig double) (w : World double random)
      → IsWorld c w
      → IsWorld c (ask_detach double random w)
  unfolding ask_detach
  ask_detach-IsWorld c w i =
      let asked : World double random = record w { ue = start_detach w.ue w.now } in
      deliver_ready-IsWorld c _ (
        submit_ue-IsWorld c asked (
          update-IsWorld c w asked i (step-InOrder w.ue w.now detaches i.ue_in_order)
            (calls-node_id w.ue w.now []).3 i.network_conserves))

  start-IsWorld :
      (c : ScenarioConfig double)
      → IsU32 c.timers.max_attach_retries
      → IsU32 c.timers.max_detach_retries
      → IsWorld c (start double random c)
  unfolding start
  start-IsWorld c ha hd =
      let made = make_ue c.ue_id c.access_node_id c.timers in
      let in_order = make_ue-InOrder c.ue_id c.access_node_id c.timers ha hd in
      let begun : World double random = record {
        ue = start_attach made 0;
        node = make_access_node c.access_node_id c.ue_id (make_core c.timers);
        network = make_network double random c.link_profile 1337;
        now = 0;
      } in
      deliver_ready-IsWorld c _ (
        submit_ue-IsWorld c begun (record {
          ue_in_order = step-InOrder made 0 attaches in_order;
          ue_is = (calls-node_id made 0 []).2 ∙ make_ue-node_id c.ue_id c.access_node_id c.timers;
          network_conserves = run-IsConserving double random c.link_profile 1337 [];
        }))

-- With limits of 32 bits for the retries, in every world that the scenario reaches the UE's session
-- is in order and the UE's own, the UE has the identifier of the configuration, and the network's
-- sent packets are the dropped, the delivered and the queued ones, modulo 2 ^ 64.
pub reachable-IsWorld :
    (double : Double) (random : Random double) (c : ScenarioConfig double) (w : World double random)
    → IsU32 c.timers.max_attach_retries
    → IsU32 c.timers.max_detach_retries
    → Reachable c w
    → IsWorld c w
reachable-IsWorld double random c _ ha hd starts = start-IsWorld c ha hd
reachable-IsWorld double random c _ ha hd (advances w r) =
    advance-IsWorld c w (reachable-IsWorld double random c w ha hd r)
reachable-IsWorld double random c _ ha hd (sends_payload w payload r) =
    let i = reachable-IsWorld double random c w ha hd r in
    update-IsWorld c w _ i (step-InOrder w.ue w.now (sends payload) i.ue_in_order)
      (calls-node_id w.ue w.now payload).1 i.network_conserves
reachable-IsWorld double random c _ ha hd (asks w r) =
    ask_detach-IsWorld c w (reachable-IsWorld double random c w ha hd r)
