-- ===== src/Simulation/Runner/Time.antt =====
-- The clock of a scenario.
use mini_ran.Common.{
  true, if◌then◌else◌, leb, ◌==◌, Bool, ap, ℕ, ◌≡◌, refl, ◌∙◌, List, [], ◌∷◌, if_cases, add64,
}
use mini_ran.Double.{Double}
use mini_ran.Transport.Network.{Random}
use mini_ran.Simulation.Runner.{
  ue_is_attached, send_traffic, dispatch, Datagram, poll_ready, TrafficEvent, Traffic, World,
  advance, ScenarioConfig, dispatch_all, deliver_ready, start, ask_detach, send_due,
  exchange_traffic,
}

module _ {double : Double} {random : Random double} where
  dispatch_all-now :
      (w : World double random) (ds : List Datagram) → (dispatch_all double random w ds).now ≡ w.now
  unfolding dispatch_all
  dispatch_all-now w [] = refl
  dispatch_all-now w (d ∷ ds) =
      dispatch_all-now (dispatch double random w d) ds
      ∙ if_cases (λ (v : World double random). v.now ≡ w.now) (d.to_node_id == w.ue.node_id) _ _
          refl
          (if_cases (λ (v : World double random). v.now ≡ w.now) (d.to_node_id == w.node.node_id) _
            _ refl refl)

  pub deliver_ready-now : (w : World double random) → (deliver_ready double random w).now ≡ w.now
  unfolding deliver_ready
  deliver_ready-now w = dispatch_all-now _ (poll_ready double random w.network w.now).1

  pub advance-now :
      (c : ScenarioConfig double) (w : World double random)
      → (advance double random c w).now ≡ add64 w.now c.step_ms
  unfolding advance
  advance-now c w = deliver_ready-now _

  pub ask_detach-now : (w : World double random) → (ask_detach double random w).now ≡ w.now
  unfolding ask_detach
  ask_detach-now w = deliver_ready-now _

  send_due-now :
      (since : ℕ) (es : List TrafficEvent) (w : World double random) (started : Bool)
      → (send_due double random since w es started).world.now ≡ w.now
  unfolding send_due
  send_due-now since [] w started = refl
  send_due-now since (e ∷ es) w started =
      let sent = record w { ue = send_traffic w.ue e.payload w.now } in
      if_cases (λ (t : Traffic double random). t.world.now ≡ w.now)
        (leb (add64 since e.timestamp_ms) w.now) _ _
        (send_due-now since es sent (if ue_is_attached w.ue then true else started)) refl

  pub exchange_traffic-now :
      (c : ScenarioConfig double) (since : ℕ) (t : Traffic double random)
      → (exchange_traffic double random c since t).world.now ≡ add64 t.world.now c.step_ms
  unfolding exchange_traffic
  exchange_traffic-now c since t =
      advance-now c _
      ∙ ap (λ now. add64 now c.step_ms) (send_due-now since t.events t.world t.started)

pub start-now :
    {double : Double} (random : Random double) (c : ScenarioConfig double)
    → (start double random c).now ≡ 0
unfolding start
start-now random c = deliver_ready-now _
