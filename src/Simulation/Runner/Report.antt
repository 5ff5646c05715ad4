-- ===== src/Simulation/Runner/Report.antt =====
-- The result of a scenario against the worlds that the scenario reaches.
use mini_ran.Common.{
  arith, true, if◌then◌else◌, add64, leb, false, Bool, ℕ, ◌≡◌, refl, List, [], ◌∷◌, if_cases, some,
  while, while_keeps, bind-some, Bool-cases, inl, inr, subst,
}
use mini_ran.Double.{Double}
use mini_ran.Simulation.Runner.{
  ue_is_attached, still_detaching, start, ask_detach, advance, has_time, still_attaching,
  active_session_count, send_traffic, generate, ue_state, World, TrafficEvent, Traffic,
  SimulationResult, ScenarioConfig, send_due, exchange_traffic, attach_failed, finished,
  use_session, Random, run,
}
use mini_ran.Simulation.Runner.Reachable.{sends_payload, asks, starts, advances, Reachable}

module _ {double : Double} {random : Random double} where
  pub record IsReport (r : SimulationResult double) (w : World double random) : Type 0 where
    pub at_time : r.total_duration_ms ≡ w.now
    pub in_state : r.final_ue_state ≡ ue_state w.ue
    pub counts_sessions : r.active_sessions_at_end ≡ active_session_count w.node.core
    pub counts_dropped : r.packets_dropped_in_network ≡ w.network.metrics.packets_dropped
    pub counts_delivered : r.packets_delivered_by_network ≡ w.network.metrics.packets_delivered
    pub after_detach :
        r.detach_succeeded ≡ true
        → (r.attach_succeeded ≡ true)
          × (ue_is_attached w.ue ≡ false)
          × (active_session_count w.node.core ≡ 0)

  send_due-Reachable :
      (c : ScenarioConfig double) (since : ℕ) (es : List TrafficEvent) (w : World double random)
      (started : Bool)
      → Reachable c w
      → Reachable c (send_due double random since w es started).world
  unfolding send_due
  send_due-Reachable c since [] w started r = r
  send_due-Reachable c since (e ∷ es) w started r =
      let sent = record w { ue = send_traffic w.ue e.payload w.now } in
      if_cases (λ (t : Traffic double random). Reachable c t.world)
        (leb (add64 since e.timestamp_ms) w.now) _ _
        (send_due-Reachable c since es sent (if ue_is_attached w.ue then true else started)
          (sends_payload w e.payload r))
        r

  exchange_traffic-Reachable :
      (c : ScenarioConfig double) (since : ℕ) (t : Traffic double random)
      → Reachable c t.world
      → Reachable c (exchange_traffic double random c since t).world
  unfolding exchange_traffic
  exchange_traffic-Reachable c since t r =
      advances _ (send_due-Reachable c since t.events t.world t.started r)

  attach_failed-IsReport :
      (c : ScenarioConfig double) (events : List TrafficEvent) (w : World double random)
      → IsReport (attach_failed double random c events w) w
  unfolding attach_failed
  attach_failed-IsReport c events w = record {
    at_time = refl;
    in_state = refl;
    counts_sessions = refl;
    counts_dropped = refl;
    counts_delivered = refl;
    after_detach = λ e. cc;
  }

  finished-IsReport :
      (c : ScenarioConfig double) (events : List TrafficEvent) (started : Bool)
      (w : World double random)
      → IsReport (finished double random c events started w) w
  unfolding finished
  finished-IsReport c events started w = record {
    at_time = refl;
    in_state = refl;
    counts_sessions = refl;
    counts_dropped = refl;
    counts_delivered = refl;
    after_detach = λ e. ground arith;
  }

  reports_of :
      (c : ScenarioConfig double) (w : World double random) (q r : SimulationResult double)
      → Reachable c w
      → IsReport q w
      → some q ≡ some r
      → (v : World double random) × Reachable c v × IsReport r v
  reports_of c w q r reached i e =
      let same : q ≡ r = cc in (w, reached, subst (λ x. IsReport x w) same i)

  use_session_reports :
      (c : ScenarioConfig double) (events : List TrafficEvent) (fuel : ℕ) (w : World double random)
      (r : SimulationResult double)
      → Reachable c w
      → use_session double random fuel c events w ≡ some r
      → (v : World double random) × Reachable c v × IsReport r v
  unfolding use_session
  use_session_reports c events fuel w r reached e =
      let first : Traffic double random = record { world = w; events = events; started = false } in
      let (t, loops, rest) =
        bind-some
          (while fuel (has_time double random c w.now) (exchange_traffic double random c w.now)
            first)
          _ r e in
      let reached' =
        while_keeps (has_time double random c w.now) (exchange_traffic double random c w.now)
          (λ t. Reachable c t.world) (exchange_traffic-Reachable c w.now) fuel first t reached
          loops in
      let asked = ask_detach double random t.world in
      let deadline = add64 asked.now c.detach_phase_budget_ms in
      let (last, ends, result) =
        bind-some
          (while fuel (still_detaching double random deadline) (advance double random c) asked) _ r
          rest in
      reports_of c last (finished double random c events t.started last) r
        (while_keeps (still_detaching double random deadline) (advance double random c)
          (Reachable c) (λ s i. advances s i) fuel asked last (asks t.world reached') ends)
        (finished-IsReport c events t.started last) result

-- If a run returns a result, whatever the fuel, then the scenario reaches a world whose time, UE
-- state, count of active sessions and counts of dropped and delivered datagrams are those of the
-- result.
pub run_reports :
    (double : Double) (random : Random double) (c : ScenarioConfig double) (fuel : ℕ)
    (r : SimulationResult double)
    → run double random fuel c ≡ some r
    → (w : World double random) × Reachable c w × IsReport r w
unfolding run
run_reports double random c fuel r e =
    let (events, _, rest) = bind-some (generate double fuel c.traffic_profile) _ r e in
    let (w, loops, result) =
      bind-some
        (while fuel (still_attaching double random c) (advance double random c)
          (start double random c))
        _ r rest in
    let reached =
      while_keeps (still_attaching double random c) (advance double random c) (Reachable c)
        (λ s i. advances s i) fuel (start double random c) w starts loops in
    elim (Bool-cases (ue_is_attached w.ue)) [
      | inl joined ↦ use_session_reports c events fuel w r reached (rw joined at result)
      | inr alone ↦
          reports_of c w (attach_failed double random c events w) r reached
            (attach_failed-IsReport c events w) (rw alone at result)
    ]
