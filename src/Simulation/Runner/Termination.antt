-- ===== src/Simulation/Runner/Termination.antt =====
-- The three phases of a scenario: how long each takes, and the fuel that is enough.
use mini_ran.Common.{
  inr, inl, Bool-cases, ℕ, ◌≡◌, ◌≢◌, ◌+◌, ◌*◌, ◌-◌, ◌<◌, ◌≤◌, ◌^◌, refl, List, Bool, true, false,
  some, while, while_returns, arith, add64,
}
use mini_ran.Double.{Double}
use mini_ran.Simulation.Scenario.{SimulationResult, ScenarioConfig}
use mini_ran.Transport.Network.{Random}
use mini_ran.Simulation.Runner.{
  start, advance, exchange_traffic, ue_is_attached, ask_detach, generate, still_attaching, has_time,
  still_detaching, TrafficEvent, run, World, Traffic, attach_failed, finished, use_session,
}
use mini_ran.Protocol.Message.{attached}
use mini_ran.Simulation.Runner.Time.{start-now, exchange_traffic-now, advance-now, ask_detach-now}

-- What the fields of a result say of each other, and how long a scenario takes at most.
pub record IsCoherent (double : Double) (c : ScenarioConfig double) (r : SimulationResult double)
    : Type 0 where
  pub within_time :
      r.total_duration_ms
      ≤ c.attach_phase_budget_ms
        + c.traffic_profile.duration_ms
        + c.detach_phase_budget_ms
        + 3 * c.step_ms
  pub without_attach :
      r.attach_succeeded ≡ false
      → (r.traffic_started ≡ false)
        × (r.detach_succeeded ≡ false)
        × (r.packets_delivered_to_core ≡ 0)
        × (r.final_ue_state ≢ attached)
  pub after_detach :
      r.detach_succeeded ≡ true
      → (r.attach_succeeded ≡ true) × (r.active_sessions_at_end ≡ 0) × (r.final_ue_state ≢ attached)

-- Time moves, and does not wrap within the phases.
abbrev pub HasTime : {double : Double} → ScenarioConfig double → Type 0
HasTime c =
    (0 < c.step_ms)
    × (c.attach_phase_budget_ms
          + c.traffic_profile.duration_ms
          + c.detach_phase_budget_ms
          + 3 * c.step_ms
        < 2 ^ 64)

-- More rounds than any phase has.
abbrev pub IsEnough : {double : Double} → ScenarioConfig double → ℕ → Type 0
IsEnough c fuel =
    c.attach_phase_budget_ms + c.traffic_profile.duration_ms + c.detach_phase_budget_ms + 1 < fuel

module _ {double : Double} {random : Random double} where
  attach_phase_ends :
      (c : ScenarioConfig double) (fuel : ℕ)
      → HasTime c
      → IsEnough c fuel
      → (w : World double random) × (while fuel
            (still_attaching double random c)
            (advance double random c)
            (start double random c)
          ≡ some w)
        × (still_attaching double random c w ≡ false)
        × (w.now ≤ c.attach_phase_budget_ms + c.step_ms)
  attach_phase_ends c fuel h f =
      while_returns (still_attaching double random c) (advance double random c)
        (λ w. w.now ≤ c.attach_phase_budget_ms + c.step_ms)
        (λ w. c.attach_phase_budget_ms + 1 - w.now)
        (λ w early goes. ground (arith, advance-now c w)) fuel (start double random c)
        (omega (arith, start-now random c)) (omega arith)

  traffic_phase_ends :
      (c : ScenarioConfig double) (fuel : ℕ) (t : Traffic double random)
      → HasTime c
      → IsEnough c fuel
      → t.world.now ≤ c.attach_phase_budget_ms + c.step_ms
      → let since = t.world.now in
        (u : Traffic double random) × (while fuel
            (has_time double random c since)
            (exchange_traffic double random c since)
            t
          ≡ some u)
        × (has_time double random c since u ≡ false)
        × (u.world.now ≤ since + c.traffic_profile.duration_ms + c.step_ms)
  traffic_phase_ends c fuel t h f early =
      let since = t.world.now in
      while_returns (has_time double random c since) (exchange_traffic double random c since)
        (λ u. u.world.now ≤ since + c.traffic_profile.duration_ms + c.step_ms)
        (λ u. since + c.traffic_profile.duration_ms - u.world.now)
        (λ u kept goes. ground (arith, exchange_traffic-now c since u)) fuel t (omega arith)
        (omega arith)

  detach_phase_ends :
      (c : ScenarioConfig double) (fuel : ℕ) (w : World double random)
      → HasTime c
      → IsEnough c fuel
      → w.now ≤ c.attach_phase_budget_ms + c.traffic_profile.duration_ms + 2 * c.step_ms
      → let deadline = add64 w.now c.detach_phase_budget_ms in
        (v : World double random) × (while fuel
            (still_detaching double random deadline)
            (advance double random c)
            w
          ≡ some v)
        × (still_detaching double random deadline v ≡ false)
        × (v.now ≤ w.now + c.detach_phase_budget_ms + c.step_ms)
  detach_phase_ends c fuel w h f early =
      let deadline = add64 w.now c.detach_phase_budget_ms in
      while_returns (still_detaching double random deadline) (advance double random c)
        (λ v. v.now ≤ w.now + c.detach_phase_budget_ms + c.step_ms)
        (λ v. w.now + c.detach_phase_budget_ms + 1 - v.now)
        (λ v kept goes. ground (arith, advance-now c v)) fuel w (omega arith) (omega arith)

  attach_failed-IsCoherent :
      (c : ScenarioConfig double) (events : List TrafficEvent) (w : World double random)
      → w.now ≤ c.attach_phase_budget_ms + c.step_ms
      → ue_is_attached w.ue ≡ false
      → IsCoherent double c (attach_failed double random c events w)
  unfolding attach_failed
  attach_failed-IsCoherent c events w early a = record {
    within_time = omega arith;
    without_attach = λ e. (refl, refl, refl, ground arith);
    after_detach = λ e. cc;
  }

  finished-IsCoherent :
      (c : ScenarioConfig double) (events : List TrafficEvent) (started : Bool)
      (w : World double random)
      → w.now
        ≤ c.attach_phase_budget_ms
          + c.traffic_profile.duration_ms
          + c.detach_phase_budget_ms
          + 3 * c.step_ms
      → IsCoherent double c (finished double random c events started w)
  unfolding finished
  finished-IsCoherent c events started w early = record {
    within_time = early;
    without_attach = λ e. cc;
    after_detach = λ e. ground arith;
  }

  use_session_returns :
      (c : ScenarioConfig double) (events : List TrafficEvent) (fuel : ℕ) (w : World double random)
      → HasTime c
      → IsEnough c fuel
      → w.now ≤ c.attach_phase_budget_ms + c.step_ms
      → (r : SimulationResult double) × (use_session double random fuel c events w ≡ some r)
        × IsCoherent double c r
  unfolding use_session
  use_session_returns c events fuel w h f early =
      let first : Traffic double random = record { world = w; events = events; started = false } in
      let (t, sent, _, soon) = traffic_phase_ends c fuel first h f early in
      let asked = ask_detach double random t.world in
      let same : asked.now ≡ t.world.now = ask_detach-now t.world in
      let (last, left, _, late) = detach_phase_ends c fuel asked h f (omega arith) in
      (
        finished double random c events t.started last,
        rw (sent, left) refl,
        finished-IsCoherent c events t.started last (omega arith),
      )

-- If the traffic is generated within the fuel, a step takes time, the budgets, the duration and
-- three steps together fit 64 bits, and the fuel is more than the budgets and the duration by more
-- than one, then the run returns a result. Its duration is at most the budgets, the traffic's
-- duration and three steps; without an attach there was no traffic, no detach and nothing
-- delivered, and the UE is not attached; a detach that succeeded followed an attach, and left no
-- active session and a UE that is not attached.
pub run_returns :
    (double : Double) (random : Random double) (c : ScenarioConfig double)
    (events : List TrafficEvent) (fuel : ℕ)
    → generate double fuel c.traffic_profile ≡ some events
    → HasTime c
    → IsEnough c fuel
    → (r : SimulationResult double) × (run double random fuel c ≡ some r) × IsCoherent double c r
unfolding run
run_returns double random c events fuel g h f =
    let (w, attaches, _, early) = attach_phase_ends {random = random} c fuel h f in
    elim (Bool-cases (ue_is_attached w.ue)) [
      | inl joined ↦
          let (r, done, good) = use_session_returns c events fuel w h f early in
          (r, rw (g, attaches, joined) done, good)
      | inr alone ↦ (
        attach_failed double random c events w,
        rw (g, attaches, alone) refl,
        attach_failed-IsCoherent c events w early alone,
      )
    ]
