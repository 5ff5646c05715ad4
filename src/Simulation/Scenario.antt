-- ===== src/Simulation/Scenario.antt =====
-- include/miniran/simulation/scenario_config.h and simulation_result.h: what a scenario is given and
-- what it reports.
use Prim.Native.String.{String}
use mini_ran.Common.{ℕ, Bool, List, false, []}
use mini_ran.Double.{Double}
use mini_ran.Transport.Link.{LinkProfile, default_link, TransportMode, tcp}
use mini_ran.Protocol.Message.{SessionState, idle}
use mini_ran.Protocol.Session.{SessionTimers, default_timers}
use mini_ran.Traffic.Profile.{TrafficProfile, default_profile}

module _ (double : Double) where
  open double use {Real, of_nat}

  pub record ScenarioConfig : Type 0 where
    pub scenario_name : String
    pub transport_mode : TransportMode
    pub ue_id : ℕ
    pub access_node_id : ℕ
    pub step_ms : ℕ
    pub attach_phase_budget_ms : ℕ
    pub detach_phase_budget_ms : ℕ
    pub timers : SessionTimers
    pub link_profile : LinkProfile double
    pub traffic_profile : TrafficProfile

  abbrev pub default_config : ScenarioConfig
  default_config = record {
    scenario_name = "default";
    transport_mode = tcp;
    ue_id = 7;
    access_node_id = 1000;
    step_ms = 10;
    attach_phase_budget_ms = 600;
    detach_phase_budget_ms = 600;
    timers = default_timers;
    link_profile = default_link double;
    traffic_profile = default_profile;
  }

  pub record SimulationResult : Type 0 where
    pub scenario_name : String
    pub total_duration_ms : ℕ
    pub attach_succeeded : Bool
    pub traffic_started : Bool
    pub detach_succeeded : Bool
    pub final_ue_state : SessionState
    pub packets_generated : ℕ
    pub bytes_generated : ℕ
    pub packets_delivered_to_core : ℕ
    pub bytes_delivered_to_core : ℕ
    pub packets_dropped_in_network : ℕ
    pub packets_delivered_by_network : ℕ
    pub active_sessions_at_end : ℕ
    pub throughput_mbps : Real
    pub notes : List String
    pub expired_sessions : ℕ

  -- `SimulationResult{}`.
  abbrev pub empty_result : SimulationResult
  empty_result = record {
    scenario_name = "";
    total_duration_ms = 0;
    attach_succeeded = false;
    traffic_started = false;
    detach_succeeded = false;
    final_ue_state = idle;
    packets_generated = 0;
    bytes_generated = 0;
    packets_delivered_to_core = 0;
    bytes_delivered_to_core = 0;
    packets_dropped_in_network = 0;
    packets_delivered_by_network = 0;
    active_sessions_at_end = 0;
    throughput_mbps = of_nat 0;
    notes = [];
    expired_sessions = 0;
  }
