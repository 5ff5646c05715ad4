-- ===== src/Simulation/Config/Files.antt =====
-- The file that spells out a scenario.
use Prim.Native.String.{String}
use mini_ran.Common.{◌≡◌, refl, [], ◌∷◌, All, ◌&◌, some}
use mini_ran.Text.{decimal}
use mini_ran.Text.Lines.{HasNo}
use mini_ran.Double.{Double, DoubleText}
use mini_ran.Traffic.Profile.{pattern_to_string}
use mini_ran.Transport.Link.{mode_to_string}
use mini_ran.Simulation.Scenario.{ScenarioConfig}
use mini_ran.Simulation.Config.{Values, read_value, from_file, good}
use mini_ran.Simulation.Config.Loaded.{IsScenario}
use mini_ran.Simulation.Config.Assignments.{IsValue}
use mini_ran.Simulation.Config.Printed.{IsPair, AreNew, print_values, read-print_values}
use mini_ran.Simulation.Config.Complete.{HoldsScenario, from_values_complete}
use mini_ran.Simulation.Config.Words.{
  is_word, word-IsPair, decimal-IsPair, mode-IsPair, pattern-IsPair,
}

module _ (double : Double) (text : DoubleText double) where
  abbrev pub values_of : ScenarioConfig double → Values
  values_of c =
      ("scenario_name", c.scenario_name)
      ∷ ("transport_mode", mode_to_string c.transport_mode)
      ∷ ("traffic_pattern", pattern_to_string c.traffic_profile.pattern)
      ∷ ("ue_id", decimal c.ue_id)
      ∷ ("access_node_id", decimal c.access_node_id)
      ∷ ("step_ms", decimal c.step_ms)
      ∷ ("attach_phase_budget_ms", decimal c.attach_phase_budget_ms)
      ∷ ("detach_phase_budget_ms", decimal c.detach_phase_budget_ms)
      ∷ ("attach_timeout_ms", decimal c.timers.attach_timeout_ms)
      ∷ ("detach_timeout_ms", decimal c.timers.detach_timeout_ms)
      ∷ ("heartbeat_interval_ms", decimal c.timers.heartbeat_interval_ms)
      ∷ ("inactivity_timeout_ms", decimal c.timers.inactivity_timeout_ms)
      ∷ ("max_attach_retries", decimal c.timers.max_attach_retries)
      ∷ ("max_detach_retries", decimal c.timers.max_detach_retries)
      ∷ ("latency_ms", decimal c.link_profile.latency_ms)
      ∷ ("jitter_ms", decimal c.link_profile.jitter_ms)
      ∷ ("loss_percent", text.show_double c.link_profile.loss_percent)
      ∷ ("reorder_percent", text.show_double c.link_profile.reorder_percent)
      ∷ ("bandwidth_kbps", decimal c.link_profile.bandwidth_kbps)
      ∷ ("queue_limit_packets", decimal c.link_profile.queue_limit_packets)
      ∷ ("traffic_duration_ms", decimal c.traffic_profile.duration_ms)
      ∷ ("packet_size_bytes", decimal c.traffic_profile.packet_size_bytes)
      ∷ ("packets_per_second", decimal c.traffic_profile.packets_per_second)
      ∷ ("burst_packets", decimal c.traffic_profile.burst_packets)
      ∷ ("burst_interval_ms", decimal c.traffic_profile.burst_interval_ms)
      ∷ ("ramp_start_pps", decimal c.traffic_profile.ramp_start_pps)
      ∷ ("ramp_end_pps", decimal c.traffic_profile.ramp_end_pps)
      ∷ []

  -- The texts of a scenario that are not numbers of the program can stand in a line, and its two
  -- rates are read as they were written.
  pub record IsWritable (c : ScenarioConfig double) : Type 0 where
    pub name_value : IsValue c.scenario_name
    pub name_line : HasNo 10 c.scenario_name
    pub loss_percent_value : IsValue (text.show_double c.link_profile.loss_percent)
    pub loss_percent_line : HasNo 10 (text.show_double c.link_profile.loss_percent)
    pub loss_percent_reads :
        text.read_double (text.show_double c.link_profile.loss_percent)
        ≡ some c.link_profile.loss_percent
    pub reorder_percent_value : IsValue (text.show_double c.link_profile.reorder_percent)
    pub reorder_percent_line : HasNo 10 (text.show_double c.link_profile.reorder_percent)
    pub reorder_percent_reads :
        text.read_double (text.show_double c.link_profile.reorder_percent)
        ≡ some c.link_profile.reorder_percent

  values_of-IsPair : (c : ScenarioConfig double) → IsWritable c → All IsPair (values_of c)
  unfolding is_word
  values_of-IsPair c w =
      word-IsPair "scenario_name" c.scenario_name (λ e. cc) refl w.name_value w.name_line
      & mode-IsPair c.transport_mode
      & pattern-IsPair c.traffic_profile.pattern
      & decimal-IsPair "ue_id" c.ue_id (λ e. cc) refl
      & decimal-IsPair "access_node_id" c.access_node_id (λ e. cc) refl
      & decimal-IsPair "step_ms" c.step_ms (λ e. cc) refl
      & decimal-IsPair "attach_phase_budget_ms" c.attach_phase_budget_ms (λ e. cc) refl
      & decimal-IsPair "detach_phase_budget_ms" c.detach_phase_budget_ms (λ e. cc) refl
      & decimal-IsPair "attach_timeout_ms" c.timers.attach_timeout_ms (λ e. cc) refl
      & decimal-IsPair "detach_timeout_ms" c.timers.detach_timeout_ms (λ e. cc) refl
      & decimal-IsPair "heartbeat_interval_ms" c.timers.heartbeat_interval_ms (λ e. cc) refl
      & decimal-IsPair "inactivity_timeout_ms" c.timers.inactivity_timeout_ms (λ e. cc) refl
      & decimal-IsPair "max_attach_retries" c.timers.max_attach_retries (λ e. cc) refl
      & decimal-IsPair "max_detach_retries" c.timers.max_detach_retries (λ e. cc) refl
      & decimal-IsPair "latency_ms" c.link_profile.latency_ms (λ e. cc) refl
      & decimal-IsPair "jitter_ms" c.link_profile.jitter_ms (λ e. cc) refl
      & word-IsPair "loss_percent" (text.show_double c.link_profile.loss_percent) (λ e. cc) refl
          w.loss_percent_value w.loss_percent_line
      & word-IsPair "reorder_percent" (text.show_double c.link_profile.reorder_percent) (λ e. cc)
          refl w.reorder_percent_value w.reorder_percent_line
      & decimal-IsPair "bandwidth_kbps" c.link_profile.bandwidth_kbps (λ e. cc) refl
      & decimal-IsPair "queue_limit_packets" c.link_profile.queue_limit_packets (λ e. cc) refl
      & decimal-IsPair "traffic_duration_ms" c.traffic_profile.duration_ms (λ e. cc) refl
      & decimal-IsPair "packet_size_bytes" c.traffic_profile.packet_size_bytes (λ e. cc) refl
      & decimal-IsPair "packets_per_second" c.traffic_profile.packets_per_second (λ e. cc) refl
      & decimal-IsPair "burst_packets" c.traffic_profile.burst_packets (λ e. cc) refl
      & decimal-IsPair "burst_interval_ms" c.traffic_profile.burst_interval_ms (λ e. cc) refl
      & decimal-IsPair "ramp_start_pps" c.traffic_profile.ramp_start_pps (λ e. cc) refl
      & decimal-IsPair "ramp_end_pps" c.traffic_profile.ramp_end_pps (λ e. cc) refl
      & tt

  values_of-AreNew : (c : ScenarioConfig double) → AreNew [] (values_of c)
  unfolding read_value
  values_of-AreNew c =
      refl & refl & refl & refl & refl & refl & refl & refl & refl & refl & refl & refl & refl
      & refl & refl & refl & refl & refl & refl & refl & refl & refl & refl & refl & refl & refl
      & refl & tt

  values_of-HoldsScenario :
      (c : ScenarioConfig double) → IsWritable c → HoldsScenario double text (values_of c) c
  unfolding read_value
  values_of-HoldsScenario c w = record {
    at_scenario_name = refl;
    at_transport_mode = refl;
    at_ue_id = refl;
    at_access_node_id = refl;
    at_step_ms = refl;
    at_attach_phase_budget_ms = refl;
    at_detach_phase_budget_ms = refl;
    holds_timers = record {
      at_attach_timeout_ms = refl;
      at_detach_timeout_ms = refl;
      at_heartbeat_interval_ms = refl;
      at_inactivity_timeout_ms = refl;
      at_max_attach_retries = refl;
      at_max_detach_retries = refl;
    };
    holds_link = record {
      at_latency_ms = refl;
      at_jitter_ms = refl;
      at_loss_percent = refl;
      reads_loss_percent = w.loss_percent_reads;
      at_reorder_percent = refl;
      reads_reorder_percent = w.reorder_percent_reads;
      at_bandwidth_kbps = refl;
      at_queue_limit_packets = refl;
    };
    holds_traffic = record {
      at_traffic_pattern = refl;
      at_traffic_duration_ms = refl;
      at_packet_size_bytes = refl;
      at_packets_per_second = refl;
      at_burst_packets = refl;
      at_burst_interval_ms = refl;
      at_ramp_start_pps = refl;
      at_ramp_end_pps = refl;
    };
  }

  -- For every configuration whose numbers fit their fields and that passes the tests there is a
  -- file that loads as it, the 27 keys with its values, one in each line. The name and the two
  -- rates must be texts that a line can give back, and the rates must be read as they were written.
  pub from_file-print_values :
      (path : String) (c : ScenarioConfig double)
      → IsScenario double text c
      → IsWritable c
      → from_file double text path (some (print_values (values_of c))) ≡ good c
  unfolding from_file
  from_file-print_values path c v w =
      rw (read-print_values (values_of c) (values_of-IsPair c w) (values_of-AreNew c))
        (from_values_complete double text (values_of c) c v (values_of-HoldsScenario c w))
