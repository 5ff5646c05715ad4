-- ===== src/Simulation/Config/Complete.antt =====
-- The table of values that spells out a scenario, field by field.
use Prim.Native.String.{String, ◌++◌}
use text.Mathlib.TextLemmas.{nil-append, append-nil}
use mini_ran.Common.{u32, ℕ, ◌≡◌, ◌∙◌, ap, sym, refl, some, arith, IsU32, IsU64}
use mini_ran.Text.{decimal, stoull}
use mini_ran.Text.Numbers.{stoull_lem}
use mini_ran.Double.{Double, DoubleText}
use mini_ran.Protocol.Session.{SessionTimers}
use mini_ran.Traffic.Profile.{TrafficProfile, pattern_to_string, parse-pattern_to_string}
use mini_ran.Transport.Link.{TransportMode, LinkProfile, mode_to_string, parse-mode_to_string}
use mini_ran.Simulation.Scenario.{ScenarioConfig}
use mini_ran.Simulation.Config.{
  default_config, Values, read_value, parse_u32, parse_unsigned, parse_size, parse_double,
  read_timers, read_link, read_traffic, checked, from_values, good,
}
use mini_ran.Simulation.Config.Fields.{TimersFit, TrafficFits, LinkFits}
use mini_ran.Simulation.Config.Loaded.{IsScenario}

pub stoull-decimal_whole : (n : ℕ) → IsU64 n → stoull (decimal n) ≡ some n
stoull-decimal_whole n h =
    ap stoull (sym (nil-append (decimal n ++ "") ∙ append-nil (decimal n)))
    ∙ (stoull_lem "" "" n tt h refl).0

-- The table holds a number under a key.
abbrev pub Holds : Values → String → ℕ → Type 0
Holds values key n = read_value values key ≡ some (decimal n)

parse_u32-decimal :
    (values : Values) (key : String) (target n : ℕ)
    → IsU32 n
    → Holds values key n
    → parse_u32 values key target ≡ good n
unfolding parse_u32
parse_u32-decimal values key target n fits h =
    let small : u32 n ≡ n = omega arith in
    rw (h, stoull-decimal_whole n (omega arith)) (ap good small)

parse_unsigned-decimal :
    (values : Values) (key : String) (target n : ℕ)
    → IsU64 n
    → Holds values key n
    → parse_unsigned values key target ≡ good n
unfolding parse_unsigned
parse_unsigned-decimal values key target n fits h = rw (h, stoull-decimal_whole n fits) refl

parse_size-decimal :
    (values : Values) (key : String) (target n : ℕ)
    → IsU64 n
    → Holds values key n
    → parse_size values key target ≡ good n
unfolding parse_size
parse_size-decimal values key target n fits h = rw (h, stoull-decimal_whole n fits) refl

-- The values of each part of a scenario, under their keys.
pub record HoldsTimers (values : Values) (t : SessionTimers) : Type 0 where
  pub at_attach_timeout_ms : Holds values "attach_timeout_ms" t.attach_timeout_ms
  pub at_detach_timeout_ms : Holds values "detach_timeout_ms" t.detach_timeout_ms
  pub at_heartbeat_interval_ms : Holds values "heartbeat_interval_ms" t.heartbeat_interval_ms
  pub at_inactivity_timeout_ms : Holds values "inactivity_timeout_ms" t.inactivity_timeout_ms
  pub at_max_attach_retries : Holds values "max_attach_retries" t.max_attach_retries
  pub at_max_detach_retries : Holds values "max_detach_retries" t.max_detach_retries

pub record HoldsTraffic (values : Values) (p : TrafficProfile) : Type 0 where
  pub at_traffic_pattern : read_value values "traffic_pattern" ≡ some (pattern_to_string p.pattern)
  pub at_traffic_duration_ms : Holds values "traffic_duration_ms" p.duration_ms
  pub at_packet_size_bytes : Holds values "packet_size_bytes" p.packet_size_bytes
  pub at_packets_per_second : Holds values "packets_per_second" p.packets_per_second
  pub at_burst_packets : Holds values "burst_packets" p.burst_packets
  pub at_burst_interval_ms : Holds values "burst_interval_ms" p.burst_interval_ms
  pub at_ramp_start_pps : Holds values "ramp_start_pps" p.ramp_start_pps
  pub at_ramp_end_pps : Holds values "ramp_end_pps" p.ramp_end_pps

read_timers-held :
    (values : Values) (t r : SessionTimers)
    → TimersFit r
    → HoldsTimers values r
    → read_timers values t ≡ good r
unfolding read_timers
read_timers-held values t r v h =
    simp
      (
        parse_u32-decimal values "attach_timeout_ms" t.attach_timeout_ms r.attach_timeout_ms
            v.attach_timeout_fits h.at_attach_timeout_ms,
        parse_u32-decimal values "detach_timeout_ms" t.detach_timeout_ms r.detach_timeout_ms
            v.detach_timeout_fits h.at_detach_timeout_ms,
        parse_u32-decimal values "heartbeat_interval_ms" t.heartbeat_interval_ms
            r.heartbeat_interval_ms v.heartbeat_interval_fits h.at_heartbeat_interval_ms,
        parse_u32-decimal values "inactivity_timeout_ms" t.inactivity_timeout_ms
            r.inactivity_timeout_ms v.inactivity_timeout_fits h.at_inactivity_timeout_ms,
        parse_u32-decimal values "max_attach_retries" t.max_attach_retries r.max_attach_retries
            v.max_attach_fits h.at_max_attach_retries,
        parse_u32-decimal values "max_detach_retries" t.max_detach_retries r.max_detach_retries
            v.max_detach_fits h.at_max_detach_retries,
      )
      refl

read_traffic-held :
    (values : Values) (p r : TrafficProfile)
    → p.pattern ≡ r.pattern
    → TrafficFits r
    → HoldsTraffic values r
    → read_traffic values p ≡ good r
unfolding read_traffic
read_traffic-held values p r same v h =
    simp
      (
        same,
        parse_unsigned-decimal values "traffic_duration_ms" p.duration_ms r.duration_ms
            v.duration_fits h.at_traffic_duration_ms,
        parse_size-decimal values "packet_size_bytes" p.packet_size_bytes r.packet_size_bytes
            v.size_fits h.at_packet_size_bytes,
        parse_u32-decimal values "packets_per_second" p.packets_per_second r.packets_per_second
            v.rate_fits h.at_packets_per_second,
        parse_u32-decimal values "burst_packets" p.burst_packets r.burst_packets v.burst_fits
            h.at_burst_packets,
        parse_u32-decimal values "burst_interval_ms" p.burst_interval_ms r.burst_interval_ms
            v.interval_fits h.at_burst_interval_ms,
        parse_u32-decimal values "ramp_start_pps" p.ramp_start_pps r.ramp_start_pps
            v.ramp_start_fits h.at_ramp_start_pps,
        parse_u32-decimal values "ramp_end_pps" p.ramp_end_pps r.ramp_end_pps v.ramp_end_fits
            h.at_ramp_end_pps,
      )
      refl

module _ (double : Double) (text : DoubleText double) where
  pub record HoldsLink (values : Values) (p : LinkProfile double) : Type 0 where
    pub at_latency_ms : Holds values "latency_ms" p.latency_ms
    pub at_jitter_ms : Holds values "jitter_ms" p.jitter_ms
    pub at_loss_percent : read_value values "loss_percent" ≡ some (text.show_double p.loss_percent)
    pub reads_loss_percent :
        text.read_double (text.show_double p.loss_percent) ≡ some p.loss_percent
    pub at_reorder_percent :
        read_value values "reorder_percent" ≡ some (text.show_double p.reorder_percent)
    pub reads_reorder_percent :
        text.read_double (text.show_double p.reorder_percent) ≡ some p.reorder_percent
    pub at_bandwidth_kbps : Holds values "bandwidth_kbps" p.bandwidth_kbps
    pub at_queue_limit_packets : Holds values "queue_limit_packets" p.queue_limit_packets

  read_link-held :
      (values : Values) (mode : TransportMode) (p r : LinkProfile double)
      → p.mode ≡ r.mode
      → LinkFits double text mode r
      → HoldsLink values r
      → read_link double text values p ≡ good r
  unfolding read_link parse_double
  read_link-held values mode p r same v h =
      simp
        (
          same,
          parse_u32-decimal values "latency_ms" p.latency_ms r.latency_ms v.latency_fits
              h.at_latency_ms,
          parse_u32-decimal values "jitter_ms" p.jitter_ms r.jitter_ms v.jitter_fits h.at_jitter_ms,
          h.at_loss_percent,
          h.reads_loss_percent,
          h.at_reorder_percent,
          h.reads_reorder_percent,
          parse_unsigned-decimal values "bandwidth_kbps" p.bandwidth_kbps r.bandwidth_kbps
              v.bandwidth_fits h.at_bandwidth_kbps,
          parse_size-decimal values "queue_limit_packets" p.queue_limit_packets
              r.queue_limit_packets v.limit_fits h.at_queue_limit_packets,
        )
        refl

  pub record HoldsScenario (values : Values) (c : ScenarioConfig double) : Type 0 where
    pub at_scenario_name : read_value values "scenario_name" ≡ some c.scenario_name
    pub at_transport_mode :
        read_value values "transport_mode" ≡ some (mode_to_string c.transport_mode)
    pub at_ue_id : Holds values "ue_id" c.ue_id
    pub at_access_node_id : Holds values "access_node_id" c.access_node_id
    pub at_step_ms : Holds values "step_ms" c.step_ms
    pub at_attach_phase_budget_ms : Holds values "attach_phase_budget_ms" c.attach_phase_budget_ms
    pub at_detach_phase_budget_ms : Holds values "detach_phase_budget_ms" c.detach_phase_budget_ms
    pub holds_timers : HoldsTimers values c.timers
    pub holds_link : HoldsLink values c.link_profile
    pub holds_traffic : HoldsTraffic values c.traffic_profile

  checked_scenario :
      (c : ScenarioConfig double) → IsScenario double text c → checked double text c ≡ good c
  unfolding checked
  checked_scenario c v = ground (arith, v.link_valid, v.traffic_valid, v.step_positive)

  -- A table that holds every field of a configuration under its key, where the configuration's
  -- numbers fit their fields and it passes the tests, loads as that configuration.
  pub from_values_complete :
      (values : Values) (c : ScenarioConfig double)
      → IsScenario double text c
      → HoldsScenario values c
      → from_values double text values ≡ good c
  unfolding from_values
  from_values_complete values c v h =
      let d = default_config double in
      let link = record d.link_profile { mode = c.transport_mode } in
      let traffic = record d.traffic_profile { pattern = c.traffic_profile.pattern } in
      simp
        (
          h.at_scenario_name,
          h.at_transport_mode,
          parse-mode_to_string c.transport_mode,
          h.holds_traffic.at_traffic_pattern,
          parse-pattern_to_string c.traffic_profile.pattern,
          parse_u32-decimal values "ue_id" d.ue_id c.ue_id v.ue_id_fits h.at_ue_id,
          parse_u32-decimal values "access_node_id" d.access_node_id c.access_node_id
              v.access_node_id_fits h.at_access_node_id,
          parse_unsigned-decimal values "step_ms" d.step_ms c.step_ms v.step_fits h.at_step_ms,
          parse_unsigned-decimal values "attach_phase_budget_ms" d.attach_phase_budget_ms
              c.attach_phase_budget_ms v.attach_budget_fits h.at_attach_phase_budget_ms,
          parse_unsigned-decimal values "detach_phase_budget_ms" d.detach_phase_budget_ms
              c.detach_phase_budget_ms v.detach_budget_fits h.at_detach_phase_budget_ms,
          read_timers-held values d.timers c.timers v.timers_fit h.holds_timers,
          read_link-held values c.transport_mode link c.link_profile (sym v.link_fits.mode_is)
              v.link_fits h.holds_link,
          read_traffic-held values traffic c.traffic_profile refl v.traffic_fits h.holds_traffic,
        )
        (checked_scenario c v)
