-- ===== src/Simulation/Config.antt =====
-- src/simulation/scenario_config.cpp: a scenario from the text of a file. The texts that `fromFile`
-- stores in its out-parameter are those of `ConfigError`.
pub mod Lines
pub mod Assignments
pub mod Printed
pub mod Fields
pub mod Loaded
pub mod Complete
pub mod Words
pub mod Files
pub mod Examples
pub mod Defaults
use Prim.Native.String.{String}
use text.Mathlib.Text.{◌==◌ as str_eq}
use mini_ran.Common.{ℕ, not, Option, none, some, List, [], ◌∷◌, u32, ◌==◌, if◌then◌else◌}
use mini_ran.Text.{trim, before, split_at, split_lines, stoull, is_empty}
use mini_ran.Double.{Double, DoubleText}
use mini_ran.Protocol.Session.{SessionTimers}
use mini_ran.Traffic.Profile.{parse_traffic_pattern, profile_is_valid, TrafficProfile}
use mini_ran.Transport.Link.{parse_transport_mode, link_is_valid, LinkProfile}
use mini_ran.Simulation.Scenario.{default_config, ScenarioConfig}

pub data ConfigError : Type 0 where
  cannot_open invalid_line invalid_transport_mode invalid_traffic_pattern : String → ConfigError
  invalid_unsigned invalid_u32 invalid_size invalid_double : String → ConfigError
  invalid_link invalid_traffic zero_step : ConfigError

pub data Result {ℓ} (A : Type ℓ) : Type ℓ where
  good : A → Result A
  bad : ConfigError → Result A

infixl 5 ◌>>=◌
abbrev pub ◌>>=◌ {ℓ κ} : {A : Type ℓ} {B : Type κ} → Result A → (A → Result B) → Result B
good a >>= f = f a
bad e >>= f = bad e

-- `std::unordered_map<std::string, std::string>`, one entry for each key.
abbrev pub Values : Type 0
Values = List (String × String)

unfoldable pub read_value : Values → String → Option String
read_value [] key = none
read_value ((k, v) ∷ values) key =
    let later = read_value values key in if str_eq k key then some v else later

unfoldable pub assign : String → String → Values → Values
assign key value [] = (key, value) ∷ []
assign key value ((k, v) ∷ values) =
    let later = (k, v) ∷ assign key value values in
    if str_eq k key then (key, value) ∷ values else later

-- What a line is: nothing, an assignment, or an error with the line as it was trimmed.
pub data Entry : Type 0 where
  blank : Entry
  pair : String → String → Entry
  malformed : String → Entry

abbrev pub entry_around : String → Option (String × String) → Entry
entry_around line none = malformed line
entry_around line (some (key, value)) = pair (trim key) (trim value)

unfoldable pub entry_of : String → Entry
entry_of text =
    let line = trim (before b'#' text) in
    if is_empty line then blank else entry_around line (split_at b'=' line)

-- The loop over the lines.
unfoldable pub read_lines : List String → Values → Result Values
read_lines [] values = good values
read_lines (line ∷ lines) values = elim (entry_of line) [
  | blank ↦ read_lines lines values
  | pair key value ↦ read_lines lines (assign key value values)
  | malformed text ↦ bad (invalid_line text)
]

abbrev pub value_or : Option String → String → String
value_or none target = target
value_or (some text) target = text

-- A key's value read, or the target as it was.
abbrev pub parsed {ℓ} : {A : Type ℓ} → ConfigError → Option A → Result A
parsed e none = bad e
parsed e (some a) = good a

abbrev pub or_read {ℓ} :
    {A : Type ℓ} → Option String → (String → Option A) → (String → ConfigError) → A → Result A
or_read none read error target = good target
or_read (some text) read error target = parsed (error text) (read text)

abbrev pub map_u32 : Option ℕ → Option ℕ
map_u32 none = none
map_u32 (some n) = some (u32 n)

unfoldable pub parse_unsigned : Values → String → ℕ → Result ℕ
parse_unsigned values key target =
    or_read (read_value values key) stoull (λ text. invalid_unsigned key) target

-- The cast comes after the conversion to 64 bits, with no test.
unfoldable pub parse_u32 : Values → String → ℕ → Result ℕ
parse_u32 values key target =
    or_read (read_value values key) (λ text. map_u32 (stoull text)) (λ text. invalid_u32 key) target

unfoldable pub parse_size : Values → String → ℕ → Result ℕ
parse_size values key target =
    or_read (read_value values key) stoull (λ text. invalid_size key) target

unfoldable pub read_timers : Values → SessionTimers → Result SessionTimers
read_timers values t = do
  attach_timeout ← parse_u32 values "attach_timeout_ms" t.attach_timeout_ms
  detach_timeout ← parse_u32 values "detach_timeout_ms" t.detach_timeout_ms
  heartbeat_interval ← parse_u32 values "heartbeat_interval_ms" t.heartbeat_interval_ms
  inactivity_timeout ← parse_u32 values "inactivity_timeout_ms" t.inactivity_timeout_ms
  max_attach ← parse_u32 values "max_attach_retries" t.max_attach_retries
  max_detach ← parse_u32 values "max_detach_retries" t.max_detach_retries
  good (record {
    attach_timeout_ms = attach_timeout;
    detach_timeout_ms = detach_timeout;
    heartbeat_interval_ms = heartbeat_interval;
    inactivity_timeout_ms = inactivity_timeout;
    max_attach_retries = max_attach;
    max_detach_retries = max_detach;
  })

unfoldable pub read_traffic : Values → TrafficProfile → Result TrafficProfile
read_traffic values p = do
  duration ← parse_unsigned values "traffic_duration_ms" p.duration_ms
  size ← parse_size values "packet_size_bytes" p.packet_size_bytes
  rate ← parse_u32 values "packets_per_second" p.packets_per_second
  packets ← parse_u32 values "burst_packets" p.burst_packets
  interval ← parse_u32 values "burst_interval_ms" p.burst_interval_ms
  start ← parse_u32 values "ramp_start_pps" p.ramp_start_pps
  last ← parse_u32 values "ramp_end_pps" p.ramp_end_pps
  good (record p {
    duration_ms = duration;
    packet_size_bytes = size;
    packets_per_second = rate;
    burst_packets = packets;
    burst_interval_ms = interval;
    ramp_start_pps = start;
    ramp_end_pps = last;
  })

module _ (double : Double) (text : DoubleText double) where
  unfoldable pub parse_double : Values → String → double.Real → Result double.Real
  parse_double values key target =
      or_read (read_value values key) text.read_double (λ text. invalid_double key) target

  unfoldable pub read_link : Values → LinkProfile double → Result (LinkProfile double)
  read_link values p = do
    latency ← parse_u32 values "latency_ms" p.latency_ms
    jitter ← parse_u32 values "jitter_ms" p.jitter_ms
    loss ← parse_double values "loss_percent" p.loss_percent
    reorder ← parse_double values "reorder_percent" p.reorder_percent
    bandwidth ← parse_unsigned values "bandwidth_kbps" p.bandwidth_kbps
    limit ← parse_size values "queue_limit_packets" p.queue_limit_packets
    good (record p {
      latency_ms = latency;
      jitter_ms = jitter;
      loss_percent = loss;
      reorder_percent = reorder;
      bandwidth_kbps = bandwidth;
      queue_limit_packets = limit;
    })

  -- The tests at the end.
  unfoldable pub checked : ScenarioConfig double → Result (ScenarioConfig double)
  checked c =
      if not (link_is_valid double c.link_profile)
      then bad invalid_link
      else if not (profile_is_valid c.traffic_profile)
      then bad invalid_traffic
      else if c.step_ms == 0
      then bad zero_step
      else good c

  -- `fromFile` once the lines are read.
  unfoldable pub from_values : Values → Result (ScenarioConfig double)
  from_values values = do
    let c = default_config double
    mode ←
        or_read (read_value values "transport_mode") parse_transport_mode invalid_transport_mode
          c.transport_mode
    pattern ←
        or_read (read_value values "traffic_pattern") parse_traffic_pattern invalid_traffic_pattern
          c.traffic_profile.pattern
    ue_id ← parse_u32 values "ue_id" c.ue_id
    access_node_id ← parse_u32 values "access_node_id" c.access_node_id
    step ← parse_unsigned values "step_ms" c.step_ms
    attach_budget ← parse_unsigned values "attach_phase_budget_ms" c.attach_phase_budget_ms
    detach_budget ← parse_unsigned values "detach_phase_budget_ms" c.detach_phase_budget_ms
    timers ← read_timers values c.timers
    link ← read_link values (record c.link_profile { mode = mode })
    traffic ← read_traffic values (record c.traffic_profile { pattern = pattern })
    checked (record c {
      scenario_name = value_or (read_value values "scenario_name") c.scenario_name;
      transport_mode = mode;
      ue_id = ue_id;
      access_node_id = access_node_id;
      step_ms = step;
      attach_phase_budget_ms = attach_budget;
      detach_phase_budget_ms = detach_budget;
      timers = timers;
      link_profile = link;
      traffic_profile = traffic;
    })

  -- The content of the file at `path`, or `none` where it cannot be opened.
  unfoldable pub from_file : String → Option String → Result (ScenarioConfig double)
  from_file path none = bad (cannot_open path)
  from_file path (some content) = do
    values ← read_lines (split_lines content) []
    from_values values
