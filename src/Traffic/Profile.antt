-- ===== src/Traffic/Profile.antt =====
-- include/miniran/traffic/traffic_profile.h.
use Prim.Native.String.{String}
use text.Mathlib.Text.{◌==◌ as str_eq}
use mini_ran.Common.{
  refl, ◌≡◌, none, some, ◌||◌, ◌&&◌, ◌==◌, if◌then◌else◌, false, ltb, Option, Bool, List, ℕ,
}

pub data TrafficPattern : Type 0 where
  constant_bitrate bursty ramp : TrafficPattern

unfoldable pub pattern_to_string : TrafficPattern → String
pattern_to_string constant_bitrate = "cbr"
pattern_to_string bursty = "bursty"
pattern_to_string ramp = "ramp"

unfoldable pub parse_traffic_pattern : String → Option TrafficPattern
parse_traffic_pattern value =
    if str_eq value "cbr"
    then some constant_bitrate
    else if str_eq value "bursty"
    then some bursty
    else if str_eq value "ramp"
    then some ramp
    else none

-- `duration_ms` and `packet_size_bytes` have 64 bits, the others 32.
pub record TrafficProfile : Type 0 where
  pub pattern : TrafficPattern
  pub duration_ms : ℕ
  pub packet_size_bytes : ℕ
  pub packets_per_second : ℕ
  pub burst_packets : ℕ
  pub burst_interval_ms : ℕ
  pub ramp_start_pps : ℕ
  pub ramp_end_pps : ℕ

abbrev pub default_profile : TrafficProfile
default_profile = record {
  pattern = constant_bitrate;
  duration_ms = 1000;
  packet_size_bytes = 128;
  packets_per_second = 10;
  burst_packets = 4;
  burst_interval_ms = 200;
  ramp_start_pps = 5;
  ramp_end_pps = 20;
}

unfoldable pub profile_is_valid : TrafficProfile → Bool
profile_is_valid p =
    if p.duration_ms == 0 || p.packet_size_bytes == 0 then false else elim p.pattern [
      | constant_bitrate ↦ ltb 0 p.packets_per_second
      | bursty ↦ ltb 0 p.burst_packets && ltb 0 p.burst_interval_ms
      | ramp ↦ ltb 0 p.ramp_start_pps && ltb 0 p.ramp_end_pps
    ]

pub record TrafficEvent : Type 0 where
  pub timestamp_ms : ℕ
  pub payload : List ℕ

-- The name of each pattern parses to the pattern.
pub parse-pattern_to_string :
    (p : TrafficPattern) → parse_traffic_pattern (pattern_to_string p) ≡ some p
unfolding parse_traffic_pattern pattern_to_string
parse-pattern_to_string constant_bitrate = refl
parse-pattern_to_string bursty = refl
parse-pattern_to_string ramp = refl
