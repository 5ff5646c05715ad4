-- ===== src/Transport/Link.antt =====
-- include/miniran/transport/transport_mode.h and include/miniran/transport/link_profile.h.
use Prim.Native.String.{String}
use text.Mathlib.Text.{◌==◌ as str_eq}
use mini_ran.Common.{
  refl, ◌≡◌, none, some, ◌||◌, true, ◌&&◌, if◌then◌else◌, false, ltb, Option, Bool, ℕ,
}
use mini_ran.Double.{Double}

pub data TransportMode : Type 0 where
  tcp udp : TransportMode

unfoldable pub mode_to_string : TransportMode → String
mode_to_string tcp = "tcp"
mode_to_string udp = "udp"

unfoldable pub parse_transport_mode : String → Option TransportMode
parse_transport_mode value =
    if str_eq value "tcp" || str_eq value "TCP"
    then some tcp
    else if str_eq value "udp" || str_eq value "UDP"
    then some udp
    else none

-- The name of each transport mode parses to the mode.
pub parse-mode_to_string :
    (mode : TransportMode) → parse_transport_mode (mode_to_string mode) ≡ some mode
unfolding parse_transport_mode mode_to_string
parse-mode_to_string tcp = refl
parse-mode_to_string udp = refl

abbrev pub is_udp : TransportMode → Bool
is_udp tcp = false
is_udp udp = true

module _ (double : Double) where
  open double use {Real, of_nat, at_most}

  pub record LinkProfile : Type 0 where
    pub mode : TransportMode
    pub latency_ms : ℕ
    pub jitter_ms : ℕ
    pub loss_percent : Real
    pub reorder_percent : Real
    pub bandwidth_kbps : ℕ
    pub queue_limit_packets : ℕ

  abbrev pub default_link : LinkProfile
  default_link = record {
    mode = tcp;
    latency_ms = 20;
    jitter_ms = 0;
    loss_percent = of_nat 0;
    reorder_percent = of_nat 0;
    bandwidth_kbps = 10_000;
    queue_limit_packets = 256;
  }

  unfoldable pub link_is_valid : LinkProfile → Bool
  link_is_valid p =
      ltb 0 p.bandwidth_kbps
      && at_most (of_nat 0) p.loss_percent
      && at_most p.loss_percent (of_nat 100)
      && at_most (of_nat 0) p.reorder_percent
      && at_most p.reorder_percent (of_nat 100)
      && ltb 0 p.queue_limit_packets
