-- ===== src/Metrics.antt =====
-- include/miniran/common/metrics.h and src/common/metrics.cpp: the counters of a flow, of type
-- `std::size_t`, and the rates that are made of them.
use mini_ran.Common.{◌==◌, if◌then◌else◌, add64, ℕ}
use mini_ran.Double.{Double}

pub record FlowMetrics : Type 0 where
  pub bytes_sent : ℕ
  pub bytes_delivered : ℕ
  pub packets_sent : ℕ
  pub packets_delivered : ℕ
  pub packets_dropped : ℕ

abbrev pub no_metrics : FlowMetrics
no_metrics = record {
  bytes_sent = 0;
  bytes_delivered = 0;
  packets_sent = 0;
  packets_delivered = 0;
  packets_dropped = 0;
}

-- `packetsX += 1` with `bytesX += size`, where a packet of `size` bytes is sent or delivered.
abbrev pub count_sent : FlowMetrics → ℕ → FlowMetrics
count_sent m size = record m {
  packets_sent = add64 m.packets_sent 1;
  bytes_sent = add64 m.bytes_sent size;
}

abbrev pub count_delivered : FlowMetrics → ℕ → FlowMetrics
count_delivered m size = record m {
  packets_delivered = add64 m.packets_delivered 1;
  bytes_delivered = add64 m.bytes_delivered size;
}

abbrev pub count_dropped : FlowMetrics → FlowMetrics
count_dropped m = record m { packets_dropped = add64 m.packets_dropped 1 }

module _ (double : Double) where
  open double use {Real, of_nat, times, over}

  -- Bits for each second, in millions.
  unfoldable pub throughput_mbps : FlowMetrics → ℕ → Real
  throughput_mbps m duration_ms =
      let bits = times (of_nat m.bytes_delivered) (of_nat 8) in
      let seconds = over (of_nat duration_ms) (of_nat 1000) in
      if duration_ms == 0 then of_nat 0 else over (over bits seconds) (of_nat 1_000_000)

  unfoldable pub delivery_ratio : FlowMetrics → Real
  delivery_ratio m =
      if m.packets_sent == 0
      then of_nat 0
      else over (of_nat m.packets_delivered) (of_nat m.packets_sent)
