-- ===== src/Transport/Datagram.antt =====
-- include/miniran/transport/datagram.h.
use mini_ran.Common.{List, [], Bool, false, ℕ}

pub record Datagram : Type 0 where
  pub from_node_id : ℕ
  pub to_node_id : ℕ
  pub enqueue_time_ms : ℕ
  pub deliver_at_ms : ℕ
  pub control_plane : Bool
  pub serial_number : ℕ
  pub bytes : List ℕ

-- `Datagram{}`.
abbrev pub default_datagram : Datagram
default_datagram = record {
  from_node_id = 0;
  to_node_id = 0;
  enqueue_time_ms = 0;
  deliver_at_ms = 0;
  control_plane = false;
  serial_number = 0;
  bytes = [];
}
