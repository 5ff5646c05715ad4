-- ===== src/Transport/Network.antt =====
-- include/miniran/transport/virtual_network.h and src/transport/virtual_network.cpp.
use mini_ran.Common.{
  ◌++◌, true, sub64, ◌/◌, not, u32, min, [], false, ◌&&◌, max, add64, ltb, leb, length, ◌==◌, ◌∷◌,
  Bool, if◌then◌else◌, List, ℕ,
}
pub mod Polling
pub mod Conservation
pub mod Fifo
pub mod Carried
mod Examples
use mini_ran.Common.Int.{◌+ℤ◌, u64_of_int, neg_part, neg, is_negative, int_of_u32, ℤ, pos}
use mini_ran.Double.{Double}
use mini_ran.Transport.Link.{link_is_valid, is_udp, LinkProfile}
use mini_ran.Transport.Datagram.{Datagram}
use mini_ran.Metrics.{count_dropped, count_delivered, no_metrics, count_sent, FlowMetrics}

-- `std::mt19937` and the two distributions over it: a parameter. A draw returns its value and the
-- generator after it.
pub record Random (double : Double) : Type 1 where
  pub Generator : Type 0
  pub seeded : ℕ → Generator
  -- `probability_(rng_)`, uniform between 0 and 100.
  pub percent : Generator → double.Real × Generator
  -- `std::uniform_int_distribution<int>(low, high)`.
  pub between : ℤ → ℤ → Generator → ℤ × Generator

module _ (double : Double) (random : Random double) where
  open double use {Real, of_nat, times, over, ceil, to_u64, less}
  open random use {Generator, seeded, percent, between}

  pub record VirtualNetwork : Type 0 where
    pub profile : LinkProfile double
    pub metrics : FlowMetrics
    pub queue : List Datagram
    pub rng : Generator
    pub next_available_tx_ms : ℕ
    pub serial_counter : ℕ

  unfoldable pub make_network : LinkProfile double → ℕ → VirtualNetwork
  make_network profile seed = record {
    profile = profile;
    metrics = no_metrics;
    queue = [];
    rng = seeded seed;
    next_available_tx_ms = 0;
    serial_counter = 1;
  }

  -- `profile_.mode == TransportMode::Udp && probability_(rng_) < limit`: TCP draws nothing.
  unfoldable pub chance : VirtualNetwork → Real → Bool × Generator
  chance net limit =
      let (p, rng) = percent net.rng in
      if is_udp net.profile.mode then (less p limit, rng) else (false, net.rng)

  unfoldable pub jitter : VirtualNetwork → ℤ × Generator
  jitter net =
      let range = int_of_u32 net.profile.jitter_ms in
      let draw = between (neg range) range net.rng in
      if net.profile.jitter_ms == 0 then (pos 0, net.rng) else draw

  unfoldable pub serialization_delay : VirtualNetwork → ℕ → ℕ
  serialization_delay net size =
      to_u64 (ceil (over (times (of_nat size) (of_nat 8)) (of_nat net.profile.bandwidth_kbps)))

  -- The latency moved by the jitter. The sum of the two `int`s is taken as it is: where it does not
  -- fit an `int` the program has no meaning.
  unfoldable pub base_delay : ℕ → ℤ → ℕ
  base_delay latency j =
      if is_negative j && ltb latency (u32 (neg_part j))
      then 0
      else u64_of_int (int_of_u32 (u32 latency) +ℤ j)

  -- The datagram's time of delivery, and the network with the link booked for it.
  unfoldable pub schedule : VirtualNetwork → Datagram → ℕ → VirtualNetwork × ℕ
  schedule net d now =
      let (j, rng) = jitter net in
      let delay = serialization_delay net (length d.bytes) in
      let scheduled = max now net.next_available_tx_ms in
      let booked = record net { rng = rng; next_available_tx_ms = add64 scheduled delay } in
      let arrival = add64 (add64 scheduled delay) (base_delay net.profile.latency_ms j) in
      let (early, rng') = chance booked net.profile.reorder_percent in
      let advance = min (net.profile.latency_ms / 2) (sub64 arrival now) in
      (record booked { rng = rng' }, if early then sub64 arrival advance else arrival)

  unfoldable pub submit : VirtualNetwork → Datagram → ℕ → VirtualNetwork × Bool
  submit net datagram now =
      let numbered = record datagram {
        enqueue_time_ms = now;
        serial_number = net.serial_counter;
      } in
      let sent = record net {
        metrics = count_sent net.metrics (length datagram.bytes);
        serial_counter = add64 net.serial_counter 1;
      } in
      let (lost, rng) = chance sent net.profile.loss_percent in
      let drawn = record sent { rng = rng } in
      let dropped = record drawn { metrics = count_dropped drawn.metrics } in
      let (booked, arrival) = schedule drawn numbered now in
      if not (link_is_valid double net.profile)
      then (net, false)
      else if lost
      then (dropped, true)
      else if leb net.profile.queue_limit_packets (length net.queue)
      then (dropped, false)
      else (
        record booked { queue = net.queue ++ record numbered { deliver_at_ms = arrival } ∷ [] },
        true,
      )

-- The order of `pollReady`: by time of delivery, and by serial number within one time.
abbrev pub goes_before : Datagram → Datagram → Bool
goes_before left right =
    if left.deliver_at_ms == right.deliver_at_ms
    then ltb left.serial_number right.serial_number
    else ltb left.deliver_at_ms right.deliver_at_ms

-- `std::sort` by that order, as an insertion sort.
unfoldable pub insert_sorted : Datagram → List Datagram → List Datagram
insert_sorted d [] = d ∷ []
insert_sorted d (x ∷ xs) = if goes_before x d then x ∷ insert_sorted d xs else d ∷ x ∷ xs

unfoldable pub sort : List Datagram → List Datagram
sort [] = []
sort (d ∷ ds) = insert_sorted d (sort ds)

-- The loop over the queue: the datagrams that are due, and the others, both in the queue's order.
unfoldable pub split_due : ℕ → List Datagram → List Datagram × List Datagram
split_due now [] = ([], [])
split_due now (d ∷ ds) =
    let (ready, left) = split_due now ds in
    if leb d.deliver_at_ms now then (d ∷ ready, left) else (ready, d ∷ left)

-- The loop over the sorted datagrams.
unfoldable pub count_all : FlowMetrics → List Datagram → FlowMetrics
count_all metrics [] = metrics
count_all metrics (d ∷ ds) = count_all (count_delivered metrics (length d.bytes)) ds

module _ (double : Double) (random : Random double) where
  unfoldable pub poll_ready :
      VirtualNetwork double random → ℕ → VirtualNetwork double random × List Datagram
  poll_ready net now =
      let (due, left) = split_due now net.queue in
      let ready = sort due in
      (record net { queue = left; metrics = count_all net.metrics ready }, ready)
