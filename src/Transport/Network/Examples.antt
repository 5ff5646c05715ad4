-- ===== src/Transport/Network/Examples.antt =====
-- A network of concrete datagrams, over whole numbers and a generator that counts.
use mathlib.Core.List.{Perm}
use mini_ran.Transport.Network.{
  split_due, submit, schedule, chance, jitter, serialization_delay, base_delay,
}
use mini_ran.Transport.Link.{link_is_valid}
use mini_ran.Transport.Network.Conservation.{run-IsConserving, polls, submits, IsConserving, run}
use mini_ran.Common.{refl, arith, ◌≡◌, ℕ, ◌≤◌, ◌<◌, ◌+◌, ◌++◌, ◌%◌, [], ◌∷◌, All}
use mini_ran.Transport.Network.{VirtualNetwork, Random, make_network, poll_ready}
use mini_ran.Transport.Link.{udp, default_link, LinkProfile}
use mini_ran.Transport.Datagram.{default_datagram, Datagram}
use mini_ran.Double.{whole}
use mini_ran.Transport.Network.Polling.{poll_delivers, IsInOrder}
use mini_ran.Transport.Network.Fifo.{tcp_keeps_order, IsPlainTcp}

abbrev counting : Random whole
counting = record {
  Generator = ℕ;
  seeded = λ seed. seed;
  percent = λ g. (g % 101, g + 1);
  between = λ low high g. (low, g + 1);
}

abbrev lossy : LinkProfile whole
lossy = record (default_link whole) { mode = udp; loss_percent = 50 }

abbrev arriving : ℕ → ℕ → Datagram
arriving time number = record default_datagram {
  deliver_at_ms = time;
  serial_number = number;
  bytes = 1 ∷ [];
}

abbrev loaded : VirtualNetwork whole counting
unfolding make_network
loaded = record (make_network whole counting lossy 3) {
  queue = arriving 40 1 ∷ arriving 20 2 ∷ arriving 90 3 ∷ [];
}

poll_delivers_example :
    let (after, ready) = poll_ready whole counting loaded 50 in
    All (λ d. d.deliver_at_ms ≤ 50) ready
    × All (λ d. 50 < d.deliver_at_ms) after.queue
    × IsInOrder ready
    × Perm (ready ++ after.queue) loaded.queue
poll_delivers_example = poll_delivers whole counting loaded 50

run-IsConserving_example : IsConserving whole counting (
    run whole counting
      (make_network whole counting lossy 3)
      ((0, submits (arriving 0 0)) ∷ (1, submits (arriving 0 0)) ∷ (60, polls) ∷ []))
run-IsConserving_example =
    run-IsConserving whole counting lossy 3
      ((0, submits (arriving 0 0)) ∷ (1, submits (arriving 0 0)) ∷ (60, polls) ∷ [])

default_link-IsPlainTcp : IsPlainTcp whole counting (default_link whole)
default_link-IsPlainTcp = record { mode_is = refl; no_jitter = refl; latency_fits = omega arith }

tcp_keeps_order_example :
    let net =
      run whole counting
        (make_network whole counting (default_link whole) 3)
        ((0, submits (arriving 0 0)) ∷ (1, submits (arriving 0 0)) ∷ (2, polls) ∷ []) in
    (poll_ready whole counting net 60).1 ≡ (split_due 60 net.queue).0
unfolding make_network submit schedule chance jitter serialization_delay base_delay link_is_valid
tcp_keeps_order_example =
    tcp_keeps_order whole counting (default_link whole) 3
      ((0, submits (arriving 0 0)) ∷ (1, submits (arriving 0 0)) ∷ (2, polls) ∷ []) 60
      default_link-IsPlainTcp (ground arith)
