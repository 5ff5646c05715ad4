-- ===== src/Transport/Network/Conservation.antt =====
-- The network's accounts: datagrams sent, dropped, delivered and still queued.
use mini_ran.Common.{
  add64, length-append, ◌++◌, leb, not, if_cases, Bool, ap, ◌∙◌, [], suc, ◌∷◌, refl, ◌≡◌, ◌+◌, ◌^◌,
  arith, length, ◌%◌, List, ℕ,
}
use mini_ran.Transport.Network.{
  LinkProfile, count_sent, make_network, chance, link_is_valid, count_delivered, VirtualNetwork,
  schedule, submit, poll_ready, Datagram, FlowMetrics, Random, insert_sorted, sort, split_due,
  count_all,
}
use mini_ran.Double.{Double}

length-insert_sorted :
    (d : Datagram) (xs : List Datagram) → length (insert_sorted d xs) ≡ suc (length xs)
unfolding insert_sorted
length-insert_sorted d [] = refl
length-insert_sorted d (x ∷ xs) = ground (arith, length-insert_sorted d xs)

length-sort : (xs : List Datagram) → length (sort xs) ≡ length xs
unfolding sort
length-sort [] = refl
length-sort (d ∷ ds) = length-insert_sorted d (sort ds) ∙ ap suc (length-sort ds)

length-split_due :
    (now : ℕ) (ds : List Datagram)
    → length (split_due now ds).0 + length (split_due now ds).1 ≡ length ds
unfolding split_due
length-split_due now [] = omega arith
length-split_due now (d ∷ ds) = ground (arith, length-split_due now ds)

count_all_packets :
    (m : FlowMetrics) (ds : List Datagram)
    → ((count_all m ds).packets_delivered % 2 ^ 64 ≡ (m.packets_delivered + length ds) % 2 ^ 64)
      × ((count_all m ds).packets_sent ≡ m.packets_sent)
      × ((count_all m ds).packets_dropped ≡ m.packets_dropped)
unfolding count_all
count_all_packets m [] = ground arith
count_all_packets m (d ∷ ds) =
    ground (arith, count_all_packets (count_delivered m (length d.bytes)) ds)

-- What the program does with the network.
pub data Use : Type 0 where
  submits : Datagram → Use
  polls : Use

module _ (double : Double) (random : Random double) where
  -- Modulo the width of the counters.
  abbrev pub IsConserving : VirtualNetwork double random → Type 0
  IsConserving net =
      net.metrics.packets_sent % 2 ^ 64
      ≡ (net.metrics.packets_dropped + net.metrics.packets_delivered + length net.queue) % 2 ^ 64

  schedule_keeps :
      (net : VirtualNetwork double random) (d : Datagram) (now : ℕ)
      → ((schedule double random net d now).0.metrics ≡ net.metrics)
        × ((schedule double random net d now).0.queue ≡ net.queue)
  unfolding schedule
  schedule_keeps net d now = (refl, refl)

  queued-IsConserving :
      (net booked : VirtualNetwork double random) (d : Datagram) (size : ℕ)
      → booked.metrics ≡ count_sent net.metrics size
      → IsConserving net
      → IsConserving (record booked { queue = net.queue ++ d ∷ [] })
  queued-IsConserving net booked d size e c = rw e (omega (arith, length-append net.queue (d ∷ [])))

  -- A submitted datagram is counted once as sent, and as dropped or by its place in the queue; one
  -- that an invalid link refuses is not counted at all.
  pub submit-IsConserving :
      (net : VirtualNetwork double random) (d : Datagram) (now : ℕ)
      → IsConserving net
      → IsConserving (submit double random net d now).0
  unfolding submit
  submit-IsConserving net d now c =
      let kept = λ (p : VirtualNetwork double random × Bool). IsConserving p.0 in
      let numbered = record d { enqueue_time_ms = now; serial_number = net.serial_counter } in
      let sent = record net {
        metrics = count_sent net.metrics (length d.bytes);
        serial_counter = add64 net.serial_counter 1;
      } in
      let drawn = record sent { rng = (chance double random sent net.profile.loss_percent).1 } in
      if_cases kept (not (link_is_valid double net.profile)) _ _ c (
        if_cases kept (chance double random sent net.profile.loss_percent).0 _ _ (omega arith) (
          if_cases kept (leb net.profile.queue_limit_packets (length net.queue)) _ _ (omega arith) (
            queued-IsConserving net (schedule double random drawn numbered now).0 _ (length d.bytes)
              (schedule_keeps drawn numbered now).0 c)))

  pub poll_ready-IsConserving :
      (net : VirtualNetwork double random) (now : ℕ)
      → IsConserving net
      → IsConserving (poll_ready double random net now).0
  unfolding poll_ready
  poll_ready-IsConserving net now c =
      let (due, left) = split_due now net.queue in
      omega (
        arith,
        length-sort due,
        length-split_due now net.queue,
        (count_all_packets net.metrics (sort due)).0,
        (count_all_packets net.metrics (sort due)).1,
        (count_all_packets net.metrics (sort due)).2,
      )

  abbrev pub use_network : VirtualNetwork double random → ℕ × Use → VirtualNetwork double random
  use_network net (now, submits d) = (submit double random net d now).0
  use_network net (now, polls) = (poll_ready double random net now).0

  abbrev pub run : VirtualNetwork double random → List (ℕ × Use) → VirtualNetwork double random
  run net [] = net
  run net (u ∷ us) = run (use_network net u) us

  run-IsConserving_from :
      (net : VirtualNetwork double random) (us : List (ℕ × Use))
      → IsConserving net
      → IsConserving (run net us)
  run-IsConserving_from net [] c = c
  run-IsConserving_from net ((now, submits d) ∷ us) c =
      run-IsConserving_from (submit double random net d now).0 us (submit-IsConserving net d now c)
  run-IsConserving_from net ((now, polls) ∷ us) c =
      run-IsConserving_from (poll_ready double random net now).0 us
        (poll_ready-IsConserving net now c)

  -- From a new network on, after any submissions and polls, under every link and every generator:
  -- the count of sent packets is that of the dropped, the delivered and the still queued, modulo 2
  -- ^ 64.
  pub run-IsConserving :
      (profile : LinkProfile double) (seed : ℕ) (us : List (ℕ × Use))
      → IsConserving (run (make_network double random profile seed) us)
  unfolding make_network
  run-IsConserving profile seed us = run-IsConserving_from _ us refl
