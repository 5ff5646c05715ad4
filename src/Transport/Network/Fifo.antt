-- ===== src/Transport/Network/Fifo.antt =====
-- TCP without jitter: the order of submission and that of delivery.
use mini_ran.Common.{
  not, add64, Bool, leb, ℕ, ◌≡◌, ◌+◌, ◌<◌, ◌≤◌, ◌^◌, refl, max, length, List, [], ◌∷◌, ◌++◌, All,
  All-append, if_cases, arith, false,
}
use mini_ran.Double.{Double}
use mini_ran.Transport.Network.{
  count_dropped, count_sent, submit, poll_ready, make_network, base_delay, chance, goes_before,
  serialization_delay, jitter, insert_sorted, LinkProfile, VirtualNetwork, schedule, sort,
  split_due, Random,
}
use mini_ran.Transport.Datagram.{Datagram}
use mini_ran.Transport.Network.Polling.{IsOrdered}
use mini_ran.Transport.Link.{link_is_valid, tcp}
use mini_ran.Transport.Network.Conservation.{polls, submits, run, Use}

sort-ordered : (xs : List Datagram) → IsOrdered xs → sort xs ≡ xs
unfolding sort insert_sorted
sort-ordered [] o = refl
sort-ordered (d ∷ []) o = refl
sort-ordered (d ∷ x ∷ xs) o = rw (sort-ordered (x ∷ xs) o.1, o.0.0) refl

All-split_due {κ} :
    (P : Datagram → Type κ) (now : ℕ) (ds : List Datagram)
    → All P ds
    → All P (split_due now ds).0 × All P (split_due now ds).1
unfolding split_due
All-split_due P now [] ps = (tt, tt)
All-split_due P now (d ∷ ds) ps =
    let (ready, left) = split_due now ds in
    let rest = All-split_due P now ds ps.1 in
    if_cases (λ (p : List Datagram × List Datagram). All P p.0 × All P p.1)
      (leb d.deliver_at_ms now) (d ∷ ready, left) (ready, d ∷ left) ((ps.0, rest.0), rest.1)
      (rest.0, (ps.0, rest.1))

split_due-IsOrdered :
    (now : ℕ) (ds : List Datagram)
    → IsOrdered ds
    → IsOrdered (split_due now ds).0 × IsOrdered (split_due now ds).1
unfolding split_due
split_due-IsOrdered now [] o = (tt, tt)
split_due-IsOrdered now (d ∷ ds) o =
    let (ready, left) = split_due now ds in
    let rest = split_due-IsOrdered now ds o.1 in
    let later = All-split_due (λ x. goes_before x d ≡ false) now ds o.0 in
    if_cases (λ (p : List Datagram × List Datagram). IsOrdered p.0 × IsOrdered p.1)
      (leb d.deliver_at_ms now) (d ∷ ready, left) (ready, d ∷ left) ((later.0, rest.0), rest.1)
      (rest.0, (later.1, rest.1))

-- What goes behind all of an ordered queue may stand at its end.
append-IsOrdered :
    (xs : List Datagram) (d : Datagram)
    → IsOrdered xs
    → All (λ x. goes_before d x ≡ false) xs
    → IsOrdered (xs ++ d ∷ [])
append-IsOrdered [] d o ps = (tt, tt)
append-IsOrdered (x ∷ xs) d o ps = (
  All-append (λ y. goes_before y x ≡ false) xs (d ∷ []) o.0 (ps.0, tt),
  append-IsOrdered xs d o.1 ps.1,
)

All_weaken {κ ι} :
    {P : Datagram → Type κ} {Q : Datagram → Type ι} (xs : List Datagram)
    → ((x : Datagram) → P x → Q x)
    → All P xs
    → All Q xs
All_weaken [] f ps = tt
All_weaken (x ∷ xs) f ps = (f x ps.0, All_weaken xs f ps.1)

module _ (double : Double) (random : Random double) where
  -- TCP without jitter, with a latency that fits an `int`.
  pub record IsPlainTcp (p : LinkProfile double) : Type 0 where
    pub mode_is : p.mode ≡ tcp
    pub no_jitter : p.jitter_ms ≡ 0
    pub latency_fits : p.latency_ms < 2 ^ 31

  -- A queued datagram is no later than the link's next transmission with the latency.
  abbrev pub IsQueued : VirtualNetwork double random → Datagram → Type 0
  IsQueued net d =
      (d.deliver_at_ms ≤ net.next_available_tx_ms + net.profile.latency_ms)
      × (d.serial_number < net.serial_counter)

  pub record IsFifo (net : VirtualNetwork double random) : Type 0 where
    pub plain : IsPlainTcp net.profile
    pub ordered : IsOrdered net.queue
    pub queued : All (IsQueued net) net.queue

  -- The times of a submission and the serial number do not wrap.
  abbrev pub HasRoom : VirtualNetwork double random → Datagram → ℕ → Type 0
  HasRoom net d now =
      (max now net.next_available_tx_ms
          + serialization_delay double random net (length d.bytes)
          + net.profile.latency_ms
        < 2 ^ 64)
      × (net.serial_counter + 1 < 2 ^ 64)

  schedule_plain :
      (net : VirtualNetwork double random) (d : Datagram) (now : ℕ)
      → IsPlainTcp net.profile
      → max now net.next_available_tx_ms
          + serialization_delay double random net (length d.bytes)
          + net.profile.latency_ms
        < 2 ^ 64
      → let (booked, arrival) = schedule double random net d now in
        (arrival ≡ booked.next_available_tx_ms + net.profile.latency_ms)
        × (net.next_available_tx_ms ≤ booked.next_available_tx_ms)
        × (booked.profile ≡ net.profile)
        × (booked.serial_counter ≡ net.serial_counter)
  unfolding schedule jitter chance base_delay
  schedule_plain net d now p room = ground arith

  -- The queue of an ordered network holds in a network that is later in time and number.
  later-IsFifo :
      (net later : VirtualNetwork double random)
      → later.profile ≡ net.profile
      → later.queue ≡ net.queue
      → net.next_available_tx_ms ≤ later.next_available_tx_ms
      → net.serial_counter ≤ later.serial_counter
      → IsFifo net
      → IsFifo later
  later-IsFifo net later p q t n v = record {
    plain = rw p v.plain;
    ordered = rw q v.ordered;
    queued =
        rw q
          (All_weaken net.queue (λ x w. (rw p (omega (arith, w.0)), omega (arith, w.1))) v.queued);
  }

  append-IsFifo :
      (net : VirtualNetwork double random) (d : Datagram)
      → IsFifo net
      → All (λ x. goes_before d x ≡ false) net.queue
      → IsQueued net d
      → IsFifo (record net { queue = net.queue ++ d ∷ [] })
  append-IsFifo net d v last w = record {
    plain = v.plain;
    ordered = append-IsOrdered net.queue d v.ordered last;
    queued = All-append (IsQueued net) net.queue (d ∷ []) v.queued (w, tt);
  }

  pub submit-IsFifo :
      (net : VirtualNetwork double random) (d : Datagram) (now : ℕ)
      → HasRoom net d now
      → IsFifo net
      → IsFifo (submit double random net d now).0
  unfolding submit serialization_delay
  submit-IsFifo net d now room v =
      let kept = λ (p : VirtualNetwork double random × Bool). IsFifo p.0 in
      let numbered = record d { enqueue_time_ms = now; serial_number = net.serial_counter } in
      let sent = record net {
        metrics = count_sent net.metrics (length d.bytes);
        serial_counter = add64 net.serial_counter 1;
      } in
      let drawn = record sent { rng = (chance double random sent net.profile.loss_percent).1 } in
      let dropped = record drawn { metrics = count_dropped drawn.metrics } in
      let (booked, arrival) = schedule double random drawn numbered now in
      let (at, on, same, number) =
        schedule_plain drawn numbered now v.plain (omega (arith, room.0)) in
      let next : add64 net.serial_counter 1 ≡ net.serial_counter + 1 = omega (arith, room.1) in
      let lost : IsFifo dropped =
        later-IsFifo net dropped refl refl (omega arith) (omega arith) v in
      let waiting : VirtualNetwork double random = record booked { queue = net.queue } in
      let after : IsFifo waiting =
        later-IsFifo net waiting same refl on (omega (arith, number, next)) v in
      let d' = record numbered { deliver_at_ms = arrival } in
      let last : All (λ x. goes_before d' x ≡ false) net.queue =
        All_weaken net.queue (λ x w. ground (arith, at, on, w.0, w.1)) v.queued in
      if_cases kept (not (link_is_valid double net.profile)) _ _ v (
        if_cases kept (chance double random sent net.profile.loss_percent).0 _ _ lost (
          if_cases kept (leb net.profile.queue_limit_packets (length net.queue)) _ _ lost (
            append-IsFifo waiting d' after last
              (rw same (omega (arith, at)), omega (arith, number, next)))))

  pub poll-IsFifo :
      (net : VirtualNetwork double random) (now : ℕ)
      → IsFifo net
      → IsFifo (poll_ready double random net now).0
  unfolding poll_ready
  poll-IsFifo net now v = record {
    plain = v.plain;
    ordered = (split_due-IsOrdered now net.queue v.ordered).1;
    queued = (All-split_due (IsQueued net) now net.queue v.queued).1;
  }

  -- Each submission has room when it comes.
  abbrev pub AllRoom : VirtualNetwork double random → List (ℕ × Use) → Type 0
  AllRoom net [] = Unit {0}
  AllRoom net ((now, submits d) ∷ us) =
      HasRoom net d now × AllRoom (submit double random net d now).0 us
  AllRoom net ((now, polls) ∷ us) = AllRoom (poll_ready double random net now).0 us

  run-IsFifo :
      (net : VirtualNetwork double random) (us : List (ℕ × Use))
      → AllRoom net us
      → IsFifo net
      → IsFifo (run double random net us)
  run-IsFifo net [] room v = v
  run-IsFifo net ((now, submits d) ∷ us) room v =
      run-IsFifo (submit double random net d now).0 us room.1 (submit-IsFifo net d now room.0 v)
  run-IsFifo net ((now, polls) ∷ us) room v =
      run-IsFifo (poll_ready double random net now).0 us room (poll-IsFifo net now v)

  -- In TCP mode without jitter and with a latency that fits an `int`, after any submissions and
  -- polls of a new network for which the times and the serial numbers do not wrap: a poll hands
  -- over the datagrams that are due in the order of the queue, which is that of their submission.
  pub tcp_keeps_order :
      (profile : LinkProfile double) (seed : ℕ) (us : List (ℕ × Use)) (now : ℕ)
      → IsPlainTcp profile
      → AllRoom (make_network double random profile seed) us
      → let net = run double random (make_network double random profile seed) us in
        (poll_ready double random net now).1 ≡ (split_due now net.queue).0
  unfolding make_network poll_ready
  tcp_keeps_order profile seed us now p room =
      let v = run-IsFifo _ us room (record { plain = p; ordered = tt; queued = tt }) in
      sort-ordered _ (split_due-IsOrdered now _ v.ordered).0
