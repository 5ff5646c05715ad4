-- ===== src/Transport/Network/Carried.antt =====
-- What the network holds of an amount that depends on a datagram's bytes.
use mini_ran.Transport.Network.{
  chance, link_is_valid, VirtualNetwork, schedule, poll_ready, Random, Datagram, insert_sorted,
  sort, split_due, Double, List, submit,
}
use mini_ran.Common.{
  length, leb, not, if_cases, Bool, ◌≤◌, refl, arith, [], ◌∷◌, ◌≡◌, ◌+◌, ◌++◌, ℕ, List,
}

module _ (amount : List ℕ → ℕ) where
  abbrev pub carried : List Datagram → ℕ
  carried [] = 0
  carried (d ∷ ds) = amount d.bytes + carried ds

  pub carried-append : (xs ys : List Datagram) → carried (xs ++ ys) ≡ carried xs + carried ys
  carried-append [] ys = omega arith
  carried-append (x ∷ xs) ys = omega (arith, carried-append xs ys)

  pub carried-append_one :
      (xs : List Datagram) (d : Datagram) → carried (xs ++ d ∷ []) ≡ carried xs + amount d.bytes
  carried-append_one xs d = omega (arith, carried-append xs (d ∷ []))

  carried-insert_sorted :
      (d : Datagram) (xs : List Datagram)
      → carried (insert_sorted d xs) ≡ amount d.bytes + carried xs
  unfolding insert_sorted
  carried-insert_sorted d [] = refl
  carried-insert_sorted d (x ∷ xs) = ground (arith, carried-insert_sorted d xs)

  carried-sort : (xs : List Datagram) → carried (sort xs) ≡ carried xs
  unfolding sort
  carried-sort [] = refl
  carried-sort (d ∷ ds) = omega (arith, carried-insert_sorted d (sort ds), carried-sort ds)

  carried-split_due :
      (now : ℕ) (ds : List Datagram)
      → carried (split_due now ds).0 + carried (split_due now ds).1 ≡ carried ds
  unfolding split_due
  carried-split_due now [] = omega arith
  carried-split_due now (d ∷ ds) = ground (arith, carried-split_due now ds)

  module _ {double : Double} {random : Random double} where
    pub carried-submit :
        (net : VirtualNetwork double random) (d : Datagram) (now : ℕ)
        → carried (submit double random net d now).0.queue ≤ carried net.queue + amount d.bytes
    unfolding submit schedule
    carried-submit net d now =
        let numbered = record d { enqueue_time_ms = now; serial_number = net.serial_counter } in
        let small = λ (p : VirtualNetwork double random × Bool).
          carried p.0.queue ≤ carried net.queue + amount d.bytes in
        if_cases small (not (link_is_valid double net.profile)) _ _ (omega arith) (
          if_cases small (chance double random _ net.profile.loss_percent).0 _ _ (omega arith) (
            if_cases small (leb net.profile.queue_limit_packets (length net.queue)) _ _
              (omega arith)
              (omega
                (arith, carried-append_one net.queue (record numbered { deliver_at_ms = _ })))))

    pub carried-poll_ready :
        (net : VirtualNetwork double random) (now : ℕ)
        → let (after, ready) = poll_ready double random net now in
          carried ready + carried after.queue ≡ carried net.queue
    unfolding poll_ready
    carried-poll_ready net now =
        omega (arith, carried-sort (split_due now net.queue).0, carried-split_due now net.queue)
