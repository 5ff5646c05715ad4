-- ===== src/Transport/Network/Polling.antt =====
-- `pollReady`: which datagrams leave the network, and in which order.
use mathlib.Core.List.{perm_middle, ◌∷◌, List, Perm}
use mathlib.Core.List.Perm
use mini_ran.Common.{
  ◌⊎◌, leb, arith, inr, false, true, inl, ◌<◌, ◌≡◌, if_cases, Bool-cases, ◌≤◌, [], All, ◌∷◌, ◌++◌,
  List, ℕ,
}
use mini_ran.Transport.Datagram.{Datagram}
use mini_ran.Transport.Network.{
  poll_ready, VirtualNetwork, goes_before, Random, insert_sorted, sort, split_due,
}
use mini_ran.Double.{Double}

-- Sorted by the order of `pollReady`: nothing stands behind what goes after it.
abbrev pub IsOrdered : List Datagram → Type 0
IsOrdered [] = Unit {0}
IsOrdered (d ∷ ds) = All (λ x. goes_before x d ≡ false) ds × IsOrdered ds

goes_before_trans :
    (a b c : Datagram) → goes_before b a ≡ false → goes_before c b ≡ false → goes_before c a ≡ false
goes_before_trans a b c p q = ground arith

goes_before_asym : (a b : Datagram) → goes_before a b ≡ true → goes_before b a ≡ false
goes_before_asym a b p = ground arith

All-insert_sorted {κ} :
    (P : Datagram → Type κ) (d : Datagram) (xs : List Datagram)
    → P d
    → All P xs
    → All P (insert_sorted d xs)
unfolding insert_sorted
All-insert_sorted P d [] p ps = (p, tt)
All-insert_sorted P d (x ∷ xs) p ps =
    if_cases (All P) (goes_before x d) _ _ (ps.0, All-insert_sorted P d xs p ps.1) (p, ps)

All_later :
    (a b : Datagram) (xs : List Datagram)
    → goes_before b a ≡ false
    → All (λ x. goes_before x b ≡ false) xs
    → All (λ x. goes_before x a ≡ false) xs
All_later a b [] h ps = tt
All_later a b (x ∷ xs) h ps = (goes_before_trans a b x h ps.0, All_later a b xs h ps.1)

insert_sorted-IsOrdered :
    (d : Datagram) (xs : List Datagram) → IsOrdered xs → IsOrdered (insert_sorted d xs)
unfolding insert_sorted
insert_sorted-IsOrdered d [] o = (tt, tt)
insert_sorted-IsOrdered d (x ∷ xs) o = elim (Bool-cases (goes_before x d)) [
  | inl before ↦ rw before (
    All-insert_sorted (λ y. goes_before y x ≡ false) d xs (goes_before_asym x d before) o.0,
    insert_sorted-IsOrdered d xs o.1,
  )
  | inr after ↦ rw after ((after, All_later d x xs after o.0), o)
]

sort-IsOrdered : (xs : List Datagram) → IsOrdered (sort xs)
unfolding sort
sort-IsOrdered [] = tt
sort-IsOrdered (d ∷ ds) = insert_sorted-IsOrdered d (sort ds) (sort-IsOrdered ds)

insert_sorted-perm : (d : Datagram) (xs : List Datagram) → Perm (insert_sorted d xs) (d ∷ xs)
unfolding insert_sorted
insert_sorted-perm d [] = Perm.refl _
insert_sorted-perm d (x ∷ xs) =
    if_cases (λ ys. Perm ys (d ∷ x ∷ xs)) (goes_before x d) _ _
      (Perm.trans (Perm.cons x (insert_sorted-perm d xs)) (Perm.swap d x xs)) (Perm.refl _)

sort-perm : (xs : List Datagram) → Perm (sort xs) xs
unfolding sort
sort-perm [] = Perm.refl _
sort-perm (d ∷ ds) = Perm.trans (insert_sorted-perm d (sort ds)) (Perm.cons d (sort-perm ds))

split_due-perm :
    (now : ℕ) (ds : List Datagram) → Perm ((split_due now ds).0 ++ (split_due now ds).1) ds
unfolding split_due
split_due-perm now [] = Perm.refl _
split_due-perm now (d ∷ ds) =
    let (ready, left) = split_due now ds in
    let rest : Perm (ready ++ left) ds = split_due-perm now ds in
    if_cases (λ (p : List Datagram × List Datagram). Perm (p.0 ++ p.1) (d ∷ ds))
      (leb d.deliver_at_ms now) (d ∷ ready, left) (ready, d ∷ left) (Perm.cons d rest)
      (Perm.trans (perm_middle ready left) (Perm.cons d rest))

split_due_times :
    (now : ℕ) (ds : List Datagram)
    → All (λ d. d.deliver_at_ms ≤ now) (split_due now ds).0
      × All (λ d. now < d.deliver_at_ms) (split_due now ds).1
unfolding split_due
split_due_times now [] = (tt, tt)
split_due_times now (d ∷ ds) = ground (arith, split_due_times now ds)

All-sort {κ} : (P : Datagram → Type κ) (xs : List Datagram) → All P xs → All P (sort xs)
unfolding sort
All-sort P [] ps = tt
All-sort P (d ∷ ds) ps = All-insert_sorted P d (sort ds) ps.0 (All-sort P ds ps.1)

-- `a` may leave before `b`: its time of delivery is earlier, or the times are equal and its serial
-- number is no larger.
abbrev pub Precedes : Datagram → Datagram → Type 0
Precedes a b =
    (a.deliver_at_ms < b.deliver_at_ms)
    ⊎ (a.deliver_at_ms ≡ b.deliver_at_ms) × (a.serial_number ≤ b.serial_number)

-- Each datagram may leave before all that stand behind it.
abbrev pub IsInOrder : List Datagram → Type 0
IsInOrder [] = Unit {0}
IsInOrder (d ∷ ds) = All (Precedes d) ds × IsInOrder ds

not_before-Precedes : (d x : Datagram) → goes_before x d ≡ false → Precedes d x
not_before-Precedes d x h = ground arith

All-Precedes :
    (d : Datagram) (xs : List Datagram)
    → All (λ x. goes_before x d ≡ false) xs
    → All (Precedes d) xs
All-Precedes d [] ps = tt
All-Precedes d (x ∷ xs) ps = (not_before-Precedes d x ps.0, All-Precedes d xs ps.1)

IsOrdered-IsInOrder : (xs : List Datagram) → IsOrdered xs → IsInOrder xs
IsOrdered-IsInOrder [] o = tt
IsOrdered-IsInOrder (d ∷ ds) o = (All-Precedes d ds o.0, IsOrdered-IsInOrder ds o.1)

-- A poll at `now` hands over only datagrams that are due and keeps only those that are not. Of any
-- two that it hands over the first has the earlier time of delivery, or the same time and a serial
-- number that is no larger. Both together are the queue as it was, up to order.
pub poll_delivers :
    (double : Double) (random : Random double) (net : VirtualNetwork double random) (now : ℕ)
    → let (after, ready) = poll_ready double random net now in
      All (λ d. d.deliver_at_ms ≤ now) ready
      × All (λ d. now < d.deliver_at_ms) after.queue
      × IsInOrder ready
      × Perm (ready ++ after.queue) net.queue
unfolding poll_ready
poll_delivers double random net now =
    let (due, left) = split_due now net.queue in
    let times = split_due_times now net.queue in
    (
      All-sort (λ d. d.deliver_at_ms ≤ now) due times.0,
      times.1,
      IsOrdered-IsInOrder (sort due) (sort-IsOrdered due),
      Perm.trans (Perm.append (sort-perm due) (Perm.refl left)) (split_due-perm now net.queue),
    )
