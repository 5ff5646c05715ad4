-- ===== src/Traffic/Generator/Pace.antt =====
-- The constant pattern: one event at each point of time that its loop comes to.
use native.Mathlib.Nat.{add-mul, zero-mul, mul-zero, zero-add, add-zero}
use mini_ran.Common.{
  ap₂, length-append, append-nil, sym, ℕ, zero, suc, ◌+◌, ◌*◌, ◌<◌, ◌≤◌, ◌^◌, ◌≡◌, ◌≢◌, refl, ◌∙◌,
  ap, List, [], ◌∷◌, ◌++◌, length, append_assoc, arith, some, true, false, u8,
}
use mini_ran.Traffic.Profile.{TrafficEvent, TrafficProfile}
use mini_ran.Double.{Double, IsExact}
use mini_ran.Traffic.Generator.{
  emit, cbr_next, profile_is_valid, paced, constant_bitrate, generate, make_payload,
}

-- `n` events, one in each interval from the one with number `index` on. The payload's seed is the
-- number of the event.
abbrev pub periodic : ℕ → ℕ → ℕ → ℕ → List TrafficEvent
periodic size interval index zero = []
periodic size interval index (suc n) =
    record { timestamp_ms = index * interval; payload = make_payload size (u8 index) }
    ∷ periodic size interval (index + 1) n

pub length-periodic : (size interval index n : ℕ) → length (periodic size interval index n) ≡ n
length-periodic size interval index zero = refl
length-periodic size interval index (suc n) =
    omega (arith, length-periodic size interval (index + 1) n)

next_multiple : (index interval : ℕ) → (index + 1) * interval ≡ index * interval + interval
next_multiple index interval = omega (arith, add-mul index 1 interval)

later_multiple :
    (index n interval : ℕ) → (index + suc n) * interval ≡ (index + 1) * interval + n * interval
later_multiple index n interval =
    let same : index + suc n ≡ (index + 1) + n = omega arith in
    ap (◌* interval) same ∙ add-mul (index + 1) n interval

module _ (double : Double) (p : TrafficProfile) (exact : IsExact double) (interval : ℕ) where
  open double use {of_nat, plus, over, less, to_u64}

  cbr_next-interval :
      (index : ℕ)
      → p.packets_per_second ≢ 0
      → interval * p.packets_per_second ≡ 1000
      → (index + 1) * interval ≤ 2 ^ 53
      → cbr_next double p (of_nat (index * interval)) ≡ of_nat ((index + 1) * interval)
  cbr_next-interval index some_rate divides fits =
      let e = next_multiple index interval in
      ap (λ t. plus (of_nat (index * interval)) (over (of_nat t) (of_nat p.packets_per_second)))
        (sym divides)
      ∙ ap (plus (of_nat (index * interval)))
          (exact.quotients interval p.packets_per_second some_rate (omega (arith, divides)))
      ∙ exact.sums (index * interval) interval (omega (arith, e, fits))
      ∙ ap of_nat (sym e)

  emit-multiple :
      (index : ℕ) (events : List TrafficEvent)
      → length events ≡ index
      → index * interval ≤ 2 ^ 53
      → emit p 1 events (to_u64 (of_nat (index * interval)))
        ≡ events ++ periodic p.packet_size_bytes interval index 1
  emit-multiple index events len fits =
      let number : length events * 1 ≡ index = omega (arith, len) in
      ap₂
        (λ (t k : ℕ).
          events
          ++ record { timestamp_ms = t; payload = make_payload p.packet_size_bytes (u8 k) } ∷ [])
        (exact.casts (index * interval) fits) number

  paced_cbr :
      (n fuel index : ℕ) (events : List TrafficEvent)
      → p.packets_per_second ≢ 0
      → interval * p.packets_per_second ≡ 1000
      → length events ≡ index
      → p.duration_ms ≤ (index + n) * interval
      → (index + n) * interval < p.duration_ms + interval
      → p.duration_ms + interval ≤ 2 ^ 53
      → n < fuel
      → paced double fuel p 1 (cbr_next double p) (of_nat (index * interval)) events
        ≡ some (events ++ periodic p.packet_size_bytes interval index n)
  unfolding paced
  paced_cbr n zero index events some_rate divides len past near fits f = absurd (omega arith)
  paced_cbr zero (suc fuel) index events some_rate divides len past near fits f =
      let same : (index + 0) * interval ≡ index * interval = ap (◌* interval) (add-zero index) in
      let ended : less (of_nat (index * interval)) (of_nat p.duration_ms) ≡ false =
        exact.order (index * interval) p.duration_ms (omega arith) (omega arith) ∙ ground arith in
      rw ended (ap some (sym (append-nil events)))
  paced_cbr (suc n) (suc fuel) index events some_rate divides len past near fits f =
      let e = next_multiple index interval in
      let l = later_multiple index n interval in
      let l' = add-mul (index + 1) n interval in
      let going : less (of_nat (index * interval)) (of_nat p.duration_ms) ≡ true =
        exact.order (index * interval) p.duration_ms (omega (arith, e, l)) (omega arith)
        ∙ ground (arith, e, l) in
      let first = periodic p.packet_size_bytes interval index 1 in
      rw going (
        ap₂ (paced double fuel p 1 (cbr_next double p))
          (cbr_next-interval index some_rate divides (omega (arith, e, l)))
          (emit-multiple index events len (omega (arith, e, l)))
        ∙ paced_cbr n fuel (index + 1) (events ++ first) some_rate divides
            (omega (arith, length-append events first)) (omega (arith, l, l'))
            (omega (arith, l, l')) fits (omega arith)
        ∙ ap some (append_assoc events first (periodic p.packet_size_bytes interval (index + 1) n)))

generate_cbr :
    (double : Double) (p : TrafficProfile) (fuel : ℕ)
    → p.pattern ≡ constant_bitrate
    → profile_is_valid p ≡ true
    → generate double fuel p ≡ paced double fuel p 1 (cbr_next double p) (double.of_nat 0) []
unfolding generate
generate_cbr double p fuel c v = simp (v, c)

-- A valid profile of constant rate, whose rate divides 1000 into intervals of whole milliseconds,
-- and whose duration takes `n` of them, the last one perhaps in part; a `double` that is exact on
-- whole numbers up to 2 ^ 53, below which duration and interval stay together; more fuel than `n`.
-- Then the generator returns `n` events: event `i` is stamped `i` intervals, and its payload has
-- the profile's size and the seed `i` modulo 256.
pub cbr_generates :
    (double : Double) (p : TrafficProfile) (interval n fuel : ℕ)
    → IsExact double
    → p.pattern ≡ constant_bitrate
    → profile_is_valid p ≡ true
    → interval * p.packets_per_second ≡ 1000
    → p.duration_ms ≤ n * interval
    → n * interval < p.duration_ms + interval
    → p.duration_ms + interval ≤ 2 ^ 53
    → n < fuel
    → generate double fuel p ≡ some (periodic p.packet_size_bytes interval 0 n)
cbr_generates double p interval n fuel exact c v divides over under fits f =
    let none_yet = zero-mul interval in
    let some_rate : p.packets_per_second ≢ 0 = λ e. cc (mul-zero interval, e, divides) in
    generate_cbr double p fuel c v
    ∙ ap (λ t. paced double fuel p 1 (cbr_next double p) (double.of_nat t) []) (sym none_yet)
    ∙ paced_cbr double p exact interval n fuel 0 [] some_rate divides refl
        (omega (arith, ap (◌* interval) (zero-add n)))
        (omega (arith, ap (◌* interval) (zero-add n))) fits f
