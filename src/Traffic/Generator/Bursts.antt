-- ===== src/Traffic/Generator/Bursts.antt =====
-- The bursty pattern: how many events there are, when, and of what size.
use mini_ran.Common.{
  true, ◌-◌, min, add64, ℕ, zero, suc, ◌+◌, ◌*◌, ◌<◌, ◌≤◌, ◌≡◌, List, [], length, All, All-append,
  length-append, arith, ◌^◌, some,
}
use mini_ran.Traffic.Profile.{profile_is_valid, TrafficProfile}
use mini_ran.Traffic.Generator.{bursty, Double, emit, TrafficEvent, burst, bursts, generate}
use mini_ran.Traffic.Generator.Payloads.{length-make_payload}

-- An event within the duration, with a payload of the profile's size.
abbrev pub IsEvent : TrafficProfile → TrafficEvent → Type 0
IsEvent p e = (e.timestamp_ms < p.duration_ms) × (length e.payload ≡ p.packet_size_bytes)

emit-IsEvent :
    (p : TrafficProfile) (factor : ℕ) (events : List TrafficEvent) (timestamp : ℕ)
    → timestamp < p.duration_ms
    → All (IsEvent p) events
    → All (IsEvent p) (emit p factor events timestamp)
emit-IsEvent p factor events timestamp h all =
    All-append (IsEvent p) events _ all ((h, length-make_payload p.packet_size_bytes _), tt)

burst_lem :
    (p : TrafficProfile) (start index n : ℕ) (events : List TrafficEvent)
    → 0 < p.duration_ms
    → All (IsEvent p) events
    → (length (burst p start index n events) ≡ length events + n)
      × All (IsEvent p) (burst p start index n events)
unfolding burst
burst_lem p start index zero events h all = (omega arith, all)
burst_lem p start index (suc n) events h all =
    let stamp = min (p.duration_ms - 1) (add64 start index) in
    let (size, rest) =
      burst_lem p start (index + 1) n (emit p 3 events stamp) h
        (emit-IsEvent p 3 events stamp (omega arith) all) in
    (omega (arith, size, length-append events _), rest)

-- With `n` bursts to come and more fuel than that.
bursts_lem :
    (n fuel : ℕ) (p : TrafficProfile) (start : ℕ) (events : List TrafficEvent)
    → p.duration_ms ≤ start + n * p.burst_interval_ms
    → start + n * p.burst_interval_ms < p.duration_ms + p.burst_interval_ms
    → p.duration_ms + p.burst_interval_ms ≤ 2 ^ 64
    → 0 < p.duration_ms
    → n < fuel
    → All (IsEvent p) events
    → (es : List TrafficEvent) × (bursts fuel p start events ≡ some es)
      × (length es ≡ length events + n * p.burst_packets)
      × All (IsEvent p) es
unfolding bursts
bursts_lem n zero p start events reaches last fits d f all = absurd (omega arith)
bursts_lem zero (suc fuel) p start events reaches last fits d f all =
    (events, ground arith, omega arith, all)
bursts_lem (suc n) (suc fuel) p start events reaches last fits d f all =
    let more = burst p start 0 p.burst_packets events in
    let (size, good) = burst_lem p start 0 p.burst_packets events d all in
    let before : start < p.duration_ms = grind arith in
    let next : add64 start p.burst_interval_ms ≡ start + p.burst_interval_ms = omega arith in
    let (es, done, count, rest) =
      bursts_lem n fuel p (start + p.burst_interval_ms) more (grind arith) (grind arith) fits d
        (omega arith) good in
    (es, ground (arith, done, next, before), grind (arith, count, size), rest)

-- For a valid bursty profile whose duration and interval together fit 64 bits, with `n` the number
-- of intervals that the duration takes, the last one perhaps in part, and more fuel than `n`: the
-- generator returns `n` times the burst's packets, each stamped within the duration and with a
-- payload of the profile's size.
pub bursty_generates :
    (double : Double) (p : TrafficProfile) (n fuel : ℕ)
    → p.pattern ≡ bursty
    → profile_is_valid p ≡ true
    → p.duration_ms ≤ n * p.burst_interval_ms
    → n * p.burst_interval_ms < p.duration_ms + p.burst_interval_ms
    → p.duration_ms + p.burst_interval_ms ≤ 2 ^ 64
    → n < fuel
    → (es : List TrafficEvent) × (generate double fuel p ≡ some es)
      × (length es ≡ n * p.burst_packets)
      × All (IsEvent p) es
unfolding generate profile_is_valid
bursty_generates double p n fuel b v reaches last fits f =
    let positive : 0 < p.duration_ms = ground arith in
    let (es, done, count, all) =
      bursts_lem n fuel p 0 [] (omega arith) (omega arith) fits positive f tt in
    (es, ground (arith, done), omega (arith, count), all)
