-- ===== src/Traffic/Generator.antt =====
-- include/miniran/traffic/traffic_generator.h and src/traffic/traffic_generator.cpp. The generator's
-- random engine is seeded and never drawn from, so it is left out. A `while` loop runs on fuel: the
-- result is `none` when the fuel is used up before the loop ends.
pub mod Payloads
pub mod Bursts
pub mod Pace
pub mod Events
use mini_ran.Common.{
  sub32, ℕ, zero, suc, ◌+◌, ◌-◌, ◌*◌, ◌%◌, ◌^◌, min, Option, none, some, List, [], ◌∷◌, ◌++◌,
  length, u8, add64, ltb, not, if◌then◌else◌,
}
use mini_ran.Traffic.Profile.{
  constant_bitrate, bursty, ramp, profile_is_valid, TrafficEvent, TrafficProfile,
}
use mini_ran.Double.{Double}

-- The loop of `makePayload` from `index` on, with `n` rounds left.
fill : ℕ → ℕ → ℕ → List ℕ
fill zero index seed = []
fill (suc n) index seed = u8 (seed + u8 (index % 31)) ∷ fill n (index + 1) seed

unfoldable pub make_payload : ℕ → ℕ → List ℕ
unfolding fill
make_payload size seed = fill size 0 seed

-- An event at the end of `events`. The seed of its payload is `(events.size() * factor) & 0xFFU`,
-- where the wrap of the product at 64 bits does not show.
abbrev pub emit : TrafficProfile → ℕ → List TrafficEvent → ℕ → List TrafficEvent
emit profile factor events timestamp =
    events
    ++ record {
      timestamp_ms = timestamp;
      payload = make_payload profile.packet_size_bytes (u8 (length events * factor));
    }
      ∷ []

-- The inner loop of a burst from `index` on, with `n` packets left.
unfoldable pub burst : TrafficProfile → ℕ → ℕ → ℕ → List TrafficEvent → List TrafficEvent
burst p start index zero events = events
burst p start index (suc n) events =
    burst p start (index + 1) n (emit p 3 events (min (p.duration_ms - 1) (add64 start index)))

unfoldable pub bursts : ℕ → TrafficProfile → ℕ → List TrafficEvent → Option (List TrafficEvent)
bursts zero p start events = none
bursts (suc fuel) p start events =
    let others =
      bursts fuel p (add64 start p.burst_interval_ms) (burst p start 0 p.burst_packets events) in
    if ltb start p.duration_ms then others else some events

module _ (double : Double) where
  open double use {Real, of_nat, plus, times, over, less, to_u64}

  -- The loops of the other patterns: an event at each `current` until the duration is over.
  unfoldable pub paced :
      ℕ → TrafficProfile → ℕ → (Real → Real) → Real → List TrafficEvent → Option (List TrafficEvent)
  paced zero p factor next current events = none
  paced (suc fuel) p factor next current events =
      let others =
        paced fuel p factor next (next current) (emit p factor events (to_u64 current)) in
      if less current (of_nat p.duration_ms) then others else some events

  abbrev pub cbr_next : TrafficProfile → Real → Real
  cbr_next p current = plus current (over (of_nat 1000) (of_nat p.packets_per_second))

  -- `std::max(1.0, pps)`.
  abbrev max_one : Real → Real
  max_one pps = if less (of_nat 1) pps then pps else of_nat 1

  -- The difference of the rates is taken in 32 bits, before the conversion.
  abbrev pub ramp_next : TrafficProfile → Real → Real
  ramp_next p current =
      let progress = over current (of_nat p.duration_ms) in
      let span = of_nat (sub32 p.ramp_end_pps p.ramp_start_pps) in
      let pps = plus (of_nat p.ramp_start_pps) (times span progress) in
      plus current (over (of_nat 1000) (max_one pps))

  unfoldable pub generate : ℕ → TrafficProfile → Option (List TrafficEvent)
  generate fuel p = if not (profile_is_valid p) then some [] else elim p.pattern [
    | constant_bitrate ↦ paced fuel p 1 (cbr_next p) (of_nat 0) []
    | bursty ↦ bursts fuel p 0 []
    | ramp ↦ paced fuel p 5 (ramp_next p) (of_nat 0) []
  ]
