-- ===== src/Traffic/Generator/Events.antt =====
-- What holds of every event that is generated, in all patterns.
use mini_ran.Traffic.Generator.{
  ramp_next, cbr_next, profile_is_valid, emit, TrafficEvent, ℕ, paced, TrafficProfile, burst,
  bursts, Double, generate,
}
use mini_ran.Traffic.Generator.Payloads.{make_payload_lem}
use mini_ran.Common.{
  subst, [], All-append, add64, inr, ltb, inl, ◌*◌, zero, u8, Bool-cases, ◌+◌, IsU8, suc, some, ◌≡◌,
  All, length, List, ℕ,
}
use mini_ran.Traffic.Profile.{constant_bitrate, bursty, ramp, TrafficPattern}

-- A payload of the profile's size, of bytes.
abbrev pub IsMade : TrafficProfile → TrafficEvent → Type 0
IsMade p e = (length e.payload ≡ p.packet_size_bytes) × All IsU8 e.payload

emit-IsMade :
    (p : TrafficProfile) (factor : ℕ) (events : List TrafficEvent) (timestamp : ℕ)
    → All (IsMade p) events
    → All (IsMade p) (emit p factor events timestamp)
emit-IsMade p factor events timestamp all =
    let payload = make_payload_lem p.packet_size_bytes (u8 (length events * factor)) in
    All-append (IsMade p) events _ all ((payload.0, payload.1), tt)

burst-IsMade :
    (p : TrafficProfile) (start index n : ℕ) (events : List TrafficEvent)
    → All (IsMade p) events
    → All (IsMade p) (burst p start index n events)
unfolding burst
burst-IsMade p start index zero events all = all
burst-IsMade p start index (suc n) events all =
    burst-IsMade p start (index + 1) n _ (emit-IsMade p 3 events _ all)

bursts-IsMade :
    (fuel : ℕ) (p : TrafficProfile) (start : ℕ) (events es : List TrafficEvent)
    → All (IsMade p) events
    → bursts fuel p start events ≡ some es
    → All (IsMade p) es
unfolding bursts
bursts-IsMade zero p start events es all e = cc
bursts-IsMade (suc fuel) p start events es all e = elim (Bool-cases (ltb start p.duration_ms)) [
  | inl more ↦
      bursts-IsMade fuel p (add64 start p.burst_interval_ms) _ es
        (burst-IsMade p start 0 p.burst_packets events all) (rw more at e)
  | inr over ↦
      let last : some events ≡ some es = rw over at e in
      let same : events ≡ es = cc in subst (All (IsMade p)) same all
]

module _ (double : Double) where
  paced-IsMade :
      (fuel : ℕ) (p : TrafficProfile) (factor : ℕ) (next : double.Real → double.Real)
      (current : double.Real) (events es : List TrafficEvent)
      → All (IsMade p) events
      → paced double fuel p factor next current events ≡ some es
      → All (IsMade p) es
  unfolding paced
  paced-IsMade zero p factor next current events es all e = cc
  paced-IsMade (suc fuel) p factor next current events es all e =
      elim (Bool-cases (double.less current (double.of_nat p.duration_ms))) [
        | inl more ↦
            paced-IsMade fuel p factor next (next current) _ es
              (emit-IsMade p factor events (double.to_u64 current) all) (rw more at e)
        | inr over ↦
            let last : some events ≡ some es = rw over at e in
            let same : events ≡ es = cc in subst (All (IsMade p)) same all
      ]

  pattern-IsMade :
      (fuel : ℕ) (p : TrafficProfile) (pattern : TrafficPattern) (es : List TrafficEvent)
      → elim pattern [
        | constant_bitrate ↦ paced double fuel p 1 (cbr_next double p) (double.of_nat 0) []
        | bursty ↦ bursts fuel p 0 []
        | ramp ↦ paced double fuel p 5 (ramp_next double p) (double.of_nat 0) []
      ]
        ≡ some es
      → All (IsMade p) es
  pattern-IsMade fuel p constant_bitrate es e = paced-IsMade fuel p 1 _ _ [] es tt e
  pattern-IsMade fuel p bursty es e = bursts-IsMade fuel p 0 [] es tt e
  pattern-IsMade fuel p ramp es e = paced-IsMade fuel p 5 _ _ [] es tt e

  pub generate-IsMade :
      (fuel : ℕ) (p : TrafficProfile) (es : List TrafficEvent)
      → generate double fuel p ≡ some es
      → All (IsMade p) es
  unfolding generate
  generate-IsMade fuel p es e = elim (Bool-cases (profile_is_valid p)) [
    | inl valid ↦ pattern-IsMade fuel p p.pattern es (rw valid at e)
    | inr wrong ↦
        let none_made : some [] ≡ some es = rw wrong at e in
        let same : [] ≡ es = cc in subst (All (IsMade p)) same tt
  ]
