-- ===== src/Traffic/Examples.antt =====
-- Profiles and their events, over whole numbers.
use mini_ran.Traffic.Profile.{
  default_profile, TrafficProfile, TrafficEvent, profile_is_valid, bursty,
}
use mini_ran.Common.{◌≡◌, refl, List, length, All, some, arith}
use mini_ran.Traffic.Generator.{generate}
use mini_ran.Double.{whole-IsExact, whole}
use mini_ran.Traffic.Generator.Bursts.{bursty_generates, IsEvent}
use mini_ran.Traffic.Generator.Pace.{cbr_generates, periodic}

abbrev bursty_profile : TrafficProfile
bursty_profile = record default_profile { pattern = bursty; duration_ms = 450; burst_packets = 3 }

bursty_generates_example :
    (es : List TrafficEvent) × (generate whole 20 bursty_profile ≡ some es)
    × (length es ≡ 9)
    × All (IsEvent bursty_profile) es
unfolding profile_is_valid
bursty_generates_example =
    bursty_generates whole bursty_profile 3 20 refl refl (omega arith) (omega arith) (omega arith)
      (omega arith)

cbr_generates_example : generate whole 20 default_profile ≡ some (periodic 128 100 0 10)
unfolding profile_is_valid
cbr_generates_example =
    cbr_generates whole default_profile 100 10 20 whole-IsExact refl refl refl (omega arith)
      (omega arith) (omega arith) (omega arith)
