-- ===== src/Simulation/Config/Words.antt =====
-- The keys and values that a file can spell: words and numbers.
use Prim.Native.String.{String}
use Prim.Native.Char.{code}
use mini_ran.Common.{
  inr, inl, ◌<◌, Bool-cases, if◌then◌else◌, ℕ, ◌≡◌, ◌≢◌, refl, Bool, true, false, arith, ltb,
}
use mini_ran.Text.{decimal, is_space}
use mini_ran.Text.Spaces.{EndsBare-cons, StartsBare, EndsBare}
use mini_ran.Text.Lines.{HasNo, write-HasNo, decimal_bare}
use mini_ran.Traffic.Profile.{TrafficPattern, pattern_to_string, constant_bitrate, bursty, ramp}
use mini_ran.Transport.Link.{TransportMode, mode_to_string, tcp, udp}
use mini_ran.Simulation.Config.Assignments.{IsValue}
use mini_ran.Simulation.Config.Printed.{IsPair}

-- Letters and underscores, or what else stands behind `=` in the code.
unfoldable pub is_word : String → Bool
is_word String.[] = true
is_word (String.◌∷◌ c s) = let rest = is_word s in if ltb 61 (code c) then rest else false

pub word-HasNo : (mark : ℕ) (s : String) → mark < 62 → is_word s ≡ true → HasNo mark s
unfolding is_word
word-HasNo mark String.[] m e = tt
word-HasNo mark (String.◌∷◌ c s) m e = elim (Bool-cases (ltb 61 (code c))) [
  | inl later ↦ (ground arith, word-HasNo mark s m (rw later at e))
  | inr other ↦ cc
]

word-EndsBare : (s : String) → is_word s ≡ true → EndsBare s
unfolding is_word is_space
word-EndsBare String.[] e = tt
word-EndsBare (String.◌∷◌ c s) e = elim (Bool-cases (ltb 61 (code c))) [
  | inl later ↦ EndsBare-cons c s (word-EndsBare s (rw later at e)) (λ last. ground arith)
  | inr other ↦ cc
]

word-StartsBare : (s : String) → is_word s ≡ true → StartsBare s
unfolding is_word is_space
word-StartsBare String.[] e = tt
word-StartsBare (String.◌∷◌ c s) e = ground arith

pub word-IsValue : (s : String) → s ≢ "" → is_word s ≡ true → IsValue s
word-IsValue s n e = record {
  not_empty = n;
  starts_bare = word-StartsBare s e;
  ends_bare = word-EndsBare s e;
  no_hash = word-HasNo b'#' s (omega arith) e;
}

pub word-IsPair :
    (key value : String)
    → key ≢ ""
    → is_word key ≡ true
    → IsValue value
    → HasNo 10 value
    → IsPair (key, value)
word-IsPair key value n e v h = (
  record { value = word-IsValue key n e; no_equals = word-HasNo b'=' key (omega arith) e },
  v,
  word-HasNo 10 key (omega arith) e,
  h,
)

pub decimal-IsValue : (n : ℕ) → IsValue (decimal n)
decimal-IsValue n =
    let (filled, starts, ends) = decimal_bare n in
    record {
      not_empty = filled;
      starts_bare = starts;
      ends_bare = ends;
      no_hash = write-HasNo b'#' 20 n "" (omega arith) tt;
    }

pub decimal-IsPair :
    (key : String) (n : ℕ) → key ≢ "" → is_word key ≡ true → IsPair (key, decimal n)
decimal-IsPair key n f e =
    word-IsPair key (decimal n) f e (decimal-IsValue n) (write-HasNo 10 20 n "" (omega arith) tt)

pub mode-IsPair : (mode : TransportMode) → IsPair ("transport_mode", mode_to_string mode)
unfolding is_word mode_to_string
mode-IsPair tcp =
    word-IsPair "transport_mode" "tcp" (λ e. cc) refl (word-IsValue "tcp" (λ e. cc) refl)
      (word-HasNo 10 "tcp" (omega arith) refl)
mode-IsPair udp =
    word-IsPair "transport_mode" "udp" (λ e. cc) refl (word-IsValue "udp" (λ e. cc) refl)
      (word-HasNo 10 "udp" (omega arith) refl)

pub pattern-IsPair : (p : TrafficPattern) → IsPair ("traffic_pattern", pattern_to_string p)
unfolding is_word pattern_to_string
pattern-IsPair constant_bitrate =
    word-IsPair "traffic_pattern" "cbr" (λ e. cc) refl (word-IsValue "cbr" (λ e. cc) refl)
      (word-HasNo 10 "cbr" (omega arith) refl)
pattern-IsPair bursty =
    word-IsPair "traffic_pattern" "bursty" (λ e. cc) refl (word-IsValue "bursty" (λ e. cc) refl)
      (word-HasNo 10 "bursty" (omega arith) refl)
pattern-IsPair ramp =
    word-IsPair "traffic_pattern" "ramp" (λ e. cc) refl (word-IsValue "ramp" (λ e. cc) refl)
      (word-HasNo 10 "ramp" (omega arith) refl)
