-- ===== src/Simulation/Config/Fields.antt =====
-- The single values of a configuration file: what a number becomes, and that the fields fit their
-- types.
use Prim.Native.String.{String, ◌++◌}
use text.Mathlib.TextLemmas.{nil-append}
use mini_ran.Common.{
  true, ◌-◌, if◌then◌else◌, Bool, ◌⊎◌, subst, Option-cases, ℕ, ◌≡◌, ◌<◌, ◌%◌, ◌^◌, refl, false,
  some, IsU32, IsU64, arith, inl, inr,
}
use mini_ran.Text.{stoull, decimal, starts_digit}
use mini_ran.Text.Numbers.{stoull-IsU64, stoull_lem}
use mini_ran.Simulation.Config.{
  ConfigError, parse_double, LinkProfile, read_link, DoubleText, parse_size, TrafficProfile,
  read_traffic, Double, SessionTimers, read_timers, ◌>>=◌, Result, good, bad, Values, read_value,
  parse_u32, parse_unsigned,
}
use mini_ran.Text.{starts_digit, decimal}
use mini_ran.Text.Spaces.{IsBlank}
use mini_ran.Text.Numbers.{stoull_lem}
use mini_ran.Transport.Link.{TransportMode}

pub Result-cases {ℓ} :
    {A : Type ℓ} (r : Result A) → ((a : A) × (r ≡ good a)) ⊎ ((e : ConfigError) × (r ≡ bad e))
Result-cases (good a) = inl (a, refl)
Result-cases (bad e) = inr (e, refl)

-- A chain that gives a value went through.
pub chain-good {ℓ κ} :
    {A : Type ℓ} {B : Type κ} (r : Result A) (f : A → Result B) (b : B)
    → (r >>= f) ≡ good b
    → (a : A) × (r ≡ good a) × (f a ≡ good b)
chain-good (good a) f b e = (a, refl, e)
chain-good (bad error) f b e = cc

pub parse_u32-IsU32 :
    (values : Values) (key : String) (target n : ℕ)
    → IsU32 target
    → parse_u32 values key target ≡ good n
    → IsU32 n
unfolding parse_u32
parse_u32-IsU32 values key target n h e = ground arith

pub parse_unsigned-IsU64 :
    (values : Values) (key : String) (target n : ℕ)
    → IsU64 target
    → parse_unsigned values key target ≡ good n
    → IsU64 n
unfolding parse_unsigned
parse_unsigned-IsU64 values key target n h e = elim (Option-cases (read_value values key)) [
  | inl absent ↦ ground arith
  | inr (text, there) ↦ elim (Option-cases (stoull text)) [
    | inl refused ↦ cc
    | inr (m, read) ↦ ground (arith, stoull-IsU64 text m read)
  ]
]

parse_size-IsU64 :
    (values : Values) (key : String) (target n : ℕ)
    → IsU64 target
    → parse_size values key target ≡ good n
    → IsU64 n
unfolding parse_size
parse_size-IsU64 values key target n h e = elim (Option-cases (read_value values key)) [
  | inl absent ↦ ground arith
  | inr (text, there) ↦ elim (Option-cases (stoull text)) [
    | inl refused ↦ cc
    | inr (m, read) ↦ ground (arith, stoull-IsU64 text m read)
  ]
]

-- If the value of a key is white space, perhaps a minus sign, a number of 64 bits in decimal and a
-- text that starts with no digit, then the field of 64 bits becomes the number, or with the sign
-- its negative modulo 2 ^ 64, with no error.
pub parse_unsigned_accepts :
    (values : Values) (key blank rest : String) (negative : Bool) (target n : ℕ)
    → read_value values key
      ≡ some (blank ++ ((if negative then "-" else "") ++ (decimal n ++ rest)))
    → IsBlank blank
    → n < 2 ^ 64
    → starts_digit rest ≡ false
    → parse_unsigned values key target ≡ good (if negative then (2 ^ 64 - n) % 2 ^ 64 else n)
unfolding parse_unsigned
parse_unsigned_accepts values key blank rest true target n there b h e =
    rw (there, (stoull_lem blank rest n b h e).1) refl
parse_unsigned_accepts values key blank rest false target n there b h e =
    rw (there, nil-append (decimal n ++ rest), (stoull_lem blank rest n b h e).0) refl

-- If the value of a key is white space, a number of 64 bits in decimal and a text that starts with
-- no digit, then the field of 32 bits becomes the number modulo 2 ^ 32, with no error.
pub parse_u32_wraps :
    (values : Values) (key blank rest : String) (target n : ℕ)
    → read_value values key ≡ some (blank ++ (decimal n ++ rest))
    → IsBlank blank
    → n < 2 ^ 64
    → starts_digit rest ≡ false
    → parse_u32 values key target ≡ good (n % 2 ^ 32)
unfolding parse_u32
parse_u32_wraps values key blank rest target n there b h e =
    rw (there, (stoull_lem blank rest n b h e).0) refl

-- Every field of the timers fits its type.
pub record TimersFit (t : SessionTimers) : Type 0 where
  pub attach_timeout_fits : IsU32 t.attach_timeout_ms
  pub detach_timeout_fits : IsU32 t.detach_timeout_ms
  pub heartbeat_interval_fits : IsU32 t.heartbeat_interval_ms
  pub inactivity_timeout_fits : IsU32 t.inactivity_timeout_ms
  pub max_attach_fits : IsU32 t.max_attach_retries
  pub max_detach_fits : IsU32 t.max_detach_retries

pub read_timers-TimersFit :
    (values : Values) (t r : SessionTimers)
    → TimersFit t
    → read_timers values t ≡ good r
    → TimersFit r
unfolding read_timers
read_timers-TimersFit values t r v e =
    let (a, ea, e) = chain-good (parse_u32 values "attach_timeout_ms" t.attach_timeout_ms) _ r e in
    let (b, eb, e) = chain-good (parse_u32 values "detach_timeout_ms" t.detach_timeout_ms) _ r e in
    let (c, ec, e) =
      chain-good (parse_u32 values "heartbeat_interval_ms" t.heartbeat_interval_ms) _ r e in
    let (d, ed, e) =
      chain-good (parse_u32 values "inactivity_timeout_ms" t.inactivity_timeout_ms) _ r e in
    let (f, ef, e) =
      chain-good (parse_u32 values "max_attach_retries" t.max_attach_retries) _ r e in
    let (g, eg, e) =
      chain-good (parse_u32 values "max_detach_retries" t.max_detach_retries) _ r e in
    let made : SessionTimers = record {
      attach_timeout_ms = a;
      detach_timeout_ms = b;
      heartbeat_interval_ms = c;
      inactivity_timeout_ms = d;
      max_attach_retries = f;
      max_detach_retries = g;
    } in
    let same : made ≡ r = cc in
    subst TimersFit same (record {
      attach_timeout_fits = parse_u32-IsU32 values _ _ a v.attach_timeout_fits ea;
      detach_timeout_fits = parse_u32-IsU32 values _ _ b v.detach_timeout_fits eb;
      heartbeat_interval_fits = parse_u32-IsU32 values _ _ c v.heartbeat_interval_fits ec;
      inactivity_timeout_fits = parse_u32-IsU32 values _ _ d v.inactivity_timeout_fits ed;
      max_attach_fits = parse_u32-IsU32 values _ _ f v.max_attach_fits ef;
      max_detach_fits = parse_u32-IsU32 values _ _ g v.max_detach_fits eg;
    })

pub record TrafficFits (p : TrafficProfile) : Type 0 where
  pub duration_fits : IsU64 p.duration_ms
  pub size_fits : IsU64 p.packet_size_bytes
  pub rate_fits : IsU32 p.packets_per_second
  pub burst_fits : IsU32 p.burst_packets
  pub interval_fits : IsU32 p.burst_interval_ms
  pub ramp_start_fits : IsU32 p.ramp_start_pps
  pub ramp_end_fits : IsU32 p.ramp_end_pps

pub read_traffic-TrafficFits :
    (values : Values) (p r : TrafficProfile)
    → TrafficFits p
    → read_traffic values p ≡ good r
    → TrafficFits r
unfolding read_traffic
read_traffic-TrafficFits values p r v e =
    let (a, ea, e) = chain-good (parse_unsigned values "traffic_duration_ms" p.duration_ms) _ r e in
    let (b, eb, e) = chain-good (parse_size values "packet_size_bytes" p.packet_size_bytes) _ r e in
    let (c, ec, e) =
      chain-good (parse_u32 values "packets_per_second" p.packets_per_second) _ r e in
    let (d, ed, e) = chain-good (parse_u32 values "burst_packets" p.burst_packets) _ r e in
    let (f, ef, e) = chain-good (parse_u32 values "burst_interval_ms" p.burst_interval_ms) _ r e in
    let (g, eg, e) = chain-good (parse_u32 values "ramp_start_pps" p.ramp_start_pps) _ r e in
    let (h, eh, e) = chain-good (parse_u32 values "ramp_end_pps" p.ramp_end_pps) _ r e in
    let made : TrafficProfile = record p {
      duration_ms = a;
      packet_size_bytes = b;
      packets_per_second = c;
      burst_packets = d;
      burst_interval_ms = f;
      ramp_start_pps = g;
      ramp_end_pps = h;
    } in
    let same : made ≡ r = cc in
    subst TrafficFits same (record {
      duration_fits = parse_unsigned-IsU64 values _ _ a v.duration_fits ea;
      size_fits = parse_size-IsU64 values _ _ b v.size_fits eb;
      rate_fits = parse_u32-IsU32 values _ _ c v.rate_fits ec;
      burst_fits = parse_u32-IsU32 values _ _ d v.burst_fits ed;
      interval_fits = parse_u32-IsU32 values _ _ f v.interval_fits ef;
      ramp_start_fits = parse_u32-IsU32 values _ _ g v.ramp_start_fits eg;
      ramp_end_fits = parse_u32-IsU32 values _ _ h v.ramp_end_fits eh;
    })

module _ (double : Double) (text : DoubleText double) where
  pub record LinkFits (mode : TransportMode) (p : LinkProfile double) : Type 0 where
    pub mode_is : p.mode ≡ mode
    pub latency_fits : IsU32 p.latency_ms
    pub jitter_fits : IsU32 p.jitter_ms
    pub bandwidth_fits : IsU64 p.bandwidth_kbps
    pub limit_fits : IsU64 p.queue_limit_packets

  pub read_link-LinkFits :
      (values : Values) (mode : TransportMode) (p r : LinkProfile double)
      → LinkFits mode p
      → read_link double text values p ≡ good r
      → LinkFits mode r
  unfolding read_link
  read_link-LinkFits values mode p r v e =
      let (a, ea, e) = chain-good (parse_u32 values "latency_ms" p.latency_ms) _ r e in
      let (b, eb, e) = chain-good (parse_u32 values "jitter_ms" p.jitter_ms) _ r e in
      let (c, ec, e) =
        chain-good (parse_double double text values "loss_percent" p.loss_percent) _ r e in
      let (d, ed, e) =
        chain-good (parse_double double text values "reorder_percent" p.reorder_percent) _ r e in
      let (f, ef, e) = chain-good (parse_unsigned values "bandwidth_kbps" p.bandwidth_kbps) _ r e in
      let (g, eg, e) =
        chain-good (parse_size values "queue_limit_packets" p.queue_limit_packets) _ r e in
      let made : LinkProfile double = record p {
        latency_ms = a;
        jitter_ms = b;
        loss_percent = c;
        reorder_percent = d;
        bandwidth_kbps = f;
        queue_limit_packets = g;
      } in
      let same : made ≡ r = cc in
      subst (LinkFits mode) same (record {
        mode_is = v.mode_is;
        latency_fits = parse_u32-IsU32 values _ _ a v.latency_fits ea;
        jitter_fits = parse_u32-IsU32 values _ _ b v.jitter_fits eb;
        bandwidth_fits = parse_unsigned-IsU64 values _ _ f v.bandwidth_fits ef;
        limit_fits = parse_size-IsU64 values _ _ g v.limit_fits eg;
      })
