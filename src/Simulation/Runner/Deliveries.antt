-- ===== src/Simulation/Runner/Deliveries.antt =====
-- The packets and the bytes that a run delivers, against those that were generated.
use mini_ran.Nodes.Ue.{ue_is_attached, send_traffic}
use mini_ran.Nodes.Carried.{payload-IsWithin, carried-send_traffic}
use mini_ran.Nodes.Delivered.{bytes-IsTotal, IsTotal}
use mini_ran.Simulation.Runner.{
  still_detaching, has_time, still_attaching, count_bytes, generate, finished, attach_failed,
  SimulationResult, use_session, run, Traffic, send_due, exchange_traffic, ScenarioConfig,
  ask_detach, start, TrafficEvent, Random, Double, ℕ, World, advance,
}
use native.Mathlib.Nat.{zero-mul, suc-mul}
use mini_ran.Common.{
  ◌*◌, ◌^◌, ◌<◌, refl, inr, subst, inl, Bool-cases, while_keeps, while, ◌⊎◌, bind-some, false,
  length, some, ◌≡◌, true, if◌then◌else◌, ap, leb, Bool, [], arith, if_cases, add64, ◌∷◌, All, ◌+◌,
  ◌≤◌, List, ℕ,
}
use mini_ran.Core.{CoreNetwork}
use mini_ran.Simulation.Runner.Accounting.{
  account, account-advance, account-ask_detach, account-start, bounds, AreWithin,
}
use mini_ran.Nodes.Delivered.{packets-IsTotal}
use mini_ran.Traffic.Profile.{TrafficProfile}
use mini_ran.Traffic.Generator.Events.{generate-IsMade, IsMade}

module _ (weight : ℕ → ℕ) (total : CoreNetwork → ℕ) (is : IsTotal weight total) (double : Double)
    (random : Random double) where
  module _ (bound : TrafficEvent → ℕ) where
    -- What the events left may still add.
    abbrev IsCovered : ℕ → Traffic double random → Type 0
    IsCovered limit t =
        (account weight total is double random t.world + bounds weight total is bound t.events
          ≤ limit)
        × AreWithin weight total is bound t.events

    send_due-IsCovered :
        (limit since : ℕ) (es : List TrafficEvent) (w : World double random) (started : Bool)
        → account weight total is double random w + bounds weight total is bound es ≤ limit
        → AreWithin weight total is bound es
        → IsCovered limit (send_due double random since w es started)
    unfolding send_due
    send_due-IsCovered limit since [] w started h v = (h, v)
    send_due-IsCovered limit since (e ∷ es) w started h v =
        let sent = record w { ue = send_traffic w.ue e.payload w.now } in
        let grows = carried-send_traffic weight w.ue e.payload w.now (bound e) v.0 in
        if_cases (IsCovered limit) (leb (add64 since e.timestamp_ms) w.now) _ _
          (send_due-IsCovered limit since es sent (if ue_is_attached w.ue then true else started)
            (omega (arith, grows)) v.1)
          (h, v)

    exchange_traffic-IsCovered :
        (c : ScenarioConfig double) (limit since : ℕ) (t : Traffic double random)
        → IsCovered limit t
        → IsCovered limit (exchange_traffic double random c since t)
    unfolding exchange_traffic
    exchange_traffic-IsCovered c limit since t (h, v) =
        let sent = send_due double random since t.world t.events t.started in
        let (covered, within) = send_due-IsCovered limit since t.events t.world t.started h v in
        (omega (arith, account-advance weight total is double random c sent.world), within)

    -- The account of a result that is covered.
    abbrev pub IsCounted : List TrafficEvent → SimulationResult double → Type 0
    IsCounted events r =
        (r.packets_generated ≡ length events)
        × (r.bytes_generated ≡ count_bytes double random events 0)
        × (w : World double random) × (account weight total is double random w
            ≤ bounds weight total is bound events)
        × ((r.packets_delivered_to_core ≡ 0) × (r.bytes_delivered_to_core ≡ 0)
            ⊎ (r.packets_delivered_to_core ≡ w.node.core.delivered_packets)
              × (r.bytes_delivered_to_core ≡ w.node.core.delivered_bytes))

    use_session-IsCounted :
        (c : ScenarioConfig double) (events : List TrafficEvent) (fuel : ℕ)
        (w : World double random) (r : SimulationResult double)
        → account weight total is double random w ≤ 0
        → AreWithin weight total is bound events
        → use_session double random fuel c events w ≡ some r
        → IsCounted events r
    unfolding use_session finished
    use_session-IsCounted c events fuel w r h v e =
        let first : Traffic double random = record {
          world = w;
          events = events;
          started = false;
        } in
        let limit = bounds weight total is bound events in
        let (t, loops, rest) =
          bind-some
            (while fuel (has_time double random c w.now) (exchange_traffic double random c w.now)
              first)
            _ r e in
        let (covered, _) =
          while_keeps (has_time double random c w.now) (exchange_traffic double random c w.now)
            (IsCovered limit) (exchange_traffic-IsCovered c limit w.now) fuel first t
            (omega arith, v) loops in
        let asked = ask_detach double random t.world in
        let deadline = add64 asked.now c.detach_phase_budget_ms in
        let (last, ends, result) =
          bind-some
            (while fuel (still_detaching double random deadline) (advance double random c) asked) _
            r rest in
        let final =
          while_keeps (still_detaching double random deadline) (advance double random c)
            (λ s. account weight total is double random s ≤ limit)
            (λ s i. omega (arith, account-advance weight total is double random c s)) fuel asked
            last (omega (arith, account-ask_detach weight total is double random t.world)) ends in
        let same : finished double random c events t.started last ≡ r = cc in
        subst (IsCounted events) same (refl, refl, last, final, inr (refl, refl))

    pub run-IsCounted :
        (c : ScenarioConfig double) (events : List TrafficEvent) (fuel : ℕ)
        (r : SimulationResult double)
        → generate double fuel c.traffic_profile ≡ some events
        → AreWithin weight total is bound events
        → run double random fuel c ≡ some r
        → IsCounted events r
    unfolding run attach_failed
    run-IsCounted c events fuel r g v e =
        let (w, loops, result) =
          bind-some
            (while fuel (still_attaching double random c) (advance double random c)
              (start double random c))
            _ r (rw g at e) in
        let covered =
          while_keeps (still_attaching double random c) (advance double random c)
            (λ s. account weight total is double random s ≤ 0)
            (λ s i. omega (arith, account-advance weight total is double random c s)) fuel
            (start double random c) w (omega (arith, account-start weight total is double random c))
            loops in
        elim (Bool-cases (ue_is_attached w.ue)) [
          | inl joined ↦ use_session-IsCounted c events fuel w r covered v (rw joined at result)
          | inr alone ↦
              let failed : some (attach_failed double random c events w) ≡ some r =
                rw alone at result in
              let same : attach_failed double random c events w ≡ r = cc in
              subst (IsCounted events) same (refl, refl, w, omega arith, inl (refl, refl))
        ]

bounds_one :
    (es : List TrafficEvent)
    → bounds (λ size. 1) (λ core. core.delivered_packets) packets-IsTotal (λ e. 1) es ≡ length es
bounds_one [] = refl
bounds_one (e ∷ es) = omega (arith, bounds_one es)

one-AreWithin :
    (es : List TrafficEvent)
    → AreWithin (λ size. 1) (λ core. core.delivered_packets) packets-IsTotal (λ e. 1) es
one-AreWithin [] = tt
one-AreWithin (e ∷ es) = (λ ue_id session_id number now. ground arith, one-AreWithin es)

-- If a run returns a result, whatever the fuel, the link and the draws, then the packets that the
-- core counted are no more than those that the traffic generator made.
pub run_delivers_no_more :
    (double : Double) (random : Random double) (c : ScenarioConfig double) (fuel : ℕ)
    (r : SimulationResult double)
    → run double random fuel c ≡ some r
    → r.packets_delivered_to_core ≤ r.packets_generated
unfolding run
run_delivers_no_more double random c fuel r e =
    let (events, g, _) = bind-some (generate double fuel c.traffic_profile) _ r e in
    let (count, _, w, small, delivered) =
      run-IsCounted (λ size. 1) (λ core. core.delivered_packets) packets-IsTotal double random
        (λ e. 1) c events fuel r g (one-AreWithin events) e in
    elim delivered [
      | inl (nothing, _) ↦ omega arith
      | inr (packets, _) ↦ omega (arith, bounds_one events)
    ]

-- The bytes of the payloads, as `run` counts them.
abbrev payload_size : TrafficEvent → ℕ
payload_size e = length e.payload

payloads-AreWithin :
    (p : TrafficProfile) (es : List TrafficEvent)
    → p.packet_size_bytes + 28 < 2 ^ 64
    → All (IsMade p) es
    → AreWithin (λ size. size) (λ core. core.delivered_bytes) bytes-IsTotal payload_size es
payloads-AreWithin p [] h v = tt
payloads-AreWithin p (e ∷ es) h (made, v) =
    (payload-IsWithin e.payload made.1 (omega arith), payloads-AreWithin p es h v)

bounds_payloads :
    (p : TrafficProfile) (es : List TrafficEvent)
    → All (IsMade p) es
    → bounds (λ size. size) (λ core. core.delivered_bytes) bytes-IsTotal payload_size es
      ≡ length es * p.packet_size_bytes
bounds_payloads p [] v = omega (arith, zero-mul p.packet_size_bytes)
bounds_payloads p (e ∷ es) (made, v) =
    omega (arith, suc-mul (length es) p.packet_size_bytes, bounds_payloads p es v, made.0)

count_bytes-bounds :
    (double : Double) (random : Random double) (es : List TrafficEvent) (n : ℕ)
    → let sum =
        bounds (λ size. size) (λ core. core.delivered_bytes) bytes-IsTotal payload_size es in
      n + sum < 2 ^ 64 → count_bytes double random es n ≡ n + sum
count_bytes-bounds double random [] n h = omega arith
count_bytes-bounds double random (e ∷ es) n h =
    omega (arith, count_bytes-bounds double random es (add64 n (length e.payload)) (omega arith))

-- If the traffic is generated, a run returns a result, and the frame of a payload and all payloads
-- together have less than 2 ^ 64 bytes, then the bytes that the core counted are no more than those
-- generated, which are the packets generated times the packet size.
pub run_delivers_no_more_bytes :
    (double : Double) (random : Random double) (c : ScenarioConfig double)
    (events : List TrafficEvent) (fuel : ℕ) (r : SimulationResult double)
    → c.traffic_profile.packet_size_bytes + 28 < 2 ^ 64
    → length events * c.traffic_profile.packet_size_bytes < 2 ^ 64
    → generate double fuel c.traffic_profile ≡ some events
    → run double random fuel c ≡ some r
    → (r.bytes_delivered_to_core ≤ r.bytes_generated)
      × (r.bytes_generated ≡ r.packets_generated * c.traffic_profile.packet_size_bytes)
run_delivers_no_more_bytes double random c events fuel r small fits g e =
    let p = c.traffic_profile in
    let made = generate-IsMade double fuel p events g in
    let (count, bytes, w, covered, delivered) =
      run-IsCounted (λ size. size) (λ core. core.delivered_bytes) bytes-IsTotal double random
        payload_size c events fuel r g (payloads-AreWithin p events small made) e in
    let sum = bounds_payloads p events made in
    let product : r.packets_generated * p.packet_size_bytes ≡ length events * p.packet_size_bytes =
      ap (λ n. n * p.packet_size_bytes) count in
    let counted = count_bytes-bounds double random events 0 (omega (arith, sum)) in
    elim delivered [
      | inl (_, nothing) ↦ omega (arith, sum, product, counted)
      | inr (_, total) ↦ omega (arith, sum, product, counted)
    ]
