-- ===== src/Simulation/Examples.antt =====
-- A scenario over whole numbers and a generator of draws that does not move.
use Prim.Native.String.{[], ◌++◌}
use mini_ran.Simulation.Config.Examples.{whole_text}
use mini_ran.Common.{[], ◌∷◌, length, true, ◌≤◌, ◌*◌, ◌≡◌, refl, List, some, arith}
use mini_ran.Simulation.Runner.{start, advance, World, run}
use mini_ran.Transport.Network.{Random}
use mini_ran.Simulation.Scenario.{empty_result, default_config, ScenarioConfig, SimulationResult}
use mini_ran.Traffic.Profile.{default_profile, TrafficEvent, profile_is_valid}
use mini_ran.Double.{whole}
use mini_ran.Traffic.Generator.{generate}
use mini_ran.Simulation.Runner.Termination.{run_returns, IsCoherent}
use mini_ran.Traffic.Generator.Pace.{cbr_generates, periodic, length-periodic}
use mini_ran.Simulation.Runner.Reachable.{starts, advances, reachable-IsWorld, Reachable, IsWorld}
use mini_ran.Double.{whole-IsExact}
use mini_ran.Simulation.Runner.Report.{run_reports, IsReport}
use mini_ran.Simulation.Summary.Reading.{summary_reads, CountersFit, IsPlain, decimal-HasNo}
use mini_ran.Text.{split_lines}
use mini_ran.Simulation.Runner.Deliveries.{run_delivers_no_more, run_delivers_no_more_bytes}
use mini_ran.Simulation.Summary.{summary}
use mini_ran.Protocol.Message.{released}
use mini_ran.Simulation.Summary.Readers.{answer, state, lines_behind}
use mini_ran.Simulation.Summary.Rows.{counter, look_up}
use mini_ran.Text.Lines.{is_free, is_free-HasNo}

abbrev pub still : Random whole
still = record {
  Generator = Unit {0};
  seeded = λ seed. tt;
  percent = λ g. (50, g);
  between = λ low high g. (low, g);
}

abbrev plain : ScenarioConfig whole
plain = default_config whole

pub generated :
    (es : List TrafficEvent) × (generate whole 3_000 plain.traffic_profile ≡ some es)
    × (length es ≡ 10)
unfolding profile_is_valid
generated = (
  periodic 128 100 0 10,
  cbr_generates whole default_profile 100 10 3_000 whole-IsExact refl refl refl (omega arith)
      (omega arith) (omega arith) (omega arith),
  length-periodic 128 100 0 10,
)

run_returns_example :
    (r : SimulationResult whole) × (run whole still 3_000 plain ≡ some r) × IsCoherent whole plain r
run_returns_example =
    run_returns whole still plain generated.0 3_000 generated.1 (ground arith) (omega arith)

reachable-IsWorld_example : IsWorld plain (advance whole still plain (start whole still plain))
reachable-IsWorld_example =
    reachable-IsWorld whole still plain (advance whole still plain (start whole still plain))
      (omega arith) (omega arith) (advances (start whole still plain) starts)

-- The result of that scenario.
pub returned :
    (r : SimulationResult whole) × (run whole still 3_000 plain ≡ some r) × IsCoherent whole plain r
returned = run_returns whole still plain generated.0 3_000 generated.1 (ground arith) (omega arith)

run_reports_example : (w : World whole still) × Reachable plain w × IsReport returned.0 w
run_reports_example = run_reports whole still plain 3_000 returned.0 returned.1

run_delivers_no_more_example : returned.0.packets_delivered_to_core ≤ returned.0.packets_generated
run_delivers_no_more_example = run_delivers_no_more whole still plain 3_000 returned.0 returned.1

run_delivers_no_more_bytes_example :
    (returned.0.bytes_delivered_to_core ≤ returned.0.bytes_generated)
    × (returned.0.bytes_generated
        ≡ returned.0.packets_generated * plain.traffic_profile.packet_size_bytes)
run_delivers_no_more_bytes_example =
    run_delivers_no_more_bytes whole still plain generated.0 3_000 returned.0 (omega arith)
      (omega (arith, generated.2)) generated.1 returned.1

abbrev clean : SimulationResult whole
clean = record (empty_result whole) {
  scenario_name = "default";
  total_duration_ms = 1_140;
  attach_succeeded = true;
  traffic_started = true;
  detach_succeeded = true;
  final_ue_state = released;
  packets_generated = 10;
  bytes_generated = 1_280;
  packets_delivered_to_core = 10;
  bytes_delivered_to_core = 1_280;
  packets_delivered_by_network = 24;
  notes = "first note" ∷ "second: with a colon" ∷ [];
}

clean-CountersFit : CountersFit clean
clean-CountersFit = omega arith

clean-IsPlain : IsPlain whole_text clean
unfolding is_free
clean-IsPlain = record {
  name_plain = is_free-HasNo 10 "default" refl;
  throughput_plain = decimal-HasNo 0;
  notes_plain =
      (is_free-HasNo 10 "first note" refl, (is_free-HasNo 10 "second: with a colon" refl, tt));
}

summary_reads_example :
    let lines = split_lines (summary whole whole_text clean) in
    (look_up "Scenario" lines ≡ some " default")
    × (counter "Duration [ms]" lines ≡ some 1_140)
    × (answer "Attach succeeded" lines ≡ some true)
    × (answer "Traffic started" lines ≡ some true)
    × (answer "Detach succeeded" lines ≡ some true)
    × (state "Final UE state" lines ≡ some released)
    × (counter "Packets generated" lines ≡ some 10)
    × (counter "Bytes generated" lines ≡ some 1_280)
    × (counter "Packets delivered to core" lines ≡ some 10)
    × (counter "Bytes delivered to core" lines ≡ some 1_280)
    × (counter "Packets dropped in network" lines ≡ some 0)
    × (counter "Packets delivered by network" lines ≡ some 24)
    × (counter "Active sessions at end" lines ≡ some 0)
    × (look_up "Throughput [Mbps]" lines
        ≡ some (" " ++ whole_text.show_double clean.throughput_mbps))
    × (lines_behind "Notes:" lines ≡ some ("  - first note" ∷ "  - second: with a colon" ∷ []))
summary_reads_example = summary_reads whole whole_text clean clean-IsPlain clean-CountersFit
