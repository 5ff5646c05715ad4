-- ===== src/Simulation/Summary.antt =====
-- src/simulation/simulation_result.cpp: the text of a result.
pub mod Rows
pub mod Readers
pub mod Reading
use Prim.Native.String.{String, ◌++◌}
use mini_ran.Common.{List, [], ◌∷◌, Bool, true, false}
use mini_ran.Double.{Double, DoubleText}
use mini_ran.Text.{decimal}
use mini_ran.Protocol.Message.{state_to_string}
use mini_ran.Simulation.Scenario.{SimulationResult}

abbrev pub yes_or_no : Bool → String
yes_or_no true = "yes"
yes_or_no false = "no"

-- The lines "label: value" in front of `rest`.
unfoldable pub print_rows : List (String × String) → String → String
print_rows [] rest = rest
print_rows ((label, value) ∷ rows) rest =
    label ++ (": " ++ (value ++ ("\n" ++ print_rows rows rest)))

unfoldable pub print_notes : List String → String
print_notes [] = ""
print_notes (note ∷ notes) = "  - " ++ (note ++ ("\n" ++ print_notes notes))

abbrev pub notes_part : List String → String
notes_part [] = ""
notes_part (note ∷ notes) = "Notes:\n" ++ print_notes (note ∷ notes)

module _ (double : Double) (text : DoubleText double) where
  abbrev pub rows_of : SimulationResult double → List (String × String)
  rows_of r =
      ("Scenario", r.scenario_name)
      ∷ ("Duration [ms]", decimal r.total_duration_ms)
      ∷ ("Attach succeeded", yes_or_no r.attach_succeeded)
      ∷ ("Traffic started", yes_or_no r.traffic_started)
      ∷ ("Detach succeeded", yes_or_no r.detach_succeeded)
      ∷ ("Final UE state", state_to_string r.final_ue_state)
      ∷ ("Packets generated", decimal r.packets_generated)
      ∷ ("Bytes generated", decimal r.bytes_generated)
      ∷ ("Packets delivered to core", decimal r.packets_delivered_to_core)
      ∷ ("Bytes delivered to core", decimal r.bytes_delivered_to_core)
      ∷ ("Packets dropped in network", decimal r.packets_dropped_in_network)
      ∷ ("Packets delivered by network", decimal r.packets_delivered_by_network)
      ∷ ("Active sessions at end", decimal r.active_sessions_at_end)
      ∷ []

  unfoldable pub summary : SimulationResult double → String
  summary r = print_rows (rows_of r) (
      print_rows (("Throughput [Mbps]", text.show_double r.throughput_mbps) ∷ [])
        (notes_part r.notes))
