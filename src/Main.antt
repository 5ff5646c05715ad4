-- ===== src/Main.antt =====
-- src/main.cpp: the command line. What the program reads and writes are values: the contents of the
-- files, and an exit status with the two output texts.
pub mod Outcomes
mod Examples
use Prim.Native.String.{String, ◌++◌}
use mini_ran.Common.{ℕ, List, [], ◌∷◌, Option, some, ◌>>=◌, ◌&&◌, if◌then◌else◌}
use mini_ran.Double.{Double, DoubleText}
use mini_ran.Transport.Network.{Random}
use mini_ran.Simulation.Scenario.{ScenarioConfig, SimulationResult}
use mini_ran.Simulation.Config.{
  ConfigError, cannot_open, invalid_line, invalid_transport_mode, invalid_traffic_pattern,
  invalid_unsigned, invalid_u32, invalid_size, invalid_double, invalid_link, invalid_traffic,
  zero_step, Result, good, bad, from_file,
}
use mini_ran.Simulation.Runner.{run}
use mini_ran.Simulation.Summary.{summary}

-- The texts that `fromFile` stores in `error`.
unfoldable pub error_text : ConfigError → String
error_text (cannot_open path) = "Cannot open config file: " ++ path
error_text (invalid_line line) = "Invalid config line: " ++ line
error_text (invalid_transport_mode value) = "Invalid transport_mode: " ++ value
error_text (invalid_traffic_pattern value) = "Invalid traffic_pattern: " ++ value
error_text (invalid_unsigned key) = "Invalid unsigned integer value for key: " ++ key
error_text (invalid_u32 key) = "Invalid uint32 value for key: " ++ key
error_text (invalid_size key) = "Invalid size value for key: " ++ key
error_text (invalid_double key) = "Invalid double value for key: " ++ key
error_text invalid_link = "Invalid LinkProfile values."
error_text invalid_traffic = "Invalid TrafficProfile values."
error_text zero_step = "step_ms must be > 0."

pub record Outcome : Type 0 where
  pub status : ℕ
  pub out : String
  pub err : String

module _ (double : Double) (random : Random double) (text : DoubleText double) where
  abbrev pub completed : SimulationResult double → Outcome
  completed r = record {
    status = if r.attach_succeeded && r.detach_succeeded then 0 else 3;
    out = summary double text r;
    err = "";
  }

  abbrev pub run_config : ℕ → Result (ScenarioConfig double) → Option Outcome
  run_config fuel (bad e) =
      some (record { status = 2; out = ""; err = "Config error: " ++ (error_text e ++ "\n") })
  run_config fuel (good c) = do r ← run double random fuel c; some (completed r)

  -- `main` with the arguments behind the program's name; `files` gives the content of a file that
  -- can be opened. `none` only where the fuel is used up.
  unfoldable pub main : ℕ → (String → Option String) → List String → Option Outcome
  main fuel files [] =
      some (record { status = 1; out = ""; err = "Usage: miniran_cli <scenario-config>\n" })
  main fuel files (path ∷ arguments) = run_config fuel (from_file double text path (files path))
