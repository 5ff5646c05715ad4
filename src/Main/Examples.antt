-- ===== src/Main/Examples.antt =====
-- The command line on a file with the default scenario, which runs over whole numbers and draws that
-- do not move.
use Prim.Native.String.{String}
use mini_ran.Common.{[], ◌∷◌, ◌≡◌, refl, some, Option, arith}
use mini_ran.Double.{whole}
use mini_ran.Simulation.Config.Examples.{whole_text, plain, plain_file, loads_plain}
use mini_ran.Main.{SimulationResult, main, completed}
use mini_ran.Main.Outcomes.{main-IsExplained, IsExplained, main_returns, main_refuses}
use mini_ran.Simulation.Examples.{generated, still}
use mini_ran.Simulation.Runner.Termination.{IsCoherent}
use mini_ran.Text.{
  split_lines, split_lines, split_lines, split_lines, split_lines, split_lines, split_lines,
  split_lines, split_lines, split_lines, split_lines, split_lines, split_lines, split_lines,
  split_lines, split_lines, split_lines, split_lines, split_lines, split_lines, split_lines,
  split_lines, split_lines, split_lines, split_lines,
}

-- Each path names the file.
abbrev files : String → Option String
files path = some plain_file

main_returns_example :
    (r : SimulationResult whole) × IsCoherent whole plain r
    × (main whole still whole_text 3_000 files ("plain.cfg" ∷ [])
        ≡ some (completed whole still whole_text r))
main_returns_example =
    main_returns whole still whole_text 3_000 files "plain.cfg" [] plain generated.0
      (loads_plain "plain.cfg") generated.1 (omega arith) (omega arith)

abbrev wrong_file : String → Option String
wrong_file path = some "ue_id 9\n"

main_refuses_example :
    main whole still whole_text 0 wrong_file ("wrong.cfg" ∷ [])
    ≡ some (record { status = 2; out = ""; err = "Config error: Invalid config line: ue_id 9\n" })
unfolding mini_ran.Simulation.Config.Lines.first_malformed mini_ran.Text.split_lines
    mini_ran.Simulation.Config.entry_of mini_ran.Text.trim mini_ran.Text.trim_right
    mini_ran.Text.trim_left mini_ran.Text.before mini_ran.Text.is_space mini_ran.Text.keep_before
    mini_ran.Text.split_at
main_refuses_example =
    main_refuses whole still whole_text 0 wrong_file "wrong.cfg" "ue_id 9\n" "ue_id 9" [] refl refl

plain_returns :
    (r : SimulationResult whole) × IsCoherent whole plain r
    × (main whole still whole_text 3_000 files ("plain.cfg" ∷ [])
        ≡ some (completed whole still whole_text r))
plain_returns =
    main_returns whole still whole_text 3_000 files "plain.cfg" [] plain generated.0
      (loads_plain "plain.cfg") generated.1 (omega arith) (omega arith)

main-IsExplained_example :
    IsExplained whole still whole_text files
      ("plain.cfg" ∷ [])
      (completed whole still whole_text plain_returns.0)
main-IsExplained_example =
    main-IsExplained whole still whole_text 3_000 files ("plain.cfg" ∷ [])
      (completed whole still whole_text plain_returns.0) plain_returns.2
