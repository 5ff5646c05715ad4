-- ===== src/Simulation/Config/Examples.antt =====
-- Configuration files over whole numbers in the place of `double`.
use Prim.Native.String.{String, ◌++◌}
use mini_ran.Text.{is_digit}
use mini_ran.Common.{true, List, [], ◌∷◌, ◌≡◌, refl, some, none, ◌⊎◌, ◌%◌, ◌^◌, arith}
use mini_ran.Double.{whole, DoubleText}
use mini_ran.Text.{stoull, decimal}
use mini_ran.Simulation.Scenario.{ScenarioConfig, default_config}
use mini_ran.Simulation.Config.{
  parse_unsigned, Values, read_value, read_lines, parse_u32, from_file, good, bad, invalid_line,
}
use mini_ran.Simulation.Config.Lines.{read_lines_lem, first_malformed, last_value}
use mini_ran.Simulation.Config.Fields.{parse_unsigned_accepts, parse_u32_wraps}
use mini_ran.Simulation.Config.Loaded.{IsScenario, from_file-IsScenario}
use mini_ran.Simulation.Config.Printed.{print_values}
use mini_ran.Simulation.Config.Words.{word-HasNo, is_word, word-IsValue, decimal-IsValue}
use mini_ran.Simulation.Config.Files.{values_of, IsWritable, from_file-print_values}
use mini_ran.Text.Lines.{write-HasNo}
use mini_ran.Simulation.Config.Complete.{stoull-decimal_whole}
use mini_ran.Traffic.Profile.{profile_is_valid}
use mini_ran.Transport.Link.{link_is_valid}

abbrev pub whole_text : DoubleText whole
whole_text = record { read_double = stoull; show_double = decimal }

abbrev lines : List String
lines = "ue_id = 9 # the second UE" ∷ "" ∷ "ue_id=10" ∷ []

read_lines_lem_example :
    ((table : Values) × (first_malformed lines ≡ none)
      × (read_lines lines [] ≡ good table)
      × ((key : String) → read_value table key ≡ last_value key lines))
    ⊎ ((text : String) × (first_malformed lines ≡ some text)
        × (read_lines lines [] ≡ bad (invalid_line text)))
read_lines_lem_example = read_lines_lem lines

abbrev large : Values
large = ("ue_id", "" ++ (decimal 4_294_967_303 ++ "")) ∷ []

parse_u32_wraps_example : parse_u32 large "ue_id" 7 ≡ good (4_294_967_303 % 2 ^ 32)
unfolding read_value
parse_u32_wraps_example =
    parse_u32_wraps large "ue_id" "" "" 7 4_294_967_303 refl tt (omega arith) refl

abbrev below_zero : Values
below_zero = ("traffic_duration_ms", "" ++ ("-" ++ (decimal 1 ++ "s"))) ∷ []

parse_unsigned_accepts_example :
    parse_unsigned below_zero "traffic_duration_ms" 1000 ≡ good 18_446_744_073_709_551_615
unfolding read_value is_digit
parse_unsigned_accepts_example =
    parse_unsigned_accepts below_zero "traffic_duration_ms" "" "s" true 1000 1 refl tt (omega arith)
      refl

abbrev pub plain : ScenarioConfig whole
plain = default_config whole

plain-IsScenario : IsScenario whole whole_text plain
unfolding profile_is_valid link_is_valid
plain-IsScenario = ground arith

plain-IsWritable : IsWritable whole whole_text plain
unfolding is_word
plain-IsWritable = record {
  name_value = word-IsValue "default" (λ e. cc) refl;
  name_line = word-HasNo 10 "default" (omega arith) refl;
  loss_percent_value = decimal-IsValue 0;
  loss_percent_line = write-HasNo 10 20 0 "" (omega arith) tt;
  loss_percent_reads = stoull-decimal_whole 0 (omega arith);
  reorder_percent_value = decimal-IsValue 0;
  reorder_percent_line = write-HasNo 10 20 0 "" (omega arith) tt;
  reorder_percent_reads = stoull-decimal_whole 0 (omega arith);
}

abbrev pub plain_file : String
plain_file = print_values (values_of whole whole_text plain)

from_file-print_values_example :
    from_file whole whole_text "plain.cfg" (some plain_file) ≡ good plain
from_file-print_values_example =
    from_file-print_values whole whole_text "plain.cfg" plain plain-IsScenario plain-IsWritable

pub loads_plain : (path : String) → from_file whole whole_text path (some plain_file) ≡ good plain
loads_plain path =
    from_file-print_values whole whole_text path plain plain-IsScenario plain-IsWritable

from_file-IsScenario_example : IsScenario whole whole_text plain
from_file-IsScenario_example =
    from_file-IsScenario whole whole_text "plain.cfg" (some plain_file) plain
      (loads_plain "plain.cfg")
