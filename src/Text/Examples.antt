-- ===== src/Text/Examples.antt =====
-- A number in a text.
use mini_ran.Common.{none, ◌≡◌, refl, some}
use mini_ran.Text.{
  scan, keep_before, is_digit, magnitude, trim_right, is_space, trim_left, stoull, trim,
}

reads_minus_one : stoull " -1" ≡ some 18_446_744_073_709_551_615
unfolding stoull trim_left is_space magnitude scan is_digit
reads_minus_one = refl

refuses_word : stoull "fast" ≡ none
unfolding stoull trim_left is_space magnitude scan is_digit
refuses_word = refl

trims : trim "  a b\t" ≡ "a b"
unfolding trim trim_left trim_right keep_before is_space
trims = refl
