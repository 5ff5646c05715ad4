-- ===== src/Text.antt =====
-- Texts, as the configuration and the summary use them: `trim` of src/simulation/scenario_config.cpp
-- and what the program calls of `std::string`, `std::getline`, `std::stoull` and stream output. A
-- `std::string` is a String that has one character for each byte.
pub mod Spaces
pub mod Numbers
pub mod Lines
mod Examples
use Prim.Native.String
use Prim.Native.String.{String, ◌++◌}
use Prim.Native.Char.{Char, code}
use mini_ran.Common.{
  ℕ, zero, suc, ◌+◌, ◌-◌, ◌*◌, ◌/◌, ◌%◌, ◌^◌, Bool, true, false, ◌&&◌, ◌||◌, Option, none, some,
  List, [], ◌∷◌, ltb, leb, ◌==◌, if◌then◌else◌,
}

-- `std::isspace` in the "C" locale.
unfoldable pub is_space : Char → Bool
is_space c = code c == 32 || leb 9 (code c) && leb (code c) 13

-- The two calls of `erase`.
unfoldable pub trim_left : String → String
trim_left String.[] = String.[]
trim_left (String.◌∷◌ c s) =
    let shorter = trim_left s in if is_space c then shorter else String.◌∷◌ c s

-- A character in front of what is left when the end is trimmed.
unfoldable pub keep_before : Char → String → String
keep_before c String.[] = if is_space c then String.[] else String.◌∷◌ c String.[]
keep_before c (String.◌∷◌ d s) = String.◌∷◌ c (String.◌∷◌ d s)

unfoldable pub trim_right : String → String
trim_right String.[] = String.[]
trim_right (String.◌∷◌ c s) = keep_before c (trim_right s)

unfoldable pub trim : String → String
trim value = trim_right (trim_left value)

abbrev pub is_empty : String → Bool
is_empty String.[] = true
is_empty (String.◌∷◌ c s) = false

-- `line.substr(0, line.find(mark))`, or the whole line.
unfoldable pub before : ℕ → String → String
before mark String.[] = String.[]
before mark (String.◌∷◌ c s) =
    let kept = String.◌∷◌ c (before mark s) in if code c == mark then String.[] else kept

-- The texts around the first `mark`, if there is one.
abbrev pub in_front : Char → Option (String × String) → Option (String × String)
in_front c none = none
in_front c (some (left, right)) = some (String.◌∷◌ c left, right)

unfoldable pub split_at : ℕ → String → Option (String × String)
split_at mark String.[] = none
split_at mark (String.◌∷◌ c s) =
    let later = in_front c (split_at mark s) in
    if code c == mark then some (String.[], s) else later

-- The lines that `std::getline` reads: a newline ends a line, and so does the end after some text.
abbrev pub join_line : Char → List String → List String
join_line c [] = String.◌∷◌ c String.[] ∷ []
join_line c (line ∷ lines) = String.◌∷◌ c line ∷ lines

unfoldable pub split_lines : String → List String
split_lines String.[] = []
split_lines (String.◌∷◌ c s) =
    let lines = split_lines s in if code c == 10 then String.[] ∷ lines else join_line c lines

unfoldable pub is_digit : Char → Bool
is_digit c = leb 48 (code c) && leb (code c) 57

-- The number that the digits at the front spell, behind `n`.
unfoldable pub scan : ℕ → String → ℕ
scan n String.[] = n
scan n (String.◌∷◌ c s) =
    let value = scan (n * 10 + (code c - 48)) s in if is_digit c then value else n

abbrev pub starts_digit : String → Bool
starts_digit String.[] = false
starts_digit (String.◌∷◌ c s) = is_digit c

-- What follows the sign. A value beyond 64 bits is out of range, also behind a minus sign.
unfoldable pub magnitude : Bool → String → Option ℕ
magnitude negative s =
    let n = scan 0 s in
    if starts_digit s && ltb n (2 ^ 64)
    then some (if negative then (2 ^ 64 - n) % 2 ^ 64 else n)
    else none

-- `std::stoull` and, where `unsigned long` has 64 bits, `std::stoul`; `none` for an exception. What
-- follows the digits is ignored.
abbrev pub signed : String → Option ℕ
signed String.[] = none
signed (String.◌∷◌ c s) =
    if code c == b'-'
    then magnitude true s
    else if code c == b'+'
    then magnitude false s
    else magnitude false (String.◌∷◌ c s)

unfoldable pub stoull : String → Option ℕ
stoull s = signed (trim_left s)

-- The character of a digit.
unfoldable pub digit : ℕ → Char
digit n = String.char_at "0123456789" n

-- At most `rounds` digits of a number, in front of `out`.
unfoldable pub write : ℕ → ℕ → String → String
write zero n out = out
write (suc rounds) n out =
    let last = String.◌∷◌ (digit (n % 10)) out in
    elim (n / 10 == 0) [ true ↦ last | false ↦ write rounds (n / 10) last ]

-- Stream output of an unsigned number of 64 bits, which has at most 20 digits.
abbrev pub decimal : ℕ → String
decimal n = write 20 n ""
