-- ===== src/Simulation/Summary/Rows.antt =====
-- Rows of a label and a value in a text, and how they are read back.
use Prim.Native.String.{String, ◌++◌}
use text.Mathlib.Text.{◌==◌ as str_eq}
use mini_ran.Common.{
  refl, ap, ◌∙◌, sym, All, ◌>>=◌, IsU64, if◌then◌else◌, ℕ, ◌≡◌, List, [], ◌∷◌, Option, none, some,
}
use mini_ran.Text.{is_space, stoull, split_lines, split_at}
use mini_ran.Text.Lines.{split_lines_newline, split_at_mark, HasNo-append, HasNo}
use mini_ran.Simulation.Summary.{decimal, print_rows}
use mini_ran.Text.Numbers.{stoull_lem}
use text.Mathlib.TextLemmas.{append_assoc, cons-append, append-nil}

-- The text behind the first label that is `key`.
abbrev pub behind : String → Option (String × String) → Option String → Option String
behind key none later = later
behind key (some (label, value)) later = if str_eq label key then some value else later

unfoldable pub look_up : String → List String → Option String
look_up key [] = none
look_up key (line ∷ lines) = behind key (split_at b':' line) (look_up key lines)

-- A label has no colon, and neither it nor its value has a newline.
abbrev pub IsRow : String × String → Type 0
IsRow (label, value) = HasNo b':' label × HasNo 10 label × HasNo 10 value

-- The value of the first row whose label is `key`.
abbrev pub found : String → List (String × String) → Option String → Option String
found key [] later = later
found key ((label, value) ∷ rows) later =
    if str_eq label key then some (" " ++ value) else found key rows later

-- The line of a row comes first.
pub row_lines :
    (label value rest : String)
    → IsRow (label, value)
    → split_lines (label ++ (": " ++ (value ++ ("\n" ++ rest))))
      ≡ (label ++ (": " ++ value)) ∷ split_lines rest
row_lines label value rest (colon, plain, h) =
    let line = label ++ (": " ++ value) in
    let text : label ++ (": " ++ (value ++ ("\n" ++ rest))) ≡ line ++ ("\n" ++ rest) = sym (
      append_assoc label (": " ++ value) ("\n" ++ rest)
      ∙ ap (label ++◌) (append_assoc ": " value ("\n" ++ rest))) in
    let free : HasNo 10 line =
      HasNo-append 10 label (": " ++ value) plain
        (HasNo-append 10 ": " value (refl, (refl, tt)) h) in
    ap split_lines text ∙ split_lines_newline line rest free

-- Its label and its value stand around the first colon.
pub split_at-row :
    (label value : String)
    → HasNo b':' label
    → split_at b':' (label ++ (": " ++ value)) ≡ some (label, " " ++ value)
split_at-row label value colon =
    ap (λ t. split_at b':' (label ++ t)) (cons-append ":" " " value)
    ∙ split_at_mark b':' label (" " ++ value) ":" colon refl

look_up_row :
    (key label value rest : String)
    → IsRow (label, value)
    → look_up key (split_lines (label ++ (": " ++ (value ++ ("\n" ++ rest)))))
      ≡ (if str_eq label key then some (" " ++ value) else look_up key (split_lines rest))
unfolding look_up
look_up_row key label value rest h =
    ap (look_up key) (row_lines label value rest h)
    ∙ ap (λ p. behind key p (look_up key (split_lines rest))) (split_at-row label value h.0)

pub look_up_rows :
    (key : String) (rows : List (String × String)) (rest : String)
    → All IsRow rows
    → look_up key (split_lines (print_rows rows rest))
      ≡ found key rows (look_up key (split_lines rest))
unfolding print_rows
look_up_rows key [] rest h = refl
look_up_rows key ((label, value) ∷ rows) rest h =
    look_up_row key label value (print_rows rows rest) h.0
    ∙ ap (λ later. if str_eq label key then some (" " ++ value) else later)
        (look_up_rows key rows rest h.1)

-- A counter that is read back.
abbrev pub counter : String → List String → Option ℕ
counter key lines = look_up key lines >>= stoull

pub stoull-decimal : (n : ℕ) → IsU64 n → stoull (" " ++ decimal n) ≡ some n
unfolding is_space
stoull-decimal n h =
    ap (λ t. stoull (" " ++ t)) (sym (append-nil (decimal n)))
    ∙ (stoull_lem " " "" n (refl, tt) h refl).0
