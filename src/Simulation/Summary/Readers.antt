-- ===== src/Simulation/Summary/Readers.antt =====
-- How a reader of the text of a result takes its answers, the state of the UE and the notes.
use Prim.Native.String.{String, ◌++◌}
use text.Mathlib.Text.{◌==◌ as str_eq}
use text.Mathlib.TextEquality.{eq_iff}
use text.Mathlib.TextLemmas.{append_assoc, cons-append}
use mini_ran.Common.{
  refl, ap, ◌∙◌, sym, All, ◌>>=◌, if◌then◌else◌, ◌≡◌, List, [], ◌∷◌, map, Option, none, some, Bool,
  true, false, Bool-cases, inl, inr,
}
use mini_ran.Text.{split_lines, split_at}
use mini_ran.Text.Lines.{split_lines_newline, HasNo-append, HasNo, is_free, is_free-HasNo}
use mini_ran.Protocol.Message.{
  rejected, released, detaching, attached, attaching, idle, state_to_string, SessionState,
}
use mini_ran.Simulation.Summary.{print_rows, print_notes, notes_part, yes_or_no}
use mini_ran.Simulation.Summary.Rows.{look_up, IsRow, row_lines, split_at-row}

-- The answer behind a label.
abbrev pub as_answer : String → Option Bool
as_answer value =
    if str_eq value " yes" then some true else if str_eq value " no" then some false else none

abbrev pub answer : String → List String → Option Bool
answer key lines = look_up key lines >>= as_answer

-- The state behind a label.
abbrev pub as_state : String → Option SessionState
as_state value =
    if str_eq value " Idle"
    then some idle
    else if str_eq value " Attaching"
    then some attaching
    else if str_eq value " Attached"
    then some attached
    else if str_eq value " Detaching"
    then some detaching
    else if str_eq value " Released"
    then some released
    else if str_eq value " Rejected"
    then some rejected
    else none

abbrev pub state : String → List String → Option SessionState
state key lines = look_up key lines >>= as_state

-- The lines behind the first that is `heading`.
unfoldable pub lines_behind : String → List String → Option (List String)
lines_behind heading [] = none
lines_behind heading (line ∷ lines) =
    let later = lines_behind heading lines in if str_eq line heading then some lines else later

-- What notes look like: none without a note, else a line for each.
abbrev pub listed : List String → Option (List String)
listed [] = none
listed (note ∷ notes) = some (map (λ t. "  - " ++ t) (note ∷ notes))

pub as_answer-yes_or_no : (b : Bool) → as_answer (" " ++ yes_or_no b) ≡ some b
as_answer-yes_or_no true = refl
as_answer-yes_or_no false = refl

pub as_state-state_to_string : (s : SessionState) → as_state (" " ++ state_to_string s) ≡ some s
as_state-state_to_string idle = refl
as_state-state_to_string attaching = refl
as_state-state_to_string attached = refl
as_state-state_to_string detaching = refl
as_state-state_to_string released = refl
as_state-state_to_string rejected = refl

-- The line of a row is not the heading of the notes, which has nothing behind its colon.
row_no_heading :
    (label value : String)
    → IsRow (label, value)
    → str_eq (label ++ (": " ++ value)) "Notes:" ≡ false
unfolding split_at
row_no_heading label value h = elim (Bool-cases (str_eq (label ++ (": " ++ value)) "Notes:")) [
  | inl same ↦
      let parts : split_at b':' "Notes:" ≡ some (label, " " ++ value) =
        ap (split_at b':') (sym ((eq_iff _ _).0 same)) ∙ split_at-row label value h.0 in
      let space : " " ++ value ≡ String.◌∷◌ " " ("" ++ value) = cons-append " " "" value in cc
  | inr other ↦ other
]

pub lines_behind-print_rows :
    (rows : List (String × String)) (rest : String)
    → All IsRow rows
    → lines_behind "Notes:" (split_lines (print_rows rows rest))
      ≡ lines_behind "Notes:" (split_lines rest)
unfolding print_rows lines_behind
lines_behind-print_rows [] rest h = refl
lines_behind-print_rows ((label, value) ∷ rows) rest h =
    ap (lines_behind "Notes:") (row_lines label value (print_rows rows rest) h.0)
    ∙ rw (row_no_heading label value h.0) (lines_behind-print_rows rows rest h.1)

note_lines :
    (notes : List String)
    → All (HasNo 10) notes
    → split_lines (print_notes notes) ≡ map (λ t. "  - " ++ t) notes
unfolding print_notes split_lines is_free
note_lines [] h = refl
note_lines (note ∷ notes) h =
    ap split_lines (sym (append_assoc "  - " note ("\n" ++ print_notes notes)))
    ∙ split_lines_newline ("  - " ++ note) (print_notes notes)
        (HasNo-append 10 "  - " note (is_free-HasNo 10 "  - " refl) h.0)
    ∙ ap (λ lines. ("  - " ++ note) ∷ lines) (note_lines notes h.1)

pub lines_behind-notes_part :
    (notes : List String)
    → All (HasNo 10) notes
    → lines_behind "Notes:" (split_lines (notes_part notes)) ≡ listed notes
unfolding lines_behind split_lines is_free
lines_behind-notes_part [] h = refl
lines_behind-notes_part (note ∷ notes) h =
    let heading : "Notes:\n" ++ print_notes (note ∷ notes)
        ≡ "Notes:" ++ ("\n" ++ print_notes (note ∷ notes)) =
      append_assoc "Notes:" "\n" (print_notes (note ∷ notes)) in
    ap (λ t. lines_behind "Notes:" (split_lines t)) heading
    ∙ ap (lines_behind "Notes:")
        (split_lines_newline "Notes:" (print_notes (note ∷ notes)) (is_free-HasNo 10 "Notes:" refl))
    ∙ ap some (note_lines (note ∷ notes) h)
