-- ===== src/Simulation/Config/Lines.antt =====
-- What the lines of a file assign.
use Prim.Native.String.{String}
use text.Mathlib.Text.{◌==◌ as str_eq}
use text.Mathlib.TextEquality.{eq_iff}
use mini_ran.Common.{
  ◌≡◌, refl, ◌∙◌, ap, sym, Option, some, none, inl, inr, ◌⊎◌, List, [], ◌∷◌, arith, if◌then◌else◌,
}
use mini_ran.Simulation.Config.{
  Entry, Values, read_value, assign, entry_of, read_lines, good, bad, invalid_line, blank, pair,
  malformed,
}

pub read_value-assign :
    (k j v : String) (values : Values)
    → read_value (assign k v values) j ≡ (if str_eq k j then some v else read_value values j)
unfolding read_value assign
read_value-assign k j v [] = refl
read_value-assign k j v ((i, w) ∷ values) =
    ground (arith, eq_iff k j, eq_iff i k, eq_iff i j, read_value-assign k j v values)

Entry-cases :
    (e : Entry)
    → (e ≡ blank)
      ⊎ ((k : String) × (v : String) × (e ≡ pair k v))
      ⊎ ((t : String) × (e ≡ malformed t))
Entry-cases blank = inl refl
Entry-cases (pair k v) = inr (inl (k, v, refl))
Entry-cases (malformed t) = inr (inr (t, refl))

-- The first line that is no assignment, as it was trimmed.
unfoldable pub first_malformed : List String → Option String
first_malformed [] = none
first_malformed (line ∷ lines) = elim (entry_of line) [
  | malformed text ↦ some text
  | _ ↦ first_malformed lines
]

-- What a line assigns to a key.
abbrev pub value_in : String → Entry → Option String
value_in key (pair k v) = if str_eq k key then some v else none
value_in key blank = none
value_in key (malformed text) = none

abbrev pub or_else : Option String → Option String → Option String
or_else none o = o
or_else (some v) o = some v

-- What the last line that assigns to the key assigns to it.
unfoldable pub last_value : String → List String → Option String
last_value key [] = none
last_value key (line ∷ lines) = or_else (last_value key lines) (value_in key (entry_of line))

or_else_assoc : (a b c : Option String) → or_else (or_else a b) c ≡ or_else a (or_else b c)
or_else_assoc none b c = refl
or_else_assoc (some v) b c = refl

read_value-value_in :
    (k v key : String) (values : Values)
    → read_value (assign k v values) key ≡ or_else (value_in key (pair k v)) (read_value values key)
read_value-value_in k v key values = read_value-assign k key v values ∙ ground arith

-- From a table on: the lines are read to the end, or to the first that is malformed.
read_lines_from :
    (lines : List String) (values : Values)
    → ((table : Values) × (first_malformed lines ≡ none)
        × (read_lines lines values ≡ good table)
        × ((key : String)
            → read_value table key ≡ or_else (last_value key lines) (read_value values key)))
      ⊎ ((text : String) × (first_malformed lines ≡ some text)
          × (read_lines lines values ≡ bad (invalid_line text)))
unfolding read_lines first_malformed last_value
read_lines_from [] values = inl (values, refl, refl, λ key. refl)
read_lines_from (line ∷ lines) values = elim (Entry-cases (entry_of line)) [
  | inl e ↦ elim (read_lines_from lines values) [
    | inl (table, f, r, means) ↦ inl (
      table,
      ground (arith, e, f),
      ground (arith, e, r),
      λ key.
          means key
          ∙ ground (arith, e, or_else_assoc (last_value key lines) none (read_value values key)),
    )
    | inr (text, f, r) ↦ inr (text, ground (arith, e, f), ground (arith, e, r))
  ]
  | inr (inl (k, v, e)) ↦ elim (read_lines_from lines (assign k v values)) [
    | inl (table, f, r, means) ↦ inl (
      table,
      ground (arith, e, f),
      ground (arith, e, r),
      λ key.
          means key
          ∙ ap (or_else (last_value key lines)) (read_value-value_in k v key values)
          ∙ sym (
              or_else_assoc (last_value key lines) (value_in key (pair k v))
                (read_value values key))
          ∙ ap
              (λ x.
                or_else (or_else (last_value key lines) (value_in key x)) (read_value values key))
              (sym e),
    )
    | inr (text, f, r) ↦ inr (text, ground (arith, e, f), ground (arith, e, r))
  ]
  | inr (inr (t, e)) ↦ inr (t, ground (arith, e), ground (arith, e))
]

-- The loop over any lines, read one by one in a specification that keeps no table, has one of two
-- outcomes. No line is malformed, and the table holds for each key what the last line that assigns
-- to the key assigns to it, or nothing. Or the result is the error of the first malformed line, as
-- it was trimmed.
pub read_lines_lem :
    (lines : List String)
    → ((table : Values) × (first_malformed lines ≡ none)
        × (read_lines lines [] ≡ good table)
        × ((key : String) → read_value table key ≡ last_value key lines))
      ⊎ ((text : String) × (first_malformed lines ≡ some text)
          × (read_lines lines [] ≡ bad (invalid_line text)))
unfolding read_value
read_lines_lem lines = elim (read_lines_from lines []) [
  | inl (table, f, r, means) ↦ inl (table, f, r, λ key. means key ∙ or_none (last_value key lines))
  | inr refused ↦ inr refused
]
  where
    or_none : (o : Option String) → or_else o none ≡ o
    or_none none = refl
    or_none (some v) = refl
