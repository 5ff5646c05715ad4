-- ===== src/Simulation/Config/Printed.antt =====
-- A file that is written from a table of values, one in each line.
use Prim.Native.String.{String, ◌++◌ as str_append}
use text.Mathlib.TextLemmas.{
  append_assoc as str_append_assoc, append-nil as str_append-nil, nil-append,
}
use mini_ran.Common.{
  append_assoc, append-nil, ◌∙◌, sym, ap, refl, ◌≡◌, List, [], ◌∷◌, ◌++◌, none, map, All, arith,
}
use mini_ran.Text.{is_space, split_lines}
use mini_ran.Text.Lines.{HasNo, HasNo-append, join_lines, split_lines-join_lines}
use mini_ran.Simulation.Config.{entry_of, pair, Values, assign, read_value, read_lines, good}
use mini_ran.Simulation.Config.Assignments.{IsKey, IsValue, entry_of-assignment}
use mini_ran.Text.Lines.{is_free, is_free-HasNo}

abbrev pub line_of : String × String → String
line_of (key, value) = str_append key (str_append " = " value)

abbrev pub print_values : Values → String
print_values values = join_lines (map line_of values)

-- A pair that a line can give back.
abbrev pub IsPair : String × String → Type 0
IsPair (key, value) = IsKey key × IsValue value × HasNo 10 key × HasNo 10 value

-- No key is among those before it.
abbrev pub AreNew : Values → Values → Type 0
AreNew earlier [] = Unit {0}
AreNew earlier ((key, value) ∷ values) =
    (read_value earlier key ≡ none) × AreNew (earlier ++ (key, value) ∷ []) values

entry_of-line_of :
    (key value : String) → IsPair (key, value) → entry_of (line_of (key, value)) ≡ pair key value
unfolding is_space
entry_of-line_of key value (k, v, _, _) =
    let framed = str_append key (str_append " " (str_append "=" (str_append " " value))) in
    let spaced = str_append " " value in
    ap entry_of (
      sym (
        nil-append (str_append framed "")
        ∙ str_append-nil framed
        ∙ ap (str_append key)
            (sym (str_append_assoc " " "=" spaced) ∙ sym (str_append_assoc " =" " " value))))
    ∙ entry_of-assignment "" " " " " "" key value none tt (refl, tt) (refl, tt) tt k v

line_of-HasNo : (p : String × String) → IsPair p → HasNo 10 (line_of p)
line_of-HasNo (key, value) (_, _, hk, hv) =
    HasNo-append 10 key _ hk
      (HasNo-append 10 " = " value (is_free-HasNo 10 " = " (unfold is_free in refl)) hv)

lines-HasNo : (values : Values) → All IsPair values → All (HasNo 10) (map line_of values)
lines-HasNo [] h = tt
lines-HasNo (p ∷ values) h = (line_of-HasNo p h.0, lines-HasNo values h.1)

assign_new :
    (key value : String) (values : Values)
    → read_value values key ≡ none
    → assign key value values ≡ values ++ (key, value) ∷ []
unfolding assign read_value
assign_new key value [] h = refl
assign_new key value ((k, v) ∷ values) h = ground (arith, assign_new key value values)

read_lines_pair :
    (line key value : String) (lines : List String) (values : Values)
    → entry_of line ≡ pair key value
    → read_lines (line ∷ lines) values ≡ read_lines lines (assign key value values)
unfolding read_lines
read_lines_pair line key value lines values e = ground (arith, e)

read_lines-lines :
    (earlier values : Values)
    → All IsPair values
    → AreNew earlier values
    → read_lines (map line_of values) earlier ≡ good (earlier ++ values)
unfolding read_lines
read_lines-lines earlier [] h n = ap good (sym (append-nil earlier))
read_lines-lines earlier ((key, value) ∷ values) h n =
    read_lines_pair (line_of (key, value)) key value _ earlier (entry_of-line_of key value h.0)
    ∙ ap (read_lines (map line_of values)) (assign_new key value earlier n.0)
    ∙ read_lines-lines (earlier ++ (key, value) ∷ []) values h.1 n.1
    ∙ ap good (append_assoc earlier ((key, value) ∷ []) values)

-- A table of keys and values that a line can give back, each key once and no newline in them,
-- written one in each line, is read as that table.
pub read-print_values :
    (values : Values)
    → All IsPair values
    → AreNew [] values
    → read_lines (split_lines (print_values values)) [] ≡ good values
read-print_values values h n =
    ap (λ lines. read_lines lines [])
      (split_lines-join_lines (map line_of values) (lines-HasNo values h))
    ∙ read_lines-lines [] values h n
