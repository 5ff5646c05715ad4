-- ===== src/Simulation/Config/Assignments.antt =====
-- Lines that assign a value to a key, and files of such lines.
use Prim.Native.String.{String, ◌++◌}
use text.Mathlib.TextLemmas.{
  nil-append, cons-append, append-nil, append_assoc, append-ne-nil_of_right_ne-nil,
}
use mini_ran.Text.{trim, before, split_at, is_empty}
use mini_ran.Text.Spaces.{
  IsBlank, StartsBare, EndsBare, trim_framed, StartsBare-append, EndsBare-append,
}
use mini_ran.Text.Lines.{
  HasNo, HasNo-append, IsBlank-HasNo, before_mark, before-HasNo, split_at_mark,
}
use mini_ran.Simulation.Config.{Option, entry_of, pair}
use mini_ran.Common.{sym, false, refl, ◌∙◌, ap, arith, none, some, ◌≡◌, ◌≢◌, Option}
use mini_ran.Text.Lines.{is_free, is_free-HasNo}

-- A text that a line can give back as a value: not empty, with no white space at its ends and no
-- comment in it.
pub record IsValue (s : String) : Type 0 where
  pub not_empty : s ≢ ""
  pub starts_bare : StartsBare s
  pub ends_bare : EndsBare s
  pub no_hash : HasNo b'#' s

-- A key has no equals sign either.
pub record IsKey (s : String) : Type 0 where
  pub value : IsValue s
  pub no_equals : HasNo b'=' s

abbrev pub comment_of : Option String → String
comment_of none = ""
comment_of (some text) = "#" ++ text

before-comment :
    (s : String) (comment : Option String)
    → HasNo b'#' s
    → before b'#' (s ++ comment_of comment) ≡ s
before-comment s none h = ap (before b'#') (append-nil s) ∙ before-HasNo b'#' s h
before-comment s (some text) h =
    ap (λ t. before b'#' (s ++ t)) (cons-append "#" "" text)
    ∙ before_mark b'#' s ("" ++ text) "#" h refl

module _ (a b c d key value : String) where
  abbrev assignment : String
  assignment = key ++ (b ++ ("=" ++ (c ++ value)))

  module _ (hb : IsBlank b) (hc : IsBlank c) (k : IsKey key) (v : IsValue value) where
    assignment-HasNo : HasNo b'#' assignment
    assignment-HasNo =
        let free = λ (s : String) (h : IsBlank s). IsBlank-HasNo b'#' s (omega arith) h in
        let right = HasNo-append b'#' c value (free c hc) v.no_hash in
        HasNo-append b'#' key _ k.value.no_hash (
          HasNo-append b'#' b _ (free b hb) (
            HasNo-append b'#' "=" (c ++ value) (is_free-HasNo b'#' "=" (unfold is_free in refl))
              right))

    assignment-EndsBare : EndsBare assignment
    assignment-EndsBare =
        let none_left = λ (s t : String) (n : t ≢ ""). append-ne-nil_of_right_ne-nil s n in
        let right = none_left c value v.not_empty in
        let marked = none_left "=" (c ++ value) right in
        EndsBare-append key _ (none_left b _ marked) (
          EndsBare-append b _ marked
            (EndsBare-append "=" _ right (EndsBare-append c value v.not_empty v.ends_bare)))

    split_at-assignment : split_at b'=' assignment ≡ some (key ++ b, c ++ value)
    split_at-assignment =
        ap (split_at b'=') (
          sym (append_assoc key b ("=" ++ (c ++ value)))
          ∙ ap (λ t. (key ++ b) ++ t) (cons-append "=" "" (c ++ value)))
        ∙ split_at_mark b'=' (key ++ b) ("" ++ (c ++ value)) "="
            (HasNo-append b'=' key b k.no_equals (IsBlank-HasNo b'=' b (omega arith) hb)) refl
        ∙ ap (λ t. some (key ++ b, t)) (nil-append (c ++ value))

    assignment-filled : is_empty assignment ≡ false
    assignment-filled = filled assignment (
        append-ne-nil_of_right_ne-nil key (
          append-ne-nil_of_right_ne-nil b
            (append-ne-nil_of_right_ne-nil "=" (append-ne-nil_of_right_ne-nil c v.not_empty))))
      where
        filled : (s : String) → s ≢ "" → is_empty s ≡ false
        filled String.[] n = absurd (n refl)
        filled (String.◌∷◌ e s) n = refl

  -- A line with a key, an equals sign and a value, with white space around each and a comment
  -- behind them or none, is the assignment of just that value to just that key. The key and the
  -- value are not empty, start and end with no white space and have no `#`, and the key has no `=`.
  pub entry_of-assignment :
      (comment : Option String)
      → IsBlank a
      → IsBlank b
      → IsBlank c
      → IsBlank d
      → IsKey key
      → IsValue value
      → entry_of (a ++ ((key ++ (b ++ ("=" ++ (c ++ value)))) ++ (d ++ comment_of comment)))
        ≡ pair key value
  unfolding entry_of
  entry_of-assignment comment ha hb hc hd k v =
      let body = a ++ (assignment ++ d) in
      let free : HasNo b'#' body =
        HasNo-append b'#' a (assignment ++ d) (IsBlank-HasNo b'#' a (omega arith) ha) (
          HasNo-append b'#' assignment d (assignment-HasNo hb hc k v)
            (IsBlank-HasNo b'#' d (omega arith) hd)) in
      let text : a ++ (assignment ++ (d ++ comment_of comment)) ≡ body ++ comment_of comment = sym (
        append_assoc a (assignment ++ d) (comment_of comment)
        ∙ ap (λ t. a ++ t) (append_assoc assignment d (comment_of comment))) in
      let starts : StartsBare assignment =
        StartsBare-append key _ k.value.not_empty k.value.starts_bare in
      let line : trim (before b'#' (a ++ (assignment ++ (d ++ comment_of comment)))) ≡ assignment =
        ap (λ t. trim (before b'#' t)) text
        ∙ ap trim (before-comment body comment free)
        ∙ trim_framed a assignment d ha hd starts (assignment-EndsBare hb hc k v) in
      let left : trim (key ++ b) ≡ key =
        ap trim (sym (nil-append (key ++ b)))
        ∙ trim_framed "" key b tt hb k.value.starts_bare k.value.ends_bare in
      let right : trim (c ++ value) ≡ value =
        ap (λ t. trim (c ++ t)) (sym (append-nil value))
        ∙ trim_framed c value "" hc tt v.starts_bare v.ends_bare in
      rw (line, assignment-filled hb hc k v, split_at-assignment hb hc k v, left, right) refl
