-- ===== src/Text/Lines.antt =====
-- Lines, and the marks within a line.
use Prim.Native.String.{String, ◌++◌}
use Prim.Native.Char.{Char, code}
use text.Mathlib.TextLemmas.{nil-append, cons-append}
use mini_ran.Common.{
  inr, inl, if◌then◌else◌, Bool, Bool-cases, ◌≢◌, zero, ◌/◌, ◌%◌, suc, ◌<◌, All, ℕ, ◌≡◌, refl, ◌∙◌,
  ap, true, false, some, none, List, [], ◌∷◌, ◌==◌, arith,
}
use mini_ran.Text.{
  decimal, digit, write, in_front, join_line, is_space, before, split_at, split_lines,
}
use mini_ran.Text.Spaces.{StartsBare, EndsBare-cons, EndsBare, IsBlank}
use mini_ran.Text.Numbers.{digit-StartsBare, write-BeginsDigit, code-digit}

-- No byte of the text is `mark`.
abbrev pub HasNo : ℕ → String → Type 0
HasNo mark String.[] = Unit {0}
HasNo mark (String.◌∷◌ c s) = ((code c == mark) ≡ false) × HasNo mark s

-- No byte of the text is `mark`, as a test.
unfoldable pub is_free : ℕ → String → Bool
is_free mark String.[] = true
is_free mark (String.◌∷◌ c s) = let rest = is_free mark s in if code c == mark then false else rest

pub is_free-HasNo : (mark : ℕ) (s : String) → is_free mark s ≡ true → HasNo mark s
unfolding is_free
is_free-HasNo mark String.[] e = tt
is_free-HasNo mark (String.◌∷◌ c s) e = elim (Bool-cases (code c == mark)) [
  | inl here ↦ cc
  | inr other ↦ (other, is_free-HasNo mark s (rw other at e))
]

pub HasNo-append : (mark : ℕ) (s t : String) → HasNo mark s → HasNo mark t → HasNo mark (s ++ t)
HasNo-append mark String.[] t hs ht = rw (nil-append t) ht
HasNo-append mark (String.◌∷◌ c s) t hs ht =
    rw (cons-append c s t) (hs.0, HasNo-append mark s t hs.1 ht)

pub IsBlank-HasNo : (mark : ℕ) (s : String) → 32 < mark → IsBlank s → HasNo mark s
unfolding is_space
IsBlank-HasNo mark String.[] m h = tt
IsBlank-HasNo mark (String.◌∷◌ c s) m h = (ground (arith, h.0), IsBlank-HasNo mark s m h.1)

pub before-HasNo : (mark : ℕ) (s : String) → HasNo mark s → before mark s ≡ s
unfolding before
before-HasNo mark String.[] h = refl
before-HasNo mark (String.◌∷◌ c s) h = rw h.0 (ap (String.◌∷◌ c) (before-HasNo mark s h.1))

-- A text in front of the first mark.
pub before_mark :
    (mark : ℕ) (s rest : String) (c : Char)
    → HasNo mark s
    → (code c == mark) ≡ true
    → before mark (s ++ String.◌∷◌ c rest) ≡ s
unfolding before
before_mark mark String.[] rest c h e = rw (nil-append (String.◌∷◌ c rest), e) refl
before_mark mark (String.◌∷◌ d s) rest c h e =
    rw (cons-append d s (String.◌∷◌ c rest), h.0)
      (ap (String.◌∷◌ d) (before_mark mark s rest c h.1 e))

pub split_at_mark :
    (mark : ℕ) (s rest : String) (c : Char)
    → HasNo mark s
    → (code c == mark) ≡ true
    → split_at mark (s ++ String.◌∷◌ c rest) ≡ some (s, rest)
unfolding split_at
split_at_mark mark String.[] rest c h e = rw (nil-append (String.◌∷◌ c rest), e) refl
split_at_mark mark (String.◌∷◌ d s) rest c h e =
    rw (cons-append d s (String.◌∷◌ c rest), h.0)
      (ap (in_front d) (split_at_mark mark s rest c h.1 e))

pub split_at-HasNo : (mark : ℕ) (s : String) → HasNo mark s → split_at mark s ≡ none
unfolding split_at
split_at-HasNo mark String.[] h = refl
split_at-HasNo mark (String.◌∷◌ c s) h = rw h.0 (ap (in_front c) (split_at-HasNo mark s h.1))

pub split_lines_newline :
    (line rest : String)
    → HasNo 10 line
    → split_lines (line ++ ("\n" ++ rest)) ≡ line ∷ split_lines rest
unfolding split_lines
split_lines_newline String.[] rest h =
    ap split_lines (nil-append _ ∙ cons-append "\n" "" rest)
    ∙ ap (λ t. String.[] ∷ split_lines t) (nil-append rest)
split_lines_newline (String.◌∷◌ c line) rest h =
    rw (cons-append c line ("\n" ++ rest), h.0)
      (ap (join_line c) (split_lines_newline line rest h.1))

-- Each line with its newline.
abbrev pub join_lines : List String → String
join_lines [] = ""
join_lines (line ∷ lines) = line ++ ("\n" ++ join_lines lines)

-- Lines without a newline in them are read as they were written.
pub split_lines-join_lines :
    (lines : List String) → All (HasNo 10) lines → split_lines (join_lines lines) ≡ lines
unfolding split_lines
split_lines-join_lines [] h = refl
split_lines-join_lines (line ∷ lines) h =
    split_lines_newline line (join_lines lines) h.0
    ∙ ap (◌∷◌ line) (split_lines-join_lines lines h.1)

-- What a number is written with has no other byte in it.
pub write-HasNo :
    (mark r n : ℕ) (out : String) → mark < 48 → HasNo mark out → HasNo mark (write r n out)
unfolding write
write-HasNo mark zero n out m h = h
write-HasNo mark (suc r) n out m h =
    let last : HasNo mark (String.◌∷◌ (digit (n % 10)) out) =
      (ground (arith, code-digit (n % 10) (omega arith)), h) in
    elim (n / 10 == 0)
      as (λ b. HasNo mark (elim b [
        | true ↦ String.◌∷◌ (digit (n % 10)) out
        | false ↦ write r (n / 10) (String.◌∷◌ (digit (n % 10)) out)
      ])) [ true ↦ last | false ↦ write-HasNo mark r (n / 10) _ m last ]

digit-bare : (n : ℕ) → n < 10 → is_space (digit n) ≡ false
unfolding is_space
digit-bare n h = ground (arith, code-digit n h)

write-EndsBare : (r n : ℕ) (out : String) → EndsBare out → EndsBare (write r n out)
unfolding write
write-EndsBare zero n out h = h
write-EndsBare (suc r) n out h =
    let last : EndsBare (String.◌∷◌ (digit (n % 10)) out) =
      EndsBare-cons (digit (n % 10)) out h (λ e. digit-bare (n % 10) (omega arith)) in
    elim (n / 10 == 0)
      as (λ b. EndsBare (elim b [
        | true ↦ String.◌∷◌ (digit (n % 10)) out
        | false ↦ write r (n / 10) (String.◌∷◌ (digit (n % 10)) out)
      ])) [ true ↦ last | false ↦ write-EndsBare r (n / 10) _ last ]

-- A number is written without white space around it.
pub decimal_bare : (n : ℕ) → (decimal n ≢ String.[]) × StartsBare (decimal n) × EndsBare (decimal n)
decimal_bare n =
    let (c, t, e, d) = write-BeginsDigit 19 n "" in
    (λ empty. cc, digit-StartsBare (decimal n) (c, t, e, d), write-EndsBare 20 n "" tt)
