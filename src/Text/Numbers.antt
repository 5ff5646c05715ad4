-- ===== src/Text/Numbers.antt =====
-- Numbers in texts: what `decimal` writes and what `stoull` accepts.
use Prim.Native.String.{String, ◌++◌}
use Prim.Native.Char.{Char, code}
use text.Mathlib.TextLemmas.{nil-append, cons-append}
use native.Mathlib.Decide.{dec_lt}
use native.Mathlib.Nat.{zero-add, pow-suc}
use mini_ran.Common.{
  IsU64, sym, ltb, if◌then◌else◌, some, Bool, ◌-◌, ◌==◌, ℕ, zero, suc, ◌+◌, ◌*◌, ◌/◌, ◌%◌, ◌^◌, ◌<◌,
  ◌≡◌, refl, ◌∙◌, ap, true, false, arith,
}
use mini_ran.Text.{
  trim_left, decimal, signed, is_space, starts_digit, magnitude, stoull, digit, is_digit, scan,
  write,
}
use mini_ran.Text.Spaces.{trim_left_bare, trim_left_blank, StartsBare, IsBlank}

pub code-digit : (n : ℕ) → n < 10 → code (digit n) ≡ 48 + n
unfolding digit
code-digit zero h = refl
code-digit (suc zero) h = refl
code-digit (suc (suc zero)) h = refl
code-digit (suc (suc (suc zero))) h = refl
code-digit (suc (suc (suc (suc zero)))) h = refl
code-digit (suc (suc (suc (suc (suc zero))))) h = refl
code-digit (suc (suc (suc (suc (suc (suc zero)))))) h = refl
code-digit (suc (suc (suc (suc (suc (suc (suc zero))))))) h = refl
code-digit (suc (suc (suc (suc (suc (suc (suc (suc zero)))))))) h = refl
code-digit (suc (suc (suc (suc (suc (suc (suc (suc (suc zero))))))))) h = refl
code-digit (suc (suc (suc (suc (suc (suc (suc (suc (suc (suc n)))))))))) h = absurd (omega arith)

digit-is_digit : (n : ℕ) → n < 10 → is_digit (digit n) ≡ true
unfolding is_digit
digit-is_digit n h = ground (arith, code-digit n h)

scan-digit :
    (a n : ℕ) (out : String) → n < 10 → scan a (String.◌∷◌ (digit n) out) ≡ scan (a * 10 + n) out
unfolding scan
scan-digit a n out h = rw (digit-is_digit n h) (
    let e : a * 10 + (code (digit n) - 48) ≡ a * 10 + n = omega (arith, code-digit n h) in
    ap (λ v. scan v out) e)

pow-ten : (r : ℕ) → 10 ^ suc r ≡ 10 * 10 ^ r
pow-ten r = omega (arith, pow-suc 10 r)

write_small : (r n : ℕ) (out : String) → n < 10 → write (suc r) n out ≡ String.◌∷◌ (digit n) out
unfolding write
write_small r n out h =
    let e : (n / 10 == 0) ≡ true = ground arith in
    let d : n % 10 ≡ n = omega arith in ground (arith, e, d)

write_large :
    (r n : ℕ) (out : String)
    → ¬ (n < 10)
    → write (suc r) n out ≡ write r (n / 10) (String.◌∷◌ (digit (n % 10)) out)
unfolding write
write_large r n out h = let e : (n / 10 == 0) ≡ false = ground arith in ground (arith, e)

-- Reading what was written goes on behind the number.
scan-write : (r n : ℕ) (out : String) → n < 10 ^ suc r → scan 0 (write (suc r) n out) ≡ scan n out
scan-write zero n out h =
    ap (scan 0) (write_small zero n out (omega arith))
    ∙ scan-digit 0 n out (omega arith)
    ∙ ap (λ v. scan v out) (zero-add n)
scan-write (suc r) n out h = elim (dec_lt n 10) [
  | yes small ↦
      ap (scan 0) (write_small (suc r) n out small)
      ∙ scan-digit 0 n out small
      ∙ ap (λ v. scan v out) (zero-add n)
  | no large ↦
      ap (scan 0) (write_large (suc r) n out large)
      ∙ scan-write r (n / 10) (String.◌∷◌ (digit (n % 10)) out) (omega (arith, pow-ten (suc r)))
      ∙ scan-digit (n / 10) (n % 10) out (omega arith)
      ∙ ap (λ v. scan v out) (omega arith)
]

write-append : (r n : ℕ) (out rest : String) → write r n out ++ rest ≡ write r n (out ++ rest)
unfolding write
write-append zero n out rest = refl
write-append (suc r) n out rest =
    elim (n / 10 == 0)
      as (λ b.
        (elim b [
          | true ↦ String.◌∷◌ (digit (n % 10)) out
          | false ↦ write r (n / 10) (String.◌∷◌ (digit (n % 10)) out)
        ]
          ++ rest)
        ≡ (elim b [
          | true ↦ String.◌∷◌ (digit (n % 10)) (out ++ rest)
          | false ↦ write r (n / 10) (String.◌∷◌ (digit (n % 10)) (out ++ rest))
        ])) [
          | true ↦ cons-append (digit (n % 10)) out rest
          | false ↦
              write-append r (n / 10) (String.◌∷◌ (digit (n % 10)) out) rest
              ∙ ap (write r (n / 10)) (cons-append (digit (n % 10)) out rest)
        ]

-- A digit stands at the front.
abbrev pub BeginsDigit : String → Type 0
BeginsDigit s = (c : Char) × (t : String) × (s ≡ String.◌∷◌ c t) × (is_digit c ≡ true)

pub write-BeginsDigit : (r n : ℕ) (out : String) → BeginsDigit (write (suc r) n out)
write-BeginsDigit zero n out =
    (digit (n % 10), out, last_digit n out, digit-is_digit (n % 10) (omega arith))
  where
    last_digit : (n : ℕ) (out : String) → write 1 n out ≡ String.◌∷◌ (digit (n % 10)) out
    last_digit n out = unfold write in ground arith
write-BeginsDigit (suc r) n out = elim (dec_lt n 10) [
  | yes small ↦ (digit n, out, write_small (suc r) n out small, digit-is_digit n small)
  | no large ↦
      let (c, t, e, d) = write-BeginsDigit r (n / 10) (String.◌∷◌ (digit (n % 10)) out) in
      (c, t, write_large (suc r) n out large ∙ e, d)
]

signed_digit :
    (c : Char) (t : String)
    → is_digit c ≡ true
    → signed (String.◌∷◌ c t) ≡ magnitude false (String.◌∷◌ c t)
unfolding is_digit
signed_digit c t h = ground arith

pub digit-StartsBare : (s : String) → BeginsDigit s → StartsBare s
unfolding is_digit is_space
digit-StartsBare s (c, t, e, d) = rw e (ground arith)

scan_rest : (n : ℕ) (rest : String) → starts_digit rest ≡ false → scan n rest ≡ n
unfolding scan
scan_rest n String.[] h = refl
scan_rest n (String.◌∷◌ c s) h = rw h refl

magnitude-decimal :
    (negative : Bool) (n : ℕ) (rest : String)
    → n < 2 ^ 64
    → starts_digit rest ≡ false
    → magnitude negative (decimal n ++ rest) ≡ some (if negative then (2 ^ 64 - n) % 2 ^ 64 else n)
unfolding magnitude
magnitude-decimal negative n rest h e =
    let text : decimal n ++ rest ≡ write 20 n rest =
      write-append 20 n "" rest ∙ ap (write 20 n) (nil-append rest) in
    let value : scan 0 (write 20 n rest) ≡ n =
      scan-write 19 n rest (omega arith) ∙ scan_rest n rest e in
    let (c, t, splits, d) = write-BeginsDigit 19 n rest in
    let starts : starts_digit (write 20 n rest) ≡ true = rw splits d in
    let fits : ltb n (2 ^ 64) ≡ true = ground arith in rw (text, value, starts, fits) refl

-- In front of a text that starts with no digit, and behind white space: a number of 64 bits that
-- was written in decimal is read back, and with a minus sign in front of it the number's negative
-- modulo 2 ^ 64 is read.
pub stoull_lem :
    (blank rest : String) (n : ℕ)
    → IsBlank blank
    → n < 2 ^ 64
    → starts_digit rest ≡ false
    → (stoull (blank ++ (decimal n ++ rest)) ≡ some n)
      × (stoull (blank ++ ("-" ++ (decimal n ++ rest))) ≡ some ((2 ^ 64 - n) % 2 ^ 64))
unfolding stoull
stoull_lem blank rest n b h e =
    let text : decimal n ++ rest ≡ write 20 n rest =
      write-append 20 n "" rest ∙ ap (write 20 n) (nil-append rest) in
    let (c, t, splits, d) = write-BeginsDigit 19 n rest in
    let number : BeginsDigit (decimal n ++ rest) = (c, t, text ∙ splits, d) in
    (
      ap signed (
            trim_left_blank blank (decimal n ++ rest) b
            ∙ trim_left_bare (decimal n ++ rest) (digit-StartsBare _ number))
          ∙ ap signed (text ∙ splits)
          ∙ signed_digit c t d
          ∙ ap (magnitude false) (sym (text ∙ splits))
          ∙ magnitude-decimal false n rest h e,
      ap signed (trim_left_blank blank ("-" ++ (decimal n ++ rest)) b)
          ∙ minus (decimal n ++ rest)
          ∙ magnitude-decimal true n rest h e,
    )
  where
    minus : (s : String) → signed (trim_left ("-" ++ s)) ≡ magnitude true s
    minus s = unfold is_space in unfold trim_left in rw (cons-append "-" "" s, nil-append s) refl

magnitude-IsU64 : (negative : Bool) (s : String) (n : ℕ) → magnitude negative s ≡ some n → IsU64 n
unfolding magnitude
magnitude-IsU64 negative s n e = ground arith

signed-IsU64 : (s : String) (n : ℕ) → signed s ≡ some n → IsU64 n
signed-IsU64 String.[] n e = cc
signed-IsU64 (String.◌∷◌ c s) n e = ground (
  arith,
  magnitude-IsU64 true s n,
  magnitude-IsU64 false s n,
  magnitude-IsU64 false (String.◌∷◌ c s) n,
)

-- What `stoull` accepts fits 64 bits.
pub stoull-IsU64 : (s : String) (n : ℕ) → stoull s ≡ some n → IsU64 n
unfolding stoull
stoull-IsU64 s n e = signed-IsU64 (trim_left s) n e
