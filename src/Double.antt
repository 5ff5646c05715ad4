-- ===== src/Double.antt =====
-- The `double` of the program, which has no exact counterpart here: its values and the operations
-- that the program uses are a parameter.
use Prim.Native.String.{String}
use native.Mathlib.Nat.{mul-add-div_right, div-eq_of_lt, add-zero}
use mini_ran.Common.{
  ◌≢◌, ◌<◌, ◌∙◌, ap, ◌≡◌, ◌≤◌, ◌^◌, refl, arith, Option, leb, ltb, ◌/◌, ◌-◌, ◌+◌, Bool, ◌*◌, ℕ,
}

pub record Double : Type 1 where
  pub Real : Type 0
  -- `static_cast<double>` of an unsigned value, and the literals.
  pub of_nat : ℕ → Real
  pub plus : Real → Real → Real
  pub times : Real → Real → Real
  pub over : Real → Real → Real
  pub ceil : Real → Real
  -- `static_cast<std::uint64_t>`.
  pub to_u64 : Real → ℕ
  -- `<` and `<=`.
  pub less : Real → Real → Bool
  pub at_most : Real → Real → Bool

-- Whole numbers up to 2 ^ 53 are exact in a `double` of 64 bits: so are their sums and quotients that
-- are such numbers again, their order, and the cast back.
pub record IsExact (double : Double) : Type 0 where
  pub sums :
      (a b : ℕ)
      → a + b ≤ 2 ^ 53
      → double.plus (double.of_nat a) (double.of_nat b) ≡ double.of_nat (a + b)
  pub quotients :
      (a b : ℕ)
      → b ≢ 0
      → a * b ≤ 2 ^ 53
      → double.over (double.of_nat (a * b)) (double.of_nat b) ≡ double.of_nat a
  pub order :
      (a b : ℕ)
      → a ≤ 2 ^ 53
      → b ≤ 2 ^ 53
      → double.less (double.of_nat a) (double.of_nat b) ≡ ltb a b
  pub casts : (a : ℕ) → a ≤ 2 ^ 53 → double.to_u64 (double.of_nat a) ≡ a

-- Whole numbers in the place of the reals, with division rounded up.
abbrev pub whole : Double
whole = record {
  Real = ℕ;
  of_nat = λ n. n;
  plus = λ a b. a + b;
  times = λ a b. a * b;
  over = λ a b. (a + b - 1) / b;
  ceil = λ a. a;
  to_u64 = λ a. a;
  less = ltb;
  at_most = leb;
}

over_exact : (a b : ℕ) → b ≢ 0 → (a * b + b - 1) / b ≡ a
over_exact a b some_b =
    let sum : a * b + b - 1 ≡ a * b + (b - 1) = omega (arith, some_b) in
    let less : b - 1 < b = omega (arith, some_b) in
    let positive : 0 < b = omega (arith, some_b) in
    ap (◌/ b) sum
    ∙ mul-add-div_right positive a (b - 1)
    ∙ ap (a +◌) (div-eq_of_lt less)
    ∙ add-zero a

pub whole-IsExact : IsExact whole
whole-IsExact = record {
  sums = λ a b h. refl;
  quotients = λ a b some_b h. over_exact a b some_b;
  order = λ a b h k. refl;
  casts = λ a h. refl;
}

-- A `double` in a text: `std::stod`, with `none` for an exception, and fixed output with three
-- places.
pub record DoubleText (double : Double) : Type 0 where
  pub read_double : String → Option double.Real
  pub show_double : double.Real → String
