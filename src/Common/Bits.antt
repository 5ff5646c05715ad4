-- ===== src/Common/Bits.antt =====
-- `|` of a field and of the bits below it.
use Prim.Native.Nat.{
  ℕ, zero, suc, ◌+◌, ◌*◌, ◌/◌, ◌^◌, ◌≤◌, ◌<◌, max, digits, bit_or, bit_or-bitwise,
}
use mathlib.Core.Path.{◌≡◌, refl, ap}
use native.Mathlib.Nat.{pow-suc}
use native.Mathlib.Omega.{arith}

-- The library's recursion on digits, run on `a`, a multiple of `2 ^ k`, and on `b` below it.
or_digits : (n k q a b : ℕ) → a ≡ q * 2 ^ k → a ≤ n → b < 2 ^ k → digits (λ y. y) max n a b ≡ a + b
or_digits zero k q a b e h l = omega arith
or_digits (suc n) k q zero b e h l = omega arith
or_digits (suc n) zero q (suc a) b e h l = omega (
  arith,
  or_digits n zero (suc a / 2) (suc a / 2) (b / 2) (omega arith) (omega arith) (omega arith),
)
or_digits (suc n) (suc k) q (suc a) b e h l =
    let twice : q * 2 ^ suc k ≡ 2 * (q * 2 ^ k) =
      omega (arith, ap (λ (t : ℕ). q * t) (pow-suc 2 k)) in
    let half : suc a / 2 ≡ q * 2 ^ k = omega arith in
    let low : b / 2 < 2 ^ k = omega (arith, pow-suc 2 k) in
    omega (arith, or_digits n k q (suc a / 2) (b / 2) half (omega arith) low)

bit_or-field : (k q r : ℕ) → r < 2 ^ k → bit_or (q * 2 ^ k) r ≡ q * 2 ^ k + r
bit_or-field k q r h =
    simp bit_or-bitwise (or_digits (q * 2 ^ k) k q (q * 2 ^ k) r refl (omega arith) h)

pub bit_or-sum : (k q x r : ℕ) → x ≡ q * 2 ^ k → r < 2 ^ k → bit_or x r ≡ x + r
bit_or-sum k q x r e h = rw e (bit_or-field k q r h)
