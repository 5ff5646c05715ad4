-- ===== src/ByteBuffer/Words.antt =====
-- Big-endian words: the number that a run of bytes stands for, and the bytes of a number.
use mini_ran.Common.{
  ℕ, zero, suc, ◌+◌, ◌*◌, ◌/◌, ◌^◌, ◌≡◌, refl, ap, List, [], ◌∷◌, length, All, IsU8, IsU32, IsU64,
  u8, arith,
}

abbrev pub be_from : ℕ → List ℕ → ℕ
be_from acc [] = acc
be_from acc (b ∷ bs) = be_from (acc * 256 + b) bs

-- The number that a run of bytes stands for, its first byte the highest.
abbrev pub be_value : List ℕ → ℕ
be_value = be_from 0

-- The lowest `n` bytes of a number, the highest first.
abbrev pub be_bytes : ℕ → ℕ → List ℕ
be_bytes zero v = []
be_bytes (suc n) v = u8 (v / 256 ^ n) ∷ be_bytes n v

pub length-be_bytes : (n v : ℕ) → length (be_bytes n v) ≡ n
length-be_bytes zero v = refl
length-be_bytes (suc n) v = ap suc (length-be_bytes n v)

pub be_bytes-IsU8 : (n v : ℕ) → All IsU8 (be_bytes n v)
be_bytes-IsU8 zero v = tt
be_bytes-IsU8 (suc n) v = (omega arith, be_bytes-IsU8 n v)

pub be_value-be_bytes_4 : (v : ℕ) → IsU32 v → be_value (be_bytes 4 v) ≡ v
be_value-be_bytes_4 v h = omega arith

pub be_value-be_bytes_8 : (v : ℕ) → IsU64 v → be_value (be_bytes 8 v) ≡ v
be_value-be_bytes_8 v h = omega arith

pub be_bytes-be_value_4 :
    (a b c d : ℕ)
    → All IsU8 (a ∷ b ∷ c ∷ d ∷ [])
    → be_bytes 4 (be_value (a ∷ b ∷ c ∷ d ∷ [])) ≡ a ∷ b ∷ c ∷ d ∷ []
be_bytes-be_value_4 a b c d h = ground arith

pub be_bytes-be_value_8 :
    (a b c d e f g h : ℕ)
    → All IsU8 (a ∷ b ∷ c ∷ d ∷ e ∷ f ∷ g ∷ h ∷ [])
    → be_bytes 8 (be_value (a ∷ b ∷ c ∷ d ∷ e ∷ f ∷ g ∷ h ∷ []))
      ≡ a ∷ b ∷ c ∷ d ∷ e ∷ f ∷ g ∷ h ∷ []
be_bytes-be_value_8 a b c d e f g h p = ground arith
