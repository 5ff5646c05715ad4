-- ===== src/ByteBuffer/Writes.antt =====
-- What the writer appends: a word goes out as its bytes, the highest first.
use mini_ran.Common.{
  ℕ, zero, suc, ◌+◌, ◌*◌, ◌^◌, ◌≡◌, refl, ◌∙◌, List, [], ◌∷◌, ◌++◌, append_assoc, append-nil, sym,
  arith,
}
use native.Mathlib.Nat.{pow-suc}
use native.Mathlib.Numerals.{towards_suc}
use mini_ran.ByteBuffer.{
  Writer, push_back, write_u8, write_u32, write_shifts, write_u64, write_bytes,
}
use mini_ran.ByteBuffer.Words.{be_bytes}

pub bytes-write_u8 : (w : Writer) (v : ℕ) → (write_u8 w v).bytes ≡ w.bytes ++ v ∷ []
unfolding write_u8
bytes-write_u8 w v = refl

pub bytes-write_u32 : (w : Writer) (v : ℕ) → (write_u32 w v).bytes ≡ w.bytes ++ be_bytes 4 v
unfolding write_u32
bytes-write_u32 w v = simp append_assoc (ground arith)

pow_bytes : (n : ℕ) → 2 ^ (8 * n) ≡ 256 ^ n
pow_bytes zero = refl
pow_bytes (suc n) =
    let e : 8 * suc n ≡ 8 * n + 8 = omega arith in
    rw e (simp towards_suc (omega (arith, pow_bytes n, pow-suc 256 n)))

bytes-write_shifts :
    (n : ℕ) (w : Writer) (v : ℕ) → (write_shifts n w v).bytes ≡ w.bytes ++ be_bytes n v
unfolding write_shifts push_back
bytes-write_shifts zero w v = sym (append-nil w.bytes)
bytes-write_shifts (suc n) w v = bytes-write_shifts n _ v ∙ rw (pow_bytes n) (simp append_assoc)

pub bytes-write_u64 : (w : Writer) (v : ℕ) → (write_u64 w v).bytes ≡ w.bytes ++ be_bytes 8 v
unfolding write_u64
bytes-write_u64 w v = bytes-write_shifts 8 w v

pub bytes-write_bytes : (w : Writer) (bs : List ℕ) → (write_bytes w bs).bytes ≡ w.bytes ++ bs
unfolding write_bytes
bytes-write_bytes w bs = refl
