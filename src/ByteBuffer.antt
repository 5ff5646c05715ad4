-- ===== src/ByteBuffer.antt =====
-- include/miniran/common/byte_buffer.h and src/common/byte_buffer.cpp: the writer appends to a
-- byte vector, the reader walks over one by an offset. An out-parameter and a `bool` result are one
-- `Option`: `none` is `false`, and then the reader stays as it was.
pub mod Words
pub mod Reads
pub mod Writes
use Prim.Native.Nat.{bit_or}
use mini_ran.Common.{
  ℕ, zero, suc, ◌+◌, ◌*◌, ◌/◌, ◌%◌, ◌^◌, Bool, Option, none, some, List, [], ◌∷◌, ◌++◌, ltb,
  if◌then◌else◌, length, get_or, take, drop, u8, add64, sub64,
}

pub record Writer : Type 0 where
  pub bytes : List ℕ

abbrev pub empty_writer : Writer
empty_writer = record { bytes = [] }

push_back : Writer → ℕ → Writer
push_back w byte = record w { bytes = w.bytes ++ byte ∷ [] }

pub write_u8 : Writer → ℕ → Writer
unfolding push_back
write_u8 w value = push_back w value

-- The mask `& 0xFFU` and the cast to `std::uint8_t` are one remainder.
pub write_u32 : Writer → ℕ → Writer
unfolding push_back
write_u32 w value =
    push_back
      (push_back (push_back (push_back w (u8 (value / 2 ^ 24))) (u8 (value / 2 ^ 16)))
        (u8 (value / 2 ^ 8)))
      (u8 value)

-- The rounds left of the loop over `shift`: with `suc n` left the shift is `8 * n`.
write_shifts : ℕ → Writer → ℕ → Writer
write_shifts zero w value = w
write_shifts (suc n) w value = write_shifts n (push_back w (u8 (value / 2 ^ (8 * n)))) value

pub write_u64 : Writer → ℕ → Writer
unfolding write_shifts
write_u64 w value = write_shifts 8 w value

pub write_bytes : Writer → List ℕ → Writer
write_bytes w bytes = record w { bytes = w.bytes ++ bytes }

pub record Reader : Type 0 where
  pub bytes : List ℕ
  pub offset : ℕ

unfoldable pub make_reader : List ℕ → Reader
make_reader bytes = record { bytes = bytes; offset = 0 }

pub remaining : Reader → ℕ
remaining r = sub64 (length r.bytes) r.offset

pub has_remaining : Reader → Bool
has_remaining r = ltb r.offset (length r.bytes)

-- `bytes_[offset_ + i]`; the guards keep the index in range.
abbrev byte_at : Reader → ℕ → ℕ
byte_at r i = get_or r.bytes (r.offset + i) 0

abbrev skip : Reader → ℕ → Reader
skip r n = record r { offset = add64 r.offset n }

pub read_u8 : Reader → Option (ℕ × Reader)
unfolding remaining
read_u8 r = if ltb (remaining r) 1 then none else some (byte_at r 0, skip r 1)

-- Four bytes shifted into place in 32 bits and joined by `|`.
word32 : ℕ → ℕ → ℕ → ℕ → ℕ
word32 a b c d =
    bit_or (bit_or (bit_or (a * 2 ^ 24 % 2 ^ 32) (b * 2 ^ 16 % 2 ^ 32)) (c * 2 ^ 8 % 2 ^ 32)) d

pub read_u32 : Reader → Option (ℕ × Reader)
unfolding remaining word32
read_u32 r =
    if ltb (remaining r) 4
    then none
    else some (word32 (byte_at r 0) (byte_at r 1) (byte_at r 2) (byte_at r 3), skip r 4)

-- The loop of `readU64` from index `i` on, with `n` rounds left.
gather : ℕ → ℕ → Reader → ℕ → ℕ
gather zero i r value = value
gather (suc n) i r value = gather n (i + 1) r (bit_or (value * 2 ^ 8 % 2 ^ 64) (byte_at r i))

pub read_u64 : Reader → Option (ℕ × Reader)
unfolding remaining gather
read_u64 r = if ltb (remaining r) 8 then none else some (gather 8 0 r 0, skip r 8)

pub read_bytes : Reader → ℕ → Option (List ℕ × Reader)
unfolding remaining
read_bytes r n =
    if ltb (remaining r) n then none else some (take n (drop r.offset r.bytes), skip r n)
