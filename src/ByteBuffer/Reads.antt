-- ===== src/ByteBuffer/Reads.antt =====
-- The reader as a cursor: each read takes a run of bytes off what is left, or fails and takes none.
use Prim.Native.Nat.{bit_or}
use native.Mathlib.Nat.{add-zero, pow-suc, one-le-pow}
use mini_ran.Common.{
  Bool-cases, inl, inr, ℕ, zero, suc, ◌+◌, ◌*◌, ◌%◌, ◌^◌, ◌≤◌, ◌<◌, ◌≡◌, refl, ap, sym, ◌∙◌, Option,
  none, some, List, [], ◌∷◌, ltb, if◌then◌else◌, length, get_or, take, drop, All, IsU8, IsU64,
  arith, length-drop, drop-drop, get_or-drop, All-drop, take-drop-suc, All-get_or, add64,
}
use mini_ran.Common.Bits.{bit_or-sum}
use mini_ran.ByteBuffer.{
  Reader, make_reader, remaining, has_remaining, word32, gather, read_u8, read_u32, read_u64,
  read_bytes,
}
use mini_ran.ByteBuffer.Words.{be_from, be_value}

-- A vector's size fits `std::size_t`, and the offset never passes it.
pub record IsReader (r : Reader) : Type 0 where
  pub within : r.offset ≤ length r.bytes
  pub sized : IsU64 (length r.bytes)
  pub bytes_IsU8 : All IsU8 r.bytes

-- The bytes that are left to read.
abbrev pub rest : Reader → List ℕ
rest r = drop r.offset r.bytes

abbrev pub advance : Reader → ℕ → Reader
advance r n = record { bytes = r.bytes; offset = r.offset + n }

pub make_reader-IsReader :
    (bs : List ℕ) → All IsU8 bs → IsU64 (length bs) → IsReader (make_reader bs)
unfolding make_reader
make_reader-IsReader bs h s = record { within = omega arith; sized = s; bytes_IsU8 = h }

remaining-length : (r : Reader) → IsReader r → remaining r ≡ length (rest r)
unfolding remaining
remaining-length r v = omega (arith, length-drop r.offset r.bytes)

pub has_remaining-rest : (r : Reader) → has_remaining r ≡ ltb 0 (length (rest r))
unfolding has_remaining
has_remaining-rest r = ground (arith, length-drop r.offset r.bytes)

pub advance-IsReader :
    (r : Reader) (n : ℕ) → IsReader r → n ≤ length (rest r) → IsReader (advance r n)
advance-IsReader r n v h = record {
  within = omega (arith, length-drop r.offset r.bytes);
  sized = v.sized;
  bytes_IsU8 = v.bytes_IsU8;
}

pub rest-advance : (r : Reader) (n : ℕ) → rest (advance r n) ≡ drop n (rest r)
rest-advance r n = sym (drop-drop r.offset n r.bytes)

word32-be_value :
    (a b c d : ℕ)
    → IsU8 a
    → IsU8 b
    → IsU8 c
    → IsU8 d
    → word32 a b c d ≡ be_value (a ∷ b ∷ c ∷ d ∷ [])
unfolding word32
word32-be_value a b c d ha hb hc hd =
    let x : ℕ = a * 2 ^ 24 % 2 ^ 32 in
    let y : ℕ = b * 2 ^ 16 % 2 ^ 32 in
    let z : ℕ = c * 2 ^ 8 % 2 ^ 32 in
    let first : bit_or x y ≡ x + y = bit_or-sum 24 a x y (omega arith) (omega arith) in
    let second : bit_or (bit_or x y) z ≡ bit_or x y + z =
      bit_or-sum 16 (a * 2 ^ 8 + b) (bit_or x y) z (omega (arith, first)) (omega arith) in
    let third : bit_or (bit_or (bit_or x y) z) d ≡ bit_or (bit_or x y) z + d =
      bit_or-sum 8 (a * 2 ^ 16 + b * 2 ^ 8 + c) _ d (omega (arith, first, second)) (omega arith) in
    omega (arith, first, second, third)

-- One round of `gather` at a byte: the value so far fits the bytes before it.
gather_round : (acc b : ℕ) → acc < 2 ^ 56 → IsU8 b → bit_or (acc * 2 ^ 8 % 2 ^ 64) b ≡ acc * 256 + b
gather_round acc b h hb =
    omega (arith, bit_or-sum 8 acc (acc * 2 ^ 8 % 2 ^ 64) b (omega arith) (omega arith))

-- The loop with `n` rounds left: the bytes that it reads still fit in 64 bits with those in `acc`.
gather-be_from :
    (n i acc : ℕ) (r : Reader)
    → All IsU8 r.bytes
    → (acc + 1) * 256 ^ n ≤ 2 ^ 64
    → r.offset + i + n ≤ length r.bytes
    → gather n i r acc ≡ be_from acc (take n (drop (r.offset + i) r.bytes))
unfolding gather
gather-be_from zero i acc r h fits room = refl
gather-be_from (suc n) i acc r h fits room =
    let x : ℕ = get_or r.bytes (r.offset + i) 0 in
    let hx : IsU8 x = All-get_or IsU8 r.bytes (r.offset + i) 0 h (omega arith) in
    let shift : (acc + 1) * 256 ^ suc n ≡ (acc + 1) * (256 ^ n * 256) =
      ap (λ (t : ℕ). (acc + 1) * t) (pow-suc 256 n) in
    let one : 1 ≤ 256 ^ n = one-le-pow n 256 (omega arith) in
    let small : acc * 1 ≤ acc * 256 ^ n = grind arith in
    let low : x * 256 ^ n ≤ 255 * 256 ^ n = grind arith in
    let round : bit_or (acc * 2 ^ 8 % 2 ^ 64) x ≡ acc * 256 + x =
      gather_round acc x (omega arith) hx in
    let e : r.offset + (i + 1) ≡ r.offset + i + 1 = omega arith in
    rw (round, take-drop-suc n (r.offset + i) r.bytes 0 (omega arith), ← e)
      (gather-be_from n (i + 1) (acc * 256 + x) r h (omega arith) (omega arith))

-- Fails when fewer than `n` bytes are left, and else takes them off and reads them by `f`.
abbrev pub takes {ℓ} : {A : Type ℓ} → ℕ → (List ℕ → A) → Reader → Option (A × Reader)
takes n f r = if ltb (length (rest r)) n then none else some (f (take n (rest r)), advance r n)

offset_fits :
    (r : Reader) (n : ℕ) → IsReader r → n ≤ length (rest r) → add64 r.offset n ≡ r.offset + n
offset_fits r n v h = omega (arith, length-drop r.offset r.bytes)

takes_of_guard {ℓ} :
    {A : Type ℓ} (n : ℕ) (f : List ℕ → A) (r : Reader) (a : A)
    → IsReader r
    → (n ≤ length (rest r) → a ≡ f (take n (rest r)))
    → (if ltb (remaining r) n then none else some (a, record r { offset = add64 r.offset n }))
      ≡ takes n f r
takes_of_guard n f r a v e =
    rw (remaining-length r v) (elim (Bool-cases (ltb (length (rest r)) n)) [
      | inl short ↦ rw short
      | inr enough ↦
          let h : n ≤ length (rest r) = ground arith in rw (enough, e h, offset_fits r n v h)
    ])

byte_at_rest : (r : Reader) (i : ℕ) → get_or r.bytes (r.offset + i) 0 ≡ get_or (rest r) i 0
byte_at_rest r i = sym (get_or-drop r.offset i r.bytes 0)

first_byte : (xs : List ℕ) → 1 ≤ length xs → get_or xs 0 0 ≡ be_value (take 1 xs)
first_byte [] h = absurd (omega arith)
first_byte (x ∷ xs) h = omega arith

first_word :
    (xs : List ℕ)
    → All IsU8 xs
    → 4 ≤ length xs
    → word32 (get_or xs 0 0) (get_or xs 1 0) (get_or xs 2 0) (get_or xs 3 0) ≡ be_value (take 4 xs)
first_word [] p h = absurd (omega arith)
first_word (a ∷ []) p h = absurd (omega arith)
first_word (a ∷ b ∷ []) p h = absurd (omega arith)
first_word (a ∷ b ∷ c ∷ []) p h = absurd (omega arith)
first_word (a ∷ b ∷ c ∷ d ∷ xs) (pa, (pb, (pc, (pd, _)))) h = word32-be_value a b c d pa pb pc pd

pub rest-IsU8 : (r : Reader) → IsReader r → All IsU8 (rest r)
rest-IsU8 r v = All-drop IsU8 r.offset r.bytes v.bytes_IsU8

pub read_u8-takes : (r : Reader) → IsReader r → read_u8 r ≡ takes 1 be_value r
unfolding read_u8
read_u8-takes r v = takes_of_guard 1 be_value r _ v (λ h. byte_at_rest r 0 ∙ first_byte (rest r) h)

pub read_u32-takes : (r : Reader) → IsReader r → read_u32 r ≡ takes 4 be_value r
unfolding read_u32
read_u32-takes r v = takes_of_guard 4 be_value r _ v (λ h.
    rw (byte_at_rest r 0, byte_at_rest r 1, byte_at_rest r 2, byte_at_rest r 3)
      (first_word (rest r) (rest-IsU8 r v) h))

pub read_u64-takes : (r : Reader) → IsReader r → read_u64 r ≡ takes 8 be_value r
unfolding read_u64
read_u64-takes r v = takes_of_guard 8 be_value r _ v (λ h.
    let room : r.offset + 0 + 8 ≤ length r.bytes = omega (arith, length-drop r.offset r.bytes) in
    gather-be_from 8 0 0 r v.bytes_IsU8 (omega arith) room
    ∙ ap (λ k. be_value (take 8 (drop k r.bytes))) (add-zero r.offset))

pub read_bytes-takes : (r : Reader) (n : ℕ) → IsReader r → read_bytes r n ≡ takes n (λ bs. bs) r
unfolding read_bytes
read_bytes-takes r n v = takes_of_guard n (λ bs. bs) r _ v (λ h. refl)
