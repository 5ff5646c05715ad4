-- ===== src/Traffic/Generator/Payloads.antt =====
-- What `makePayload` fills a payload with.
use mini_ran.Common.{ℕ, zero, suc, ◌+◌, ◌%◌, ◌<◌, ◌≡◌, refl, length, get_or, All, IsU8, arith, ap}
use mini_ran.Traffic.Generator.{fill, make_payload}

length-fill : (n index seed : ℕ) → length (fill n index seed) ≡ n
unfolding fill
length-fill zero index seed = refl
length-fill (suc n) index seed = ap suc (length-fill n (index + 1) seed)

fill-IsU8 : (n index seed : ℕ) → All IsU8 (fill n index seed)
unfolding fill
fill-IsU8 zero index seed = tt
fill-IsU8 (suc n) index seed = (omega arith, fill-IsU8 n (index + 1) seed)

get_or-fill :
    (n index seed i : ℕ) → i < n → get_or (fill n index seed) i 0 ≡ (seed + (index + i) % 31) % 256
unfolding fill
get_or-fill zero index seed i h = absurd (omega arith)
get_or-fill (suc n) index seed zero h = omega arith
get_or-fill (suc n) index seed (suc i) h =
    omega (arith, get_or-fill n (index + 1) seed i (omega arith))

pub length-make_payload : (size seed : ℕ) → length (make_payload size seed) ≡ size
unfolding make_payload
length-make_payload size seed = length-fill size 0 seed

-- A payload has the size that was asked for, holds bytes, and its byte `i` is the seed plus `i`
-- modulo 31, modulo 256.
pub make_payload_lem :
    (size seed : ℕ)
    → (length (make_payload size seed) ≡ size)
      × All IsU8 (make_payload size seed)
      × ((i : ℕ) → i < size → get_or (make_payload size seed) i 0 ≡ (seed + i % 31) % 256)
unfolding make_payload
make_payload_lem size seed = (
  length-fill size 0 seed,
  fill-IsU8 size 0 seed,
  λ i h. omega (arith, get_or-fill size 0 seed i h),
)
