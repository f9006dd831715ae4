-- ===== src/Timecode/Bits/Laws.antt =====
-- What every read of the bit reader yields.
use native.Mathlib.Nat.{mul-le-mul_right, pow-suc, pow-le-pow_right}
use irl_srt_server.Prelude.{ℕ, zero, suc, ◌+◌, ◌*◌, ◌%◌, ◌^◌, ◌≤◌, ◌<◌, List, arith}
use irl_srt_server.Timecode.Bits.{BitReader, bit_at, take_bits, br_u}

pow_pos : (n : ℕ) → 0 < 2 ^ n
pow_pos zero = omega arith
pow_pos (suc n) = omega (arith, pow-suc 2 n, pow_pos n)

pow_le_32 : (n : ℕ) → n ≤ 32 → 2 ^ n ≤ 2 ^ 32
pow_le_32 n h = pow-le-pow_right (omega arith) h

scale : (a b p : ℕ) → a ≤ b * 2 → a * p ≤ b * (p * 2)
scale a b p h = omega (arith, mul-le-mul_right p h)

take_bits-lt :
    (n : ℕ) (buf : List ℕ) (p value : ℕ)
    → (value + 1) * 2 ^ n ≤ 2 ^ 32
    → take_bits n buf p value < (value + 1) * 2 ^ n
unfolding take_bits
take_bits-lt zero buf p value h = omega arith
take_bits-lt (suc n) buf p value h =
    let fits : (next + 1) * 2 ^ n ≤ (value + 1) * 2 ^ suc n =
      rw (pow-suc 2 n) (scale (next + 1) (value + 1) (2 ^ n) (omega (arith, bit))) in
    let rec = take_bits-lt n buf (p + 1) next (omega (arith, fits, h)) in omega (arith, fits, rec)
  where
    bit : bit_at buf p < 2
    bit = omega arith

    next : ℕ
    next = (value * 2 + bit_at buf p) % 2 ^ 32

-- A read of `n` bits yields less than 2^n.
pub br_u-lt : (n : ℕ) (r : BitReader) → (br_u n r).0 < 2 ^ n
unfolding br_u
br_u-lt n r = ground (arith, pow_pos n, take_bits-lt n r.buf r.pos 0, pow_le_32 n)
