-- ===== src/Timecode/Bits.antt =====
-- The bit reader of src/core/SLSTimecode.cpp: `br_u`, `br_ue`, `br_se` and `br_i`. A read past the
-- end latches `err`, and every later read yields 0.
pub mod Laws
use irl_srt_server.Prelude.{
  ℕ, zero, suc, ◌+◌, ◌-◌, ◌*◌, ◌/◌, ◌%◌, ◌^◌, Bool, true, false, ◌||◌, List, ltb, leb, ◌==◌,
  if◌then◌else◌,
}
use irl_srt_server.Prelude.Int.{ℤ, pos, negsuc, sub_ℕ, i32}
use irl_srt_server.Prelude.Bytes.{at}

pub record BitReader : Type 0 where
  pub buf : List ℕ
  pub len : ℕ
  pub pos : ℕ
  pub err : Bool

-- What reads bits: a value and the reader behind it.
abbrev pub Bits : Type 0 → Type 0
Bits A = BitReader → A × BitReader

infixl 5 ◌>>=◌ ◌>>◌
abbrev pub ◌>>=◌ : {A B : Type 0} → Bits A → (A → Bits B) → Bits B
◌>>=◌ m f r = let (a, r') = m r in f a r'

abbrev pub ◌>>◌ : {A B : Type 0} → Bits A → Bits B → Bits B
◌>>◌ m k r = let (a, r') = m r in k r'

abbrev pub return : {A : Type 0} → A → Bits A
return a r = (a, r)

-- `r.err = true`
abbrev pub fail : {A : Type 0} → A → Bits A
fail a r = (a, record r { err = true })

-- `(buf[pos >> 3] >> (7 - (pos & 7))) & 1`
abbrev pub bit_at : List ℕ → ℕ → ℕ
bit_at buf p = at buf (p / 8) / 2 ^ (7 - p % 8) % 2

-- `n` rounds of the loop of `br_u`, in `uint32_t`.
unfoldable pub take_bits : ℕ → List ℕ → ℕ → ℕ → ℕ
take_bits zero buf p value = value
take_bits (suc n) buf p value = take_bits n buf (p + 1) ((value * 2 + bit_at buf p) % 2 ^ 32)

unfoldable pub br_u : ℕ → Bits ℕ
br_u n r =
    if r.err
    then (0, r)
    else if n == 0 || ltb 32 n
    then (0, record r { err = true })
    else if ltb (r.len * 8) (r.pos + n)
    then (0, record r { err = true })
    else (take_bits n r.buf r.pos 0, record r { pos = r.pos + n })

-- The loop of `br_ue`, with `left` more zeros allowed: the number of zeros before the first one.
unfoldable pub ue_zeros : ℕ → ℕ → Bits ℕ
ue_zeros zero zeros r =
    if r.err
    then (0, r)
    else if (br_u 1 r).0 == 1
    then (zeros, (br_u 1 r).1)
    else (0, record (br_u 1 r).1 { err = true })
ue_zeros (suc left) zeros r =
    let more = ue_zeros left (zeros + 1) (br_u 1 r).1 in
    if r.err then (0, r) else if (br_u 1 r).0 == 1 then (zeros, (br_u 1 r).1) else more

ue_value : ℕ → Bits ℕ
ue_value zeros r =
    if r.err || zeros == 0 then (0, r) else (2 ^ zeros - 1 + (br_u zeros r).0, (br_u zeros r).1)

unfoldable pub br_ue : Bits ℕ
unfolding ue_value
br_ue = do zeros ← ue_zeros 31 0; ue_value zeros

unfoldable pub se_value : ℕ → ℤ
se_value k = if k % 2 == 1 then pos ((k + 1) / 2) else sub_ℕ 0 (k / 2)

unfoldable pub br_se : Bits ℤ
br_se = do k ← br_ue; return (se_value k)

-- Two's complement of `n` bits.
unfoldable pub i_value : ℕ → ℕ → Bool → ℤ
i_value n v err =
    if leb 32 n || err then i32 v else if leb (2 ^ (n - 1)) v then sub_ℕ v (2 ^ n) else pos v

unfoldable pub br_i : ℕ → Bits ℤ
br_i n r = (i_value n (br_u n r).0 (br_u n r).1.err, (br_u n r).1)

unfoldable pub br_flag : Bits Bool
br_flag = do b ← br_u 1; return (b == 1)

-- `if (c) m;`
abbrev pub when : Bool → Bits ℕ → Bits ℕ
when c m = if c then m else return 0
