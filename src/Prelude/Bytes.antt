-- ===== src/Prelude/Bytes.antt =====
-- Bytes and their bit fields, in the form that the tactics read: `x >> k` is `x / 2 ^ k`, a mask of
-- the low k bits is `x % 2 ^ k`, and `flag k x` is `(x & (1 << k)) != 0`.
use irl_srt_server.Prelude.{ℕ, zero, suc, ◌+◌, ◌*◌, max, ◌/◌, ◌%◌, ◌^◌, Bool, List, get_or, ◌==◌}

-- `p[k]` for a pointer `p` at the head of the list; 0 stands for what lies outside, which no proof
-- relies on.
abbrev pub at : List ℕ → ℕ → ℕ
at p k = get_or p k 0

abbrev pub flag : ℕ → ℕ → Bool
flag k x = x / 2 ^ k % 2 == 1

-- `(x >> from) & ((1 << width) - 1)`
abbrev pub field : ℕ → ℕ → ℕ → ℕ
field from width x = x / 2 ^ from % 2 ^ width

-- `a | b`. Bit `k` of the result is set if it is set on either side; `w` bits.
unfoldable pub lor : ℕ → ℕ → ℕ → ℕ
lor zero a b = 0
lor (suc w) a b = max (a % 2) (b % 2) + 2 * lor w (a / 2) (b / 2)
