-- ===== src/Ring/Inv.antt =====
-- What a ring holds: the end of the stream of bytes put into it, and where a reader stands in it.
use irl_srt_server.Prelude.{
  ℕ, ◌+◌, ◌-◌, ◌^◌, ◌≤◌, ◌<◌, ◌≡◌, refl, false, List, [], arith, leb, if◌then◌else◌, length, get_or,
  length-replicate,
}
use irl_srt_server.Ring.{Ring, ReadId, create_sized, set_size, anchor}

-- The index of the byte that was put `k` bytes ago, with the next put at `wp` (0 < k ≤ size).
abbrev pub back : ℕ → ℕ → ℕ → ℕ
back wp size k = if leb k wp then wp - k else wp + size - k

-- `log` is all that was put since the buffer was made, oldest first; the ring holds its end.
pub record Holds (r : Ring) (log : List ℕ) : Type 0 where
  pub in_use : r.freed ≡ false
  pub stored : length r.bytes ≡ r.data_size
  pub head_in : r.write_pos < r.data_size
  pub counted : r.data_count ≡ length log
  pub countable : length log < 2 ^ 63
  pub newest :
      (k : ℕ)
      → 0 < k
      → k ≤ r.data_size
      → k ≤ length log
      → get_or r.bytes (back r.write_pos r.data_size k) 0 ≡ get_or log (length log - k) 0

-- The reader has read the log up to `cursor`.
pub record IsAt (r : Ring) (id : ReadId) (cursor : ℕ) : Type 0 where
  pub anchored : id.first ≡ false
  pub same : id.generation ≡ r.generation
  pub read_in : id.read_pos < r.data_size
  pub behind : cursor ≤ r.data_count
  pub consumed : id.data_count ≡ cursor
  pub placed :
      r.data_count < cursor + r.data_size
      → id.read_pos ≡ back r.write_pos r.data_size (r.data_count - cursor)

pub anchor-IsAt :
    {r : Ring} {log : List ℕ} (id : ReadId) → Holds r log → IsAt r (anchor r id) (length log)
unfolding anchor
anchor-IsAt id v = ground arith

pub create_sized-Holds : (size next now : ℕ) → 0 < size → Holds (create_sized size next now).0 []
unfolding create_sized
create_sized-Holds size next now h = record {
  in_use = refl;
  stored = length-replicate size 0;
  head_in = h;
  counted = refl;
  countable = omega arith;
  newest = λ k k_pos k_size k_log. absurd (omega arith);
}

pub set_size-Holds : (r : Ring) (n next : ℕ) → 0 < n → Holds (set_size r n next).0 []
unfolding set_size
set_size-Holds r n next h = record {
  in_use = refl;
  stored = length-replicate n 0;
  head_in = h;
  counted = refl;
  countable = omega arith;
  newest = λ k k_pos k_size k_log. absurd (omega arith);
}
