-- ===== src/Ring/Drain.antt =====
-- `CSLSRecycleArray::get`: which bytes a reader is handed, and where it stands afterwards.
use native.Mathlib.Nat.{add-zero}
use irl_srt_server.Prelude.{
  ℕ, ◌+◌, ◌-◌, ◌≤◌, ◌<◌, ◌≡◌, ◌≢◌, refl, sym, ap, ap₂, ◌∙◌, ◌⊎◌, inl, inr, true, List, [], ◌++◌,
  arith, leb, ltb, ltb→lt, Bool-cases, ◌||◌, length, read_bytes, read_bytes_ext, read_bytes-add,
}
use irl_srt_server.Prelude.Int.{ℤ, pos, sls_ok, add64}
use irl_srt_server.Ring.{
  Ring, ReadId, get_at, idle, resync, drain, copy_out, clamp_pos, copy_len, ready_len, lag_of,
}
use irl_srt_server.Ring.Inv.{Holds, IsAt, back, anchor-IsAt}

pub copy_len-le :
    (ready size aligned : ℕ)
    → (copy_len ready size aligned ≤ ready) × (copy_len ready size aligned ≤ size)
unfolding copy_len
copy_len-le ready size aligned = grind arith

module _ (r : Ring) (log : List ℕ) (id : ReadId) (cursor : ℕ) (v : Holds r log)
    (a : IsAt r id cursor) (lag_pos : cursor < length log)
    (kept : length log < cursor + r.data_size) where
  lag-eq : lag_of r id ≡ pos (length log - cursor)
  lag-eq = ground (arith, v.counted, v.countable, a.consumed)

  ready_len-eq : ready_len r id ≡ length log - cursor
  ready_len-eq = ground (arith, a.placed)

  -- The bytes from index `p` on are those of the log from `c` on, up to the end of the buffer.
  read-piece :
      (p c n : ℕ)
      → cursor ≤ c
      → c + n ≤ length log
      → p + n ≤ r.data_size
      → (0 < n → p ≡ back r.write_pos r.data_size (length log - c))
      → read_bytes 0 r.bytes p n ≡ read_bytes 0 log c n
  read-piece p c n after short inside at =
      read_bytes_ext 0 r.bytes log p c n λ k lt. ground (arith, at, v.newest (length log - (c + k)))

  -- Round the end: the bytes up to the end of the buffer, then those from its start.
  read-round :
      (n tail : ℕ)
      → n ≤ length log - cursor
      → tail + id.read_pos ≡ r.data_size
      → tail < n
      → r.write_pos ≤ id.read_pos
      → read_bytes 0 r.bytes id.read_pos tail ++ read_bytes 0 r.bytes 0 (n - tail)
        ≡ read_bytes 0 log cursor n
  read-round n tail le e over wrapped =
      ap₂ ◌++◌
        (read-piece id.read_pos cursor tail (omega arith) (omega arith) (omega arith)
          (λ h. ground (arith, a.placed)))
        (read-piece 0 (cursor + tail) (n - tail) (omega arith) (omega arith)
          (ground (arith, a.placed)) (λ h. ground (arith, a.placed)))
      ∙ sym (read_bytes-add 0 log cursor tail (n - tail))
      ∙ ap (read_bytes 0 log cursor) (omega arith)

  copy_out-eq : (n : ℕ) → n ≤ length log - cursor → (copy_out r id n).0 ≡ read_bytes 0 log cursor n
  unfolding copy_out
  copy_out-eq n le =
      elim (Bool-cases (ltb id.read_pos r.write_pos || leb n (r.data_size - id.read_pos))) [
        | inl one ↦ rw one (
            read-piece id.read_pos cursor n (omega arith) (omega arith)
              (ground (arith, one, a.placed)) (λ h. ground (arith, a.placed)))
        | inr two ↦ rw two (
            read-round n (r.data_size - id.read_pos) le (omega (arith, a.read_in))
              (ground (arith, two)) (ground (arith, two)))
      ]

  -- Where the reader stands behind the copy.
  clamp_pos-lt : (n : ℕ) → n ≤ length log - cursor → clamp_pos r (copy_out r id n).1 < r.data_size
  unfolding copy_out clamp_pos
  clamp_pos-lt n le = ground (arith, a.placed, a.read_in)

  clamp_pos-back :
      (n : ℕ)
      → n ≤ length log - cursor
      → clamp_pos r (copy_out r id n).1 ≡ back r.write_pos r.data_size (length log - (cursor + n))
  unfolding copy_out clamp_pos
  clamp_pos-back n le = ground (arith, a.placed, a.read_in, v.counted)

  -- The reader is handed the next bytes of the stream.
  drain-out :
      (size aligned now : ℕ) (lag : ℤ)
      → let n = copy_len (length log - cursor) size aligned in
        let g = drain r id size aligned now lag in
        (g.ret ≡ pos n)
        × (g.out ≡ read_bytes 0 log cursor n)
        × IsAt g.ring g.id (cursor + n)
        × Holds g.ring log
  unfolding drain
  drain-out size aligned now lag = rw ready_len-eq (
    refl,
    copy_out-eq n le,
    record {
      anchored = a.anchored;
      same = a.same;
      read_in = clamp_pos-lt n le;
      behind = omega (arith, le, v.counted);
      consumed = omega (arith, le, v.countable, a.consumed);
      placed = λ h.
          clamp_pos-back n le
          ∙ ap (λ t. back r.write_pos r.data_size (t - (cursor + n))) (sym v.counted);
    },
    record {
      in_use = v.in_use;
      stored = v.stored;
      head_in = v.head_in;
      counted = v.counted;
      countable = v.countable;
      newest = v.newest;
    },
  )
    where
      n : ℕ
      n = copy_len (length log - cursor) size aligned

      le : n ≤ length log - cursor
      le = (copy_len-le (length log - cursor) size aligned).0

module _ (r : Ring) (log : List ℕ) (id : ReadId) (cursor size aligned now : ℕ) (v : Holds r log)
    (a : IsAt r id cursor) where
  get_at-drain :
      cursor < length log
      → length log < cursor + r.data_size
      → get_at r id size aligned now ≡ drain r id size aligned now (pos (length log - cursor))
  unfolding get_at
  get_at-drain more kept = ground (arith, v.counted, v.countable, a.consumed, a.same, a.anchored)

  get_at-idle : cursor ≡ length log → get_at r id size aligned now ≡ idle r id
  unfolding get_at
  get_at-idle e = ground (arith, v.counted, v.head_in, a.consumed, a.same, a.anchored, a.placed)

  get_at-resync : cursor + r.data_size ≤ length log → get_at r id size aligned now ≡ resync r id
  unfolding get_at
  get_at-resync lapped =
      ground (arith, v.counted, v.head_in, v.countable, a.consumed, a.same, a.anchored)

  pub get_at_next :
      length log < cursor + r.data_size
      → let n = copy_len (length log - cursor) size aligned in
        let g = get_at r id size aligned now in
        (g.ret ≡ pos n)
        × (g.out ≡ read_bytes 0 log cursor n)
        × IsAt g.ring g.id (cursor + n)
        × Holds g.ring log
  unfolding read_bytes
  get_at_next kept = elim (Bool-cases (ltb cursor (length log))) [
    | inl more ↦ rw (get_at-drain (ltb→lt cursor (length log) more) kept) (
        drain-out r log id cursor v a (ltb→lt cursor (length log) more) kept size aligned now
          (pos (length log - cursor)))
    | inr none_left ↦
        let e : cursor ≡ length log = ground (arith, none_left, a.behind, v.counted) in
        let n_zero : copy_len (length log - cursor) size aligned ≡ 0 =
          omega (arith, copy_len-le (length log - cursor) size aligned) in
        rw (get_at-idle e, n_zero) (refl, refl, rw add-zero a, v)
  ]

  -- A reader that the writer has lapped is moved to the write head, gets no bytes, and is counted.
  pub get_at_lapped :
      cursor + r.data_size ≤ length log
      → let g = get_at r id size aligned now in
        (g.ret ≡ sls_ok)
        × (g.out ≡ [])
        × IsAt g.ring g.id (length log)
        × Holds g.ring log
        × (g.ring.overrun_count ≡ add64 r.overrun_count 1)
  get_at_lapped lapped = rw (get_at-resync lapped) (
      unfold resync in
      (
        refl,
        refl,
        ground arith,
        record {
          in_use = v.in_use;
          stored = v.stored;
          head_in = v.head_in;
          counted = v.counted;
          countable = v.countable;
          newest = v.newest;
        },
        refl,
      ))

-- A reader that never anchored, or anchored on another buffer, is moved to the write head and gets
-- no bytes; the ring stays as it was.
pub get_at_rejoins :
    (r : Ring) (log : List ℕ) (id : ReadId) (size aligned now : ℕ)
    → Holds r log
    → (id.first ≡ true) ⊎ (id.generation ≢ r.generation)
    → let g = get_at r id size aligned now in
      (g.ret ≡ sls_ok) × (g.out ≡ []) × IsAt r g.id (length log) × (g.ring ≡ r)
unfolding get_at
get_at_rejoins r log id size aligned now v other = ground (arith, anchor-IsAt id v)

-- A call of `get` changes nothing of the ring but its gauges.
pub get_at-keeps :
    (r : Ring) (id : ReadId) (size aligned now : ℕ)
    → let r' = (get_at r id size aligned now).ring in
      (r'.bytes ≡ r.bytes)
      × (r'.freed ≡ r.freed)
      × (r'.data_size ≡ r.data_size)
      × (r'.data_count ≡ r.data_count)
      × (r'.write_pos ≡ r.write_pos)
      × (r'.generation ≡ r.generation)
unfolding get_at drain resync
get_at-keeps r id size aligned now = ground arith
