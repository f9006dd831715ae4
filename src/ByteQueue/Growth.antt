-- ===== src/ByteQueue/Growth.antt =====
-- `CSLSArray::put` when the buffer must grow: the new buffer starts with all that is there, but the
-- write position is set to its start as well.
use irl_srt_server.Prelude.{ℕ, ◌+◌, ◌≤◌, ◌<◌, ◌≡◌, some, List, arith, min, length}
use irl_srt_server.Prelude.Int.{pos}
use irl_srt_server.ByteQueue.{ByteQueue, get, get_inline, put, expand, count, ext_len, moved}
use irl_srt_server.ByteQueue.Fifo.{Holds, get-Holds}

moved-all :
    (q : ByteQueue) (log : List ℕ) → Holds q log → moved (get_inline q q.data_count).0 ≡ length log
unfolding get
moved-all q log v = rw ((get-Holds q log v q.data_count).0) (omega (arith, v.counted))

-- A put that needs more than the free space makes the buffer grow and counts its bytes, but the next
-- read hands out as much of the whole new buffer as it asks for, whatever is there.
pub put-grows :
    (q : ByteQueue) (log d : List ℕ) (len size : ℕ)
    → Holds q log
    → q.data_size < length log + len
    → let q' = (put q (some d) (pos len)).1 in
      (count q' ≡ length log + len)
      × (length log + len ≤ ext_len q len)
      × ((get q' size).0 ≡ pos (min size (ext_len q len)))
unfolding put count expand get get_inline
put-grows q log d len size v over =
    ground (arith, v.counted, v.room, v.read_in, v.write_at, moved-all q log v)
