-- ===== src/Ring/Gauges.antt =====
-- The diagnostic readings of SLSRecycleArray.cpp, and readers that stand on another buffer.
use irl_srt_server.Prelude.{
  ℕ, ◌-◌, ◌<◌, ◌≡◌, ◌≢◌, refl, true, false, some, List, [], arith, length, inr, min,
}
use irl_srt_server.Prelude.Int.{pos, sls_ok}
use irl_srt_server.Ring.{Ring, ReadId, get_at, set_size, get_reader_backlog, is_stale_reader}
use irl_srt_server.Ring.Inv.{Holds, IsAt, set_size-Holds}
use irl_srt_server.Ring.Drain.{get_at_rejoins}

-- The backlog reported for a reader is the number of bytes it has not read, capped at the size of
-- the ring, also after the writer has lapped it.
pub get_reader_backlog_lem :
    (r : Ring) (log : List ℕ) (id : ReadId) (cursor : ℕ)
    → Holds r log
    → IsAt r id cursor
    → get_reader_backlog r (some id) ≡ pos (min (length log - cursor) r.data_size)
unfolding get_reader_backlog
get_reader_backlog_lem r log id cursor v a =
    ground (arith, v.counted, v.countable, a.consumed, a.anchored, a.behind)

generation-set_size : (r : Ring) (n next : ℕ) → (set_size r n next).0.generation ≡ next
unfolding set_size
generation-set_size r n next = refl

stale-other :
    (r : Ring) (id : ReadId)
    → id.first ≡ false
    → id.generation ≢ r.generation
    → is_stale_reader r (some id) ≡ true
unfolding is_stale_reader
stale-other r id old other = ground arith

stale-same :
    (r : Ring) (id : ReadId) → id.generation ≡ r.generation → is_stale_reader r (some id) ≡ false
unfolding is_stale_reader
stale-same r id same = ground arith

-- After `setSize` every reader that stood on the old buffer is stale: its next `get` returns no byte
-- of either buffer, puts the reader at the start of the new stream and leaves the ring as it was.
pub set_size_invalidates :
    (r : Ring) (id : ReadId) (n next size aligned now : ℕ)
    → 0 < n
    → id.first ≡ false
    → id.generation ≢ next
    → let r' = (set_size r n next).0 in
      let g = get_at r' id size aligned now in
      (is_stale_reader r' (some id) ≡ true)
      × (g.out ≡ [])
      × IsAt r' g.id 0
      × (g.ring ≡ r')
      × (is_stale_reader r' (some g.id) ≡ false)
set_size_invalidates r id n next size aligned now n_pos old other = (
  stale-other r' id old (rw (generation-set_size r n next) other),
  done.1,
  done.2,
  done.3,
  stale-same r' (get_at r' id size aligned now).id done.2.same,
)
  where
    r' : Ring
    r' = (set_size r n next).0

    done :
        let g = get_at r' id size aligned now in
        (g.ret ≡ sls_ok) × (g.out ≡ []) × IsAt r' g.id 0 × (g.ring ≡ r')
    done =
        get_at_rejoins r' [] id size aligned now (set_size-Holds r n next n_pos)
          (inr (rw (generation-set_size r n next) other))
