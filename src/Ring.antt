-- ===== src/Ring.antt =====
-- src/core/SLSRecycleArray.hpp and .cpp: the ring of media bytes between one publisher and its
-- viewers. A method returns its result beside the new ring; the clock (`sls_gettime_ms`) and the
-- process-wide source of ring identities are arguments. `put` is two steps, of which `write_in` runs under
-- the lock of the ring and `count_put` behind it; every other method is one.
pub mod Inv
pub mod Put
pub mod Drain
pub mod Stream
pub mod Gauges
pub mod Torn
use irl_srt_server.Prelude.{
  ℕ, zero, suc, ◌+◌, ◌-◌, ◌*◌, ◌/◌, ◌%◌, ◌^◌, Bool, true, false, ◌||◌, ◌&&◌, not, Option, none,
  some, List, [], ◌++◌, ltb, leb, ◌==◌, if◌then◌else◌, take, drop, replicate, read_bytes,
  write_bytes,
}
use irl_srt_server.Prelude.Int.{
  ℤ, pos, negsuc, ◌-ℤ◌, ltb_ℤ, leb_ℤ, sls_ok, sls_error, i64, i32, add64,
}

-- `SLSRecycleArrayID`. The byte counter is the bit pattern of an `int64_t`.
pub record ReadId : Type 0 where
  pub read_pos : ℕ
  pub data_count : ℕ
  pub first : Bool
  pub generation : ℕ

-- `CSLSRecycleArray`. `freed` says that `m_arrayData` is NULL, as the destructor leaves it.
pub record Ring : Type 0 where
  pub bytes : List ℕ
  pub freed : Bool
  pub data_size : ℕ
  pub data_count : ℕ
  pub write_pos : ℕ
  pub last_read_time : ℕ
  pub overrun_count : ℕ
  pub max_reader_backlog : ℤ
  pub viewer_backpressure_events : ℕ
  pub viewer_snd_drops : ℕ
  pub ingest_discontinuities : ℕ
  pub generation : ℕ

-- `DEFAULT_MAX_DATA_SIZE`
abbrev pub default_max_data_size : ℕ
default_max_data_size = 8 * 1024 * 1024

-- The constructor, with the identity that `s_next_generation` yields; also the next identity.
-- The size of the first buffer is `default_max_data_size` wherever the program builds a ring.
unfoldable pub create_sized : ℕ → ℕ → ℕ → Ring × ℕ
create_sized size next_generation now = (
  record {
    bytes = replicate size 0;
    freed = false;
    data_size = size;
    data_count = 0;
    write_pos = 0;
    last_read_time = now;
    overrun_count = 0;
    max_reader_backlog = pos 0;
    viewer_backpressure_events = 0;
    viewer_snd_drops = 0;
    ingest_discontinuities = 0;
    generation = next_generation;
  },
  add64 next_generation 1,
)

unfoldable pub create : ℕ → ℕ → Ring × ℕ
unfolding create_sized
create = create_sized default_max_data_size

pub count : Ring → ℤ
count r = i32 (r.data_count % 2 ^ 32)

unfoldable pub set_size : Ring → ℕ → ℕ → Ring × ℕ
set_size r n next_generation = (
  record r {
    bytes = replicate n 0;
    freed = false;
    data_size = n;
    write_pos = 0;
    data_count = 0;
    generation = next_generation;
  },
  add64 next_generation 1,
)

-- The copy under the write lock: into one piece, or round the end.
pub copy_in : Ring → List ℕ → ℕ → List ℕ × ℕ
copy_in r d len =
    if leb len (r.data_size - r.write_pos)
    then (write_bytes r.bytes r.write_pos d, r.write_pos + len)
    else (
      write_bytes (write_bytes r.bytes r.write_pos (take first d)) 0 (drop first d),
      len - first,
    )
  where
    first : ℕ
    first = r.data_size - r.write_pos

pub wrap_pos : Ring → ℕ → ℕ
wrap_pos r p = if p == r.data_size then 0 else p

-- The part of `put` under the write lock.
abbrev pub write_in : Ring → List ℕ → ℕ → Ring
write_in r d len =
    let (bytes, p) = copy_in r d len in record r { bytes = bytes; write_pos = wrap_pos r p }

-- The counter goes up when the lock is released: a `get` may come in between.
abbrev pub count_put : Ring → ℕ → Ring
count_put r len = record r { data_count = add64 r.data_count len }

-- `data` is NULL or a buffer of which the first `len` bytes are read.
unfoldable pub put : Ring → Option (List ℕ) → ℤ → ℤ × Ring
unfolding copy_in wrap_pos
put r none len = (sls_error, r)
put r (some d) (negsuc len) = (sls_error, r)
put r (some d) (pos len) =
    if len == 0
    then (sls_error, r)
    else if ltb r.data_size len
    then (sls_error, r)
    else (pos len, count_put (write_in r (take len d) len) len)

-- What `get` hands back: its return value, the bytes copied out, the ring and the reader.
pub record Got : Type 0 where
  pub ret : ℤ
  pub out : List ℕ
  pub ring : Ring
  pub id : ReadId

unfoldable pub anchor : Ring → ReadId → ReadId
anchor r id = record id {
  read_pos = r.write_pos;
  data_count = r.data_count;
  generation = r.generation;
  first = false;
}

-- `copy_data_len`: what is ready, at most `size`, rounded down to whole units of `aligned`.
unfoldable pub copy_len : ℕ → ℕ → ℕ → ℕ
copy_len ready size aligned =
    let n = if leb ready size then ready else size in
    if ltb 0 aligned then n / aligned * aligned else n

abbrev pub ready_len : Ring → ReadId → ℕ
ready_len r id =
    if ltb id.read_pos r.write_pos
    then r.write_pos - id.read_pos
    else r.data_size - id.read_pos + r.write_pos

-- The copies out of the ring, and the position behind them before it is wrapped.
unfoldable pub copy_out : Ring → ReadId → ℕ → List ℕ × ℕ
copy_out r id n =
    if ltb id.read_pos r.write_pos || leb n tail
    then (read_bytes 0 r.bytes id.read_pos n, id.read_pos + n)
    else (read_bytes 0 r.bytes id.read_pos tail ++ read_bytes 0 r.bytes 0 (n - tail), n - tail)
  where
    tail : ℕ
    tail = r.data_size - id.read_pos

unfoldable pub clamp_pos : Ring → ℕ → ℕ
clamp_pos r p = if p == r.data_size then 0 else if ltb r.data_size p then 0 else p

unfoldable pub store_max : ℤ → ℤ → ℤ
store_max slot candidate = if ltb_ℤ slot candidate then candidate else slot

-- The part of `get` behind the overrun check.
unfoldable pub drain : Ring → ReadId → ℕ → ℕ → ℕ → ℤ → Got
drain r id size aligned now lag =
    let n = copy_len (ready_len r id) size aligned in
    let (out, p) = copy_out r id n in
    record {
      ret = pos n;
      out = out;
      ring = record r {
        max_reader_backlog = store_max r.max_reader_backlog lag;
        last_read_time = now;
      };
      id = record id { read_pos = clamp_pos r p; data_count = add64 id.data_count n };
    }

-- `bytes_since_last_read`
abbrev pub lag_of : Ring → ReadId → ℤ
lag_of r id = i64 r.data_count -ℤ i64 id.data_count

unfoldable pub resync : Ring → ReadId → Got
resync r id = record {
  ret = sls_ok;
  out = [];
  ring = record r { overrun_count = add64 r.overrun_count 1 };
  id = record id { read_pos = r.write_pos; data_count = r.data_count };
}

-- A `get` that reads nothing and leaves the ring as it is.
abbrev pub idle : Ring → ReadId → Got
idle r id = record { ret = sls_ok; out = []; ring = r; id = id }

unfoldable pub get_at : Ring → ReadId → ℕ → ℕ → ℕ → Got
get_at r id size aligned now =
    if id.first
    then idle r (anchor r id)
    else if not (id.generation == r.generation)
    then idle r (anchor r id)
    else if id.read_pos == r.write_pos && r.data_count == id.data_count
    then idle r id
    else if leb_ℤ (pos r.data_size) (lag_of r id) || ltb_ℤ (lag_of r id) (pos 0)
    then resync r id
    else drain r id size aligned now (lag_of r id)

-- The whole of `get`, its NULL checks included.
unfoldable pub get : Ring → Option ReadId → ℕ → ℕ → ℕ → ℤ × Option Got
get r none size aligned now = (sls_error, none)
get r (some id) size aligned now =
    if r.freed then (sls_error, none) else (let g = get_at r id size aligned now in (g.ret, some g))

unfoldable pub get_reader_backlog : Ring → Option ReadId → ℤ
get_reader_backlog r none = pos 0
get_reader_backlog r (some id) = if id.first then pos 0 else clamp_high (clamp_low (lag_of r id))
  where
    clamp_low : ℤ → ℤ
    clamp_low b = if ltb_ℤ b (pos 0) then pos 0 else b

    clamp_high : ℤ → ℤ
    clamp_high b = if ltb_ℤ (pos r.data_size) b then pos r.data_size else b

unfoldable pub is_stale_reader : Ring → Option ReadId → Bool
is_stale_reader r none = false
is_stale_reader r (some id) = not id.first && not (id.generation == r.generation)

-- The gauges that /stats polls; `clear` empties the gauge behind the read.
unfoldable pub get_max_reader_backlog : Ring → Bool → ℤ × Ring
get_max_reader_backlog r clear =
    (r.max_reader_backlog, if clear then record r { max_reader_backlog = pos 0 } else r)

unfoldable pub report_viewer_backpressure : Ring → Ring
report_viewer_backpressure r = record r {
  viewer_backpressure_events = add64 r.viewer_backpressure_events 1;
}

unfoldable pub get_viewer_backpressure_events : Ring → Bool → ℤ × Ring
get_viewer_backpressure_events r clear = (
  i64 r.viewer_backpressure_events,
  if clear then record r { viewer_backpressure_events = 0 } else r,
)

unfoldable pub report_viewer_snd_drops : Ring → ℤ → Ring
report_viewer_snd_drops r (negsuc n) = r
report_viewer_snd_drops r (pos n) =
    if ltb 0 n then record r { viewer_snd_drops = add64 r.viewer_snd_drops n } else r

unfoldable pub get_viewer_snd_drops : Ring → Bool → ℤ × Ring
get_viewer_snd_drops r clear =
    (i64 r.viewer_snd_drops, if clear then record r { viewer_snd_drops = 0 } else r)

unfoldable pub note_ingest_discontinuity : Ring → Ring
note_ingest_discontinuity r = record r { ingest_discontinuities = add64 r.ingest_discontinuities 1 }

unfoldable pub get_ingest_discontinuities : Ring → Bool → ℤ × Ring
get_ingest_discontinuities r clear =
    (i64 r.ingest_discontinuities, if clear then record r { ingest_discontinuities = 0 } else r)
