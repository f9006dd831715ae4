-- ===== src/MapData.antt =====
-- src/core/SLSMapData.hpp and .cpp: the rings, the continuity states and the timecode scanners of all
-- streams, and the budget that bounds what publishers may allocate. Every method runs under the map's
-- lock and is one step here. The maps never hold a NULL object, since only `add` and
-- `set_timecode_scan` fill them. The clock and the source of ring identities are arguments, as in Ring.
pub mod Budget
pub mod Relay
pub mod Reachable
pub mod Caps
pub mod Streams
pub mod Stats
use irl_srt_server.Prelude.{
  ℕ, ◌+◌, ◌-◌, ◌*◌, ◌/◌, ◌%◌, ◌^◌, Bool, true, false, ◌&&◌, Option, none, some, List, [], ◌∷◌, ltb,
  if◌then◌else◌,
}
use irl_srt_server.Prelude.Int.{
  ℤ, pos, negsuc, ◌+ℤ◌, pos_part, ltb_ℤ, leb_ℤ, sls_ok, sls_error, i64, i32, add64,
}
use irl_srt_server.Prelude.Keyed.{Key, Keyed, find, assign, erase, is_some}
use irl_srt_server.Ring
use irl_srt_server.Ring.{Ring, ReadId, Got}
use irl_srt_server.Ts.Continuity.{CcState, check_continuity}
use irl_srt_server.Ts.Continuity
use irl_srt_server.Timecode.State.{Codec, TcState, Clock}
use irl_srt_server.Timecode.State
use irl_srt_server.Timecode.Scan.{scan_timecode}

-- `CSLSMapData`. The two counters are bit patterns of an `int` and of an `int64_t`.
pub record MapData : Type 0 where
  pub rings : Keyed Ring
  pub cc_states : Keyed CcState
  pub tc_states : Keyed TcState
  pub stream_count : ℕ
  pub total_ring_bytes : ℕ
  pub max_streams : ℤ
  pub max_total_ring_bytes : ℤ

abbrev pub init : MapData
init = record {
  rings = [];
  cc_states = [];
  tc_states = [];
  stream_count = 0;
  total_ring_bytes = 0;
  max_streams = pos 0;
  max_total_ring_bytes = pos 0;
}

abbrev pub max_ring_bytes : ℕ
max_ring_bytes = 32 * 1024 * 1024

-- The latency window in seconds, at least one.
abbrev pub window_secs : ℕ → ℕ
window_secs latency_ms = if ltb (latency_ms / 1000) 1 then 1 else latency_ms / 1000

abbrev pub target_bytes : ℕ → ℕ → ℕ
target_bytes kbps latency_ms = kbps * 1000 / 8 * window_secs latency_ms

-- The size `add` decides on for a ring whose first buffer has `base` bytes. The arguments are `int`s,
-- so that the products stay below 2^63.
unfoldable pub intended_size : ℕ → ℤ → ℤ → ℕ
intended_size base (negsuc k) latency_ms = base
intended_size base (pos k) (negsuc l) = base
intended_size base (pos k) (pos l) =
    if ltb 0 k && ltb 0 l then (if ltb base capped then capped else base) else base
  where
    capped : ℕ
    capped = if ltb max_ring_bytes (target_bytes k l) then max_ring_bytes else target_bytes k l

unfoldable pub streams_full : MapData → Bool
streams_full m = ltb_ℤ (pos 0) m.max_streams && leb_ℤ m.max_streams (i32 m.stream_count)

unfoldable pub bytes_full : MapData → ℕ → Bool
bytes_full m size =
    ltb_ℤ (pos 0) m.max_total_ring_bytes
    && ltb_ℤ m.max_total_ring_bytes (i64 m.total_ring_bytes +ℤ pos size)

-- The ring behind `setSize`, which runs only when the ring has to grow.
unfoldable pub grow : Ring × ℕ → ℕ → Ring × ℕ
grow (r, next) size = if ltb r.data_size size then Ring.set_size r size next else (r, next)

-- The commit of `add`: the ring, the two counters, and a continuity state if there is none.
unfoldable pub commit : MapData → Key → Ring → MapData
commit m key r = record m {
  rings = assign key r m.rings;
  stream_count = (m.stream_count + 1) % 2 ^ 32;
  total_ring_bytes = add64 m.total_ring_bytes r.data_size;
  cc_states =
      if is_some (find key m.cc_states)
      then m.cc_states
      else assign key Continuity.init m.cc_states;
}

-- `add`, for rings whose constructor gives them `base` bytes; also the next ring identity.
unfoldable pub add_sized : ℕ → MapData → Key → ℤ → ℤ → ℕ → ℕ → ℤ × MapData × ℕ
add_sized base m key max_bitrate_kbps latency_ms next now =
    if is_some (find key m.rings)
    then (sls_ok, m, next)
    else if streams_full m
    then (sls_error, m, next)
    else if bytes_full m size
    then (sls_error, m, fresh.1)
    else (sls_ok, commit m key grown.0, grown.1)
  where
    size : ℕ
    size = intended_size base max_bitrate_kbps latency_ms

    fresh : Ring × ℕ
    fresh = Ring.create_sized base next now

    grown : Ring × ℕ
    grown = grow fresh size

unfoldable pub add : MapData → Key → ℤ → ℤ → ℕ → ℕ → ℤ × MapData × ℕ
unfolding add_sized
add = add_sized Ring.default_max_data_size

unfoldable pub set_caps : MapData → ℤ → ℤ → MapData
set_caps m streams bytes = record m { max_streams = streams; max_total_ring_bytes = bytes }

-- What one freed ring gives back.
unfoldable pub release : Ring → MapData → MapData
release r m = record m {
  stream_count = (m.stream_count + (2 ^ 32 - 1)) % 2 ^ 32;
  total_ring_bytes = (m.total_ring_bytes + (2 ^ 64 - r.data_size % 2 ^ 64)) % 2 ^ 64;
}

unfoldable pub drop_states : MapData → Key → MapData
drop_states m key = record m {
  cc_states = erase key m.cc_states;
  tc_states = erase key m.tc_states;
}

unfoldable pub remove_ring : Option Ring → MapData → Key → ℤ × MapData
remove_ring none m key = (sls_error, m)
remove_ring (some r) m key = (sls_ok, record (release r m) { rings = erase key m.rings })

unfoldable pub remove : MapData → Key → ℤ × MapData
remove m key = remove_ring (find key m.rings) (drop_states m key) key

-- The loop of `clear` over the rings.
unfoldable pub release_all : Keyed Ring → MapData → MapData
release_all [] m = m
release_all (entry ∷ rest) m = release_all rest (release entry.1 m)

unfoldable pub clear : MapData → MapData
clear m = record (release_all m.rings m) { rings = []; cc_states = []; tc_states = [] }

unfoldable pub is_exist : MapData → Key → Bool
is_exist m key = is_some (find key m.rings)

-- The continuity check in `put`, and the note on the ring that it leads to.
unfoldable pub check_ingest :
    Option CcState → Option (List ℕ) → ℤ → MapData → Key → Ring → MapData × Ring
check_ingest none bytes len m key r = (m, r)
check_ingest (some cc) bytes len m key r =
    let (breaks, cc') = check_continuity bytes (pos_part len) (some cc) in
    (
      record m { cc_states = keep cc' },
      if ltb 0 breaks then Ring.note_ingest_discontinuity r else r,
    )
  where
    keep : Option CcState → Keyed CcState
    keep none = m.cc_states
    keep (some cc') = assign key cc' m.cc_states

unfoldable pub store_scan : MapData → Key → Option TcState → MapData
store_scan m key none = m
store_scan m key (some tc) = record m { tc_states = assign key tc m.tc_states }

unfoldable pub scan_ingest : Option TcState → Option (List ℕ) → ℤ → MapData → Key → MapData
scan_ingest none bytes len m key = m
scan_ingest (some tc) bytes len m key =
    store_scan m key (scan_timecode bytes (pos_part len) (some tc)).1

-- What `put` hands back: its return value, what it stores through `last_read_time`, and the map.
pub record Put : Type 0 where
  pub ret : ℤ
  pub last_read_time : Option ℕ
  pub map : MapData

unfoldable pub put_ring : Option Ring → MapData → Key → Option (List ℕ) → ℤ → Put
put_ring none m key bytes len = record { ret = sls_error; last_read_time = none; map = m }
put_ring (some r) m key bytes len =
    let (m', r') = check_ingest (find key m.cc_states) bytes len m key r in
    let m'' = scan_ingest (find key m'.tc_states) bytes len m' key in
    let (ret, r'') = Ring.put r' bytes len in
    record {
      ret = ret;
      last_read_time = some r.last_read_time;
      map = record m'' { rings = assign key r'' m''.rings };
    }

unfoldable pub put : MapData → Key → Option (List ℕ) → ℤ → Put
put m key bytes len = put_ring (find key m.rings) m key bytes len

unfoldable pub store_got : MapData → Key → Option Got → MapData
store_got m key none = m
store_got m key (some g) = record m { rings = assign key g.ring m.rings }

unfoldable pub get_ring :
    Option Ring → MapData → Key → Option ReadId → ℕ → ℕ → ℕ → ℤ × Option Got × MapData
get_ring none m key id size aligned now = (sls_error, none, m)
get_ring (some r) m key id size aligned now =
    let (ret, got) = Ring.get r id size aligned now in (ret, got, store_got m key got)

unfoldable pub get : MapData → Key → Option ReadId → ℕ → ℕ → ℕ → ℤ × Option Got × MapData
get m key id size aligned now = get_ring (find key m.rings) m key id size aligned now
