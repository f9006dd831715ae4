-- ===== src/Role/Reading.antt =====
-- `handler_read_data` of src/core/SLSRole.cpp: how a publisher's datagram reaches the ring of its stream.
use irl_srt_server.Prelude.{
  ℕ, ◌+◌, ◌-◌, ◌*◌, ◌/◌, ◌%◌, ◌^◌, Bool, true, false, ◌&&◌, not, Option, none, some, List, [], ◌∷◌,
  ltb, length, ◌==◌, if◌then◌else◌,
}
use irl_srt_server.Prelude.Int.{ℤ, pos, sub_ℕ, leb_ℤ, i32, sls_ok, sls_error}
use irl_srt_server.AuthRejectCache.{Cache}
use irl_srt_server.BitrateLimit.{Limiter, Check, bitrate_disconnect, check_data_bitrate}
use irl_srt_server.MapData
use irl_srt_server.MapData.{MapData}
use irl_srt_server.MapData.Stats.{set_timecode_scan}
use irl_srt_server.Relay.Loop.{is_ok}
use irl_srt_server.Role.{Role, World, Conf, Bitrate, reads, invalid_srt, is_empty}
use irl_srt_server.Role.Webhook.{Vetter, Response, Checked, check_http_passed}

-- What `libsrt_read` did: it gave a datagram of at most TS_UDP_LEN bytes, it had none (SRT_EASYNCRCV), or it
-- failed, also by an end of the connection.
pub data Arrival : Type 0 where
  datagram : List ℕ → Arrival
  no_data : Arrival
  read_failed : Arrival

-- What the handler hands back, the streams and the next identity of a ring included. What `put` stores
-- through `last_read_time` is `none` where there is no `put`.
pub record Read : Type 0 where
  pub ret : ℤ
  pub role : Role
  pub map : MapData
  pub next : ℕ
  pub last_read_time : Option ℕ

abbrev pub not_put : ℤ → Role → MapData → ℕ → Read
not_put ret r map next = record {
  ret = ret;
  role = r;
  map = map;
  next = next;
  last_read_time = none;
}

-- The bitrate of what arrives.
unfoldable pub note_received : Bitrate → ℕ → ℕ → Bitrate
note_received b n now =
    let counted = b.datacount + n in
    if ltb b.last_tm now && leb_ℤ b.interval (sub_ℕ now b.last_tm)
    then record b {
      datacount = 0;
      last_tm = now;
      kbitrate = i32 (counted * 8 / (now - b.last_tm) % 2 ^ 32);
    }
    else record b { datacount = counted }

-- The hook of a publisher behind the allocation of its ring (`CSLSPublisher::on_map_data_set`), by
-- whether its application wants timecode.
unfoldable pub on_map_data_set : Bool → Role → MapData → MapData
on_map_data_set timecode_sei r map =
    if r.ring_added && r.has_map_data && not (is_empty r.map_data_key) && timecode_sei
    then set_timecode_scan map (some r.map_data_key) true
    else map

unfoldable pub put_chunk : Role → MapData → ℕ → List ℕ → Read
put_chunk r map next d =
    let done = MapData.put map r.map_data_key (some d) (pos (length d)) in
    record {
      ret = done.ret;
      role = r;
      map = done.map;
      next = next;
      last_read_time = done.last_read_time;
    }

abbrev pub bitrate_hint : Option Conf → ℤ
bitrate_hint none = pos 0
bitrate_hint (some conf) = conf.max_input_bitrate_kbps

-- Behind `add`.
abbrev pub ring_made : World → Bool → Role → List ℕ → ℤ × MapData × ℕ → Read
ring_made w timecode_sei r d (ret, map, next) =
    if is_ok ret
    then (let added : Role = record r { ring_added = true } in
        put_chunk added (on_map_data_set timecode_sei added map) next d)
    else not_put sls_error (invalid_srt w r) map next

-- The ring is allocated with the first datagram.
unfoldable pub store_chunk : World → Bool → ℕ → Role → MapData → ℕ → List ℕ → Read
store_chunk w timecode_sei now r map next d =
    if not r.has_map_data
    then not_put sls_error r map next
    else if r.ring_added
    then put_chunk r map next d
    else ring_made w timecode_sei r d
        (MapData.add map r.map_data_key (bitrate_hint r.conf) r.latency next now)

abbrev pub is_disconnect : Check → Bool
is_disconnect bitrate_disconnect = true
is_disconnect _ = false

abbrev pub limit : Option Limiter → ℕ → ℕ → Bool × Option Limiter
limit none n now = (false, none)
limit (some l) n now =
    let (verdict, l') = check_data_bitrate l n now in (is_disconnect verdict, some l')

-- A datagram of whole packets, at this time.
unfoldable pub receive : World → Bool → ℕ → Role → MapData → ℕ → List ℕ → Read
receive w timecode_sei now r map next d =
    let (over, limiter) = limit r.bitrate_limiter (length d) now in
    let received : Role = record r {
      invalid_begin_tm = now;
      last_recv_data_tm = now;
      bitrate_limiter = limiter;
    } in
    if over
    then not_put sls_error (invalid_srt w received) map next
    else store_chunk w timecode_sei now
        (record received { bitrate = note_received r.bitrate (length d) now }) map next d

abbrev pub arrived : World → Bool → ℕ → Role → MapData → ℕ → Arrival → Read
arrived w timecode_sei now r map next no_data = not_put sls_ok r map next
arrived w timecode_sei now r map next read_failed = not_put sls_error r map next
arrived w timecode_sei now r map next (datagram []) = not_put sls_error r map next
arrived w timecode_sei now r map next (datagram (b ∷ d)) =
    if length (b ∷ d) % 188 == 0
    then receive w timecode_sei now r map next (b ∷ d)
    else not_put sls_error (invalid_srt w r) map next

abbrev pub read_from : World → Bool → ℕ → Arrival → Role → MapData → ℕ → Option ℕ → Read
read_from w timecode_sei now arrival r map next none = not_put sls_error r map next
read_from w timecode_sei now arrival r map next (some s) =
    arrived w timecode_sei now (record r { calls = reads s ∷ r.calls }) map next arrival

abbrev pub read_checked : World → Bool → ℕ → Arrival → MapData → ℕ → Checked → Read
read_checked w timecode_sei now arrival map next c =
    if is_ok c.ret
    then read_from w timecode_sei now arrival c.role map next c.role.srt
    else not_put sls_ok c.role map next

-- `handler_read_data`, with the clocks of the check and of the read, and the cache of refused ids.
unfoldable pub handler_read_data :
    World
    → Vetter
    → Bool
    → ℕ
    → ℕ
    → ℕ
    → Option Response
    → Arrival
    → Role
    → Option Cache
    → MapData
    → ℕ
    → Read × Option Cache
handler_read_data w v timecode_sei now now_s read_now answer arrival r cache map next =
    let c = check_http_passed w v now now_s answer r cache in
    (read_checked w timecode_sei read_now arrival map next c, c.cache)
