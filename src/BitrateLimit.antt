-- ===== src/BitrateLimit.antt =====
-- src/core/SLSBitrateLimit.hpp and .cpp: the sliding window over a publisher's bytes and the decision to
-- disconnect it. Times are milliseconds and arguments. The tolerance is a `float` of the source, of
-- which only the product with the limit is used; `spike_limit` stands for that product, cut to an `int`,
-- and a tolerance below 1 is `none`. Bitrates, and the timeout in milliseconds, stay below 2^31, so
-- that the casts to `int` change nothing.
pub mod Window
pub mod Verdict
use irl_srt_server.Prelude.{
  ℕ, zero, suc, ◌+◌, ◌-◌, ◌*◌, ◌/◌, Bool, true, false, ◌&&◌, ◌||◌, not, Option, none, some, List,
  [], ◌∷◌, ◌++◌, max, ltb, leb, ◌==◌, if◌then◌else◌,
}
use irl_srt_server.Prelude.Int.{ℤ, pos, negsuc, pos_part, sub_ℕ, ltb_ℤ, leb_ℤ, sls_ok, sls_error}

-- `DataPoint`
pub record DataPoint : Type 0 where
  pub timestamp_ms : ℕ
  pub bytes : ℕ

-- `CSLSBitrateLimit`. `data_window` has the oldest point in front.
pub record Limiter : Type 0 where
  pub max_bitrate_kbps : ℕ
  pub window_ms : ℕ
  pub spike_limit : ℕ → ℕ
  pub violation_threshold_ms : ℕ
  pub data_window : List DataPoint
  pub total_bytes_in_window : ℕ
  pub in_violation : Bool
  pub violation_start_time : ℕ
  pub last_violation_log_time : ℕ
  pub total_bytes_received : ℕ
  pub total_bytes_dropped : ℕ
  pub last_cleanup_time : ℕ

-- `BitrateCheckResult`
pub data Check : Type 0 where
  bitrate_ok bitrate_violation bitrate_disconnect : Check

-- The constructor, whose tolerance of 2.0 is a doubling.
abbrev pub init_limiter : Limiter
init_limiter = record {
  max_bitrate_kbps = 0;
  window_ms = 5000;
  spike_limit = λ kbps. kbps * 2;
  violation_threshold_ms = 30000;
  data_window = [];
  total_bytes_in_window = 0;
  in_violation = false;
  violation_start_time = 0;
  last_violation_log_time = 0;
  total_bytes_received = 0;
  total_bytes_dropped = 0;
  last_cleanup_time = 0;
}

unfoldable pub reset_stats : Limiter → ℕ → Limiter
reset_stats l now = record l {
  total_bytes_received = 0;
  total_bytes_dropped = 0;
  in_violation = false;
  violation_start_time = 0;
  last_violation_log_time = 0;
  last_cleanup_time = now;
}

-- `init`, which refuses a negative limit, timeouts and windows that are not positive, and a tolerance
-- below 1.
unfoldable pub configure : Limiter → ℤ → ℤ → ℤ → Option (ℕ → ℕ) → ℕ → ℤ × Limiter
configure l kbps timeout window none now = (sls_error, l)
configure l kbps timeout window (some spike_limit) now =
    if ltb_ℤ kbps (pos 0) || leb_ℤ timeout (pos 0) || leb_ℤ window (pos 0)
    then (sls_error, l)
    else (
      sls_ok,
      reset_stats
          (record l {
            max_bitrate_kbps = pos_part kbps;
            violation_threshold_ms = pos_part timeout * 1000;
            window_ms = pos_part window;
            spike_limit = spike_limit;
            data_window = [];
            total_bytes_in_window = 0;
          })
          now,
    )

-- The loop of `cleanup_old_data`: points from before `now - window` go, and their bytes with them.
unfoldable pub expire : ℕ → ℕ → List DataPoint → ℕ → List DataPoint × ℕ
expire now window [] total_ = ([], total_)
expire now window (p ∷ ps) total_ =
    let rest = expire now window ps (total_ - p.bytes) in
    if ltb (p.timestamp_ms + window) now then rest else (p ∷ ps, total_)

unfoldable pub cleanup_old_data : Limiter → ℕ → Limiter
cleanup_old_data l now =
    let (ps, total_) = expire now l.window_ms l.data_window l.total_bytes_in_window in
    record l { data_window = ps; total_bytes_in_window = total_ }

unfoldable pub push : Limiter → ℕ → ℕ → Limiter
push l bytes now = record l {
  total_bytes_received = l.total_bytes_received + bytes;
  data_window = l.data_window ++ (record { timestamp_ms = now; bytes = bytes } ∷ []);
  total_bytes_in_window = l.total_bytes_in_window + bytes;
}

unfoldable pub cleanup_each_second : Limiter → ℕ → Limiter
cleanup_each_second l now =
    if ltb_ℤ (pos 1000) (sub_ℕ now l.last_cleanup_time)
    then record (cleanup_old_data l now) { last_cleanup_time = now }
    else l

-- The span that the bytes are spread over: the window, or the age of the oldest point where that is
-- less, at least a second.
unfoldable pub effective_window : Limiter → ℕ → ℕ
effective_window l now = span l.data_window
  where
    span : List DataPoint → ℕ
    span [] = l.window_ms
    span (p ∷ ps) =
        if ltb_ℤ (sub_ℕ now p.timestamp_ms) (pos l.window_ms)
        then max 1000 (pos_part (sub_ℕ now p.timestamp_ms))
        else l.window_ms

unfoldable pub bitrate_in_window : Limiter → ℕ → ℕ
bitrate_in_window l now = l.total_bytes_in_window * 8 * 1000 / effective_window l now / 1000

-- The time of the last log line moves with it.
unfoldable pub note_violation : Limiter → ℕ → Limiter
note_violation l now =
    if not l.in_violation
    then record l { in_violation = true; violation_start_time = now; last_violation_log_time = now }
    else if ltb_ℤ (pos 2000) (sub_ℕ now l.last_violation_log_time)
    then record l { last_violation_log_time = now }
    else l

unfoldable pub judge : Limiter → ℕ → Check × Limiter
judge l now =
    if ltb (l.spike_limit l.max_bitrate_kbps) (bitrate_in_window l now)
    then (
      if leb_ℤ (pos l.violation_threshold_ms)
            (sub_ℕ now (note_violation l now).violation_start_time)
          then bitrate_disconnect
          else bitrate_violation,
      note_violation l now,
    )
    else (
      bitrate_ok,
      if l.in_violation then record l { in_violation = false; violation_start_time = 0 } else l,
    )

unfoldable pub check_data_bitrate : Limiter → ℕ → ℕ → Check × Limiter
check_data_bitrate l bytes now =
    if l.max_bitrate_kbps == 0
    then (bitrate_ok, cleanup_old_data (push l bytes now) now)
    else judge (cleanup_each_second (push l bytes now) now) now

unfoldable pub calculate_current_bitrate_kbps : Limiter → ℕ → ℕ
calculate_current_bitrate_kbps l now = over l.data_window
  where
    over : List DataPoint → ℕ
    over [] = 0
    over (p ∷ ps) =
        let span = now - max (now - l.window_ms) p.timestamp_ms in
        if span == 0 then 0 else l.total_bytes_in_window * 8 * 1000 / span / 1000
