-- ===== src/MapData/Stats.antt =====
-- The reports and the polls of src/core/SLSMapData.cpp, which forward to a stream's ring, and the
-- timecode scanning of a stream. `none` for a key is NULL.
use irl_srt_server.Prelude.{
  ℕ, zero, suc, ◌+◌, ◌-◌, ◌/◌, ◌%◌, Bool, true, false, Option, none, some, List, [], ◌∷◌, ◌++◌, ltb,
  if◌then◌else◌, take,
}
use irl_srt_server.Prelude.Int.{ℤ, negsuc, pos_part, i64}
use irl_srt_server.Prelude.Keyed.{Key, find, assign, erase, is_some}
use irl_srt_server.Ring
use irl_srt_server.Ring.{Ring}
use irl_srt_server.Timecode.State.{Codec, no_codec, TcState, Clock}
use irl_srt_server.Timecode.State
use irl_srt_server.MapData.{MapData}

-- -1, the answer for a stream that is not there.
abbrev pub no_stream : ℤ
no_stream = negsuc 0

abbrev pub ring_of : MapData → Option Key → Option Ring
ring_of m none = none
ring_of m (some key) = find key m.rings

unfoldable pub get_overrun_count : MapData → Option Key → ℤ
get_overrun_count m key = answer (ring_of m key)
  where
    answer : Option Ring → ℤ
    answer none = no_stream
    answer (some r) = i64 r.overrun_count

-- A poll of a ring's gauge, which may clear it.
unfoldable pub poll : (Ring → Bool → ℤ × Ring) → MapData → Option Key → Bool → ℤ × MapData
poll gauge m none clear = (no_stream, m)
poll gauge m (some key) clear = answer (find key m.rings)
  where
    answer : Option Ring → ℤ × MapData
    answer none = (no_stream, m)
    answer (some r) = ((gauge r clear).0, record m { rings = assign key (gauge r clear).1 m.rings })

unfoldable pub report : (Ring → Ring) → MapData → Option Key → MapData
report note m none = m
report note m (some key) = answer (find key m.rings)
  where
    answer : Option Ring → MapData
    answer none = m
    answer (some r) = record m { rings = assign key (note r) m.rings }

unfoldable pub get_max_reader_backlog : MapData → Option Key → Bool → ℤ × MapData
get_max_reader_backlog = poll Ring.get_max_reader_backlog

unfoldable pub report_viewer_backpressure : MapData → Option Key → MapData
report_viewer_backpressure = report Ring.report_viewer_backpressure

unfoldable pub get_viewer_backpressure_events : MapData → Option Key → Bool → ℤ × MapData
get_viewer_backpressure_events = poll Ring.get_viewer_backpressure_events

unfoldable pub report_viewer_snd_drops : MapData → Option Key → ℤ → MapData
report_viewer_snd_drops m key count =
    if ltb 0 (pos_part count) then report (λ r. Ring.report_viewer_snd_drops r count) m key else m

unfoldable pub get_viewer_snd_drops : MapData → Option Key → Bool → ℤ × MapData
get_viewer_snd_drops = poll Ring.get_viewer_snd_drops

unfoldable pub get_ingest_discontinuities : MapData → Option Key → Bool → ℤ × MapData
get_ingest_discontinuities = poll Ring.get_ingest_discontinuities

unfoldable pub set_timecode_scan : MapData → Option Key → Bool → MapData
set_timecode_scan m none enabled = m
set_timecode_scan m (some key) false = record m { tc_states = erase key m.tc_states }
set_timecode_scan m (some key) true =
    if is_some (find key m.tc_states)
    then m
    else record m { tc_states = assign key State.init m.tc_states }

-- The decimal digits of an `int`, in ASCII; ten are enough for any.
unfoldable pub digits : ℕ → ℕ → List ℕ
digits zero n = []
digits (suc fuel) n =
    let front = digits fuel (n / 10) in
    if ltb n 10 then (48 + n) ∷ [] else front ++ ((48 + n % 10) ∷ [])

-- `%02d`
unfoldable pub two_digits : ℕ → List ℕ
two_digits n = if ltb n 10 then 48 ∷ (48 + n) ∷ [] else digits 10 n

-- `sls_format_timecode` into a buffer of `buf_len` bytes, without the terminating zero.
unfoldable pub format_timecode : TcState → ℕ → List ℕ
format_timecode st buf_len = if st.valid then take (buf_len - 1) text else []
  where
    text : List ℕ
    text =
        two_digits st.clock.hours
        ++ (58 ∷ two_digits st.clock.minutes)
        ++ (58 ∷ two_digits st.clock.seconds)
        ++ ((if st.clock.drop_frame then 59 else 58) ∷ two_digits st.clock.frames)

-- `TimecodeStats`, where `none` is INVALID_PID or INVALID_DTS_PTS.
pub record TimecodeStats : Type 0 where
  pub enabled : Bool
  pub valid : Bool
  pub codec : Codec
  pub video_pid : Option ℕ
  pub timecode : List ℕ
  pub drop_frame : Bool
  pub pts : Option ℕ
  pub updates : ℕ

abbrev pub no_stats : TimecodeStats
no_stats = record {
  enabled = false;
  valid = false;
  codec = no_codec;
  video_pid = none;
  timecode = [];
  drop_frame = false;
  pts = none;
  updates = 0;
}

unfoldable pub stats_of : TcState → TimecodeStats
stats_of tc = record {
  enabled = true;
  valid = tc.valid;
  codec = tc.codec;
  video_pid = tc.video_pid;
  timecode = format_timecode tc 16;
  drop_frame = tc.clock.drop_frame;
  pts = tc.pts;
  updates = tc.updates;
}

unfoldable pub get_timecode_stats : MapData → Option Key → Bool → Option TimecodeStats × MapData
get_timecode_stats m none clear = (none, m)
get_timecode_stats m (some key) clear = answer (find key m.tc_states)
  where
    answer : Option TcState → Option TimecodeStats × MapData
    answer none = (none, m)
    answer (some tc) = (
      some (stats_of tc),
      if clear
          then record m { tc_states = assign key (record tc { updates = 0 }) m.tc_states }
          else m,
    )
