-- ===== src/SyncClock.antt =====
-- src/core/SLSSyncClock.hpp and .cpp: the pace at which a recorded stream is sent. The clock
-- (`sls_gettime_ms`) is an argument; a call returns the milliseconds that it sleeps. The 64-bit
-- differences are taken of times far below 2^62 and do not overflow.
pub mod Pace
use irl_srt_server.Prelude.{ℕ, zero, Bool, true, false, ◌||◌, if◌then◌else◌}
use irl_srt_server.Prelude.Int.{ℤ, pos, negsuc, ◌-ℤ◌, ltb_ℤ, leb_ℤ, pos_part}

pub record SyncClock : Type 0 where
  pub jitter : ℤ
  pub begin_ms_rts : ℤ
  pub begin_ms_sys : ℤ

-- `TM_JITTER`, and -1 for a clock that has not begun.
unfoldable pub create : SyncClock
create = record { jitter = pos 1000; begin_ms_rts = negsuc 0; begin_ms_sys = negsuc 0 }

abbrev pub is_unset : ℤ → Bool
is_unset (negsuc zero) = true
is_unset _ = false

unfoldable pub restart : SyncClock → ℤ → ℤ → SyncClock
restart c rts_tm_ms now = record c { begin_ms_rts = rts_tm_ms; begin_ms_sys = now }

-- How far the stream's time is ahead of the system's.
unfoldable pub ahead : SyncClock → ℤ → ℤ → ℤ
ahead c rts_tm_ms now = (rts_tm_ms -ℤ c.begin_ms_rts) -ℤ (now -ℤ c.begin_ms_sys)

unfoldable pub wait : SyncClock → ℤ → ℤ → ℕ × SyncClock
wait c rts_tm_ms now =
    let d = ahead c rts_tm_ms now in
    if is_unset c.begin_ms_rts
    then (0, restart c rts_tm_ms now)
    else if leb_ℤ c.jitter d || leb_ℤ d (pos 0 -ℤ c.jitter)
    then (0, restart c rts_tm_ms now)
    else if ltb_ℤ (pos 0) d
    then (pos_part d, c)
    else (0, c)

unfoldable pub set_jitter : SyncClock → ℤ → SyncClock
set_jitter c v = record c { jitter = v }
