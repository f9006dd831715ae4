-- ===== src/LogRateLimiter.antt =====
-- src/core/SLSLogRateLimiter.hpp and .cpp: which repeats of a log event are written. The clock
-- (`sls_gettime_ms`) is an argument, and the static counter of calls is part of the object; each method
-- runs under the object's mutex.
pub mod Rate
use irl_srt_server.Prelude.{
  ℕ, ◌+◌, ◌-◌, ◌*◌, Bool, true, false, ◌||◌, Option, none, some, List, [], ◌∷◌, ltb, leb,
  if◌then◌else◌,
}
use irl_srt_server.Prelude.Int.{ℤ, pos, negsuc, sub_ℕ, ltb_ℤ, leb_ℤ}
use irl_srt_server.Prelude.Keyed.{Key, Keyed, find, assign}

-- `EventStats`. The two counts stay below 2^31.
pub record EventStats : Type 0 where
  pub first_timestamp_ms : ℕ
  pub last_timestamp_ms : ℕ
  pub last_logged_ms : ℕ
  pub count : ℕ
  pub total_suppressed : ℕ

-- `CSLSLogRateLimiter`
pub record RateLimiter : Type 0 where
  pub window_ms : ℕ
  pub threshold : ℕ
  pub min_interval_ms : ℕ
  pub events : Keyed EventStats
  pub cleanup_counter : ℕ

-- The first event of a window.
abbrev pub first_event : ℕ → EventStats
first_event now = record {
  first_timestamp_ms = now;
  last_timestamp_ms = now;
  last_logged_ms = now;
  count = 1;
  total_suppressed = 0;
}

-- An event within its window: whether it is written, the statistics handed out and those kept.
unfoldable pub repeat_event : ℕ → ℕ → EventStats → ℕ → Bool × EventStats × EventStats
repeat_event threshold min_interval e now =
    if leb counted.count threshold || leb_ℤ (pos min_interval) (sub_ℕ now counted.last_logged_ms)
    then (true, logged, record logged { total_suppressed = 0 })
    else (false, suppressed, suppressed)
  where
    counted : EventStats
    counted = record e { count = e.count + 1; last_timestamp_ms = now }

    logged : EventStats
    logged = record counted { last_logged_ms = now }

    suppressed : EventStats
    suppressed = record counted { total_suppressed = e.total_suppressed + 1 }

unfoldable pub known_event : RateLimiter → EventStats → ℕ → Bool × EventStats × EventStats
known_event l e now =
    if ltb_ℤ (pos l.window_ms) (sub_ℕ now e.first_timestamp_ms)
    then (true, first_event now, first_event now)
    else repeat_event l.threshold l.min_interval_ms e now

-- `cleanup_old_entries`: what was last seen more than ten windows ago is forgotten.
unfoldable pub drop_old : ℕ → ℕ → Keyed EventStats → Keyed EventStats
drop_old window now [] = []
drop_old window now ((k, e) ∷ m) =
    let rest = drop_old window now m in
    if ltb (e.last_timestamp_ms + window * 10) now then rest else (k, e) ∷ rest

-- Every hundredth call cleans up.
unfoldable pub count_call : RateLimiter → ℕ → RateLimiter
count_call l now =
    if leb 100 (l.cleanup_counter + 1)
    then record l { cleanup_counter = 0; events = drop_old l.window_ms now l.events }
    else record l { cleanup_counter = l.cleanup_counter + 1 }

unfoldable pub judge_event : RateLimiter → Option EventStats → ℕ → Bool × EventStats × EventStats
judge_event l none now = (true, first_event now, first_event now)
judge_event l (some e) now = known_event l e now

unfoldable pub should_log : RateLimiter → Key → ℕ → Bool × EventStats × RateLimiter
should_log l key now =
    let l' = count_call l now in
    let (written, stats, kept) = judge_event l' (find key l'.events) now in
    (written, stats, record l' { events = assign key kept l'.events })

unfoldable pub clear_events : RateLimiter → RateLimiter
clear_events l = record l { events = [] }

unfoldable pub set_window_ms : RateLimiter → ℕ → RateLimiter
set_window_ms l window = record l { window_ms = window }

unfoldable pub set_threshold : RateLimiter → ℕ → RateLimiter
set_threshold l threshold = record l { threshold = threshold }
