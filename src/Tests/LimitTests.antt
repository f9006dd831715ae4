-- ===== src/Tests/LimitTests.antt =====
-- The reject cache of src/core/auth_reject_cache.cpp, the limiter of src/core/SLSBitrateLimit.cpp and
-- the teardown decision of src/core/sls_idle.hpp.
use irl_srt_server.Prelude.{ℕ, ◌≤◌, ◌≡◌, ◌≢◌, refl, false, List, [], ◌∷◌, arith}
use irl_srt_server.Prelude.Keyed.{Key, find, total, same_key, IsUnique}
use irl_srt_server.AuthRejectCache.{Cache, max_entries, size, record_failure}
use irl_srt_server.AuthRejectCache.Blocking.{record_failure-bound}
use irl_srt_server.BitrateLimit.{
  Limiter, init_limiter, bitrate_disconnect, check_data_bitrate, push, cleanup_each_second,
  cleanup_old_data, expire, judge, note_violation, bitrate_in_window, effective_window,
}
use irl_srt_server.BitrateLimit.Verdict.{
  judge_all, run_start, lasted, is_disconnect, disconnects_after_run,
}

abbrev bad : Key
bad = 104 ∷ []

abbrev good : Key
good = 114 ∷ []

-- One block until second 40 and one that ended at second 9.
abbrev cache : Cache
cache = record { blocked = (bad, 40) ∷ (good, 9) ∷ []; ttl = 30; last_sweep = 0 }

cache-IsUnique : IsUnique cache.blocked
unfolding find same_key
cache-IsUnique = (refl, (refl, record {}))

cache-size : size cache ≤ 2
unfolding size total
cache-size = omega arith

apart : same_key good bad ≡ false
unfolding same_key
apart = refl

record_failure-bound_example : size (record_failure cache bad 20) ≤ max_entries
record_failure-bound_example = record_failure-bound cache bad 20 (omega (arith, cache-size))

-- 100 kbps, cut off after two seconds above twice that.
abbrev limited : Limiter
limited = record init_limiter { max_bitrate_kbps = 100; violation_threshold_ms = 2000 }

abbrev burst : List (ℕ × ℕ)
burst = (60000, 100) ∷ (60000, 1100) ∷ []

set : limited.max_bitrate_kbps ≢ 0
set e = omega (arith, e)

disconnects_after_run_example :
    let (l', h) = judge_all limited [] burst in
    let (c, _) = check_data_bitrate l' 90000 2100 in
    is_disconnect c ≡ lasted 2000 2100 (run_start ((2100, c) ∷ h))
disconnects_after_run_example = disconnects_after_run limited burst 90000 2100 set refl

cuts_off : (check_data_bitrate (judge_all limited [] burst).0 90000 2100).0 ≡ bitrate_disconnect
unfolding judge_all check_data_bitrate push cleanup_each_second cleanup_old_data expire judge
    note_violation bitrate_in_window effective_window
cuts_off = refl
