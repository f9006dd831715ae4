-- ===== src/Tests/LogTests.antt =====
-- The limiter of src/core/SLSLogRateLimiter.cpp on five repeats of an event, with two lines verbatim and
-- then one per 100 ms.
use irl_srt_server.Prelude.{ℕ, ◌+◌, ◌-◌, ◌*◌, ◌≤◌, ◌≡◌, refl, List, [], ◌∷◌, arith}
use irl_srt_server.LogRateLimiter.{first_event, repeat_event}
use irl_srt_server.LogRateLimiter.Rate.{repeats, repeats-rate}

abbrev times : List ℕ
times = 1010 ∷ 1020 ∷ 1090 ∷ 1130 ∷ 1140 ∷ []

lines_written : (repeats 2 100 (first_event 1000) times).0 ≡ 2
unfolding repeats repeat_event
lines_written = refl

repeats-rate_example :
    let (lines, held, last) = repeats 2 100 (first_event 1000) times in
    (lines - (2 - 1)) * 100 + 1000 ≤ last.last_logged_ms
repeats-rate_example =
    repeats-rate 2 100 (first_event 1000) times (omega arith)
      (omega arith, (omega arith, (omega arith, (omega arith, (omega arith, record {})))))
