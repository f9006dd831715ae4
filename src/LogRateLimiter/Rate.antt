-- ===== src/LogRateLimiter/Rate.antt =====
-- How many lines src/core/SLSLogRateLimiter.cpp lets through for one key in one window.
use native.Mathlib.Nat.{add-mul, zero-mul}
use irl_srt_server.Prelude.{
  ℕ, ◌+◌, ◌-◌, ◌*◌, ◌≤◌, ◌≡◌, List, [], ◌∷◌, arith, leb, if◌then◌else◌, Bool-cases, inl, inr,
  leb→le,
}
use irl_srt_server.Prelude.Int.{pos, sub_ℕ, leb_ℤ}
use irl_srt_server.LogRateLimiter.{EventStats, repeat_event}

-- The events of one key at these times, all within one window: the lines written, those held back, and
-- the statistics behind them.
unfoldable pub repeats : ℕ → ℕ → EventStats → List ℕ → ℕ × ℕ × EventStats
repeats threshold interval e [] = (0, 0, e)
repeats threshold interval e (t ∷ ts) =
    let (written, _, e') = repeat_event threshold interval e t in
    let (lines, held, last) = repeats threshold interval e' ts in
    (if written then lines + 1 else lines, if written then held else held + 1, last)

-- The times do not go back, from the one given on.
abbrev pub Rising : ℕ → List ℕ → Type 0
Rising t [] = Unit
Rising t (u ∷ us) = (t ≤ u) × Rising u us

-- No event goes missing: what is counted is what was there, the lines and the events held back.
pub repeats-count :
    (threshold interval : ℕ) (e : EventStats) (ts : List ℕ)
    → let (lines, held, last) = repeats threshold interval e ts in
      last.count ≡ e.count + lines + held
unfolding repeats repeat_event
repeats-count threshold interval e [] = omega arith
repeats-count threshold interval e (t ∷ ts) =
    ground (arith, repeats-count threshold interval (repeat_event threshold interval e t).2 ts)

-- One more line beyond the threshold, an interval after the last.
line_beyond :
    (lines threshold count interval before after last : ℕ)
    → threshold ≤ count
    → before + interval ≤ after
    → (lines - (threshold - (count + 1))) * interval + after ≤ last
    → (lines + 1 - (threshold - count)) * interval + before ≤ last
line_beyond lines threshold count interval before after last over gap h =
    rw (now_all, add-mul lines 1 interval) (omega (arith, gap, rw later_all at h))
  where
    now_all : lines + 1 - (threshold - count) ≡ lines + 1
    now_all = omega (arith, over)

    later_all : lines - (threshold - (count + 1)) ≡ lines
    later_all = omega (arith, over)

-- While the clock does not go back, lines beyond the threshold come at most one per interval: their
-- number times the interval is no more than the time that has passed between the last lines.
pub repeats-rate :
    (threshold interval : ℕ) (e : EventStats) (ts : List ℕ)
    → e.last_logged_ms ≤ e.last_timestamp_ms
    → Rising e.last_timestamp_ms ts
    → let (lines, held, last) = repeats threshold interval e ts in
      (lines - (threshold - e.count)) * interval + e.last_logged_ms ≤ last.last_logged_ms
unfolding repeats repeat_event
repeats-rate threshold interval e [] le r =
    let none_left : 0 - (threshold - e.count) ≡ 0 = omega arith in
    rw (none_left, zero-mul interval) (omega arith)
repeats-rate threshold interval e (t ∷ ts) le (step, r) =
    elim (Bool-cases (leb (e.count + 1) threshold)) [
      | inl within ↦
          rw (within, repeat_event)
            (rw (shift (leb→le (e.count + 1) threshold within))
              (omega (arith, le, step, repeats-rate threshold interval logged ts (omega arith) r)))
      | inr over ↦ elim (Bool-cases (leb_ℤ (pos interval) (sub_ℕ t e.last_logged_ms))) [
        | inl due ↦
            rw (over, repeat_event)
              (rw (due, repeat_event)
                (line_beyond (repeats threshold interval logged ts).0 threshold e.count interval
                  e.last_logged_ms t (repeats threshold interval logged ts).2.last_logged_ms
                  (ground (arith, over)) (ground (arith, due, le, step))
                  (repeats-rate threshold interval logged ts (omega arith) r)))
        | inr early ↦
            rw (over, repeat_event)
              (rw (early, repeat_event)
                (rw (beyond (ground (arith, over)))
                  (repeats-rate threshold interval held ts (omega (arith, le, step)) r)))
      ]
    ]
  where
    logged : EventStats
    logged = record e {
      count = e.count + 1;
      last_timestamp_ms = t;
      last_logged_ms = t;
      total_suppressed = 0;
    }

    held : EventStats
    held = record e {
      count = e.count + 1;
      last_timestamp_ms = t;
      total_suppressed = e.total_suppressed + 1;
    }

    shift :
        e.count + 1 ≤ threshold
        → (repeats threshold interval logged ts).0 + 1 - (threshold - e.count)
          ≡ (repeats threshold interval logged ts).0 - (threshold - (e.count + 1))
    shift h = omega (arith, h)

    beyond : threshold ≤ e.count → threshold - e.count ≡ threshold - (e.count + 1)
    beyond h = omega (arith, h)
