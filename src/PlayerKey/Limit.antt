-- ===== src/PlayerKey/Limit.antt =====
-- The limit on webhook requests by address in src/core/SLSListenerAuth.cpp.
use irl_srt_server.Prelude.{
  ℕ, ◌+◌, ◌*◌, Bool, false, ◌&&◌, ◌||◌, not, Option, none, some, List, [], ◌∷◌, ◌++◌, ltb, leb,
  length, ◌==◌, if◌then◌else◌,
}
use irl_srt_server.Prelude.Int.{ℤ, pos, negsuc, leb_ℤ}
use irl_srt_server.Prelude.Keyed.{Keyed, find, assign, is_some}
use irl_srt_server.Prelude.Ordered.{place}
use irl_srt_server.Role.{is_empty}
use irl_srt_server.PlayerKey.{Listener, ms, max_rate_limit_entries}

-- The times that are older than a window go, from the oldest on.
unfoldable pub trim : ℕ → ℕ → List ℕ → List ℕ
trim now window [] = []
trim now window (t ∷ times) =
    let rest = trim now window times in if ltb (t + window) now then rest else t ∷ times

-- The loop that drops the addresses without a request in twice the window.
unfoldable pub trim_all : ℕ → ℕ → Keyed (List ℕ) → Keyed (List ℕ)
trim_all now window [] = []
trim_all now window ((ip, times) ∷ m) =
    let rest = trim_all now window m in
    let kept = trim now window times in if is_empty kept then rest else (ip, kept) ∷ rest

unfoldable pub cleanup_expired_rate_limits : Listener → ℕ → Listener
cleanup_expired_rate_limits l now =
    if ltb now (l.last_rate_limit_cleanup + ms 1000) then l else record l {
      rate_limit_map = trim_all now (ms (l.rate_limit_window * 2)) l.rate_limit_map;
      last_rate_limit_cleanup = now;
    }

abbrev pub is_minus_one : ℤ → Bool
is_minus_one (pos n) = false
is_minus_one (negsuc n) = n == 0

abbrev pub limited : Listener → ℕ → List ℕ → Option (List ℕ) → Bool × Listener
limited l now ip none = (false, l)
limited l now ip (some times) =
    let kept = trim now (ms l.rate_limit_window) times in
    (
      leb_ℤ l.rate_limit_requests (pos (length kept)),
      record l { rate_limit_map = assign ip kept l.rate_limit_map },
    )

unfoldable pub is_rate_limited : Listener → ℕ → ℕ → List ℕ → Bool × Listener
is_rate_limited l now cleanup_now ip =
    if is_minus_one l.rate_limit_requests || is_empty ip
    then (false, l)
    else (let cleaned = cleanup_expired_rate_limits l cleanup_now in
        limited cleaned now ip (find ip cleaned.rate_limit_map))

abbrev pub note_request : ℕ → List ℕ → Keyed (List ℕ) → Option (List ℕ) → Keyed (List ℕ)
note_request now ip m none = place ip (now ∷ []) m
note_request now ip m (some times) = assign ip (times ++ now ∷ []) m

-- The times of the requests, with one more; a new address is left out where the map stays full.
unfoldable pub noted : ℕ → ℕ → List ℕ → Keyed (List ℕ) → Keyed (List ℕ)
noted now window ip m =
    if not (is_some (find ip m)) && leb max_rate_limit_entries (length m)
    then (let swept = trim_all now (ms (window * 2)) m in
        if leb max_rate_limit_entries (length swept)
        then swept
        else note_request now ip swept (find ip swept))
    else note_request now ip m (find ip m)

unfoldable pub update_rate_limit : Listener → ℕ → List ℕ → Listener
update_rate_limit l now ip =
    if is_minus_one l.rate_limit_requests || is_empty ip
    then l
    else record l { rate_limit_map = noted now l.rate_limit_window ip l.rate_limit_map }
