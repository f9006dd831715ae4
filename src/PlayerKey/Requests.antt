-- ===== src/PlayerKey/Requests.antt =====
-- The limit on webhook requests by address in src/core/SLSListenerAuth.cpp, over all calls of a listener.
use irl_srt_server.Prelude.{
  ℕ, ◌≡◌, refl, Bool, true, false, ◌||◌, not, Option, none, some, List, [], ◌∷◌, ltb, if◌then◌else◌,
  ◌+◌,
}
use irl_srt_server.Prelude.Int.{ℤ}
use irl_srt_server.Prelude.Keyed.{Key, Keyed, find}
use irl_srt_server.Role.{is_empty}
use irl_srt_server.Role.Webhook.{Response}
use irl_srt_server.PlayerKey.{Listener, Library, ms}
use irl_srt_server.PlayerKey.Cache.{drop_expired, sweep_player_key_cache}
use irl_srt_server.PlayerKey.Limit.{is_rate_limited}
use irl_srt_server.PlayerKey.Validation
use irl_srt_server.PlayerKey.Validation.{
  Verdict, Clock, validate_player_key, validate_player_key_format, process_ready,
  drain_player_key_validations,
}
use irl_srt_server.PlayerKey.Steps.{Step, validates, drains, sweeps, step, after}
use irl_srt_server.PlayerKey.Rate.{
  IsLimited, IsPassed, if-IsLimited, is_rate_limited-IsPassed, judged-IsLimited,
}

verdict-if :
    (z : ℤ) (b : Bool) (x y : Verdict × Listener)
    → IsLimited z x.1
    → (b ≡ false → IsLimited z y.1)
    → IsLimited z (if b then x else y).1
verdict-if z true x y f g = f
verdict-if z false x y f g = g refl

unless_limited-IsLimited :
    (z : ℤ) (clock : Clock) (key ip : Key) (d : Bool × Listener)
    → IsPassed z ip d
    → IsLimited z (Validation.unless_limited clock key ip d).1
unless_limited-IsLimited z clock key ip (over, l) p =
    verdict-if z over (Validation.refused, l) (Validation.resolve clock l key ip) p.limited
      (λ under.
        judged-IsLimited z clock.request l key ip
          (Validation.looked_up 2047 clock.cache (find key l.cache)) (p.room under) p.limited)

validate_player_key-IsLimited :
    (z : ℤ) (lib : Library) (clock : Clock) (l : Listener) (key ip : Key)
    → IsLimited z l
    → IsLimited z (validate_player_key lib clock l key ip).1
unfolding validate_player_key
validate_player_key-IsLimited z lib clock l key ip h =
    verdict-if z (is_empty l.auth_url || not (validate_player_key_format lib l key))
      (Validation.refused, l)
      (Validation.unless_limited clock key ip (is_rate_limited l clock.rate clock.cleanup ip)) h
      (λ _.
        unless_limited-IsLimited z clock key ip _
          (is_rate_limited-IsPassed z l clock.rate clock.cleanup ip h))

processed-IsLimited :
    (z : ℤ) (lib : Library) (l : Listener) (now insert_now : ℕ) (key : Key) (o : Option Response)
    → IsLimited z l
    → IsLimited z (Validation.processed lib l now insert_now key o)
unfolding Validation.process_player_key_response
processed-IsLimited z lib l now insert_now key none h = h
processed-IsLimited z lib l now insert_now key (some resp) h = record {
  limit = h.limit;
  few = h.few;
}

process_ready-IsLimited :
    (z : ℤ) (lib : Library) (answers : List ℕ → Option Response) (now insert_now : Key → ℕ)
    (m : Keyed (List ℕ)) (l : Listener)
    → IsLimited z l
    → IsLimited z (process_ready lib answers now insert_now m l)
unfolding process_ready
process_ready-IsLimited z lib answers now insert_now [] l h = h
process_ready-IsLimited z lib answers now insert_now ((key, url) ∷ m) l h =
    process_ready-IsLimited z lib answers now insert_now m _
      (processed-IsLimited z lib l (now key) (insert_now key) key (answers url) h)

step-IsLimited :
    (z : ℤ) (lib : Library) (t : Step) (l : Listener) → IsLimited z l → IsLimited z (step lib t l)
unfolding step drain_player_key_validations sweep_player_key_cache
step-IsLimited z lib (validates clock key ip) l h =
    validate_player_key-IsLimited z lib clock l key ip h
step-IsLimited z lib (drains answers now insert_now) l h =
    let done = process_ready-IsLimited z lib answers now insert_now l.pending l h in
    record { limit = done.limit; few = done.few }
step-IsLimited z lib (sweeps now) l h =
    if-IsLimited z (ltb now (l.last_cache_sweep + ms 5000)) l
      (record l { cache = drop_expired now l.cache; last_cache_sweep = now }) h
      (record { limit = h.limit; few = h.few })

-- Whatever keys come from whatever addresses, in any order of the listener's calls and at any times, no
-- address has more requests noted than the limit says, or than one where the limit is less, if none has
-- at first; and the limit stays the same.
pub after-IsLimited :
    (z : ℤ) (lib : Library) (ts : List Step) (l : Listener)
    → IsLimited z l
    → IsLimited z (after lib ts l)
unfolding after
after-IsLimited z lib [] l h = h
after-IsLimited z lib (t ∷ ts) l h =
    step-IsLimited z lib t (after lib ts l) (after-IsLimited z lib ts l h)
