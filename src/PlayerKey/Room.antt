-- ===== src/PlayerKey/Room.antt =====
-- The memory that the player keys of src/core/SLSListenerAuth.cpp take: how many entries there are.
use irl_srt_server.Prelude.{
  ℕ, ◌+◌, ◌≤◌, ◌≡◌, refl, Bool, true, false, ◌||◌, Option, none, some, List, [], ◌∷◌, arith, leb,
  ltb, length, Bool-cases, inl, inr, if◌then◌else◌,
}
use irl_srt_server.Prelude.Keyed.{Key, Keyed, find, erase, is_some}
use irl_srt_server.Role.{is_empty}
use irl_srt_server.Role.Webhook.{Response}
use irl_srt_server.PlayerKey.Limit
use irl_srt_server.PlayerKey.Validation
use irl_srt_server.PlayerKey.{Listener, Library, ms, max_pending_validations}
use irl_srt_server.PlayerKey.Cache.{drop_expired, sweep_player_key_cache}
use irl_srt_server.PlayerKey.Limit.{trim_all, noted, note_request, is_minus_one, update_rate_limit}
use irl_srt_server.PlayerKey.Validation.{
  Clock, Verdict, waiting, process_ready, validate_player_key, drain_player_key_validations,
  request_url,
}
use irl_srt_server.PlayerKey.Steps.{Step, validates, drains, sweeps, step, after}
use irl_srt_server.PlayerKey.Entries.{
  length-place, length-erase_le, length-drop_expired, length-waiting,
}
use irl_srt_server.PlayerKey.Limits.{
  IsBounded, insert_cache-length, if-IsBounded, update_rate_limit-IsBounded, Limited,
  is_rate_limited-IsBounded,
}

requested-IsBounded :
    (l : Listener) (key : Key) (url : Option (List ℕ))
    → length l.pending + 1 ≤ max_pending_validations
    → IsBounded l
    → IsBounded (Validation.requested l key url)
requested-IsBounded l key none room b = b
requested-IsBounded l key (some url) room b = record {
  cached = b.cached;
  asked = omega (arith, length-place key url l.pending, room);
  tracked = b.tracked;
}

update_rate_limit-pending :
    (l : Listener) (now : ℕ) (ip : List ℕ) → (update_rate_limit l now ip).pending ≡ l.pending
unfolding update_rate_limit
update_rate_limit-pending l now ip =
    elim (Bool-cases (is_minus_one l.rate_limit_requests || is_empty ip)) [
      | inl e ↦ rw e refl
      | inr e ↦ rw e refl
    ]

start-IsBounded :
    (l : Listener) (now : ℕ) (key : Key) (ip : List ℕ)
    → IsBounded l
    → IsBounded (Validation.start_player_key_validation l now key ip)
unfolding Validation.start_player_key_validation
start-IsBounded l now key ip b =
    elim (Bool-cases
      (is_some (find key l.pending) || leb max_pending_validations (length l.pending))) [
        | inl full ↦ rw full b
        | inr room ↦
            let fewer : length l.pending + 1 ≤ max_pending_validations = ground (arith, room) in
            rw room (
              requested-IsBounded (update_rate_limit l now ip) key (request_url l.auth_url key)
                (rw (update_rate_limit-pending l now ip) fewer)
                (update_rate_limit-IsBounded l now ip b))
      ]

judged-IsBounded :
    (now : ℕ) (l : Listener) (key : Key) (ip : List ℕ) (o : Option Verdict)
    → IsBounded l
    → IsBounded (Validation.judged now l key ip o).1
judged-IsBounded now l key ip (some verdict) b = b
judged-IsBounded now l key ip none b =
    start-IsBounded (record l { cache = erase key l.cache }) now key ip
      (record {
        cached = omega (arith, length-erase_le key l.cache, b.cached);
        asked = b.asked;
        tracked = b.tracked;
      })

verdict-if :
    (c : Bool) (x y : Verdict × Listener)
    → IsBounded x.1
    → IsBounded y.1
    → IsBounded (if c then x else y).1
verdict-if true x y f g = f
verdict-if false x y f g = g

unless_limited-IsBounded :
    (clock : Clock) (key : Key) (ip : List ℕ) (d : Limited)
    → IsBounded d.1
    → IsBounded (Validation.unless_limited clock key ip d).1
unless_limited-IsBounded clock key ip (over, l) b =
    verdict-if over (Validation.refused, l) (Validation.resolve clock l key ip) b
      (judged-IsBounded clock.request l key ip
        (Validation.looked_up 2047 clock.cache (find key l.cache)) b)

validate_player_key-IsBounded :
    (lib : Library) (clock : Clock) (l : Listener) (key : Key) (ip : List ℕ)
    → IsBounded l
    → IsBounded (validate_player_key lib clock l key ip).1
unfolding validate_player_key
validate_player_key-IsBounded lib clock l key ip b =
    verdict-if _ (Validation.refused, l)
      (Validation.unless_limited clock key ip (Limit.is_rate_limited l clock.rate clock.cleanup ip))
      b
      (unless_limited-IsBounded clock key ip _
        (is_rate_limited-IsBounded l clock.rate clock.cleanup ip b))

processed-IsBounded :
    (lib : Library) (l : Listener) (now insert_now : ℕ) (key : Key) (o : Option Response)
    → IsBounded l
    → IsBounded (Validation.processed lib l now insert_now key o)
unfolding Validation.process_player_key_response
processed-IsBounded lib l now insert_now key none b = b
processed-IsBounded lib l now insert_now key (some resp) b = record {
  cached = insert_cache-length insert_now key (Validation.entry_of lib l now resp) l.cache b.cached;
  asked = b.asked;
  tracked = b.tracked;
}

process_ready-IsBounded :
    (lib : Library) (answers : List ℕ → Option Response) (now insert_now : Key → ℕ)
    (m : Keyed (List ℕ)) (l : Listener)
    → IsBounded l
    → IsBounded (process_ready lib answers now insert_now m l)
unfolding process_ready
process_ready-IsBounded lib answers now insert_now [] l b = b
process_ready-IsBounded lib answers now insert_now ((key, url) ∷ m) l b =
    process_ready-IsBounded lib answers now insert_now m _
      (processed-IsBounded lib l (now key) (insert_now key) key (answers url) b)

step-IsBounded : (lib : Library) (t : Step) (l : Listener) → IsBounded l → IsBounded (step lib t l)
unfolding step drain_player_key_validations sweep_player_key_cache
step-IsBounded lib (validates clock key ip) l b = validate_player_key-IsBounded lib clock l key ip b
step-IsBounded lib (drains answers now insert_now) l b =
    let done = process_ready-IsBounded lib answers now insert_now l.pending l b in
    record {
      cached = done.cached;
      asked = omega (arith, length-waiting answers l.pending, b.asked);
      tracked = done.tracked;
    }
step-IsBounded lib (sweeps now) l b =
    if-IsBounded (ltb now (l.last_cache_sweep + ms 5000)) l
      (record l { cache = drop_expired now l.cache; last_cache_sweep = now }) b
      (record {
        cached = omega (arith, length-drop_expired now l.cache, b.cached);
        asked = b.asked;
        tracked = b.tracked;
      })

-- Whatever keys come from whatever addresses, in any order of the listener's calls and at any times, it
-- caches at most 50,000 keys, waits for at most 1,024 requests and tracks at most 100,000 addresses, if
-- it does so at first.
pub after-IsBounded :
    (lib : Library) (ts : List Step) (l : Listener) → IsBounded l → IsBounded (after lib ts l)
unfolding after
after-IsBounded lib [] l b = b
after-IsBounded lib (t ∷ ts) l b =
    step-IsBounded lib t (after lib ts l) (after-IsBounded lib ts l b)
