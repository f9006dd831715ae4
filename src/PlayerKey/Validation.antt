-- ===== src/PlayerKey/Validation.antt =====
-- A player key on its way through src/core/SLSListenerAuth.cpp: its format, the cache, the request and the
-- answer of the webhook.
use irl_srt_server.Prelude.{
  ℕ, ◌+◌, ◌/◌, Bool, true, false, ◌||◌, not, Option, none, some, List, [], ◌∷◌, ◌++◌, take, ltb,
  leb, length, if◌then◌else◌,
}
use irl_srt_server.Prelude.Int.{ℤ, negsuc, leb_ℤ}
use irl_srt_server.Prelude.Keyed.{Key, Keyed, find, erase, is_some}
use irl_srt_server.Prelude.Ordered.{place}
use irl_srt_server.Relay.Url.{url_encode, fits}
use irl_srt_server.Role.{codes, is_empty}
use irl_srt_server.Role.Webhook.{Response, is_200}
use irl_srt_server.PlayerKey.{
  Entry, Override, Payload, Library, Listener, ms, max_pending_validations, absent, not_integer,
  integer, malformed, no_stream_id, stream_id,
}
use irl_srt_server.PlayerKey.Cache.{insert_cache}
use irl_srt_server.PlayerKey.Limit.{is_rate_limited, update_rate_limit}

abbrev pub matched : Option Bool → Bool
matched none = false
matched (some b) = b

unfoldable pub validate_player_key_format : Library → Listener → List ℕ → Bool
validate_player_key_format lib l key =
    if ltb (length key) l.min_length || ltb l.max_length (length key)
    then false
    else matched (lib.regex_match key)

-- The URL of the webhook for a key.
unfoldable pub request_url : List ℕ → Key → Option (List ℕ)
request_url auth_url key =
    if ltb 1948 (length auth_url)
    then none
    else fits 4096 (auth_url ++ (codes "?player_key=" ++ url_encode key))

abbrev pub requested : Listener → Key → Option (List ℕ) → Listener
requested l key none = l
requested l key (some url) = record l { pending = place key url l.pending }

unfoldable pub start_player_key_validation : Listener → ℕ → Key → List ℕ → Listener
start_player_key_validation l now key ip =
    if is_some (find key l.pending) || leb max_pending_validations (length l.pending)
    then l
    else requested (update_rate_limit l now ip) key (request_url l.auth_url key)

-- SLS_ERROR, SLS_OK with the stream id, and SLS_PENDING.
pub data Verdict : Type 0 where
  refused : Verdict
  admitted : List ℕ → Verdict
  pending : Verdict

-- What the cache knows of a key, with the size of the buffer for the stream id.
abbrev pub looked_up : ℕ → ℕ → Option Entry → Option Verdict
looked_up size now none = none
looked_up size now (some e) =
    if ltb now e.expiry_time
    then (if e.is_valid then some (admitted (take size e.resolved_stream_id)) else some refused)
    else none

abbrev pub judged : ℕ → Listener → Key → List ℕ → Option Verdict → Verdict × Listener
judged now l key ip (some verdict) = (verdict, l)
judged now l key ip none =
    (pending, start_player_key_validation (record l { cache = erase key l.cache }) now key ip)

-- The clocks of a call.
pub record Clock : Type 0 where
  pub rate : ℕ
  pub cleanup : ℕ
  pub cache : ℕ
  pub request : ℕ

-- The cache and the request, behind the limit.
abbrev pub resolve : Clock → Listener → Key → List ℕ → Verdict × Listener
resolve clock l key ip =
    judged clock.request l key ip (looked_up 2047 clock.cache (find key l.cache))

abbrev pub unless_limited : Clock → Key → List ℕ → Bool × Listener → Verdict × Listener
unless_limited clock key ip (over, l) = if over then (refused, l) else resolve clock l key ip

unfoldable pub validate_player_key : Library → Clock → Listener → Key → List ℕ → Verdict × Listener
validate_player_key lib clock l key ip =
    if is_empty l.auth_url || not (validate_player_key_format lib l key)
    then (refused, l)
    else unless_limited clock key ip (is_rate_limited l clock.rate clock.cleanup ip)

abbrev pub negative : Listener → ℕ → Entry
negative l now = record {
  resolved_stream_id = [];
  expiry_time = now + ms (l.cache_duration / 4);
  is_valid = false;
  has_max_players_override = false;
  max_players_per_stream_override = negsuc 0;
}

abbrev pub override_of : Override → Bool × ℤ
override_of absent = (false, negsuc 0)
override_of not_integer = (false, negsuc 0)
override_of (integer n) = (leb_ℤ (negsuc 0) n, n)

abbrev pub positive : Listener → ℕ → List ℕ → Override → Entry
positive l now sid o = record {
  resolved_stream_id = sid;
  expiry_time = now + ms l.cache_duration;
  is_valid = true;
  has_max_players_override = (override_of o).0;
  max_players_per_stream_override = (override_of o).1;
}

abbrev pub entry_of_payload : Listener → ℕ → Payload → Entry
entry_of_payload l now malformed = negative l now
entry_of_payload l now no_stream_id = negative l now
entry_of_payload l now (stream_id sid o) =
    if is_empty sid || leb 2048 (length sid) then negative l now else positive l now sid o

abbrev pub entry_of : Library → Listener → ℕ → Response → Entry
entry_of lib l now resp =
    if not resp.success || not (is_200 resp.status_code)
    then negative l now
    else entry_of_payload l now (lib.parse resp.body)

unfoldable pub process_player_key_response : Library → Listener → ℕ → ℕ → Key → Response → Listener
process_player_key_response lib l now insert_now key resp = record l {
  cache = insert_cache insert_now key (entry_of lib l now resp) l.cache;
}

abbrev pub processed : Library → Listener → ℕ → ℕ → Key → Option Response → Listener
processed lib l now insert_now key none = l
processed lib l now insert_now key (some resp) =
    process_player_key_response lib l now insert_now key resp

-- The loop over the requests. What is ready by now depends on the URL; the clocks are read for each key.
unfoldable pub process_ready :
    Library
    → (List ℕ → Option Response)
    → (Key → ℕ)
    → (Key → ℕ)
    → Keyed (List ℕ)
    → Listener
    → Listener
process_ready lib answers now insert_now [] l = l
process_ready lib answers now insert_now ((key, url) ∷ m) l =
    process_ready lib answers now insert_now m
      (processed lib l (now key) (insert_now key) key (answers url))

-- The requests that are not ready stay.
unfoldable pub waiting : (List ℕ → Option Response) → Keyed (List ℕ) → Keyed (List ℕ)
waiting answers [] = []
waiting answers ((key, url) ∷ m) =
    let rest = waiting answers m in if is_some (answers url) then rest else (key, url) ∷ rest

unfoldable pub drain_player_key_validations :
    Library → (List ℕ → Option Response) → (Key → ℕ) → (Key → ℕ) → Listener → Listener
drain_player_key_validations lib answers now insert_now l =
    record (process_ready lib answers now insert_now l.pending l) {
      pending = waiting answers l.pending;
    }
