-- ===== src/PlayerKey/Keeping.antt =====
-- Each call of src/core/SLSListenerAuth.cpp keeps a cache whose valid entries the webhook granted.
use irl_srt_server.Prelude.{
  ℕ, ◌+◌, ◌*◌, ◌≡◌, refl, ap, sym, Bool, true, false, ◌||◌, Option, none, some, List, [], ◌∷◌, leb,
  ltb, length, inl, if◌then◌else◌,
}
use irl_srt_server.Prelude.Keyed.{Key, Keyed, find, erase, is_some}
use irl_srt_server.Role.{is_empty}
use irl_srt_server.Role.Webhook.{Response}
use irl_srt_server.PlayerKey
use irl_srt_server.PlayerKey.Limit
use irl_srt_server.PlayerKey.Validation
use irl_srt_server.PlayerKey.{Entry, Listener, Library, Payload, Override, ms, stream_id}
use irl_srt_server.PlayerKey.Limit.{update_rate_limit}
use irl_srt_server.PlayerKey.Validation.{
  Clock, Verdict, process_ready, request_url, entry_of, entry_of_payload, admitted,
  validate_player_key, drain_player_key_validations,
}
use irl_srt_server.PlayerKey.Steps.{Step, drains}
use irl_srt_server.PlayerKey.Entries.{All, All-place, All-erase}
use irl_srt_server.PlayerKey.Granting.{IsAsked, IsSound, entry_of-Grant, All-insert_cache}

module _ (lib : Library) (auth_url : List ℕ) (duration : ℕ) where
  processed-IsSound :
      (ts : List Step) (answers : List ℕ → Option Response) (now insert_now : Key → ℕ)
      (l : Listener) (key : Key) (url : List ℕ) (o : Option Response)
      → answers url ≡ o
      → request_url auth_url key ≡ some url
      → IsSound lib auth_url duration (drains answers now insert_now ∷ ts) l
      → IsSound lib auth_url duration
          (drains answers now insert_now ∷ ts)
          (Validation.processed lib l (now key) (insert_now key) key o)
  unfolding Validation.process_player_key_response
  processed-IsSound ts answers now insert_now l key url none r a h = h
  processed-IsSound ts answers now insert_now l key url (some resp) r a h =
      let granted =
        entry_of-Grant lib auth_url duration l answers now key url resp h.lifetime a r in
      record {
        webhook = h.webhook;
        lifetime = h.lifetime;
        entries =
            All-insert_cache _ (insert_now key) key (entry_of lib l (now key) resp) l.cache
              (λ valid. (inl (granted valid), (granted valid).short)) h.entries;
        requests = h.requests;
      }

  pub process_ready-IsSound :
      (ts : List Step) (answers : List ℕ → Option Response) (now insert_now : Key → ℕ)
      (m : Keyed (List ℕ)) (l : Listener)
      → All (IsAsked lib auth_url duration) m
      → IsSound lib auth_url duration (drains answers now insert_now ∷ ts) l
      → IsSound lib auth_url duration
          (drains answers now insert_now ∷ ts)
          (process_ready lib answers now insert_now m l)
  unfolding process_ready
  process_ready-IsSound ts answers now insert_now [] l asked h = h
  process_ready-IsSound ts answers now insert_now ((key, url) ∷ m) l (a, asked) h =
      process_ready-IsSound ts answers now insert_now m _ asked
        (processed-IsSound ts answers now insert_now l key url (answers url) refl a h)

  pub if-IsSound :
      (ts : List Step) (b : Bool) (x y : Listener)
      → IsSound lib auth_url duration ts x
      → IsSound lib auth_url duration ts y
      → IsSound lib auth_url duration ts (if b then x else y)
  if-IsSound ts true x y f g = f
  if-IsSound ts false x y f g = g

  update_rate_limit-IsSound :
      (ts : List Step) (l : Listener) (now : ℕ) (ip : List ℕ)
      → IsSound lib auth_url duration ts l
      → IsSound lib auth_url duration ts (update_rate_limit l now ip)
  unfolding update_rate_limit
  update_rate_limit-IsSound ts l now ip h =
      if-IsSound ts (Limit.is_minus_one l.rate_limit_requests || is_empty ip) l
        (record l { rate_limit_map = Limit.noted now l.rate_limit_window ip l.rate_limit_map }) h
        (record {
          webhook = h.webhook;
          lifetime = h.lifetime;
          entries = h.entries;
          requests = h.requests;
        })

  cleanup-IsSound :
      (ts : List Step) (l : Listener) (now : ℕ)
      → IsSound lib auth_url duration ts l
      → IsSound lib auth_url duration ts (Limit.cleanup_expired_rate_limits l now)
  unfolding Limit.cleanup_expired_rate_limits
  cleanup-IsSound ts l now h =
      if-IsSound ts (ltb now (l.last_rate_limit_cleanup + ms 1000)) l
        (record l {
          rate_limit_map = Limit.trim_all now (ms (l.rate_limit_window * 2)) l.rate_limit_map;
          last_rate_limit_cleanup = now;
        })
        h
        (record {
          webhook = h.webhook;
          lifetime = h.lifetime;
          entries = h.entries;
          requests = h.requests;
        })

  limited-IsSound :
      (ts : List Step) (l : Listener) (now : ℕ) (ip : List ℕ) (o : Option (List ℕ))
      → IsSound lib auth_url duration ts l
      → IsSound lib auth_url duration ts (Limit.limited l now ip o).1
  limited-IsSound ts l now ip none h = h
  limited-IsSound ts l now ip (some times) h = record {
    webhook = h.webhook;
    lifetime = h.lifetime;
    entries = h.entries;
    requests = h.requests;
  }

  limit-if :
      (ts : List Step) (c : Bool) (x y : Bool × Listener)
      → IsSound lib auth_url duration ts x.1
      → IsSound lib auth_url duration ts y.1
      → IsSound lib auth_url duration ts (if c then x else y).1
  limit-if ts true x y f g = f
  limit-if ts false x y f g = g

  pub is_rate_limited-IsSound :
      (ts : List Step) (l : Listener) (now cleanup_now : ℕ) (ip : List ℕ)
      → IsSound lib auth_url duration ts l
      → IsSound lib auth_url duration ts (Limit.is_rate_limited l now cleanup_now ip).1
  unfolding Limit.is_rate_limited
  is_rate_limited-IsSound ts l now cleanup_now ip h =
      let cleaned = Limit.cleanup_expired_rate_limits l cleanup_now in
      limit-if ts _ (false, l) (Limit.limited cleaned now ip (find ip cleaned.rate_limit_map)) h
        (limited-IsSound ts cleaned now ip _ (cleanup-IsSound ts l cleanup_now h))

  requested-IsSound :
      (ts : List Step) (l : Listener) (key : Key) (o : Option (List ℕ))
      → request_url auth_url key ≡ o
      → IsSound lib auth_url duration ts l
      → IsSound lib auth_url duration ts (Validation.requested l key o)
  requested-IsSound ts l key none e h = h
  requested-IsSound ts l key (some url) e h = record {
    webhook = h.webhook;
    lifetime = h.lifetime;
    entries = h.entries;
    requests = All-place _ key url l.pending e h.requests;
  }

  start-IsSound :
      (ts : List Step) (l : Listener) (now : ℕ) (key : Key) (ip : List ℕ)
      → IsSound lib auth_url duration ts l
      → IsSound lib auth_url duration ts (Validation.start_player_key_validation l now key ip)
  unfolding Validation.start_player_key_validation
  start-IsSound ts l now key ip h =
      if-IsSound ts
        (is_some (find key l.pending) || leb PlayerKey.max_pending_validations (length l.pending)) l
        (Validation.requested (update_rate_limit l now ip) key (request_url l.auth_url key)) h
        (requested-IsSound ts (update_rate_limit l now ip) key (request_url l.auth_url key)
          (ap (λ u. request_url u key) (sym h.webhook)) (update_rate_limit-IsSound ts l now ip h))

  judged-IsSound :
      (ts : List Step) (now : ℕ) (l : Listener) (key : Key) (ip : List ℕ) (o : Option Verdict)
      → IsSound lib auth_url duration ts l
      → IsSound lib auth_url duration ts (Validation.judged now l key ip o).1
  judged-IsSound ts now l key ip (some verdict) h = h
  judged-IsSound ts now l key ip none h =
      start-IsSound ts (record l { cache = erase key l.cache }) now key ip
        (record {
          webhook = h.webhook;
          lifetime = h.lifetime;
          entries = All-erase _ key l.cache h.entries;
          requests = h.requests;
        })

  verdict-if :
      (ts : List Step) (c : Bool) (x y : Verdict × Listener)
      → IsSound lib auth_url duration ts x.1
      → IsSound lib auth_url duration ts y.1
      → IsSound lib auth_url duration ts (if c then x else y).1
  verdict-if ts true x y f g = f
  verdict-if ts false x y f g = g

  unless_limited-IsSound :
      (ts : List Step) (clock : Clock) (key : Key) (ip : List ℕ) (d : Bool × Listener)
      → IsSound lib auth_url duration ts d.1
      → IsSound lib auth_url duration ts (Validation.unless_limited clock key ip d).1
  unless_limited-IsSound ts clock key ip (over, l) h =
      verdict-if ts over (Validation.refused, l) (Validation.resolve clock l key ip) h
        (judged-IsSound ts clock.request l key ip
          (Validation.looked_up 2047 clock.cache (find key l.cache)) h)

  pub validate_player_key-IsSound :
      (ts : List Step) (clock : Clock) (l : Listener) (key : Key) (ip : List ℕ)
      → IsSound lib auth_url duration ts l
      → IsSound lib auth_url duration ts (validate_player_key lib clock l key ip).1
  unfolding validate_player_key
  validate_player_key-IsSound ts clock l key ip h =
      verdict-if ts _ (Validation.refused, l)
        (Validation.unless_limited clock key ip
          (Limit.is_rate_limited l clock.rate clock.cleanup ip))
        h
        (unless_limited-IsSound ts clock key ip _
          (is_rate_limited-IsSound ts l clock.rate clock.cleanup ip h))
