-- ===== src/PlayerKey/Admission.antt =====
-- Whom the player keys of src/core/SLSListenerAuth.cpp admit: only who shows a key that the webhook granted.
use mathlib.Core.Path.{subst}
use irl_srt_server.Prelude.{
  ℕ, ◌+◌, ◌<◌, ◌≡◌, refl, ap, sym, ◌∙◌, Bool, true, false, Option, none, some, List, [], ◌∷◌, take,
  take-all, arith, ltb, Bool-cases, inl, inr, if◌then◌else◌,
}
use irl_srt_server.Prelude.Keyed.{Key, find}
use irl_srt_server.PlayerKey.Limit
use irl_srt_server.PlayerKey.Validation
use irl_srt_server.PlayerKey.{Entry, Listener, Library, ms}
use irl_srt_server.PlayerKey.Cache.{drop_expired, sweep_player_key_cache}
use irl_srt_server.PlayerKey.Limit.{update_rate_limit}
use irl_srt_server.PlayerKey.Validation.{
  Clock, Verdict, process_ready, request_url, entry_of, entry_of_payload, admitted,
  validate_player_key, drain_player_key_validations,
}
use irl_srt_server.PlayerKey.Steps.{Step, validates, drains, sweeps, step, after}
use irl_srt_server.PlayerKey.Entries.{All-find, All-map, All-drop_expired, All-waiting}
use irl_srt_server.PlayerKey.Granting.{WasGranted, IsEarned, IsSound}
use irl_srt_server.PlayerKey.Keeping.{
  process_ready-IsSound, if-IsSound, is_rate_limited-IsSound, validate_player_key-IsSound,
}

module _ (lib : Library) (auth_url : List ℕ) (duration : ℕ) where
  -- A step more is no harm to what was granted before.
  later-IsSound :
      (t : Step) (ts : List Step) (l : Listener)
      → IsSound lib auth_url duration ts l
      → IsSound lib auth_url duration (t ∷ ts) l
  later-IsSound t ts l h = record {
    webhook = h.webhook;
    lifetime = h.lifetime;
    entries =
        All-map (IsEarned lib auth_url duration ts) (IsEarned lib auth_url duration (t ∷ ts))
          l.cache (λ k e earned valid. (kept t k e (earned valid).0, (earned valid).1)) h.entries;
    requests = h.requests;
  }
    where
      kept :
          (t : Step) (k : Key) (e : Entry)
          → WasGranted lib auth_url duration k e.resolved_stream_id e.expiry_time ts
          → WasGranted lib auth_url duration k e.resolved_stream_id e.expiry_time (t ∷ ts)
      kept (validates clock key ip) k e g = g
      kept (sweeps now) k e g = g
      kept (drains answers now insert_now) k e g = inr g

  step-IsSound :
      (t : Step) (ts : List Step) (l : Listener)
      → IsSound lib auth_url duration (t ∷ ts) l
      → IsSound lib auth_url duration (t ∷ ts) (step lib t l)
  unfolding step drain_player_key_validations sweep_player_key_cache
  step-IsSound (validates clock key ip) ts l h =
      validate_player_key-IsSound lib auth_url duration _ clock l key ip h
  step-IsSound (drains answers now insert_now) ts l h =
      let done =
        process_ready-IsSound lib auth_url duration ts answers now insert_now l.pending l h.requests
          h in
      record {
        webhook = done.webhook;
        lifetime = done.lifetime;
        entries = done.entries;
        requests = All-waiting _ answers l.pending h.requests;
      }
  step-IsSound (sweeps now) ts l h =
      if-IsSound lib auth_url duration _ (ltb now (l.last_cache_sweep + ms 5000)) l
        (record l { cache = drop_expired now l.cache; last_cache_sweep = now }) h
        (record {
          webhook = h.webhook;
          lifetime = h.lifetime;
          entries = All-drop_expired _ now l.cache h.entries;
          requests = h.requests;
        })

  after-IsSound :
      (ts : List Step) (l : Listener)
      → IsSound lib auth_url duration [] l
      → IsSound lib auth_url duration ts (after lib ts l)
  unfolding after
  after-IsSound [] l h = h
  after-IsSound (t ∷ ts) l h =
      step-IsSound t ts (after lib ts l)
        (later-IsSound t ts (after lib ts l) (after-IsSound ts l h))

admitted_past :
    (b : Bool) (l : Listener) (d : Verdict × Listener) (sid : List ℕ)
    → (if b then (Validation.refused, l) else d).0 ≡ admitted sid
    → d.0 ≡ admitted sid
admitted_past true l d sid e = absurd cc
admitted_past false l d sid e = e

judged-admitted :
    (now : ℕ) (l : Listener) (key : Key) (ip sid : List ℕ) (o : Option Verdict)
    → (Validation.judged now l key ip o).0 ≡ admitted sid
    → o ≡ some (admitted sid)
judged-admitted now l key ip sid none e = absurd cc
judged-admitted now l key ip sid (some verdict) e = ap some e

-- The entry that lets a player in.
record IsHit (now : ℕ) (sid : List ℕ) (o : Option Entry) : Type 0 where
  entry : Entry
  found : o ≡ some entry
  live : now < entry.expiry_time
  valid : entry.is_valid ≡ true
  named : take 2047 entry.resolved_stream_id ≡ sid

looked_up-IsHit :
    (now : ℕ) (sid : List ℕ) (o : Option Entry)
    → Validation.looked_up 2047 now o ≡ some (admitted sid)
    → IsHit now sid o
looked_up-IsHit now sid none e = absurd cc
looked_up-IsHit now sid (some entry) e = elim (Bool-cases (ltb now entry.expiry_time)) [
  | inr over ↦ absurd (none_some (rw over at e))
  | inl live ↦ elim (Bool-cases entry.is_valid) [
    | inr bad ↦ absurd (refused_admitted (rw (live, bad) at e))
    | inl valid ↦ record {
      entry = entry;
      found = refl;
      live = ground (arith, live);
      valid = valid;
      named = same_id _ _ (rw (live, valid) at e);
    }
  ]
]
  where
    none_some : none ≡ some (admitted sid) → ⊥
    none_some e = cc e

    refused_admitted : some Validation.refused ≡ some (admitted sid) → ⊥
    refused_admitted e = cc e

    same_id : (a b : List ℕ) → some (admitted a) ≡ some (admitted b) → a ≡ b
    same_id a b e = cc e

unless_limited-IsHit :
    (clock : Clock) (key : Key) (ip sid : List ℕ) (d : Bool × Listener)
    → (Validation.unless_limited clock key ip d).0 ≡ admitted sid
    → IsHit clock.cache sid (find key d.1.cache)
unless_limited-IsHit clock key ip sid (over, l) e =
    looked_up-IsHit clock.cache sid (find key l.cache) (
      judged-admitted clock.request l key ip sid _
        (admitted_past over l (Validation.resolve clock l key ip) sid e))

-- A listener that starts without cached keys and requests under way lets a player in, behind any of its
-- calls in any order and at any times, only with a stream id that the webhook, asked for this very key,
-- answered with status 200, and only until the cache duration is over, counted from when the answer was
-- taken in. No longer id is cut.
pub validate_player_key-granted :
    (lib : Library) (l : Listener) (ts : List Step) (clock : Clock) (key : Key) (ip sid : List ℕ)
    → l.cache ≡ []
    → l.pending ≡ []
    → (validate_player_key lib clock (after lib ts l) key ip).0 ≡ admitted sid
    → (expiry : ℕ) × WasGranted lib l.auth_url l.cache_duration key sid expiry ts
      × (clock.cache < expiry)
unfolding validate_player_key
validate_player_key-granted lib l ts clock key ip sid no_cache no_pending e =
    let fresh : IsSound lib l.auth_url l.cache_duration [] l = record {
      webhook = refl;
      lifetime = refl;
      entries = rw no_cache tt;
      requests = rw no_pending tt;
    } in
    let now = after-IsSound lib l.auth_url l.cache_duration ts l fresh in
    let l' = after lib ts l in
    let d = Limit.is_rate_limited l' clock.rate clock.cleanup ip in
    let seen =
      is_rate_limited-IsSound lib l.auth_url l.cache_duration ts l' clock.rate clock.cleanup ip
        now in
    let hit =
      unless_limited-IsHit clock key ip sid d
        (admitted_past _ l' (Validation.unless_limited clock key ip d) sid e) in
    let earned = All-find _ key hit.entry d.1.cache hit.found seen.entries hit.valid in
    let same : hit.entry.resolved_stream_id ≡ sid =
      sym (take-all 2047 hit.entry.resolved_stream_id earned.1) ∙ hit.named in
    (
      hit.entry.expiry_time,
      subst (λ i. WasGranted lib l.auth_url l.cache_duration key i hit.entry.expiry_time ts) same
          earned.0,
      hit.live,
    )
