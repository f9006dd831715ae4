-- ===== src/Sid/Refusal.antt =====
-- The listen callback of publishers in src/core/sls_sid.cpp together with the cache of
-- src/core/auth_reject_cache.cpp.
use irl_srt_server.Prelude.{
  ℕ, ◌+◌, ◌<◌, length, arith, ◌≡◌, refl, sym, ◌∙◌, true, false, Option, none, some, List, [], ◌∷◌,
  ◌++◌, lt→ltb,
}
use irl_srt_server.Prelude.Int.{negsuc}
use irl_srt_server.AuthRejectCache.{Cache, max_entries, size, record_failure, is_blocked}
use irl_srt_server.AuthRejectCache.Memory.{
  failures, AreBetween, failures-is_blocked, record_failure-IsUnique, record_failure-size,
  record_failure-ttl,
}
use irl_srt_server.Prelude.Keyed.{Key, IsUnique}
use irl_srt_server.AuthRejectCache.Blocking.{record_failure-blocks}
use irl_srt_server.Sid.{
  Names, is_safe_name, parse_streamid, names_of, join, canonical_sid_key, validate_sid_format,
  rogue, resource, publisher_listen_callback, player_listen_callback,
}
use irl_srt_server.Sid.Canonical.{valid-names}

canonical_sid_key-join :
    (sid : List ℕ) (n : Names)
    → validate_sid_format (some sid) ≡ true
    → names_of (parse_streamid (some sid)) ≡ some n
    → canonical_sid_key sid ≡ join n
unfolding validate_sid_format canonical_sid_key
canonical_sid_key-join [] n v e = absurd cc
canonical_sid_key-join (b ∷ bs) n v e = rw (e, canonical_sid_key)

blocked_key :
    (c : Cache) (h rest : List ℕ) (later : List (Key × ℕ)) (now t : ℕ)
    → is_safe_name h ≡ true
    → IsUnique c.blocked
    → size c + length later < max_entries
    → AreBetween now t later
    → t < now + c.ttl
    → is_blocked (failures (record_failure c (h ++ rest) now) later) (h ++ rest) t ≡ true
blocked_key c [] rest later now t s u room within soon = absurd (unfold is_safe_name in cc)
blocked_key c (b ∷ h) rest later now t s u room within soon =
    failures-is_blocked (record_failure c (b ∷ h ++ rest) now) b (h ++ rest) later now t
      (record_failure-IsUnique c (b ∷ h ++ rest) now u)
      (omega (arith, room, record_failure-size c (b ∷ h ++ rest) now)) within
      (rw (record_failure-ttl c (b ∷ h ++ rest) now) soon)
      (record_failure-blocks c b (h ++ rest) now t ∙ lt→ltb t (now + c.ttl) soon)

-- Once a failure is recorded for a publisher's id, every id that passes the check and names the same
-- stream is refused with the reason RESOURCE until the time to live has passed, whatever failures, of
-- this id or of others, are recorded in between. The table, in which no id stands twice, has room for
-- all of these failures: one that is full evicts.
pub refused_while_blocked :
    (c : Cache) (sid other : List ℕ) (later : List (Key × ℕ)) (now t : ℕ)
    → validate_sid_format (some sid) ≡ true
    → validate_sid_format (some other) ≡ true
    → names_of (parse_streamid (some sid)) ≡ names_of (parse_streamid (some other))
    → IsUnique c.blocked
    → size c + length later < max_entries
    → AreBetween now t later
    → t < now + c.ttl
    → publisher_listen_callback
        (some (failures (record_failure c (canonical_sid_key sid) now) later))
        (some other)
        t
      ≡ (negsuc 0, some resource)
unfolding publisher_listen_callback
refused_while_blocked c sid other later now t v w same u room within soon =
    let (h, a, r, e, sh, sa, sr, key) = valid-names sid v in
    rw (
      w,
      key,
      canonical_sid_key-join other (h, a, r) w (sym same ∙ e),
      blocked_key c h (47 ∷ (a ++ (47 ∷ r))) later now t sh u room within soon,
    )

-- A publisher or a player that sends no id, or one that does not pass the check, is refused with the
-- reason ROGUE.
pub invalid_refused :
    (cache : Option Cache) (sid : Option (List ℕ)) (now : ℕ)
    → (validate_sid_format sid ≡ false)
    → (publisher_listen_callback cache sid now ≡ (negsuc 0, some rogue))
      × (player_listen_callback sid ≡ (negsuc 0, some rogue))
unfolding publisher_listen_callback player_listen_callback
invalid_refused cache none now h = (refl, rw h)
invalid_refused cache (some sid) now h = (rw h, rw h)
