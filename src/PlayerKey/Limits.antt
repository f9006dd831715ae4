-- ===== src/PlayerKey/Limits.antt =====
-- The number of entries in the maps of src/core/SLSListenerAuth.cpp: the cache and the limit on requests.
use irl_srt_server.Prelude.{
  ℕ, ◌+◌, ◌-◌, ◌*◌, ◌≤◌, ◌≡◌, refl, ap, Bool, true, false, ◌&&◌, ◌||◌, not, Option, none, some,
  List, [], ◌∷◌, ◌++◌, arith, leb, ltb, length, Bool-cases, inl, inr, if◌then◌else◌,
}
use irl_srt_server.Prelude.Keyed.{Key, Keyed, find, is_some}
use irl_srt_server.Role.{is_empty}
use irl_srt_server.PlayerKey.Limit
use irl_srt_server.PlayerKey.{
  Entry, Listener, ms, max_cache_entries, max_rate_limit_entries, max_pending_validations,
}
use irl_srt_server.PlayerKey.Cache.{drop_expired, soonest, evict, make_room, insert_cache}
use irl_srt_server.PlayerKey.Limit.{trim_all, noted, note_request, is_minus_one, update_rate_limit}
use irl_srt_server.PlayerKey.Entries.{
  length-place, length-assign, length-erase, length-drop_expired, length-trim_all, soonest-found,
}

pub record IsBounded (l : Listener) : Type 0 where
  pub cached : length l.cache ≤ max_cache_entries
  pub asked : length l.pending ≤ max_pending_validations
  pub tracked : length l.rate_limit_map ≤ max_rate_limit_entries

length-evict : (m : Keyed Entry) → length (evict m) ≤ length m - 1
unfolding evict
length-evict [] = omega arith
length-evict (e ∷ m) = omega (arith, length-erase (soonest e m).0 (e ∷ m) (soonest-found e m))

length-make_room :
    (now : ℕ) (m : Keyed Entry)
    → length m ≤ max_cache_entries
    → length (make_room now m) + 1 ≤ max_cache_entries
unfolding make_room
length-make_room now m h =
    ground (arith, h, length-drop_expired now m, length-evict (drop_expired now m))

pub insert_cache-length :
    (now : ℕ) (k : Key) (e : Entry) (m : Keyed Entry)
    → length m ≤ max_cache_entries
    → length (insert_cache now k e m) ≤ max_cache_entries
unfolding insert_cache
insert_cache-length now k e m h = elim (Bool-cases (is_some (find k m))) [
  | inl old ↦ rw old (omega (arith, length-assign k e m old, h))
  | inr new ↦ rw new (omega (arith, length-place k e (make_room now m), length-make_room now m h))
]

note_request-length :
    (now : ℕ) (ip : List ℕ) (m : Keyed (List ℕ)) (o : Option (List ℕ))
    → find ip m ≡ o
    → (is_some o ≡ false → length m + 1 ≤ max_rate_limit_entries)
    → length m ≤ max_rate_limit_entries
    → length (note_request now ip m o) ≤ max_rate_limit_entries
unfolding is_some
note_request-length now ip m none e room h = omega (arith, length-place ip (now ∷ []) m, room refl)
note_request-length now ip m (some times) e room h =
    omega (arith, length-assign ip (times ++ now ∷ []) m (ap is_some e), h)

noted-length :
    (now window : ℕ) (ip : List ℕ) (m : Keyed (List ℕ))
    → length m ≤ max_rate_limit_entries
    → length (noted now window ip m) ≤ max_rate_limit_entries
unfolding noted
noted-length now window ip m h =
    let swept = trim_all now (ms (window * 2)) m in
    let fewer = length-trim_all now (ms (window * 2)) m in
    elim (Bool-cases (not (is_some (find ip m)) && leb max_rate_limit_entries (length m))) [
      | inl full ↦ elim (Bool-cases (leb max_rate_limit_entries (length swept))) [
        | inl still ↦ rw (full, still) (omega (arith, fewer, h))
        | inr room ↦
            rw (full, room)
              (note_request-length now ip swept (find ip swept) refl (λ _. ground (arith, room))
                (omega (arith, fewer, h)))
      ]
      | inr room ↦
          rw room
            (note_request-length now ip m (find ip m) refl (λ new. ground (arith, room, new)) h)
    ]

pub if-IsBounded :
    (b : Bool) (x y : Listener) → IsBounded x → IsBounded y → IsBounded (if b then x else y)
if-IsBounded true x y f g = f
if-IsBounded false x y f g = g

pub update_rate_limit-IsBounded :
    (l : Listener) (now : ℕ) (ip : List ℕ) → IsBounded l → IsBounded (update_rate_limit l now ip)
unfolding update_rate_limit
update_rate_limit-IsBounded l now ip b =
    if-IsBounded (is_minus_one l.rate_limit_requests || is_empty ip) l
      (record l { rate_limit_map = noted now l.rate_limit_window ip l.rate_limit_map }) b
      (record {
        cached = b.cached;
        asked = b.asked;
        tracked = noted-length now l.rate_limit_window ip l.rate_limit_map b.tracked;
      })

cleanup-IsBounded :
    (l : Listener) (now : ℕ) → IsBounded l → IsBounded (Limit.cleanup_expired_rate_limits l now)
unfolding Limit.cleanup_expired_rate_limits
cleanup-IsBounded l now b =
    if-IsBounded (ltb now (l.last_rate_limit_cleanup + ms 1000)) l
      (record l {
        rate_limit_map = trim_all now (ms (l.rate_limit_window * 2)) l.rate_limit_map;
        last_rate_limit_cleanup = now;
      })
      b
      (record {
        cached = b.cached;
        asked = b.asked;
        tracked =
            omega (
              arith,
              length-trim_all now (ms (l.rate_limit_window * 2)) l.rate_limit_map,
              b.tracked,
            );
      })

limited-IsBounded :
    (l : Listener) (now : ℕ) (ip : List ℕ) (o : Option (List ℕ))
    → find ip l.rate_limit_map ≡ o
    → IsBounded l
    → IsBounded (Limit.limited l now ip o).1
unfolding is_some
limited-IsBounded l now ip none e b = b
limited-IsBounded l now ip (some times) e b = record {
  cached = b.cached;
  asked = b.asked;
  tracked = omega (
    arith,
    length-assign ip (Limit.trim now (ms l.rate_limit_window) times) l.rate_limit_map
        (ap is_some e),
    b.tracked,
  );
}

-- What the limit and the request leave bounded.
abbrev pub Limited : Type 0
Limited = Bool × Listener

limit-if :
    (c : Bool) (x y : Limited) → IsBounded x.1 → IsBounded y.1 → IsBounded (if c then x else y).1
limit-if true x y f g = f
limit-if false x y f g = g

pub is_rate_limited-IsBounded :
    (l : Listener) (now cleanup_now : ℕ) (ip : List ℕ)
    → IsBounded l
    → IsBounded (Limit.is_rate_limited l now cleanup_now ip).1
unfolding Limit.is_rate_limited
is_rate_limited-IsBounded l now cleanup_now ip b =
    let cleaned = Limit.cleanup_expired_rate_limits l cleanup_now in
    limit-if _ (false, l) (Limit.limited cleaned now ip (find ip cleaned.rate_limit_map)) b
      (limited-IsBounded cleaned now ip _ refl (cleanup-IsBounded l cleanup_now b))
