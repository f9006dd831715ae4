-- ===== src/PlayerKey/Cache.antt =====
-- The cache of player keys in src/core/SLSListenerAuth.cpp: insertion with eviction, and the sweep.
use irl_srt_server.Prelude.{ℕ, ◌+◌, [], ◌∷◌, ltb, leb, length, if◌then◌else◌}
use irl_srt_server.Prelude.Keyed.{Key, Keyed, find, assign, erase, is_some}
use irl_srt_server.Prelude.Ordered.{place}
use irl_srt_server.PlayerKey.{Entry, Listener, ms, max_cache_entries}

-- The loop that drops what has expired.
unfoldable pub drop_expired : ℕ → Keyed Entry → Keyed Entry
drop_expired now [] = []
drop_expired now ((k, e) ∷ m) =
    let rest = drop_expired now m in if leb e.expiry_time now then rest else (k, e) ∷ rest

-- The search for the entry that expires first, from `victim` on.
unfoldable pub soonest : Key × Entry → Keyed Entry → Key × Entry
soonest victim [] = victim
soonest victim (e ∷ m) =
    let here = soonest e m in
    let kept = soonest victim m in if ltb e.1.expiry_time victim.1.expiry_time then here else kept

unfoldable pub evict : Keyed Entry → Keyed Entry
evict [] = []
evict (e ∷ m) = erase (soonest e m).0 (e ∷ m)

unfoldable pub make_room : ℕ → Keyed Entry → Keyed Entry
make_room now m =
    if leb max_cache_entries (length m)
    then (let swept = drop_expired now m in
        if leb max_cache_entries (length swept) then evict swept else swept)
    else m

-- `insert_player_key_cache_locked`
unfoldable pub insert_cache : ℕ → Key → Entry → Keyed Entry → Keyed Entry
insert_cache now key entry m =
    if is_some (find key m) then assign key entry m else place key entry (make_room now m)

unfoldable pub sweep_player_key_cache : Listener → ℕ → Listener
sweep_player_key_cache l now =
    if ltb now (l.last_cache_sweep + ms 5000)
    then l
    else record l { cache = drop_expired now l.cache; last_cache_sweep = now }
