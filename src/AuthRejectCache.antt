-- ===== src/AuthRejectCache.antt =====
-- src/core/auth_reject_cache.hpp and .cpp: the stream ids whose authorization failed lately. The clock
-- (`time(nullptr)`, in seconds) is an argument; each method runs under the object's mutex.
pub mod Blocking
pub mod Memory
use irl_srt_server.Prelude.{
  ℕ, ◌+◌, Bool, true, false, ◌&&◌, not, Option, none, some, List, [], ◌∷◌, ltb, leb, ◌==◌,
  if◌then◌else◌,
}
use irl_srt_server.Prelude.Int.{ℤ, pos, negsuc}
use irl_srt_server.Prelude.Keyed.{Key, Keyed, find, assign, erase, total, is_some}

-- `AuthRejectCache`: each id with the second at which its block ends.
pub record Cache : Type 0 where
  pub blocked : Keyed ℕ
  pub ttl : ℕ
  pub last_sweep : ℕ

-- `MAX_AUTH_REJECT_ENTRIES`
abbrev pub max_entries : ℕ
max_entries = 50000

unfoldable pub set_ttl : Cache → ℤ → Cache
set_ttl c (negsuc n) = c
set_ttl c (pos n) = if n == 0 then c else record c { ttl = n }

-- The loop that drops the blocks that have ended.
unfoldable pub sweep : ℕ → Keyed ℕ → Keyed ℕ
sweep now [] = []
sweep now ((k, expiry) ∷ m) =
    let rest = sweep now m in if leb expiry now then rest else (k, expiry) ∷ rest

abbrev pub one : ℕ → ℕ
one expiry = 1

unfoldable pub size : Cache → ℕ
size c = total one c.blocked

-- The search for the entry that ends first, from `victim` on.
unfoldable pub soonest : Key × ℕ → Keyed ℕ → Key × ℕ
soonest victim [] = victim
soonest victim (e ∷ m) =
    let here = soonest e m in let kept = soonest victim m in if ltb e.1 victim.1 then here else kept

unfoldable pub evict : Keyed ℕ → Keyed ℕ
evict [] = []
evict (e ∷ m) = erase (soonest e m).0 (e ∷ m)

unfoldable pub sweep_once : ℕ → Cache → Cache
sweep_once now c =
    if now == c.last_sweep then c else record c { blocked = sweep now c.blocked; last_sweep = now }

-- The room that a new id needs.
unfoldable pub make_room : Key → Keyed ℕ → Keyed ℕ
make_room id m = if not (is_some (find id m)) && leb max_entries (total one m) then evict m else m

unfoldable pub record_failure : Cache → Key → ℕ → Cache
record_failure c [] now = c
record_failure c (b ∷ id) now =
    let swept = sweep_once now c in
    record swept { blocked = assign (b ∷ id) (now + c.ttl) (make_room (b ∷ id) swept.blocked) }

abbrev pub is_live : ℕ → Option ℕ → Bool
is_live now none = false
is_live now (some expiry) = ltb now expiry

unfoldable pub is_blocked : Cache → Key → ℕ → Bool
is_blocked c [] now = false
is_blocked c (b ∷ id) now = is_live now (find (b ∷ id) c.blocked)

unfoldable pub cleanup : Cache → ℕ → Cache
cleanup c now = record c { blocked = sweep now c.blocked }
