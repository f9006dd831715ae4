-- ===== src/PlayerKey.antt =====
-- The player keys of a listener (src/core/SLSListenerAuth.cpp): the cache of what the webhook said of a
-- key, the requests that are under way and the limit on requests by address. The clock counts
-- nanoseconds, and each reading of it is an argument. The regular expression, the JSON library and the
-- answers of the webhook are arguments too.
pub mod Cache
pub mod Limit
pub mod Validation
pub mod Steps
pub mod Entries
pub mod Limits
pub mod Room
pub mod Rate
pub mod Requests
pub mod Granting
pub mod Keeping
pub mod Admission
use irl_srt_server.Prelude.{ℕ, ◌*◌, Bool, Option, List}
use irl_srt_server.Prelude.Int.{ℤ}
use irl_srt_server.Prelude.Keyed.{Key, Keyed}

-- `PlayerKeyCacheEntry`
pub record Entry : Type 0 where
  pub resolved_stream_id : List ℕ
  pub expiry_time : ℕ
  pub is_valid : Bool
  pub has_max_players_override : Bool
  pub max_players_per_stream_override : ℤ

-- What the JSON library makes of a body: it throws, there is no text as the stream id, or there is
-- one, and a maximum of players that is absent, of another type or an integer.
pub data Override : Type 0 where
  absent : Override
  not_integer : Override
  integer : ℤ → Override

pub data Payload : Type 0 where
  malformed : Payload
  no_stream_id : Payload
  stream_id : List ℕ → Override → Payload

-- `std::regex_match`, which may throw, and the JSON library.
pub record Library : Type 0 where
  pub regex_match : List ℕ → Option Bool
  pub parse : List ℕ → Payload

-- The members of `CSLSListener` for player keys. A request under way is its URL, and the times of the
-- requests of an address stand oldest first.
pub record Listener : Type 0 where
  pub auth_url : List ℕ
  pub cache_duration : ℕ
  pub rate_limit_requests : ℤ
  pub rate_limit_window : ℕ
  pub max_length : ℕ
  pub min_length : ℕ
  pub cache : Keyed Entry
  pub last_cache_sweep : ℕ
  pub pending : Keyed (List ℕ)
  pub rate_limit_map : Keyed (List ℕ)
  pub last_rate_limit_cleanup : ℕ

abbrev pub ms : ℕ → ℕ
ms n = n * 1000000

abbrev pub max_cache_entries : ℕ
max_cache_entries = 50000

abbrev pub max_rate_limit_entries : ℕ
max_rate_limit_entries = 100000

abbrev pub max_pending_validations : ℕ
max_pending_validations = 1024
