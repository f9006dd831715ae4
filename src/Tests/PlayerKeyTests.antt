-- ===== src/Tests/PlayerKeyTests.antt =====
-- The player keys of src/core/SLSListenerAuth.cpp: a key that comes, is granted, and comes again.
use irl_srt_server.Prelude.{ℕ, ◌<◌, ◌≡◌, refl, true, some, List, [], ◌∷◌, arith}
use irl_srt_server.Prelude.Int.{pos}
use irl_srt_server.Prelude.Keyed.{Key, find, same_key, erase, assign, is_some}
use irl_srt_server.Prelude.Ordered.{place}
use irl_srt_server.Relay.Url.{fits, url_encode}
use irl_srt_server.Role.Webhook.{Response}
use irl_srt_server.PlayerKey.Cache
use irl_srt_server.PlayerKey.Limit
use irl_srt_server.PlayerKey.Validation
use irl_srt_server.PlayerKey.{Listener, Library, stream_id, absent}
use irl_srt_server.PlayerKey.Validation.{Clock, admitted, validate_player_key}
use irl_srt_server.PlayerKey.Steps.{Step, validates, drains, sweeps, step, after}
use irl_srt_server.PlayerKey.Limits.{IsBounded}
use irl_srt_server.PlayerKey.Rate.{IsLimited}
use irl_srt_server.PlayerKey.Requests.{after-IsLimited}
use irl_srt_server.PlayerKey.Room.{after-IsBounded}
use irl_srt_server.PlayerKey.Granting.{WasGranted}
use irl_srt_server.PlayerKey.Admission.{validate_player_key-granted}

abbrev listener : Listener
listener = record {
  auth_url = 104 ∷ [];
  cache_duration = 60000;
  rate_limit_requests = pos 5;
  rate_limit_window = 60000;
  max_length = 64;
  min_length = 1;
  cache = [];
  last_cache_sweep = 0;
  pending = [];
  rate_limit_map = [];
  last_rate_limit_cleanup = 0;
}

abbrev library : Library
library = record { regex_match = λ k. some true; parse = λ body. stream_id body absent }

abbrev response : Response
response = record { success = true; status_code = pos 200; body = 115 ∷ [] }

abbrev at : ℕ → Clock
at now = record { rate = now; cleanup = now; cache = now; request = now }

abbrev key : Key
key = 107 ∷ []

abbrev ip : List ℕ
ip = 49 ∷ []

-- The newest call stands first.
abbrev calls : List Step
calls =
    drains (λ url. some response) (λ k. 2000) (λ k. 2000)
    ∷ sweeps 1500
    ∷ validates (at 1000) key ip
    ∷ []

let_in :
    (validate_player_key library (at 3000) (after library calls listener) key ip).0
    ≡ admitted (115 ∷ [])
unfolding validate_player_key after step Validation.drain_player_key_validations
    Validation.process_ready Cache.sweep_player_key_cache Validation.validate_player_key_format
    Limit.is_rate_limited find Limit.cleanup_expired_rate_limits
    Validation.start_player_key_validation is_some Validation.request_url fits url_encode
    Limit.update_rate_limit place Validation.process_player_key_response Cache.drop_expired
    Cache.insert_cache Cache.make_room Limit.noted Limit.trim Limit.trim_all Validation.waiting
    assign erase same_key
let_in = refl

validate_player_key-granted_example :
    (expiry : ℕ) × WasGranted library listener.auth_url listener.cache_duration key
      (115 ∷ [])
      expiry
      calls
    × (3000 < expiry)
validate_player_key-granted_example =
    validate_player_key-granted library listener calls (at 3000) key ip (115 ∷ []) refl refl let_in

empty-IsBounded : IsBounded listener
empty-IsBounded = record { cached = omega arith; asked = omega arith; tracked = omega arith }

after-IsBounded_example : IsBounded (after library calls listener)
after-IsBounded_example = after-IsBounded library calls listener empty-IsBounded

empty-IsLimited : IsLimited (pos 5) listener
empty-IsLimited = record { limit = refl; few = tt }

after-IsLimited_example : IsLimited (pos 5) (after library calls listener)
after-IsLimited_example = after-IsLimited (pos 5) library calls listener empty-IsLimited
