-- ===== src/PlayerKey/Steps.antt =====
-- The calls on the player keys of a listener, in any order and at any times.
use irl_srt_server.Prelude.{ℕ, Option, List, [], ◌∷◌}
use irl_srt_server.Prelude.Keyed.{Key}
use irl_srt_server.Role.Webhook.{Response}
use irl_srt_server.PlayerKey.{Listener, Library}
use irl_srt_server.PlayerKey.Cache.{sweep_player_key_cache}
use irl_srt_server.PlayerKey.Validation.{Clock, validate_player_key, drain_player_key_validations}

-- A player that comes with a key from an address, and the two calls of the worker's tick.
pub data Step : Type 0 where
  validates : Clock → Key → List ℕ → Step
  drains : (List ℕ → Option Response) → (Key → ℕ) → (Key → ℕ) → Step
  sweeps : ℕ → Step

module _ (lib : Library) where
  unfoldable pub step : Step → Listener → Listener
  step (validates clock key ip) l = (validate_player_key lib clock l key ip).1
  step (drains answers now insert_now) l = drain_player_key_validations lib answers now insert_now l
  step (sweeps now) l = sweep_player_key_cache l now

  -- The newest step stands first.
  unfoldable pub after : List Step → Listener → Listener
  after [] l = l
  after (t ∷ ts) l = step t (after ts l)
