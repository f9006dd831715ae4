-- ===== src/Registry/Players/History.antt =====
-- The registry of players over all the calls of a server's life.
use irl_srt_server.Prelude.{List, [], ◌∷◌, if◌then◌else◌}
use irl_srt_server.Prelude.Int.{ℤ}
use irl_srt_server.Prelude.Keyed.{Key, same_key}
use irl_srt_server.Registry.Players.{Player, World, Registry, add, count, list}
use irl_srt_server.Registry.Players.Live.{IsBefore}

-- A call, and what its pointers reach.
pub data Call : Type 0 where
  adds : World → Player → Call
  counts : World → Key → Call
  lists : World → Key → ℤ → Call

abbrev pub world_of : Call → World
world_of (adds w p) = w
world_of (counts w k) = w
world_of (lists w k now) = w

unfoldable pub step : Registry → Call → Registry
step m (adds w p) = add w p m
step m (counts w k) = (count w k m).1
step m (lists w k now) = (list w k now m).1

unfoldable pub steps : Registry → List Call → Registry
steps m [] = m
steps m (c ∷ cs) = steps (step m c) cs

-- The players of a stream that the calls add, in order.
unfoldable pub added : Key → List Call → List Player
added k [] = []
added k (adds w p ∷ cs) =
    let rest = added k cs in if same_key k p.stream_key then p ∷ rest else rest
added k (counts w j ∷ cs) = added k cs
added k (lists w j now ∷ cs) = added k cs

-- All the calls come before.
abbrev pub AreBefore : List Call → World → Type 0
AreBefore [] w = Unit
AreBefore (c ∷ cs) w = IsBefore (world_of c) w × AreBefore cs w
