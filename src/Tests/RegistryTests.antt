-- ===== src/Tests/RegistryTests.antt =====
-- The registries of src/core/SLSMapPublisher.cpp, SLSPlayerRegistry.cpp and SLSRoleList.cpp, and the
-- session names of SLSSessionTracker.cpp.
use irl_srt_server.Prelude.{ℕ, ◌≡◌, ◌≢◌, refl, false, some, List, [], ◌∷◌, arith, ◌==◌}
use irl_srt_server.Prelude.Int.{pos}
use irl_srt_server.Prelude.Keyed.{Key, find, same_key}
use irl_srt_server.Registry.Publishers.{MapPublisher, get_publisher}
use irl_srt_server.Registry.Publishers.Holding.{sets_publisher, removes, steps, steps-get_publisher}
use irl_srt_server.Registry.Players.{Player, Snapshot, World}
use irl_srt_server.Registry.Players
use irl_srt_server.Registry.Players.History

abbrev cam : Key
cam = 99 ∷ []

abbrev mic : Key
mic = 109 ∷ []

-- Role 7 publishes cam.
abbrev publishers : MapPublisher
publishers = record {
  live_2_uplive = [];
  uplive_2_conf = [];
  push_2_publisher = (cam, some 7) ∷ [];
}

seven_publishes : get_publisher publishers cam ≡ some 7
unfolding get_publisher find same_key
seven_publishes = refl

steps-get_publisher_example :
    get_publisher
      (steps publishers (sets_publisher cam 8 ∷ removes 8 ∷ sets_publisher mic 9 ∷ []))
      cam
    ≡ some 7
steps-get_publisher_example =
    steps-get_publisher publishers (sets_publisher cam 8 ∷ removes 8 ∷ sets_publisher mic 9 ∷ [])
      cam 7 (eight, record {}) seven_publishes
  where
    eight : ◌≢◌ {A = ℕ} 8 7
    eight e = absurd (omega arith)

abbrev snapshot : Snapshot
snapshot = record {
  rtt_ms = 0;
  mbps_send_rate = 0;
  pkt_snd_drop_total = pos 0;
  pkt_retrans_total = pos 0;
  closed = false;
}

-- Everyone is there, and later the role 1 is freed.
abbrev early : World
early = record { expired = λ r. false; snapshots = λ s. snapshot }

abbrev late : World
late = record { expired = λ r. r == 1; snapshots = λ s. snapshot }

abbrev player : ℕ → Player
player r = record {
  stream_key = cam;
  client_id = [];
  player_key_id = [];
  connected_at_ms = pos 1000;
  latency_ms = pos 120;
  liveness = r;
  snapshot = some r;
}

abbrev history : List History.Call
history =
    History.adds early (player 1) ∷ History.counts early cam ∷ History.adds early (player 2) ∷ []
