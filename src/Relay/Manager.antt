-- ===== src/Relay/Manager.antt =====
-- src/core/SLSRelayManager.hpp and .cpp: what the managers share, and the part of the server that they
-- act on.
use irl_srt_server.Prelude.{ℕ, ◌+◌, Bool, false, Option, none, some, List, [], ◌∷◌, if◌then◌else◌}
use irl_srt_server.Prelude.Int.{ℤ, sls_error}
use irl_srt_server.PushUrl.Address.{Addr}
use irl_srt_server.MapData.{MapData}
use irl_srt_server.Registry.Publishers.{MapPublisher}
use irl_srt_server.Registry.Roles.{RoleList}
use irl_srt_server.Relay.Url.{relay_url, get_hash_url}
use irl_srt_server.Relay.Loop.{is_ok}

-- `SLS_PM_LOOP`, `SLS_PM_HASH` and `SLS_PM_ALL`
pub data Mode : Type 0 where
  pm_loop : Mode
  pm_hash : Mode
  pm_all : Mode

-- `SLS_RELAY_INFO`
pub record RelayInfo : Type 0 where
  pub upstreams : List (List ℕ)
  pub vetted_addrs : List Addr
  pub type_name : List ℕ
  pub mode : Mode
  pub reconnect_interval : ℤ
  pub idle_streams_timeout : ℤ

-- The objects that a manager's pointers lead to, the child relays of a pusher's manager at work, and
-- the next identities of rings and relays.
pub record Hub : Type 0 where
  pub publishers : MapPublisher
  pub streams : MapData
  pub roles : RoleList
  pub child_relays : List ℕ
  pub next_ring : ℕ
  pub next_role : ℕ

-- `CSLSRelayManager`. The last three say which of its pointers are set.
pub record Manager : Type 0 where
  pub app_uplive : List ℕ
  pub stream_name : List ℕ
  pub sri : Option RelayInfo
  pub listen_port : ℤ
  pub reconnect_begin_tm : ℤ
  pub has_publishers : Bool
  pub has_streams : Bool
  pub has_roles : Bool

unfoldable pub create : Manager
create = record {
  app_uplive = [];
  stream_name = [];
  sri = none;
  listen_port = ℤ.pos 0;
  reconnect_begin_tm = ℤ.pos 0;
  has_publishers = false;
  has_streams = false;
  has_roles = false;
}

unfoldable pub set_relay_conf : Manager → Option RelayInfo → Manager
set_relay_conf m sri = record m { sri = sri }

unfoldable pub set_listen_port : Manager → ℤ → Manager
set_listen_port m port = record m { listen_port = port }

-- `connect`, which makes a relay and opens it. `opens` is what `CSLSRelay::open` returns for a relay and a
-- URL, and `set_relay_param` the manager's own.
unfoldable pub connect : (ℕ → List ℕ → ℤ) → (ℕ → Hub → ℤ × Hub) → List ℕ → Hub → ℤ × Hub
connect opens set_relay_param [] hub = (sls_error, hub)
connect opens set_relay_param (c ∷ url) hub =
    let made : Hub = record hub { next_role = hub.next_role + 1 } in
    if is_ok (opens hub.next_role (c ∷ url))
    then set_relay_param hub.next_role made
    else (opens hub.next_role (c ∷ url), made)

abbrev pub upstreams_of : Option RelayInfo → List (List ℕ)
upstreams_of none = []
upstreams_of (some sri) = sri.upstreams

abbrev pub connect_or_error : (List ℕ → Hub → ℤ × Hub) → Option (List ℕ) → Hub → ℤ × Hub
connect_or_error connect none hub = (sls_error, hub)
connect_or_error connect (some url) hub = connect url hub

-- `connect_hash`, by the manager's `connect`.
abbrev pub connect_hashed : (List ℕ → Hub → ℤ × Hub) → List ℕ → List ℕ → Hub → ℤ × Hub
connect_hashed connect [] stream_name hub = (sls_error, hub)
connect_hashed connect (c ∷ upstream) stream_name hub =
    connect_or_error connect (relay_url (c ∷ upstream) stream_name) hub

unfoldable pub connect_hash : (List ℕ → Hub → ℤ × Hub) → Manager → Hub → ℤ × Hub
connect_hash connect m hub =
    connect_hashed connect (get_hash_url (upstreams_of m.sri) m.stream_name) m.stream_name hub
