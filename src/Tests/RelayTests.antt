-- ===== src/Tests/RelayTests.antt =====
-- The relays of src/core/SLSPullerManager.cpp and SLSPusherManager.cpp, with two upstreams of which
-- the second one answers.
use mathlib.Core.Path.{subst}
use mathlib.Core.Option.{some-injective}
use irl_srt_server.Prelude.{
  ap, ℕ, zero, suc, ◌+◌, ◌++◌, ◌≡◌, refl, Bool, true, false, Option, some, none, List, [], ◌∷◌,
  arith, ◌==◌, if◌then◌else◌, get_or,
}
use irl_srt_server.Prelude.Int.{ℤ, pos, sls_ok, sls_error}
use irl_srt_server.Prelude.Keyed.{Key, Keyed, find, is_some}
use irl_srt_server.MapData
use irl_srt_server.Registry.Publishers.{get_publisher}
use irl_srt_server.PushUrl.Address.{Addr}
use irl_srt_server.Relay.Url.{url_encode, relay_url, stream_key, fits}
use irl_srt_server.Relay.Encoding.{url_decode, url_decode-url_encode}
use irl_srt_server.Relay.Loop.{is_ok, connect_loop}
use irl_srt_server.Relay.Reach.{AllFit, connect_loop-reaches}
use irl_srt_server.Relay.Manager.{Hub, RelayInfo, pm_loop}
use irl_srt_server.Relay.Puller
use irl_srt_server.Relay.Puller.{Puller, puller_name, register, reconnect}
use irl_srt_server.Relay.Joining.{IsFree, reconnect-reaches}
use irl_srt_server.Relay.Whole.{register-whole}
use irl_srt_server.Relay.Pusher.{reconnect_all}
use irl_srt_server.Relay.Queue.{entries, remaining, reconnect_all-remaining}

-- "a b"
abbrev name : List ℕ
name = 97 ∷ 32 ∷ 98 ∷ []

url_decode-url_encode_example : url_decode (url_encode name) ≡ name
url_decode-url_encode_example =
    url_decode-url_encode name (omega arith, (omega arith, (omega arith, record {})))

abbrev upstreams : List (List ℕ)
upstreams = (120 ∷ []) ∷ (121 ∷ []) ∷ []

-- Whether the host of the URL is "y"; each attempt counts.
abbrev host_is_y : List ℕ → Bool
host_is_y url = get_or url 6 0 == 121

abbrev attempt : List ℕ → ℕ → ℤ × ℕ
attempt url tries = (if host_is_y url then sls_ok else sls_error, tries + 1)

-- srt://C/a%20b
abbrev url_of : ℕ → List ℕ
url_of c = 115 ∷ 114 ∷ 116 ∷ 58 ∷ 47 ∷ 47 ∷ c ∷ 47 ∷ 97 ∷ 37 ∷ 50 ∷ 48 ∷ 98 ∷ []

urls_fit : AllFit upstreams name
unfolding relay_url fits url_encode
urls_fit zero h = (url_of 120, refl)
urls_fit (suc zero) h = (url_of 121, refl)
urls_fit (suc (suc n)) h = absurd (omega arith)

y_url : {url : List ℕ} → relay_url (121 ∷ []) name ≡ some url → host_is_y url ≡ true
unfolding relay_url fits url_encode
y_url {url = url} e = subst (λ u. host_is_y u ≡ true) (some-injective (url_of 121) url e) refl

abbrev AnyState : ℕ → Type 0
AnyState tries = Unit

connect_loop-reaches_example :
    (ret : ℤ) × (cur' : Option ℕ) × (tries : ℕ) × (connect_loop attempt upstreams name none 0
      ≡ some (ret, cur', tries))
    × (is_ok ret ≡ true)
connect_loop-reaches_example =
    connect_loop-reaches attempt upstreams name {Inv = AnyState} none 0 1 (record {}) urls_fit
      (omega arith) (λ url s v failed. record {}) (record {})
      (λ url e s v. ap (λ b. is_ok (if b then sls_ok else sls_error)) (y_url e))

abbrev hub : Hub
hub = record {
  publishers = record { live_2_uplive = []; uplive_2_conf = []; push_2_publisher = [] };
  streams = MapData.init;
  roles = [];
  child_relays = [];
  next_ring = 1;
  next_role = 1;
}

abbrev info : RelayInfo
info = record {
  upstreams = upstreams;
  vetted_addrs = [];
  type_name = [];
  mode = pm_loop;
  reconnect_interval = pos 5;
  idle_streams_timeout = pos 60;
}

abbrev puller : Puller
puller = record {
  manager = record {
    app_uplive = 117 ∷ [];
    stream_name = name;
    sri = some info;
    listen_port = pos 4000;
    reconnect_begin_tm = pos 0;
    has_publishers = true;
    has_streams = true;
    has_roles = true;
  };
  cur_loop_index = none;
}

-- "u/a b"
abbrev key : Key
key = 117 ∷ 47 ∷ 97 ∷ 32 ∷ 98 ∷ []

key_fits : stream_key 1024 (117 ∷ []) name ≡ some key
unfolding stream_key fits
key_fits = refl

linked : Puller.check_relay_param (puller.manager) ≡ sls_ok
unfolding Puller.check_relay_param
linked = refl

unpublished : get_publisher hub.publishers key ≡ none
unfolding get_publisher find
unpublished = refl

room : is_ok (MapData.add hub.streams key (pos 0) (pos 0) 1 6000).0 ≡ true
unfolding MapData.add MapData.add_sized MapData.streams_full MapData.bytes_full find is_some
room = refl

free : IsFree key (pos 6000) hub
free = record { unpublished = unpublished; room = room }

abbrev opens : ℕ → List ℕ → ℤ
opens role url = if host_is_y url then sls_ok else sls_error

reconnect-reaches_example :
    (p' : Puller) × (hub' : Hub) × (reconnect opens (pos 6000) info puller hub
      ≡ some (sls_ok, p', hub'))
reconnect-reaches_example =
    reconnect-reaches opens (pos 6000) info puller hub key 1 key_fits linked refl refl free
      (record {}) urls_fit (omega arith)
      (λ role url e. ap (λ b. is_ok (if b then sls_ok else sls_error)) (y_url e))

register-whole_example :
    let (ret, hub') = register key (pos 6000) 1 hub in
    if is_ok ret
    then (get_publisher hub'.publishers key ≡ some 1)
      × (MapData.is_exist hub'.streams key ≡ true)
      × (hub'.roles
          ≡ hub.roles ++ (record { id = 1; name = some puller_name; start_time = pos 6000 } ∷ []))
    else (get_publisher hub'.publishers name ≡ get_publisher hub.publishers name)
      × (hub'.streams ≡ hub.streams)
      × (hub'.roles ≡ hub.roles)
register-whole_example = register-whole key name (pos 6000) 1 hub (record {}) refl

-- One URL that is not due, one that answers and one that does not.
abbrev queue : Keyed ℕ
queue = ((120 ∷ []), 5000) ∷ ((121 ∷ []), 0) ∷ ((122 ∷ []), 0) ∷ []

abbrev is_y : List ℕ → Bool
is_y url = get_or url 0 0 == 121

abbrev connect_y : Option Addr → List ℕ → Hub → ℤ × Hub
connect_y vetted url hub = (if is_y url then sls_ok else sls_error, hub)

connect_y-is_ok : (b : Bool) → is_ok (if b then sls_ok else sls_error) ≡ b
connect_y-is_ok true = refl
connect_y-is_ok false = refl

reconnect_all-remaining_example :
    let (ret, queue', hub') =
      reconnect_all connect_y (pos 6000) (pos 5) false (entries queue) hub in
    (queue' ≡ entries (remaining 6000 5 false is_y queue)) × (false ≡ true → hub' ≡ hub)
reconnect_all-remaining_example =
    reconnect_all-remaining connect_y 6000 5 false is_y queue hub
      (λ url hub. connect_y-is_ok (is_y url))
