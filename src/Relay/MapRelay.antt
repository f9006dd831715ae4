-- ===== src/Relay/MapRelay.antt =====
-- src/core/SLSMapRelay.hpp and .cpp: the relay configurations of the applications, and the manager of each
-- stream that has been relayed.
use irl_srt_server.Prelude.{
  ℕ, ◌+◌, Option, none, some, List, [], ◌∷◌, ◌++◌, if◌then◌else◌, take, ◌==◌,
}
use irl_srt_server.Prelude.Int.{ℤ, sls_ok, sls_error}
use irl_srt_server.Prelude.Keyed.{Key, Keyed, find, is_some, same_key}
use irl_srt_server.Prelude.Ordered.{place}
use irl_srt_server.Conf.{string_split}
use irl_srt_server.Relay.Manager
use irl_srt_server.Relay.Manager.{
  Mode, pm_loop, pm_hash, pm_all, RelayInfo, Manager, set_relay_conf,
}

-- `sls_conf_relay_t`
pub record RelayConf : Type 0 where
  pub type_name : List ℕ
  pub mode_name : List ℕ
  pub upstreams : List ℕ
  pub reconnect_interval : ℤ
  pub idle_streams_timeout : ℤ

pub data Kind : Type 0 where
  puller_kind : Kind
  pusher_kind : Kind

-- A manager as it is made: its address, its class and its fields. What its holders set in it later is no
-- part of the map.
pub record Made : Type 0 where
  pub address : ℕ
  pub kind : Kind
  pub manager : Manager

-- `CSLSMapRelay`, and the address of the next manager. Neither map ever holds a NULL.
pub record MapRelay : Type 0 where
  pub relay_managers : Keyed Made
  pub relay_infos : Keyed RelayInfo
  pub next_manager : ℕ

-- "pull", "push", "loop", "all" and "hash"
abbrev pull_word : List ℕ
pull_word = 112 ∷ 117 ∷ 108 ∷ 108 ∷ []

abbrev push_word : List ℕ
push_word = 112 ∷ 117 ∷ 115 ∷ 104 ∷ []

abbrev loop_word : List ℕ
loop_word = 108 ∷ 111 ∷ 111 ∷ 112 ∷ []

abbrev all_word : List ℕ
all_word = 97 ∷ 108 ∷ 108 ∷ []

abbrev hash_word : List ℕ
hash_word = 104 ∷ 97 ∷ 115 ∷ 104 ∷ []

-- A mode that is none of the three is taken for a hash.
unfoldable pub mode_of : List ℕ → Mode
mode_of mode =
    if same_key mode loop_word
    then pm_loop
    else if same_key mode all_word
    then pm_all
    else if same_key mode hash_word
    then pm_hash
    else pm_hash

unfoldable pub get_relay_conf : MapRelay → Key → Option RelayInfo
get_relay_conf m app_uplive = find app_uplive m.relay_infos

abbrev info_of : RelayConf → List (List ℕ) → RelayInfo
info_of cr upstreams = record {
  upstreams = upstreams;
  vetted_addrs = [];
  type_name = take 31 cr.type_name;
  mode = mode_of cr.mode_name;
  reconnect_interval = cr.reconnect_interval;
  idle_streams_timeout = cr.idle_streams_timeout;
}

abbrev pub store_conf : MapRelay → Key → RelayConf → List (List ℕ) → ℤ × MapRelay
store_conf m app_uplive cr [] = (sls_error, m)
store_conf m app_uplive cr (u ∷ us) =
    (sls_ok, record m { relay_infos = place app_uplive (info_of cr (u ∷ us)) m.relay_infos })

unfoldable pub add_relay_conf : MapRelay → Key → Option RelayConf → ℤ × MapRelay
add_relay_conf m app_uplive none = (sls_error, m)
add_relay_conf m app_uplive (some cr) =
    if is_some (get_relay_conf m app_uplive)
    then (sls_error, m)
    else store_conf m app_uplive cr (string_split (λ c. c == 32) cr.upstreams)

abbrev pub kind_of : List ℕ → Option Kind
kind_of type_name =
    if same_key type_name pull_word
    then some puller_kind
    else if same_key type_name push_word
    then some pusher_kind
    else none

abbrev pub stream_of : Key → Key → Key
stream_of app_uplive stream_name = app_uplive ++ 47 ∷ stream_name

-- `set_relay_info` of the manager, whose fields hold 1023 bytes each.
unfoldable pub set_relay_info : Manager → List ℕ → List ℕ → Manager
set_relay_info m app_uplive stream_name = record m {
  app_uplive = take 1023 app_uplive;
  stream_name = take 1023 stream_name;
}

abbrev manager_for : RelayInfo → Key → Key → Manager
manager_for sri app_uplive stream_name =
    set_relay_info (set_relay_conf Manager.create (some sri)) app_uplive stream_name

abbrev pub make_manager : MapRelay → Key → Key → RelayInfo → Option Kind → Option Made × MapRelay
make_manager m app_uplive stream_name sri none = (none, m)
make_manager m app_uplive stream_name sri (some kind) =
    let made : Made = record {
      address = m.next_manager;
      kind = kind;
      manager = manager_for sri app_uplive stream_name;
    } in
    (
      some made,
      record m {
        relay_managers = place (stream_of app_uplive stream_name) made m.relay_managers;
        next_manager = m.next_manager + 1;
      },
    )

abbrev pub find_or_make : MapRelay → Key → Key → RelayInfo → Option Made → Option Made × MapRelay
find_or_make m app_uplive stream_name sri (some cur) = (some cur, m)
find_or_make m app_uplive stream_name sri none =
    make_manager m app_uplive stream_name sri (kind_of sri.type_name)

abbrev pub add_with : MapRelay → Key → Key → Option RelayInfo → Option Made × MapRelay
add_with m app_uplive stream_name none = (none, m)
add_with m app_uplive stream_name (some sri) =
    find_or_make m app_uplive stream_name sri
      (find (stream_of app_uplive stream_name) m.relay_managers)

unfoldable pub add_relay_manager : MapRelay → Key → Key → Option Made × MapRelay
add_relay_manager m app_uplive stream_name =
    add_with m app_uplive stream_name (get_relay_conf m app_uplive)

unfoldable pub clear : MapRelay → MapRelay
clear m = record m { relay_managers = []; relay_infos = [] }
