-- ===== src/Tests/MapRelayTests.antt =====
-- The map of the relay managers of src/core/SLSMapRelay.cpp, with one application that is pulled.
use irl_srt_server.Prelude.{ℕ, ◌≡◌, refl, false, Option, some, List, [], ◌∷◌}
use irl_srt_server.Prelude.Int.{pos, sls_error}
use irl_srt_server.Prelude.Keyed.{find, is_some, same_key}
use irl_srt_server.Prelude.Ordered.{place}
use irl_srt_server.Conf.{string_split, split_words}
use irl_srt_server.Relay.Manager.{create, set_relay_conf, pm_hash}
use irl_srt_server.Relay.MapRelay.{
  RelayConf, MapRelay, Made, add_relay_conf, add_relay_manager, get_relay_conf, puller_kind,
  mode_of, set_relay_info,
}
use irl_srt_server.Relay.Lasting.{Call, steps, adds_conf, adds_manager, add_relay_manager-steps}

-- Type "pull", mode "ring", upstreams "x y"
abbrev conf : RelayConf
conf = record {
  type_name = 112 ∷ 117 ∷ 108 ∷ 108 ∷ [];
  mode_name = 114 ∷ 105 ∷ 110 ∷ 103 ∷ [];
  upstreams = 120 ∷ 32 ∷ 121 ∷ [];
  reconnect_interval = pos 10;
  idle_streams_timeout = pos 0;
}

abbrev fresh : MapRelay
fresh = record { relay_managers = []; relay_infos = []; next_manager = 0 }

abbrev app : List ℕ
app = 97 ∷ []

abbrev configured : MapRelay
configured = (add_relay_conf fresh app (some conf)).1

adds_once : (add_relay_conf configured app (some conf)).0 ≡ sls_error
unfolding add_relay_conf get_relay_conf string_split split_words place find is_some same_key
adds_once = refl

abbrev with_manager : Option Made × MapRelay
with_manager = add_relay_manager configured app (122 ∷ [])

-- The manager is one of upstreams "x" and "y" in the hash mode.
abbrev made : Made
made = record {
  address = 0;
  kind = puller_kind;
  manager = record {
    app_uplive = app;
    stream_name = 122 ∷ [];
    sri = some (record {
      upstreams = (120 ∷ []) ∷ (121 ∷ []) ∷ [];
      vetted_addrs = [];
      type_name = conf.type_name;
      mode = pm_hash;
      reconnect_interval = pos 10;
      idle_streams_timeout = pos 0;
    });
    listen_port = pos 0;
    reconnect_begin_tm = pos 0;
    has_publishers = false;
    has_streams = false;
    has_roles = false;
  };
}

makes : with_manager ≡ (some made, with_manager.1)
unfolding add_relay_conf add_relay_manager get_relay_conf string_split split_words place find
    is_some same_key mode_of create set_relay_conf set_relay_info
makes = refl

abbrev between : List Call
between = adds_conf (98 ∷ []) (some conf) ∷ adds_manager app (121 ∷ []) ∷ []

add_relay_manager-steps_example :
    add_relay_manager (steps with_manager.1 between) app (122 ∷ [])
    ≡ (some made, steps with_manager.1 between)
add_relay_manager-steps_example =
    add_relay_manager-steps configured with_manager.1 app (122 ∷ []) made between makes
