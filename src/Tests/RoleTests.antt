-- ===== src/Tests/RoleTests.antt =====
-- A role of src/core/SLSRole.cpp: a viewer with two packets staged, a publisher with a webhook.
use irl_srt_server.Prelude.{
  ℕ, ◌*◌, ◌==◌, if◌then◌else◌, ◌≡◌, refl, true, false, none, some, List, [], ◌∷◌, arith, replicate,
  length-replicate,
}
use irl_srt_server.Prelude.Int.{pos, sls_ok}
use irl_srt_server.Prelude.Keyed.{find, same_key}
use irl_srt_server.Ring.{Ring, ReadId, create_sized, anchor}
use irl_srt_server.Ring.Inv.{create_sized-Holds, anchor-IsAt}
use irl_srt_server.MapData.{MapData}
use irl_srt_server.Relay.Url.{fits, url_encode}
use irl_srt_server.Registry.Sessions.{decimal}
use irl_srt_server.Role
use irl_srt_server.Role.{Role, World, Egress, reads, alive, broken}
use irl_srt_server.Role.Webhook.{Vetter, Response, no_targets, on_connect}
use irl_srt_server.Role.Writing.{Answer, whole, busy, handler_write_data}
use irl_srt_server.Role.Reading.{datagram}
use irl_srt_server.Role.Session.{
  Session, Turn, handles, ticks, polls, kicks, measures, turn, turns, Visit, serves, sampled, looks,
  visits,
}
use irl_srt_server.Role.Packets.{Serves, IsStaged, pending}
use irl_srt_server.Role.Delivery.{IsDelivered, handler_write_data-IsDelivered}
use irl_srt_server.Role.Gate.{turns-closed, on_connect-expires}
use irl_srt_server.Role.Teardown.{IsTidy, on_connect-IsTidy}
use irl_srt_server.Role.Socket.{uninit_role-turns-IsTidy}

abbrev key : List ℕ
key = 108 ∷ []

abbrev ring : Ring
unfolding create_sized
ring = (create_sized 8 1 1000).0

abbrev streams : MapData
streams = record {
  rings = (key, ring) ∷ [];
  cc_states = [];
  tc_states = [];
  stream_count = 1;
  total_ring_bytes = 8;
  max_streams = pos 0;
  max_total_ring_bytes = pos 0;
}

abbrev id : ReadId
unfolding anchor
id = anchor ring (record { read_pos = 0; data_count = 0; first = true; generation = 0 })

-- One packet is sent, two are not.
abbrev viewer : Role
viewer = record {
  srt = some 7;
  state = Role.inited;
  kick_requested = false;
  is_write = true;
  role_name = 112 ∷ [];
  invalid_begin_tm = 5;
  last_recv_data_tm = 0;
  idle_streams_timeout = pos 10;
  first_data_timeout_ms = pos 0;
  latency = pos 200;
  conf = none;
  has_map_data = true;
  map_data_key = key;
  ring_added = false;
  bitrate_limiter = none;
  snapshot_closed = false;
  auth = record {
    http_url = [];
    http_passed = true;
    http_future = false;
    http_auth_deadline_ms = 0;
    peer_ip = [];
    peer_port = 0;
    streamid = [];
    push_urls = [];
    push_vetted_addrs = [];
  };
  bitrate = record { interval = pos 1000; last_tm = 0; datacount = 0; kbitrate = pos 0 };
  egress = record {
    staged = replicate (3 * 1316) 71;
    data_pos = 1316;
    map_data_id = id;
    backpressure_count = 0;
    stuck_since_ms = 0;
    epoll_out_armed = false;
  };
  calls = [];
}

abbrev world : World
world = record {
  peer_of = λ s. some (49 ∷ [], 9000);
  sid_of = λ s. 115 ∷ [];
  dispatches = λ url. true;
}

abbrev vetter : Vetter
vetter = record {
  net = record {
    parse_url = λ url. none;
    getaddrinfo = λ literal host service. (1, []);
    answers_within = λ host ms. true;
    addr_to_string = λ a. [];
  };
  timeout_ms = 5000;
  self_addrs = [];
  parse = λ body. no_targets;
}

viewer-IsStaged : IsStaged viewer.egress
viewer-IsStaged = (2, length-replicate {A = ℕ} (3 * 1316) 71)

viewer-Serves : Serves 8 key (record { log = []; cursor = 0 }) streams id
unfolding find same_key create_sized anchor
viewer-Serves = record {
  ring = ring;
  found = refl;
  sized = refl;
  models = record {
    holds = create_sized-Holds 8 1 1000 (omega arith);
    at =
        anchor-IsAt (record { read_pos = 0; data_count = 0; first = true; generation = 0 })
          (create_sized-Holds 8 1 1000 (omega arith));
  };
}

-- The socket takes one packet and is busy behind it.
abbrev answers : ℕ → Answer
answers n = if n == 0 then whole else busy 6

handler_write_data-IsDelivered_example :
    IsDelivered 8
      (record { log = []; cursor = 0 })
      (pending viewer.egress)
      (handler_write_data world vetter 6 6 none answers (λ n. 6) viewer streams)
handler_write_data-IsDelivered_example =
    handler_write_data-IsDelivered 8 (record { log = []; cursor = 0 }) world vetter 6 6 none answers
      (λ n. 6) viewer streams viewer-IsStaged viewer-Serves

-- A publisher with a webhook.
abbrev publisher : Role
publisher = record viewer {
  is_write = false;
  auth = record viewer.auth { http_url = 104 ∷ []; http_passed = false };
}

abbrev asked : Role
asked = (on_connect world 100 publisher).1

abbrev refusal : Response
refusal = record { success = true; status_code = pos 403; body = [] }

abbrev session : Session
session = record {
  role = asked;
  cache = some (record { blocked = []; ttl = 30000; last_sweep = 0 });
  map = streams;
  next = 2;
}

abbrev calls : List Turn
calls =
    handles 110 110 110 none (datagram (replicate 188 71))
    ∷ ticks 120 120 none
    ∷ polls 130 alive
    ∷ handles 140 140 140 (some refusal) (datagram (replicate 188 71))
    ∷ measures
    ∷ kicks
    ∷ []

asked-denied : asked.auth.http_passed ≡ false
unfolding on_connect fits Role.event_url url_encode decimal
asked-denied = refl

turns-closed_example :
    ((turns world vetter true session calls).role.auth.http_passed ≡ false)
    × ((turns world vetter true session calls).map ≡ streams)
turns-closed_example =
    turns-closed world vetter true session calls asked-denied (tt, (tt, (refl, tt)))

connected : on_connect world 100 publisher ≡ (sls_ok, asked)
unfolding on_connect fits Role.event_url url_encode decimal
connected = refl

on_connect-expires_example :
    (turn world vetter true (turns world vetter true session calls) (ticks 4100 4100 none)).role.srt
    ≡ none
on_connect-expires_example =
    on_connect-expires world vetter true session publisher asked calls 100 4100 4100 none refl refl
      connected refl (tt, (tt, (refl, tt))) tt (omega arith)

tidy : IsTidy viewer
tidy = record { clean = tt; socket = refl }

asked-IsTidy : IsTidy asked
asked-IsTidy = on_connect-IsTidy world 100 publisher (record { clean = tt; socket = refl })

abbrev writes : List Visit
writes = serves 6 6 none answers (λ n. 6) true ∷ sampled ∷ looks 20000 broken ∷ []

uninit_role-turns-IsTidy_example :
    IsTidy (Role.uninit_role world (turns world vetter true session calls).role)
    × IsTidy (
        Role.uninit_role world
          (visits world vetter (record { role = viewer; map = streams }) writes).role)
uninit_role-turns-IsTidy_example =
    uninit_role-turns-IsTidy world vetter true session calls
      (record { role = viewer; map = streams }) writes asked-IsTidy tidy
