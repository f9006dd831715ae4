-- ===== src/Role.antt =====
-- src/core/SLSRole.hpp and .cpp: the object of one connection, the publisher's or the viewer's. Here
-- are its state, its socket's end and the test that a worker makes in each round; Role/Webhook has the
-- webhook that authorizes it, Role/Reading a publisher's reads, Role/Writing a viewer's writes.
-- Every clock reading is an argument, and so is what a library answers. What the object asks of
-- the SRT library on its socket, and of the HTTP client, is kept in `calls`, newest first.
pub mod Webhook
pub mod Reading
pub mod Writing
pub mod Frame
pub mod Session
pub mod Packets
pub mod Fetching
pub mod Delivery
pub mod Waiting
pub mod Gate
pub mod Teardown
pub mod Socket
use Prim.Native.String.{String}
use Prim.Native.Char.{code}
use irl_srt_server.Prelude.{
  ℕ, ◌+◌, Bool, true, false, ◌&&◌, ◌||◌, not, Option, none, some, List, [], ◌∷◌, ◌++◌, ltb, leb,
  length, ◌==◌, if◌then◌else◌,
}
use irl_srt_server.Prelude.Int.{ℤ, pos, sls_ok, sls_error, sub_ℕ, ltb_ℤ, leb_ℤ}
use irl_srt_server.Prelude.Keyed.{Key}
use irl_srt_server.Ring.{ReadId}
use irl_srt_server.BitrateLimit.{Limiter}
use irl_srt_server.Idle.{should_reap_role}
use irl_srt_server.PushUrl.{AppConf}
use irl_srt_server.PushUrl.Address.{Addr}
use irl_srt_server.Relay.Url.{url_encode, fits}
use irl_srt_server.Registry.Sessions.{decimal}

-- The bytes of a text of the source.
abbrev pub codes : String → List ℕ
codes String.[] = []
codes (String.◌∷◌ c s) = code c ∷ codes s

-- `SLS_ROLE_STATE`
pub data State : Type 0 where
  uninit inited invalid : State

-- A call of the SRT library on a socket, or of the HTTP client with a URL.
pub data Call : Type 0 where
  reads : ℕ → Call
  sends : ℕ → List ℕ → Call
  subscribes : ℕ → Call
  arms : ℕ → Bool → Call
  unsubscribes : ℕ → Call
  closes : ℕ → Call
  asks_state : ℕ → Call
  asks_peer : ℕ → Call
  asks_sid : ℕ → Call
  asks_stats : ℕ → Call
  posts : List ℕ → Call

-- What the role reads of `sls_conf_app_t`.
pub record Conf : Type 0 where
  pub max_input_bitrate_kbps : ℤ
  pub push_destination_max : ℤ
  pub push : AppConf

-- The members for the webhook. Of `m_http_future` it matters whether it is set.
pub record Auth : Type 0 where
  pub http_url : List ℕ
  pub http_passed : Bool
  pub http_future : Bool
  pub http_auth_deadline_ms : ℕ
  pub peer_ip : List ℕ
  pub peer_port : ℕ
  pub streamid : List ℕ
  pub push_urls : List (List ℕ)
  pub push_vetted_addrs : List Addr

-- The members for the bitrate that is reported.
pub record Bitrate : Type 0 where
  pub interval : ℤ
  pub last_tm : ℕ
  pub datacount : ℕ
  pub kbitrate : ℤ

-- The members for the way to a viewer. `staged` is `m_data` up to `m_data_len`.
pub record Egress : Type 0 where
  pub staged : List ℕ
  pub data_pos : ℕ
  pub map_data_id : ReadId
  pub backpressure_count : ℕ
  pub stuck_since_ms : ℕ
  pub epoll_out_armed : Bool

-- `CSLSRole`. A socket is its id in the library; of the pointer to the stream map it matters whether it
-- is set.
pub record Role : Type 0 where
  pub srt : Option ℕ
  pub state : State
  pub kick_requested : Bool
  pub is_write : Bool
  pub role_name : List ℕ
  pub invalid_begin_tm : ℕ
  pub last_recv_data_tm : ℕ
  pub idle_streams_timeout : ℤ
  pub first_data_timeout_ms : ℤ
  pub latency : ℤ
  pub conf : Option Conf
  pub has_map_data : Bool
  pub map_data_key : Key
  pub ring_added : Bool
  pub bitrate_limiter : Option Limiter
  pub snapshot_closed : Bool
  pub auth : Auth
  pub bitrate : Bitrate
  pub egress : Egress
  pub calls : List Call

-- What the libraries answer about a socket and about a request.
pub record World : Type 0 where
  pub peer_of : ℕ → Option (List ℕ × ℕ)
  pub sid_of : ℕ → List ℕ
  pub dispatches : List ℕ → Bool

abbrev pub is_empty : List ℕ → Bool
is_empty [] = true
is_empty (c ∷ s) = false

unfoldable pub init : Role → Role
init r = record r {
  state = inited;
  egress = record r.egress {
    map_data_id = record r.egress.map_data_id { first = true; data_count = 0; read_pos = 0 };
  };
}

unfoldable pub set_srt : Role → ℕ → ℤ × Role
set_srt r s = set_where r r.srt
  where
    set_where : Role → Option ℕ → ℤ × Role
    set_where r none = (sls_ok, record r { srt = some s })
    set_where r (some old) = (sls_error, r)

-- `get_peer_info`, as `on_connect` and `on_close` use it where there is no address yet.
abbrev pub told : Option (List ℕ × ℕ) → Auth → Auth
told none a = a
told (some (ip, port)) a = record a { peer_ip = ip; peer_port = port }

abbrev pub ask_peer : World → Option ℕ → Auth → Auth
ask_peer w none a = a
ask_peer w (some s) a = if is_empty a.peer_ip then told (w.peer_of s) a else a

abbrev pub read_sid : World → Option ℕ → Auth → Auth
read_sid w none a = a
read_sid w (some s) a = if is_empty a.streamid then record a { streamid = w.sid_of s } else a

-- The URL of an event: the role's name, its stream id and its peer. 19 digits hold a port.
unfoldable pub event_url : List ℕ → List ℕ → Auth → List ℕ
event_url event role_name a =
    a.http_url
    ++ (codes "?on_event="
        ++ (event
            ++ (codes "&role_name="
                ++ (url_encode role_name
                    ++ (codes "&srt_url="
                        ++ (url_encode a.streamid
                            ++ (codes "&remote_ip="
                                ++ (a.peer_ip
                                    ++ (codes "&remote_port=" ++ decimal 19 a.peer_port)))))))))

-- What `get_peer_info` and `get_streamid` ask of the library, where they are not known yet.
abbrev pub peer_calls : Option ℕ → Auth → List Call → List Call
peer_calls none a calls = calls
peer_calls (some s) a calls = if is_empty a.peer_ip then asks_peer s ∷ calls else calls

abbrev pub sid_calls : Option ℕ → Auth → List Call → List Call
sid_calls none a calls = calls
sid_calls (some s) a calls = if is_empty a.streamid then asks_sid s ∷ calls else calls

abbrev pub inquired : Role → List Call
inquired r = sid_calls r.srt r.auth (peer_calls r.srt r.auth r.calls)

-- What `on_connect` and `on_close` know of the peer and the stream.
abbrev pub informed : World → Role → Auth
informed w r = read_sid w r.srt (ask_peer w r.srt r.auth)

abbrev pub closing : Role → Auth → Option (List ℕ) → Role
closing r a none = record r { auth = a }
closing r a (some url) = record r {
  auth = record a { http_future = true };
  calls = posts url ∷ r.calls;
}

-- `on_close`, which reports the end of a role that was let in. Its result is used by no caller.
unfoldable pub on_close : World → Role → Role
on_close w r =
    if not r.auth.http_passed || is_empty r.auth.http_url
    then r
    else closing (record r { calls = inquired r }) (informed w r)
        (fits 2048 (event_url (codes "on_close") r.role_name (informed w r)))

-- The end of a socket. The tripwire of the debug build is left out.
abbrev pub invalid_from : World → Role → Option ℕ → Role
invalid_from w r none = r
invalid_from w r (some s) =
    on_close w
      (record r { srt = none; snapshot_closed = true; calls = closes s ∷ unsubscribes s ∷ r.calls })

unfoldable pub invalid_srt : World → Role → Role
invalid_srt w r = invalid_from w r r.srt

unfoldable pub mark_invalid : World → Role → Role
mark_invalid w r = invalid_srt w (record r { state = invalid })

abbrev pub is_uninit : State → Bool
is_uninit uninit = true
is_uninit _ = false

-- `CSLSRole::uninit`
unfoldable pub uninit_role : World → Role → Role
uninit_role w r =
    let quiet : Role = record r {
      auth = record r.auth { http_future = false; http_auth_deadline_ms = 0 };
    } in
    if is_uninit r.state then quiet else invalid_srt w (record quiet { state = uninit })

unfoldable pub request_kick : Role → Role
request_kick r = record r { kick_requested = true }

-- `check_idle_streams_duration`
unfoldable pub is_idle : Role → ℕ → Bool
is_idle r now =
    should_reap_role now r.last_recv_data_tm r.invalid_begin_tm r.first_data_timeout_ms
      r.idle_streams_timeout (not r.auth.http_passed)

-- SRTS_BROKEN, SRTS_CLOSED and SRTS_NONEXIST, and SLS_ERROR where there is no socket.
pub data SockState : Type 0 where
  alive broken closed nonexist : SockState

abbrev pub is_gone : Option ℕ → SockState → Bool
is_gone none st = true
is_gone (some s) alive = false
is_gone (some s) _ = true

abbrev pub is_invalid : State → Bool
is_invalid invalid = true
is_invalid _ = false

-- `get_sock_state`
abbrev pub state_calls : Option ℕ → List Call → List Call
state_calls none calls = calls
state_calls (some s) calls = asks_state s ∷ calls

abbrev pub polled : World → Role → SockState → Role
polled w r st = if is_gone r.srt st then mark_invalid w r else r

-- `get_state`, with the time and what the library says of the socket.
unfoldable pub get_state : World → Role → ℕ → SockState → Role
get_state w r now st =
    if is_invalid r.state
    then r
    else if r.kick_requested || is_idle r now
    then mark_invalid w r
    else polled w (record r { calls = state_calls r.srt r.calls }) st

-- `get_statistics`; what the library answers goes to the caller.
abbrev pub stats_calls : Option ℕ → List Call → List Call
stats_calls none calls = calls
stats_calls (some s) calls = asks_stats s ∷ calls

unfoldable pub get_statistics : Role → Role
get_statistics r = record r { calls = stats_calls r.srt r.calls }

unfoldable pub close : Role → Role
close r = close_from r r.srt
  where
    close_from : Role → Option ℕ → Role
    close_from r none = r
    close_from r (some s) = record r { srt = none; calls = closes s ∷ unsubscribes s ∷ r.calls }

unfoldable pub add_to_epoll : Role → Role
add_to_epoll r = add_from r r.srt
  where
    add_from : Role → Option ℕ → Role
    add_from r none = r
    add_from r (some s) = record r { calls = subscribes s ∷ r.calls }

-- `set_epoll_out`; `obeys` is whether the library does as it is told.
abbrev pub set_epoll_out : Bool → Bool → Role → Option ℕ → Role
set_epoll_out obeys enable r none = r
set_epoll_out obeys enable r (some s) =
    if (if enable then r.egress.epoll_out_armed else not r.egress.epoll_out_armed)
    then r
    else record r {
      egress = record r.egress {
        epoll_out_armed = (if obeys then enable else r.egress.epoll_out_armed);
      };
      calls = arms s enable ∷ r.calls;
    }

unfoldable pub update_egress_arming : Bool → Role → Role
update_egress_arming obeys r =
    if r.is_write
    then set_epoll_out obeys (ltb r.egress.data_pos (length r.egress.staged)) r r.srt
    else r

unfoldable pub set_first_data_timeout : Role → ℤ → ℕ → Role
set_first_data_timeout r timeout_ms now =
    if ltb_ℤ (pos 0) timeout_ms && r.auth.http_passed
    then record r { first_data_timeout_ms = timeout_ms; invalid_begin_tm = now }
    else record r { first_data_timeout_ms = timeout_ms }

unfoldable pub has_recent_recv_data : Role → ℕ → ℤ → Bool
has_recent_recv_data r now within =
    if r.last_recv_data_tm == 0 then false else leb_ℤ (sub_ℕ now r.last_recv_data_tm) within
