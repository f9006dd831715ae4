-- ===== src/Relay/Pusher.antt =====
-- src/core/SLSPusherManager.hpp and .cpp: a stream is pushed to all upstreams, or to one of them, and
-- the URLs that failed are tried again. The clock is an argument.
use irl_srt_server.Prelude.{
  ℕ, ◌-◌, ◌*◌, ◌^◌, ◌%◌, Bool, ◌&&◌, not, Option, none, some, List, [], ◌∷◌, ◌++◌, if◌then◌else◌,
  length,
}
use irl_srt_server.Prelude.Int.{
  ℤ, pos, negsuc, ◌-ℤ◌, ltb_ℤ, sls_ok, sls_error, neg_part, pos_part, sub_ℕ, i32,
}
use irl_srt_server.Prelude.Bytes.{lor}
use irl_srt_server.Prelude.Keyed.{Key, Keyed, is_some}
use irl_srt_server.Prelude.Ordered.{place}
use irl_srt_server.PushUrl.Address.{Addr}
use irl_srt_server.PushUrl.Template.{substitute_stream_name, starts_with}
use irl_srt_server.Registry.Publishers.{get_publisher}
use irl_srt_server.Registry.Roles.{push}
use irl_srt_server.Relay.Url.{stream_key, url_max_len, url_encode, fits, srt_prefix}
use irl_srt_server.Relay.Loop.{is_ok}
use irl_srt_server.Relay.Manager.{
  pm_loop, pm_hash, pm_all, RelayInfo, Hub, Manager, connect, connect_hash,
}

-- `CSLSPusherManager`
pub record Pusher : Type 0 where
  pub manager : Manager
  pub reconnect_relay : Keyed ℤ

-- "pusher"
abbrev pub pusher_name : List ℕ
pusher_name = 112 ∷ 117 ∷ 115 ∷ 104 ∷ 101 ∷ 114 ∷ []

-- `a | b` of two `int`s.
abbrev bits32 : ℤ → ℕ
bits32 (pos n) = n % 2 ^ 32
bits32 (negsuc n) = (2 ^ 32 - 1) - n % 2 ^ 32

unfoldable pub or_int : ℤ → ℤ → ℤ
or_int a b = i32 (lor 32 (bits32 a) (bits32 b))

-- The URL of an upstream: with the encoded name in its place, and the scheme if it has none.
unfoldable pub push_url : List ℕ → List ℕ → Option (List ℕ)
push_url upstream stream_name =
    let url = substitute_stream_name upstream (url_encode stream_name) in
    fits 1024 (if starts_with srt_prefix upstream then url else srt_prefix ++ url)

unfoldable pub check_relay_param : Manager → ℤ
check_relay_param m =
    if not m.has_roles then sls_error else if not m.has_streams then sls_error else sls_ok

-- The children whose relays are not freed.
unfoldable pub keep_children : (ℕ → Bool) → List ℕ → List ℕ
keep_children expired [] = []
keep_children expired (r ∷ rs) =
    let rest = keep_children expired rs in if expired r then rest else r ∷ rest

-- What the relay itself stores is left out.
unfoldable pub set_relay_param : (ℕ → Bool) → Manager → ℤ → ℕ → Hub → ℤ × Hub
set_relay_param expired m now role hub =
    if not (is_some (stream_key 1024 m.app_uplive m.stream_name)) then (sls_error, hub) else (
      sls_ok,
      record hub {
        child_relays = keep_children expired hub.child_relays ++ (role ∷ []);
        roles =
            push hub.roles (some (record { id = role; name = some pusher_name; start_time = now }));
      },
    )

-- The relays that are kicked, in order; the manager forgets them all.
unfoldable pub detach_child_relays : (ℕ → Bool) → Hub → List ℕ × Hub
detach_child_relays expired hub =
    (keep_children expired hub.child_relays, record hub { child_relays = [] })

abbrev first_addr : List Addr → Option Addr
first_addr [] = none
first_addr (a ∷ addrs) = some a

abbrev later_addrs : List Addr → List Addr
later_addrs [] = []
later_addrs (a ∷ addrs) = addrs

-- `connect`, with the address that `open` goes to in place of the host of the URL, if there is one.
module _ (connect_to : Option Addr → List ℕ → Hub → ℤ × Hub) (now : ℤ) where
  -- One upstream: a URL that is too long is dropped, one that fails is queued.
  abbrev pub push_one : Option Addr → Option (List ℕ) → Keyed ℤ → Hub → ℤ × Keyed ℤ × Hub
  push_one vetted none queue hub = (sls_error, queue, hub)
  push_one vetted (some url) queue hub =
      let (ret, hub') = connect_to vetted url hub in
      (ret, if is_ok ret then queue else place url now queue, hub')

  -- The upstreams, and beside each the address that was vetted for it, as far as there are any.
  unfoldable pub connect_all :
      List (List ℕ) → List Addr → List ℕ → ℤ → Keyed ℤ → Hub → ℤ × Keyed ℤ × Hub
  connect_all [] vetted stream_name all_ret queue hub = (all_ret, queue, hub)
  connect_all (u ∷ upstreams) vetted stream_name all_ret queue hub =
      let (ret, queue', hub') = push_one (first_addr vetted) (push_url u stream_name) queue hub in
      connect_all upstreams (later_addrs vetted) stream_name (or_int all_ret ret) queue' hub'

  -- Not before the interval is over, in seconds.
  abbrev times_1000 : ℤ → ℤ
  times_1000 n = sub_ℕ (pos_part n * 1000) (neg_part n * 1000)

  unfoldable pub is_early : ℤ → ℤ → Bool
  is_early interval begin_tm = ltb_ℤ (now -ℤ begin_tm) (times_1000 interval)

  -- The loop over the queue, in its order. `ret` goes from one round to the next: a round without an
  -- attempt adds the result of the last one.
  unfoldable pub reconnect_from : ℤ → Bool → ℤ → ℤ → Keyed ℤ → Hub → ℤ × Keyed ℤ × Hub
  reconnect_from interval no_publisher ret all_ret [] hub = (all_ret, [], hub)
  reconnect_from interval no_publisher ret all_ret ((url, begin_tm) ∷ queue) hub =
      let (tried, hub') = connect_to none url hub in
      let waited = reconnect_from interval no_publisher ret (or_int all_ret ret) queue hub in
      let behind = reconnect_from interval no_publisher tried (or_int all_ret tried) queue hub' in
      if is_early interval begin_tm
      then (waited.0, (url, begin_tm) ∷ waited.1, waited.2)
      else if no_publisher
      then (waited.0, (url, now) ∷ waited.1, waited.2)
      else if is_ok tried
      then behind
      else (behind.0, (url, now) ∷ behind.1, behind.2)

  unfoldable pub reconnect_all : ℤ → Bool → Keyed ℤ → Hub → ℤ × Keyed ℤ × Hub
  reconnect_all interval no_publisher queue hub =
      reconnect_from interval no_publisher sls_error sls_ok queue hub

  -- A stream without a publisher is not pushed.
  abbrev pub no_publisher_of : Manager → Hub → Key → Bool
  no_publisher_of m hub key = m.has_publishers && not (is_some (get_publisher hub.publishers key))

  abbrev with_queue : Pusher → ℤ × Keyed ℤ × Hub → ℤ × Pusher × Hub
  with_queue p (ret, queue, hub) = (ret, record p { reconnect_relay = queue }, hub)

  -- The loop mode is not one of a pusher; its result is what `snprintf` returned, the key's length.
  unfoldable pub start_mode : RelayInfo → Pusher → Key → Hub → ℤ × Pusher × Hub
  start_mode sri p key hub = elim (sri.mode) [
    | pm_all ↦ with_queue p (
        connect_all sri.upstreams sri.vetted_addrs (p.manager.stream_name) sls_ok p.reconnect_relay
          hub)
    | pm_hash ↦ let (ret, hub') = connect_hash (connect_to none) p.manager hub in (ret, p, hub')
    | pm_loop ↦ (pos (length key), p, hub)
  ]

  unfoldable pub start_keyed : RelayInfo → Pusher → Option Key → Hub → ℤ × Pusher × Hub
  start_keyed sri p none hub = (sls_error, p, hub)
  start_keyed sri p (some key) hub =
      if no_publisher_of p.manager hub key then (sls_error, p, hub) else start_mode sri p key hub

  unfoldable pub start_with : Option RelayInfo → Pusher → Hub → ℤ × Pusher × Hub
  start_with none p hub = (sls_error, p, hub)
  start_with (some sri) p hub =
      start_keyed sri p (stream_key url_max_len p.manager.app_uplive p.manager.stream_name) hub

  unfoldable pub start : Pusher → Hub → ℤ × Pusher × Hub
  start p hub = start_with p.manager.sri p hub

  abbrev begun : Pusher → Pusher
  begun p = record p { manager = record (p.manager) { reconnect_begin_tm = now } }

  unfoldable pub add_reconnect_stream : Option RelayInfo → Key → Pusher → ℤ × Pusher
  add_reconnect_stream none relay_url p = (sls_error, p)
  add_reconnect_stream (some sri) relay_url p = elim (sri.mode) [
    | pm_all ↦ (sls_ok, record p { reconnect_relay = place relay_url now p.reconnect_relay })
    | pm_hash ↦ (sls_ok, begun p)
    | pm_loop ↦ (sls_error, p)
  ]

  -- In the hash mode, behind the test for the interval.
  abbrev reconnect_hash : Bool → Pusher → Hub → ℤ × Pusher × Hub
  reconnect_hash no_publisher p hub =
      let (ret, hub') = connect_hash (connect_to none) p.manager hub in
      if no_publisher then (sls_error, p, hub) else (ret, p, hub')

  unfoldable pub reconnect_mode : RelayInfo → Bool → Pusher → Hub → ℤ × Pusher × Hub
  reconnect_mode sri no_publisher p hub = elim (sri.mode) [
    | pm_all ↦
        with_queue p (reconnect_all sri.reconnect_interval no_publisher p.reconnect_relay hub)
    | pm_hash ↦
        if is_early sri.reconnect_interval (p.manager.reconnect_begin_tm)
        then (sls_error, p, hub)
        else reconnect_hash no_publisher (begun p) hub
    | pm_loop ↦ (sls_error, p, hub)
  ]

  unfoldable pub reconnect_keyed : RelayInfo → Pusher → Option Key → Hub → ℤ × Pusher × Hub
  reconnect_keyed sri p none hub = (sls_error, p, hub)
  reconnect_keyed sri p (some key) hub =
      reconnect_mode sri (no_publisher_of p.manager hub key) p hub

  unfoldable pub reconnect_with : Option RelayInfo → Pusher → Hub → ℤ × Pusher × Hub
  reconnect_with none p hub = (sls_error, p, hub)
  reconnect_with (some sri) p hub =
      reconnect_keyed sri p (stream_key url_max_len p.manager.app_uplive p.manager.stream_name) hub

  unfoldable pub reconnect : Pusher → Hub → ℤ × Pusher × Hub
  reconnect p hub =
      if not (is_ok (check_relay_param p.manager))
      then (sls_error, p, hub)
      else reconnect_with p.manager.sri p hub

-- The manager's own `connect`.
unfoldable pub push_to :
    (Option Addr → ℕ → List ℕ → ℤ) → (ℕ → Bool) → Manager → ℤ → Option Addr → List ℕ → Hub → ℤ × Hub
push_to opens expired m now vetted = connect (opens vetted) (set_relay_param expired m now)
