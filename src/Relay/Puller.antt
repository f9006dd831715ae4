-- ===== src/Relay/Puller.antt =====
-- src/core/SLSPullerManager.hpp and .cpp: a stream is pulled from the first upstream that answers. The
-- clock is an argument.
use irl_srt_server.Prelude.{
  ℕ, ◌*◌, Bool, ◌&&◌, not, Option, none, some, List, [], ◌∷◌, if◌then◌else◌,
}
use irl_srt_server.Prelude.Int.{ℤ, pos, ◌-ℤ◌, ltb_ℤ, sls_ok, sls_error, neg_part, pos_part, sub_ℕ}
use irl_srt_server.Prelude.Keyed.{Key, is_some}
use irl_srt_server.MapData.{MapData, add}
use irl_srt_server.Registry.Publishers.{MapPublisher, set_push_2_publisher, get_publisher, remove}
use irl_srt_server.Registry.Roles.{push}
use irl_srt_server.Relay.Url.{stream_key, url_max_len}
use irl_srt_server.Relay.Loop.{is_ok, connect_loop}
use irl_srt_server.Relay.Manager.{
  pm_loop, pm_hash, pm_all, RelayInfo, Hub, Manager, connect, connect_hash,
}

-- `CSLSPullerManager`; `none` is the -1 of `m_cur_loop_index`.
pub record Puller : Type 0 where
  pub manager : Manager
  pub cur_loop_index : Option ℕ

-- "puller"
abbrev pub puller_name : List ℕ
puller_name = 112 ∷ 117 ∷ 108 ∷ 108 ∷ 101 ∷ 114 ∷ []

unfoldable pub check_relay_param : Manager → ℤ
check_relay_param m =
    if not m.has_roles
    then sls_error
    else if not m.has_publishers
    then sls_error
    else if not m.has_streams
    then sls_error
    else sls_ok

-- The two entries of a stream's publisher. Without a ring the first one is taken back.
unfoldable pub register_ring : Key → ℤ → ℕ → ℤ × MapPublisher → ℤ × MapData × ℕ → Hub → ℤ × Hub
register_ring key now role (set, publishers) (added, streams, next_ring) hub =
    if not (is_ok set)
    then (sls_error, hub)
    else if not (is_ok added)
    then (
      sls_error,
      record hub {
        publishers = (remove publishers role).1;
        streams = streams;
        next_ring = next_ring;
      },
    )
    else (
      sls_ok,
      record hub {
        publishers = publishers;
        streams = streams;
        next_ring = next_ring;
        roles =
            push hub.roles (some (record { id = role; name = some puller_name; start_time = now }));
      },
    )

unfoldable pub register : Key → ℤ → ℕ → Hub → ℤ × Hub
register key now role hub =
    register_ring key now role (set_push_2_publisher hub.publishers key role)
      (add hub.streams key (pos 0) (pos 0) hub.next_ring (pos_part now)) hub

abbrev pub register_key : Manager → ℤ → ℕ → Option Key → Hub → ℤ × Hub
register_key m now role none hub = (sls_error, hub)
register_key m now role (some key) hub =
    if not (is_ok (check_relay_param m)) then (sls_error, hub) else register key now role hub

-- What the relay itself stores is left out.
unfoldable pub set_relay_param : Manager → ℤ → ℕ → Hub → ℤ × Hub
set_relay_param m now role hub =
    register_key m now role (stream_key url_max_len m.app_uplive m.stream_name) hub

module _ (opens : ℕ → List ℕ → ℤ) (now : ℤ) where
  unfoldable pub pull : Manager → List ℕ → Hub → ℤ × Hub
  pull m = connect opens (set_relay_param m now)

  abbrev with_index : Puller → ℤ × Option ℕ × Hub → ℤ × Puller × Hub
  with_index p (ret, index, hub) = (ret, record p { cur_loop_index = index }, hub)

  -- By the mode, behind the test for a publisher. The loop's `none` does not come about.
  unfoldable pub start_mode : RelayInfo → Puller → Hub → Option (ℤ × Puller × Hub)
  start_mode sri p hub = elim (sri.mode) [
    | pm_loop ↦
        elim (connect_loop (pull p.manager) sri.upstreams (p.manager.stream_name) p.cur_loop_index
          hub) [ none ↦ none | some r ↦ some (with_index p r) ]
    | pm_hash ↦ let (ret, hub') = connect_hash (pull p.manager) p.manager hub in some (ret, p, hub')
    | pm_all ↦ some (sls_error, p, hub)
  ]

  -- A publisher that is there already keeps the stream.
  abbrev pub is_taken : Manager → Hub → Key → Bool
  is_taken m hub key = m.has_publishers && is_some (get_publisher hub.publishers key)

  unfoldable pub start_keyed : RelayInfo → Puller → Hub → Option Key → Option (ℤ × Puller × Hub)
  start_keyed sri p hub none = some (sls_error, p, hub)
  start_keyed sri p hub (some key) =
      if is_taken p.manager hub key then some (sls_error, p, hub) else start_mode sri p hub

  unfoldable pub start_with : Option RelayInfo → Puller → Hub → Option (ℤ × Puller × Hub)
  start_with none p hub = some (sls_error, p, hub)
  start_with (some sri) p hub =
      start_keyed sri p hub (stream_key 1024 p.manager.app_uplive p.manager.stream_name)

  unfoldable pub start : Puller → Hub → Option (ℤ × Puller × Hub)
  start p hub = start_with p.manager.sri p hub

  unfoldable pub add_reconnect_stream : Puller → Puller
  add_reconnect_stream p = record p { manager = record (p.manager) { reconnect_begin_tm = now } }

  -- Not before the interval is over, in seconds.
  abbrev pub is_early : RelayInfo → Manager → Bool
  is_early sri m = ltb_ℤ (now -ℤ m.reconnect_begin_tm) (times_1000 sri.reconnect_interval)
    where
      times_1000 : ℤ → ℤ
      times_1000 n = sub_ℕ (pos_part n * 1000) (neg_part n * 1000)

  -- Any error of `start` is the one error here.
  abbrev one_error : Option (ℤ × Puller × Hub) → Option (ℤ × Puller × Hub)
  one_error none = none
  one_error (some (ret, p, hub)) = some (if is_ok ret then sls_ok else sls_error, p, hub)

  -- `reconnect` with a configuration; the source reads it without a test for NULL.
  unfoldable pub reconnect : RelayInfo → Puller → Hub → Option (ℤ × Puller × Hub)
  reconnect sri p hub =
      let begun = add_reconnect_stream p in
      if is_early sri p.manager
      then some (sls_error, p, hub)
      else if not (is_ok (check_relay_param p.manager))
      then some (sls_error, begun, hub)
      else if not (is_some (stream_key url_max_len p.manager.app_uplive p.manager.stream_name))
      then some (sls_error, begun, hub)
      else one_error (start_with (some sri) begun hub)
