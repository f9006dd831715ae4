-- ===== src/Relay/Joining.antt =====
-- A puller that can reach an upstream pulls the stream.
use irl_srt_server.Prelude.{
  ℕ, ◌+◌, ◌≤◌, ◌<◌, ◌≡◌, ◌≢◌, refl, Bool, true, false, ◌&&◌, Option, none, some, List, [], ◌∷◌,
  ◌++◌, arith, Bool-cases, inl, inr, length, get_or, leb,
}
use irl_srt_server.Prelude.Int.{ℤ, pos, sls_ok, pos_part}
use irl_srt_server.Prelude.Keyed.{Key, is_some}
use irl_srt_server.MapData.{add}
use irl_srt_server.Registry.Publishers.{MapPublisher, set_push_2_publisher, get_publisher}
use irl_srt_server.Relay.Loop.{is_ok}
use irl_srt_server.Relay.Manager.{Hub, Manager, connect, RelayInfo, pm_loop}
use irl_srt_server.Relay.Url.{stream_key, url_max_len, fits, relay_url, url_encode}
use irl_srt_server.Relay.Reach.{AllFit, IsIndex, connect_loop-reaches}
use irl_srt_server.Relay.Puller.{
  register, register_ring, set_relay_param, pull, check_relay_param, Puller, is_early, is_taken,
  reconnect, start_with, start_keyed, start_mode, add_reconnect_stream,
}

-- The stream is free: no publisher, and the streams' map takes it.
pub record IsFree (key : Key) (now : ℤ) (hub : Hub) : Type 0 where
  pub unpublished : get_publisher hub.publishers key ≡ none
  pub room : is_ok (add hub.streams key (pos 0) (pos 0) hub.next_ring (pos_part now)).0 ≡ true

set_push-free :
    (m : MapPublisher) (key : Key) (role : ℕ)
    → get_publisher m key ≡ none
    → (set_push_2_publisher m key role).0 ≡ sls_ok
unfolding set_push_2_publisher get_publisher is_some
set_push-free m key role e = rw (set_push_2_publisher, e) refl

register-free :
    (key : Key) (now : ℤ) (role : ℕ) (hub : Hub)
    → IsFree key now hub
    → (register key now role hub).0 ≡ sls_ok
unfolding register register_ring
register-free key now role hub f =
    rw (set_push-free hub.publishers key role f.unpublished, f.room) refl

module _ (m : Manager) (now : ℤ) (key : Key)
    (named : stream_key url_max_len m.app_uplive m.stream_name ≡ some key)
    (linked : check_relay_param m ≡ sls_ok) where
  set_relay_param-free :
      (role : ℕ) (hub : Hub) → IsFree key now hub → (set_relay_param m now role hub).0 ≡ sls_ok
  unfolding set_relay_param
  set_relay_param-free role hub f = rw (named, linked) (register-free key now role hub f)

  module _ (opens : ℕ → List ℕ → ℤ) where
    pull-retries :
        (url : List ℕ) (hub : Hub)
        → IsFree key now hub
        → is_ok (pull opens now m url hub).0 ≡ false
        → IsFree key now (pull opens now m url hub).1
    unfolding pull connect
    pull-retries [] hub f e = f
    pull-retries (c ∷ url) hub f e =
        let made : Hub = record hub { next_role = hub.next_role + 1 } in
        let free : IsFree key now made = record { unpublished = f.unpublished; room = f.room } in
        elim (Bool-cases (is_ok (opens hub.next_role (c ∷ url)))) [
          | inl opened ↦
              let ok : is_ok (pull opens now m (c ∷ url) hub).0 ≡ true =
                rw (connect, opened, set_relay_param-free hub.next_role made free) refl in
              absurd cc
          | inr closed ↦ rw (connect, closed) free
        ]

    pull-answers :
        (url : List ℕ) (hub : Hub) (c : ℕ) (rest : List ℕ)
        → url ≡ c ∷ rest
        → IsFree key now hub
        → ((role : ℕ) → is_ok (opens role url) ≡ true)
        → is_ok (pull opens now m url hub).0 ≡ true
    unfolding pull connect
    pull-answers [] hub c rest e f up = absurd cc
    pull-answers (c' ∷ url) hub c rest e f up =
        let made : Hub = record hub { next_role = hub.next_role + 1 } in
        let free : IsFree key now made = record { unpublished = f.unpublished; room = f.room } in
        rw (connect, up hub.next_role, set_relay_param-free hub.next_role made free) refl

fits-wider : (a b : ℕ) (s : List ℕ) {t : List ℕ} → a ≤ b → fits a s ≡ some t → fits b s ≡ some t
unfolding fits
fits-wider a b s h e = ground arith

not_nil : (size c : ℕ) (s : List ℕ) → fits size (c ∷ s) ≢ some []
unfolding fits
not_nil size c s e = elim (Bool-cases (leb size (length (c ∷ s)))) [
  | inl long ↦ absurd (none≢some (rw long at e))
  | inr short ↦ absurd (cons≢nil (rw short at e))
]
  where
    none≢some : {A : Type 0} {a : A} → none ≢ some a
    none≢some e = absurd cc

    cons≢nil : some (c ∷ s) ≢ some []
    cons≢nil e = absurd cc

relay_url-nonempty :
    (upstream name : List ℕ) {url : List ℕ}
    → relay_url upstream name ≡ some url
    → (c : ℕ) × (rest : List ℕ) × (url ≡ c ∷ rest)
unfolding relay_url fits
relay_url-nonempty upstream name {url = []} e =
    absurd
      (not_nil url_max_len 115 (114 ∷ 116 ∷ 58 ∷ 47 ∷ 47 ∷ (upstream ++ (47 ∷ url_encode name))) e)
relay_url-nonempty upstream name {url = c ∷ rest} e = (c, rest, refl)

not_taken : (b : Bool) {o : Option ℕ} → o ≡ none → (b && is_some o) ≡ false
unfolding is_some
not_taken true e = rw e refl
not_taken false e = refl

-- A reconnect that is due, of a puller in the loop mode, for a stream that is free and that the
-- server has room for, succeeds if one upstream lets every relay in and neither a URL nor the
-- key of the stream is too long.
pub reconnect-reaches :
    (opens : ℕ → List ℕ → ℤ) (now : ℤ) (sri : RelayInfo) (p : Puller) (hub : Hub) (key : Key)
    (j : ℕ)
    → stream_key 1024 p.manager.app_uplive p.manager.stream_name ≡ some key
    → check_relay_param p.manager ≡ sls_ok
    → sri.mode ≡ pm_loop
    → is_early opens now sri p.manager ≡ false
    → IsFree key now hub
    → IsIndex sri.upstreams p.cur_loop_index
    → AllFit sri.upstreams p.manager.stream_name
    → j < length sri.upstreams
    → ((role : ℕ) (url : List ℕ)
        → relay_url (get_or sri.upstreams j []) p.manager.stream_name ≡ some url
        → is_ok (opens role url) ≡ true)
    → (p' : Puller) × (hub' : Hub) × (reconnect opens now sri p hub ≡ some (sls_ok, p', hub'))
unfolding reconnect start_with is_some start_keyed start_mode stream_key fits add_reconnect_stream
reconnect-reaches opens now sri p hub key j named linked looping due free index fit j_in up =
    let linked' : check_relay_param (record (p.manager) { reconnect_begin_tm = now }) ≡ sls_ok =
      unfold check_relay_param in linked in
    let m : Manager = record (p.manager) { reconnect_begin_tm = now } in
    let wide : stream_key url_max_len m.app_uplive m.stream_name ≡ some key =
      unfold stream_key in fits-wider 1024 url_max_len _ (omega arith) named in
    let (ret, index', hub', e, ok) =
      connect_loop-reaches (pull opens now m) sri.upstreams m.stream_name {Inv = IsFree key now}
        p.cur_loop_index hub j index fit j_in (pull-retries m now key wide linked' opens) free
        (λ url e hub' free'.
          let (c, rest, shape) = relay_url-nonempty (get_or sri.upstreams j []) m.stream_name e in
          pull-answers m now key wide linked' opens url hub' c rest shape free'
            (λ role. up role url e)) in
    let wide' : stream_key url_max_len p.manager.app_uplive p.manager.stream_name ≡ some key =
      wide in
    let open_key : is_taken opens now m hub key ≡ false =
      not_taken m.has_publishers free.unpublished in
    rw
      (
        reconnect, due, linked, wide', start_with, named, start_keyed, open_key, start_mode,
        looping, e, ok,
      )
      (_, hub', refl)
