-- ===== src/Relay/Whole.antt =====
-- A pulled stream joins the server whole or not at all.
use irl_srt_server.Prelude.{
  ℕ, [], ◌∷◌, ◌++◌, ◌≡◌, ◌≢◌, refl, true, false, none, some, if◌then◌else◌, Bool-cases,
  Option-cases, inl, inr,
}
use irl_srt_server.Prelude.Int.{ℤ, pos, sls_ok, sls_error, pos_part}
use irl_srt_server.Prelude.Keyed.{Key, find, is_some, IsUnique}
use irl_srt_server.Prelude.Ordered.{find-place_same}
use irl_srt_server.Ring
use irl_srt_server.MapData.{MapData, add, is_exist}
use irl_srt_server.MapData.Caps.{add_sized-cases}
use irl_srt_server.Registry.Publishers.{MapPublisher, set_push_2_publisher, get_publisher, non_null}
use irl_srt_server.Registry.Publishers.Holding.{entries}
use irl_srt_server.Registry.Publishers.Undo.{remove-set_push}
use irl_srt_server.Registry.Roles.{push}
use irl_srt_server.Relay.Loop.{is_ok}
use irl_srt_server.Relay.Manager.{Hub}
use irl_srt_server.Relay.Puller.{puller_name, register, register_ring}

set-free :
    (m : MapPublisher) (key : Key) (role : ℕ)
    → is_ok (set_push_2_publisher m key role).0 ≡ true
    → get_publisher m key ≡ none
unfolding set_push_2_publisher get_publisher is_some
set-free m key role h = elim (Option-cases (non_null (find key m.push_2_publisher))) [
  | inl e ↦ e
  | inr (r, e) ↦ absurd (refused (rw (set_push_2_publisher, e) at h))
]
  where
    refused : is_ok sls_error ≢ true
    refused h = absurd cc

set-publishes :
    (m : MapPublisher) (key : Key) (role : ℕ)
    → is_ok (set_push_2_publisher m key role).0 ≡ true
    → get_publisher (set_push_2_publisher m key role).1 key ≡ some role
unfolding set_push_2_publisher get_publisher is_some
set-publishes m key role h =
    let free : non_null (find key m.push_2_publisher) ≡ none =
      unfold get_publisher in set-free m key role h in
    rw (set_push_2_publisher, free) (rw (find-place_same key (some role) m.push_2_publisher) refl)

added-is_exist :
    (m : MapData) (key : Key) (next now : ℕ)
    → is_ok (add m key (pos 0) (pos 0) next now).0 ≡ true
    → is_exist (add m key (pos 0) (pos 0) next now).1 key ≡ true
unfolding add is_exist is_some
added-is_exist m key next now h =
    elim (add_sized-cases Ring.default_max_data_size m key (pos 0) (pos 0) next now) [
      | inl (there, ret, same, ids) ↦ rw same there
      | inr (inl (fresh, ret, same)) ↦ absurd (refused (rw ret at h))
      | inr (inr (fresh, ret, (r, found, sized))) ↦ rw found refl
    ]
  where
    refused : is_ok sls_error ≢ true
    refused h = absurd cc

full-same :
    (m : MapData) (key : Key) (next now : ℕ)
    → is_ok (add m key (pos 0) (pos 0) next now).0 ≡ false
    → (add m key (pos 0) (pos 0) next now).1 ≡ m
unfolding add
full-same m key next now h =
    elim (add_sized-cases Ring.default_max_data_size m key (pos 0) (pos 0) next now) [
      | inl (there, ret, same, ids) ↦ same
      | inr (inl (fresh, ret, same)) ↦ same
      | inr (inr (fresh, ret, found)) ↦ absurd (accepted (rw ret at h))
    ]
  where
    accepted : is_ok sls_ok ≢ false
    accepted h = absurd cc

-- A pulled stream joins the server whole or not at all. On success its relay is the publisher, the
-- stream has a ring and the relay is the last of the roles that wait for a worker, the others as they were;
-- otherwise every stream has the publisher that it had, and the rings and the waiting roles are as they
-- were. The keys of the publishers are unique, and the relay has no entry among them before.
pub register-whole :
    (key k : Key) (now : ℤ) (role : ℕ) (hub : Hub)
    → IsUnique hub.publishers.push_2_publisher
    → entries role hub.publishers.push_2_publisher ≡ 0
    → let (ret, hub') = register key now role hub in
      if is_ok ret
      then (get_publisher hub'.publishers key ≡ some role)
        × (is_exist hub'.streams key ≡ true)
        × (hub'.roles
            ≡ hub.roles ++ (record { id = role; name = some puller_name; start_time = now } ∷ []))
      else (get_publisher hub'.publishers k ≡ get_publisher hub.publishers k)
        × (hub'.streams ≡ hub.streams)
        × (hub'.roles ≡ hub.roles)
unfolding register register_ring
register-whole key k now role hub u none_of =
    elim (Bool-cases (is_ok (set_push_2_publisher hub.publishers key role).0)) [
      | inl set ↦
          elim (Bool-cases
            (is_ok (add hub.streams key (pos 0) (pos 0) hub.next_ring (pos_part now)).0)) [
              | inl added ↦
                  rw (register_ring, set, added)
                    (
                      set-publishes hub.publishers key role set,
                      added-is_exist hub.streams key hub.next_ring (pos_part now) added,
                      unfold push in refl,
                    )
              | inr full ↦
                  rw (register_ring, set, full)
                    (
                      remove-set_push hub.publishers key k role u none_of
                          (set-free hub.publishers key role set),
                      full-same hub.streams key hub.next_ring (pos_part now) full,
                      refl,
                    )
            ]
      | inr taken ↦ rw taken (refl, refl, refl)
    ]
