-- ===== src/Relay/Lasting.antt =====
-- The manager of a stream, over sequences of calls on `CSLSMapRelay`.
use mathlib.Core.Path.{subst}
use irl_srt_server.Prelude.{
  ℕ, ◌≡◌, ◌≢◌, refl, sym, ◌∙◌, Option, none, some, List, [], ◌∷◌, if◌then◌else◌, Bool-cases, inl,
  inr, ◌==◌,
}
use irl_srt_server.Prelude.Int.{sls_error}
use irl_srt_server.Prelude.Keyed.{Key, Keyed, find, is_some, same_key}
use irl_srt_server.Prelude.Ordered.{place, find-place_same, find-place_other}
use irl_srt_server.Prelude.Unique.{find_cong}
use irl_srt_server.Conf.{string_split}
use irl_srt_server.Relay.Manager.{RelayInfo}
use irl_srt_server.Relay.MapRelay.{
  RelayConf, Made, Kind, MapRelay, get_relay_conf, store_conf, add_relay_conf, stream_of,
  make_manager, find_or_make, add_with, add_relay_manager,
}

-- The calls that change the map, `clear` aside, which ends the listener.
pub data Call : Type 0 where
  adds_conf : Key → Option RelayConf → Call
  adds_manager : Key → Key → Call

unfoldable pub step : MapRelay → Call → MapRelay
step m (adds_conf app_uplive cr) = (add_relay_conf m app_uplive cr).1
step m (adds_manager app_uplive stream_name) = (add_relay_manager m app_uplive stream_name).1

unfoldable pub steps : MapRelay → List Call → MapRelay
steps m [] = m
steps m (c ∷ cs) = steps (step m c) cs

-- The application has the configuration and the stream the manager.
abbrev Holds : Key → Key → RelayInfo → Made → MapRelay → Type 0
Holds app stream sri made m =
    (find app m.relay_infos ≡ some sri) × (find (stream_of app stream) m.relay_managers ≡ some made)

-- A new key leaves what another key has.
find-place_new :
    {A : Type 0} (k l : Key) (a b : A) (m : Keyed A)
    → find k m ≡ none
    → find l m ≡ some b
    → find l (place k a m) ≡ some b
find-place_new {A = A} k l a b m new old = elim (Bool-cases (same_key l k)) [
  | inl same ↦ absurd (none≢some (sym new ∙ (sym (find_cong l k m same) ∙ old)))
  | inr other ↦ find-place_other k l a m other ∙ old
]
  where
    none≢some : ◌≢◌ {A = Option A} none (some b)
    none≢some e = cc

store_conf-Holds :
    (app stream k : Key) (sri : RelayInfo) (made : Made) (m : MapRelay) (cr : RelayConf)
    (us : List (List ℕ))
    → find k m.relay_infos ≡ none
    → Holds app stream sri made m
    → Holds app stream sri made (store_conf m k cr us).1
store_conf-Holds app stream k sri made m cr [] new h = h
store_conf-Holds app stream k sri made m cr (u ∷ us) new (c, g) =
    (find-place_new k app _ sri m.relay_infos new c, g)

make_manager-Holds :
    (app stream k s : Key) (sri info : RelayInfo) (made : Made) (m : MapRelay) (kind : Option Kind)
    → find (stream_of k s) m.relay_managers ≡ none
    → Holds app stream sri made m
    → Holds app stream sri made (make_manager m k s info kind).1
make_manager-Holds app stream k s sri info made m none new h = h
make_manager-Holds app stream k s sri info made m (some kind) new (c, g) =
    (c, find-place_new (stream_of k s) (stream_of app stream) _ made m.relay_managers new g)

add_relay_manager-Holds :
    (app stream k s : Key) (sri : RelayInfo) (made : Made) (m : MapRelay)
    → Holds app stream sri made m
    → Holds app stream sri made (add_relay_manager m k s).1
unfolding add_relay_manager
add_relay_manager-Holds app stream k s sri made m h = with_conf (get_relay_conf m k)
  where
    with_found :
        (info : RelayInfo) (o : Option Made)
        → find (stream_of k s) m.relay_managers ≡ o
        → Holds app stream sri made (find_or_make m k s info o).1
    with_found info (some cur) e = h
    with_found info none e = make_manager-Holds app stream k s sri info made m _ e h

    with_conf : (o : Option RelayInfo) → Holds app stream sri made (add_with m k s o).1
    with_conf none = h
    with_conf (some info) = with_found info (find (stream_of k s) m.relay_managers) refl

add_relay_conf-Holds :
    (app stream k : Key) (sri : RelayInfo) (made : Made) (m : MapRelay) (cr : Option RelayConf)
    → Holds app stream sri made m
    → Holds app stream sri made (add_relay_conf m k cr).1
unfolding add_relay_conf get_relay_conf is_some
add_relay_conf-Holds app stream k sri made m none h = h
add_relay_conf-Holds app stream k sri made m (some cr) h = guarded (find k m.relay_infos) refl
  where
    us : List (List ℕ)
    us = string_split (λ c. c == 32) cr.upstreams

    guarded :
        (o : Option RelayInfo)
        → find k m.relay_infos ≡ o
        → Holds app stream sri made (if is_some o then (sls_error, m) else store_conf m k cr us).1
    guarded (some info) e = h
    guarded none e = store_conf-Holds app stream k sri made m cr us e h

steps-Holds :
    (app stream : Key) (sri : RelayInfo) (made : Made) (m : MapRelay) (cs : List Call)
    → Holds app stream sri made m
    → Holds app stream sri made (steps m cs)
unfolding steps step
steps-Holds app stream sri made m [] h = h
steps-Holds app stream sri made m (adds_conf k cr ∷ cs) h =
    steps-Holds app stream sri made (add_relay_conf m k cr).1 cs
      (add_relay_conf-Holds app stream k sri made m cr h)
steps-Holds app stream sri made m (adds_manager k s ∷ cs) h =
    steps-Holds app stream sri made (add_relay_manager m k s).1 cs
      (add_relay_manager-Holds app stream k s sri made m h)

-- What holds gives the manager again.
Holds-add_relay_manager :
    (app stream : Key) (sri : RelayInfo) (made : Made) (m : MapRelay)
    → Holds app stream sri made m
    → add_relay_manager m app stream ≡ (some made, m)
unfolding add_relay_manager get_relay_conf
Holds-add_relay_manager app stream sri made m (c, g) = rw (c, g) refl

-- A manager that is returned stands in the map.
abbrev IsFound : Key → Key → Option Made × MapRelay → Type 0
IsFound app stream (none, m) = Unit
IsFound app stream (some made, m) = (sri : RelayInfo) × Holds app stream sri made m

make_manager-IsFound :
    (app stream : Key) (sri : RelayInfo) (m : MapRelay) (kind : Option Kind)
    → find app m.relay_infos ≡ some sri
    → IsFound app stream (make_manager m app stream sri kind)
make_manager-IsFound app stream sri m none c = record {}
make_manager-IsFound app stream sri m (some kind) c =
    (sri, (c, find-place_same (stream_of app stream) _ m.relay_managers))

add_relay_manager-IsFound :
    (app stream : Key) (m : MapRelay) → IsFound app stream (add_relay_manager m app stream)
unfolding add_relay_manager get_relay_conf
add_relay_manager-IsFound app stream m = with_conf (find app m.relay_infos) refl
  where
    with_found :
        (sri : RelayInfo) (o : Option Made)
        → find app m.relay_infos ≡ some sri
        → find (stream_of app stream) m.relay_managers ≡ o
        → IsFound app stream (find_or_make m app stream sri o)
    with_found sri (some cur) c e = (sri, (c, e))
    with_found sri none c e = make_manager-IsFound app stream sri m _ c

    with_conf :
        (o : Option RelayInfo)
        → find app m.relay_infos ≡ o
        → IsFound app stream (add_with m app stream o)
    with_conf none c = record {}
    with_conf (some sri) c = with_found sri (find (stream_of app stream) m.relay_managers) c refl

-- A manager that `add_relay_manager` returns for a stream is what every later call for the stream returns,
-- and that call changes nothing, whatever configurations and managers are added in between.
pub add_relay_manager-steps :
    (m m' : MapRelay) (app_uplive stream_name : Key) (made : Made) (cs : List Call)
    → add_relay_manager m app_uplive stream_name ≡ (some made, m')
    → add_relay_manager (steps m' cs) app_uplive stream_name ≡ (some made, steps m' cs)
add_relay_manager-steps m m' app_uplive stream_name made cs e =
    let (sri, h) =
      subst (IsFound app_uplive stream_name) e
        (add_relay_manager-IsFound app_uplive stream_name m) in
    Holds-add_relay_manager app_uplive stream_name sri made (steps m' cs)
      (steps-Holds app_uplive stream_name sri made m' cs h)
