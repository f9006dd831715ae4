-- ===== src/Role/Socket.antt =====
-- The socket of a role of src/core/SLSRole.cpp through the calls of its worker.
use irl_srt_server.Prelude.{
  ℕ, ◌≡◌, refl, Bool, true, false, not, Option, none, some, List, [], ◌∷◌, length, ◌==◌,
  if◌then◌else◌, ◌%◌,
}
use irl_srt_server.Prelude.Int.{ℤ, sls_ok, sls_error}
use irl_srt_server.AuthRejectCache.{Cache}
use irl_srt_server.MapData
use irl_srt_server.MapData.{MapData}
use irl_srt_server.Relay.Loop.{is_ok}
use irl_srt_server.Role
use irl_srt_server.Role.{Role, World, Call, SockState, is_gone, is_idle, is_invalid, uninit_role}
use irl_srt_server.Role.Webhook.{Vetter, Response, Checked, check_http_passed}
use irl_srt_server.Role.Reading
use irl_srt_server.Role.Reading.{Read, Arrival, datagram, no_data, read_failed, handler_read_data}
use irl_srt_server.Role.Writing
use irl_srt_server.Role.Writing.{Wrote, Answer, handler_write_data}
use irl_srt_server.Role.Teardown.{
  IsTidy, IsClean, is_closed, if-IsTidy, same-IsTidy, called-IsTidy, invalid_srt-IsTidy,
  mark_invalid-IsTidy, check_http_passed-IsTidy, get_state-IsTidy, get_statistics-IsTidy,
  uninit_role-IsTidy, update_egress_arming-IsTidy,
}
use irl_srt_server.Role.Session
use irl_srt_server.Role.Session.{
  Session, Turn, handles, ticks, polls, kicks, measures, turn, turns, Viewing, Visit, serves, looks,
  kicked, sampled, visit, visits,
}

read-if : (b : Bool) (x y : Read) → IsTidy x.role → IsTidy y.role → IsTidy (if b then x else y).role
read-if true x y f g = f
read-if false x y f g = g

module _ (w : World) (timecode_sei : Bool) (now : ℕ) where
  ring_made-IsTidy :
      (r : Role) (d : List ℕ) (added : ℤ × MapData × ℕ)
      → IsTidy r
      → IsTidy (Reading.ring_made w timecode_sei r d added).role
  unfolding Reading.put_chunk
  ring_made-IsTidy r d (ret, map, next) t =
      read-if (is_ok ret) _ _ (same-IsTidy r _ refl refl t) (invalid_srt-IsTidy w r t)

  store_chunk-IsTidy :
      (r : Role) (map : MapData) (next : ℕ) (d : List ℕ)
      → IsTidy r
      → IsTidy (Reading.store_chunk w timecode_sei now r map next d).role
  unfolding Reading.store_chunk Reading.put_chunk
  store_chunk-IsTidy r map next d t =
      let made : Read =
        Reading.ring_made w timecode_sei r d
          (MapData.add map r.map_data_key (Reading.bitrate_hint r.conf) r.latency next now) in
      read-if (not r.has_map_data) (Reading.not_put sls_error r map next)
        (if r.ring_added then Reading.put_chunk r map next d else made) t
        (read-if r.ring_added (Reading.put_chunk r map next d) made t (ring_made-IsTidy r d _ t))

  receive-IsTidy :
      (r : Role) (map : MapData) (next : ℕ) (d : List ℕ)
      → IsTidy r
      → IsTidy (Reading.receive w timecode_sei now r map next d).role
  unfolding Reading.receive
  receive-IsTidy r map next d t =
      read-if _ _ _ (invalid_srt-IsTidy w _ (same-IsTidy r _ refl refl t))
        (store_chunk-IsTidy _ map next d (same-IsTidy r _ refl refl t))

  arrived-IsTidy :
      (r : Role) (map : MapData) (next : ℕ) (arrival : Arrival)
      → IsTidy r
      → IsTidy (Reading.arrived w timecode_sei now r map next arrival).role
  arrived-IsTidy r map next no_data t = t
  arrived-IsTidy r map next read_failed t = t
  arrived-IsTidy r map next (datagram []) t = t
  arrived-IsTidy r map next (datagram (b ∷ d)) t =
      read-if (length (b ∷ d) % 188 == 0) _ _ (receive-IsTidy r map next (b ∷ d) t)
        (invalid_srt-IsTidy w r t)

  read_from-IsTidy :
      (r : Role) (map : MapData) (next : ℕ) (arrival : Arrival) (s : Option ℕ)
      → r.srt ≡ s
      → IsTidy r
      → IsTidy (Reading.read_from w timecode_sei now arrival r map next s).role
  read_from-IsTidy r map next arrival none e t = t
  read_from-IsTidy r map next arrival (some s) e t =
      arrived-IsTidy _ map next arrival (called-IsTidy r _ s (Role.reads s) e e refl refl refl t)

pub handler_read_data-IsTidy :
    (w : World) (v : Vetter) (timecode_sei : Bool) (now now_s read_now : ℕ)
    (answer : Option Response) (arrival : Arrival) (r : Role) (cache : Option Cache) (map : MapData)
    (next : ℕ)
    → IsTidy r
    → IsTidy
        (handler_read_data w v timecode_sei now now_s read_now answer arrival r cache map
          next).0.role
unfolding handler_read_data
handler_read_data-IsTidy w v timecode_sei now now_s read_now answer arrival r cache map next t =
    let c : Checked = check_http_passed w v now now_s answer r cache in
    let checked : IsTidy c.role = check_http_passed-IsTidy w v now now_s answer r cache t in
    read-if (is_ok c.ret)
      (Reading.read_from w timecode_sei read_now arrival c.role map next c.role.srt)
      (Reading.not_put sls_ok c.role map next)
      (read_from-IsTidy w timecode_sei read_now c.role map next arrival c.role.srt refl checked)
      checked

wrote-if :
    (b : Bool) (x y : Wrote) → IsTidy x.role → IsTidy y.role → IsTidy (if b then x else y).role
wrote-if true x y f g = f
wrote-if false x y f g = g

log_sends-open :
    (s : ℕ) (tried : List (List ℕ)) (calls : List Call)
    → is_closed s calls ≡ false
    → is_closed s (Writing.log_sends s tried calls) ≡ false
log_sends-open s [] calls e = e
log_sends-open s (d ∷ tried) calls e = log_sends-open s tried calls e

log_sends-IsClean :
    (s : ℕ) (tried : List (List ℕ)) (calls : List Call)
    → is_closed s calls ≡ false
    → IsClean calls
    → IsClean (Writing.log_sends s tried calls)
log_sends-IsClean s [] calls e h = h
log_sends-IsClean s (d ∷ tried) calls e h =
    (log_sends-open s tried calls e, log_sends-IsClean s tried calls e h)

wrote-IsTidy :
    (r : Role) (s : ℕ) (done : Writing.Written)
    → r.srt ≡ some s
    → IsTidy r
    → IsTidy (Writing.wrote r s done).role
wrote-IsTidy r s (ret, m, p) e t =
    let open_yet : is_closed s r.calls ≡ false = rw e at t.socket in
    record {
      clean = log_sends-IsClean s p.tried r.calls open_yet t.clean;
      socket = rw e (log_sends-open s p.tried r.calls open_yet);
    }

write_to-IsTidy :
    (answers : ℕ → Answer) (clock : ℕ → ℕ) (map : MapData) (r : Role) (s : Option ℕ)
    → r.srt ≡ s
    → IsTidy r
    → IsTidy (Writing.write_to answers clock map r s).role
write_to-IsTidy answers clock map r none e t = t
write_to-IsTidy answers clock map r (some s) e t =
    wrote-if _ _ (Writing.wrote r s (Writing.loops answers clock map r)) t
      (wrote-IsTidy r s (Writing.loops answers clock map r) e t)

pub handler_write_data-IsTidy :
    (w : World) (v : Vetter) (now now_s : ℕ) (answer : Option Response) (answers : ℕ → Answer)
    (clock : ℕ → ℕ) (r : Role) (map : MapData)
    → IsTidy r
    → IsTidy (handler_write_data w v now now_s answer answers clock r map).role
unfolding handler_write_data
handler_write_data-IsTidy w v now now_s answer answers clock r map t =
    let c : Checked = check_http_passed w v now now_s answer r none in
    let checked : IsTidy c.role = check_http_passed-IsTidy w v now now_s answer r none t in
    wrote-if (is_ok c.ret) (Writing.write_to answers clock map c.role c.role.srt)
      (Writing.not_written sls_ok c.role map)
      (write_to-IsTidy answers clock map c.role c.role.srt refl checked) checked

dropped-IsTidy : (w : World) (ret : ℤ) (r : Role) → IsTidy r → IsTidy (Session.dropped w ret r)
dropped-IsTidy w ret r t = if-IsTidy _ _ _ (mark_invalid-IsTidy w r t) t

served-IsTidy :
    (w : World) (obeys : Bool) (done : Wrote)
    → IsTidy done.role
    → IsTidy (Session.served w obeys done).role
served-IsTidy w obeys done t =
    if-IsTidy _ _ _ (mark_invalid-IsTidy w done.role t)
      (update_egress_arming-IsTidy obeys done.role t)

ticked-IsTidy :
    (b : Bool) (r : Role) (cache : Option Cache) (c : Checked)
    → IsTidy r
    → IsTidy c.role
    → IsTidy (if◌then◌else◌ {A = Role × Option Cache} b (r, cache) (c.role, c.cache)).0
ticked-IsTidy true r cache c f g = f
ticked-IsTidy false r cache c f g = g

viewing-IsTidy :
    (b : Bool) (x y : Viewing) → IsTidy x.role → IsTidy y.role → IsTidy (if b then x else y).role
viewing-IsTidy true x y f g = f
viewing-IsTidy false x y f g = g

module _ (w : World) (v : Vetter) (timecode_sei : Bool) where
  turn-IsTidy : (s : Session) (t : Turn) → IsTidy s.role → IsTidy (turn w v timecode_sei s t).role
  unfolding turn Session.on_worker_tick Role.request_kick
  turn-IsTidy s (handles now now_s read_now answer arrival) t =
      let done =
        handler_read_data w v timecode_sei now now_s read_now answer arrival s.role s.cache s.map
          s.next in
      dropped-IsTidy w done.0.ret done.0.role (
        handler_read_data-IsTidy w v timecode_sei now now_s read_now answer arrival s.role s.cache
          s.map s.next t)
  turn-IsTidy s (ticks now now_s answer) t =
      ticked-IsTidy s.role.auth.http_passed s.role s.cache
        (check_http_passed w v now now_s answer s.role s.cache) t
        (check_http_passed-IsTidy w v now now_s answer s.role s.cache t)
  turn-IsTidy s (polls now st) t = get_state-IsTidy w s.role now st t
  turn-IsTidy s kicks t = same-IsTidy s.role _ refl refl t
  turn-IsTidy s measures t = get_statistics-IsTidy s.role t

  turns-IsTidy :
      (s : Session) (ts : List Turn) → IsTidy s.role → IsTidy (turns w v timecode_sei s ts).role
  unfolding turns
  turns-IsTidy s [] t = t
  turns-IsTidy s (u ∷ ts) t = turns-IsTidy (turn w v timecode_sei s u) ts (turn-IsTidy s u t)

module _ (w : World) (v : Vetter) where
  visit-IsTidy : (p : Viewing) (t : Visit) → IsTidy p.role → IsTidy (visit w v p t).role
  unfolding visit Role.request_kick
  visit-IsTidy p (serves now now_s answer answers clock obeys) t = viewing-IsTidy _ p _ t (
      served-IsTidy w obeys (handler_write_data w v now now_s answer answers clock p.role p.map)
        (handler_write_data-IsTidy w v now now_s answer answers clock p.role p.map t))
  visit-IsTidy p (looks now st) t = get_state-IsTidy w p.role now st t
  visit-IsTidy p kicked t = same-IsTidy p.role _ refl refl t
  visit-IsTidy p sampled t = get_statistics-IsTidy p.role t

  visits-IsTidy : (p : Viewing) (ts : List Visit) → IsTidy p.role → IsTidy (visits w v p ts).role
  unfolding visits
  visits-IsTidy p [] t = t
  visits-IsTidy p (u ∷ ts) t = visits-IsTidy (visit w v p u) ts (visit-IsTidy p u t)

-- Along any calls that a worker makes of a publisher and of a viewer, in any order and at any times, and
-- through the end of the roles behind them: no call on a socket stands behind the close of that socket,
-- which is closed once at most, and a socket that a role still holds is not closed.
pub uninit_role-turns-IsTidy :
    (w : World) (v : Vetter) (timecode_sei : Bool) (s : Session) (ts : List Turn) (p : Viewing)
    (us : List Visit)
    → IsTidy s.role
    → IsTidy p.role
    → IsTidy (uninit_role w (turns w v timecode_sei s ts).role)
      × IsTidy (uninit_role w (visits w v p us).role)
uninit_role-turns-IsTidy w v timecode_sei s ts p us t u = (
  uninit_role-IsTidy w _ (turns-IsTidy w v timecode_sei s ts t),
  uninit_role-IsTidy w _ (visits-IsTidy w v p us u),
)
