-- ===== src/Role/Gate.antt =====
-- The gate of src/core/SLSRole.cpp: a role with a webhook and no grant reaches no stream, and its socket
-- does not outlast the deadline.
use mathlib.Core.Path.{subst}
use irl_srt_server.Prelude.{
  ℕ, ◌+◌, ◌≤◌, ◌≡◌, refl, ap, sym, ◌≢◌, ◌∙◌, Bool-cases, inl, inr, Bool, true, false, ◌||◌, Option,
  none, some, List, [], ◌∷◌, if◌then◌else◌, arith,
}
use irl_srt_server.Prelude.Int.{ℤ, sls_ok, sls_error}
use irl_srt_server.MapData.{MapData}
use irl_srt_server.Relay.Loop.{is_ok}
use irl_srt_server.AuthRejectCache.{Cache}
use irl_srt_server.Role.{
  Role, Auth, World, get_state, get_statistics, read_sid, request_kick, is_empty, informed,
  inquired, is_idle, is_gone, polled, mark_invalid, state_calls, SockState, told, ask_peer,
  is_invalid,
}
use irl_srt_server.Role.Webhook.{
  Vetter, Response, Checked, check_http_passed, on_connect, dispatched, authorization_ms,
}
use irl_srt_server.Role.Reading.{Arrival, not_put, read_checked, handler_read_data}
use irl_srt_server.Role.Session.{
  Session, Turn, handles, ticks, polls, kicks, measures, on_worker_tick, turn, turns,
}
use irl_srt_server.Role.Waiting.{
  IsDenied, AreDenied, IsWaiting, IsShut-IsWaiting, mark_invalid-IsShut, check_http_passed-IsHeld,
}

-- The worker's calls keep a role waiting, and the streams as they are.
head_denied : (t : Turn) (ts : List Turn) → AreDenied (t ∷ ts) → AreDenied (t ∷ [])
head_denied (handles now now_s read_now answer arrival) ts (d, ds) = (d, tt)
head_denied (ticks now now_s answer) ts (d, ds) = (d, tt)
head_denied (polls now st) ts ds = tt
head_denied kicks ts ds = tt
head_denied measures ts ds = tt

rest_denied : (t : Turn) (ts : List Turn) → AreDenied (t ∷ ts) → AreDenied ts
rest_denied (handles now now_s read_now answer arrival) ts (d, ds) = ds
rest_denied (ticks now now_s answer) ts (d, ds) = ds
rest_denied (polls now st) ts ds = ds
rest_denied kicks ts ds = ds
rest_denied measures ts ds = ds

record IsKept (deadline : ℕ) (s s' : Session) : Type 0 where
  waiting : IsWaiting deadline s'.role
  map : s'.map ≡ s.map

if-false {ℓ} : {A : Type ℓ} (b : Bool) (x y : A) → b ≡ false → (if b then x else y) ≡ y
if-false false x y e = refl
if-false true x y e = absurd cc

if-IsWaiting :
    (deadline : ℕ) (b : Bool) (x y : Role)
    → IsWaiting deadline x
    → IsWaiting deadline y
    → IsWaiting deadline (if b then x else y)
if-IsWaiting deadline true x y f g = f
if-IsWaiting deadline false x y f g = g

read_checked-refused :
    (w : World) (timecode_sei : Bool) (now : ℕ) (arrival : Arrival) (map : MapData) (next : ℕ)
    (c : Checked)
    → c.ret ≡ sls_error
    → read_checked w timecode_sei now arrival map next c ≡ not_put sls_ok c.role map next
read_checked-refused w timecode_sei now arrival map next c e =
    if-false (is_ok c.ret) _ _ (ap is_ok e)

on_worker_tick-unauthorized :
    (w : World) (v : Vetter) (now now_s : ℕ) (answer : Option Response) (r : Role)
    (cache : Option Cache)
    → r.auth.http_passed ≡ false
    → let c = check_http_passed w v now now_s answer r cache in
      on_worker_tick w v now now_s answer r cache ≡ (c.role, c.cache)
unfolding on_worker_tick
on_worker_tick-unauthorized w v now now_s answer r cache e = if-false r.auth.http_passed _ _ e

module _ (w : World) (v : Vetter) (timecode_sei : Bool) (deadline : ℕ) where
  polled-IsWaiting :
      (r : Role) (st : SockState) → IsWaiting deadline r → IsWaiting deadline (polled w r st)
  polled-IsWaiting r st h =
      if-IsWaiting deadline (is_gone r.srt st) (mark_invalid w r) r
        (IsShut-IsWaiting deadline (mark_invalid w r)
          (mark_invalid-IsShut w v deadline 0 0 r none h r h.closed_gate))
        h

  turn-IsKept :
      (s : Session) (t : Turn)
      → IsWaiting deadline s.role
      → AreDenied (t ∷ [])
      → IsKept deadline s (turn w v timecode_sei s t)
  unfolding turn handler_read_data get_state get_statistics request_kick
  turn-IsKept s (handles now now_s read_now answer arrival) h (denied, _) =
      let c = check_http_passed w v now now_s answer s.role s.cache in
      let held = check_http_passed-IsHeld w v deadline now now_s s.role s.cache h answer denied in
      let refused = read_checked-refused w timecode_sei read_now arrival s.map s.next c held.ret in
      record { waiting = rw refused held.waiting; map = rw refused refl }
  turn-IsKept s (ticks now now_s answer) h (denied, _) =
      let held = check_http_passed-IsHeld w v deadline now now_s s.role s.cache h answer denied in
      let ticked = on_worker_tick-unauthorized w v now now_s answer s.role s.cache h.closed_gate in
      record { waiting = rw ticked held.waiting; map = refl }
  turn-IsKept s (polls now st) h _ = record {
    waiting = if-IsWaiting deadline (is_invalid s.role.state) _ _ h (
        if-IsWaiting deadline (s.role.kick_requested || is_idle s.role now) _ _
          (IsShut-IsWaiting deadline _
            (mark_invalid-IsShut w v deadline now 0 s.role none h s.role h.closed_gate))
          (polled-IsWaiting (record s.role { calls = state_calls s.role.srt s.role.calls }) st
            (record { closed_gate = h.closed_gate; bounded = h.bounded })));
    map = refl;
  }
  turn-IsKept s kicks h _ = record {
    waiting = record { closed_gate = h.closed_gate; bounded = h.bounded };
    map = refl;
  }
  turn-IsKept s measures h _ = record {
    waiting = record { closed_gate = h.closed_gate; bounded = h.bounded };
    map = refl;
  }

  turns-IsKept :
      (s : Session) (ts : List Turn)
      → IsWaiting deadline s.role
      → AreDenied ts
      → IsKept deadline s (turns w v timecode_sei s ts)
  unfolding turns
  turns-IsKept s [] h denied = record { waiting = h; map = refl }
  turns-IsKept s (t ∷ ts) h denied =
      let first = turn-IsKept s t h (head_denied t ts denied) in
      let later =
        turns-IsKept (turn w v timecode_sei s t) ts first.waiting (rest_denied t ts denied) in
      record { waiting = later.waiting; map = later.map ∙ first.map }

-- A publisher that a webhook has to authorize and that no answer grants, whatever it sends, in any order
-- of its worker's calls and of other threads' kicks, stays unauthorized and changes nothing of any
-- stream: not a ring is made and not a byte is stored.
pub turns-closed :
    (w : World) (v : Vetter) (timecode_sei : Bool) (s : Session) (ts : List Turn)
    → s.role.auth.http_passed ≡ false
    → AreDenied ts
    → ((turns w v timecode_sei s ts).role.auth.http_passed ≡ false)
      × ((turns w v timecode_sei s ts).map ≡ s.map)
turns-closed w v timecode_sei s ts e denied =
    let kept =
      turns-IsKept w v timecode_sei s.role.auth.http_auth_deadline_ms s ts
        (record { closed_gate = e; bounded = inr refl }) denied in
    (kept.waiting.closed_gate, kept.map)

first : ℤ × Role → ℤ
first d = d.0

second : ℤ × Role → Role
second d = d.1

error≢ok : (r r' : Role) → ◌≢◌ {A = ℤ × Role} (sls_error, r) (sls_ok, r')
unfolding first
error≢ok r r' e = cc (ap first e)

dispatched-IsWaiting :
    (w : World) (now : ℕ) (r r' : Role) (a : Auth) (url : Option (List ℕ))
    → a.http_passed ≡ false
    → dispatched w now r a url ≡ (sls_ok, r')
    → IsWaiting (now + authorization_ms) r'
unfolding second
dispatched-IsWaiting w now r r' a none e d = absurd (error≢ok _ r' d)
dispatched-IsWaiting w now r r' a (some url) e d = elim (Bool-cases (w.dispatches url)) [
  | inl sent ↦
      subst (IsWaiting (now + authorization_ms)) (ap second (rw sent at d))
        (record { closed_gate = e; bounded = inr refl })
  | inr lost ↦ absurd (error≢ok _ r' (rw lost at d))
]

informed-passed :
    (w : World) (s : Option ℕ) (a : Auth)
    → a.http_passed ≡ false
    → (read_sid w s (ask_peer w s a)).http_passed ≡ false
informed-passed w none a e = e
informed-passed w (some s) a e = ground (arith, told-passed (w.peer_of s) a e)
  where
    told-passed :
        (o : Option (List ℕ × ℕ)) (a : Auth)
        → a.http_passed ≡ false
        → (told o a).http_passed ≡ false
    told-passed none a e = e
    told-passed (some (ip, port)) a e = e

on_connect-IsWaiting :
    (w : World) (now : ℕ) (r r' : Role)
    → r.auth.http_passed ≡ false
    → is_empty r.auth.http_url ≡ false
    → on_connect w now r ≡ (sls_ok, r')
    → IsWaiting (now + authorization_ms) r'
unfolding on_connect
on_connect-IsWaiting w now r r' e url d =
    dispatched-IsWaiting w now (record r { calls = inquired r }) r' (informed w r) _
      (informed-passed w r.srt r.auth e) (sym (if-false (is_empty r.auth.http_url) _ _ url) ∙ d)

-- A connection that `on_connect` put to the webhook and that no answer grants has no socket any more
-- once its worker ticks four seconds later or more, whatever calls came in between.
pub on_connect-expires :
    (w : World) (v : Vetter) (timecode_sei : Bool) (s : Session) (r r' : Role) (ts : List Turn)
    (start now now_s : ℕ) (answer : Option Response)
    → r.auth.http_passed ≡ false
    → is_empty r.auth.http_url ≡ false
    → on_connect w start r ≡ (sls_ok, r')
    → s.role ≡ r'
    → AreDenied ts
    → IsDenied answer
    → start + 4000 ≤ now
    → (turn w v timecode_sei (turns w v timecode_sei s ts) (ticks now now_s answer)).role.srt ≡ none
unfolding turn
on_connect-expires w v timecode_sei s r r' ts start now now_s answer e url d same denied last late =
    let waiting =
      subst (IsWaiting (start + authorization_ms)) (sym same)
        (on_connect-IsWaiting w start r r' e url d) in
    let kept =
      (turns-IsKept w v timecode_sei (start + authorization_ms) s ts waiting denied).waiting in
    let s' = turns w v timecode_sei s ts in
    let held =
      check_http_passed-IsHeld w v (start + authorization_ms) now now_s s'.role s'.cache kept answer
        last in
    let ticked =
      on_worker_tick-unauthorized w v now now_s answer s'.role s'.cache kept.closed_gate in
    rw ticked (held.expired (omega arith) late).no_socket
