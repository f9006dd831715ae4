-- ===== src/Role/Teardown.antt =====
-- The socket of a role of src/core/SLSRole.cpp: nothing is asked of it behind its close.
use irl_srt_server.Prelude.{
  ℕ, ◌≡◌, refl, ◌∙◌, Bool, true, false, ◌&&◌, ◌||◌, not, Option, none, some, List, [], ◌∷◌, length,
  ltb, leb, ◌==◌, if◌then◌else◌,
}
use irl_srt_server.Prelude.Int.{ℤ, sls_ok, sls_error}
use irl_srt_server.AuthRejectCache.{Cache}
use irl_srt_server.Role
use irl_srt_server.Role.{
  Role, Auth, World, Call, SockState, mark_invalid, get_state, uninit_role, update_egress_arming,
  reads, sends, subscribes, arms, unsubscribes, closes, posts, asks_state, asks_peer, asks_sid,
  asks_stats, sid_calls, peer_calls, state_calls, stats_calls, inquired,
}
use irl_srt_server.Role.Webhook
use irl_srt_server.Role.Webhook.{Vetter, Response, Checked, check_http_passed, answered, settled}

abbrev pub is_closed : ℕ → List Call → Bool
is_closed s [] = false
is_closed s (closes t ∷ calls) = s == t || is_closed s calls
is_closed s (_ ∷ calls) = is_closed s calls

abbrev pub IsOpen : Option ℕ → List Call → Type 0
IsOpen none calls = Unit
IsOpen (some s) calls = is_closed s calls ≡ false

-- The socket that a call is about.
abbrev pub subject : Call → Option ℕ
subject (reads s) = some s
subject (sends s d) = some s
subject (subscribes s) = some s
subject (arms s enable) = some s
subject (unsubscribes s) = some s
subject (closes s) = some s
subject (asks_state s) = some s
subject (asks_peer s) = some s
subject (asks_sid s) = some s
subject (asks_stats s) = some s
subject (posts url) = none

-- No call on a socket stands behind its close, nor does a second close; the newest call stands first.
abbrev pub IsClean : List Call → Type 0
IsClean [] = Unit
IsClean (c ∷ calls) = IsOpen (subject c) calls × IsClean calls

pub record IsTidy (r : Role) : Type 0 where
  pub clean : IsClean r.calls
  pub socket : IsOpen r.srt r.calls

pub if-IsTidy : (b : Bool) (x y : Role) → IsTidy x → IsTidy y → IsTidy (if b then x else y)
if-IsTidy true x y f g = f
if-IsTidy false x y f g = g

pair-IsTidy : (b : Bool) (x y : ℤ × Role) → IsTidy x.1 → IsTidy y.1 → IsTidy (if b then x else y).1
pair-IsTidy true x y f g = f
pair-IsTidy false x y f g = g

posted :
    (s : Option ℕ) (calls : List Call) (url : List ℕ)
    → IsOpen s calls
    → IsOpen s (posts url ∷ calls)
posted none calls url h = tt
posted (some s) calls url h = h

-- A role with the same socket and the same calls.
pub same-IsTidy : (r r' : Role) → r'.srt ≡ r.srt → r'.calls ≡ r.calls → IsTidy r → IsTidy r'
same-IsTidy r r' es ec t = record { clean = rw ec t.clean; socket = rw (es, ec) t.socket }

-- A call on the socket that is open, other than its close.
pub called-IsTidy :
    (r r' : Role) (s : ℕ) (c : Call)
    → r.srt ≡ some s
    → r'.srt ≡ some s
    → r'.calls ≡ c ∷ r.calls
    → subject c ≡ some s
    → is_closed s (c ∷ r.calls) ≡ is_closed s r.calls
    → IsTidy r
    → IsTidy r'
called-IsTidy r r' s c e e' ec es keeps t =
    let open_yet : is_closed s r.calls ≡ false = rw e at t.socket in
    record { clean = rw (ec, es) (open_yet, t.clean); socket = rw (e', ec) (keeps ∙ open_yet) }

asked-IsTidy :
    (b : Bool) (r : Role) (s : ℕ) (c : Call)
    → r.srt ≡ some s
    → subject c ≡ some s
    → is_closed s (c ∷ r.calls) ≡ is_closed s r.calls
    → IsTidy r
    → IsTidy (record r { calls = (if b then c ∷ r.calls else r.calls) })
asked-IsTidy true r s c e es keeps t = called-IsTidy r _ s c e e refl es keeps t
asked-IsTidy false r s c e es keeps t = t

sid_calls-IsTidy :
    (r : Role) (s : Option ℕ) (a : Auth)
    → r.srt ≡ s
    → IsTidy r
    → IsTidy (record r { calls = sid_calls s a r.calls })
sid_calls-IsTidy r none a e t = t
sid_calls-IsTidy r (some s) a e t = asked-IsTidy _ r s (asks_sid s) e refl refl t

peer_calls-IsTidy :
    (r : Role) (s : Option ℕ) (a : Auth)
    → r.srt ≡ s
    → IsTidy r
    → IsTidy (record r { calls = peer_calls s a r.calls })
peer_calls-IsTidy r none a e t = t
peer_calls-IsTidy r (some s) a e t = asked-IsTidy _ r s (asks_peer s) e refl refl t

inquired-IsTidy : (r : Role) → IsTidy r → IsTidy (record r { calls = inquired r })
inquired-IsTidy r t =
    sid_calls-IsTidy (record r { calls = peer_calls r.srt r.auth r.calls }) r.srt r.auth refl
      (peer_calls-IsTidy r r.srt r.auth refl t)

state_calls-IsTidy :
    (r : Role) (s : Option ℕ)
    → r.srt ≡ s
    → IsTidy r
    → IsTidy (record r { calls = state_calls s r.calls })
state_calls-IsTidy r none e t = t
state_calls-IsTidy r (some s) e t = called-IsTidy r _ s (asks_state s) e e refl refl refl t

stats_calls-IsTidy :
    (r : Role) (s : Option ℕ)
    → r.srt ≡ s
    → IsTidy r
    → IsTidy (record r { calls = stats_calls s r.calls })
stats_calls-IsTidy r none e t = t
stats_calls-IsTidy r (some s) e t = called-IsTidy r _ s (asks_stats s) e e refl refl refl t

pub get_statistics-IsTidy : (r : Role) → IsTidy r → IsTidy (Role.get_statistics r)
unfolding Role.get_statistics
get_statistics-IsTidy r t = stats_calls-IsTidy r r.srt refl t

closing-IsTidy :
    (r : Role) (a : Auth) (url : Option (List ℕ)) → IsTidy r → IsTidy (Role.closing r a url)
closing-IsTidy r a none t = same-IsTidy r _ refl refl t
closing-IsTidy r a (some url) t = record {
  clean = (tt, t.clean);
  socket = posted r.srt r.calls url t.socket;
}

on_close-IsTidy : (w : World) (r : Role) → IsTidy r → IsTidy (Role.on_close w r)
unfolding Role.on_close
on_close-IsTidy w r t = if-IsTidy _ _ _ t (closing-IsTidy _ _ _ (inquired-IsTidy r t))

invalid_from-IsTidy :
    (w : World) (r : Role) (s : Option ℕ) → r.srt ≡ s → IsTidy r → IsTidy (Role.invalid_from w r s)
invalid_from-IsTidy w r none e t = t
invalid_from-IsTidy w r (some s) e t =
    let open_yet : is_closed s r.calls ≡ false = rw e at t.socket in
    on_close-IsTidy w _ (record { clean = (open_yet, (open_yet, t.clean)); socket = tt })

pub invalid_srt-IsTidy : (w : World) (r : Role) → IsTidy r → IsTidy (Role.invalid_srt w r)
unfolding Role.invalid_srt
invalid_srt-IsTidy w r t = invalid_from-IsTidy w r r.srt refl t

pub mark_invalid-IsTidy : (w : World) (r : Role) → IsTidy r → IsTidy (Role.mark_invalid w r)
unfolding Role.mark_invalid
mark_invalid-IsTidy w r t = invalid_srt-IsTidy w _ (same-IsTidy r _ refl refl t)

dispatched-IsTidy :
    (w : World) (now : ℕ) (r : Role) (a : Auth) (url : Option (List ℕ))
    → IsTidy r
    → IsTidy (Webhook.dispatched w now r a url).1
dispatched-IsTidy w now r a none t = same-IsTidy r _ refl refl t
dispatched-IsTidy w now r a (some url) t =
    pair-IsTidy (w.dispatches url) _ _
      (record { clean = (tt, t.clean); socket = posted r.srt r.calls url t.socket })
      (same-IsTidy r _ refl refl t)

pub on_connect-IsTidy :
    (w : World) (now : ℕ) (r : Role) → IsTidy r → IsTidy (Webhook.on_connect w now r).1
unfolding Webhook.on_connect
on_connect-IsTidy w now r t =
    pair-IsTidy _ _ _ t (dispatched-IsTidy w now _ _ _ (inquired-IsTidy r t))

checked-IsTidy :
    (b : Bool) (x y : Checked) → IsTidy x.role → IsTidy y.role → IsTidy (if b then x else y).role
checked-IsTidy true x y f g = f
checked-IsTidy false x y f g = g

refuse-IsTidy :
    (w : World) (now_s : ℕ) (resp : Response) (r : Role) (cache : Option Cache)
    → IsTidy r
    → IsTidy (Webhook.refuse w now_s resp r cache).role
refuse-IsTidy w now_s resp r none t = invalid_srt-IsTidy w r t
refuse-IsTidy w now_s resp r (some c) t =
    checked-IsTidy _ _ _
      (invalid_srt-IsTidy w _ (
        same-IsTidy (record r { calls = sid_calls r.srt r.auth r.calls }) _ refl refl
          (sid_calls-IsTidy r r.srt r.auth refl t)))
      (invalid_srt-IsTidy w r t)

announce-IsTidy :
    (w : World) (before : ℕ) (r : Role) → IsTidy r → IsTidy (Webhook.announce w before r)
announce-IsTidy w before r t =
    if-IsTidy _ _ _
      (same-IsTidy (record r { calls = sid_calls r.srt r.auth r.calls }) _ refl refl
        (sid_calls-IsTidy r r.srt r.auth refl t))
      t

answered-IsTidy :
    (w : World) (v : Vetter) (now now_s : ℕ) (r : Role) (cache : Option Cache)
    (answer : Option Response)
    → IsTidy r
    → IsTidy (Webhook.answered w v now now_s r cache answer).role
answered-IsTidy w v now now_s r cache none t = t
answered-IsTidy w v now now_s r cache (some resp) t =
    let granted : Role = Webhook.grant v now resp (record r { auth = settled r.auth }) in
    let announced : Role = Webhook.announce w (length r.auth.push_urls) granted in
    checked-IsTidy (Webhook.is_granted resp)
      (record { ret = sls_ok; role = announced; cache = cache })
      (Webhook.refuse w now_s resp (record r { auth = settled r.auth }) cache)
      (announce-IsTidy w (length r.auth.push_urls) granted (same-IsTidy r granted refl refl t))
      (refuse-IsTidy w now_s resp _ cache (same-IsTidy r _ refl refl t))

pub check_http_passed-IsTidy :
    (w : World) (v : Vetter) (now now_s : ℕ) (answer : Option Response) (r : Role)
    (cache : Option Cache)
    → IsTidy r
    → IsTidy (check_http_passed w v now now_s answer r cache).role
unfolding check_http_passed
check_http_passed-IsTidy w v now now_s answer r cache t =
    let open_yet : Checked = answered w v now now_s r cache answer in
    let lost : Checked = record {
      ret = sls_error;
      role = mark_invalid w (record r { auth = record r.auth { http_auth_deadline_ms = 0 } });
      cache = cache;
    } in
    let late : Checked = record {
      ret = sls_error;
      role = mark_invalid w (record r { auth = settled r.auth });
      cache = cache;
    } in
    let lost_or_answered : IsTidy (if not r.auth.http_future then lost else open_yet).role =
      checked-IsTidy (not r.auth.http_future) lost open_yet
        (mark_invalid-IsTidy w _ (same-IsTidy r _ refl refl t))
        (answered-IsTidy w v now now_s r cache answer t) in
    checked-IsTidy r.auth.http_passed (record { ret = sls_ok; role = r; cache = cache })
      (if ltb 0 r.auth.http_auth_deadline_ms && leb r.auth.http_auth_deadline_ms now
        then late
        else if not r.auth.http_future
        then lost
        else open_yet)
      t
      (checked-IsTidy (ltb 0 r.auth.http_auth_deadline_ms && leb r.auth.http_auth_deadline_ms now)
        late (if not r.auth.http_future then lost else open_yet)
        (mark_invalid-IsTidy w _ (same-IsTidy r _ refl refl t)) lost_or_answered)

pub get_state-IsTidy :
    (w : World) (r : Role) (now : ℕ) (st : SockState) → IsTidy r → IsTidy (get_state w r now st)
unfolding get_state
get_state-IsTidy w r now st t =
    let asked = state_calls-IsTidy r r.srt refl t in
    if-IsTidy _ _ _ t (
      if-IsTidy _ _ _ (mark_invalid-IsTidy w r t)
        (if-IsTidy _ _ _ (mark_invalid-IsTidy w _ asked) asked))

pub uninit_role-IsTidy : (w : World) (r : Role) → IsTidy r → IsTidy (uninit_role w r)
unfolding uninit_role
uninit_role-IsTidy w r t =
    if-IsTidy _ _ _ (same-IsTidy r _ refl refl t)
      (invalid_srt-IsTidy w _ (same-IsTidy r _ refl refl t))

set_epoll_out-IsTidy :
    (obeys enable : Bool) (r : Role) (s : Option ℕ)
    → r.srt ≡ s
    → IsTidy r
    → IsTidy (Role.set_epoll_out obeys enable r s)
set_epoll_out-IsTidy obeys enable r none e t = t
set_epoll_out-IsTidy obeys enable r (some s) e t =
    if-IsTidy _ _ _ t (called-IsTidy r _ s (arms s enable) e e refl refl refl t)

pub update_egress_arming-IsTidy :
    (obeys : Bool) (r : Role) → IsTidy r → IsTidy (update_egress_arming obeys r)
unfolding update_egress_arming
update_egress_arming-IsTidy obeys r t =
    if-IsTidy _ _ _ (set_epoll_out-IsTidy obeys _ r r.srt refl t) t
