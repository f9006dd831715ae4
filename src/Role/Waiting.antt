-- ===== src/Role/Waiting.antt =====
-- A role of src/core/SLSRole.cpp that the webhook has not let in: what its check makes of it.
use irl_srt_server.Prelude.{
  ℕ, ◌≤◌, ◌<◌, ◌≡◌, refl, ◌⊎◌, Bool-cases, inl, inr, Bool, true, false, ◌&&◌, ◌||◌, not, Option,
  none, some, List, [], ◌∷◌, ltb, leb, if◌then◌else◌, arith,
}
use irl_srt_server.Prelude.Int.{sls_error}
use irl_srt_server.AuthRejectCache.{Cache}
use irl_srt_server.Role.{
  Role, Auth, World, on_close, invalid_from, invalid_srt, mark_invalid, read_sid, is_empty,
}
use irl_srt_server.Role.Webhook.{
  Vetter, Response, Checked, is_granted, is_rejection, settled, refuse, answered, check_http_passed,
}
use irl_srt_server.Role.Session.{Turn, handles, ticks, polls, kicks, measures}

-- The webhook has not said yes.
abbrev pub IsDenied : Option Response → Type 0
IsDenied none = Unit
IsDenied (some resp) = is_granted resp ≡ false

abbrev pub AreDenied : List Turn → Type 0
AreDenied [] = Unit
AreDenied (handles now now_s read_now answer arrival ∷ ts) = IsDenied answer × AreDenied ts
AreDenied (ticks now now_s answer ∷ ts) = IsDenied answer × AreDenied ts
AreDenied (polls now st ∷ ts) = AreDenied ts
AreDenied (kicks ∷ ts) = AreDenied ts
AreDenied (measures ∷ ts) = AreDenied ts

-- Not authorized, and without a socket or with this deadline.
pub record IsWaiting (deadline : ℕ) (r : Role) : Type 0 where
  pub closed_gate : r.auth.http_passed ≡ false
  pub bounded : (r.srt ≡ none) ⊎ (r.auth.http_auth_deadline_ms ≡ deadline)

-- Not authorized, and without a socket.
pub record IsShut (r : Role) : Type 0 where
  pub closed_gate : r.auth.http_passed ≡ false
  pub no_socket : r.srt ≡ none

pub IsShut-IsWaiting : (deadline : ℕ) (r : Role) → IsShut r → IsWaiting deadline r
IsShut-IsWaiting deadline r h = record { closed_gate = h.closed_gate; bounded = inl h.no_socket }

first-IsShut :
    (passed silent : Bool) (r r' : Role)
    → passed ≡ false
    → IsShut r
    → IsShut (if not passed || silent then r else r')
first-IsShut false silent r r' e h = h
first-IsShut true silent r r' e h = absurd cc

on_close-IsShut :
    (w : World) (r : Role) → r.auth.http_passed ≡ false → r.srt ≡ none → IsShut (on_close w r)
unfolding on_close
on_close-IsShut w r e es =
    first-IsShut r.auth.http_passed (is_empty r.auth.http_url) r _ e
      (record { closed_gate = e; no_socket = es })

invalid_from-IsShut :
    (w : World) (r : Role) (s : Option ℕ)
    → r.srt ≡ s
    → r.auth.http_passed ≡ false
    → IsShut (invalid_from w r s)
invalid_from-IsShut w r none es e = record { closed_gate = e; no_socket = es }
invalid_from-IsShut w r (some s) es e = on_close-IsShut w _ e refl

invalid_srt-IsShut : (w : World) (r : Role) → r.auth.http_passed ≡ false → IsShut (invalid_srt w r)
unfolding invalid_srt
invalid_srt-IsShut w r e = invalid_from-IsShut w r r.srt refl e

if-IsShut :
    (b : Bool) (x y : Role) → IsShut x → (b ≡ false → IsShut y) → IsShut (if b then x else y)
if-IsShut true x y f g = f
if-IsShut false x y f g = g refl

refuse-IsShut :
    (w : World) (now_s : ℕ) (resp : Response) (r : Role) (cache : Option Cache)
    → r.auth.http_passed ≡ false
    → IsShut (refuse w now_s resp r cache).role
refuse-IsShut w now_s resp r none e = invalid_srt-IsShut w r e
refuse-IsShut w now_s resp r (some c) e =
    elim (Bool-cases (resp.success && is_rejection resp.status_code)) [
      | inl yes_cached ↦ rw yes_cached (invalid_srt-IsShut w _ (read_sid-passed w r.srt r.auth e))
      | inr no_cache ↦ rw no_cache (invalid_srt-IsShut w r e)
    ]
  where
    read_sid-passed :
        (w : World) (s : Option ℕ) (a : Auth)
        → a.http_passed ≡ false
        → (read_sid w s a).http_passed ≡ false
    read_sid-passed w none a e = e
    read_sid-passed w (some s) a e = ground (arith, e)

refuse-ret :
    (w : World) (now_s : ℕ) (resp : Response) (r : Role) (cache : Option Cache)
    → (refuse w now_s resp r cache).ret ≡ sls_error
refuse-ret w now_s resp r none = refl
refuse-ret w now_s resp r (some c) = ground arith

-- A check that is not answered by a yes lets nothing in; at the deadline it closes the socket.
pub record IsHeld (deadline now : ℕ) (c : Checked) : Type 0 where
  pub ret : c.ret ≡ sls_error
  pub waiting : IsWaiting deadline c.role
  pub expired : 0 < deadline → deadline ≤ now → IsShut c.role

shut-IsHeld :
    (deadline now : ℕ) (c : Checked) → c.ret ≡ sls_error → IsShut c.role → IsHeld deadline now c
shut-IsHeld deadline now c e h = record {
  ret = e;
  waiting = IsShut-IsWaiting deadline c.role h;
  expired = λ _ _. h;
}

if-IsHeld :
    (deadline now : ℕ) (b : Bool) (x y : Checked)
    → IsHeld deadline now x
    → (b ≡ false → IsHeld deadline now y)
    → IsHeld deadline now (if b then x else y)
if-IsHeld deadline now true x y f g = f
if-IsHeld deadline now false x y f g = g refl

passed-IsHeld :
    (deadline now : ℕ) (b : Bool) (x y : Checked)
    → b ≡ false
    → IsHeld deadline now y
    → IsHeld deadline now (if b then x else y)
passed-IsHeld deadline now false x y e h = h
passed-IsHeld deadline now true x y e h = absurd cc

module _ (w : World) (v : Vetter) (deadline now now_s : ℕ) (r : Role) (cache : Option Cache)
    (waiting : IsWaiting deadline r) where
  pub mark_invalid-IsShut : (r' : Role) → r'.auth.http_passed ≡ false → IsShut (mark_invalid w r')
  unfolding mark_invalid
  mark_invalid-IsShut r' e = invalid_srt-IsShut w _ e

  answered-IsHeld :
      (answer : Option Response)
      → IsDenied answer
      → (0 < deadline → deadline ≤ now → IsShut r)
      → IsHeld deadline now (answered w v now now_s r cache answer)
  answered-IsHeld none denied late = record { ret = refl; waiting = waiting; expired = late }
  answered-IsHeld (some resp) denied late = rw denied (
      shut-IsHeld deadline now (refuse w now_s resp (record r { auth = settled r.auth }) cache)
        (refuse-ret w now_s resp (record r { auth = settled r.auth }) cache)
        (refuse-IsShut w now_s resp (record r { auth = settled r.auth }) cache waiting.closed_gate))

  pub check_http_passed-IsHeld :
      (answer : Option Response)
      → IsDenied answer
      → IsHeld deadline now (check_http_passed w v now now_s answer r cache)
  unfolding check_http_passed
  check_http_passed-IsHeld answer denied =
      passed-IsHeld deadline now r.auth.http_passed _ _ waiting.closed_gate (
        if-IsHeld deadline now _ _ _
          (shut-IsHeld deadline now _ refl (mark_invalid-IsShut _ waiting.closed_gate))
          (λ early.
            if-IsHeld deadline now (not r.auth.http_future) _ _
              (shut-IsHeld deadline now _ refl (mark_invalid-IsShut _ waiting.closed_gate))
              (λ _. answered-IsHeld answer denied (late early waiting.bounded))))
    where
      late :
          (ltb 0 r.auth.http_auth_deadline_ms && leb r.auth.http_auth_deadline_ms now) ≡ false
          → (r.srt ≡ none) ⊎ (r.auth.http_auth_deadline_ms ≡ deadline)
          → 0 < deadline
          → deadline ≤ now
          → IsShut r
      late early (inl no_socket) p l = record {
        closed_gate = waiting.closed_gate;
        no_socket = no_socket;
      }
      late early (inr same) p l = absurd (ground (arith, early, same, p, l))
