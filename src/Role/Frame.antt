-- ===== src/Role/Frame.antt =====
-- What the end of a socket and the check of the webhook leave alone in a role (src/core/SLSRole.cpp).
use irl_srt_server.Prelude.{
  ℕ, ◌≡◌, refl, Bool, true, false, ◌&&◌, ◌||◌, not, Option, none, some, List, [], if◌then◌else◌,
  ◌∷◌, Bool-cases, inl, inr, arith, ◌∙◌, ltb, length,
}
use irl_srt_server.AuthRejectCache.{Cache}
use irl_srt_server.Prelude.Int.{pos, leb_ℤ}
use irl_srt_server.PushUrl
use irl_srt_server.PushUrl.{Reject, validate_push_url}
use irl_srt_server.PushUrl.Address.{Addr}
use irl_srt_server.Role.{
  Role, invalid, Auth, Conf, World, is_empty, closing, on_close, invalid_from, invalid_srt,
  mark_invalid, informed, inquired, Call, told, ask_peer, read_sid, closes, unsubscribes,
}
use irl_srt_server.Role.Webhook.{
  Vetter, Response, Checked, Payload, malformed, no_targets, targets, settled, is_granted, grant,
  announce, is_rejection, refuse, answered, add_target, keep_targets, keep_payload, read_targets,
  check_http_passed,
}

pub record Frame (r r' : Role) : Type 0 where
  pub egress : r'.egress ≡ r.egress
  pub map_data_key : r'.map_data_key ≡ r.map_data_key
  pub has_map_data : r'.has_map_data ≡ r.has_map_data
  pub ring_added : r'.ring_added ≡ r.ring_added
  pub http_url : r'.auth.http_url ≡ r.auth.http_url

abbrev Frame-refl : (r : Role) → Frame r r
Frame-refl r = record {
  egress = refl;
  map_data_key = refl;
  has_map_data = refl;
  ring_added = refl;
  http_url = refl;
}

told-http_url : (o : Option (List ℕ × ℕ)) (a : Auth) → (told o a).http_url ≡ a.http_url
told-http_url none a = refl
told-http_url (some (ip, port)) a = refl

informed-http_url :
    (w : World) (s : Option ℕ) (a : Auth) → (read_sid w s (ask_peer w s a)).http_url ≡ a.http_url
informed-http_url w none a = refl
informed-http_url w (some s) a = ground (arith, told-http_url (w.peer_of s) a)

closing-Frame :
    (r : Role) (calls : List Call) (a : Auth) (url : Option (List ℕ))
    → a.http_url ≡ r.auth.http_url
    → Frame r (closing (record r { calls = calls }) a url)
closing-Frame r calls a none e = record {
  egress = refl;
  map_data_key = refl;
  has_map_data = refl;
  ring_added = refl;
  http_url = e;
}
closing-Frame r calls a (some url) e = record {
  egress = refl;
  map_data_key = refl;
  has_map_data = refl;
  ring_added = refl;
  http_url = e;
}

on_close-Frame : (w : World) (r : Role) → Frame r (on_close w r)
unfolding on_close
on_close-Frame w r = elim (Bool-cases (not r.auth.http_passed || is_empty r.auth.http_url)) [
  | inl silent ↦ rw silent (Frame-refl r)
  | inr told ↦
      rw told (closing-Frame r (inquired r) (informed w r) _ (informed-http_url w r.srt r.auth))
]

invalid_from-Frame : (w : World) (r : Role) (s : Option ℕ) → Frame r (invalid_from w r s)
invalid_from-Frame w r none = Frame-refl r
invalid_from-Frame w r (some s) =
    let f = on_close-Frame w (record r {
      srt = none;
      snapshot_closed = true;
      calls = closes s ∷ unsubscribes s ∷ r.calls;
    }) in
    record {
      egress = f.egress;
      map_data_key = f.map_data_key;
      has_map_data = f.has_map_data;
      ring_added = f.ring_added;
      http_url = f.http_url;
    }

pub invalid_srt-Frame : (w : World) (r : Role) → Frame r (invalid_srt w r)
unfolding invalid_srt
invalid_srt-Frame w r = invalid_from-Frame w r r.srt

-- For a role whose state or whose request was reset before.
reset-Frame : (w : World) (r r' : Role) → Frame r r' → Frame r (invalid_srt w r')
reset-Frame w r r' e = record {
  egress = (invalid_srt-Frame w r').egress ∙ e.egress;
  map_data_key = (invalid_srt-Frame w r').map_data_key ∙ e.map_data_key;
  has_map_data = (invalid_srt-Frame w r').has_map_data ∙ e.has_map_data;
  ring_added = (invalid_srt-Frame w r').ring_added ∙ e.ring_added;
  http_url = (invalid_srt-Frame w r').http_url ∙ e.http_url;
}

with_auth-Frame :
    (r r' : Role) (a : Auth) (calls : List Call)
    → Frame r r'
    → a.http_url ≡ r'.auth.http_url
    → Frame r (record r' { auth = a; calls = calls })
with_auth-Frame r r' a calls f e = record {
  egress = f.egress;
  map_data_key = f.map_data_key;
  has_map_data = f.has_map_data;
  ring_added = f.ring_added;
  http_url = e ∙ f.http_url;
}

read_sid-http_url : (w : World) (s : Option ℕ) (a : Auth) → (read_sid w s a).http_url ≡ a.http_url
read_sid-http_url w none a = refl
read_sid-http_url w (some s) a = ground arith

refuse-Frame :
    (w : World) (now_s : ℕ) (resp : Response) (r r' : Role) (cache : Option Cache)
    → Frame r r'
    → Frame r (refuse w now_s resp r' cache).role
refuse-Frame w now_s resp r r' none e = reset-Frame w r r' e
refuse-Frame w now_s resp r r' (some c) e =
    elim (Bool-cases (resp.success && is_rejection resp.status_code)) [
      | inl yes_cached ↦
          rw yes_cached
            (reset-Frame w r _ (with_auth-Frame r r' _ _ e (read_sid-http_url w r'.srt r'.auth)))
      | inr no_cache ↦ rw no_cache (reset-Frame w r r' e)
    ]

add_target-http_url :
    (verdict : Reject × Option Addr) (url : List ℕ) (kept : ℕ) (a : Auth)
    → (add_target verdict url kept a).1.http_url ≡ a.http_url
add_target-http_url (PushUrl.ok, x) url kept a = refl
add_target-http_url (PushUrl.too_long, x) url kept a = refl
add_target-http_url (_, x) url kept a = refl

if-http_url :
    (b : Bool) (a x : Auth) → x.http_url ≡ a.http_url → (if b then a else x).http_url ≡ a.http_url
if-http_url true a x e = refl
if-http_url false a x e = e

keep_targets-http_url :
    (v : Vetter) (conf : Conf) (entries : List (Option (List ℕ))) (kept : ℕ) (a : Auth)
    → (keep_targets v conf entries kept a).http_url ≡ a.http_url
unfolding keep_targets
keep_targets-http_url v conf [] kept a = refl
keep_targets-http_url v conf (none ∷ entries) kept a = keep_targets-http_url v conf entries kept a
keep_targets-http_url v conf (some url ∷ entries) kept a =
    keep_targets-http_url v conf entries _ _
    ∙ if-http_url (leb_ℤ conf.push_destination_max (pos kept)) a _ (
        add_target-http_url (validate_push_url v.net v.timeout_ms conf.push v.self_addrs true url)
          url kept a)

keep_payload-http_url :
    (v : Vetter) (conf : Conf) (p : Payload) (a : Auth)
    → (keep_payload v conf p a).http_url ≡ a.http_url
keep_payload-http_url v conf malformed a = refl
keep_payload-http_url v conf no_targets a = refl
keep_payload-http_url v conf (targets entries) a = keep_targets-http_url v conf entries 0 a

read_targets-http_url :
    (v : Vetter) (resp : Response) (conf : Option Conf) (a : Auth)
    → (read_targets v resp conf a).http_url ≡ a.http_url
read_targets-http_url v resp none a = refl
read_targets-http_url v resp (some conf) a =
    ground (arith, keep_payload-http_url v conf (v.parse resp.body) a)

announce-Frame :
    (w : World) (before : ℕ) (r r' : Role) → Frame r r' → Frame r (announce w before r')
announce-Frame w before r r' f = elim (Bool-cases (ltb before (length r'.auth.push_urls))) [
  | inl more ↦ rw more (with_auth-Frame r r' _ _ f (read_sid-http_url w r'.srt r'.auth))
  | inr none_more ↦ rw none_more f
]

answered-Frame :
    (w : World) (v : Vetter) (now now_s : ℕ) (r : Role) (cache : Option Cache)
    (answer : Option Response)
    → Frame r (answered w v now now_s r cache answer).role
answered-Frame w v now now_s r cache none = Frame-refl r
answered-Frame w v now now_s r cache (some resp) = elim (Bool-cases (is_granted resp)) [
  | inl yes_granted ↦ rw yes_granted (
      announce-Frame w (length r.auth.push_urls) r
        (grant v now resp (record r { auth = settled r.auth }))
        (record {
          egress = refl;
          map_data_key = refl;
          has_map_data = refl;
          ring_added = refl;
          http_url =
              read_targets-http_url v resp r.conf (record (settled r.auth) { http_passed = true });
        }))
  | inr refused ↦
      rw refused
        (refuse-Frame w now_s resp r _ cache (with_auth-Frame r r _ r.calls (Frame-refl r) refl))
]

if-Frame :
    (r : Role) (b : Bool) (x y : Checked)
    → Frame r x.role
    → Frame r y.role
    → Frame r (if b then x else y).role
if-Frame r true x y f g = f
if-Frame r false x y f g = g

-- The check of the webhook leaves the stream, the ring and what is staged alone.
pub check_http_passed-Frame :
    (w : World) (v : Vetter) (now now_s : ℕ) (answer : Option Response) (r : Role)
    (cache : Option Cache)
    → Frame r (check_http_passed w v now now_s answer r cache).role
unfolding check_http_passed mark_invalid
check_http_passed-Frame w v now now_s answer r cache =
    if-Frame r r.auth.http_passed _ _ (Frame-refl r) (
      if-Frame r _ _ _ (reset-Frame w r _ (with_auth-Frame r _ _ r.calls ended refl)) (
        if-Frame r (not r.auth.http_future) _ _
          (reset-Frame w r _ (with_auth-Frame r _ _ r.calls ended refl))
          (answered-Frame w v now now_s r cache answer)))
  where
    ended : Frame r (record r { state = invalid })
    ended = record {
      egress = refl;
      map_data_key = refl;
      has_map_data = refl;
      ring_added = refl;
      http_url = refl;
    }
