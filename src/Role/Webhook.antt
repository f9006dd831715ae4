-- ===== src/Role/Webhook.antt =====
-- The webhook of src/core/SLSRole.cpp that authorizes a role: the request, its deadline, its answer and
-- the push destinations that come with it.
use irl_srt_server.Prelude.{
  ℕ, ◌+◌, Bool, true, false, ◌&&◌, ◌||◌, not, Option, none, some, List, [], ◌∷◌, ◌++◌, take, length,
  ltb, leb, ◌==◌, if◌then◌else◌,
}
use irl_srt_server.Prelude.Int.{ℤ, pos, negsuc, ltb_ℤ, leb_ℤ, sls_ok, sls_error}
use irl_srt_server.AuthRejectCache.{Cache, record_failure}
use irl_srt_server.Sid.{canonical_sid_key}
use irl_srt_server.PushUrl
use irl_srt_server.PushUrl.{Reject, Net, AppConf, validate_push_url}
use irl_srt_server.PushUrl.Address.{Addr}
use irl_srt_server.Relay.Url.{fits}
use irl_srt_server.Role.{
  Role, Auth, Conf, World, posts, is_empty, informed, inquired, sid_calls, read_sid, event_url,
  codes, mark_invalid, invalid_srt,
}

-- `AsyncHttpResponse`
pub record Response : Type 0 where
  pub success : Bool
  pub status_code : ℤ
  pub body : List ℕ

-- What the JSON library makes of a body: it throws, there is no array of push targets, or its entries,
-- of which only an object with a text as its url counts.
pub data Payload : Type 0 where
  malformed : Payload
  no_targets : Payload
  targets : List (Option (List ℕ)) → Payload

-- The code around the check: what `validate_push_url` goes by, and the JSON library.
pub record Vetter : Type 0 where
  pub net : Net
  pub timeout_ms : ℕ
  pub self_addrs : List (List ℕ)
  pub parse : List ℕ → Payload

unfoldable pub set_http_url : Role → List ℕ → Role
set_http_url r [] = r
set_http_url r (c ∷ url) = record r {
  auth = record r.auth {
    http_url = take 2047 (c ∷ url);
    http_passed = false;
    http_auth_deadline_ms = 0;
  };
}

-- kHttpAuthorizationDeadlineMs
abbrev pub authorization_ms : ℕ
authorization_ms = 4000

abbrev pub dispatched : World → ℕ → Role → Auth → Option (List ℕ) → ℤ × Role
dispatched w now r a none = (sls_error, record r { auth = a })
dispatched w now r a (some url) =
    if w.dispatches url
    then (
      sls_ok,
      record r {
        auth = record a { http_future = true; http_auth_deadline_ms = now + authorization_ms };
        calls = posts url ∷ r.calls;
      },
    )
    else (sls_error, record r { auth = a })

unfoldable pub on_connect : World → ℕ → Role → ℤ × Role
on_connect w now r =
    if is_empty r.auth.http_url
    then (sls_ok, r)
    else dispatched w now (record r { calls = inquired r }) (informed w r)
        (fits 2048 (event_url (codes "on_connect") r.role_name (informed w r)))

pub record Checked : Type 0 where
  pub ret : ℤ
  pub role : Role
  pub cache : Option Cache

abbrev pub is_rejection : ℤ → Bool
is_rejection (pos n) = n == 401 || n == 403
is_rejection (negsuc n) = false

abbrev pub is_200 : ℤ → Bool
is_200 (pos n) = n == 200
is_200 (negsuc n) = false

abbrev pub is_granted : Response → Bool
is_granted resp = resp.success && is_200 resp.status_code

-- The refusal. `now_s` is the clock of the cache.
abbrev pub refuse : World → ℕ → Response → Role → Option Cache → Checked
refuse w now_s resp r none = record { ret = sls_error; role = invalid_srt w r; cache = none }
refuse w now_s resp r (some c) =
    if resp.success && is_rejection resp.status_code
    then (let a = read_sid w r.srt r.auth in
        record {
          ret = sls_error;
          role = invalid_srt w (record r { auth = a; calls = sid_calls r.srt r.auth r.calls });
          cache = some (record_failure c (canonical_sid_key a.streamid) now_s);
        })
    else record { ret = sls_error; role = invalid_srt w r; cache = some c }

-- An accepted destination always has its address: `validate_push_url` hands out the first one.
abbrev pub address : Option Addr → List Addr
address none = []
address (some a) = a ∷ []

abbrev pub add_target : Reject × Option Addr → List ℕ → ℕ → Auth → ℕ × Auth
add_target (PushUrl.ok, a) url kept auth = (
  kept + 1,
  record auth {
    push_urls = auth.push_urls ++ url ∷ [];
    push_vetted_addrs = auth.push_vetted_addrs ++ address a;
  },
)
add_target (_, a) url kept auth = (kept, auth)

-- The loop over the entries, with the number that was kept so far.
unfoldable pub keep_targets : Vetter → Conf → List (Option (List ℕ)) → ℕ → Auth → Auth
keep_targets v conf [] kept auth = auth
keep_targets v conf (none ∷ entries) kept auth = keep_targets v conf entries kept auth
keep_targets v conf (some url ∷ entries) kept auth =
    let (kept', auth') =
      add_target (validate_push_url v.net v.timeout_ms conf.push v.self_addrs true url) url kept
        auth in
    let full = leb_ℤ conf.push_destination_max (pos kept) in
    keep_targets v conf entries (if full then kept else kept') (if full then auth else auth')

abbrev pub keep_payload : Vetter → Conf → Payload → Auth → Auth
keep_payload v conf malformed auth = auth
keep_payload v conf no_targets auth = auth
keep_payload v conf (targets entries) auth = keep_targets v conf entries 0 auth

abbrev pub is_object : List ℕ → Bool
is_object [] = false
is_object (c ∷ body) = c == 123

abbrev pub read_targets : Vetter → Response → Option Conf → Auth → Auth
read_targets v resp none auth = auth
read_targets v resp (some conf) auth =
    if is_object resp.body && ltb_ℤ (pos 0) conf.push_destination_max
    then keep_payload v conf (v.parse resp.body) auth
    else auth

abbrev pub grant : Vetter → ℕ → Response → Role → Role
grant v now resp r = record r {
  invalid_begin_tm = now;
  auth = read_targets v resp r.conf (record r.auth { http_passed = true });
}

-- The report of the destinations names the stream, whose id the role asks for where it has none yet.
-- `before` is the number of destinations before.
abbrev pub announce : World → ℕ → Role → Role
announce w before r =
    if ltb before (length r.auth.push_urls)
    then record r { auth = read_sid w r.srt r.auth; calls = sid_calls r.srt r.auth r.calls }
    else r

-- The request is over.
abbrev pub settled : Auth → Auth
settled a = record a { http_future = false; http_auth_deadline_ms = 0 }

abbrev pub answered : World → Vetter → ℕ → ℕ → Role → Option Cache → Option Response → Checked
answered w v now now_s r cache none = record { ret = sls_error; role = r; cache = cache }
answered w v now now_s r cache (some resp) =
    if is_granted resp
    then record {
      ret = sls_ok;
      role =
          announce w (length r.auth.push_urls)
            (grant v now resp (record r { auth = settled r.auth }));
      cache = cache;
    }
    else refuse w now_s resp (record r { auth = settled r.auth }) cache

-- `answer` is what the request has yielded so far.
unfoldable pub check_http_passed :
    World → Vetter → ℕ → ℕ → Option Response → Role → Option Cache → Checked
check_http_passed w v now now_s answer r cache =
    if r.auth.http_passed
    then record { ret = sls_ok; role = r; cache = cache }
    else if ltb 0 r.auth.http_auth_deadline_ms && leb r.auth.http_auth_deadline_ms now
    then record {
      ret = sls_error;
      role = mark_invalid w (record r { auth = settled r.auth });
      cache = cache;
    }
    else if not r.auth.http_future
    then record {
      ret = sls_error;
      role = mark_invalid w (record r { auth = record r.auth { http_auth_deadline_ms = 0 } });
      cache = cache;
    }
    else answered w v now now_s r cache answer
