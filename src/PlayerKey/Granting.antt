-- ===== src/PlayerKey/Granting.antt =====
-- Where the entries of the cache in src/core/SLSListenerAuth.cpp come from: what it is for the webhook to
-- grant a key, and for a cache to hold nothing else as valid.
use irl_srt_server.Prelude.{
  ℕ, ◌+◌, ◌≤◌, ◌≡◌, refl, ap, ◌⊎◌, Bool, true, false, ◌||◌, Option, some, List, [], ◌∷◌, arith, leb,
  length, Bool-cases, inl, inr, if◌then◌else◌,
}
use irl_srt_server.Prelude.Keyed.{Key, Keyed, find, assign, is_some}
use irl_srt_server.Prelude.Ordered.{place}
use irl_srt_server.Role.{is_empty}
use irl_srt_server.Role.Webhook.{Response, is_200}
use irl_srt_server.PlayerKey
use irl_srt_server.PlayerKey.{Entry, Listener, Library, Payload, Override, ms, stream_id}
use irl_srt_server.PlayerKey.Cache.{drop_expired, soonest, evict, make_room, insert_cache}
use irl_srt_server.PlayerKey.Validation.{request_url, entry_of, entry_of_payload}
use irl_srt_server.PlayerKey.Steps.{Step, validates, drains, sweeps}
use irl_srt_server.PlayerKey.Entries.{All, All-place, All-assign, All-erase, All-drop_expired}

module _ (lib : Library) (auth_url : List ℕ) (duration : ℕ) where
  -- The webhook, asked for this key, answered with this stream id, which was noted until then.
  pub record Grant (answers : List ℕ → Option Response) (now : Key → ℕ) (key : Key) (sid : List ℕ)
      (expiry : ℕ) : Type 0 where
    pub url : List ℕ
    pub resp : Response
    pub override : Override
    pub asked : request_url auth_url key ≡ some url
    pub answered : answers url ≡ some resp
    pub success : resp.success ≡ true
    pub status : is_200 resp.status_code ≡ true
    pub body : lib.parse resp.body ≡ stream_id sid override
    pub some_id : is_empty sid ≡ false
    pub short : length sid ≤ 2047
    pub until : expiry ≡ now key + ms duration

  -- One of the steps took in such an answer.
  abbrev pub WasGranted : Key → List ℕ → ℕ → List Step → Type 0
  WasGranted key sid expiry [] = ⊥
  WasGranted key sid expiry (validates clock k ip ∷ ts) = WasGranted key sid expiry ts
  WasGranted key sid expiry (sweeps now ∷ ts) = WasGranted key sid expiry ts
  WasGranted key sid expiry (drains answers now insert_now ∷ ts) =
      Grant answers now key sid expiry ⊎ WasGranted key sid expiry ts

  abbrev pub IsEarned : List Step → Key → Entry → Type 0
  IsEarned ts key e =
      e.is_valid ≡ true
      → (WasGranted key e.resolved_stream_id e.expiry_time ts)
        × (length e.resolved_stream_id ≤ 2047)

  abbrev pub IsAsked : Key → List ℕ → Type 0
  IsAsked key url = request_url auth_url key ≡ some url

  pub record IsSound (ts : List Step) (l : Listener) : Type 0 where
    pub webhook : l.auth_url ≡ auth_url
    pub lifetime : l.cache_duration ≡ duration
    pub entries : All (IsEarned ts) l.cache
    pub requests : All IsAsked l.pending

  payload-Grant :
      (l : Listener) (answers : List ℕ → Option Response) (now : Key → ℕ) (key : Key) (url : List ℕ)
      (resp : Response) (p : Payload)
      → l.cache_duration ≡ duration
      → request_url auth_url key ≡ some url
      → answers url ≡ some resp
      → resp.success ≡ true
      → is_200 resp.status_code ≡ true
      → lib.parse resp.body ≡ p
      → let e = entry_of_payload l (now key) p in
        e.is_valid ≡ true → Grant answers now key e.resolved_stream_id e.expiry_time
  payload-Grant l answers now key url resp PlayerKey.malformed d a r s c b = λ valid. absurd cc
  payload-Grant l answers now key url resp PlayerKey.no_stream_id d a r s c b = λ valid. absurd cc
  payload-Grant l answers now key url resp (stream_id sid o) d a r s c b =
      elim (Bool-cases (is_empty sid || leb 2048 (length sid))) [
        | inl bad ↦ rw bad (λ valid. absurd cc)
        | inr good ↦ rw good (λ valid. record {
          url = url;
          resp = resp;
          override = o;
          asked = a;
          answered = r;
          success = s;
          status = c;
          body = b;
          some_id = ground (arith, good);
          short = ground (arith, good);
          until = ap (λ x. now key + ms x) d;
        })
      ]

  pub entry_of-Grant :
      (l : Listener) (answers : List ℕ → Option Response) (now : Key → ℕ) (key : Key) (url : List ℕ)
      (resp : Response)
      → l.cache_duration ≡ duration
      → request_url auth_url key ≡ some url
      → answers url ≡ some resp
      → let e = entry_of lib l (now key) resp in
        e.is_valid ≡ true → Grant answers now key e.resolved_stream_id e.expiry_time
  entry_of-Grant l answers now key url resp d a r = elim (Bool-cases resp.success) [
    | inr s ↦ rw s (λ valid. absurd cc)
    | inl s ↦ elim (Bool-cases (is_200 resp.status_code)) [
      | inr c ↦ rw (s, c) (λ valid. absurd cc)
      | inl c ↦
          rw (s, c) (payload-Grant l answers now key url resp (lib.parse resp.body) d a r s c refl)
    ]
  ]

All-evict : (P : Key → Entry → Type 0) (m : Keyed Entry) → All P m → All P (evict m)
unfolding evict
All-evict P [] h = tt
All-evict P (e ∷ m) h = All-erase P (soonest e m).0 (e ∷ m) h

if-All :
    (P : Key → Entry → Type 0) (b : Bool) (x y : Keyed Entry)
    → All P x
    → All P y
    → All P (if b then x else y)
if-All P true x y f g = f
if-All P false x y f g = g

All-make_room :
    (P : Key → Entry → Type 0) (now : ℕ) (m : Keyed Entry) → All P m → All P (make_room now m)
unfolding make_room
All-make_room P now m h =
    let swept = drop_expired now m in
    let kept = All-drop_expired P now m h in
    if-All P (leb PlayerKey.max_cache_entries (length m))
      (if leb PlayerKey.max_cache_entries (length swept) then evict swept else swept) m
      (if-All P (leb PlayerKey.max_cache_entries (length swept)) (evict swept) swept
        (All-evict P swept kept) kept)
      h

pub All-insert_cache :
    (P : Key → Entry → Type 0) (now : ℕ) (k : Key) (e : Entry) (m : Keyed Entry)
    → P k e
    → All P m
    → All P (insert_cache now k e m)
unfolding insert_cache
All-insert_cache P now k e m p h =
    if-All P (is_some (find k m)) (assign k e m) (place k e (make_room now m))
      (All-assign P k e m p h) (All-place P k e (make_room now m) p (All-make_room P now m h))
