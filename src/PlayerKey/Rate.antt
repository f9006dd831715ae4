-- ===== src/PlayerKey/Rate.antt =====
-- The limit on webhook requests by address in src/core/SLSListenerAuth.cpp: how many requests an address has.
use irl_srt_server.Prelude.{
  ℕ, ◌+◌, ◌*◌, ◌≤◌, ◌≡◌, refl, sym, ap, ◌∙◌, ◌⊎◌, Bool, true, false, ◌&&◌, ◌||◌, not, Option, none,
  some, List, [], ◌∷◌, ◌++◌, max, arith, leb, ltb, length, length-append, Bool-cases, inl, inr,
  if◌then◌else◌,
}
use irl_srt_server.Prelude.Int.{ℤ, pos, negsuc, pos_part, leb_ℤ}
use irl_srt_server.Prelude.Keyed.{Key, Keyed, find, erase, is_some, same_key, find-assign_same}
use irl_srt_server.Role.{is_empty}
use irl_srt_server.PlayerKey.{Listener, ms, max_rate_limit_entries, max_pending_validations}
use irl_srt_server.PlayerKey.Limit.{
  trim, trim_all, cleanup_expired_rate_limits, is_minus_one, limited, is_rate_limited, note_request,
  noted, update_rate_limit,
}
use irl_srt_server.PlayerKey.Validation
use irl_srt_server.PlayerKey.Validation.{
  Verdict, Clock, request_url, validate_player_key, process_ready, drain_player_key_validations,
}
use irl_srt_server.PlayerKey.Entries.{All, All-find, All-place, All-assign}

abbrev pub Few : ℤ → Key → List ℕ → Type 0
Few z ip times = length times ≤ max 1 (pos_part z)

-- With this limit, no address has more requests than the limit, or than one where the limit is less.
pub record IsLimited (z : ℤ) (l : Listener) : Type 0 where
  pub limit : l.rate_limit_requests ≡ z
  pub few : All (Few z) l.rate_limit_map

length-trim : (now window : ℕ) (times : List ℕ) → length (trim now window times) ≤ length times
unfolding trim
length-trim now window [] = omega arith
length-trim now window (t ∷ times) = ground (arith, length-trim now window times)

All-trim_all :
    (z : ℤ) (now window : ℕ) (m : Keyed (List ℕ))
    → All (Few z) m
    → All (Few z) (trim_all now window m)
unfolding trim_all
All-trim_all z now window [] h = tt
All-trim_all z now window ((ip, times) ∷ m) (f, h) =
    elim (Bool-cases (is_empty (trim now window times))) [
      | inl e ↦ rw e (All-trim_all z now window m h)
      | inr e ↦ rw e (omega (arith, f, length-trim now window times), All-trim_all z now window m h)
    ]

find-trim_all :
    (k : Key) (now window : ℕ) (m : Keyed (List ℕ))
    → find k m ≡ none
    → find k (trim_all now window m) ≡ none
unfolding trim_all find
find-trim_all k now window [] e = refl
find-trim_all k now window ((ip, times) ∷ m) e = elim (Bool-cases (same_key k ip)) [
  | inl same ↦ absurd (found (rw same at e))
  | inr other ↦
      let absent : find k m ≡ none = rw other at e in
      elim (Bool-cases (is_empty (trim now window times))) [
        | inl gone ↦ rw gone (find-trim_all k now window m absent)
        | inr kept ↦ rw (kept, other) (find-trim_all k now window m absent)
      ]
]
  where
    found : some times ≡ none → ⊥
    found e = cc e

-- There is room for one more request of an address.
pub data HasRoom (z : ℤ) (ip : Key) (m : Keyed (List ℕ)) : Type 0 where
  fresh : find ip m ≡ none → HasRoom z ip m
  less :
      (times : List ℕ)
      → find ip m ≡ some times
      → length times + 1 ≤ max 1 (pos_part z)
      → HasRoom z ip m

note_request-Few :
    (z : ℤ) (now : ℕ) (ip : Key) (m : Keyed (List ℕ))
    → HasRoom z ip m
    → All (Few z) m
    → All (Few z) (note_request now ip m (find ip m))
note_request-Few z now ip m (fresh e) h = rw e (All-place (Few z) ip (now ∷ []) m (omega arith) h)
note_request-Few z now ip m (less times e room) h = rw e (
    All-assign (Few z) ip (times ++ now ∷ []) m
      (omega (arith, length-append times (now ∷ []), room)) h)

absent_key : (o : Option (List ℕ)) (b : Bool) → (not (is_some o) && b) ≡ true → o ≡ none
unfolding is_some
absent_key none b e = refl
absent_key (some times) b e = absurd cc

noted-Few :
    (z : ℤ) (now window : ℕ) (ip : Key) (m : Keyed (List ℕ))
    → HasRoom z ip m
    → All (Few z) m
    → All (Few z) (noted now window ip m)
unfolding noted
noted-Few z now window ip m room h =
    let swept = trim_all now (ms (window * 2)) m in
    let kept = All-trim_all z now (ms (window * 2)) m h in
    elim (Bool-cases (not (is_some (find ip m)) && leb max_rate_limit_entries (length m))) [
      | inr small ↦ rw small (note_request-Few z now ip m room h)
      | inl full ↦ elim (Bool-cases (leb max_rate_limit_entries (length swept))) [
        | inl still ↦ rw (full, still) kept
        | inr fits ↦
            rw (full, fits)
              (note_request-Few z now ip swept
                (fresh (find-trim_all ip now (ms (window * 2)) m (absent_key (find ip m) _ full)))
                kept)
      ]
    ]

pub if-IsLimited :
    (z : ℤ) (b : Bool) (x y : Listener)
    → IsLimited z x
    → IsLimited z y
    → IsLimited z (if b then x else y)
if-IsLimited z true x y f g = f
if-IsLimited z false x y f g = g

cleanup-IsLimited :
    (z : ℤ) (l : Listener) (now : ℕ)
    → IsLimited z l
    → IsLimited z (cleanup_expired_rate_limits l now)
unfolding cleanup_expired_rate_limits
cleanup-IsLimited z l now h =
    if-IsLimited z (ltb now (l.last_rate_limit_cleanup + ms 1000)) l
      (record l {
        rate_limit_map = trim_all now (ms (l.rate_limit_window * 2)) l.rate_limit_map;
        last_rate_limit_cleanup = now;
      })
      h
      (record {
        limit = h.limit;
        few = All-trim_all z now (ms (l.rate_limit_window * 2)) l.rate_limit_map h.few;
      })

-- Whether an address counts at all.
abbrev pub is_exempt : Listener → List ℕ → Bool
is_exempt l ip = is_minus_one l.rate_limit_requests || is_empty ip

-- Where the limit lets an address on, there is room for a request.
pub record IsPassed (z : ℤ) (ip : Key) (d : Bool × Listener) : Type 0 where
  pub limited : IsLimited z d.1
  pub room : d.0 ≡ false → (is_exempt d.1 ip ≡ true) ⊎ HasRoom z ip d.1.rate_limit_map

limited-IsPassed :
    (z : ℤ) (l : Listener) (now : ℕ) (ip : Key) (o : Option (List ℕ))
    → find ip l.rate_limit_map ≡ o
    → IsLimited z l
    → IsPassed z ip (limited l now ip o)
limited-IsPassed z l now ip none e h = record { limited = h; room = λ _. inr (fresh e) }
limited-IsPassed z l now ip (some times) e h =
    let kept = trim now (ms l.rate_limit_window) times in
    let fewer = length-trim now (ms l.rate_limit_window) times in
    let before = All-find (Few z) ip times l.rate_limit_map e h.few in
    record {
      limited = record {
        limit = h.limit;
        few = All-assign (Few z) ip kept l.rate_limit_map (omega (arith, fewer, before)) h.few;
      };
      room = λ under. inr (
          less kept (find-assign_same ip kept l.rate_limit_map)
            (below z (length kept) (ap (λ r. leb_ℤ r (pos (length kept))) (sym h.limit) ∙ under)));
    }
  where
    below : (z : ℤ) (n : ℕ) → leb_ℤ z (pos n) ≡ false → n + 1 ≤ max 1 (pos_part z)
    below (pos k) n e = ground (arith, e)
    below (negsuc k) n e = ground (arith, e)

if-IsPassed :
    (z : ℤ) (ip : Key) (b : Bool) (x y : Bool × Listener)
    → (b ≡ true → IsPassed z ip x)
    → IsPassed z ip y
    → IsPassed z ip (if b then x else y)
if-IsPassed z ip true x y f g = f refl
if-IsPassed z ip false x y f g = g

pub is_rate_limited-IsPassed :
    (z : ℤ) (l : Listener) (now cleanup_now : ℕ) (ip : Key)
    → IsLimited z l
    → IsPassed z ip (is_rate_limited l now cleanup_now ip)
unfolding is_rate_limited
is_rate_limited-IsPassed z l now cleanup_now ip h =
    let cleaned = cleanup_expired_rate_limits l cleanup_now in
    if-IsPassed z ip (is_exempt l ip) (false, l)
      (limited cleaned now ip (find ip cleaned.rate_limit_map))
      (λ e. record { limited = h; room = λ _. inl e })
      (limited-IsPassed z cleaned now ip _ refl (cleanup-IsLimited z l cleanup_now h))

update_rate_limit-IsLimited :
    (z : ℤ) (l : Listener) (now : ℕ) (ip : Key)
    → (is_exempt l ip ≡ true) ⊎ HasRoom z ip l.rate_limit_map
    → IsLimited z l
    → IsLimited z (update_rate_limit l now ip)
unfolding update_rate_limit
update_rate_limit-IsLimited z l now ip (inl exempt) h = rw exempt h
update_rate_limit-IsLimited z l now ip (inr room) h =
    if-IsLimited z (is_exempt l ip) l
      (record l { rate_limit_map = noted now l.rate_limit_window ip l.rate_limit_map }) h
      (record {
        limit = h.limit;
        few = noted-Few z now l.rate_limit_window ip l.rate_limit_map room h.few;
      })

requested-IsLimited :
    (z : ℤ) (l : Listener) (key : Key) (o : Option (List ℕ))
    → IsLimited z l
    → IsLimited z (Validation.requested l key o)
requested-IsLimited z l key none h = h
requested-IsLimited z l key (some url) h = record { limit = h.limit; few = h.few }

pub judged-IsLimited :
    (z : ℤ) (now : ℕ) (l : Listener) (key ip : Key) (o : Option Verdict)
    → (is_exempt l ip ≡ true) ⊎ HasRoom z ip l.rate_limit_map
    → IsLimited z l
    → IsLimited z (Validation.judged now l key ip o).1
unfolding Validation.start_player_key_validation
judged-IsLimited z now l key ip (some verdict) room h = h
judged-IsLimited z now l key ip none room h =
    let l' : Listener = record l { cache = erase key l.cache } in
    let erased : IsLimited z l' = record { limit = h.limit; few = h.few } in
    if-IsLimited z (is_some (find key l.pending) || leb max_pending_validations (length l.pending))
      l' (Validation.requested (update_rate_limit l' now ip) key (request_url l.auth_url key))
      erased
      (requested-IsLimited z (update_rate_limit l' now ip) key (request_url l.auth_url key)
        (update_rate_limit-IsLimited z l' now ip room erased))
