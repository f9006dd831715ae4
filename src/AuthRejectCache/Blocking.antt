-- ===== src/AuthRejectCache/Blocking.antt =====
-- What src/core/auth_reject_cache.cpp promises: a failure blocks its id for the time to live, the table
-- stays bounded, and a sweep changes no answer.
use irl_srt_server.Prelude.{
  ℕ, ◌+◌, ◌-◌, ◌≤◌, ◌<◌, ◌≡◌, refl, ap, ◌∙◌, true, false, Option, none, some, [], ◌∷◌, arith,
  Option-cases, inl, inr, ltb, leb, if◌then◌else◌,
}
use irl_srt_server.Prelude.Keyed.{
  Key, Keyed, IsUnique, find, assign, total, is_some, same_key, same_key→≡, same_key_refl,
  find-assign_same, find-assign_other, total-assign_new, total-assign_old, total-erase,
}
use irl_srt_server.AuthRejectCache.{
  Cache, max_entries, sweep, one, size, soonest, evict, sweep_once, make_room, record_failure,
  is_live, is_blocked, cleanup,
}

-- A recorded failure blocks its id from then until its time to live has passed, and no longer.
pub record_failure-blocks :
    (c : Cache) (b : ℕ) (id : Key) (now t : ℕ)
    → is_blocked (record_failure c (b ∷ id) now) (b ∷ id) t ≡ ltb t (now + c.ttl)
unfolding is_blocked record_failure
record_failure-blocks c b id now t =
    rw (find-assign_same (b ∷ id) (now + c.ttl) (make_room (b ∷ id) (sweep_once now c).blocked))

soonest-found : (e : Key × ℕ) (m : Keyed ℕ) → is_some (find (soonest e m).0 (e ∷ m)) ≡ true
unfolding soonest find is_some
soonest-found (k, t) [] = rw (same_key_refl k)
soonest-found (k, t) ((l, u) ∷ m) = ground (arith, soonest-found (l, u) m, soonest-found (k, t) m)

sweep-total : (now : ℕ) (m : Keyed ℕ) → total one (sweep now m) ≤ total one m
unfolding sweep total
sweep-total now [] = omega arith
sweep-total now ((k, t) ∷ m) = ground (arith, sweep-total now m)

pub evict-total : (m : Keyed ℕ) → total one (evict m) ≤ total one m - 1
unfolding evict total is_some
evict-total [] = omega arith
evict-total (e ∷ m) = elim (Option-cases (find (soonest e m).0 (e ∷ m))) [
  | inl h ↦ absurd (gone h (soonest-found e m))
  | inr (b, h) ↦ omega (arith, total-erase one (soonest e m).0 (e ∷ m) h)
]
  where
    gone : {o : Option ℕ} → o ≡ none → is_some o ≡ true → ⊥
    gone h f = ground (arith, h, f)

unfoldable pub live_only : ℕ → Option ℕ → Option ℕ
live_only now none = none
live_only now (some t) = if leb t now then none else some t

pub find-sweep :
    (now : ℕ) (k : Key) (m : Keyed ℕ) → IsUnique m → find k (sweep now m) ≡ live_only now (find k m)
unfolding sweep find live_only
find-sweep now k [] u = refl
find-sweep now k ((l, t) ∷ m) (fresh, u) = ground (arith, fresh, find-sweep now k m u, absent)
  where
    absent : same_key k l ≡ true → find k m ≡ none
    absent h = ap (λ x. find x m) (same_key→≡ k l h) ∙ fresh

make_room-total :
    (id : Key) (m : Keyed ℕ)
    → total one m ≤ max_entries
    → find id m ≡ none
    → total one (make_room id m) + 1 ≤ max_entries
unfolding make_room is_some
make_room-total id m h absent = rw (absent, make_room) (ground (arith, h, evict-total m))

pub sweep_once-total :
    (now : ℕ) (c : Cache) → total one (sweep_once now c).blocked ≤ total one c.blocked
unfolding sweep_once
sweep_once-total now c = ground (arith, sweep-total now c.blocked)

-- With an id that is there no room is made; for a new one there is room behind `make_room`.
assign-make_room-total :
    (id : Key) (expiry : ℕ) (m : Keyed ℕ)
    → total one m ≤ max_entries
    → total one (assign id expiry (make_room id m)) ≤ max_entries
unfolding is_some make_room total
assign-make_room-total id expiry m h = elim (Option-cases (find id m)) [
  | inl e ↦ elim (Option-cases (find id (make_room id m))) [
    | inl f ↦
        omega (arith, make_room-total id m h e, total-assign_new one id expiry (make_room id m) f)
    | inr (b, f) ↦
        omega (arith, make_room-total id m h e, total-assign_old one id expiry (make_room id m) f)
  ]
  | inr (b, e) ↦ rw (e, make_room) (omega (arith, h, total-assign_old one id expiry m e))
]

-- The table never has more than 50,000 entries, whatever ids fail and when.
pub record_failure-bound :
    (c : Cache) (id : Key) (now : ℕ)
    → size c ≤ max_entries
    → size (record_failure c id now) ≤ max_entries
unfolding size record_failure
record_failure-bound c [] now h = h
record_failure-bound c (b ∷ id) now h =
    assign-make_room-total (b ∷ id) (now + c.ttl) (sweep_once now c).blocked
      (omega (arith, sweep_once-total now c, h))

is_live-live_only : (now t : ℕ) (o : Option ℕ) → now ≤ t → is_live t (live_only now o) ≡ is_live t o
unfolding live_only
is_live-live_only now t none h = refl
is_live-live_only now t (some e) h = ground (arith, h)

-- A sweep changes no answer from its second on: an id is blocked after it exactly when it was before.
pub cleanup-is_blocked :
    (c : Cache) (id : Key) (now t : ℕ)
    → IsUnique c.blocked
    → now ≤ t
    → is_blocked (cleanup c now) id t ≡ is_blocked c id t
unfolding is_blocked cleanup live_only
cleanup-is_blocked c [] now t u h = refl
cleanup-is_blocked c (b ∷ id) now t u h =
    rw (find-sweep now (b ∷ id) c.blocked u) (is_live-live_only now t (find (b ∷ id) c.blocked) h)

make_room-roomy : (id : Key) (m : Keyed ℕ) → total one m < max_entries → make_room id m ≡ m
unfolding make_room
make_room-roomy id m h = ground (arith, h)

live_after_sweep :
    (c : Cache) (id : Key) (now t : ℕ)
    → IsUnique c.blocked
    → now ≤ t
    → is_live t (find id (sweep_once now c).blocked) ≡ is_live t (find id c.blocked)
unfolding sweep_once
live_after_sweep c id now t u h = ground (arith, swept)
  where
    swept : is_live t (find id (sweep now c.blocked)) ≡ is_live t (find id c.blocked)
    swept = rw (find-sweep now id c.blocked u) (is_live-live_only now t (find id c.blocked) h)

-- A failure of one id leaves the answers for every other id as they are, while the table has room.
pub record_failure-others :
    (c : Cache) (id other : Key) (now t : ℕ)
    → IsUnique c.blocked
    → size c < max_entries
    → same_key other id ≡ false
    → now ≤ t
    → is_blocked (record_failure c id now) other t ≡ is_blocked c other t
unfolding is_blocked record_failure size
record_failure-others c id [] now t u room h le = refl
record_failure-others c [] (o ∷ other) now t u room h le = refl
record_failure-others c (b ∷ id) (o ∷ other) now t u room h le =
    rw
      (
        find-assign_other (b ∷ id) (o ∷ other) (now + c.ttl)
            (make_room (b ∷ id) (sweep_once now c).blocked) h,
        make_room-roomy (b ∷ id) (sweep_once now c).blocked
            (omega (arith, room, sweep_once-total now c)),
      )
      (live_after_sweep c (o ∷ other) now t u le)
