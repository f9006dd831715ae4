-- ===== src/AuthRejectCache/Memory.antt =====
-- A blocked id of src/core/auth_reject_cache.cpp while further failures are recorded: as long as the
-- table has room for all of them, none of them unblocks it.
use mathlib.Core.Path.{subst}
use irl_srt_server.Prelude.{
  ℕ, ◌+◌, ◌≤◌, ◌<◌, ◌≡◌, refl, ap, ◌∙◌, true, List, [], ◌∷◌, arith, Bool-cases, Option-cases, inl,
  inr, length, leb, ◌==◌, ◌&&◌, not, lt→ltb,
}
use irl_srt_server.Prelude.Keyed.{
  Key, Keyed, IsUnique, find, assign, total, is_some, same_key, same_key→≡, total-assign_new,
  total-assign_old,
}
use irl_srt_server.Prelude.Unique.{assign-IsUnique, erase-IsUnique}
use irl_srt_server.AuthRejectCache.{
  Cache, max_entries, sweep, one, size, evict, sweep_once, make_room, record_failure, is_blocked,
}
use irl_srt_server.AuthRejectCache.Blocking.{
  record_failure-blocks, record_failure-others, sweep_once-total, evict-total, find-sweep,
  live_only,
}

-- Failures that are recorded one behind the other, the first one first.
abbrev pub failures : Cache → List (Key × ℕ) → Cache
failures c [] = c
failures c ((id, now) ∷ later) = failures (record_failure c id now) later

-- Every one of them is recorded between the two times.
abbrev pub AreBetween : ℕ → ℕ → List (Key × ℕ) → Type 0
AreBetween from to [] = Unit
AreBetween from to ((id, now) ∷ later) = (from ≤ now) × (now ≤ to) × AreBetween from to later

sweep-IsUnique : (now : ℕ) (m : Keyed ℕ) → IsUnique m → IsUnique (sweep now m)
unfolding sweep live_only
sweep-IsUnique now [] u = u
sweep-IsUnique now ((k, t) ∷ m) (fresh, u) = elim (Bool-cases (leb t now)) [
  | inl over ↦ rw over (sweep-IsUnique now m u)
  | inr yet ↦ rw yet (find-sweep now k m u ∙ ap (live_only now) fresh, sweep-IsUnique now m u)
]

sweep_once-IsUnique :
    (now : ℕ) (c : Cache) → IsUnique c.blocked → IsUnique (sweep_once now c).blocked
unfolding sweep_once
sweep_once-IsUnique now c u = elim (Bool-cases (now == c.last_sweep)) [
  | inl again ↦ rw again u
  | inr first ↦ rw first (sweep-IsUnique now c.blocked u)
]

evict-IsUnique : (m : Keyed ℕ) → IsUnique m → IsUnique (evict m)
unfolding evict
evict-IsUnique [] u = u
evict-IsUnique (e ∷ m) u = erase-IsUnique _ (e ∷ m) u

make_room-IsUnique : (id : Key) (m : Keyed ℕ) → IsUnique m → IsUnique (make_room id m)
unfolding make_room
make_room-IsUnique id m u =
    elim (Bool-cases (not (is_some (find id m)) && leb max_entries (total one m))) [
      | inl full ↦ rw full (evict-IsUnique m u)
      | inr room ↦ rw room u
    ]

pub record_failure-IsUnique :
    (c : Cache) (id : Key) (now : ℕ)
    → IsUnique c.blocked
    → IsUnique (record_failure c id now).blocked
unfolding record_failure
record_failure-IsUnique c [] now u = u
record_failure-IsUnique c (b ∷ id) now u =
    assign-IsUnique (b ∷ id) _ _ (make_room-IsUnique (b ∷ id) _ (sweep_once-IsUnique now c u))

assign-total : (k : Key) (t : ℕ) (m : Keyed ℕ) → total one (assign k t m) ≤ total one m + 1
assign-total k t m = elim (Option-cases (find k m)) [
  | inl e ↦ omega (arith, total-assign_new one k t m e)
  | inr (b, e) ↦ omega (arith, total-assign_old one k t m e)
]

make_room-le : (id : Key) (m : Keyed ℕ) → total one (make_room id m) ≤ total one m
unfolding make_room
make_room-le id m = ground (arith, evict-total m)

pub record_failure-size :
    (c : Cache) (id : Key) (now : ℕ) → size (record_failure c id now) ≤ size c + 1
unfolding record_failure size
record_failure-size c [] now = omega arith
record_failure-size c (b ∷ id) now =
    let m : Keyed ℕ = (sweep_once now c).blocked in
    omega (
      arith,
      assign-total (b ∷ id) (now + c.ttl) (make_room (b ∷ id) m),
      make_room-le (b ∷ id) m,
      sweep_once-total now c,
    )

pub record_failure-ttl : (c : Cache) (id : Key) (now : ℕ) → (record_failure c id now).ttl ≡ c.ttl
unfolding record_failure sweep_once
record_failure-ttl c [] now = refl
record_failure-ttl c (b ∷ id) now = ground arith

-- The id stays blocked over the next failure, its own or another's.
next_failure :
    (c : Cache) (b : ℕ) (id other : Key) (now n t : ℕ)
    → IsUnique c.blocked
    → size c < max_entries
    → now ≤ n
    → n ≤ t
    → t < now + c.ttl
    → is_blocked c (b ∷ id) t ≡ true
    → is_blocked (record_failure c other n) (b ∷ id) t ≡ true
next_failure c b id other now n t u room after before soon h =
    elim (Bool-cases (same_key (b ∷ id) other)) [
      | inl same ↦
          subst (λ k. is_blocked (record_failure c k n) (b ∷ id) t ≡ true)
            (same_key→≡ (b ∷ id) other same)
            (record_failure-blocks c b id n t ∙ lt→ltb t (n + c.ttl) (omega (arith, after, soon)))
      | inr differs ↦ record_failure-others c other (b ∷ id) n t u room differs before ∙ h
    ]

pub failures-is_blocked :
    (c : Cache) (b : ℕ) (id : Key) (later : List (Key × ℕ)) (now t : ℕ)
    → IsUnique c.blocked
    → size c + length later ≤ max_entries
    → AreBetween now t later
    → t < now + c.ttl
    → is_blocked c (b ∷ id) t ≡ true
    → is_blocked (failures c later) (b ∷ id) t ≡ true
failures-is_blocked c b id [] now t u room within soon h = h
failures-is_blocked c b id ((other, n) ∷ later) now t u room (after, before, within) soon h =
    failures-is_blocked (record_failure c other n) b id later now t
      (record_failure-IsUnique c other n u) (omega (arith, room, record_failure-size c other n))
      within (rw (record_failure-ttl c other n) soon)
      (next_failure c b id other now n t u (omega (arith, room)) after before soon h)
