-- ===== src/Registry/Players/Live.antt =====
-- The registry of players against the players that are still there.
use irl_srt_server.Prelude.{
  ◌≡◌, refl, true, false, List, [], ◌∷◌, ◌++◌, arith, Option-cases, Bool-cases, inl, inr,
}
use irl_srt_server.Prelude.Keyed.{
  Key, find, same_key, find-assign_same, find-assign_other, find-erase_other, IsUnique,
}
use irl_srt_server.Prelude.Unique.{find_cong, find-erase_same, assign-IsUnique, erase-IsUnique}
use irl_srt_server.Registry.Players.{
  Player, World, Registry, is_gone, keep_live, store_live, prune_locked, players_of,
}

-- Who is gone stays gone.
abbrev pub IsBefore : World → World → Type 0
IsBefore w w' = (p : Player) → is_gone w p ≡ true → is_gone w' p ≡ true

pub keep_live-append :
    (w : World) (ps qs : List Player) → keep_live w (ps ++ qs) ≡ keep_live w ps ++ keep_live w qs
unfolding keep_live
keep_live-append w [] qs = refl
keep_live-append w (p ∷ ps) qs = ground (arith, keep_live-append w ps qs)

keep_live_later :
    (w w' : World) (ps : List Player)
    → IsBefore w w'
    → keep_live w' (keep_live w ps) ≡ keep_live w' ps
unfolding keep_live
keep_live_later w w' [] h = refl
keep_live_later w w' (p ∷ ps) h = ground (arith, keep_live_later w w' ps h, h p)

-- The players of a stream that are there at `w`.
abbrev pub live : World → Key → Registry → List Player
live w k m = keep_live w (players_of (find k m))

find-store_live :
    (k : Key) (ps : List Player) (m : Registry)
    → IsUnique m
    → players_of (find k (store_live k ps m)) ≡ ps
find-store_live k [] m u = rw (find-erase_same k m u) refl
find-store_live k (p ∷ ps) m u = rw (find-assign_same k (p ∷ ps) m) refl

find-store_live_other :
    (k j : Key) (ps : List Player) (m : Registry)
    → same_key k j ≡ false
    → find k (store_live j ps m) ≡ find k m
find-store_live_other k j [] m h = find-erase_other j k m h
find-store_live_other k j (p ∷ ps) m h = find-assign_other j k (p ∷ ps) m h

store_live-IsUnique :
    (k : Key) (ps : List Player) (m : Registry) → IsUnique m → IsUnique (store_live k ps m)
store_live-IsUnique k [] m u = erase-IsUnique k m u
store_live-IsUnique k (p ∷ ps) m u = assign-IsUnique k (p ∷ ps) m u

pub prune_locked-IsUnique :
    (w : World) (k : Key) (m : Registry) → IsUnique m → IsUnique (prune_locked w k m)
unfolding prune_locked
prune_locked-IsUnique w k m u = elim (Option-cases (find k m)) [
  | inl e ↦ rw e u
  | inr (ps, e) ↦ rw e (store_live-IsUnique k (keep_live w ps) m u)
]

-- A pruned stream has the players that are there; the other streams are as they were.
pub players-prune_same :
    (w : World) (k : Key) (m : Registry)
    → IsUnique m
    → players_of (find k (prune_locked w k m)) ≡ live w k m
unfolding prune_locked keep_live
players-prune_same w k m u = elim (Option-cases (find k m)) [
  | inl e ↦ rw (prune_locked, e) (rw e refl)
  | inr (ps, e) ↦ rw (prune_locked, e) (find-store_live k (keep_live w ps) m u)
]

pub prune_other :
    (w : World) (k j : Key) (m : Registry)
    → same_key k j ≡ false
    → find k (prune_locked w j m) ≡ find k m
unfolding prune_locked
prune_other w k j m h = elim (Option-cases (find j m)) [
  | inl e ↦ rw (prune_locked, e) refl
  | inr (ps, e) ↦ rw (prune_locked, e) (find-store_live_other k j (keep_live w ps) m h)
]

-- Pruning changes nothing that a later look can see.
pub live-prune :
    (w w' : World) (k j : Key) (m : Registry)
    → IsUnique m
    → IsBefore w w'
    → live w' k (prune_locked w j m) ≡ live w' k m
live-prune w w' k j m u h = elim (Bool-cases (same_key k j)) [
  | inl same ↦
      rw (find_cong k j (prune_locked w j m) same, find_cong k j m same, players-prune_same w j m u)
        (keep_live_later w w' (players_of (find j m)) h)
  | inr other ↦ rw (prune_other w k j m other) refl
]
