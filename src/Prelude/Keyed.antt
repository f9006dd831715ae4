-- ===== src/Prelude/Keyed.antt =====
-- The maps from a stream's key to an object of the server: `std::map` over the bytes of the key.
use irl_srt_server.Prelude.{
  ℕ, ◌+◌, ◌≡◌, refl, sym, ap, Bool, true, false, ◌&&◌, Option, none, some, List, [], ◌∷◌, arith,
  ◌==◌, if◌then◌else◌,
}

abbrev pub Key : Type 0
Key = List ℕ

abbrev pub Keyed : Type 0 → Type 0
Keyed A = List (Key × A)

unfoldable pub same_key : Key → Key → Bool
same_key [] [] = true
same_key (a ∷ k) (b ∷ l) = (a == b) && same_key k l
same_key _ _ = false

unfoldable pub find : {A : Type 0} → Key → Keyed A → Option A
find k [] = none
find k ((l, a) ∷ m) = let later = find k m in if same_key k l then some a else later

unfoldable pub assign : {A : Type 0} → Key → A → Keyed A → Keyed A
assign k a [] = (k, a) ∷ []
assign k a ((l, b) ∷ m) =
    let later = assign k a m in if same_key k l then (k, a) ∷ m else (l, b) ∷ later

unfoldable pub erase : {A : Type 0} → Key → Keyed A → Keyed A
erase k [] = []
erase k ((l, b) ∷ m) = let later = erase k m in if same_key k l then m else (l, b) ∷ later

-- The sum of a measure over the objects.
unfoldable pub total : {A : Type 0} → (A → ℕ) → Keyed A → ℕ
total w [] = 0
total w ((l, a) ∷ m) = w a + total w m

unfoldable pub is_some : {A : Type 0} → Option A → Bool
is_some none = false
is_some (some _) = true

pub same_key_refl : (k : Key) → same_key k k ≡ true
unfolding same_key
same_key_refl [] = refl
same_key_refl (a ∷ k) = ground (arith, same_key_refl k)

pub same_key→≡ : (k l : Key) → same_key k l ≡ true → k ≡ l
unfolding same_key
same_key→≡ [] [] e = refl
same_key→≡ [] (b ∷ l) e = absurd cc
same_key→≡ (a ∷ k) [] e = absurd cc
same_key→≡ (a ∷ k) (b ∷ l) e = ground (arith, same_key→≡ k l)

pub find-assign_same : {A : Type 0} (k : Key) (a : A) (m : Keyed A) → find k (assign k a m) ≡ some a
unfolding find assign
find-assign_same k a [] = rw (same_key_refl k)
find-assign_same k a ((l, b) ∷ m) = ground (arith, same_key_refl k, find-assign_same k a m)

-- Equal keys compare alike.
pub same_key_cong : (k j l : Key) → same_key k j ≡ true → same_key l j ≡ same_key l k
same_key_cong k j l e = ap (same_key l) (sym (same_key→≡ k j e))

pub find-assign_other :
    {A : Type 0} (k l : Key) (a : A) (m : Keyed A)
    → same_key l k ≡ false
    → find l (assign k a m) ≡ find l m
unfolding find assign
find-assign_other k l a [] h = rw h
find-assign_other k l a ((j, b) ∷ m) h =
    ground (arith, h, same_key_cong k j l, find-assign_other k l a m h)

pub find-erase_other :
    {A : Type 0} (k l : Key) (m : Keyed A) → same_key l k ≡ false → find l (erase k m) ≡ find l m
unfolding find erase
find-erase_other k l [] h = refl
find-erase_other k l ((j, b) ∷ m) h =
    ground (arith, h, same_key_cong k j l, find-erase_other k l m h)

pub total-assign_new :
    {A : Type 0} (w : A → ℕ) (k : Key) (a : A) (m : Keyed A)
    → find k m ≡ none
    → total w (assign k a m) ≡ total w m + w a
unfolding find assign total
total-assign_new w k a [] h = omega arith
total-assign_new w k a ((j, b) ∷ m) h = ground (arith, h, total-assign_new w k a m)

pub total-assign_old :
    {A : Type 0} (w : A → ℕ) (k : Key) (a : A) (m : Keyed A) {b : A}
    → find k m ≡ some b
    → total w (assign k a m) + w b ≡ total w m + w a
unfolding find assign total
total-assign_old w k a [] h = absurd cc
total-assign_old w k a ((j, b) ∷ m) {b = c} h = ground (arith, h, total-assign_old w k a m {b = c})

pub total-erase :
    {A : Type 0} (w : A → ℕ) (k : Key) (m : Keyed A) {b : A}
    → find k m ≡ some b
    → total w (erase k m) + w b ≡ total w m
unfolding find erase total
total-erase w k [] h = absurd cc
total-erase w k ((j, b) ∷ m) {b = c} h = ground (arith, h, total-erase w k m {b = c})

-- No key stands twice in the map.
abbrev pub IsUnique : {A : Type 0} → Keyed A → Type 0
IsUnique [] = Unit
IsUnique ((k, a) ∷ m) = (find k m ≡ none) × IsUnique m
