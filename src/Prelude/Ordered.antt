-- ===== src/Prelude/Ordered.antt =====
-- `std::map` where the order of iteration counts: a new key goes before the first greater one.
use irl_srt_server.Prelude.{
  ◌≡◌, Bool, true, false, ◌&&◌, ◌||◌, some, [], ◌∷◌, arith, ltb, ◌==◌, if◌then◌else◌,
}
use irl_srt_server.Prelude.Keyed.{Key, Keyed, same_key, same_key_refl, same_key_cong, find}

-- `std::string`'s order.
unfoldable pub less_key : Key → Key → Bool
less_key [] [] = false
less_key [] (b ∷ l) = true
less_key (a ∷ k) [] = false
less_key (a ∷ k) (b ∷ l) = ltb a b || (a == b) && less_key k l

unfoldable pub place : {A : Type 0} → Key → A → Keyed A → Keyed A
place k a [] = (k, a) ∷ []
place k a ((l, b) ∷ m) =
    let later = place k a m in
    if same_key k l
    then (k, a) ∷ m
    else if less_key k l
    then (k, a) ∷ (l, b) ∷ m
    else (l, b) ∷ later

pub find-place_same : {A : Type 0} (k : Key) (a : A) (m : Keyed A) → find k (place k a m) ≡ some a
unfolding find place
find-place_same k a [] = ground (arith, same_key_refl k)
find-place_same k a ((l, b) ∷ m) = ground (arith, same_key_refl k, find-place_same k a m)

pub find-place_other :
    {A : Type 0} (k l : Key) (a : A) (m : Keyed A)
    → same_key l k ≡ false
    → find l (place k a m) ≡ find l m
unfolding find place
find-place_other k l a [] h = ground (arith, h)
find-place_other k l a ((j, b) ∷ m) h =
    ground (arith, h, same_key_cong k j l, find-place_other k l a m h)
