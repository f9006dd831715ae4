-- ===== src/Prelude/Unique.antt =====
-- Maps in which no key stands twice.
use irl_srt_server.Prelude.{◌≡◌, refl, ap, ◌∙◌, true, none, [], ◌∷◌, arith, Bool-cases, inl, inr}
use irl_srt_server.Prelude.Keyed.{
  Key, Keyed, find, assign, erase, same_key, same_key→≡, IsUnique, find-assign_other,
  find-erase_other,
}

pub same_key_comm : (k l : Key) → same_key k l ≡ same_key l k
unfolding same_key
same_key_comm [] [] = refl
same_key_comm [] (b ∷ l) = refl
same_key_comm (a ∷ k) [] = refl
same_key_comm (a ∷ k) (b ∷ l) = ground (arith, same_key_comm k l)

-- Equal keys find alike.
pub find_cong : {A : Type 0} (k l : Key) (m : Keyed A) → same_key k l ≡ true → find k m ≡ find l m
find_cong k l m e = ap (λ j. find j m) (same_key→≡ k l e)

pub find-erase_same : {A : Type 0} (k : Key) (m : Keyed A) → IsUnique m → find k (erase k m) ≡ none
unfolding find erase
find-erase_same k [] u = refl
find-erase_same k ((l, a) ∷ m) (h, u) = ground (arith, find-erase_same k m u, find_cong k l m, h)

pub assign-IsUnique :
    {A : Type 0} (k : Key) (a : A) (m : Keyed A) → IsUnique m → IsUnique (assign k a m)
unfolding assign
assign-IsUnique k a [] u = unfold find in (refl, record {})
assign-IsUnique k a ((l, b) ∷ m) (h, u) = elim (Bool-cases (same_key k l)) [
  | inl same ↦ rw same (find_cong k l m same ∙ h, u)
  | inr other ↦
      rw other (find-assign_other k l a m (same_key_comm l k ∙ other) ∙ h, assign-IsUnique k a m u)
]

pub erase-IsUnique : {A : Type 0} (k : Key) (m : Keyed A) → IsUnique m → IsUnique (erase k m)
unfolding erase
erase-IsUnique k [] u = u
erase-IsUnique k ((l, b) ∷ m) (h, u) = elim (Bool-cases (same_key k l)) [
  | inl same ↦ rw same u
  | inr other ↦
      rw other (find-erase_other k l m (same_key_comm l k ∙ other) ∙ h, erase-IsUnique k m u)
]
