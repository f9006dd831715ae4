-- ===== src/PlayerKey/Entries.antt =====
-- Maps by key as src/core/SLSListenerAuth.cpp changes them: how many entries they have, and what holds of
-- each of them.
use mathlib.Core.Path.{subst}
use irl_srt_server.Prelude.{
  ℕ, ◌+◌, ◌≤◌, ◌≡◌, sym, true, Option, some, List, [], ◌∷◌, arith, leb, length, Bool-cases, inl,
  inr,
}
use irl_srt_server.Prelude.Keyed.{
  Key, Keyed, find, assign, erase, is_some, same_key, same_key→≡, same_key_refl,
}
use irl_srt_server.Prelude.Ordered.{place, less_key}
use irl_srt_server.Role.{is_empty}
use irl_srt_server.Role.Webhook.{Response}
use irl_srt_server.PlayerKey.{Entry}
use irl_srt_server.PlayerKey.Cache.{drop_expired, soonest}
use irl_srt_server.PlayerKey.Limit.{trim, trim_all}
use irl_srt_server.PlayerKey.Validation.{waiting}

pub length-place :
    {A : Type 0} (k : Key) (a : A) (m : Keyed A) → length (place k a m) ≤ length m + 1
unfolding place
length-place k a [] = omega arith
length-place k a ((l, b) ∷ m) = ground (arith, length-place k a m)

pub length-assign :
    {A : Type 0} (k : Key) (a : A) (m : Keyed A)
    → is_some (find k m) ≡ true
    → length (assign k a m) ≤ length m
unfolding assign find is_some
length-assign k a [] h = absurd cc
length-assign k a ((l, b) ∷ m) h = ground (arith, h, length-assign k a m)

pub length-erase_le : {A : Type 0} (k : Key) (m : Keyed A) → length (erase k m) ≤ length m
unfolding erase
length-erase_le k [] = omega arith
length-erase_le k ((l, b) ∷ m) = ground (arith, length-erase_le k m)

pub length-erase :
    {A : Type 0} (k : Key) (m : Keyed A)
    → is_some (find k m) ≡ true
    → length (erase k m) + 1 ≡ length m
unfolding erase find is_some
length-erase k [] h = absurd cc
length-erase k ((l, b) ∷ m) h = ground (arith, h, length-erase k m)

pub length-drop_expired : (now : ℕ) (m : Keyed Entry) → length (drop_expired now m) ≤ length m
unfolding drop_expired
length-drop_expired now [] = omega arith
length-drop_expired now ((k, e) ∷ m) = ground (arith, length-drop_expired now m)

pub length-trim_all :
    (now window : ℕ) (m : Keyed (List ℕ)) → length (trim_all now window m) ≤ length m
unfolding trim_all
length-trim_all now window [] = omega arith
length-trim_all now window ((ip, times) ∷ m) =
    elim (Bool-cases (is_empty (trim now window times))) [
      | inl e ↦ rw e (omega (arith, length-trim_all now window m))
      | inr e ↦ rw e (omega (arith, length-trim_all now window m))
    ]

pub length-waiting :
    (answers : List ℕ → Option Response) (m : Keyed (List ℕ))
    → length (waiting answers m) ≤ length m
unfolding waiting
length-waiting answers [] = omega arith
length-waiting answers ((k, url) ∷ m) = elim (Bool-cases (is_some (answers url))) [
  | inl e ↦ rw e (omega (arith, length-waiting answers m))
  | inr e ↦ rw e (omega (arith, length-waiting answers m))
]

pub soonest-found :
    (e : Key × Entry) (m : Keyed Entry) → is_some (find (soonest e m).0 (e ∷ m)) ≡ true
unfolding soonest find is_some
soonest-found (k, t) [] = rw (same_key_refl k)
soonest-found (k, t) ((l, u) ∷ m) = ground (arith, soonest-found (l, u) m, soonest-found (k, t) m)

-- What holds of every entry.
abbrev pub All : {A : Type 0} → (Key → A → Type 0) → Keyed A → Type 0
All P [] = Unit
All P ((k, a) ∷ m) = P k a × All P m

the_same : {A : Type 0} (a b : A) → some a ≡ some b → a ≡ b
the_same a b e = cc e

module _ {A : Type 0} (P : Key → A → Type 0) where
  pub All-find : (k : Key) (a : A) (m : Keyed A) → find k m ≡ some a → All P m → P k a
  unfolding find
  All-find k a [] e h = absurd cc
  All-find k a ((l, b) ∷ m) e (p, h) = elim (Bool-cases (same_key k l)) [
    | inl same ↦ here same (rw same at e) p
    | inr other ↦ All-find k a m (rw other at e) h
  ]
    where
      here : same_key k l ≡ true → some b ≡ some a → P l b → P k a
      here same e p =
          subst (λ c. P k c) (the_same b a e) (subst (λ j. P j b) (sym (same_key→≡ k l same)) p)

  pub All-place : (k : Key) (a : A) (m : Keyed A) → P k a → All P m → All P (place k a m)
  unfolding place
  All-place k a [] p h = (p, tt)
  All-place k a ((l, b) ∷ m) p (q, h) = elim (Bool-cases (same_key k l)) [
    | inl same ↦ rw same (p, h)
    | inr other ↦ elim (Bool-cases (less_key k l)) [
      | inl before ↦ rw (other, before) (p, (q, h))
      | inr behind ↦ rw (other, behind) (q, All-place k a m p h)
    ]
  ]

  pub All-assign : (k : Key) (a : A) (m : Keyed A) → P k a → All P m → All P (assign k a m)
  unfolding assign
  All-assign k a [] p h = (p, tt)
  All-assign k a ((l, b) ∷ m) p (q, h) = elim (Bool-cases (same_key k l)) [
    | inl same ↦ rw same (p, h)
    | inr other ↦ rw other (q, All-assign k a m p h)
  ]

  pub All-erase : (k : Key) (m : Keyed A) → All P m → All P (erase k m)
  unfolding erase
  All-erase k [] h = tt
  All-erase k ((l, b) ∷ m) (q, h) = elim (Bool-cases (same_key k l)) [
    | inl same ↦ rw same h
    | inr other ↦ rw other (q, All-erase k m h)
  ]

  pub All-map :
      (Q : Key → A → Type 0) (m : Keyed A) → ((k : Key) (a : A) → P k a → Q k a) → All P m → All Q m
  All-map Q [] f h = tt
  All-map Q ((k, a) ∷ m) f (p, h) = (f k a p, All-map Q m f h)

pub All-drop_expired :
    (P : Key → Entry → Type 0) (now : ℕ) (m : Keyed Entry) → All P m → All P (drop_expired now m)
unfolding drop_expired
All-drop_expired P now [] h = tt
All-drop_expired P now ((k, e) ∷ m) (p, h) = elim (Bool-cases (leb e.expiry_time now)) [
  | inl over ↦ rw over (All-drop_expired P now m h)
  | inr live ↦ rw live (p, All-drop_expired P now m h)
]

pub All-waiting :
    (P : Key → List ℕ → Type 0) (answers : List ℕ → Option Response) (m : Keyed (List ℕ))
    → All P m
    → All P (waiting answers m)
unfolding waiting
All-waiting P answers [] h = tt
All-waiting P answers ((k, url) ∷ m) (p, h) = elim (Bool-cases (is_some (answers url))) [
  | inl ready ↦ rw ready (All-waiting P answers m h)
  | inr not_yet ↦ rw not_yet (p, All-waiting P answers m h)
]
