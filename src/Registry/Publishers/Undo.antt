-- ===== src/Registry/Publishers/Undo.antt =====
-- A publisher that is set and removed again leaves no trace.
use irl_srt_server.Prelude.{
  ℕ, ◌+◌, ◌≡◌, refl, sym, true, false, Option, none, some, [], ◌∷◌, arith, if◌then◌else◌,
  Bool-cases, inl, inr,
}
use irl_srt_server.Prelude.Keyed.{Key, Keyed, find, same_key, is_some, IsUnique}
use irl_srt_server.Prelude.Unique.{find_cong}
use irl_srt_server.Prelude.Ordered.{place, less_key}
use irl_srt_server.Registry.Publishers.{
  MapPublisher, non_null, is_role, remove_role, remove, set_push_2_publisher, get_publisher,
}
use irl_srt_server.Registry.Publishers.Holding.{entries}

remove_role-head :
    (role : ℕ) (key : Key) (m : Keyed (Option ℕ)) → (remove_role role ((key, some role) ∷ m)).1 ≡ m
unfolding remove_role
remove_role-head role key m = ground arith

remove_role-tail :
    (role : ℕ) (l : Key) (s : Option ℕ) (m : Keyed (Option ℕ))
    → is_role role s ≡ false
    → (remove_role role ((l, s) ∷ m)).1 ≡ (l, s) ∷ (remove_role role m).1
unfolding remove_role
remove_role-tail role l s m h = rw h refl

not_mine :
    (role n : ℕ) (s : Option ℕ) → (if is_role role s then 1 else 0) + n ≡ 0 → is_role role s ≡ false
not_mine role n s e = ground arith

overwritten :
    (key k l : Key) (s : Option ℕ) (m : Keyed (Option ℕ))
    → find l m ≡ none
    → same_key key l ≡ true
    → non_null (find key ((l, s) ∷ m)) ≡ none
    → non_null (find k m) ≡ non_null (find k ((l, s) ∷ m))
unfolding find
overwritten key k l s m h same free = elim (Bool-cases (same_key k l)) [
  | inl e ↦ rw (e, find_cong k l m e, h) (sym (rw same at free))
  | inr e ↦ rw e refl
]

kept :
    (k l : Key) (s : Option ℕ) (m m' : Keyed (Option ℕ))
    → non_null (find k m') ≡ non_null (find k m)
    → non_null (find k ((l, s) ∷ m')) ≡ non_null (find k ((l, s) ∷ m))
unfolding find
kept k l s m m' e = elim (Bool-cases (same_key k l)) [
  | inl same ↦ rw same refl
  | inr other ↦ rw other e
]

remove_role-place :
    (role : ℕ) (key k : Key) (m : Keyed (Option ℕ))
    → IsUnique m
    → entries role m ≡ 0
    → non_null (find key m) ≡ none
    → non_null (find k (remove_role role (place key (some role) m)).1) ≡ non_null (find k m)
unfolding place find
remove_role-place role key k [] u none_of free = rw (remove_role-head role key []) refl
remove_role-place role key k ((l, s) ∷ m) (h, u) none_of free = elim (Bool-cases (same_key key l)) [
  | inl same ↦ rw (same, remove_role-head role key m) (overwritten key k l s m h same free)
  | inr other ↦ elim (Bool-cases (less_key key l)) [
    | inl before ↦ rw (other, before, remove_role-head role key ((l, s) ∷ m)) refl
    | inr behind ↦
        rw (other, behind)
          (rw
            (remove_role-tail role l s (place key (some role) m)
              (not_mine role (entries role m) s none_of))
            (kept k l s m (remove_role role (place key (some role) m)).1
              (remove_role-place role key k m u (ground arith) (ground (arith, other, free)))))
  ]
]

-- Setting a role with no entry on a free stream and removing it changes no look-up.
pub remove-set_push :
    (m : MapPublisher) (key k : Key) (role : ℕ)
    → IsUnique m.push_2_publisher
    → entries role m.push_2_publisher ≡ 0
    → get_publisher m key ≡ none
    → get_publisher (remove (set_push_2_publisher m key role).1 role).1 k ≡ get_publisher m k
unfolding remove set_push_2_publisher get_publisher is_some
remove-set_push m key k role u none_of free =
    rw (set_push_2_publisher, free) (remove_role-place role key k m.push_2_publisher u none_of free)
