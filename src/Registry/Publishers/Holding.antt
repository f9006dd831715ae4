-- ===== src/Registry/Publishers/Holding.antt =====
-- A stream keeps its publisher until that role is removed, and a removed role is gone.
use mathlib.Core.Path.{subst}
use irl_srt_server.Prelude.{
  ℕ, ◌≡◌, ◌≢◌, refl, ap, ◌+◌, ◌-◌, ◌≤◌, ==_iff, false, Option, none, some, List, [], ◌∷◌, arith,
  if◌then◌else◌, Bool-cases, inl, inr,
}
use irl_srt_server.Prelude.Keyed.{Key, Keyed, find, is_some, same_key, same_key→≡}
use irl_srt_server.Prelude.Ordered.{find-place_other}
use irl_srt_server.Registry.Publishers.{
  MapPublisher, set_conf, set_live_2_uplive, set_push_2_publisher, get_publisher, non_null, is_role,
  remove_role, remove,
}

-- The calls that change the map, `clear` aside, which ends the server.
pub data Call : Type 0 where
  sets_conf : Key → Option ℕ → Call
  sets_live : Key → Key → Call
  sets_publisher : Key → ℕ → Call
  removes : ℕ → Call

unfoldable pub step : MapPublisher → Call → MapPublisher
step m (sets_conf k ca) = (set_conf m k ca).1
step m (sets_live l u) = (set_live_2_uplive m l u).1
step m (sets_publisher k role) = (set_push_2_publisher m k role).1
step m (removes role) = (remove m role).1

unfoldable pub steps : MapPublisher → List Call → MapPublisher
steps m [] = m
steps m (c ∷ cs) = steps (step m c) cs

-- No call removes the role.
abbrev pub Spares : ℕ → List Call → Type 0
Spares role [] = Unit
Spares role (removes r ∷ cs) = (r ≢ role) × Spares role cs
Spares role (c ∷ cs) = Spares role cs

remove_role-find :
    (r role : ℕ) (k : Key) (m : Keyed (Option ℕ))
    → r ≢ role
    → find k m ≡ some (some role)
    → find k (remove_role r m).1 ≡ some (some role)
unfolding find remove_role
remove_role-find r role k [] h e = e
remove_role-find r role k ((l, none) ∷ m) h e = ground (arith, remove_role-find r role k m h)
remove_role-find r role k ((l, some s) ∷ m) h e =
    ground (arith, remove_role-find r role k m h, ==_iff r s)

held : (o : Option (Option ℕ)) (role : ℕ) → non_null o ≡ some role → o ≡ some (some role)
held none role e = absurd cc
held (some none) role e = absurd cc
held (some (some r)) role e = ap some e

taken-free : {o : Option ℕ} {role : ℕ} → o ≡ some role → is_some o ≢ false
unfolding is_some
taken-free {o = none} e f = absurd cc
taken-free {o = some r} e f = absurd cc

step-get_publisher :
    (m : MapPublisher) (c : Call) (k : Key) (role : ℕ)
    → Spares role (c ∷ [])
    → get_publisher m k ≡ some role
    → get_publisher (step m c) k ≡ some role
unfolding step get_publisher set_conf set_live_2_uplive set_push_2_publisher remove
step-get_publisher m (sets_conf l ca) k role h e = ground (arith, e)
step-get_publisher m (sets_live l u) k role h e = ground (arith, e)
step-get_publisher m (sets_publisher l r) k role h e =
    elim (Bool-cases (is_some (non_null (find l m.push_2_publisher)))) [
      | inl taken ↦ simp (step, set_push_2_publisher, taken) e
      | inr free ↦
          simp (step, set_push_2_publisher, free)
            (elim (Bool-cases (same_key k l)) [
              | inl same ↦
                  let mine : non_null (find l m.push_2_publisher) ≡ some role =
                    subst (λ j. non_null (find j m.push_2_publisher) ≡ some role)
                      (same_key→≡ k l same) e in
                  absurd (taken-free mine free)
              | inr other ↦ rw (find-place_other l k (some r) m.push_2_publisher other) e
            ])
    ]
step-get_publisher m (removes r) k role (h, _) e =
    rw (remove_role-find r role k m.push_2_publisher h (held (find k m.push_2_publisher) role e))
      refl

-- Whatever is set in between, a stream's publisher stays its publisher until its role is removed.
pub steps-get_publisher :
    (m : MapPublisher) (cs : List Call) (k : Key) (role : ℕ)
    → Spares role cs
    → get_publisher m k ≡ some role
    → get_publisher (steps m cs) k ≡ some role
unfolding steps
steps-get_publisher m [] k role h e = e
steps-get_publisher m (sets_conf l ca ∷ cs) k role h e =
    steps-get_publisher (step m (sets_conf l ca)) cs k role h
      (step-get_publisher m (sets_conf l ca) k role (record {}) e)
steps-get_publisher m (sets_live l u ∷ cs) k role h e =
    steps-get_publisher (step m (sets_live l u)) cs k role h
      (step-get_publisher m (sets_live l u) k role (record {}) e)
steps-get_publisher m (sets_publisher l r ∷ cs) k role h e =
    steps-get_publisher (step m (sets_publisher l r)) cs k role h
      (step-get_publisher m (sets_publisher l r) k role (record {}) e)
steps-get_publisher m (removes r ∷ cs) k role (h, hs) e =
    steps-get_publisher (step m (removes r)) cs k role hs
      (step-get_publisher m (removes r) k role (h, record {}) e)

-- The entries of a role.
abbrev pub entries : ℕ → Keyed (Option ℕ) → ℕ
entries role [] = 0
entries role ((k, r) ∷ m) = (if is_role role r then 1 else 0) + entries role m

entries-none :
    (role : ℕ) (m : Keyed (Option ℕ)) (k : Key) → entries role m ≡ 0 → find k m ≢ some (some role)
unfolding find
entries-none role [] k h e = absurd cc
entries-none role ((l, none) ∷ m) k h e = entries-none role m k (omega arith) (ground arith)
entries-none role ((l, some s) ∷ m) k h e =
    entries-none role m k (ground arith) (ground (arith, h, e, ==_iff role s))

entries-remove_role :
    (role : ℕ) (m : Keyed (Option ℕ)) → entries role (remove_role role m).1 ≡ entries role m - 1
unfolding remove_role
entries-remove_role role [] = refl
entries-remove_role role ((l, s) ∷ m) = ground (arith, entries-remove_role role m)

-- The result of `remove` says whether the role had an entry, and a role with one entry has none
-- afterwards.
pub remove_lem :
    (m : MapPublisher) (role : ℕ) (k : Key)
    → entries role m.push_2_publisher ≤ 1
    → get_publisher (remove m role).1 k ≢ some role
unfolding get_publisher remove
remove_lem m role k h e =
    entries-none role (remove_role role m.push_2_publisher).1 k
      (omega (arith, entries-remove_role role m.push_2_publisher))
      (held (find k (remove_role role m.push_2_publisher).1) role e)
