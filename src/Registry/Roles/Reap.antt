-- ===== src/Registry/Roles/Reap.antt =====
-- Which roles the list loses, and in which order it hands them out.
use irl_srt_server.Prelude.{
  ℕ, suc, ◌≡◌, refl, ap, Bool, false, not, none, some, List, [], ◌∷◌, ◌++◌, length, zero,
  Bool-cases, inl, inr,
}
use irl_srt_server.Prelude.Int.{ℤ}
use irl_srt_server.Registry.Roles.{Role, RoleList, push, pop, is_stale, split_stale, reap_unadopted}

abbrev pub HasNo : (Role → Bool) → List Role → Type 0
HasNo f [] = Unit
HasNo f (r ∷ rs) = (f r ≡ false) × HasNo f rs

-- `rs` is made of `xs` and `ys`, each in its order.
pub data Merge : List Role → List Role → List Role → Type 0 where
  nil : Merge [] [] []
  left : {x : Role} {xs ys rs : List Role} → Merge xs ys rs → Merge (x ∷ xs) ys (x ∷ rs)
  right : {y : Role} {xs ys rs : List Role} → Merge xs ys rs → Merge xs (y ∷ ys) (y ∷ rs)

split_stale_lem :
    (now_ms ttl_ms : ℤ) (rs : RoleList)
    → let (stale, kept) = split_stale now_ms ttl_ms rs in
      Merge stale kept rs
      × HasNo (is_stale now_ms ttl_ms) kept
      × HasNo (λ r. not (is_stale now_ms ttl_ms r)) stale
unfolding split_stale
split_stale_lem now_ms ttl_ms [] = (nil, record {}, record {})
split_stale_lem now_ms ttl_ms (r ∷ rs) =
    let (merged, fresh, old) = split_stale_lem now_ms ttl_ms rs in
    elim (Bool-cases (is_stale now_ms ttl_ms r)) [
      | inl stale ↦ rw stale (left merged, fresh, (ap not stale, old))
      | inr kept ↦ rw kept (right merged, (kept, fresh), old)
    ]

-- The reaper takes the roles that have waited longer than allowed and are no listeners, all of them
-- and no other; its result is their number, and what stays keeps its order.
pub reap_unadopted_lem :
    (rs : RoleList) (now_ms ttl_ms : ℤ)
    → let (n, stale, kept) = reap_unadopted rs now_ms ttl_ms in
      (n ≡ length stale)
      × Merge stale kept rs
      × HasNo (is_stale now_ms ttl_ms) kept
      × HasNo (λ r. not (is_stale now_ms ttl_ms r)) stale
unfolding reap_unadopted
reap_unadopted_lem rs now_ms ttl_ms =
    let (merged, fresh, old) = split_stale_lem now_ms ttl_ms rs in (refl, merged, fresh, old)

-- The roles that `n` calls of `pop` hand out.
unfoldable pub pops : ℕ → RoleList → List Role
pops zero rs = []
pops (suc n) rs = (elim ((pop rs).0) [ none ↦ [] | some r ↦ r ∷ [] ]) ++ pops n (pop rs).1

-- Roles come out in the order in which they went in, behind those that were there.
pub pops-push :
    (rs : RoleList) (r : Role) → pops (suc (length rs)) (push rs (some r)) ≡ rs ++ (r ∷ [])
unfolding pops push pop
pops-push [] r = refl
pops-push (x ∷ rs) r = ap (◌∷◌ x) (pops-push rs r)
