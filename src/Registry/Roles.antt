-- ===== src/Registry/Roles.antt =====
-- src/core/SLSRoleList.hpp and .cpp: the roles that wait for a worker to take them up.
pub mod Reap
use irl_srt_server.Prelude.{
  ℕ, Bool, true, false, ◌&&◌, not, Option, none, some, List, [], ◌∷◌, ◌++◌, ◌==◌, if◌then◌else◌,
  length,
}
use irl_srt_server.Prelude.Int.{ℤ, ◌-ℤ◌, ltb_ℤ}

-- What the list reads of a role: its address, its name, `none` for NULL, and when it started.
pub record Role : Type 0 where
  pub id : ℕ
  pub name : Option (List ℕ)
  pub start_time : ℤ

abbrev pub RoleList : Type 0
RoleList = List Role

-- `push` drops NULL.
unfoldable pub push : RoleList → Option Role → RoleList
push rs none = rs
push rs (some r) = rs ++ (r ∷ [])

unfoldable pub pop : RoleList → Option Role × RoleList
pop [] = (none, [])
pop (r ∷ rs) = (some r, rs)

unfoldable pub size : RoleList → ℕ
size rs = length rs

-- The roles that `erase` calls `uninit` on, in order, and the list behind it.
unfoldable pub erase : RoleList → List Role × RoleList
erase rs = (rs, [])

-- "listener"
abbrev pub listener : List ℕ
listener = 108 ∷ 105 ∷ 115 ∷ 116 ∷ 101 ∷ 110 ∷ 101 ∷ 114 ∷ []

-- `strncmp(s, prefix, n) == 0` for the `n` characters of `prefix`.
abbrev pub starts_with : List ℕ → List ℕ → Bool
starts_with [] s = true
starts_with (a ∷ prefix) [] = false
starts_with (a ∷ prefix) (b ∷ s) = (a == b) && starts_with prefix s

abbrev pub is_listener : Option (List ℕ) → Bool
is_listener none = false
is_listener (some name) = starts_with listener name

abbrev pub is_stale : ℤ → ℤ → Role → Bool
is_stale now_ms ttl_ms r = not (is_listener r.name) && ltb_ℤ ttl_ms (now_ms -ℤ r.start_time)

-- The loop: the roles to reap, and those that stay.
unfoldable pub split_stale : ℤ → ℤ → RoleList → List Role × RoleList
split_stale now_ms ttl_ms [] = ([], [])
split_stale now_ms ttl_ms (r ∷ rs) =
    let (stale, kept) = split_stale now_ms ttl_ms rs in
    if is_stale now_ms ttl_ms r then (r ∷ stale, kept) else (stale, r ∷ kept)

-- The result, the roles that `uninit` is called on, and the list.
unfoldable pub reap_unadopted : RoleList → ℤ → ℤ → ℕ × List Role × RoleList
reap_unadopted rs now_ms ttl_ms =
    let (stale, kept) = split_stale now_ms ttl_ms rs in (length stale, stale, kept)
