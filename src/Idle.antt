-- ===== src/Idle.antt =====
-- src/core/sls_idle.hpp: whether a role that receives is torn down.
use irl_srt_server.Prelude.{
  ℕ, zero, ◌+◌, ◌*◌, ◌≡◌, ◌≤◌, ◌<◌, Bool, true, false, ◌&&◌, arith, ◌==◌, if◌then◌else◌,
}
use irl_srt_server.Prelude.Int.{ℤ, pos, negsuc, sub_ℕ, ltb_ℤ, leb_ℤ}

abbrev pub is_unlimited : ℤ → Bool
is_unlimited (negsuc zero) = true
is_unlimited _ = false

-- A timeout in seconds, in milliseconds.
abbrev pub times_1000 : ℤ → ℤ
times_1000 (pos n) = pos (n * 1000)
times_1000 (negsuc n) = negsuc (n * 1000 + 999)

unfoldable pub should_reap_role : ℕ → ℕ → ℕ → ℤ → ℤ → Bool → Bool
should_reap_role now last_recv last_activity first_data_timeout idle_timeout_s pending =
    if ltb_ℤ (pos 0) first_data_timeout && (last_recv == 0)
    then (if pending then false else leb_ℤ first_data_timeout (sub_ℕ now last_activity))
    else if is_unlimited idle_timeout_s
    then false
    else leb_ℤ (times_1000 idle_timeout_s) (sub_ℕ now last_activity)

-- A role that is to be torn down stays so while it receives nothing: time alone never saves it.
pub should_reap_role-stays :
    (now later last_recv last_activity : ℕ) (first_data_timeout idle_timeout_s : ℤ) (pending : Bool)
    → now ≤ later
    → should_reap_role now last_recv last_activity first_data_timeout idle_timeout_s pending ≡ true
    → should_reap_role later last_recv last_activity first_data_timeout idle_timeout_s pending
      ≡ true
unfolding should_reap_role
should_reap_role-stays now later last_recv last_activity (pos f) (pos i) pending h e =
    ground (arith, h, e)
should_reap_role-stays now later last_recv last_activity (pos f) (negsuc i) pending h e =
    ground (arith, h, e)
should_reap_role-stays now later last_recv last_activity (negsuc f) (pos i) pending h e =
    ground (arith, h, e)
should_reap_role-stays now later last_recv last_activity (negsuc f) (negsuc i) pending h e =
    ground (arith, h, e)

-- The first media ends the probation: from then on neither its timeout nor a pending authorization
-- changes whether the role is torn down.
pub should_reap_role-probation_over :
    (now last_recv last_activity : ℕ) (f g idle_timeout_s : ℤ) (p q : Bool)
    → 0 < last_recv
    → should_reap_role now last_recv last_activity f idle_timeout_s p
      ≡ should_reap_role now last_recv last_activity g idle_timeout_s q
unfolding should_reap_role
should_reap_role-probation_over now last_recv last_activity f g i p q h = ground (arith, h)
