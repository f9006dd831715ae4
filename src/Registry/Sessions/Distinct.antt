-- ===== src/Registry/Sessions/Distinct.antt =====
-- When two sessions have different names.
use irl_srt_server.Prelude.{
  ℕ, zero, suc, ◌+◌, ◌/◌, ◌%◌, ◌^◌, ◌<◌, ◌≡◌, ◌≢◌, ap, true, arith, get_or,
}
use irl_srt_server.Prelude.Int.{ℤ}
use irl_srt_server.Registry.Sessions.{hex_digit, hex4, generate_session_id}

hex_digit-injective : (a b : ℕ) → a < 16 → b < 16 → hex_digit a ≡ hex_digit b → a ≡ b
hex_digit-injective a b ha hb e = ground arith

hex4-injective : (a b : ℕ) → a < 2 ^ 16 → b < 2 ^ 16 → hex4 a ≡ hex4 b → a ≡ b
unfolding hex4
hex4-injective a b ha hb e = omega (
  arith,
  hex_digit-injective (a / 2 ^ 12 % 16) (b / 2 ^ 12 % 16) (omega arith) (omega arith)
      (ap (λ s. get_or s 0 0) e),
  hex_digit-injective (a / 2 ^ 8 % 16) (b / 2 ^ 8 % 16) (omega arith) (omega arith)
      (ap (λ s. get_or s 1 0) e),
  hex_digit-injective (a / 2 ^ 4 % 16) (b / 2 ^ 4 % 16) (omega arith) (omega arith)
      (ap (λ s. get_or s 2 0) e),
  hex_digit-injective (a % 16) (b % 16) (omega arith) (omega arith) (ap (λ s. get_or s 3 0) e),
)

-- The counter `n` calls later.
unfoldable pub after : ℕ → ℕ → ℕ
after zero counter = counter
after (suc n) counter = after n ((counter + 1) % 2 ^ 32)

after-eq : (n counter : ℕ) → counter < 2 ^ 32 → after n counter ≡ (counter + n) % 2 ^ 32
unfolding after
after-eq zero counter h = omega arith
after-eq (suc n) counter h = omega (arith, after-eq n ((counter + 1) % 2 ^ 32) (omega arith))

-- The short names of two sessions of which fewer than 65,536 calls separate one from the other
-- differ, also where the counter wraps in between.
pub short_ids_differ :
    (counter n : ℕ) (t t' : ℤ)
    → counter < 2 ^ 32
    → 0 < n
    → n < 2 ^ 16
    → (generate_session_id true t counter).0 ≢ (generate_session_id true t' (after n counter)).0
unfolding generate_session_id
short_ids_differ counter n t t' h n_pos n_lt e = absurd (
    omega (
      arith,
      after-eq n counter h,
      hex4-injective (counter % 2 ^ 16) (after n counter % 2 ^ 16) (omega arith) (omega arith) e,
    ))
