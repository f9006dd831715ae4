-- ===== src/Registry/Sessions.antt =====
-- src/core/SLSSessionTracker.hpp and .cpp: the names of sessions in the log. The clock and the
-- counter of the process are arguments.
pub mod Distinct
use irl_srt_server.Prelude.{
  ℕ, zero, suc, ◌+◌, ◌-◌, ◌/◌, ◌%◌, ◌^◌, Bool, true, false, List, [], ◌∷◌, ◌++◌, ltb, if◌then◌else◌,
}
use irl_srt_server.Prelude.Int.{ℤ, pos, negsuc}

abbrev pub hex_digit : ℕ → ℕ
hex_digit d = if ltb d 10 then 0x30 + d else 0x61 + (d - 10)

-- `std::hex << std::setw(4) << std::setfill('0')` of a number below 2^16.
unfoldable pub hex4 : ℕ → List ℕ
hex4 n =
    hex_digit (n / 2 ^ 12 % 16)
    ∷ hex_digit (n / 2 ^ 8 % 16)
    ∷ hex_digit (n / 2 ^ 4 % 16)
    ∷ hex_digit (n % 16)
    ∷ []

-- A number in decimal, on fuel for its digits.
unfoldable pub decimal : ℕ → ℕ → List ℕ
decimal zero n = []
decimal (suc fuel) n =
    let front = decimal fuel (n / 10) in
    if ltb n 10 then (0x30 + n) ∷ [] else front ++ ((0x30 + n % 10) ∷ [])

-- An `int64_t` has at most 19 digits.
abbrev pub decimal64 : ℤ → List ℕ
decimal64 (pos n) = decimal 19 n
decimal64 (negsuc n) = 0x2d ∷ decimal 19 (suc n)

-- `generate_session_id`, with the counter before the call; also the counter behind it.
unfoldable pub generate_session_id : Bool → ℤ → ℕ → List ℕ × ℕ
generate_session_id true timestamp_ms counter = (hex4 (counter % 2 ^ 16), (counter + 1) % 2 ^ 32)
generate_session_id false timestamp_ms counter =
    (decimal64 timestamp_ms ++ (0x2d ∷ hex4 (counter % 2 ^ 16)), (counter + 1) % 2 ^ 32)
