-- ===== src/Tests/ConfTests.antt =====
-- The port list "5-7, 6" of src/core/conf.cpp, and the values of numbers.
use irl_srt_server.Prelude.{ℕ, ◌≡◌, refl, some, none, List, [], ◌∷◌}
use irl_srt_server.Prelude.Int.{pos, negsuc}
use irl_srt_server.Conf.{conf_ok, wrong_type, out_range, set_int, string_split, split_words, strtol}
use irl_srt_server.Conf.Ports.{
  parse_port_list, set_portlist, parse_single_port, parse_tokens, parse_token, at_dash, trim_local,
  push_unique, push_range,
}
use irl_srt_server.Conf.Valid.{IsStored, set_portlist-stores}

-- "5-7, 6"
abbrev spec : List ℕ
spec = 53 ∷ 45 ∷ 55 ∷ 44 ∷ 32 ∷ 54 ∷ []

spec_ports : parse_port_list (some spec) ≡ (pos 3, 5 ∷ 6 ∷ 7 ∷ [])
unfolding parse_port_list parse_tokens parse_token at_dash trim_local parse_single_port strtol
    push_range push_unique string_split split_words
spec_ports = refl

accepts_spec : set_portlist 1 31 (some spec) ≡ (conf_ok, some spec)
unfolding set_portlist parse_port_list parse_tokens parse_token at_dash trim_local parse_single_port
    strtol push_range push_unique string_split split_words
accepts_spec = refl

set_portlist-stores_example : IsStored (parse_port_list (some spec))
set_portlist-stores_example = set_portlist-stores 1 31 (some spec) (some spec) accepts_spec

-- " -12" is a number, "12x" is none and "99" is too large for a least of 1 and a most of 50.
reads_negative :
    set_int (negsuc 99) (pos 50) (some (32 ∷ 45 ∷ 49 ∷ 50 ∷ [])) ≡ (conf_ok, some (negsuc 11))
unfolding set_int strtol
reads_negative = refl

refuses_letter : set_int (pos 1) (pos 50) (some (49 ∷ 50 ∷ 120 ∷ [])) ≡ (wrong_type, none)
unfolding set_int strtol
refuses_letter = refl

refuses_large : set_int (pos 1) (pos 50) (some (57 ∷ 57 ∷ [])) ≡ (out_range, none)
unfolding set_int strtol
refuses_large = refl
