-- ===== src/Tests/SidTests.antt =====
-- Stream ids of src/core/sls_sid.cpp: "h/a/r" and " h /a/r\n" name one stream.
use irl_srt_server.Prelude.{ℕ, ◌+◌, ◌<◌, length, ◌≡◌, refl, true, some, List, [], ◌∷◌, arith}
use irl_srt_server.Prelude.Int.{negsuc}
use irl_srt_server.Prelude.Keyed.{Key, find, assign, same_key, total}
use irl_srt_server.AuthRejectCache.{Cache, max_entries, size, record_failure}
use irl_srt_server.AuthRejectCache.Memory.{failures}
use irl_srt_server.Sid.{
  trim, trim_front, trim_back, keep_before, extend, split_string, all_name_chars, is_dots,
  is_safe_name, store_names, is_standard, parse_streamid, gather, names_of, canonical_sid_key,
  validate_sid_format, resource, publisher_listen_callback,
}
use irl_srt_server.Sid.Canonical.{canonical_sid_key-names, canonical_sid_key-injective}
use irl_srt_server.Sid.Refusal.{refused_while_blocked}

abbrev tight : List ℕ
tight = 104 ∷ 47 ∷ 97 ∷ 47 ∷ 114 ∷ []

abbrev loose : List ℕ
loose = 32 ∷ 104 ∷ 32 ∷ 47 ∷ 97 ∷ 47 ∷ 114 ∷ 10 ∷ []

tight-valid : validate_sid_format (some tight) ≡ true
unfolding validate_sid_format names_of gather parse_streamid store_names is_standard split_string
    extend trim trim_front trim_back keep_before is_safe_name is_dots all_name_chars find assign
    same_key
tight-valid = refl

loose-valid : validate_sid_format (some loose) ≡ true
unfolding validate_sid_format names_of gather parse_streamid store_names is_standard split_string
    extend trim trim_front trim_back keep_before is_safe_name is_dots all_name_chars find assign
    same_key
loose-valid = refl

one_key : canonical_sid_key loose ≡ canonical_sid_key tight
unfolding canonical_sid_key names_of gather parse_streamid store_names is_standard split_string
    extend trim trim_front trim_back keep_before find assign same_key
one_key = refl

canonical_sid_key-names_example :
    names_of (parse_streamid (some (canonical_sid_key loose)))
    ≡ names_of (parse_streamid (some loose))
canonical_sid_key-names_example = canonical_sid_key-names loose loose-valid

abbrev empty : Cache
empty = record { blocked = []; ttl = 30; last_sweep = 0 }

-- Two more failures in between: another id's, and the same id's again.
abbrev in_between : List (Key × ℕ)
in_between = (98 ∷ [], 110) ∷ (tight, 120) ∷ []

empty_room : size empty + length in_between < max_entries
unfolding size total
empty_room = omega arith

refused_while_blocked_example :
    publisher_listen_callback
      (some (failures (record_failure empty (canonical_sid_key loose) 100) in_between))
      (some tight)
      129
    ≡ (negsuc 0, some resource)
refused_while_blocked_example =
    refused_while_blocked empty loose tight in_between 100 129 loose-valid tight-valid
      (canonical_sid_key-injective loose tight loose-valid tight-valid one_key) (record {})
      empty_room (omega arith, omega arith, (omega arith, omega arith, record {})) (omega arith)
