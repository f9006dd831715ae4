-- ===== src/Relay/Url.antt =====
-- The URL of a relay: `url_encode` of src/core/util.cpp, the `snprintf` of the managers, and the choice
-- of an upstream by the hash of the stream's name (`sls_hash_key` of src/core/common.cpp).
use irl_srt_server.Prelude.{
  ℕ, ◌+◌, ◌-◌, ◌*◌, ◌/◌, ◌%◌, ◌^◌, Bool, ◌&&◌, ◌||◌, Option, none, some, List, [], ◌∷◌, ◌++◌, ltb,
  leb, ◌==◌, if◌then◌else◌, length, get_or,
}

-- `isalnum` in the C locale, and the four other characters that stand for themselves.
abbrev pub is_plain : ℕ → Bool
is_plain c =
    leb 48 c && leb c 57
    || leb 65 c && leb c 90
    || leb 97 c && leb c 122
    || (c == 45)
    || (c == 95)
    || (c == 46)
    || (c == 126)

abbrev pub upper_hex : ℕ → ℕ
upper_hex d = if ltb d 10 then 48 + d else 65 + (d - 10)

unfoldable pub url_encode : List ℕ → List ℕ
url_encode [] = []
url_encode (c ∷ value) =
    let rest = url_encode value in
    if is_plain c then c ∷ rest else 37 ∷ upper_hex (c / 16) ∷ upper_hex (c % 16) ∷ rest

-- `URL_MAX_LEN`
abbrev pub url_max_len : ℕ
url_max_len = 2048

-- `snprintf` into a buffer of `size` bytes: a text that does not fit is refused.
unfoldable pub fits : ℕ → List ℕ → Option (List ℕ)
fits size s = if leb size (length s) then none else some s

-- "srt://"
abbrev pub srt_prefix : List ℕ
srt_prefix = 115 ∷ 114 ∷ 116 ∷ 58 ∷ 47 ∷ 47 ∷ []

-- `"srt://%s/%s"`
unfoldable pub relay_url : List ℕ → List ℕ → Option (List ℕ)
relay_url upstream stream_name =
    fits url_max_len (srt_prefix ++ upstream ++ (47 ∷ url_encode stream_name))

-- `"%s/%s"`
unfoldable pub stream_key : ℕ → List ℕ → List ℕ → Option (List ℕ)
stream_key size app_uplive stream_name = fits size (app_uplive ++ (47 ∷ stream_name))

-- `sls_hash` of a key and a `char`, which is signed.
abbrev pub sls_hash : ℕ → ℕ → ℕ
sls_hash key c = (key * 31 + (if ltb c 128 then c else 2 ^ 32 - 256 + c)) % 2 ^ 32

unfoldable pub hash_from : ℕ → List ℕ → ℕ
hash_from key [] = key
hash_from key (c ∷ data_) = hash_from (sls_hash key c) data_

unfoldable pub hash_key : List ℕ → ℕ
hash_key data_ = hash_from 0 data_

-- `get_hash_url`: the empty string where no upstream is configured.
unfoldable pub get_hash_url : List (List ℕ) → List ℕ → List ℕ
get_hash_url [] stream_name = []
get_hash_url (u ∷ upstreams) stream_name =
    get_or (u ∷ upstreams) (hash_key stream_name % length (u ∷ upstreams)) []
