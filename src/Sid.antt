-- ===== src/Sid.antt =====
-- src/core/sls_sid.cpp and the string helpers of src/core/common.cpp that it uses: the stream id that a
-- client sends, its three names, and the checks in the listen callbacks. Strings are the lists of
-- their bytes, none of them zero. The callbacks return the SRT reject reason beside the verdict.
pub mod Canonical
pub mod Refusal
use irl_srt_server.Prelude.{
  ℕ, ◌+◌, Bool, true, false, ◌&&◌, ◌||◌, not, Option, none, some, List, [], ◌∷◌, ◌++◌, ltb, ◌==◌,
  if◌then◌else◌, length, drop,
}
use irl_srt_server.Prelude.Int.{ℤ, pos, negsuc}
use irl_srt_server.Prelude.Keyed.{Key, Keyed, find, assign, same_key}
use irl_srt_server.AuthRejectCache.{Cache, is_blocked}

-- The blanks that `sls_trim` takes away.
abbrev pub is_blank : ℕ → Bool
is_blank b = b == 32 || b == 9 || b == 13 || b == 10 || b == 12 || b == 11

unfoldable pub trim_front : List ℕ → List ℕ
trim_front [] = []
trim_front (b ∷ bs) = let rest = trim_front bs in if is_blank b then rest else b ∷ bs

-- Puts a byte before what is left of the bytes behind it.
unfoldable pub keep_before : ℕ → List ℕ → List ℕ
keep_before b [] = if is_blank b then [] else b ∷ []
keep_before b (c ∷ cs) = b ∷ c ∷ cs

unfoldable pub trim_back : List ℕ → List ℕ
trim_back [] = []
trim_back (b ∷ bs) = keep_before b (trim_back bs)

-- `sls_trim`
unfoldable pub trim : List ℕ → List ℕ
trim s = trim_back (trim_front s)

unfoldable pub extend : ℕ → List (List ℕ) → List (List ℕ)
extend b [] = (b ∷ []) ∷ []
extend b (s ∷ rest) = (b ∷ s) ∷ rest

-- `sls_split_string` for a separator of one byte and no limit on the count, as it is called here.
unfoldable pub split_string : ℕ → List ℕ → List (List ℕ)
split_string sep [] = [] ∷ []
split_string sep (b ∷ bs) =
    let rest = split_string sep bs in if b == sep then [] ∷ rest else extend b rest

abbrev pub is_name_char : ℕ → Bool
is_name_char b =
    not (b == 47)
    && not (b == 92)
    && not (b == 35)
    && not (b == 38)
    && not (b == 37)
    && not (b == 32)
    && not (ltb b 0x20)
    && not (b == 0x7f)

unfoldable pub all_name_chars : List ℕ → Bool
all_name_chars [] = true
all_name_chars (b ∷ bs) = is_name_char b && all_name_chars bs

-- "." and ".."
unfoldable pub is_dots : List ℕ → Bool
is_dots (b ∷ []) = b == 46
is_dots (b ∷ c ∷ []) = (b == 46) && (c == 46)
is_dots _ = false

-- `sls_is_safe_name`
unfoldable pub is_safe_name : List ℕ → Bool
is_safe_name [] = false
is_safe_name (b ∷ bs) = not (is_dots (b ∷ bs)) && all_name_chars (b ∷ bs)

-- "h", "sls_app" and "r"
abbrev pub host_key : Key
host_key = 104 ∷ []

abbrev pub app_key : Key
app_key = 115 ∷ 108 ∷ 115 ∷ 95 ∷ 97 ∷ 112 ∷ 112 ∷ []

abbrev pub resource_key : Key
resource_key = 114 ∷ []

unfoldable pub store_pair : List (List ℕ) → Keyed (List ℕ) → Keyed (List ℕ)
store_pair (k ∷ v ∷ []) m = assign (trim k) (trim v) m
store_pair _ m = m

unfoldable pub store_pairs : List (List ℕ) → Keyed (List ℕ) → Keyed (List ℕ)
store_pairs [] m = m
store_pairs (i ∷ rest) m = store_pairs rest (store_pair (split_string 61 i) m)

unfoldable pub store_names : List (List ℕ) → Keyed (List ℕ)
store_names (h ∷ a ∷ r ∷ _) =
    assign resource_key (trim r) (assign app_key (trim a) (assign host_key (trim h) []))
store_names _ = []

-- "#!::" and something behind it.
unfoldable pub is_standard : List ℕ → Bool
is_standard (a ∷ b ∷ c ∷ d ∷ e ∷ _) = (a == 35) && (b == 33) && (c == 58) && (d == 58)
is_standard _ = false

unfoldable pub parse_streamid : Option (List ℕ) → Keyed (List ℕ)
parse_streamid none = []
parse_streamid (some sid) =
    if is_standard sid
    then store_pairs (split_string 44 (drop 4 sid)) []
    else store_names (split_string 47 sid)

-- Host, application and stream name.
abbrev pub Names : Type 0
Names = List ℕ × List ℕ × List ℕ

unfoldable pub gather : Option (List ℕ) → Option (List ℕ) → Option (List ℕ) → Option Names
gather (some h) (some a) (some r) = some (h, a, r)
gather _ _ _ = none

-- The three lookups that both callers make.
unfoldable pub names_of : Keyed (List ℕ) → Option Names
names_of kv = gather (find host_key kv) (find app_key kv) (find resource_key kv)

abbrev pub join : Names → List ℕ
join (h, a, r) = h ++ (47 ∷ (a ++ (47 ∷ r)))

unfoldable pub canonical_sid_key : List ℕ → List ℕ
canonical_sid_key [] = []
canonical_sid_key (b ∷ bs) = named (names_of (parse_streamid (some (b ∷ bs))))
  where
    named : Option Names → List ℕ
    named none = b ∷ bs
    named (some n) = join n

abbrev pub are_safe : Option Names → Bool
are_safe none = false
are_safe (some (h, a, r)) = is_safe_name h && is_safe_name a && is_safe_name r

unfoldable pub validate_sid_format : Option (List ℕ) → Bool
validate_sid_format none = false
validate_sid_format (some []) = false
validate_sid_format (some (b ∷ bs)) = are_safe (names_of (parse_streamid (some (b ∷ bs))))

-- SRT_REJ_ROGUE and SRT_REJ_RESOURCE
pub data Reason : Type 0 where
  rogue resource : Reason

abbrev cached_block : Option Cache → Key → ℕ → Bool
cached_block none key now = false
cached_block (some cache) key now = is_blocked cache key now

unfoldable pub publisher_listen_callback : Option Cache → Option (List ℕ) → ℕ → ℤ × Option Reason
publisher_listen_callback cache none now = (negsuc 0, some rogue)
publisher_listen_callback cache (some sid) now =
    if not (validate_sid_format (some sid))
    then (negsuc 0, some rogue)
    else if cached_block cache (canonical_sid_key sid) now
    then (negsuc 0, some resource)
    else (pos 0, none)

unfoldable pub player_listen_callback : Option (List ℕ) → ℤ × Option Reason
player_listen_callback sid =
    if not (validate_sid_format sid) then (negsuc 0, some rogue) else (pos 0, none)
