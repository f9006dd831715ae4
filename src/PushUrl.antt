-- ===== src/PushUrl.antt =====
-- src/core/SLSPushUrlValidator.hpp and .cpp: which URLs the server may push a stream to. The URL
-- parser, `getaddrinfo` and `inet_ntop` are parameters; the detached resolver thread enters addrs
-- whether it answers in time.
pub mod Template
pub mod Address
pub mod Vetting
use irl_srt_server.Prelude.{
  ℕ, zero, suc, ◌+◌, ◌-◌, ◌*◌, ◌/◌, ◌%◌, ◌^◌, Bool, true, false, ◌&&◌, ◌||◌, not, Option, none,
  some, List, [], ◌∷◌, ltb, leb, ◌==◌, if◌then◌else◌, length,
}
use irl_srt_server.Prelude.Int.{ℤ, pos, negsuc, ltb_ℤ}
use irl_srt_server.Prelude.Keyed.{same_key}
use irl_srt_server.PushUrl.Template.{has_stray_brace, substitute_stream_name}
use irl_srt_server.PushUrl.Address.{Addr, Category, categorize_addr, is_internal}

-- `PushUrlReject`
pub data Reject : Type 0 where
  ok : Reject
  too_long : Reject
  invalid_url : Reject
  wrong_scheme : Reject
  missing_host : Reject
  missing_streamid : Reject
  dns_failure : Reject
  deny_internal : Reject
  deny_self : Reject
  bad_placeholder : Reject

-- What the validator reads of `sls_conf_app_t`.
pub record AppConf : Type 0 where
  pub max_url_len : ℤ
  pub allow_schemes : List ℕ
  pub allow_internal : Bool
  pub allow_self : Bool

-- What `Url` yields; its constructor may throw.
pub record Url : Type 0 where
  pub scheme : List ℕ
  pub host : List ℕ
  pub port : List ℕ
  pub query : List (List ℕ × List ℕ)

-- The code outside of the repository. `getaddrinfo` is asked for a literal only, or for any host; it
-- returns its code and the results, `none` for one without an address.
pub record Net : Type 0 where
  pub parse_url : List ℕ → Option Url
  pub getaddrinfo : Bool → List ℕ → Option (List ℕ) → ℕ × List (Option Addr)
  pub answers_within : List ℕ → ℕ → Bool
  pub addr_to_string : Addr → List ℕ

-- "srt"
abbrev pub srt : List ℕ
srt = 115 ∷ 114 ∷ 116 ∷ []

abbrev pub is_separator : ℕ → Bool
is_separator c = (c == 32) || (c == 9) || (c == 44) || (c == 59)

unfoldable pub skip_separators : List ℕ → List ℕ
skip_separators [] = []
skip_separators (c ∷ s) = let rest = skip_separators s in if is_separator c then rest else c ∷ s

-- The word at the head, and what follows it.
unfoldable pub next_word : List ℕ → List ℕ × List ℕ
next_word [] = ([], [])
next_word (c ∷ s) =
    let (word, rest) = next_word s in if is_separator c then ([], c ∷ s) else (c ∷ word, rest)

abbrev pub is_empty : List ℕ → Bool
is_empty [] = true
is_empty (c ∷ s) = false

-- The loop over the words, on fuel: each round takes a character or more, or ends it.
unfoldable pub lists_scheme : ℕ → List ℕ → List ℕ → Bool
lists_scheme zero scheme list = false
lists_scheme (suc fuel) scheme list =
    let (word, rest) = next_word (skip_separators list) in
    let later = lists_scheme fuel scheme rest in
    if is_empty list
    then false
    else if not (is_empty word) && same_key word scheme
    then true
    else later

unfoldable pub scheme_allowed : List ℕ → List ℕ → Bool
scheme_allowed scheme [] = same_key scheme srt
scheme_allowed scheme (c ∷ list) = lists_scheme (suc (length (c ∷ list))) scheme (c ∷ list)

-- "streamname", which stands for the name while the URL is checked.
abbrev pub stand_in : List ℕ
stand_in = 115 ∷ 116 ∷ 114 ∷ 101 ∷ 97 ∷ 109 ∷ 110 ∷ 97 ∷ 109 ∷ 101 ∷ []

-- "streamid"
abbrev pub streamid : List ℕ
streamid = 115 ∷ 116 ∷ 114 ∷ 101 ∷ 97 ∷ 109 ∷ 105 ∷ 100 ∷ []

unfoldable pub has_streamid : List (List ℕ × List ℕ) → Bool
has_streamid [] = false
has_streamid ((key, val) ∷ query) =
    let later = has_streamid query in
    if same_key key streamid && not (is_empty val) then true else later

unfoldable pub collect_addrinfo : List (Option Addr) → List Addr
collect_addrinfo [] = []
collect_addrinfo (none ∷ results) = collect_addrinfo results
collect_addrinfo (some a ∷ results) = a ∷ collect_addrinfo results

unfoldable pub addr_matches_any : Net → Addr → List (List ℕ) → Bool
addr_matches_any net a [] = false
addr_matches_any net a (entry ∷ list) =
    let later = addr_matches_any net a list in
    if same_key entry (net.addr_to_string a) then true else later

-- The addresses of the machine's interfaces, `none` for one without; loopback is left out.
unfoldable pub discover_self_addresses : Net → List (Option Addr) → List (List ℕ)
discover_self_addresses net [] = []
discover_self_addresses net (none ∷ ifs) = discover_self_addresses net ifs
discover_self_addresses net (some Addr.other ∷ ifs) = discover_self_addresses net ifs
discover_self_addresses net (some a ∷ ifs) =
    let later = discover_self_addresses net ifs in
    if (categorize_addr a).loopback then later else net.addr_to_string a ∷ later

-- `push_url_dns_timeout_ms`: the configured one if it is positive; no configuration in unit tests.
unfoldable pub dns_timeout_ms : Option ℤ → ℕ
dns_timeout_ms (some (pos n)) = if n == 0 then 5000 else n
dns_timeout_ms _ = 5000

abbrev pub service_of : List ℕ → Option (List ℕ)
service_of [] = none
service_of (c ∷ port) = some (c ∷ port)

-- The addresses of a look-up that yielded any.
abbrev pub found : ℕ × List (Option Addr) → Option (List Addr)
found (zero, results) = elim (collect_addrinfo results) [ [] ↦ none | a ∷ addrs ↦ some (a ∷ addrs) ]
found (suc gai, results) = none

-- First as a literal; a host name is looked up on a thread of its own.
unfoldable pub resolve : Net → ℕ → Url → Option (List Addr)
resolve net timeout_ms url = elim (found (net.getaddrinfo true url.host (service_of url.port))) [
  | some addrs ↦ some addrs
  | none ↦
      if net.answers_within url.host timeout_ms
      then found (net.getaddrinfo false url.host (service_of url.port))
      else none
]

-- The loop over the addresses.
unfoldable pub judge : Net → AppConf → List (List ℕ) → List Addr → Reject
judge net conf bind [] = ok
judge net conf bind (a ∷ addrs) =
    let later = judge net conf bind addrs in
    if not conf.allow_internal && is_internal (categorize_addr a)
    then deny_internal
    else if not conf.allow_self && addr_matches_any net a bind
    then deny_self
    else later

-- The first address goes to the caller, who wants it or not.
unfoldable pub hand_over : Reject → Bool → Addr → Reject × Option Addr
hand_over ok true a = (ok, some a)
hand_over r _ a = (r, none)

unfoldable pub vet : Net → AppConf → List (List ℕ) → Bool → List Addr → Reject × Option Addr
vet net conf bind wanted [] = (dns_failure, none)
vet net conf bind wanted (a ∷ addrs) = hand_over (judge net conf bind (a ∷ addrs)) wanted a

unfoldable pub vet_all :
    Net → AppConf → List (List ℕ) → Bool → Option (List Addr) → Reject × Option Addr
vet_all net conf bind wanted none = (dns_failure, none)
vet_all net conf bind wanted (some addrs) = vet net conf bind wanted addrs

unfoldable pub check_url :
    Net → ℕ → AppConf → List (List ℕ) → Bool → Option Url → Reject × Option Addr
check_url net timeout_ms conf bind wanted none = (invalid_url, none)
check_url net timeout_ms conf bind wanted (some url) =
    if not
      (scheme_allowed url.scheme (if is_empty conf.allow_schemes then srt else conf.allow_schemes))
    then (wrong_scheme, none)
    else if is_empty url.host
    then (missing_host, none)
    else if not (has_streamid url.query)
    then (missing_streamid, none)
    else vet_all net conf bind wanted (resolve net timeout_ms url)

-- The configured bound on the length, or `kDefaultMaxUrlLen`.
abbrev pub max_len : AppConf → ℤ
max_len conf = if ltb_ℤ (pos 0) conf.max_url_len then conf.max_url_len else pos 1024

unfoldable pub validate_push_url :
    Net → ℕ → AppConf → List (List ℕ) → Bool → List ℕ → Reject × Option Addr
validate_push_url net timeout_ms conf bind wanted url =
    if is_empty url
    then (invalid_url, none)
    else if ltb_ℤ (max_len conf) (pos (length url))
    then (too_long, none)
    else if has_stray_brace url
    then (bad_placeholder, none)
    else check_url net timeout_ms conf bind wanted
        (net.parse_url (substitute_stream_name url stand_in))
