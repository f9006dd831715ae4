-- ===== src/PushUrl/Vetting.antt =====
-- What is true of an address that `validate_push_url` (src/core/SLSPushUrlValidator.cpp) lets a push
-- connect to.
use irl_srt_server.Prelude.{
  ℕ, ◌≡◌, ◌≢◌, refl, ◌∙◌, Bool, true, false, Option, none, some, List, [], ◌∷◌, arith,
  if◌then◌else◌,
}
use irl_srt_server.PushUrl.{
  Reject, ok, too_long, invalid_url, wrong_scheme, missing_host, missing_streamid, dns_failure,
  deny_internal, deny_self, bad_placeholder, Net, AppConf, Url, judge, vet, hand_over, vet_all,
  check_url, validate_push_url, addr_matches_any, resolve, stand_in, is_empty, scheme_allowed,
  has_streamid, srt,
}
use irl_srt_server.PushUrl.Address.{
  Addr, is_internal, categorize_addr, is_reserved, is_reserved-internal,
}
use irl_srt_server.PushUrl.Template.{has_stray_brace, substitute_stream_name}

-- The operator's rules for one address.
record IsAllowed (net : Net) (conf : AppConf) (bind : List (List ℕ)) (a : Addr) : Type 0 where
  not_internal : conf.allow_internal ≡ false → is_internal (categorize_addr a) ≡ false
  not_self : conf.allow_self ≡ false → addr_matches_any net a bind ≡ false

abbrev AreAllowed : Net → AppConf → List (List ℕ) → List Addr → Type 0
AreAllowed net conf bind [] = Unit
AreAllowed net conf bind (a ∷ addrs) = IsAllowed net conf bind a × AreAllowed net conf bind addrs

-- None of the addresses is in a reserved range.
abbrev pub AreOutside : List Addr → Type 0
AreOutside [] = Unit
AreOutside (a ∷ addrs) = (is_reserved a ≡ false) × AreOutside addrs

AreAllowed-AreOutside :
    (net : Net) (conf : AppConf) (bind : List (List ℕ)) (addrs : List Addr)
    → conf.allow_internal ≡ false
    → AreAllowed net conf bind addrs
    → AreOutside addrs
AreAllowed-AreOutside net conf bind [] denied allowed = record {}
AreAllowed-AreOutside net conf bind (a ∷ addrs) denied (here, later) = (
  is_reserved-internal a (here.not_internal denied),
  AreAllowed-AreOutside net conf bind addrs denied later,
)

judge-AreAllowed :
    (net : Net) (conf : AppConf) (bind : List (List ℕ)) (addrs : List Addr)
    → judge net conf bind addrs ≡ ok
    → AreAllowed net conf bind addrs
unfolding judge
judge-AreAllowed net conf bind [] e = record {}
judge-AreAllowed net conf bind (a ∷ addrs) e = (
  record { not_internal = λ h. ground arith; not_self = λ h. ground arith },
  judge-AreAllowed net conf bind addrs (ground arith),
)

hand_over-ok :
    (r : Reject) (wanted : Bool) (a : Addr)
    → (hand_over r wanted a).0 ≡ ok
    → (r ≡ ok) × ((hand_over r wanted a).1 ≡ (if wanted then some a else none))
unfolding hand_over
hand_over-ok ok true a e = (refl, refl)
hand_over-ok ok false a e = (refl, refl)
hand_over-ok too_long wanted a e = absurd cc
hand_over-ok invalid_url wanted a e = absurd cc
hand_over-ok wrong_scheme wanted a e = absurd cc
hand_over-ok missing_host wanted a e = absurd cc
hand_over-ok missing_streamid wanted a e = absurd cc
hand_over-ok dns_failure wanted a e = absurd cc
hand_over-ok deny_internal wanted a e = absurd cc
hand_over-ok deny_self wanted a e = absurd cc
hand_over-ok bad_placeholder wanted a e = absurd cc

-- The result behind a guard that refuses.
past_guard :
    (b : Bool) (r : Reject) (x : Reject × Option Addr)
    → r ≢ ok
    → (if b then (r, none) else x).0 ≡ ok
    → (b ≡ false) × (x.0 ≡ ok) × ((if b then (r, none) else x).1 ≡ x.1)
past_guard true r x h e = absurd (h e)
past_guard false r x h e = (refl, e, refl)

-- What is known of the URL and of the addresses of its host, of which `a` is the first.
record IsVetted (net : Net) (timeout_ms : ℕ) (conf : AppConf) (bind : List (List ℕ)) (u : Url)
    (a : Addr) (addrs : List Addr) : Type 0 where
  scheme_listed :
      scheme_allowed u.scheme (if is_empty conf.allow_schemes then srt else conf.allow_schemes)
      ≡ true
  has_host : is_empty u.host ≡ false
  has_id : has_streamid u.query ≡ true
  resolved : resolve net timeout_ms u ≡ some (a ∷ addrs)
  allowed : AreAllowed net conf bind (a ∷ addrs)

module _ (net : Net) (timeout_ms : ℕ) (conf : AppConf) (bind : List (List ℕ)) (wanted : Bool) where
  vet_all-ok :
      (found : Option (List Addr))
      → (vet_all net conf bind wanted found).0 ≡ ok
      → (a : Addr) × (addrs : List Addr) × (found ≡ some (a ∷ addrs))
        × AreAllowed net conf bind (a ∷ addrs)
        × ((vet_all net conf bind wanted found).1 ≡ (if wanted then some a else none))
  unfolding vet_all vet
  vet_all-ok none e = absurd cc
  vet_all-ok (some []) e = absurd cc
  vet_all-ok (some (a ∷ addrs)) e =
      let (verdict, out) = hand_over-ok (judge net conf bind (a ∷ addrs)) wanted a e in
      (a, addrs, refl, judge-AreAllowed net conf bind (a ∷ addrs) verdict, out)

  check_url-ok :
      (o : Option Url)
      → (check_url net timeout_ms conf bind wanted o).0 ≡ ok
      → (u : Url) × (a : Addr) × (addrs : List Addr) × (o ≡ some u)
        × IsVetted net timeout_ms conf bind u a addrs
        × ((check_url net timeout_ms conf bind wanted o).1 ≡ (if wanted then some a else none))
  unfolding check_url
  check_url-ok none e = absurd cc
  check_url-ok (some u) e =
      let (listed, e₁, o₁) = past_guard _ wrong_scheme _ (λ h. absurd cc) e in
      let (host, e₂, o₂) = past_guard _ missing_host _ (λ h. absurd cc) e₁ in
      let (id, e₃, o₃) = past_guard _ missing_streamid _ (λ h. absurd cc) e₂ in
      let (a, addrs, found, allowed, out) = vet_all-ok (resolve net timeout_ms u) e₃ in
      (
        u,
        a,
        addrs,
        refl,
        record {
          scheme_listed = ground (arith, listed);
          has_host = host;
          has_id = ground (arith, id);
          resolved = found;
          allowed = allowed;
        },
        o₁ ∙ o₂ ∙ o₃ ∙ out,
      )

  -- A URL that is accepted has no brace but those of the name's token, and parses, with the stand-in
  -- for the name, to a listed scheme, a host and a stream id; every address of the host is one that
  -- the operator allows, and the caller gets the first of them, if it asks.
  validate_push_url-ok :
      (url : List ℕ)
      → (validate_push_url net timeout_ms conf bind wanted url).0 ≡ ok
      → (has_stray_brace url ≡ false)
        × ((u : Url) × (a : Addr) × (addrs : List Addr) × (net.parse_url
                (substitute_stream_name url stand_in)
              ≡ some u)
            × IsVetted net timeout_ms conf bind u a addrs
            × ((validate_push_url net timeout_ms conf bind wanted url).1
                ≡ (if wanted then some a else none)))
  unfolding validate_push_url
  validate_push_url-ok url e =
      let (filled, e₁, o₁) = past_guard _ invalid_url _ (λ h. absurd cc) e in
      let (short, e₂, o₂) = past_guard _ too_long _ (λ h. absurd cc) e₁ in
      let (plain, e₃, o₃) = past_guard _ bad_placeholder _ (λ h. absurd cc) e₂ in
      let (u, a, addrs, parsed, vetted, out) =
        check_url-ok (net.parse_url (substitute_stream_name url stand_in)) e₃ in
      (plain, (u, a, addrs, parsed, vetted, o₁ ∙ o₂ ∙ o₃ ∙ out))

-- With internal addresses denied, a URL that is accepted resolves to addresses none of which is loopback,
-- link-local or private, by the ranges of these, and the caller gets the first of them. IPv6 addresses
-- that map IPv4 ones are in none of these ranges, whatever they map.
pub validate_push_url-public :
    (net : Net) (timeout_ms : ℕ) (conf : AppConf) (bind : List (List ℕ)) (url : List ℕ)
    → conf.allow_internal ≡ false
    → (validate_push_url net timeout_ms conf bind true url).0 ≡ ok
    → (u : Url) × (a : Addr) × (addrs : List Addr) × (net.parse_url
          (substitute_stream_name url stand_in)
        ≡ some u)
      × (resolve net timeout_ms u ≡ some (a ∷ addrs))
      × ((validate_push_url net timeout_ms conf bind true url).1 ≡ some a)
      × AreOutside (a ∷ addrs)
validate_push_url-public net timeout_ms conf bind url denied e =
    let (plain, (u, a, addrs, parsed, vetted, out)) =
      validate_push_url-ok net timeout_ms conf bind true url e in
    (
      u,
      a,
      addrs,
      parsed,
      vetted.resolved,
      out,
      AreAllowed-AreOutside net conf bind (a ∷ addrs) denied vetted.allowed,
    )
