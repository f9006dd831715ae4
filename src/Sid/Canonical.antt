-- ===== src/Sid/Canonical.antt =====
-- The canonical key of a stream id in src/core/sls_sid.cpp: it names the same stream as the id, and no
-- two streams share one.
use irl_srt_server.Prelude.{
  ℕ, ◌≡◌, refl, sym, ap, ◌∙◌, true, false, some, List, [], ◌∷◌, ◌++◌, arith, Option-cases, inl, inr,
  ◌==◌,
}
use irl_srt_server.Prelude.Keyed.{find, assign, same_key}
use irl_srt_server.Sid.{
  is_name_char, trim_front, keep_before, trim_back, trim, extend, split_string, all_name_chars,
  is_safe_name, store_names, is_standard, parse_streamid, gather, names_of, join, canonical_sid_key,
  are_safe, validate_sid_format,
}

name_chars :
    (b : ℕ) (s : List ℕ)
    → all_name_chars (b ∷ s) ≡ true
    → (is_name_char b ≡ true) × (all_name_chars s ≡ true)
unfolding all_name_chars
name_chars b s h = (ground (arith, h), ground (arith, h))

split-sep :
    (s rest : List ℕ)
    → all_name_chars s ≡ true
    → split_string 47 (s ++ (47 ∷ rest)) ≡ s ∷ split_string 47 rest
unfolding split_string all_name_chars extend
split-sep [] rest h = refl
split-sep (b ∷ s) rest h =
    let (first, tail) = name_chars b s h in rw (split-sep s rest tail) (ground (arith, first))

split-name : (s : List ℕ) → all_name_chars s ≡ true → split_string 47 s ≡ s ∷ []
unfolding split_string all_name_chars extend
split-name [] h = refl
split-name (b ∷ s) h =
    let (first, tail) = name_chars b s h in rw (split-name s tail) (ground (arith, first))

trim_back-name : (s : List ℕ) → all_name_chars s ≡ true → trim_back s ≡ s
unfolding trim_back keep_before all_name_chars
trim_back-name [] h = refl
trim_back-name (b ∷ []) h = let (first, tail) = name_chars b [] h in ground (arith, first)
trim_back-name (b ∷ c ∷ s) h =
    let (first, tail) = name_chars b (c ∷ s) h in rw (trim_back-name (c ∷ s) tail)

trim-name : (s : List ℕ) → all_name_chars s ≡ true → trim s ≡ s
unfolding trim trim_front all_name_chars
trim-name [] h = trim_back-name [] h
trim-name (b ∷ s) h =
    let (first, tail) = name_chars b s h in ground (arith, first, trim_back-name (b ∷ s) h)

safe_chars : (s : List ℕ) → is_safe_name s ≡ true → all_name_chars s ≡ true
unfolding is_safe_name
safe_chars [] h = absurd cc
safe_chars (b ∷ s) h = ground (arith, h)

not_standard : (b : ℕ) (l : List ℕ) → (b == 35) ≡ false → is_standard (b ∷ l) ≡ false
unfolding is_standard
not_standard b [] h = refl
not_standard b (c ∷ []) h = refl
not_standard b (c ∷ d ∷ []) h = refl
not_standard b (c ∷ d ∷ e ∷ []) h = refl
not_standard b (c ∷ d ∷ e ∷ f ∷ l) h = ground (arith, h)

safe_not_standard : (s l : List ℕ) → is_safe_name s ≡ true → is_standard (s ++ l) ≡ false
safe_not_standard [] l h = absurd (unfold is_safe_name in cc)
safe_not_standard (b ∷ s) l h =
    let (first, tail) = name_chars b s (safe_chars (b ∷ s) h) in
    not_standard b (s ++ l) (ground (arith, first))

names-join :
    (h a r : List ℕ)
    → is_safe_name h ≡ true
    → is_safe_name a ≡ true
    → is_safe_name r ≡ true
    → names_of (parse_streamid (some (join (h, a, r)))) ≡ some (h, a, r)
unfolding names_of parse_streamid store_names gather find assign same_key
names-join h a r sh sa sr = rw (
  safe_not_standard h (47 ∷ (a ++ (47 ∷ r))) sh,
  split-sep h (a ++ (47 ∷ r)) (safe_chars h sh),
  split-sep a r (safe_chars a sa),
  split-name r (safe_chars r sr),
  trim-name h (safe_chars h sh),
  trim-name a (safe_chars a sa),
  trim-name r (safe_chars r sr),
)

-- The names behind an id that passes the check.
pub valid-names :
    (sid : List ℕ)
    → validate_sid_format (some sid) ≡ true
    → (h a r : List ℕ) × (names_of (parse_streamid (some sid)) ≡ some (h, a, r))
      × (is_safe_name h ≡ true)
      × (is_safe_name a ≡ true)
      × (is_safe_name r ≡ true)
      × (canonical_sid_key sid ≡ join (h, a, r))
unfolding validate_sid_format canonical_sid_key
valid-names [] v = absurd cc
valid-names (b ∷ bs) v = elim (Option-cases (names_of (parse_streamid (some (b ∷ bs))))) [
  | inl e ↦ absurd (cc (rw e at v))
  | inr ((h, a, r), e) ↦
      let safe : are_safe (some (h, a, r)) ≡ true = rw e at v in
      (
        h,
        a,
        r,
        e,
        ground (arith, safe),
        ground (arith, safe),
        ground (arith, safe),
        rw (e, canonical_sid_key),
      )
]

-- The canonical key of an id that passes the check names the stream that the id names: parsing it gives
-- the same host, application and stream name.
pub canonical_sid_key-names :
    (sid : List ℕ)
    → validate_sid_format (some sid) ≡ true
    → names_of (parse_streamid (some (canonical_sid_key sid)))
      ≡ names_of (parse_streamid (some sid))
canonical_sid_key-names sid v =
    let (h, a, r, e, sh, sa, sr, key) = valid-names sid v in rw (key, e) (names-join h a r sh sa sr)

-- Two ids that pass the check and share a canonical key name the same stream, however each is spelled.
pub canonical_sid_key-injective :
    (sid other : List ℕ)
    → validate_sid_format (some sid) ≡ true
    → validate_sid_format (some other) ≡ true
    → canonical_sid_key sid ≡ canonical_sid_key other
    → names_of (parse_streamid (some sid)) ≡ names_of (parse_streamid (some other))
canonical_sid_key-injective sid other v w e =
    sym (canonical_sid_key-names sid v)
    ∙ ap (λ k. names_of (parse_streamid (some k))) e
    ∙ canonical_sid_key-names other w
