-- ===== src/Relay/Encoding.antt =====
-- The stream's name in a relay's URL: it comes back from the decoder as it was, and nothing of it can
-- end the path or begin a query.
use irl_srt_server.Prelude.{
  ℕ, ◌+◌, ◌-◌, ◌*◌, ◌/◌, ◌%◌, ◌^◌, ◌<◌, ◌≡◌, refl, ap, ◌∙◌, true, false, ◌||◌, List, [], ◌∷◌, arith,
  ltb, ◌==◌, if◌then◌else◌, Bool-cases, inl, inr,
}
use irl_srt_server.Relay.Url.{is_plain, upper_hex, url_encode}

-- Percent-decoding (RFC 3986): two upper hex digits behind a '%'.
abbrev pub hex_value : ℕ → ℕ
hex_value d = if ltb d 58 then d - 48 else d - 55

unfoldable pub url_decode : List ℕ → List ℕ
url_decode [] = []
url_decode (c ∷ []) = c ∷ []
url_decode (c ∷ d ∷ []) = c ∷ d ∷ []
url_decode (c ∷ d ∷ e ∷ s) =
    let plain = url_decode (d ∷ e ∷ s) in
    let behind = url_decode s in
    if c == 37 then (hex_value d * 16 + hex_value e) ∷ behind else c ∷ plain

abbrev pub AreBytes : List ℕ → Type 0
AreBytes [] = Unit
AreBytes (c ∷ s) = (c < 2 ^ 8) × AreBytes s

url_decode-plain : (c : ℕ) (s : List ℕ) → (c == 37) ≡ false → url_decode (c ∷ s) ≡ c ∷ url_decode s
unfolding url_decode
url_decode-plain c [] h = refl
url_decode-plain c (d ∷ []) h = refl
url_decode-plain c (d ∷ e ∷ s) h = rw h refl

url_decode-hex :
    (c : ℕ) (s : List ℕ)
    → c < 2 ^ 8
    → url_decode (37 ∷ upper_hex (c / 16) ∷ upper_hex (c % 16) ∷ s) ≡ c ∷ url_decode s
unfolding url_decode
url_decode-hex c s h =
    ap (λ d. d ∷ url_decode s)
      (omega (arith, digit (c / 16) (omega arith), digit (c % 16) (omega arith)))
  where
    digit : (d : ℕ) → d < 16 → hex_value (upper_hex d) ≡ d
    digit d lt = ground arith

-- A name of bytes comes back as it was.
pub url_decode-url_encode : (s : List ℕ) → AreBytes s → url_decode (url_encode s) ≡ s
unfolding url_encode
url_decode-url_encode [] b = unfold url_decode in refl
url_decode-url_encode (c ∷ s) (h, hs) = elim (Bool-cases (is_plain c)) [
  | inl plain ↦ rw plain (
      url_decode-plain c (url_encode s) (ground (arith, plain))
      ∙ ap (◌∷◌ c) (url_decode-url_encode s hs))
  | inr coded ↦
      rw coded (url_decode-hex c (url_encode s) h ∙ ap (◌∷◌ c) (url_decode-url_encode s hs))
]

-- Every character is one that stands for itself, or '%'.
abbrev pub AreSafe : List ℕ → Type 0
AreSafe [] = Unit
AreSafe (c ∷ s) = ((is_plain c || (c == 37)) ≡ true) × AreSafe s

-- An encoded name of bytes has letters, digits, '-', '_', '.', '~' and '%' only: no '/', '?', '=' or
-- '&' of the client's gets into the URL.
pub url_encode-AreSafe : (s : List ℕ) → AreBytes s → AreSafe (url_encode s)
unfolding url_encode
url_encode-AreSafe [] b = record {}
url_encode-AreSafe (c ∷ s) (h, hs) = elim (Bool-cases (is_plain c)) [
  | inl plain ↦ rw plain (ground (arith, plain), url_encode-AreSafe s hs)
  | inr coded ↦ rw coded (
    refl,
    (digit (c / 16) (omega arith), (digit (c % 16) (omega arith), url_encode-AreSafe s hs)),
  )
]
  where
    digit : (d : ℕ) → d < 16 → (is_plain (upper_hex d) || (upper_hex d == 37)) ≡ true
    digit d lt = ground arith
