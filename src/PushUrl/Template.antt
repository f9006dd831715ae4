-- ===== src/PushUrl/Template.antt =====
-- The template of a push URL: `{stream_name}` and the braces that are left without it.
use irl_srt_server.Prelude.{
  ℕ, zero, suc, ◌≡◌, refl, Bool, true, false, ◌&&◌, ◌||◌, List, [], ◌∷◌, ◌++◌, arith, ◌==◌,
  if◌then◌else◌,
}

-- `kPushUrlStreamNameToken`, "{stream_name}"
abbrev pub token : List ℕ
token = 123 ∷ 115 ∷ 116 ∷ 114 ∷ 101 ∷ 97 ∷ 109 ∷ 95 ∷ 110 ∷ 97 ∷ 109 ∷ 101 ∷ 125 ∷ []

abbrev pub starts_with : List ℕ → List ℕ → Bool
starts_with [] s = true
starts_with (a ∷ prefix) [] = false
starts_with (a ∷ prefix) (b ∷ s) = (a == b) && starts_with prefix s

unfoldable pub is_at_token : List ℕ → Bool
is_at_token s = starts_with token s

-- From one token to the next; `skip` characters belong to the token found last.
unfoldable pub substitute_from : ℕ → List ℕ → List ℕ → List ℕ
substitute_from skip name [] = []
substitute_from (suc skip) name (c ∷ s) = substitute_from skip name s
substitute_from zero name (c ∷ s) =
    let behind = substitute_from 12 name s in
    let plain = substitute_from zero name s in
    if is_at_token (c ∷ s) then name ++ behind else c ∷ plain

unfoldable pub substitute_stream_name : List ℕ → List ℕ → List ℕ
substitute_stream_name url_template stream_name = substitute_from zero stream_name url_template

-- '{' or '}'
abbrev pub is_brace : ℕ → Bool
is_brace c = (c == 123) || (c == 125)

unfoldable pub has_brace : List ℕ → Bool
has_brace [] = false
has_brace (c ∷ s) = is_brace c || has_brace s

unfoldable pub has_stray_brace : List ℕ → Bool
has_stray_brace url = has_brace (substitute_stream_name url [])

has_brace-append : (s t : List ℕ) → has_brace (s ++ t) ≡ (has_brace s || has_brace t)
unfolding has_brace
has_brace-append [] t = refl
has_brace-append (c ∷ s) t = ground (arith, has_brace-append s t)

substitute_from-has_brace :
    (skip : ℕ) (name s : List ℕ)
    → has_brace name ≡ false
    → has_brace (substitute_from skip name s) ≡ has_brace (substitute_from skip [] s)
unfolding has_brace substitute_from
substitute_from-has_brace skip name [] h = refl
substitute_from-has_brace (suc skip) name (c ∷ s) h = substitute_from-has_brace skip name s h
substitute_from-has_brace zero name (c ∷ s) h = ground (
  arith,
  substitute_from-has_brace 12 name s h,
  substitute_from-has_brace zero name s h,
  has_brace-append name (substitute_from 12 name s),
)

-- A template without a stray brace has no brace left, whatever name without braces stands in it.
pub no_brace_left :
    (url name : List ℕ)
    → has_stray_brace url ≡ false
    → has_brace name ≡ false
    → has_brace (substitute_stream_name url name) ≡ false
unfolding has_stray_brace substitute_stream_name
no_brace_left url name h n = ground (arith, substitute_from-has_brace zero name url n)
