-- ===== src/Conf.antt =====
-- src/core/conf.cpp: how the values of a configuration line are read: the split into words, the
-- numbers and the port lists. A value is the bytes of a C string, `none` for NULL.
pub mod Ports
pub mod Valid
use irl_srt_server.Prelude.{
  ℕ, zero, suc, ◌+◌, ◌-◌, ◌*◌, ◌^◌, Bool, true, false, ◌&&◌, ◌||◌, not, Option, none, some, List,
  [], ◌∷◌, ◌==◌, ltb, leb, if◌then◌else◌,
}
use irl_srt_server.Prelude.Int.{ℤ, pos, negsuc, ltb_ℤ}

-- SLS_CONF_OK, SLS_CONF_WRONG_TYPE and SLS_CONF_OUT_RANGE.
pub data Answer : Type 0 where
  conf_ok : Answer
  wrong_type : Answer
  out_range : Answer

-- `sls_conf_string_split`: the first word, from the start on, and the words behind it. `strtok` gives no
-- empty word.
abbrev pub put_word : List ℕ → List (List ℕ) → List (List ℕ)
put_word [] words = words
put_word (c ∷ word) words = (c ∷ word) ∷ words

unfoldable pub split_words : (ℕ → Bool) → List ℕ → List ℕ × List (List ℕ)
split_words is_delim [] = ([], [])
split_words is_delim (c ∷ s) =
    let (word, words) = split_words is_delim s in
    if is_delim c then ([], put_word word words) else (c ∷ word, words)

unfoldable pub string_split : (ℕ → Bool) → List ℕ → List (List ℕ)
string_split is_delim s = let (word, words) = split_words is_delim s in put_word word words

-- What `strtol` in base 10 gives: the value, what is left behind the digits, whether there was a digit,
-- and whether the value is out of range.
pub record Number : Type 0 where
  pub value : ℤ
  pub rest : List ℕ
  pub has_digits : Bool
  pub range_error : Bool

abbrev is_space : ℕ → Bool
is_space c = c == 32 || leb 9 c && leb c 13

abbrev pub is_digit : ℕ → Bool
is_digit c = leb 48 c && leb c 57

abbrev skip_spaces : List ℕ → List ℕ
skip_spaces [] = []
skip_spaces (c ∷ s) = let rest = skip_spaces s in if is_space c then rest else c ∷ s

abbrev read_digits : ℕ → List ℕ → ℕ × List ℕ
read_digits n [] = (n, [])
read_digits n (c ∷ s) =
    let later = read_digits (n * 10 + (c - 48)) s in if is_digit c then later else (n, c ∷ s)

abbrev negated : ℕ → ℤ
negated zero = pos 0
negated (suc n) = negsuc n

-- A `long` of 64 bits, at its limit where the number is out of range.
abbrev clamped : Bool → ℕ → ℤ
clamped true n = if ltb (2 ^ 63) n then negsuc (2 ^ 63 - 1) else negated n
clamped false n = if ltb (2 ^ 63 - 1) n then pos (2 ^ 63 - 1) else pos n

abbrev exceeds : Bool → ℕ → Bool
exceeds true n = ltb (2 ^ 63) n
exceeds false n = ltb (2 ^ 63 - 1) n

abbrev no_number : Number
no_number = record { value = pos 0; rest = []; has_digits = false; range_error = false }

abbrev read_number : Bool → List ℕ → Number
read_number minus [] = no_number
read_number minus (c ∷ s) =
    let (n, rest) = read_digits 0 (c ∷ s) in
    if is_digit c
    then record {
      value = clamped minus n;
      rest = rest;
      has_digits = true;
      range_error = exceeds minus n;
    }
    else no_number

abbrev read_sign : List ℕ → Number
read_sign [] = no_number
read_sign (c ∷ s) =
    if c == 45
    then read_number true s
    else if c == 43
    then read_number false s
    else read_number false (c ∷ s)

unfoldable pub strtol : List ℕ → Number
strtol s = read_sign (skip_spaces s)

abbrev pub is_empty : List ℕ → Bool
is_empty [] = true
is_empty (c ∷ s) = false

-- `sls_conf_set_int`: the answer, and what it stores. `least` and `most` are the command's.
abbrev checked_int : ℤ → ℤ → Number → Answer × Option ℤ
checked_int least most n =
    if not n.has_digits
      || not (is_empty n.rest)
      || n.range_error
      || ltb_ℤ n.value (negsuc (2 ^ 31 - 1))
      || ltb_ℤ (pos (2 ^ 31 - 1)) n.value
    then (wrong_type, none)
    else if ltb_ℤ n.value least || ltb_ℤ most n.value
    then (out_range, none)
    else (conf_ok, some n.value)

unfoldable pub set_int : ℤ → ℤ → Option (List ℕ) → Answer × Option ℤ
set_int least most none = (wrong_type, none)
set_int least most (some []) = (wrong_type, none)
set_int least most (some (c ∷ v)) = checked_int least most (strtol (c ∷ v))
