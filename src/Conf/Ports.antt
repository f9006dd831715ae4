-- ===== src/Conf/Ports.antt =====
-- `sls_parse_port_list` of src/core/conf.cpp, and the setter that checks a port list before it stores it.
use irl_srt_server.Prelude.{
  ℕ, zero, suc, ◌+◌, ◌-◌, Bool, false, ◌||◌, not, Option, none, some, List, [], ◌∷◌, ◌++◌, ◌==◌,
  ltb, if◌then◌else◌, length,
}
use irl_srt_server.Prelude.Int.{ℤ, pos, negsuc, ltb_ℤ, pos_part}
use irl_srt_server.Conf.{
  Answer, conf_ok, wrong_type, out_range, Number, strtol, string_split, is_empty,
}

-- `sls_parse_single_port`, `none` where it is not ok.
abbrev pub port_of : Number → Option ℕ
port_of n =
    if not n.has_digits
      || not (is_empty n.rest)
      || n.range_error
      || ltb_ℤ n.value (pos 1)
      || ltb_ℤ (pos 65535) n.value
    then none
    else some (pos_part n.value)

unfoldable pub parse_single_port : List ℕ → Option ℕ
parse_single_port [] = none
parse_single_port (c ∷ s) = port_of (strtol (c ∷ s))

abbrev is_blank : ℕ → Bool
is_blank c = c == 32 || c == 9

abbrev drop_blanks : List ℕ → List ℕ
drop_blanks [] = []
drop_blanks (c ∷ s) = let rest = drop_blanks s in if is_blank c then rest else c ∷ s

-- Puts a byte before what is left of the bytes behind it.
abbrev keep_before : ℕ → List ℕ → List ℕ
keep_before c [] = if is_blank c then [] else c ∷ []
keep_before c (d ∷ s) = c ∷ d ∷ s

abbrev drop_blanks_behind : List ℕ → List ℕ
drop_blanks_behind [] = []
drop_blanks_behind (c ∷ s) = keep_before c (drop_blanks_behind s)

unfoldable pub trim_local : List ℕ → List ℕ
trim_local s = drop_blanks_behind (drop_blanks s)

abbrev pub elem : ℕ → List ℕ → Bool
elem p [] = false
elem p (q ∷ out) = p == q || elem p out

unfoldable pub push_unique : ℕ → List ℕ → List ℕ
push_unique port out = if elem port out then out else out ++ port ∷ []

-- The ports from one on, so many of them.
unfoldable pub push_range : ℕ → ℕ → List ℕ → List ℕ
push_range port zero out = out
push_range port (suc n) out = push_range (port + 1) n (push_unique port out)

-- What stands before the first dash and what stands behind it.
unfoldable pub at_dash : List ℕ → Option (List ℕ × List ℕ)
at_dash [] = none
at_dash (c ∷ s) = let later = at_dash s in if c == 45 then some ([], s) else behind c later
  where
    behind : ℕ → Option (List ℕ × List ℕ) → Option (List ℕ × List ℕ)
    behind c none = none
    behind c (some (lo, hi)) = some (c ∷ lo, hi)

-- One token of the list, `none` where it is malformed.
abbrev pub push_port : Option ℕ → List ℕ → Option (List ℕ)
push_port none out = none
push_port (some p) out = some (push_unique p out)

abbrev pub push_between : Option ℕ → Option ℕ → List ℕ → Option (List ℕ)
push_between (some lo) (some hi) out =
    if ltb hi lo then none else some (push_range lo (hi - lo + 1) out)
push_between _ _ out = none

abbrev pub push_ports : Option (List ℕ × List ℕ) → List ℕ → List ℕ → Option (List ℕ)
push_ports none tok out = push_port (parse_single_port tok) out
push_ports (some (lo, hi)) tok out =
    push_between (parse_single_port (trim_local lo)) (parse_single_port (trim_local hi)) out

unfoldable pub parse_token : List ℕ → List ℕ → Option (List ℕ)
parse_token [] out = some out
parse_token (c ∷ tok) out = push_ports (at_dash (c ∷ tok)) (c ∷ tok) out

-- The loop over the tokens. At a malformed one it returns -1, and `out_ports` keeps what is in it.
abbrev pub next_token : Option (List ℕ) → (List ℕ → ℤ × List ℕ) → List ℕ → ℤ × List ℕ
next_token none later out = (negsuc 0, out)
next_token (some out') later out = later out'

unfoldable pub parse_tokens : List (List ℕ) → List ℕ → ℤ × List ℕ
parse_tokens [] out = (pos (length out), out)
parse_tokens (raw ∷ tokens) out =
    next_token (parse_token (trim_local raw) out) (parse_tokens tokens) out

unfoldable pub parse_port_list : Option (List ℕ) → ℤ × List ℕ
parse_port_list none = (pos 0, [])
parse_port_list (some []) = (pos 0, [])
parse_port_list (some (c ∷ spec)) = parse_tokens (string_split (λ d. d == 44) (c ∷ spec)) []

abbrev pub answer_of : Bool → Bool → List ℕ → Answer × Option (List ℕ)
answer_of misfits malformed v =
    if misfits
    then (out_range, none)
    else if malformed
    then (wrong_type, none)
    else (conf_ok, some v)

-- `sls_conf_set_portlist`: the answer, and what it stores. `least` and `most` are the command's, which
-- stand for the lengths that the field takes.
unfoldable pub set_portlist : ℕ → ℕ → Option (List ℕ) → Answer × Option (List ℕ)
set_portlist least most none = (wrong_type, none)
set_portlist least most (some []) = (wrong_type, none)
set_portlist least most (some (c ∷ v)) =
    let (ret, ports) = parse_port_list (some (c ∷ v)) in
    answer_of (ltb (length (c ∷ v)) least || ltb most (length (c ∷ v)))
      (ltb_ℤ ret (pos 0) || is_empty ports) (c ∷ v)
