-- ===== src/Conf/Valid.antt =====
-- What `sls_parse_port_list` leaves: ports, each once.
use mathlib.Core.Path.{subst}
use irl_srt_server.Prelude.{
  ℕ, zero, suc, ◌+◌, ◌-◌, ◌≤◌, ◌≡◌, ◌≢◌, refl, ap, Bool, true, false, ◌||◌, not, Option, none, some,
  List, [], ◌∷◌, ◌++◌, arith, ◌==◌, ltb, if◌then◌else◌, length, Bool-cases, inl, inr, ◌⊎◌,
}
use irl_srt_server.Prelude.Int.{ℤ, pos, negsuc, ltb_ℤ, pos_part}
use irl_srt_server.Conf.{Answer, conf_ok, wrong_type, out_range, Number, strtol, is_empty}
use irl_srt_server.Conf.Ports.{
  port_of, parse_single_port, trim_local, elem, push_unique, push_range, at_dash, push_port,
  push_between, push_ports, parse_token, next_token, parse_tokens, parse_port_list, set_portlist,
  answer_of,
}

-- Each port is one of 1 to 65535 and stands once.
abbrev pub ArePorts : List ℕ → Type 0
ArePorts [] = Unit
ArePorts (p ∷ ps) = (1 ≤ p) × (p ≤ 65535) × (elem p ps ≡ false) × ArePorts ps

in_range :
    (v : ℤ)
    → ltb_ℤ v (pos 1) ≡ false
    → ltb_ℤ (pos 65535) v ≡ false
    → (1 ≤ pos_part v) × (pos_part v ≤ 65535)
in_range (pos n) l u = (ground (arith, l), ground (arith, u))
in_range (negsuc n) l u = absurd (ground (arith, l))

-- Of what refuses a port, the last two tests.
kept :
    (x y z l u : Bool) {n p : ℕ}
    → (if x || y || z || l || u then none else some n) ≡ some p
    → (l ≡ false) × (u ≡ false) × (n ≡ p)
kept true y z l u e = absurd cc
kept false true z l u e = absurd cc
kept false false true l u e = absurd cc
kept false false false true u e = absurd cc
kept false false false false true e = absurd cc
kept false false false false false e = (refl, refl, cc)

port_of-bounds : (n : Number) (p : ℕ) → port_of n ≡ some p → (1 ≤ p) × (p ≤ 65535)
port_of-bounds n p e =
    let (l, u, same) =
      kept (not n.has_digits) (not (is_empty n.rest)) n.range_error (ltb_ℤ n.value (pos 1))
        (ltb_ℤ (pos 65535) n.value) e in
    subst (λ q. (1 ≤ q) × (q ≤ 65535)) same (in_range n.value l u)

parse_single_port-bounds :
    (s : List ℕ) (p : ℕ) → parse_single_port s ≡ some p → (1 ≤ p) × (p ≤ 65535)
unfolding parse_single_port
parse_single_port-bounds [] p e = absurd cc
parse_single_port-bounds (c ∷ s) p e = port_of-bounds (strtol (c ∷ s)) p e

elem-append : (p q : ℕ) (ps : List ℕ) → elem p (ps ++ q ∷ []) ≡ (elem p ps || p == q)
elem-append p q [] = ground arith
elem-append p q (r ∷ ps) = ground (arith, elem-append p q ps)

append-ArePorts :
    (p : ℕ) (ps : List ℕ)
    → (1 ≤ p) × (p ≤ 65535)
    → elem p ps ≡ false
    → ArePorts ps
    → ArePorts (ps ++ p ∷ [])
append-ArePorts p [] (l, u) h v = (l, u, refl, record {})
append-ArePorts p (q ∷ ps) b h (l, u, d, v) =
    (l, u, ground (arith, elem-append q p ps, h, d), append-ArePorts p ps b (ground (arith, h)) v)

push_unique-ArePorts :
    (p : ℕ) (ps : List ℕ) → (1 ≤ p) × (p ≤ 65535) → ArePorts ps → ArePorts (push_unique p ps)
unfolding push_unique
push_unique-ArePorts p ps b v = elim (Bool-cases (elem p ps)) [
  | inl old ↦ rw old v
  | inr new ↦ rw new (append-ArePorts p ps b new v)
]

push_range-ArePorts :
    (p n : ℕ) (ps : List ℕ) → 1 ≤ p → p + n ≤ 65536 → ArePorts ps → ArePorts (push_range p n ps)
unfolding push_range
push_range-ArePorts p zero ps l u v = v
push_range-ArePorts p (suc n) ps l u v =
    push_range-ArePorts (p + 1) n (push_unique p ps) (omega arith) (omega arith)
      (push_unique-ArePorts p ps (l, omega arith) v)

-- A result, where there is one.
abbrev AreResult : Option (List ℕ) → Type 0
AreResult none = Unit
AreResult (some ps) = ArePorts ps

AreBounds : Option ℕ → Type 0
AreBounds o = (p : ℕ) → o ≡ some p → (1 ≤ p) × (p ≤ 65535)

push_port-ArePorts :
    (o : Option ℕ) (ps : List ℕ) → AreBounds o → ArePorts ps → AreResult (push_port o ps)
unfolding AreBounds
push_port-ArePorts none ps b v = record {}
push_port-ArePorts (some p) ps b v = push_unique-ArePorts p ps (b p refl) v

push_between-ArePorts :
    (lo hi : Option ℕ) (ps : List ℕ)
    → AreBounds lo
    → AreBounds hi
    → ArePorts ps
    → AreResult (push_between lo hi ps)
unfolding AreBounds
push_between-ArePorts none hi ps a b v = record {}
push_between-ArePorts (some lo) none ps a b v = record {}
push_between-ArePorts (some lo) (some hi) ps a b v = elim (Bool-cases (ltb hi lo)) [
  | inl over ↦ rw over record {}
  | inr ok ↦ rw ok (push_range-ArePorts lo (hi - lo + 1) ps (a lo refl).0 (reaches ok) v)
]
  where
    reaches : ltb hi lo ≡ false → lo + (hi - lo + 1) ≤ 65536
    reaches ok = let (_, below) = b hi refl in ground (arith, ok, below)

parse_token-ArePorts : (tok ps : List ℕ) → ArePorts ps → AreResult (parse_token tok ps)
unfolding parse_token AreBounds
parse_token-ArePorts [] ps v = v
parse_token-ArePorts (c ∷ tok) ps v = ports (at_dash (c ∷ tok))
  where
    ports : (o : Option (List ℕ × List ℕ)) → AreResult (push_ports o (c ∷ tok) ps)
    ports none = push_port-ArePorts _ ps (parse_single_port-bounds (c ∷ tok)) v
    ports (some (lo, hi)) =
        push_between-ArePorts _ _ ps (parse_single_port-bounds (trim_local lo))
          (parse_single_port-bounds (trim_local hi)) v

-- Ports, and -1 or their number.
abbrev pub IsResult : ℤ × List ℕ → Type 0
IsResult (ret, ports) = ArePorts ports × ((ret ≡ negsuc 0) ⊎ (ret ≡ pos (length ports)))

next_token-ArePorts :
    (o : Option (List ℕ)) (later : List ℕ → ℤ × List ℕ) (ps : List ℕ)
    → AreResult o
    → ArePorts ps
    → ((ps' : List ℕ) → ArePorts ps' → IsResult (later ps'))
    → IsResult (next_token o later ps)
next_token-ArePorts none later ps r v ih = (v, inl refl)
next_token-ArePorts (some ps') later ps r v ih = ih ps' r

parse_tokens-ArePorts :
    (toks : List (List ℕ)) (ps : List ℕ) → ArePorts ps → IsResult (parse_tokens toks ps)
unfolding parse_tokens
parse_tokens-ArePorts [] ps v = (v, inr refl)
parse_tokens-ArePorts (raw ∷ toks) ps v =
    next_token-ArePorts (parse_token (trim_local raw) ps) (parse_tokens toks) ps
      (parse_token-ArePorts (trim_local raw) ps v) v (parse_tokens-ArePorts toks)

pub parse_port_list-ArePorts : (spec : Option (List ℕ)) → IsResult (parse_port_list spec)
unfolding parse_port_list
parse_port_list-ArePorts none = (record {}, inr refl)
parse_port_list-ArePorts (some []) = (record {}, inr refl)
parse_port_list-ArePorts (some (c ∷ spec)) = parse_tokens-ArePorts _ [] (record {})

abbrev first : Answer × Option (List ℕ) → Answer
first (a, v) = a

abbrev second : Answer × Option (List ℕ) → Option (List ℕ)
second (a, v) = v

-- One port or more, and their number.
abbrev pub IsStored : ℤ × List ℕ → Type 0
IsStored (ret, ports) = ArePorts ports × (ret ≡ pos (length ports)) × (1 ≤ length ports)

out_range≢conf_ok : out_range ≢ conf_ok
out_range≢conf_ok e = cc

wrong_type≢conf_ok : wrong_type ≢ conf_ok
wrong_type≢conf_ok e = cc

accepted :
    (misfits malformed : Bool) (v : List ℕ) {spec : Option (List ℕ)}
    → answer_of misfits malformed v ≡ (conf_ok, spec)
    → (malformed ≡ false) × (some v ≡ spec)
accepted true malformed v e = absurd (out_range≢conf_ok (ap first e))
accepted false true v e = absurd (wrong_type≢conf_ok (ap first e))
accepted false false v e = (refl, ap second e)

true≢false : true ≢ false
true≢false e = cc

result-IsStored :
    (r : ℤ × List ℕ) → IsResult r → (ltb_ℤ r.0 (pos 0) || is_empty r.1) ≡ false → IsStored r
result-IsStored (ret, ports) (v, inl e) h = absurd (below e h)
  where
    below : ret ≡ negsuc 0 → (ltb_ℤ ret (pos 0) || is_empty ports) ≢ false
    below e h = true≢false (rw e at h)
result-IsStored (ret, []) (v, inr e) h = absurd (empty e h)
  where
    empty : ret ≡ pos 0 → (ltb_ℤ ret (pos 0) || true) ≢ false
    empty e h = true≢false (rw e at h)
result-IsStored (ret, p ∷ ports) (v, inr e) h = (v, e, omega arith)

-- A port list that the setter accepts and stores, read again as the server does at its start, gives its
-- number of ports, which is one or more, and each port is one of 1 to 65535 and stands once.
pub set_portlist-stores :
    (least most : ℕ) (v : Option (List ℕ)) (spec : Option (List ℕ))
    → set_portlist least most v ≡ (conf_ok, spec)
    → IsStored (parse_port_list spec)
unfolding set_portlist
set_portlist-stores least most none spec e = absurd (wrong_type≢conf_ok (ap first e))
set_portlist-stores least most (some []) spec e = absurd (wrong_type≢conf_ok (ap first e))
set_portlist-stores least most (some (c ∷ v)) spec e =
    let (well_formed, same) = accepted _ _ (c ∷ v) e in
    subst (λ s. IsStored (parse_port_list s)) same
      (result-IsStored (parse_port_list (some (c ∷ v))) (parse_port_list-ArePorts (some (c ∷ v)))
        well_formed)
