-- ===== src/Ts/Continuity/Tracking.antt =====
-- `sls_ts_check_continuity` against a checker that remembers every packet: sixteen slots are enough
-- for a stream of at most sixteen PIDs.
use irl_srt_server.Prelude.{
  ℕ, zero, suc, ◌+◌, ◌≤◌, ◌≡◌, refl, sym, ap₂, ◌∙◌, ◌⊎◌, inl, inr, true, Option, some, none, List,
  [], ◌∷◌, ◌++◌, arith, ◌==◌, lt→ltb, if◌then◌else◌, Bool-cases, Option-cases, length,
  length-append, drop,
}
use irl_srt_server.Ts.{ts_pack_len, pid_of}
use irl_srt_server.Ts.Continuity.{
  CcState, init, last_cc_of, set_last_cc, add_slot, is_checked, has_payload, cc_of, is_break,
  check_slot, check_packet, check_packets,
}

pub last_cc_of-set_last_cc :
    (q pid cc : ℕ) (st : CcState) (last : ℕ)
    → last_cc_of pid st ≡ some last
    → last_cc_of q (set_last_cc pid cc st) ≡ (if pid == q then some cc else last_cc_of q st)
unfolding last_cc_of set_last_cc
last_cc_of-set_last_cc q pid cc [] last e = ground arith
last_cc_of-set_last_cc q pid cc (s ∷ st) last e =
    ground (arith, last_cc_of-set_last_cc q pid cc st last)

pub last_cc_of-append :
    (q pid cc : ℕ) (st : CcState)
    → last_cc_of pid st ≡ none
    → last_cc_of q (st ++ record { pid = pid; last_cc = cc } ∷ [])
      ≡ (if pid == q then some cc else last_cc_of q st)
unfolding last_cc_of
last_cc_of-append q pid cc [] e = ground arith
last_cc_of-append q pid cc (s ∷ st) e = ground (arith, last_cc_of-append q pid cc st)

length-set_last_cc : (pid cc : ℕ) (st : CcState) → length (set_last_cc pid cc st) ≡ length st
unfolding set_last_cc
length-set_last_cc pid cc [] = refl
length-set_last_cc pid cc (s ∷ st) = ground (arith, length-set_last_cc pid cc st)

-- The reference: all observations, the newest in front.
unfoldable pub recall_slot : List ℕ → CcState → Option ℕ → ℕ × CcState
recall_slot p history none = (0, record { pid = pid_of p; last_cc = cc_of p } ∷ history)
recall_slot p history (some last) =
    if has_payload p
    then (if is_break p last then 1 else 0, record { pid = pid_of p; last_cc = cc_of p } ∷ history)
    else (0, history)

unfoldable pub recall_packet : List ℕ → CcState → ℕ × CcState
recall_packet p history =
    if is_checked p then recall_slot p history (last_cc_of (pid_of p) history) else (0, history)

unfoldable pub recall_packets : ℕ → List ℕ → CcState → ℕ
recall_packets zero data_ history = 0
recall_packets (suc n) data_ history =
    (recall_packet data_ history).0
    + recall_packets n (drop ts_pack_len data_) (recall_packet data_ history).1

-- Every packet that is checked has one of these PIDs.
abbrev pub Member : ℕ → List ℕ → Type 0
Member pid [] = ⊥
Member pid (q ∷ qs) = (q ≡ pid) ⊎ Member pid qs

abbrev pub OfPids : List ℕ → ℕ → List ℕ → Type 0
OfPids pids zero data_ = Unit {0}
OfPids pids (suc n) data_ =
    (is_checked data_ ≡ true → Member (pid_of data_) pids) × OfPids pids n (drop ts_pack_len data_)

-- How many of the PIDs have no slot yet.
untracked : List ℕ → CcState → ℕ
untracked [] st = 0
untracked (q ∷ qs) st = elim (last_cc_of q st) [
  | none ↦ 1 + untracked qs st
  | some _ ↦ untracked qs st
]

-- The slots agree with the history, and there is room for the PIDs to come.
record Agrees (pids : List ℕ) (st history : CcState) : Type 0 where
  same : (q : ℕ) → last_cc_of q st ≡ last_cc_of q history
  room : length st + untracked pids st ≤ 16

untracked_mono :
    (qs : List ℕ) (st st' : CcState)
    → ((q : ℕ) → last_cc_of q st' ≡ none → last_cc_of q st ≡ none)
    → untracked qs st' ≤ untracked qs st
unfolding untracked
untracked_mono [] st st' keep = omega arith
untracked_mono (q ∷ qs) st st' keep = ground (arith, untracked_mono qs st st' keep, keep q)

untracked-gain :
    (pid : ℕ) (qs : List ℕ) (st st' : CcState)
    → ((q : ℕ) → last_cc_of q st' ≡ none → last_cc_of q st ≡ none)
    → Member pid qs
    → last_cc_of pid st ≡ none
    → (last : ℕ) → last_cc_of pid st' ≡ some last
    → 1 + untracked qs st' ≤ untracked qs st
unfolding untracked
untracked-gain pid [] st st' keep m e last e' = absurd m
untracked-gain pid (q ∷ qs) st st' keep (inl here) e last e' =
    ground (arith, untracked_mono qs st st' keep)
untracked-gain pid (q ∷ qs) st st' keep (inr there) e last e' =
    ground (arith, untracked-gain pid qs st st' keep there e last e', keep q)

module _ (pids : List ℕ) (p : List ℕ) (st history : CcState) (a : Agrees pids st history) where
  seen-Agrees :
      (last : ℕ)
      → last_cc_of (pid_of p) st ≡ some last
      → ((check_slot p st (some last)).0 ≡ (recall_slot p history (some last)).0)
        × Agrees pids (check_slot p st (some last)).1 (recall_slot p history (some last)).1
  unfolding check_slot recall_slot
  seen-Agrees last e = elim (Bool-cases (has_payload p)) [
    | inl payload ↦ rw payload (refl, updated)
    | inr bare ↦ rw bare (refl, a)
  ]
    where
      st' : CcState
      st' = set_last_cc (pid_of p) (cc_of p) st

      lookup' :
          (q : ℕ) → last_cc_of q st' ≡ (if pid_of p == q then some (cc_of p) else last_cc_of q st)
      lookup' q = last_cc_of-set_last_cc q (pid_of p) (cc_of p) st last e

      updated : Agrees pids st' (record { pid = pid_of p; last_cc = cc_of p } ∷ history)
      updated = record {
        same = λ q. unfold last_cc_of in ground (arith, lookup' q, a.same q);
        room = omega (
          arith,
          a.room,
          length-set_last_cc (pid_of p) (cc_of p) st,
          untracked_mono pids st st' (λ q h. ground (arith, lookup' q, h)),
        );
      }

  new-Agrees :
      Member (pid_of p) pids
      → last_cc_of (pid_of p) st ≡ none
      → ((check_slot p st none).0 ≡ (recall_slot p history none).0)
        × Agrees pids (check_slot p st none).1 (recall_slot p history none).1
  unfolding check_slot recall_slot add_slot
  new-Agrees m e = (
    refl,
    rw (lt→ltb (length st) 16 (omega (arith, a.room, gain))) (record {
      same = λ q. unfold last_cc_of in ground (arith, lookup' q, a.same q);
      room = omega (
        arith,
        a.room,
        gain,
        length-append st (record { pid = pid_of p; last_cc = cc_of p } ∷ []),
      );
    }),
  )
    where
      st' : CcState
      st' = st ++ record { pid = pid_of p; last_cc = cc_of p } ∷ []

      lookup' :
          (q : ℕ) → last_cc_of q st' ≡ (if pid_of p == q then some (cc_of p) else last_cc_of q st)
      lookup' q = last_cc_of-append q (pid_of p) (cc_of p) st e

      gain : 1 + untracked pids st' ≤ untracked pids st
      gain =
          untracked-gain (pid_of p) pids st st' (λ q h. ground (arith, lookup' q, h)) m e (cc_of p)
            (ground (arith, lookup' (pid_of p)))

  check_packet-Agrees :
      (is_checked p ≡ true → Member (pid_of p) pids)
      → ((check_packet p st).0 ≡ (recall_packet p history).0)
        × Agrees pids (check_packet p st).1 (recall_packet p history).1
  check_packet-Agrees known = elim (Bool-cases (is_checked p)) [
    | inr skipped ↦ unfold check_packet recall_packet in rw skipped (refl, a)
    | inl checked ↦ elim (Option-cases (last_cc_of (pid_of p) st)) [
      | inl e ↦
          unfold check_packet recall_packet in
          rw (checked, e, sym (a.same (pid_of p)) ∙ e) (new-Agrees (known checked) e)
      | inr (last, e) ↦
          unfold check_packet recall_packet in
          rw (checked, e, sym (a.same (pid_of p)) ∙ e) (seen-Agrees last e)
    ]
  ]

check_packets-Agrees :
    (n : ℕ) (pids data_ : List ℕ) (st history : CcState)
    → OfPids pids n data_
    → Agrees pids st history
    → (check_packets n data_ st).0 ≡ recall_packets n data_ history
unfolding check_packets recall_packets
check_packets-Agrees zero pids data_ st history k a = refl
check_packets-Agrees (suc n) pids data_ st history k a =
    let step = check_packet-Agrees pids data_ st history a k.0 in
    ap₂ ◌+◌ step.0 (
      check_packets-Agrees n pids (drop ts_pack_len data_) (check_packet data_ st).1
        (recall_packet data_ history).1 k.1 step.1)

untracked-init : (pids : List ℕ) → untracked pids init ≡ length pids
unfolding untracked last_cc_of
untracked-init [] = refl
untracked-init (q ∷ qs) = omega (arith, untracked-init qs)

-- On a stream whose checked packets have at most sixteen PIDs, the checker counts the breaks that a
-- checker with unbounded memory counts.
pub check_packets-eq-recall_packets :
    (n : ℕ) (pids data_ : List ℕ)
    → length pids ≤ 16
    → OfPids pids n data_
    → (check_packets n data_ init).0 ≡ recall_packets n data_ []
check_packets-eq-recall_packets n pids data_ few known =
    check_packets-Agrees n pids data_ init [] known
      (record { same = λ q. refl; room = omega (arith, untracked-init pids) })

check_packet-bound :
    (p : List ℕ) (st : CcState) → length st ≤ 16 → length (check_packet p st).1 ≤ 16
unfolding check_packet check_slot add_slot
check_packet-bound p st h = elim (Option-cases (last_cc_of (pid_of p) st)) [
  | inl e ↦ ground (arith, e, length-append st (record { pid = pid_of p; last_cc = cc_of p } ∷ []))
  | inr (last, e) ↦ ground (arith, e, length-set_last_cc (pid_of p) (cc_of p) st)
]

-- The checker never uses more slots than the arrays of the state have.
pub check_packets-bound :
    (n : ℕ) (data_ : List ℕ) (st : CcState)
    → length st ≤ 16
    → length (check_packets n data_ st).1 ≤ 16
unfolding check_packets
check_packets-bound zero data_ st h = h
check_packets-bound (suc n) data_ st h =
    check_packets-bound n (drop ts_pack_len data_) (check_packet data_ st).1
      (check_packet-bound data_ st h)
