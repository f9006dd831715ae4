-- ===== src/Relay/Reach.antt =====
-- The loop over the upstreams ends, and finds one that can be reached.
use mathlib.Core.Path.{subst}
use irl_srt_server.Prelude.{
  ℕ, zero, suc, ◌+◌, ◌-◌, ◌≤◌, ◌<◌, ◌≡◌, ◌≢◌, refl, ◌∷◌, ◌++◌, true, false, Option, none, some,
  List, [], arith, leb, ◌==◌, ==_iff, if◌then◌else◌, Bool-cases, inl, inr, length, get_or,
}
use irl_srt_server.Prelude.Int.{ℤ}
use irl_srt_server.Relay.Url.{relay_url}
use irl_srt_server.Relay.Loop.{is_ok, Outcome, settle, wrap, try_from, start_index, connect_loop}

-- How many upstreams come behind `i` before the round ends at `cur`.
abbrev left : ℕ → ℕ → ℕ → ℕ
left n cur i = if leb i cur then cur - i else cur + n - i

-- The loop ends, with an outcome of this kind.
abbrev EndsIn : {S : Type 0} → (Outcome S → Type 0) → Option (Outcome S) → Type 0
EndsIn {S} P o = (r : Outcome S) × (o ≡ some r) × P r

settle-EndsIn :
    {S : Type 0} {P : Outcome S → Type 0} (i cur : ℕ) (r : ℤ × S) (later : S → Option (Outcome S))
    → (is_ok r.0 ≡ true → P (r.0, i, r.1))
    → (is_ok r.0 ≡ false → i ≡ cur → P (r.0, i, r.1))
    → (is_ok r.0 ≡ false → i ≢ cur → EndsIn P (later r.1))
    → EndsIn P (settle i cur r later)
settle-EndsIn i cur (ret, s) later done last more = elim (Bool-cases (is_ok ret)) [
  | inl ok ↦ rw ok ((ret, i, s), refl, done ok)
  | inr failed ↦ elim (Bool-cases (i == cur)) [
    | inl e ↦ rw (failed, e) ((ret, i, s), refl, last failed ((==_iff i cur).0 e))
    | inr e ↦ rw (failed, e) (more failed (λ eq. ground arith))
  ]
]

-- No URL of an upstream is too long.
abbrev pub AllFit : List (List ℕ) → List ℕ → Type 0
AllFit upstreams name =
    (i : ℕ)
    → i < length upstreams
    → (url : List ℕ) × (relay_url (get_or upstreams i []) name ≡ some url)

-- The index of a manager that has not connected yet, or of an upstream.
abbrev pub IsIndex : List (List ℕ) → Option ℕ → Type 0
IsIndex upstreams none = Unit
IsIndex upstreams (some cur) = cur < length upstreams

module _ {S : Type 0} (connect : List ℕ → S → ℤ × S) (upstreams : List (List ℕ))
    (name : List ℕ) where
  -- In every state of this kind the upstream answers.
  abbrev pub Answers : (S → Type 0) → ℕ → Type 0
  Answers Inv j =
      (url : List ℕ)
      → relay_url (get_or upstreams j []) name ≡ some url
      → (s : S) → Inv s
      → is_ok (connect url s).0 ≡ true

  -- An attempt that fails leaves a state of this kind.
  abbrev pub Retries : (S → Type 0) → Type 0
  Retries Inv =
      (url : List ℕ) (s : S) → Inv s → is_ok (connect url s).0 ≡ false → Inv (connect url s).1

  abbrev IsOk : Outcome S → Type 0
  IsOk r = is_ok r.0 ≡ true

  try_from-reaches :
      {Inv : S → Type 0} (fuel cur index j : ℕ) (s : S)
      → Retries Inv
      → Inv s
      → cur < length upstreams
      → left (length upstreams) cur (wrap (length upstreams) index) < fuel
      → AllFit upstreams name
      → Answers Inv j
      → j < length upstreams
      → left (length upstreams) cur j ≤ left (length upstreams) cur (wrap (length upstreams) index)
      → EndsIn IsOk (try_from connect upstreams name fuel cur index s)
  unfolding try_from
  try_from-reaches zero cur index j s again v h enough fit answers j_in ahead = absurd (omega arith)
  try_from-reaches (suc fuel) cur index j s again v h enough fit answers j_in ahead =
      let i : ℕ = wrap (length upstreams) index in
      let i_in : i < length upstreams = ground arith in
      let (url, e) = fit i i_in in
      let other : is_ok (connect url s).0 ≡ false → i ≢ j = λ failed same.
        let ok : is_ok (connect url s).0 ≡ true =
          answers url (subst (λ k. relay_url (get_or upstreams k []) name ≡ some url) same e) s v in
        absurd cc in
      rw (try_from, e)
        (settle-EndsIn i cur (connect url s)
          (λ s'. try_from connect upstreams name fuel cur (i + 1) s') (λ ok. ok)
          (λ failed at_end. absurd (other failed (ground (arith, at_end))))
          (λ failed on.
            try_from-reaches fuel cur (i + 1) j (connect url s).1 again (again url s v failed) h
              (ground (arith, on)) fit answers j_in (ground (arith, on, other failed))))

  start_index-lt :
      (cur : Option ℕ)
      → IsIndex upstreams cur
      → 0 < length upstreams
      → start_index connect upstreams name cur < length upstreams
  start_index-lt none h some_one = omega arith
  start_index-lt (some cur) h some_one = h

  -- If one upstream answers in every state that a failed attempt on the others can lead to, and no
  -- URL is too long, the loop connects.
  pub connect_loop-reaches :
      {Inv : S → Type 0} (cur : Option ℕ) (s : S) (j : ℕ)
      → IsIndex upstreams cur
      → AllFit upstreams name
      → j < length upstreams
      → Retries Inv
      → Inv s
      → Answers Inv j
      → (ret : ℤ) × (cur' : Option ℕ) × (s' : S) × (connect_loop connect upstreams name cur s
          ≡ some (ret, cur', s'))
        × (is_ok ret ≡ true)
  unfolding connect_loop
  connect_loop-reaches cur s j h fit j_in again v answers =
      let c : ℕ = start_index connect upstreams name cur in
      let c_in : c < length upstreams = start_index-lt cur h (omega arith) in
      let ((ret, i, s'), eq, ok) =
        try_from-reaches (length upstreams) c (c + 1) j s again v c_in (ground (arith, c_in)) fit
          answers j_in (ground (arith, c_in)) in
      let e : (length upstreams == 0) ≡ false = ground arith in
      rw (connect_loop, e, eq) (ret, some i, s', refl, ok)

-- The manager's `connect`, with the URLs that it is called with kept in a list, the first one first.
abbrev pub logged :
    {S : Type 0} → (List ℕ → S → ℤ × S) → List ℕ → S × List (List ℕ) → ℤ × (S × List (List ℕ))
logged connect url s = ((connect url s.0).0, ((connect url s.0).1, s.1 ++ url ∷ []))

abbrev pub dialled : List (List ℕ) → List (Option (List ℕ))
dialled [] = []
dialled (url ∷ urls) = some url ∷ dialled urls

-- The URLs of `k` upstreams one behind the other, from `index` on and around the end of the list.
abbrev pub tour : List (List ℕ) → List ℕ → ℕ → ℕ → List (Option (List ℕ))
tour upstreams name zero index = []
tour upstreams name (suc k) index =
    relay_url (get_or upstreams (wrap (length upstreams) index) []) name
    ∷ tour upstreams name k (wrap (length upstreams) index + 1)

module _ {S : Type 0} (connect : List ℕ → S → ℤ × S) (upstreams : List (List ℕ))
    (name : List ℕ) where
  -- The loop leaves an upstream's index and has dialled `most` upstreams at the most, from `index` on.
  abbrev HasToured : List (List ℕ) → ℕ → ℕ → Outcome (S × List (List ℕ)) → Type 0
  HasToured urls most index r =
      (r.1 < length upstreams)
      × ((k : ℕ) × (k ≤ most) × (dialled r.2.1 ≡ dialled urls ++ tour upstreams name k index))
