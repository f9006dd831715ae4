-- ===== src/Relay/Loop.antt =====
-- `CSLSPullerManager::connect_loop`: one upstream after the other, from the one behind the last, until
-- one connects. `connect` is the manager's `connect`, on the state that it changes.
use irl_srt_server.Prelude.{
  ℕ, zero, suc, ◌+◌, ◌-◌, Bool, true, false, Option, none, some, List, [], leb, ◌==◌, if◌then◌else◌,
  length, get_or,
}
use irl_srt_server.Prelude.Int.{ℤ, pos, sls_error}
use irl_srt_server.Relay.Url.{relay_url}

abbrev pub is_ok : ℤ → Bool
is_ok (pos zero) = true
is_ok _ = false

-- The result, `m_cur_loop_index` and the state.
abbrev pub Outcome : Type 0 → Type 0
Outcome S = ℤ × ℕ × S

abbrev pub wrap : ℕ → ℕ → ℕ
wrap n index = if leb n index then 0 else index

-- Behind an attempt on upstream `i`: done, or the round is complete, or on to the next one.
abbrev pub settle : {S : Type 0} → ℕ → ℕ → ℤ × S → (S → Option (Outcome S)) → Option (Outcome S)
settle i cur (ret, s) later =
    if is_ok ret then some (ret, i, s) else if i == cur then some (ret, i, s) else later s

module _ {S : Type 0} (connect : List ℕ → S → ℤ × S) (upstreams : List (List ℕ))
    (name : List ℕ) where
  -- The `while (true)`, on fuel: `none` if it runs out. A URL that is too long ends the loop and
  -- leaves the index as it was.
  unfoldable pub try_from : ℕ → ℕ → ℕ → S → Option (Outcome S)
  try_from zero cur index s = none
  try_from (suc fuel) cur index s =
      let i = wrap (length upstreams) index in
      let later = λ (s' : S). try_from fuel cur (i + 1) s' in
      elim (relay_url (get_or upstreams i []) name) [
        | none ↦ some (sls_error, cur, s)
        | some url ↦ settle i cur (connect url s) later
      ]

  -- `none` stands for the -1 of a manager that has not connected yet.
  abbrev pub start_index : Option ℕ → ℕ
  start_index none = length upstreams - 1
  start_index (some cur) = cur

  unfoldable pub connect_loop : Option ℕ → S → Option (ℤ × Option ℕ × S)
  connect_loop cur s =
      if length upstreams == 0
      then some (sls_error, cur, s)
      else elim (try_from (length upstreams) (start_index cur) (start_index cur + 1) s) [
        | none ↦ none
        | some (ret, i, s') ↦ some (ret, some i, s')
      ]
