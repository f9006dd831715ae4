-- ===== src/BitrateLimit/Verdict.antt =====
-- The verdict of `check_data_bitrate` in src/core/SLSBitrateLimit.cpp against the history of verdicts:
-- a stream is cut off when the unbroken run of violations up to now has lasted the threshold.
use irl_srt_server.Prelude.{
  ℕ, ◌≡◌, ◌≢◌, refl, sym, ap, ◌∙◌, Bool, true, false, Option, none, some, List, [], ◌∷◌, arith, ltb,
  if◌then◌else◌, Bool-cases, inl, inr,
}
use irl_srt_server.Prelude.Int.{pos, sub_ℕ, leb_ℤ}
use irl_srt_server.BitrateLimit.{
  Limiter, Check, bitrate_ok, bitrate_violation, bitrate_disconnect, cleanup_old_data, push,
  cleanup_each_second, note_violation, judge, check_data_bitrate, bitrate_in_window,
}

-- The verdicts so far with their times, the newest in front.
abbrev pub History : Type 0
History = List (ℕ × Check)

abbrev oldest : ℕ → Option ℕ → Option ℕ
oldest t none = some t
oldest t (some start) = some start

-- When the unbroken run of violations that leads up to now began.
unfoldable pub run_start : History → Option ℕ
run_start [] = none
run_start ((t, bitrate_ok) ∷ h) = none
run_start ((t, bitrate_violation) ∷ h) = oldest t (run_start h)
run_start ((t, bitrate_disconnect) ∷ h) = oldest t (run_start h)

abbrev pub violation_of : Limiter → Option ℕ
violation_of l = if l.in_violation then some l.violation_start_time else none

-- Whether a run that began then has lasted the threshold.
abbrev pub lasted : ℕ → ℕ → Option ℕ → Bool
lasted threshold now none = false
lasted threshold now (some start) = leb_ℤ (pos threshold) (sub_ℕ now start)

abbrev pub is_disconnect : Check → Bool
is_disconnect bitrate_disconnect = true
is_disconnect _ = false

unfoldable pub judge_all : Limiter → History → List (ℕ × ℕ) → Limiter × History
judge_all l h [] = (l, h)
judge_all l h ((bytes, now) ∷ rest) =
    let (c, l') = check_data_bitrate l bytes now in judge_all l' ((now, c) ∷ h) rest

note-in : (l : Limiter) (now : ℕ) → (note_violation l now).in_violation ≡ true
unfolding note_violation
note-in l now = ground arith

note-start :
    (l : Limiter) (now : ℕ)
    → oldest now (violation_of l) ≡ some (note_violation l now).violation_start_time
unfolding note_violation
note-start l now = ground arith

judge-tracks :
    (l : Limiter) (h : History) (now : ℕ)
    → violation_of l ≡ run_start h
    → (violation_of (judge l now).1 ≡ run_start ((now, (judge l now).0) ∷ h))
      × (is_disconnect (judge l now).0
          ≡ lasted l.violation_threshold_ms now (run_start ((now, (judge l now).0) ∷ h)))
unfolding judge run_start
judge-tracks l h now e =
    elim (Bool-cases (ltb (l.spike_limit l.max_bitrate_kbps) (bitrate_in_window l now))) [
      | inr x ↦ rw x (ground arith, refl)
      | inl x ↦
          elim (Bool-cases (
            leb_ℤ (pos l.violation_threshold_ms)
              (sub_ℕ now (note_violation l now).violation_start_time))) [
                | inl y ↦ rw (x, y) (rw (started, note-in l now) (refl, sym y))
                | inr y ↦ rw (x, y) (rw (started, note-in l now) (refl, sym y))
              ]
    ]
  where
    started : oldest now (run_start h) ≡ some (note_violation l now).violation_start_time
    started = rw (sym e) (note-start l now)

-- What a check leaves as it was configured.
record SameLimits (l l' : Limiter) : Type 0 where
  limit : l'.max_bitrate_kbps ≡ l.max_bitrate_kbps
  threshold : l'.violation_threshold_ms ≡ l.violation_threshold_ms

trans-SameLimits : {a b c : Limiter} → SameLimits a b → SameLimits b c → SameLimits a c
trans-SameLimits s t = record { limit = t.limit ∙ s.limit; threshold = t.threshold ∙ s.threshold }

each_second-keeps :
    (l : Limiter) (bytes now : ℕ)
    → SameLimits l (cleanup_each_second (push l bytes now) now)
      × (violation_of (cleanup_each_second (push l bytes now) now) ≡ violation_of l)
unfolding cleanup_each_second push cleanup_old_data
each_second-keeps l bytes now =
    (record { limit = ground arith; threshold = ground arith }, ground arith)

judge-keeps : (l : Limiter) (now : ℕ) → SameLimits l (judge l now).1
unfolding judge note_violation
judge-keeps l now = record { limit = ground arith; threshold = ground arith }

check-judge :
    (l : Limiter) (bytes now : ℕ)
    → l.max_bitrate_kbps ≢ 0
    → check_data_bitrate l bytes now ≡ judge (cleanup_each_second (push l bytes now) now) now
unfolding check_data_bitrate
check-judge l bytes now h = ground (arith, h)

check-tracks :
    (l : Limiter) (h : History) (bytes now : ℕ)
    → l.max_bitrate_kbps ≢ 0
    → violation_of l ≡ run_start h
    → let (c, l') = check_data_bitrate l bytes now in
      SameLimits l l'
      × (violation_of l' ≡ run_start ((now, c) ∷ h))
      × (is_disconnect c ≡ lasted l.violation_threshold_ms now (run_start ((now, c) ∷ h)))
check-tracks l h bytes now limited e = rw (check-judge l bytes now limited) (
  trans-SameLimits kept.0 (judge-keeps l₁ now),
  done.0,
  done.1 ∙ ap (λ x. lasted x now (run_start ((now, (judge l₁ now).0) ∷ h))) kept.0.threshold,
)
  where
    l₁ : Limiter
    l₁ = cleanup_each_second (push l bytes now) now

    kept : SameLimits l l₁ × (violation_of l₁ ≡ violation_of l)
    kept = each_second-keeps l bytes now

    done :
        (violation_of (judge l₁ now).1 ≡ run_start ((now, (judge l₁ now).0) ∷ h))
        × (is_disconnect (judge l₁ now).0
            ≡ lasted l₁.violation_threshold_ms now (run_start ((now, (judge l₁ now).0) ∷ h)))
    done = judge-tracks l₁ h now (kept.1 ∙ e)

judge_all-tracks :
    (l : Limiter) (h : History) (checks : List (ℕ × ℕ))
    → l.max_bitrate_kbps ≢ 0
    → violation_of l ≡ run_start h
    → let (l', h') = judge_all l h checks in SameLimits l l' × (violation_of l' ≡ run_start h')
unfolding judge_all
judge_all-tracks l h [] limited e = (record { limit = refl; threshold = refl }, e)
judge_all-tracks l h ((bytes, now) ∷ rest) limited e =
    let (same, tracks, _) = check-tracks l h bytes now limited e in
    let (c, l') = check_data_bitrate l bytes now in
    let (same', tracks') =
      judge_all-tracks l' ((now, c) ∷ h) rest (λ z. limited (sym same.limit ∙ z)) tracks in
    (trans-SameLimits same same', tracks')

-- With a limit set and no violation under way, after any checks the next one says to disconnect exactly
-- when the unbroken run of violations that it ends has lasted the threshold.
pub disconnects_after_run :
    (l : Limiter) (checks : List (ℕ × ℕ)) (bytes now : ℕ)
    → l.max_bitrate_kbps ≢ 0
    → l.in_violation ≡ false
    → let (l', h) = judge_all l [] checks in
      let (c, _) = check_data_bitrate l' bytes now in
      is_disconnect c ≡ lasted l.violation_threshold_ms now (run_start ((now, c) ∷ h))
unfolding run_start
disconnects_after_run l checks bytes now limited calm =
    let (l', h) = judge_all l [] checks in
    let (same, tracks) = judge_all-tracks l [] checks limited (ground (arith, calm)) in
    let (_, _, verdict) = check-tracks l' h bytes now (λ z. limited (sym same.limit ∙ z)) tracks in
    verdict
    ∙ ap (λ x. lasted x now (run_start ((now, (check_data_bitrate l' bytes now).0) ∷ h)))
        same.threshold
