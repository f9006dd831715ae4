-- ===== src/SyncClock/Pace.antt =====
-- How long a call of `CSLSSyncClock::wait` sleeps, and what it leaves.
use irl_srt_server.Prelude.{ℕ, ◌+◌, ◌<◌, ◌≡◌, refl, ◌⊎◌, inl, inr, false, ◌||◌, arith, Bool-cases}
use irl_srt_server.Prelude.Int.{ℤ, pos, negsuc, ◌-ℤ◌, ◌+ℤ◌, leb_ℤ, ltb_ℤ, pos_part, neg_part}
use irl_srt_server.SyncClock.{SyncClock, is_unset, ahead, restart, wait}

-- An integer is its positive part or its negative one.
one_part : (d : ℤ) → (pos_part d ≡ 0) ⊎ (neg_part d ≡ 0)
one_part (pos n) = inr refl
one_part (negsuc n) = inl refl

sub_parts :
    (a b : ℤ)
    → pos_part (a -ℤ b) + (neg_part a + pos_part b) ≡ neg_part (a -ℤ b) + (pos_part a + neg_part b)
sub_parts a b = ground arith

add_parts :
    (a b : ℤ)
    → pos_part (a +ℤ b) + (neg_part a + neg_part b) ≡ neg_part (a +ℤ b) + (pos_part a + pos_part b)
add_parts a b = ground arith

ahead_parts :
    (c : SyncClock) (r now : ℤ)
    → pos_part (ahead c r now)
        + (neg_part r + pos_part c.begin_ms_rts + pos_part now + neg_part c.begin_ms_sys)
      ≡ neg_part (ahead c r now)
        + (pos_part r + neg_part c.begin_ms_rts + neg_part now + pos_part c.begin_ms_sys)
unfolding ahead
ahead_parts c r now = omega (
  arith,
  sub_parts r c.begin_ms_rts,
  sub_parts now c.begin_ms_sys,
  sub_parts (r -ℤ c.begin_ms_rts) (now -ℤ c.begin_ms_sys),
)

-- The stream's time is not ahead, and behind by less than `j`.
abbrev pub InPace : ℤ → ℕ → Type 0
InPace d j = (pos_part d ≡ 0) × (neg_part d < j)

InPace-restart :
    (c : SyncClock) (r now : ℤ) (j : ℕ)
    → 0 < j
    → InPace (ahead (restart c r now) r (now +ℤ pos 0)) j
unfolding restart
InPace-restart c r now j h =
    let parts = ahead_parts (record c { begin_ms_rts = r; begin_ms_sys = now }) r (now +ℤ pos 0) in
    let now_parts = add_parts now (pos 0) in
    let one =
      one_part (ahead (record c { begin_ms_rts = r; begin_ms_sys = now }) r (now +ℤ pos 0)) in
    (omega (arith, parts, now_parts, one), omega (arith, parts, now_parts, one))

InPace-sleep :
    (c : SyncClock) (r now : ℤ) (j slept : ℕ)
    → 0 < j
    → neg_part (ahead c r now) < j
    → slept ≡ pos_part (ahead c r now)
    → InPace (ahead c r (now +ℤ pos slept)) j
InPace-sleep c r now j slept h behind e =
    let before = ahead_parts c r now in
    let after = ahead_parts c r (now +ℤ pos slept) in
    let now_parts = add_parts now (pos slept) in
    let one = one_part (ahead c r now) in
    let one' = one_part (ahead c r (now +ℤ pos slept)) in
    (
      omega (arith, before, after, now_parts, one, one'),
      omega (arith, before, after, now_parts, one, one'),
    )

within :
    (d jitter : ℤ) (j : ℕ)
    → jitter ≡ pos j
    → (leb_ℤ jitter d || leb_ℤ d (pos 0 -ℤ jitter)) ≡ false
    → (pos_part d < j) × (neg_part d < j)
within (pos n) (pos k) j e near = ground (arith, near)
within (negsuc n) (pos k) j e near = ground (arith, near)
within d (negsuc k) j e near = absurd cc

not_ahead : (d : ℤ) → ltb_ℤ (pos 0) d ≡ false → 0 ≡ pos_part d
not_ahead (pos n) late = ground (arith, late)
not_ahead (negsuc n) late = refl

-- A call never sleeps as long as the jitter. At the time of the call plus what it slept the stream's
-- time is not ahead of the system's, and it is behind by less than the jitter, if the jitter is
-- positive.
pub wait_lem :
    (c : SyncClock) (rts_tm_ms now : ℤ) {j : ℕ}
    → c.jitter ≡ pos j
    → 0 < j
    → let (slept, c') = wait c rts_tm_ms now in
      (slept < j) × InPace (ahead c' rts_tm_ms (now +ℤ pos slept)) j
unfolding wait
wait_lem c rts_tm_ms now {j = j} e h = elim (Bool-cases (is_unset c.begin_ms_rts)) [
  | inl unset ↦ rw unset (h, InPace-restart c rts_tm_ms now j h)
  | inr begun ↦
      elim (Bool-cases (
        leb_ℤ c.jitter (ahead c rts_tm_ms now)
        || leb_ℤ (ahead c rts_tm_ms now) (pos 0 -ℤ c.jitter))) [
          | inl off ↦ rw (begun, off) (h, InPace-restart c rts_tm_ms now j h)
          | inr near ↦
              let bounds = within (ahead c rts_tm_ms now) c.jitter j e near in
              elim (Bool-cases (ltb_ℤ (pos 0) (ahead c rts_tm_ms now))) [
                | inl early ↦
                    rw (begun, near, early)
                      (
                        bounds.0,
                        InPace-sleep c rts_tm_ms now j (pos_part (ahead c rts_tm_ms now)) h bounds.1
                            refl,
                      )
                | inr late ↦
                    rw (begun, near, late)
                      (
                        h,
                        InPace-sleep c rts_tm_ms now j 0 h bounds.1
                            (not_ahead (ahead c rts_tm_ms now) late),
                      )
              ]
        ]
]
