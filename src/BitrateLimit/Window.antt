-- ===== src/BitrateLimit/Window.antt =====
-- The window of src/core/SLSBitrateLimit.cpp: the running total is the sum of the points in it.
use irl_srt_server.Prelude.{ℕ, ◌+◌, ◌-◌, ◌≡◌, refl, List, [], ◌∷◌, ◌++◌, arith}
use irl_srt_server.BitrateLimit.{
  DataPoint, Limiter, expire, cleanup_old_data, push, cleanup_each_second, note_violation, judge,
  check_data_bitrate,
}

unfoldable pub bytes_of : List DataPoint → ℕ
bytes_of [] = 0
bytes_of (p ∷ ps) = p.bytes + bytes_of ps

abbrev pub Sums : Limiter → Type 0
Sums l = l.total_bytes_in_window ≡ bytes_of l.data_window

bytes_of-append : (ps qs : List DataPoint) → bytes_of (ps ++ qs) ≡ bytes_of ps + bytes_of qs
unfolding bytes_of
bytes_of-append [] qs = omega arith
bytes_of-append (p ∷ ps) qs = omega (arith, bytes_of-append ps qs)

push-Sums : (l : Limiter) (bytes now : ℕ) → Sums l → Sums (push l bytes now)
unfolding push bytes_of
push-Sums l bytes now h =
    omega
      (arith, h, bytes_of-append l.data_window (record { timestamp_ms = now; bytes = bytes } ∷ []))

expire-Sums :
    (now window : ℕ) (ps : List DataPoint)
    → (expire now window ps (bytes_of ps)).1 ≡ bytes_of (expire now window ps (bytes_of ps)).0
unfolding expire bytes_of
expire-Sums now window [] = refl
expire-Sums now window (p ∷ ps) =
    let cancel : p.bytes + bytes_of ps - p.bytes ≡ bytes_of ps = omega arith in
    rw cancel (ground (arith, expire-Sums now window ps))

cleanup-Sums : (l : Limiter) (now : ℕ) → Sums l → Sums (cleanup_old_data l now)
unfolding cleanup_old_data
cleanup-Sums l now h = rw h (expire-Sums now l.window_ms l.data_window)

each_second-Sums : (l : Limiter) (now : ℕ) → Sums l → Sums (cleanup_each_second l now)
unfolding cleanup_each_second
each_second-Sums l now h = ground (arith, h, cleanup-Sums l now h)

judge-Sums : (l : Limiter) (now : ℕ) → Sums l → Sums (judge l now).1
unfolding judge note_violation
judge-Sums l now h = ground (arith, h)

-- The running total is the sum of the bytes in the window behind every check, whatever the clock does.
pub check_data_bitrate-Sums :
    (l : Limiter) (bytes now : ℕ) → Sums l → Sums (check_data_bitrate l bytes now).1
unfolding check_data_bitrate
check_data_bitrate-Sums l bytes now h = ground (
  arith,
  cleanup-Sums (push l bytes now) now (push-Sums l bytes now h),
  judge-Sums (cleanup_each_second (push l bytes now) now) now
      (each_second-Sums (push l bytes now) now (push-Sums l bytes now h)),
)
