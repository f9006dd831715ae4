-- ===== src/Pes/Bounds.antt =====
-- No read of `sls_parse_ts_info` leaves its packet, and the PID that is followed stays.
use irl_srt_server.Prelude.{
  ℕ, zero, suc, ◌+◌, ◌-◌, ◌*◌, ◌^◌, ◌≤◌, ◌<◌, ◌≡◌, refl, ◌∙◌, ◌⊎◌, inl, inr, Bool, true, false,
  ◌&&◌, ◌||◌, not, Option, some, List, arith, ltb, leb, ◌==◌, if◌then◌else◌, length, drop,
  length-drop,
}
use irl_srt_server.Prelude.Int.{ℤ, pos, negsuc, sls_ok, sls_error}
use irl_srt_server.Prelude.Bytes.{flag, field}
use irl_srt_server.Pes.{
  TsInfo, invalid, is_invalid, is_pid, read, pts_of, ff_parse_pes_pts, with_stamps, pes_stamps,
  pes_header, pes2es, add_program, pat_entries, pat_programs, parse_pat, lock_pid, parse_payload,
  parse_fields, by_pid, parse_ts_info,
}
use irl_srt_server.Pes.Reads.{◌>>=◌, Yields, bind-Yields, read-Yields, if-Yields}

-- A read in bounds, and what is done with it.
with_read :
    {B : Type 0} {P : B → Type 0} (p : List ℕ) (k : ℕ) (f : ℕ → Option B)
    → k < length p
    → ((b : ℕ) → Yields P (f b))
    → Yields P (read p k >>= f)
with_read p k f h g = bind-Yields (read p k) f (read-Yields p k h) (λ b e. g b)

-- An early return.
or_return :
    {A : Type 0} {P : A → Type 0} (b : Bool) (a : A) (y : Option A)
    → P a
    → (b ≡ false → Yields P y)
    → Yields P (if b then some a else y)
or_return b a y h f = if-Yields b (some a) y (λ e. (a, refl, h)) f

abbrev IsAny : {A : Type 0} → A → Type 0
IsAny a = Unit

ff_parse_pes_pts-Yields :
    (buf : List ℕ) (len : ℕ) → len ≤ length buf → Yields IsAny (ff_parse_pes_pts buf len)
unfolding ff_parse_pes_pts
ff_parse_pes_pts-Yields buf len h = or_return (ltb len 5) invalid _ (record {}) λ e.
    let inside : 5 ≤ length buf = ground (arith, e) in
    with_read buf 0 _ (omega arith) λ b0. with_read buf 1 _ (omega arith) λ b1.
      with_read buf 2 _ (omega arith) λ b2.
        with_read buf 3 _ (omega arith)
          λ b3. with_read buf 4 _ (omega arith) λ b4. (pts_of b0 b1 b2 b3 b4, refl, record {})

-- What the parts of a result keep of the state before.
abbrev KeepsPid : TsInfo → ℤ × TsInfo → Type 0
KeepsPid ti r = r.1.es_pid ≡ ti.es_pid

pes_stamps-Yields :
    (f : List ℕ) (len flags : ℕ) (ti : TsInfo)
    → len ≤ length f
    → Yields (KeepsPid ti) (pes_stamps f len flags ti)
unfolding pes_stamps
pes_stamps-Yields f len flags ti h =
    if-Yields (field 6 2 flags == 2) _ _
      (λ two.
        or_return (ltb len (9 + 5)) (sls_error, ti) _ refl
          λ e.
            bind-Yields (ff_parse_pes_pts (drop 9 f) (len - 9)) _ (stamp 9)
              λ pts any. ((sls_ok, with_stamps ti pts pts), refl, refl))
      (λ not_two.
        if-Yields (field 6 2 flags == 3) _ _
          (λ three.
            or_return (ltb len (9 + 10)) (sls_error, ti) _ refl
              λ e. bind-Yields (ff_parse_pes_pts (drop 9 f) (len - 9)) _ (stamp 9) λ pts any.
                bind-Yields (ff_parse_pes_pts (drop 14 f) (len - 14)) _ (stamp 14)
                  λ dts any'. ((sls_ok, with_stamps ti pts dts), refl, refl))
          (λ neither. ((sls_ok, ti), refl, refl)))
  where
    stamp : (k : ℕ) → Yields IsAny (ff_parse_pes_pts (drop k f) (len - k))
    stamp k = ff_parse_pes_pts-Yields (drop k f) (len - k) (omega (arith, length-drop k f))

pes_header-Yields :
    (f : List ℕ) (len : ℕ) (ti : TsInfo)
    → len ≤ length f
    → Yields (KeepsPid ti) (pes_header f len ti)
unfolding pes_header
pes_header-Yields f len ti h =
    or_return (ltb len (4 + 2)) (sls_error, ti) _ refl
      λ e.
        let inside : 6 ≤ len = ground (arith, e) in
        with_read f 4 _ (omega arith) λ size_high. with_read f 5 _ (omega arith) λ size_low.
          or_return (ltb len (6 + 3)) (sls_error, ti) _ refl
            λ e'.
              let inside' : 9 ≤ len = ground (arith, e') in
              with_read f 6 _ (omega arith) λ first_flags.
                with_read f 7 _ (omega arith)
                  λ flags. pes_stamps-Yields f len flags (with_stamps ti invalid invalid) h

pes2es-Yields :
    (f : List ℕ) (len : ℕ) (ti : TsInfo)
    → len ≤ length f
    → Yields (KeepsPid ti) (pes2es (some f) len ti)
unfolding pes2es
pes2es-Yields f len ti h =
    or_return (ltb len 3) (sls_error, ti) _ refl
      λ e.
        let inside : 3 ≤ len = ground (arith, e) in
        with_read f 0 _ (omega arith) λ b0. with_read f 1 _ (omega arith) λ b1.
          with_read f 2 _ (omega arith) λ b2.
            or_return (not (b0 == 0 && b1 == 0 && b2 == 1) || leb len 3) (sls_error, ti) _ refl
              λ e'.
                let inside' : 4 ≤ len = ground (arith, e') in
                with_read f 3 _ (omega arith) λ stream_id.
                  or_return (not (stream_id == 0xe0) && not (stream_id == 0xc0)) (sls_error, ti) _
                    refl λ e''. pes_header-Yields f len ti h

add_program-es_pid : (num pid : ℕ) (ti : TsInfo) → (add_program num pid ti).es_pid ≡ ti.es_pid
add_program-es_pid num pid ti = ground arith

pat_entries-Yields :
    (fuel : ℕ) (d : List ℕ) (prog_end n : ℕ) (ti : TsInfo) {es : ℤ}
    → (0 < prog_end → prog_end + 11 ≤ length d)
    → ti.es_pid ≡ es
    → Yields (λ ti'. ti'.es_pid ≡ es) (pat_entries fuel d prog_end n ti)
unfolding pat_entries
pat_entries-Yields zero d prog_end n ti h same = (ti, refl, same)
pat_entries-Yields (suc fuel) d prog_end n ti h same = or_return (leb prog_end n) ti _ same λ e.
    let inside : n < prog_end = ground (arith, e) in
    let room : prog_end + 11 ≤ length d = h (omega arith) in
    with_read d (8 + n) _ (omega arith) λ program_high.
      with_read d (9 + n) _ (omega arith) λ program_low.
        with_read d (10 + n) _ (omega arith) λ pid_high.
          with_read d (11 + n) _ (omega arith) λ pid_low.
            pat_entries-Yields fuel d prog_end (n + 4) _ h (
              add_program-es_pid (program_high * 2 ^ 8 + program_low)
                (field 0 5 pid_high * 2 ^ 8 + pid_low) ti
              ∙ same)

parse_pat-Yields :
    (d : List ℕ) (len : ℕ) (ti : TsInfo)
    → len ≤ length d
    → Yields (KeepsPid ti) (parse_pat d len ti)
unfolding parse_pat pat_programs
parse_pat-Yields d len ti h =
    or_return (ltb len 8) (sls_error, ti) _ refl
      λ e.
        let inside : 8 ≤ len = ground (arith, e) in
        with_read d 0 _ (omega arith) λ table_id. with_read d 1 _ (omega arith) λ length_high.
          with_read d 2 _ (omega arith) λ length_low. with_read d 3 _ (omega arith) λ id_high.
            with_read d 4 _ (omega arith) λ id_low. with_read d 5 _ (omega arith) λ version.
              with_read d 6 _ (omega arith) λ section_number.
                with_read d 7 _ (omega arith) λ last_section.
                  with_read d (len - 4) _ (omega arith) λ crc3.
                    with_read d (len - 3) _ (omega arith) λ crc2.
                      with_read d (len - 2) _ (omega arith) λ crc1.
                        with_read d (len - 1) _ (omega arith) λ crc0.
                          bind-Yields _ _
                            (pat_entries-Yields _ d _ 0 ti (λ some_entry. ground arith) refl)
                            λ ti' same. ((sls_ok, ti'), refl, same)

-- A PID that is followed already is the only one that gets as far as the lock.
abbrev Follows : TsInfo → ℕ → Type 0
Follows ti pid = is_invalid ti.es_pid ≡ false → (pid ≡ 0) ⊎ (ti.es_pid ≡ pos pid)

abbrev pub KeepsLock : TsInfo → ℤ × TsInfo → Type 0
KeepsLock ti r = is_invalid ti.es_pid ≡ false → r.1.es_pid ≡ ti.es_pid

parse_payload-Yields :
    (packet : List ℕ) (pid afc k : ℕ) (ti : TsInfo)
    → 188 ≤ length packet
    → Follows ti pid
    → Yields (KeepsLock ti) (parse_payload packet pid afc k ti)
unfolding parse_payload
parse_payload-Yields packet pid afc k ti h follows =
    or_return (leb 188 k || not (field 0 1 afc == 1)) (sls_error, ti) _ (λ lock. refl)
      λ e.
        if-Yields (pid == 0) _ _
          (λ zero_pid.
            let (r, eq, same) =
              parse_pat-Yields (drop (k + 1) packet) (188 - (k + 1)) ti
                (omega (arith, length-drop (k + 1) packet)) in
            (r, eq, λ lock. same))
          (λ other.
            bind-Yields (pes2es (some (drop k packet)) (188 - k) ti) _
              (pes2es-Yields (drop k packet) (188 - k) ti (omega (arith, length-drop k packet)))
              λ r same. (lock_pid pid r, refl, λ lock. ground (arith, follows lock)))

parse_fields-Yields :
    (packet : List ℕ) (pid : ℕ) (ti : TsInfo)
    → 188 ≤ length packet
    → Follows ti pid
    → Yields (KeepsLock ti) (parse_fields packet pid ti)
unfolding parse_fields
parse_fields-Yields packet pid ti h follows = with_read packet 3 _ (omega arith) λ b3.
    or_return (field 4 2 b3 == 0) (sls_error, ti) _ (λ lock. refl)
      λ e. with_read packet 4 _ (omega arith) λ p. parse_payload-Yields packet pid _ _ ti h follows

is_pid-eq : (z : ℤ) (pid : ℕ) → is_pid z pid ≡ true → z ≡ pos pid
is_pid-eq (pos n) pid e = ground (arith, e)
is_pid-eq (negsuc n) pid e = absurd cc

followed :
    (ti : TsInfo) (pid : ℕ)
    → (not (is_invalid ti.es_pid) && not (is_pid ti.es_pid pid)) ≡ false
    → is_invalid ti.es_pid ≡ false
    → ti.es_pid ≡ pos pid
followed ti pid mine lock = is_pid-eq ti.es_pid pid (ground arith)

by_pid-Yields :
    (packet : List ℕ) (pid : ℕ) (ti : TsInfo)
    → 188 ≤ length packet
    → Yields (KeepsLock ti) (by_pid packet pid ti)
unfolding by_pid
by_pid-Yields packet pid ti h =
    if-Yields (pid == 0) _ _
      (λ e. parse_fields-Yields packet pid ti h λ lock. inl (ground (arith, e)))
      (λ e.
        or_return (is_pid ti.pmt_pid pid) (sls_ok, ti) _ (λ lock. refl)
          λ not_pmt.
            or_return (not (is_invalid ti.es_pid) && not (is_pid ti.es_pid pid)) (sls_error, ti) _
              (λ lock. refl)
              λ mine. parse_fields-Yields packet pid ti h λ lock. inr (followed ti pid mine lock))

-- On a packet of the length that is claimed the parser reads no byte outside it and returns, and a
-- PID that is followed already stays the one that is followed.
pub parse_ts_info-Yields :
    (packet : List ℕ) (len : ℕ) (ti : TsInfo)
    → len ≤ length packet
    → Yields (KeepsLock ti) (parse_ts_info (some packet) len ti)
unfolding parse_ts_info
parse_ts_info-Yields packet len ti h =
    or_return (ltb len 188) (sls_error, ti) _ (λ lock. refl)
      λ e.
        let whole : 188 ≤ length packet = ground (arith, e) in
        with_read packet 0 _ (omega arith) λ b0.
          or_return (not (b0 == 0x47)) (sls_error, ti) _ (λ lock. refl)
            λ e'. with_read packet 1 _ (omega arith) λ b1.
              or_return (not (flag 6 b1)) (sls_error, ti) _ (λ lock. refl)
                λ e''.
                  with_read packet 2 _ (omega arith)
                    λ b2. by_pid-Yields packet (field 0 5 b1 * 2 ^ 8 + b2) ti whole
