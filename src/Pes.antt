-- ===== src/Pes.antt =====
-- `sls_parse_ts_info` of src/core/common.cpp and what it calls: the time stamps of a PES header and
-- the program table of a PAT. A read of a byte that is not there gives `none`.
pub mod Reads
pub mod Bounds
pub mod Pts
use irl_srt_server.Prelude.{
  ℕ, zero, suc, ◌+◌, ◌-◌, ◌*◌, ◌/◌, ◌%◌, ◌^◌, Bool, true, false, ◌&&◌, ◌||◌, not, Option, none,
  some, List, ltb, leb, ◌==◌, if◌then◌else◌, length, drop, min, max, get_elem?,
}
use irl_srt_server.Prelude.Int.{ℤ, pos, negsuc, sls_ok, sls_error, i32, i64}
use irl_srt_server.Prelude.Bytes.{flag, field, lor}
use irl_srt_server.Pes.Reads.{◌>>=◌}

-- `ts_info`
pub record TsInfo : Type 0 where
  pub es_pid : ℤ
  pub dts : ℤ
  pub pts : ℤ
  pub pmt_pid : ℤ

-- `INVALID_PID` and `INVALID_DTS_PTS`, both -1.
abbrev pub invalid : ℤ
invalid = negsuc 0

abbrev pub is_invalid : ℤ → Bool
is_invalid (negsuc zero) = true
is_invalid _ = false

abbrev pub is_pid : ℤ → ℕ → Bool
is_pid (pos n) pid = n == pid
is_pid (negsuc n) pid = false

unfoldable pub init : TsInfo
init = record { es_pid = invalid; dts = invalid; pts = invalid; pmt_pid = invalid }

abbrev pub read : List ℕ → ℕ → Option ℕ
read p k = get_elem? p k

-- The pattern of an `int64_t` that is assigned an `int` of this pattern.
abbrev pub extend : ℕ → ℕ
extend w = if ltb w (2 ^ 31) then w else w + (2 ^ 64 - 2 ^ 32)

-- The first term of the time stamp is shifted as an `int` and then widened; the second takes the
-- second byte whole, since `>>` binds tighter than `|`.
unfoldable pub pts_of : ℕ → ℕ → ℕ → ℕ → ℕ → ℤ
pts_of b0 b1 b2 b3 b4 = i64 (lor 64 (lor 64 high middle) low)
  where
    high : ℕ
    high = extend (field 1 3 b0 * 2 ^ 30 % 2 ^ 32)

    middle : ℕ
    middle = lor 64 (b1 % 2 ^ 8 * 2 ^ 8) (b2 / 2) * 2 ^ 15

    low : ℕ
    low = lor 64 (b3 % 2 ^ 8 * 2 ^ 8) b4 / 2

unfoldable pub ff_parse_pes_pts : List ℕ → ℕ → Option ℤ
ff_parse_pes_pts buf len = if ltb len 5 then some invalid else do
  b0 ← read buf 0
  b1 ← read buf 1
  b2 ← read buf 2
  b3 ← read buf 3
  b4 ← read buf 4
  some (pts_of b0 b1 b2 b3 b4)

abbrev pub with_stamps : TsInfo → ℤ → ℤ → TsInfo
with_stamps ti pts dts = record ti { pts = pts; dts = dts }

-- The flags say which stamps follow the nine bytes of the header.
unfoldable pub pes_stamps : List ℕ → ℕ → ℕ → TsInfo → Option (ℤ × TsInfo)
pes_stamps f len flags ti =
    if field 6 2 flags == 2
    then (if ltb len (9 + 5)
        then some (sls_error, ti)
        else do pts ← ff_parse_pes_pts (drop 9 f) (len - 9); some (sls_ok, with_stamps ti pts pts))
    else if field 6 2 flags == 3
    then (if ltb len (9 + 10) then some (sls_error, ti) else do
      pts ← ff_parse_pes_pts (drop 9 f) (len - 9)
      dts ← ff_parse_pes_pts (drop 14 f) (len - 14)
      some (sls_ok, with_stamps ti pts dts))
    else some (sls_ok, ti)

-- Behind the stream id: the size, which nothing uses, and the flags.
unfoldable pub pes_header : List ℕ → ℕ → TsInfo → Option (ℤ × TsInfo)
pes_header f len ti = if ltb len (4 + 2) then some (sls_error, ti) else do
  size_high ← read f 4
  size_low ← read f 5
  if ltb len (6 + 3) then some (sls_error, ti) else do
    first_flags ← read f 6
    flags ← read f 7
    pes_stamps f len flags (with_stamps ti invalid invalid)

unfoldable pub pes2es : Option (List ℕ) → ℕ → TsInfo → Option (ℤ × TsInfo)
pes2es none len ti = some (sls_error, ti)
pes2es (some f) len ti = if ltb len 3 then some (sls_error, ti) else do
  b0 ← read f 0
  b1 ← read f 1
  b2 ← read f 2
  if not (b0 == 0 && b1 == 0 && b2 == 1) || leb len 3 then some (sls_error, ti) else do
    stream_id ← read f 3
    if not (stream_id == 0xe0) && not (stream_id == 0xc0)
        then some (sls_error, ti)
        else pes_header f len ti

-- Program 0 is the network's; of the others the last one counts.
abbrev pub add_program : ℕ → ℕ → TsInfo → TsInfo
add_program program_num pid ti = if program_num == 0 then ti else record ti { pmt_pid = pos pid }

-- The loop over the programs, on fuel, with the entry at `8 + n`.
unfoldable pub pat_entries : ℕ → List ℕ → ℕ → ℕ → TsInfo → Option TsInfo
pat_entries zero d prog_end n ti = some ti
pat_entries (suc fuel) d prog_end n ti = if leb prog_end n then some ti else do
  program_high ← read d (8 + n)
  program_low ← read d (9 + n)
  pid_high ← read d (10 + n)
  pid_low ← read d (11 + n)
  pat_entries fuel d prog_end (n + 4)
      (add_program (program_high * 2 ^ 8 + program_low) (field 0 5 pid_high * 2 ^ 8 + pid_low) ti)

-- The loop ends before `prog_end`, which is negative in the source where it is 0 here.
unfoldable pub pat_programs : List ℕ → ℕ → ℕ → TsInfo → Option TsInfo
pat_programs d len section_length ti = pat_entries prog_end d prog_end 0 ti
  where
    prog_end : ℕ
    prog_end = if ltb (len - 11) (section_length - 12) then len - 11 else section_length - 12

-- Only the section length and the programs are used of what is read.
unfoldable pub parse_pat : List ℕ → ℕ → TsInfo → Option (ℤ × TsInfo)
parse_pat d len ti = if ltb len 8 then some (sls_error, ti) else do
  table_id ← read d 0
  length_high ← read d 1
  length_low ← read d 2
  id_high ← read d 3
  id_low ← read d 4
  version ← read d 5
  section ← read d 6
  last_section ← read d 7
  crc3 ← read d (len - 4)
  crc2 ← read d (len - 3)
  crc1 ← read d (len - 2)
  crc0 ← read d (len - 1)
  ti' ← pat_programs d len (field 0 4 length_high * 2 ^ 8 + length_low) ti
  some (sls_ok, ti')

-- A PES on this PID makes it the one that is followed.
abbrev pub lock_pid : ℕ → ℤ × TsInfo → ℤ × TsInfo
lock_pid pid (ret, ti) = (ret, if is_invalid ti.dts then ti else record ti { es_pid = pos pid })

-- The payload at `k`.
unfoldable pub parse_payload : List ℕ → ℕ → ℕ → ℕ → TsInfo → Option (ℤ × TsInfo)
parse_payload packet pid afc k ti =
    if leb 188 k || not (field 0 1 afc == 1)
    then some (sls_error, ti)
    else if pid == 0
    then parse_pat (drop (k + 1) packet) (188 - (k + 1)) ti
    else do r ← pes2es (some (drop k packet)) (188 - k) ti; some (lock_pid pid r)

-- Behind the PID. The adaptation field is skipped; its discontinuity flag is never read, since the
-- test of its presence compares 2 with 1.
unfoldable pub parse_fields : List ℕ → ℕ → TsInfo → Option (ℤ × TsInfo)
parse_fields packet pid ti = do
  b3 ← read packet 3
  if field 4 2 b3 == 0 then some (sls_error, ti) else do
    p ← read packet 4
    parse_payload packet pid (field 4 2 b3) (if flag 1 (field 4 2 b3) then 4 + (p + 1) else 4) ti

-- A PMT is accepted as it is; of the other PIDs only the one that is followed.
unfoldable pub by_pid : List ℕ → ℕ → TsInfo → Option (ℤ × TsInfo)
by_pid packet pid ti =
    if pid == 0
    then parse_fields packet pid ti
    else if is_pid ti.pmt_pid pid
    then some (sls_ok, ti)
    else if not (is_invalid ti.es_pid) && not (is_pid ti.es_pid pid)
    then some (sls_error, ti)
    else parse_fields packet pid ti

unfoldable pub parse_ts_info : Option (List ℕ) → ℕ → TsInfo → Option (ℤ × TsInfo)
parse_ts_info none len ti = some (sls_error, ti)
parse_ts_info (some packet) len ti = if ltb len 188 then some (sls_error, ti) else do
  b0 ← read packet 0
  if not (b0 == 0x47) then some (sls_error, ti) else do
    b1 ← read packet 1
    if not (flag 6 b1)
        then some (sls_error, ti)
        else do b2 ← read packet 2; by_pid packet (field 0 5 b1 * 2 ^ 8 + b2) ti
