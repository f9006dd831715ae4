-- ===== src/Timecode/Psi.antt =====
-- `psi_section`, `parse_pat` and `parse_pmt` of src/core/SLSTimecode.cpp: which PID carries the video
-- and in which codec.
use irl_srt_server.Prelude.{
  ℕ, zero, suc, ◌+◌, ◌-◌, ◌*◌, ◌/◌, ◌^◌, Bool, true, false, ◌&&◌, ◌||◌, not, Option, some, none,
  List, [], ltb, ◌==◌, if◌then◌else◌, length, drop,
}
use irl_srt_server.Prelude.Bytes.{at, field}
use irl_srt_server.Timecode.State.{Codec, no_codec, h264, hevc, TcState, is_pid}

-- A 13-bit PID and a 12-bit length, each in two bytes at `k`.
abbrev pub pid_at : List ℕ → ℕ → ℕ
pid_at s k = field 0 5 (at s k) * 2 ^ 8 + at s (k + 1)

abbrev pub length_at : List ℕ → ℕ → ℕ
length_at s k = field 0 4 (at s k) * 2 ^ 8 + at s (k + 1)

-- The section that begins and ends in this payload, and its length without the CRC.
unfoldable pub psi_section : List ℕ → ℕ → Option (List ℕ × ℕ)
psi_section payload table_id =
    if ltb (length payload) 1
    then none
    else if ltb (length payload) (offset + 8)
    then none
    else if not (at s 0 == table_id)
    then none
    else if ltb section_length 9 || ltb (length payload - offset) (section_length + 3)
    then none
    else some (s, 3 + section_length - 4)
  where
    offset : ℕ
    offset = 1 + at payload 0

    s : List ℕ
    s = drop offset payload

    section_length : ℕ
    section_length = length_at s 1

-- The PMT PID of the first program: `rounds` entries from `s` on. Program 0 is the network PID.
unfoldable pub first_program : ℕ → List ℕ → Option ℕ
first_program zero s = none
first_program (suc rounds) s =
    let rest = first_program rounds (drop 4 s) in
    if at s 0 * 2 ^ 8 + at s 1 == 0 then rest else some (pid_at s 2)

-- A different program map makes all that was learned of the old one stale.
unfoldable pub set_program : Option ℕ → TcState → TcState
set_program none st = st
set_program (some pid) st = if is_pid st.pmt_pid pid then st else record st {
  pmt_pid = some pid;
  video_pid = none;
  codec = no_codec;
  sps = record (st.sps) { sps_valid = false };
  au_open = false;
  au = [];
}

unfoldable pub parse_pat : List ℕ → TcState → TcState
parse_pat payload st = elim (psi_section payload 0) [
  | none ↦ st
  | some (s, n) ↦ set_program (first_program ((n - 8) / 4) (drop 8 s)) st
]

unfoldable pub codec_of : ℕ → Codec
codec_of stream_type =
    if stream_type == 0x1b then h264 else if stream_type == 0x24 then hevc else no_codec

-- The first video stream, on fuel, with `left` bytes of the section left at `s`.
unfoldable pub first_video : ℕ → List ℕ → ℕ → Option (ℕ × Codec)
first_video zero s left = none
first_video (suc fuel) s left =
    let step = 5 + length_at s 3 in
    let rest = first_video fuel (drop step s) (left - step) in
    if ltb left 5
    then none
    else elim (codec_of (at s 0)) [ no_codec ↦ rest | c ↦ some (pid_at s 1, c) ]

abbrev pub same_codec : Codec → Codec → Bool
same_codec no_codec no_codec = true
same_codec h264 h264 = true
same_codec hevc hevc = true
same_codec _ _ = false

unfoldable pub set_video : Option (ℕ × Codec) → TcState → TcState
set_video none st = st
set_video (some (pid, codec)) st =
    if is_pid st.video_pid pid && same_codec codec st.codec then st else record st {
      video_pid = some pid;
      codec = codec;
      sps = record (st.sps) { sps_valid = false };
      au_open = false;
      au = [];
    }

unfoldable pub parse_pmt : List ℕ → TcState → TcState
parse_pmt payload st = elim (psi_section payload 2) [
  | none ↦ st
  | some (s, n) ↦
      if ltb n 12
      then st
      else (let q = 12 + length_at s 10 in set_video (first_video n (drop q s) (n - q)) st)
]
