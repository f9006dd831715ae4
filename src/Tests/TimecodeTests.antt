-- ===== src/Tests/TimecodeTests.antt =====
-- The scanner of src/core/SLSTimecode.cpp on an HEVC time code message, an escaped payload and a packet
-- with a program association table.
use irl_srt_server.Prelude.{ℕ, ◌≡◌, refl, false, some, List, [], ◌∷◌, arith, replicate}
use irl_srt_server.Timecode.State.{hevc, Clock, TcState, no_sps, init, IsSane}
use irl_srt_server.Timecode.Bits.{take_bits, br_u, br_i, br_flag}
use irl_srt_server.Timecode.Rbsp.{escape_from, unescape_from, unescape_from-escape_from}
use irl_srt_server.Timecode.Sei.{
  read_hms, plausible, kept, clock_fields, clock_timestamp, find_clock, time_code_clock,
  parse_time_code_hevc, ff_coded, sized_message, typed_message, message_of, try_message, scan_sei,
}
use irl_srt_server.Timecode.Psi.{psi_section, first_program, set_program, parse_pat}
use irl_srt_server.Timecode.Scan.{payload_of, dispatch, scan_packet, scan_packets, scan_timecode}
use irl_srt_server.Timecode.Scan.Sane.{scan_timecode-IsSane}

-- 10:20:10, frame 5.
abbrev message : List ℕ
message = 136 ∷ 6 ∷ 96 ∷ 64 ∷ 41 ∷ 74 ∷ 40 ∷ 16 ∷ 0x80 ∷ []

abbrev shown : Clock
shown = record { hours = 10; minutes = 20; seconds = 10; frames = 5; drop_frame = false }

decodes : scan_sei 10 hevc no_sps message ≡ some shown
unfolding scan_sei message_of typed_message sized_message ff_coded try_message parse_time_code_hevc
    time_code_clock find_clock clock_timestamp clock_fields kept plausible read_hms br_u br_i
    br_flag take_bits
decodes = refl

abbrev payload : List ℕ
payload = 7 ∷ 0 ∷ 0 ∷ 1 ∷ 0 ∷ 0 ∷ 0 ∷ 3 ∷ []

unescape_from-escape_from_example : unescape_from 8 0 (escape_from 0 payload) ≡ payload
unescape_from-escape_from_example = unescape_from-escape_from 8 0 payload (omega arith)

-- A packet with a table that names 256 as the PID of program 1.
abbrev pat : List ℕ
pat =
    0x47
    ∷ 0x40
    ∷ 0
    ∷ 0x10
    ∷ 0
    ∷ 0
    ∷ 0xb0
    ∷ 13
    ∷ 0
    ∷ 1
    ∷ 0xc1
    ∷ 0
    ∷ 0
    ∷ 0
    ∷ 1
    ∷ 0xe1
    ∷ 0
    ∷ replicate 171 0xff

abbrev learned : TcState
learned = record init { pmt_pid = some 256 }

learns : (scan_timecode (some pat) 188 (some init)).1 ≡ some learned
unfolding scan_timecode scan_packets scan_packet payload_of dispatch parse_pat psi_section
    first_program set_program
learns = refl

init-IsSane : IsSane init
init-IsSane = record {
  au_fits = omega arith;
  in_range = record {
    hours_in = omega arith;
    minutes_in = omega arith;
    seconds_in = omega arith;
    frames_in = omega arith;
  };
}

scan_timecode-IsSane_example : IsSane learned
scan_timecode-IsSane_example = scan_timecode-IsSane pat 188 init init-IsSane learns
