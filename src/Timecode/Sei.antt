-- ===== src/Timecode/Sei.antt =====
-- `read_hms`, `plausible`, `parse_pic_timing_h264`, `parse_time_code_hevc` and `scan_sei_messages` of
-- src/core/SLSTimecode.cpp: the timecode in an SEI payload.
pub mod Range
use irl_srt_server.Prelude.{
  ℕ, zero, suc, ◌+◌, Bool, true, false, ◌&&◌, ◌||◌, not, Option, some, none, List, [], ◌∷◌, length,
  drop, ltb, leb, ◌==◌, if◌then◌else◌, or_else,
}
use irl_srt_server.Timecode.State.{Codec, no_codec, h264, hevc, Clock, SpsContext}
use irl_srt_server.Timecode.Bits.{BitReader, Bits, ◌>>=◌, ◌>>◌, return, when, br_u, br_i, br_flag}

-- Hours, minutes and seconds.
pub record Hms : Type 0 where
  pub h : ℕ
  pub m : ℕ
  pub s : ℕ

abbrev hms : ℕ → ℕ → ℕ → Bits Hms
hms h m s = return (record { h = h; m = m; s = s })

read_hours : ℕ → ℕ → Bits Hms
read_hours s m = do
  hours_flag ← br_flag
  if hours_flag then (do h ← br_u 5; hms h m s) else hms 0 m s

read_minutes : ℕ → Bits Hms
unfolding read_hours
read_minutes s = do
  minutes_flag ← br_flag
  if minutes_flag then (do m ← br_u 6; read_hours s m) else hms 0 0 s

-- `read_hms`: in full, or by the nested flags.
unfoldable pub read_hms : Bool → Bits Hms
unfolding read_minutes
read_hms true = do s ← br_u 6; m ← br_u 6; h ← br_u 5; hms h m s
read_hms false = do
  seconds_flag ← br_flag
  if seconds_flag then (do s ← br_u 6; read_minutes s) else hms 0 0 0

unfoldable pub plausible : Clock → Bool
plausible tc = ltb tc.hours 24 && ltb tc.minutes 60 && ltb tc.seconds 60

-- A clock timestamp is kept if all of it was there and it is plausible.
unfoldable pub kept : Bool → Clock → Option Clock
kept err tc = if err || not (plausible tc) then none else some tc

-- One clock timestamp behind its flags: `frame_bits` is the width of n_frames, and `skip_offset` reads
-- time_offset.
unfoldable pub clock_fields : ℕ → Bits ℕ → Bits Clock
clock_fields frame_bits skip_offset = do
  full_timestamp ← br_flag
  br_u 1
  drop_frame ← br_flag
  frames ← br_u frame_bits
  t ← read_hms full_timestamp
  skip_offset
  return (record {
    hours = t.h;
    minutes = t.m;
    seconds = t.s;
    frames = frames;
    drop_frame = drop_frame;
  })

unfoldable pub clock_timestamp : ℕ → Bits ℕ → Bits (Option Clock)
clock_timestamp frame_bits skip_offset r =
    let (fields, r') = clock_fields frame_bits skip_offset r in (kept r'.err fields, r')

-- The loop over the clock timestamps: the first one whose flag is set decides.
unfoldable pub find_clock : ℕ → Bits (Option Clock) → Bits (Option Clock)
find_clock zero body r = (none, r)
find_clock (suc n) body r =
    let (present, r') = br_u 1 r in
    let later = find_clock n body r' in
    if r.err then (none, r) else if present == 0 then later else body r'

-- Table D-1: the clock timestamps of each pic_struct.
unfoldable pub num_clock_ts : ℕ → ℕ
num_clock_ts pic_struct =
    if ltb pic_struct 3
    then 1
    else if pic_struct == 3 || pic_struct == 4 || pic_struct == 7
    then 2
    else 3

-- The delays that the context announces, then pic_struct.
unfoldable pub pic_timing_head : SpsContext → Bits ℕ
pic_timing_head sps = do
  when sps.cpb_dpb_delays_present
      (do br_u sps.cpb_removal_delay_length; br_u sps.dpb_output_delay_length)
  br_u 4

unfoldable pub pic_timing_clock : SpsContext → Bits (Option Clock)
pic_timing_clock sps = do br_u 2; br_u 1; br_u 5; clock_timestamp 8 skip_offset
  where
    skip_offset : Bits ℕ
    skip_offset = when (ltb 0 sps.time_offset_length) (do br_i sps.time_offset_length; return 0)

unfoldable pub pic_timing_body : SpsContext → ℕ → BitReader → Option Clock
pic_timing_body sps pic_struct r =
    if r.err || ltb 8 pic_struct
    then none
    else (find_clock (num_clock_ts pic_struct) (pic_timing_clock sps) r).0

abbrev start_at : List ℕ → ℕ → BitReader
start_at payload size = record { buf = payload; len = size; pos = 0; err = false }

unfoldable pub parse_pic_timing_h264 : List ℕ → ℕ → SpsContext → Option Clock
unfolding pic_timing_head pic_timing_clock pic_timing_body
parse_pic_timing_h264 payload size sps =
    if not sps.sps_valid || not sps.pic_struct_present
    then none
    else (let (pic_struct, r) = pic_timing_head sps (start_at payload size) in
        pic_timing_body sps pic_struct r)

unfoldable pub time_code_clock : Bits (Option Clock)
time_code_clock = do br_u 1; br_u 5; clock_timestamp 9 skip_offset
  where
    skip_offset : Bits ℕ
    skip_offset = do n ← br_u 5; when (ltb 0 n) (do br_i n; return 0)

unfoldable pub parse_time_code_hevc : List ℕ → ℕ → Option Clock
unfolding time_code_clock
parse_time_code_hevc payload size =
    let (num_clock_ts, r) = br_u 2 (start_at payload size) in
    (find_clock num_clock_ts time_code_clock r).0

-- A byte-coded number: each 0xFF adds 255, and the next byte ends it; `none` where the bytes end.
unfoldable pub ff_coded : ℕ → List ℕ → Option (ℕ × List ℕ)
ff_coded acc [] = none
ff_coded acc (b ∷ bs) = if b == 0xff then ff_coded (acc + 255) bs else some (acc + b, bs)

abbrev pub wanted : Codec → ℕ
wanted hevc = 136
wanted _ = 1

-- `decode` is the payload parser of the codec.
abbrev pub decode : Codec → SpsContext → List ℕ → ℕ → Option Clock
decode hevc sps payload size = parse_time_code_hevc payload size
decode _ sps payload size = parse_pic_timing_h264 payload size sps

-- A lone stop bit.
abbrev pub is_trailing : List ℕ → Bool
is_trailing [] = false
is_trailing (b ∷ bs) = b == 0x80 && length bs == 0

-- A message: its type, its size, and the bytes behind its header.
pub record Message : Type 0 where
  pub payload_type : ℕ
  pub size : ℕ
  pub body : List ℕ

unfoldable pub sized_message : ℕ → Option (ℕ × List ℕ) → Option Message
sized_message payload_type none = none
sized_message payload_type (some (size, body)) =
    if ltb (length body) size
    then none
    else some (record { payload_type = payload_type; size = size; body = body })

unfoldable pub typed_message : Option (ℕ × List ℕ) → Option Message
typed_message none = none
typed_message (some (payload_type, rest)) = sized_message payload_type (ff_coded 0 rest)

-- The message at the head of the bytes; `none` where the loop breaks.
unfoldable pub message_of : List ℕ → Option Message
message_of bs = if is_trailing bs then none else typed_message (ff_coded 0 bs)

unfoldable pub try_message : Codec → SpsContext → Message → Option Clock
try_message codec sps m =
    if m.payload_type == wanted codec then decode codec sps m.body m.size else none

-- `scan_sei_messages`, on fuel; what remains of the payload stands in place of `pos`.
unfoldable pub scan_sei : ℕ → Codec → SpsContext → List ℕ → Option Clock
scan_sei zero codec sps bs = none
scan_sei (suc fuel) codec sps bs = elim (message_of bs) [
  | none ↦ none
  | some m ↦
      let rest = scan_sei fuel codec sps (drop m.size m.body) in
      or_else (try_message codec sps m) rest
]

unfoldable pub scan_sei_messages : Codec → SpsContext → List ℕ → Option Clock
scan_sei_messages codec sps rbsp = scan_sei (length rbsp + 1) codec sps rbsp
