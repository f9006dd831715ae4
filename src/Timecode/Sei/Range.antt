-- ===== src/Timecode/Sei/Range.antt =====
-- What the SEI payload parsers of src/core/SLSTimecode.cpp accept is a time of day; and the fuel of
-- the message loop is enough.
use irl_srt_server.Prelude.{
  ℕ, zero, suc, ◌+◌, ◌^◌, ◌≤◌, ◌<◌, ◌≡◌, refl, ap, Bool, Option, some, none, List, [], ◌∷◌, arith,
  Bool-cases, Option-cases, of_guard, or_else, or_else-cases, inl, inr, length, drop, length-drop,
  ◌==◌,
}
use irl_srt_server.Timecode.State.{Codec, no_codec, h264, hevc, Clock, SpsContext, IsSmpte}
use irl_srt_server.Timecode.Bits.{BitReader, Bits, br_u}
use irl_srt_server.Timecode.Bits.Laws.{br_u-lt}
use irl_srt_server.Timecode.Sei.{
  kept, plausible, clock_fields, clock_timestamp, find_clock, parse_pic_timing_h264,
  parse_time_code_hevc, ff_coded, Message, sized_message, typed_message, message_of, try_message,
  scan_sei, decode, wanted, is_trailing,
}

kept-eq_some :
    (err : Bool) (c : Clock) {tc : Clock}
    → kept err c ≡ some tc
    → (c ≡ tc) × (tc.hours < 24) × (tc.minutes < 60) × (tc.seconds < 60)
unfolding kept plausible
kept-eq_some err c e = ground arith

frames-clock_fields :
    (frame_bits : ℕ) (skip_offset : Bits ℕ) (r : BitReader)
    → (clock_fields frame_bits skip_offset r).0.frames < 2 ^ frame_bits
unfolding clock_fields
frames-clock_fields frame_bits skip_offset r = br_u-lt frame_bits _

clock_timestamp-range :
    (frame_bits : ℕ) (skip_offset : Bits ℕ) (r : BitReader) {tc : Clock}
    → 2 ^ frame_bits ≤ 512
    → (clock_timestamp frame_bits skip_offset r).0 ≡ some tc
    → IsSmpte tc
unfolding clock_timestamp
clock_timestamp-range frame_bits skip_offset r {tc} small e =
    let k =
      kept-eq_some (clock_fields frame_bits skip_offset r).1.err
        (clock_fields frame_bits skip_offset r).0 e in
    record {
      hours_in = k.1;
      minutes_in = k.2;
      seconds_in = k.3;
      frames_in = omega (
        arith,
        frames-clock_fields frame_bits skip_offset r,
        small,
        ap (λ (c : Clock). c.frames) k.0,
      );
    }

find_clock-range :
    (n : ℕ) (body : Bits (Option Clock)) (r : BitReader) {tc : Clock}
    → ((r' : BitReader) → (body r').0 ≡ some tc → IsSmpte tc)
    → (find_clock n body r).0 ≡ some tc
    → IsSmpte tc
unfolding find_clock
find_clock-range zero body r good e = cc
find_clock-range (suc n) body r good e = elim (Bool-cases r.err) [
  | inl failed ↦ cc (simp failed at e)
  | inr fine ↦ elim (Bool-cases ((br_u 1 r).0 == 0)) [
    | inl absent ↦ find_clock-range n body (br_u 1 r).1 good (simp (absent, fine) at e)
    | inr present ↦ good (br_u 1 r).1 (simp (present, fine) at e)
  ]
]

pub parse_time_code_hevc-range :
    (payload : List ℕ) (size : ℕ) {tc : Clock}
    → parse_time_code_hevc payload size ≡ some tc
    → IsSmpte tc
unfolding parse_time_code_hevc
parse_time_code_hevc-range payload size e =
    find_clock-range _ _ _ (λ r' e'. clock_timestamp-range 9 _ _ (omega arith) e') e

pub parse_pic_timing_h264-range :
    (payload : List ℕ) (size : ℕ) (sps : SpsContext) {tc : Clock}
    → parse_pic_timing_h264 payload size sps ≡ some tc
    → IsSmpte tc
unfolding parse_pic_timing_h264
parse_pic_timing_h264-range payload size sps e =
    let body = (of_guard _ _ e).1 in
    let clocks = (of_guard _ _ body).1 in
    find_clock-range _ _ _ (λ r' e'. clock_timestamp-range 8 _ _ (omega arith) e') clocks

pub decode-range :
    (codec : Codec) (sps : SpsContext) (payload : List ℕ) (size : ℕ) {tc : Clock}
    → decode codec sps payload size ≡ some tc
    → IsSmpte tc
decode-range hevc sps payload size e = parse_time_code_hevc-range payload size e
decode-range h264 sps payload size e = parse_pic_timing_h264-range payload size sps e
decode-range no_codec sps payload size e = parse_pic_timing_h264-range payload size sps e

try_message-range :
    (codec : Codec) (sps : SpsContext) (m : Message) {tc : Clock}
    → try_message codec sps m ≡ some tc
    → IsSmpte tc
unfolding try_message
try_message-range codec sps m e = elim (Bool-cases (m.payload_type == wanted codec)) [
  | inl hit ↦ decode-range codec sps m.body m.size (rw hit at e)
  | inr miss ↦ cc (rw miss at e)
]

-- Every timecode that the SEI walk accepts is a time of day with a frame below 512.
pub scan_sei-range :
    (fuel : ℕ) (codec : Codec) (sps : SpsContext) (bs : List ℕ) {tc : Clock}
    → scan_sei fuel codec sps bs ≡ some tc
    → IsSmpte tc
unfolding scan_sei
scan_sei-range zero codec sps bs e = cc
scan_sei-range (suc fuel) codec sps bs {tc} e = elim (Option-cases (message_of bs)) [
  | inl stop ↦ cc (rw (stop, scan_sei) at e)
  | inr (m, here) ↦
      elim (or_else-cases (try_message codec sps m) (scan_sei fuel codec sps (drop m.size m.body))
        (rw (here, scan_sei) at e)) [
          | inl this ↦ try_message-range codec sps m this
          | inr later ↦ scan_sei-range fuel codec sps (drop m.size m.body) later
        ]
]

length-ff_coded :
    (acc : ℕ) (bs : List ℕ) (n : ℕ) (rest : List ℕ)
    → ff_coded acc bs ≡ some (n, rest)
    → length rest < length bs
unfolding ff_coded
length-ff_coded acc [] n rest e = cc
length-ff_coded acc (b ∷ bs) n rest e = ground (arith, length-ff_coded (acc + 255) bs n rest)

body-sized_message :
    (payload_type : ℕ) (o : Option (ℕ × List ℕ)) (m : Message)
    → sized_message payload_type o ≡ some m
    → o ≡ some (m.size, m.body)
unfolding sized_message
body-sized_message payload_type none m e = cc
body-sized_message payload_type (some (size, body)) m e = ground arith

body-typed_message :
    (o : Option (ℕ × List ℕ)) (m : Message)
    → typed_message o ≡ some m
    → (payload_type : ℕ) × (rest : List ℕ) × (o ≡ some (payload_type, rest))
      × (length m.body < length rest)
unfolding typed_message
body-typed_message none m e = cc
body-typed_message (some (payload_type, rest)) m e = (
  payload_type,
  rest,
  refl,
  length-ff_coded 0 rest m.size m.body (body-sized_message payload_type (ff_coded 0 rest) m e),
)

length-message_of :
    (bs : List ℕ) (m : Message) → message_of bs ≡ some m → length (drop m.size m.body) < length bs
unfolding message_of
length-message_of bs m e =
    let (t, rest, at_type, shorter) =
      body-typed_message (ff_coded 0 bs) m (of_guard (is_trailing bs) _ e).1 in
    omega (arith, shorter, length-ff_coded 0 bs t rest at_type, length-drop m.size m.body)

-- The loop ends before its fuel does: any fuel of at least the length of the payload gives the same
-- answer, with and without a message to find.
pub scan_sei-fuel :
    (f g : ℕ) (codec : Codec) (sps : SpsContext) (bs : List ℕ)
    → length bs < f
    → length bs < g
    → scan_sei f codec sps bs ≡ scan_sei g codec sps bs
unfolding scan_sei
scan_sei-fuel zero g codec sps bs hf hg = absurd (omega arith)
scan_sei-fuel (suc f) zero codec sps bs hf hg = absurd (omega arith)
scan_sei-fuel (suc f) (suc g) codec sps bs hf hg = elim (Option-cases (message_of bs)) [
  | inl stop ↦ rw (stop, scan_sei)
  | inr (m, here) ↦
      rw (here, scan_sei)
        (ap (or_else (try_message codec sps m)) (
          scan_sei-fuel f g codec sps (drop m.size m.body)
            (omega (arith, length-message_of bs m here))
            (omega (arith, length-message_of bs m here))))
]
