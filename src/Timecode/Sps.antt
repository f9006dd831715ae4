-- ===== src/Timecode/Sps.antt =====
-- `skip_scaling_list`, `parse_hrd` and `parse_sps_h264` of src/core/SLSTimecode.cpp: what the H.264
-- sequence parameter set says about the timecode that follows.
use irl_srt_server.Prelude.{
  ℕ, zero, suc, ◌+◌, ◌%◌, Bool, true, false, ◌||◌, not, List, length, ltb, ◌==◌, if◌then◌else◌,
}
use irl_srt_server.Prelude.Int.{ℤ, pos, negsuc, sub_ℕ, ◌+ℤ◌}
use irl_srt_server.Timecode.State.{SpsContext}
use irl_srt_server.Timecode.Bits.{
  BitReader, Bits, ◌>>=◌, ◌>>◌, return, fail, when, br_u, br_ue, br_se, br_flag,
}

-- `x % 256` of an `int`: the remainder has the sign of `x`.
rem_256 : ℤ → ℤ
rem_256 (pos n) = pos (n % 256)
rem_256 (negsuc n) = sub_ℕ 0 (suc n % 256)

abbrev is_zero : ℤ → Bool
is_zero (pos n) = n == 0
is_zero (negsuc n) = false

-- The loop of `skip_scaling_list`; a latched error ends it.
skip_scaling_list : ℕ → ℤ → ℤ → Bits ℤ
unfolding rem_256
skip_scaling_list zero last next r = (last, r)
skip_scaling_list (suc n) last next r =
    let keep = skip_scaling_list n (if is_zero next then last else next) next r in
    let (delta, r') = br_se r in
    let next' = rem_256 (last +ℤ delta +ℤ pos 256) in
    let read = skip_scaling_list n (if is_zero next' then last else next') next' r' in
    if r.err then (last, r) else if is_zero next then keep else read

-- The loop over the lists, `size` 16 for the first six.
skip_scaling_lists : ℕ → ℕ → Bits ℕ
unfolding skip_scaling_list
skip_scaling_lists zero i r = (i, r)
skip_scaling_lists (suc n) i r =
    let (present, r₁) = br_flag r in
    let r₂ =
      (if present
        then skip_scaling_list (if ltb i 6 then 16 else 64) (pos 8) (pos 8) r₁
        else (pos 8, r₁)).1 in
    let rest = skip_scaling_lists n (i + 1) r₂ in if r.err then (i, r) else rest

-- `for (i = 0; i < n && !r.err; i++) body;`
unfoldable pub repeat : ℕ → Bits ℕ → Bits ℕ
repeat zero body r = (0, r)
repeat (suc n) body r = let rest = repeat n body (body r).1 in if r.err then (0, r) else rest

-- The three widths that `parse_hrd` sets.
pub record HrdWidths : Type 0 where
  pub cpb_removal_len : ℕ
  pub dpb_output_len : ℕ
  pub time_offset_len : ℕ

parse_hrd_entries : ℕ → Bits HrdWidths
parse_hrd_entries cpb_cnt = do
  repeat cpb_cnt (do br_ue; br_ue; br_u 1)
  br_u 5
  cpb ← br_u 5
  dpb ← br_u 5
  offset ← br_u 5
  return (record { cpb_removal_len = cpb + 1; dpb_output_len = dpb + 1; time_offset_len = offset })

-- With more than 32 entries the error is latched and the widths stay as they were.
parse_hrd : HrdWidths → Bits HrdWidths
unfolding parse_hrd_entries
parse_hrd before = do
  cpb_cnt_minus1 ← br_ue
  br_u 4
  br_u 4
  if ltb 32 (cpb_cnt_minus1 + 1) then fail before else parse_hrd_entries (cpb_cnt_minus1 + 1)

unfoldable pub profile_has_chroma_ext : ℕ → Bool
profile_has_chroma_ext p =
    p == 100
    || p == 110
    || p == 122
    || p == 244
    || p == 44
    || p == 83
    || p == 86
    || p == 118
    || p == 128
    || p == 138
    || p == 139
    || p == 134
    || p == 135

sps_chroma_ext : Bits ℕ
unfolding skip_scaling_lists
sps_chroma_ext = do
  chroma_format_idc ← br_ue
  when (chroma_format_idc == 3) (br_u 1)
  br_ue
  br_ue
  br_u 1
  scaling ← br_flag
  when scaling (skip_scaling_lists (if chroma_format_idc == 3 then 12 else 8) 0)

-- With a cycle above 255 the error is latched: the source returns there, and its caller's test of
-- the error is the next thing that counts, since no later read yields anything.
sps_poc_cycle : Bits ℕ
sps_poc_cycle = do
  br_u 1
  br_se
  br_se
  cycle ← br_ue
  if ltb 255 cycle then fail 0 else repeat cycle (do br_se; return 0)

sps_pic_order : Bits ℕ
unfolding sps_poc_cycle
sps_pic_order = do
  poc_type ← br_ue
  if poc_type == 0 then br_ue else when (poc_type == 1) sps_poc_cycle

-- From the first byte to vui_parameters_present_flag.
sps_head : Bits Bool
unfolding sps_chroma_ext sps_pic_order
sps_head = do
  profile_idc ← br_u 8
  br_u 8
  br_u 8
  br_ue
  when (profile_has_chroma_ext profile_idc) sps_chroma_ext
  br_ue
  sps_pic_order
  br_ue
  br_u 1
  br_ue
  br_ue
  frame_mbs_only ← br_u 1
  when (frame_mbs_only == 0) (br_u 1)
  br_u 1
  cropping ← br_flag
  when cropping (do br_ue; br_ue; br_ue; br_ue)
  br_flag

aspect_ratio : Bits ℕ
aspect_ratio = do idc ← br_u 8; when (idc == 255) (do br_u 16; br_u 16)

video_signal_type : Bits ℕ
video_signal_type = do br_u 3; br_u 1; colour ← br_flag; when colour (do br_u 8; br_u 8; br_u 8)

-- The VUI up to the HRD flags.
vui_head : Bits ℕ
unfolding aspect_ratio video_signal_type
vui_head = do
  aspect_ratio_present ← br_flag
  when aspect_ratio_present aspect_ratio
  overscan_present ← br_flag
  when overscan_present (br_u 1)
  video_signal_present ← br_flag
  when video_signal_present video_signal_type
  chroma_loc_present ← br_flag
  when chroma_loc_present (do br_ue; br_ue)
  timing_present ← br_flag
  when timing_present (do br_u 32; br_u 32; br_u 1)

abbrev no_hrd : HrdWidths
no_hrd = record { cpb_removal_len = 0; dpb_output_len = 0; time_offset_len = 24 }

-- The VUI, and the context that it makes.
sps_vui : Bits SpsContext
unfolding vui_head parse_hrd
sps_vui = do
  vui_head
  nal_hrd ← br_flag
  nal_widths ← (if nal_hrd then parse_hrd no_hrd else return no_hrd)
  vcl_hrd ← br_flag
  widths ← (if vcl_hrd then parse_hrd nal_widths else return nal_widths)
  when (nal_hrd || vcl_hrd) (br_u 1)
  pic_struct_present ← br_flag
  return (record {
    sps_valid = true;
    cpb_dpb_delays_present = nal_hrd || vcl_hrd;
    cpb_removal_delay_length = widths.cpb_removal_len;
    dpb_output_delay_length = widths.dpb_output_len;
    pic_struct_present = pic_struct_present;
    time_offset_length = widths.time_offset_len;
  })

-- The context behind the head of the SPS. Without a VUI it is known that no picture carries a
-- timecode; a payload that ends too early changes nothing.
finish_sps : SpsContext → Bool → BitReader → SpsContext
unfolding sps_vui
finish_sps sps vui_present r =
    if r.err
    then sps
    else if not vui_present
    then record {
      sps_valid = true;
      cpb_dpb_delays_present = false;
      cpb_removal_delay_length = 0;
      dpb_output_delay_length = 0;
      pic_struct_present = false;
      time_offset_length = 24;
    }
    else if (sps_vui r).1.err
    then sps
    else (sps_vui r).0

unfoldable pub parse_sps_h264 : List ℕ → SpsContext → SpsContext
unfolding sps_head finish_sps
parse_sps_h264 rbsp sps = finish_sps sps (sps_head start).0 (sps_head start).1
  where
    start : BitReader
    start = record { buf = rbsp; len = length rbsp; pos = 0; err = false }
