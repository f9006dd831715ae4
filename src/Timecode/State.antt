-- ===== src/Timecode/State.antt =====
-- `ts_timecode_state`, `clock_timestamp` and `sls_init_ts_timecode_state` of src/core/SLSTimecode.
use irl_srt_server.Prelude.{ℕ, ◌≤◌, ◌<◌, length, Bool, false, Option, some, none, List, [], ◌==◌}

-- `sls_tc_codec`
pub data Codec : Type 0 where
  no_codec h264 hevc : Codec

pub record Clock : Type 0 where
  pub hours : ℕ
  pub minutes : ℕ
  pub seconds : ℕ
  pub frames : ℕ
  pub drop_frame : Bool

-- The H.264 context that pic_timing cannot be read without.
pub record SpsContext : Type 0 where
  pub sps_valid : Bool
  pub cpb_dpb_delays_present : Bool
  pub cpb_removal_delay_length : ℕ
  pub dpb_output_delay_length : ℕ
  pub pic_struct_present : Bool
  pub time_offset_length : ℕ

-- A PID or a PTS is `none` where the source holds INVALID_PID or INVALID_DTS_PTS. `au` is the first
-- `au_len` bytes of the accumulator.
pub record TcState : Type 0 where
  pub pmt_pid : Option ℕ
  pub video_pid : Option ℕ
  pub codec : Codec
  pub sps : SpsContext
  pub au : List ℕ
  pub au_open : Bool
  pub au_pts : Option ℕ
  pub valid : Bool
  pub clock : Clock
  pub pts : Option ℕ
  pub updates : ℕ

abbrev pub no_sps : SpsContext
no_sps = record {
  sps_valid = false;
  cpb_dpb_delays_present = false;
  cpb_removal_delay_length = 0;
  dpb_output_delay_length = 0;
  pic_struct_present = false;
  time_offset_length = 24;
}

abbrev pub zero_clock : Clock
zero_clock = record { hours = 0; minutes = 0; seconds = 0; frames = 0; drop_frame = false }

abbrev pub init : TcState
init = record {
  pmt_pid = none;
  video_pid = none;
  codec = no_codec;
  sps = no_sps;
  au = [];
  au_open = false;
  au_pts = none;
  valid = false;
  clock = zero_clock;
  pts = none;
  updates = 0;
}

-- `SLS_TC_AU_PREFIX_MAX`
abbrev pub au_prefix_max : ℕ
au_prefix_max = 8192

abbrev pub is_pid : Option ℕ → ℕ → Bool
is_pid none pid = false
is_pid (some p) pid = p == pid

-- A time of day, with a frame number that fits the nine bits of the widest field.
pub record IsSmpte (tc : Clock) : Type 0 where
  pub hours_in : tc.hours < 24
  pub minutes_in : tc.minutes < 60
  pub seconds_in : tc.seconds < 60
  pub frames_in : tc.frames < 512

-- The accumulator fits the array `au`, and the stored timecode is a time of day.
pub record IsSane (st : TcState) : Type 0 where
  pub au_fits : length st.au ≤ au_prefix_max
  pub in_range : IsSmpte st.clock
