-- ===== src/Timecode/Scan.antt =====
-- The access-unit accumulator, the NAL walk and `sls_ts_scan_timecode` of src/core/SLSTimecode.cpp.
pub mod Sane
use irl_srt_server.Prelude.{
  ℕ, zero, suc, ◌+◌, ◌-◌, ◌*◌, ◌/◌, ◌%◌, ◌^◌, min, Bool, true, false, ◌&&◌, ◌||◌, not, Option, some,
  none, List, [], ◌∷◌, ◌++◌, ltb, leb, ◌==◌, if◌then◌else◌, length, drop, take, or_else,
}
use irl_srt_server.Prelude.Bytes.{at, flag, field}
use irl_srt_server.Ts.{ts_pack_len, ts_sync_byte, null_pid, pid_of, afc_of, packet_count}
use irl_srt_server.Timecode.State.{
  Codec, no_codec, h264, hevc, Clock, SpsContext, TcState, au_prefix_max, is_pid,
}
use irl_srt_server.Timecode.Rbsp.{rbsp_unescape}
use irl_srt_server.Timecode.Sps.{parse_sps_h264}
use irl_srt_server.Timecode.Sei.{scan_sei_messages}
use irl_srt_server.Timecode.Psi.{parse_pat, parse_pmt}

-- `scan_nal`: the SPS context behind the NAL, and the timecode in it.
scan_nal_hevc : List ℕ → SpsContext → SpsContext × Option Clock
scan_nal_hevc nal sps =
    if ltb (length nal) 3
    then (sps, none)
    else if not (nal_type == 39) && not (nal_type == 40)
    then (sps, none)
    else (sps, scan_sei_messages hevc sps (rbsp_unescape (drop 2 nal) au_prefix_max))
  where
    nal_type : ℕ
    nal_type = field 1 6 (at nal 0)

scan_nal_h264 : Codec → List ℕ → SpsContext → SpsContext × Option Clock
scan_nal_h264 codec nal sps =
    if ltb (length nal) 2
    then (sps, none)
    else if nal_type == 7
    then (parse_sps_h264 rbsp sps, none)
    else if not (nal_type == 6)
    then (sps, none)
    else (sps, scan_sei_messages codec sps rbsp)
  where
    nal_type : ℕ
    nal_type = field 0 5 (at nal 0)

    rbsp : List ℕ
    rbsp = rbsp_unescape (drop 1 nal) au_prefix_max

unfoldable pub scan_nal : Codec → List ℕ → SpsContext → SpsContext × Option Clock
unfolding scan_nal_hevc scan_nal_h264
scan_nal hevc nal sps = scan_nal_hevc nal sps
scan_nal codec nal sps = scan_nal_h264 codec nal sps

-- `is_start_code`: the length of the start code at the head of the bytes.
unfoldable pub start_code : List ℕ → Option ℕ
start_code b =
    if ltb (length b) 3 || not (at b 0 == 0) || not (at b 1 == 0)
    then none
    else if at b 2 == 1
    then some 3
    else if leb 4 (length b) && (at b 2 == 0) && (at b 3 == 1)
    then some 4
    else none

-- Where the NAL ends: at the next start code, or with the bytes.
unfoldable pub nal_length : List ℕ → ℕ
nal_length [] = 0
nal_length (b ∷ bs) =
    let more = suc (nal_length bs) in
    if ltb (length (b ∷ bs)) 3
    then length (b ∷ bs)
    else elim (start_code (b ∷ bs)) [ some _ ↦ 0 | none ↦ more ]

-- The loop of `scan_au_prefix`, on fuel: the context behind the prefix and its first timecode.
unfoldable pub scan_prefix : ℕ → Codec → SpsContext → List ℕ → SpsContext × Option Clock
scan_prefix zero codec sps b = (sps, none)
scan_prefix (suc fuel) codec sps b =
    let skip = scan_prefix fuel codec sps (drop 1 b) in
    if ltb (length b) 3 then (sps, none) else elim (start_code b) [
      | none ↦ skip
      | some k ↦
          let n = nal_length (drop k b) in
          let (sps', tc) =
            if ltb 0 n then scan_nal codec (take n (drop k b)) sps else (sps, none) in
          let (sps'', later) = scan_prefix fuel codec sps' (drop (k + n) b) in
          (sps'', or_else tc later)
    ]

unfoldable pub scan_au_prefix : TcState → SpsContext × Option Clock
scan_au_prefix st = scan_prefix (length st.au) st.codec st.sps st.au

-- `read_pts`: 33 bits in five bytes.
unfoldable pub read_pts : List ℕ → ℕ
read_pts b =
    field 1 3 (at b 0) * 2 ^ 30
    + at b 1 * 2 ^ 22
    + field 1 7 (at b 2) * 2 ^ 15
    + at b 3 * 2 ^ 7
    + field 1 7 (at b 4)

unfoldable pub au_append : List ℕ → TcState → TcState
au_append data_ st = record st { au = st.au ++ take (au_prefix_max - length st.au) data_ }

-- What `au_flush` stores for a decoded timecode.
unfoldable pub commit : Option Clock → TcState → ℕ × TcState
commit none st = (0, st)
commit (some tc) st = (
  1,
  record st { valid = true; clock = tc; pts = st.au_pts; updates = (st.updates + 1) % 2 ^ 64 },
)

unfoldable pub au_flush : TcState → ℕ × TcState
au_flush st = (done.0, record (done.1) { au_open = false; au = [] })
  where
    scanned : SpsContext × Option Clock
    scanned = if ltb 0 (length st.au) then scan_au_prefix st else (st.sps, none)

    done : ℕ × TcState
    done = commit scanned.1 (record st { sps = scanned.0 })

-- The PES header at the start of an access unit; the accumulator has been flushed.
unfoldable pub open_au : List ℕ → TcState → TcState
open_au payload st =
    if ltb (length payload) 9
      || not (at payload 0 == 0)
      || not (at payload 1 == 0)
      || not (at payload 2 == 1)
    then st
    else if ltb (at payload 3) 0xe0 || ltb 0xef (at payload 3)
    then st
    else if ltb (length payload) es_offset
    then st
    else au_append (drop es_offset payload) (record st { au_pts = pts; au_open = true })
  where
    flags : ℕ
    flags = field 6 2 (at payload 7)

    header_len : ℕ
    header_len = at payload 8

    es_offset : ℕ
    es_offset = 9 + header_len

    pts : Option ℕ
    pts =
        if (flags == 2) && leb 5 header_len || (flags == 3) && leb 10 header_len
        then some (read_pts (drop 9 payload))
        else st.au_pts

-- The test for a full prefix behind the append.
unfoldable pub flush_full : ℕ × TcState → ℕ × TcState
flush_full (decoded, st) =
    if st.au_open && leb au_prefix_max (length st.au)
    then (decoded + (au_flush st).0, (au_flush st).1)
    else (decoded, st)

-- `feed_video_packet`. A header that is refused returns before the test for a full prefix, with the
-- accumulator closed, so that the test changes nothing there.
unfoldable pub feed_video_packet : List ℕ → Bool → TcState → ℕ × TcState
feed_video_packet payload true st =
    let (decoded, st') = au_flush st in
    flush_full (decoded, open_au payload (record st' { au_pts = none }))
feed_video_packet payload false st = flush_full (0, if st.au_open then au_append payload st else st)

-- The payload of a packet that carries one.
unfoldable pub payload_of : List ℕ → Option (List ℕ)
payload_of p =
    if not (flag 0 (afc_of p))
    then none
    else if flag 1 (afc_of p)
    then (if leb ts_pack_len (5 + at p 4)
        then none
        else some (drop (5 + at p 4) (take ts_pack_len p)))
    else some (drop 4 (take ts_pack_len p))

abbrev pub has_codec : Codec → Bool
has_codec no_codec = false
has_codec _ = true

unfoldable pub dispatch : ℕ → List ℕ → Bool → TcState → ℕ × TcState
dispatch pid payload pusi st =
    if pid == 0
    then (0, if pusi then parse_pat payload st else st)
    else if is_pid st.pmt_pid pid
    then (0, if pusi then parse_pmt payload st else st)
    else if is_pid st.video_pid pid && has_codec st.codec
    then feed_video_packet payload pusi st
    else (0, st)

unfoldable pub scan_packet : List ℕ → TcState → ℕ × TcState
scan_packet p st =
    if not (at p 0 == ts_sync_byte) || flag 7 (at p 1) || pid_of p == null_pid
    then (0, st)
    else elim (payload_of p) [
      | none ↦ (0, st)
      | some payload ↦ dispatch (pid_of p) payload (flag 6 (at p 1)) st
    ]

unfoldable pub scan_packets : ℕ → List ℕ → TcState → ℕ × TcState
scan_packets zero data_ st = (0, st)
scan_packets (suc n) data_ st =
    let (more, st') = scan_packets n (drop ts_pack_len data_) (scan_packet data_ st).1 in
    ((scan_packet data_ st).0 + more, st')

-- `sls_ts_scan_timecode`
unfoldable pub scan_timecode : Option (List ℕ) → ℕ → Option TcState → ℕ × Option TcState
scan_timecode none len st = (0, st)
scan_timecode (some data_) len none = (0, none)
scan_timecode (some data_) len (some st) =
    let (decoded, st') = scan_packets (packet_count len) data_ st in (decoded, some st')
