-- ===== src/Timecode/Scan/Sane.antt =====
-- The scanner of src/core/SLSTimecode.cpp keeps its accumulator inside the array and stores only times
-- of day, whatever bytes it is fed.
use mathlib.Core.Path.{subst}
use mathlib.Core.Option.{some-injective}
use irl_srt_server.Prelude.{
  ℕ, zero, suc, ◌+◌, ◌-◌, ◌/◌, ◌≡◌, refl, Bool, true, false, ◌&&◌, ◌||◌, not, Option, some, none,
  List, [], arith, Bool-cases, Option-cases, or_else, inl, inr, length, length-append, length-take,
  drop, take, ltb, leb, ◌==◌, if◌then◌else◌,
}
use irl_srt_server.Prelude.Bytes.{at, flag}
use irl_srt_server.Ts.{ts_pack_len, ts_sync_byte, null_pid, pid_of, packet_count}
use irl_srt_server.Timecode.State.{
  Codec, no_codec, h264, hevc, Clock, SpsContext, TcState, IsSmpte, IsSane, au_prefix_max,
}
use irl_srt_server.Timecode.Rbsp.{rbsp_unescape}
use irl_srt_server.Timecode.Sei.{scan_sei_messages}
use irl_srt_server.Timecode.Sei.Range.{scan_sei-range}
use irl_srt_server.Timecode.Psi.{
  set_program, length_at, set_video, parse_pat, parse_pmt, psi_section, first_program, first_video,
}
use irl_srt_server.Timecode.Scan.{
  scan_nal, scan_nal_hevc, scan_nal_h264, start_code, nal_length, scan_prefix, scan_au_prefix,
  au_append, commit, au_flush, open_au, flush_full, read_pts, feed_video_packet, dispatch,
  scan_packet, scan_packets, scan_timecode, payload_of,
}

scan_sei_messages-range :
    (codec : Codec) (sps : SpsContext) (rbsp : List ℕ) {tc : Clock}
    → scan_sei_messages codec sps rbsp ≡ some tc
    → IsSmpte tc
unfolding scan_sei_messages
scan_sei_messages-range codec sps rbsp e = scan_sei-range (length rbsp + 1) codec sps rbsp e

-- All that a result may hold.
abbrev InRange : Option Clock → Type 0
InRange o = (tc : Clock) → o ≡ some tc → IsSmpte tc

none-InRange : InRange none
none-InRange tc e = cc

-- A NAL that is scanned under a test.
if-InRange :
    (b : Bool) (x y : SpsContext × Option Clock)
    → InRange x.1
    → InRange y.1
    → InRange (if b then x else y).1
if-InRange true x y hx hy = hx
if-InRange false x y hx hy = hy

scan_nal-InRange :
    (codec : Codec) (nal : List ℕ) (sps : SpsContext) → InRange (scan_nal codec nal sps).1
unfolding scan_nal scan_nal_hevc scan_nal_h264
scan_nal-InRange hevc nal sps tc e = ground (
  arith,
  e,
  scan_sei_messages-range hevc sps (rbsp_unescape (drop 2 nal) au_prefix_max) {tc = tc},
)
scan_nal-InRange h264 nal sps tc e = ground (
  arith,
  e,
  scan_sei_messages-range h264 sps (rbsp_unescape (drop 1 nal) au_prefix_max) {tc = tc},
)
scan_nal-InRange no_codec nal sps tc e = ground (
  arith,
  e,
  scan_sei_messages-range no_codec sps (rbsp_unescape (drop 1 nal) au_prefix_max) {tc = tc},
)

or_else-InRange : (x y : Option Clock) → InRange x → InRange y → InRange (or_else x y)
or_else-InRange (some a) y hx hy = hx
or_else-InRange none y hx hy = hy

scan_prefix-InRange :
    (fuel : ℕ) (codec : Codec) (sps : SpsContext) (b : List ℕ)
    → InRange (scan_prefix fuel codec sps b).1
unfolding scan_prefix
scan_prefix-InRange zero codec sps b = none-InRange
scan_prefix-InRange (suc fuel) codec sps b = elim (Bool-cases (ltb (length b) 3)) [
  | inl e ↦ rw e none-InRange
  | inr e ↦ elim (Option-cases (start_code b)) [
    | inl h ↦ rw (e, h) (scan_prefix-InRange fuel codec sps (drop 1 b))
    | inr (k, h) ↦
        rw (e, h)
          (or_else-InRange (nal_at b k).1
            (scan_prefix fuel codec (nal_at b k).0 (drop (k + nal_length (drop k b)) b)).1
            (if-InRange (ltb 0 (nal_length (drop k b)))
              (scan_nal codec (take (nal_length (drop k b)) (drop k b)) sps) (sps, none)
              (scan_nal-InRange codec (take (nal_length (drop k b)) (drop k b)) sps) none-InRange)
            (scan_prefix-InRange fuel codec (nal_at b k).0 (drop (k + nal_length (drop k b)) b)))
  ]
]
  where
    nal_at : List ℕ → ℕ → SpsContext × Option Clock
    nal_at b k =
        if ltb 0 (nal_length (drop k b))
        then scan_nal codec (take (nal_length (drop k b)) (drop k b)) sps
        else (sps, none)

closed-IsSane :
    (o : Option Clock) (st : TcState)
    → InRange o
    → IsSane st
    → IsSane (record ((commit o st).1) { au_open = false; au = [] })
unfolding commit
closed-IsSane none st h v = record { au_fits = omega arith; in_range = v.in_range }
closed-IsSane (some tc) st h v = record { au_fits = omega arith; in_range = h tc refl }

au_flush-IsSane : (st : TcState) → IsSane st → IsSane (au_flush st).1
unfolding au_flush scan_au_prefix
au_flush-IsSane st v =
    closed-IsSane scanned.1 (record st { sps = scanned.0 })
      (if-InRange (ltb 0 (length st.au)) (scan_prefix (length st.au) st.codec st.sps st.au)
        (st.sps, none) (scan_prefix-InRange (length st.au) st.codec st.sps st.au) none-InRange)
      (record { au_fits = v.au_fits; in_range = v.in_range })
  where
    scanned : SpsContext × Option Clock
    scanned =
        if ltb 0 (length st.au)
        then scan_prefix (length st.au) st.codec st.sps st.au
        else (st.sps, none)

if-IsSane : (b : Bool) (x y : ℕ × TcState) → IsSane x.1 → IsSane y.1 → IsSane (if b then x else y).1
if-IsSane true x y hx hy = hx
if-IsSane false x y hx hy = hy

au_append-IsSane : (bytes : List ℕ) (st : TcState) → IsSane st → IsSane (au_append bytes st)
unfolding au_append
au_append-IsSane bytes st v = record {
  au_fits = omega (
    arith,
    v.au_fits,
    length-append st.au (take (8192 - length st.au) bytes),
    length-take (8192 - length st.au) bytes,
  );
  in_range = v.in_range;
}

open_au-IsSane : (payload : List ℕ) (st : TcState) → IsSane st → IsSane (open_au payload st)
unfolding open_au
open_au-IsSane payload st v = ground (
  arith,
  v,
  au_append-IsSane es (record st { au_pts = some (read_pts (drop 9 payload)); au_open = true })
      kept,
  au_append-IsSane es (record st { au_pts = st.au_pts; au_open = true }) kept,
)
  where
    es : List ℕ
    es = drop (9 + at payload 8) payload

    kept : {pts : Option ℕ} → IsSane (record st { au_pts = pts; au_open = true })
    kept = record { au_fits = v.au_fits; in_range = v.in_range }

flush_full-IsSane : (r : ℕ × TcState) → IsSane r.1 → IsSane (flush_full r).1
unfolding flush_full
flush_full-IsSane (n, st) v =
    if-IsSane (st.au_open && leb au_prefix_max (length st.au))
      (n + (au_flush st).0, (au_flush st).1) (n, st) (au_flush-IsSane st v) v

feed_video_packet-IsSane :
    (payload : List ℕ) (pusi : Bool) (st : TcState)
    → IsSane st
    → IsSane (feed_video_packet payload pusi st).1
unfolding feed_video_packet
feed_video_packet-IsSane payload true st v =
    flush_full-IsSane
      ((au_flush st).0, open_au payload (record ((au_flush st).1) { au_pts = none }))
      (open_au-IsSane payload (record ((au_flush st).1) { au_pts = none })
        (record {
          au_fits = (au_flush-IsSane st v).au_fits;
          in_range = (au_flush-IsSane st v).in_range;
        }))
feed_video_packet-IsSane payload false st v =
    flush_full-IsSane (0, if st.au_open then au_append payload st else st)
      (or_kept st.au_open (au_append-IsSane payload st v))
  where
    or_kept :
        (b : Bool) → IsSane (au_append payload st) → IsSane (if b then au_append payload st else st)
    or_kept true h = h
    or_kept false h = v

set_program-IsSane : (o : Option ℕ) (st : TcState) → IsSane st → IsSane (set_program o st)
unfolding set_program
set_program-IsSane none st v = v
set_program-IsSane (some pid) st v = ground (arith, v, reset)
  where
    reset : IsSane (record st {
      pmt_pid = some pid;
      video_pid = none;
      codec = no_codec;
      sps = record (st.sps) { sps_valid = false };
      au_open = false;
      au = [];
    })
    reset = record { au_fits = omega arith; in_range = v.in_range }

set_video-IsSane : (o : Option (ℕ × Codec)) (st : TcState) → IsSane st → IsSane (set_video o st)
unfolding set_video
set_video-IsSane none st v = v
set_video-IsSane (some (pid, codec)) st v = ground (arith, v, reset)
  where
    reset : IsSane (record st {
      video_pid = some pid;
      codec = codec;
      sps = record (st.sps) { sps_valid = false };
      au_open = false;
      au = [];
    })
    reset = record { au_fits = omega arith; in_range = v.in_range }

parse_pat-IsSane : (payload : List ℕ) (st : TcState) → IsSane st → IsSane (parse_pat payload st)
unfolding parse_pat
parse_pat-IsSane payload st v = elim (Option-cases (psi_section payload 0)) [
  | inl e ↦ rw (e, parse_pat) v
  | inr ((s, n), e) ↦
      rw (e, parse_pat) (set_program-IsSane (first_program ((n - 8) / 4) (drop 8 s)) st v)
]

parse_pmt-IsSane : (payload : List ℕ) (st : TcState) → IsSane st → IsSane (parse_pmt payload st)
unfolding parse_pmt
parse_pmt-IsSane payload st v = elim (Option-cases (psi_section payload 2)) [
  | inl e ↦ rw (e, parse_pmt) v
  | inr ((s, n), e) ↦ rw (e, parse_pmt) (ground (arith, v, set_video-IsSane (stream_at s n) st v))
]
  where
    stream_at : List ℕ → ℕ → Option (ℕ × Codec)
    stream_at s n = first_video n (drop (12 + length_at s 10) s) (n - (12 + length_at s 10))

dispatch-IsSane :
    (pid : ℕ) (payload : List ℕ) (pusi : Bool) (st : TcState)
    → IsSane st
    → IsSane (dispatch pid payload pusi st).1
unfolding dispatch
dispatch-IsSane pid payload pusi st v = ground (
  arith,
  v,
  parse_pat-IsSane payload st v,
  parse_pmt-IsSane payload st v,
  feed_video_packet-IsSane payload pusi st v,
)

scan_packet-IsSane : (p : List ℕ) (st : TcState) → IsSane st → IsSane (scan_packet p st).1
unfolding scan_packet
scan_packet-IsSane p st v = elim (Option-cases (payload_of p)) [
  | inl e ↦ rw (e, scan_packet) (if-IsSane (is_skipped p) (0, st) (0, st) v v)
  | inr (payload, e) ↦
      rw (e, scan_packet)
        (if-IsSane (is_skipped p) (0, st) (dispatch (pid_of p) payload (flag 6 (at p 1)) st) v
          (dispatch-IsSane (pid_of p) payload (flag 6 (at p 1)) st v))
]
  where
    is_skipped : List ℕ → Bool
    is_skipped p = not (at p 0 == ts_sync_byte) || flag 7 (at p 1) || pid_of p == null_pid

scan_packets-IsSane :
    (n : ℕ) (bytes : List ℕ) (st : TcState) → IsSane st → IsSane (scan_packets n bytes st).1
unfolding scan_packets
scan_packets-IsSane zero bytes st v = v
scan_packets-IsSane (suc n) bytes st v =
    scan_packets-IsSane n (drop ts_pack_len bytes) (scan_packet bytes st).1
      (scan_packet-IsSane bytes st v)

-- Whatever bytes the scanner is fed, the prefix it keeps of an access unit stays within the 8,192
-- bytes of the source's array, and the timecode it shows is a time of day with a frame below 512.
pub scan_timecode-IsSane :
    (bytes : List ℕ) (len : ℕ) (st : TcState) {st' : TcState}
    → IsSane st
    → (scan_timecode (some bytes) len (some st)).1 ≡ some st'
    → IsSane st'
unfolding scan_timecode
scan_timecode-IsSane bytes len st {st' = st'} v e =
    subst IsSane (some-injective (scan_packets (packet_count len) bytes st).1 st' e)
      (scan_packets-IsSane (packet_count len) bytes st v)
