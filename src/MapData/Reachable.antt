-- ===== src/MapData/Reachable.antt =====
-- Every sequence of calls on the object of src/core/SLSMapData.cpp, as a step relation, and what holds
-- of each state that it reaches.
use irl_srt_server.Prelude.{
  ℕ, ◌≡◌, refl, Bool, true, false, Option, none, some, List, Option-cases, inl, inr, arith,
  if◌then◌else◌,
}
use irl_srt_server.Prelude.Int.{ℤ, pos, negsuc}
use irl_srt_server.Prelude.Keyed.{Key, find, assign}
use irl_srt_server.Ring
use irl_srt_server.Ring.{Ring, ReadId}
use irl_srt_server.Timecode.State.{TcState}
use irl_srt_server.Timecode.State
use irl_srt_server.MapData.{MapData, init, add_sized, set_caps, remove, clear, put, get}
use irl_srt_server.MapData.Stats.{
  poll, report, report_viewer_snd_drops, report_viewer_backpressure, get_max_reader_backlog,
  get_viewer_backpressure_events, get_viewer_snd_drops, get_ingest_discontinuities,
  set_timecode_scan, get_timecode_stats,
}
use irl_srt_server.MapData.Budget.{
  Balanced, init-Balanced, add_sized-Balanced, remove-Balanced, clear-Balanced, assign-Balanced,
}
use irl_srt_server.MapData.Relay.{put-Balanced, get-Balanced}

-- One call of a method that may change the object, with any arguments.
pub data Step : MapData → MapData → Type 0 where
  adds :
      {m : MapData} (base : ℕ) (key : Key) (kbps latency : ℤ) (next now : ℕ)
      → Step m (add_sized base m key kbps latency next now).1
  removes : {m : MapData} (key : Key) → Step m (remove m key).1
  clears : {m : MapData} → Step m (clear m)
  caps : {m : MapData} (streams bytes : ℤ) → Step m (set_caps m streams bytes)
  puts : {m : MapData} (key : Key) (d : Option (List ℕ)) (len : ℤ) → Step m (put m key d len).map
  gets :
      {m : MapData} (key : Key) (id : Option ReadId) (size aligned now : ℕ)
      → Step m (get m key id size aligned now).2
  polls_backlog :
      {m : MapData} (key : Option Key) (clear_ : Bool)
      → Step m (get_max_reader_backlog m key clear_).1
  polls_backpressure :
      {m : MapData} (key : Option Key) (clear_ : Bool)
      → Step m (get_viewer_backpressure_events m key clear_).1
  polls_snd_drops :
      {m : MapData} (key : Option Key) (clear_ : Bool)
      → Step m (get_viewer_snd_drops m key clear_).1
  polls_discontinuities :
      {m : MapData} (key : Option Key) (clear_ : Bool)
      → Step m (get_ingest_discontinuities m key clear_).1
  reports_backpressure :
      {m : MapData} (key : Option Key) → Step m (report_viewer_backpressure m key)
  reports_snd_drops :
      {m : MapData} (key : Option Key) (count : ℤ) → Step m (report_viewer_snd_drops m key count)
  sets_scan :
      {m : MapData} (key : Option Key) (enabled : Bool) → Step m (set_timecode_scan m key enabled)
  polls_timecode :
      {m : MapData} (key : Option Key) (clear_ : Bool) → Step m (get_timecode_stats m key clear_).1

-- The states that calls lead to from the constructor's.
pub data Reachable : MapData → Type 0 where
  start : Reachable init
  goes : {m m' : MapData} → Reachable m → Step m m' → Reachable m'

report-Balanced :
    (note : Ring → Ring) (m : MapData) (key : Option Key)
    → ((r : Ring) → (note r).data_size ≡ r.data_size)
    → Balanced m
    → Balanced (report note m key)
unfolding report
report-Balanced note m none h b = b
report-Balanced note m (some key) h b = elim (Option-cases (find key m.rings)) [
  | inl e ↦ rw (e, report) b
  | inr (r, e) ↦ rw (e, report) (assign-Balanced m key r (note r) e (h r) b)
]

poll-Balanced :
    (gauge : Ring → Bool → ℤ × Ring) (m : MapData) (key : Option Key) (clear_ : Bool)
    → ((r : Ring) → (gauge r clear_).1.data_size ≡ r.data_size)
    → Balanced m
    → Balanced (poll gauge m key clear_).1
unfolding poll
poll-Balanced gauge m none clear_ h b = b
poll-Balanced gauge m (some key) clear_ h b = elim (Option-cases (find key m.rings)) [
  | inl e ↦ rw (e, poll) b
  | inr (r, e) ↦ rw (e, poll) (assign-Balanced m key r (gauge r clear_).1 e (h r) b)
]

snd_drops-data_size :
    (n : ℤ) (r : Ring) → (Ring.report_viewer_snd_drops r n).data_size ≡ r.data_size
unfolding Ring.report_viewer_snd_drops
snd_drops-data_size (pos n) r = ground arith
snd_drops-data_size (negsuc n) r = refl

snd_drops-Balanced :
    (m : MapData) (key : Option Key) (count : ℤ)
    → Balanced m
    → Balanced (report_viewer_snd_drops m key count)
unfolding report_viewer_snd_drops
snd_drops-Balanced m key count b = ground (
  arith,
  b,
  report-Balanced (λ r. Ring.report_viewer_snd_drops r count) m key (snd_drops-data_size count) b,
)

set_timecode_scan-Balanced :
    (m : MapData) (key : Option Key) (enabled : Bool)
    → Balanced m
    → Balanced (set_timecode_scan m key enabled)
unfolding set_timecode_scan
set_timecode_scan-Balanced m none enabled b = b
set_timecode_scan-Balanced m (some key) false b = record { streams = b.streams; bytes = b.bytes }
set_timecode_scan-Balanced m (some key) true b = ground (arith, b, stored)
  where
    stored : Balanced (record m { tc_states = assign key State.init m.tc_states })
    stored = record { streams = b.streams; bytes = b.bytes }

get_timecode_stats-Balanced :
    (m : MapData) (key : Option Key) (clear_ : Bool)
    → Balanced m
    → Balanced (get_timecode_stats m key clear_).1
unfolding get_timecode_stats
get_timecode_stats-Balanced m none clear_ b = b
get_timecode_stats-Balanced m (some key) clear_ b = elim (Option-cases (find key m.tc_states)) [
  | inl e ↦ rw (e, get_timecode_stats) b
  | inr (tc, e) ↦ rw (e, get_timecode_stats) (cleared tc clear_)
]
  where
    cleared :
        (tc : TcState) (c : Bool)
        → Balanced (
            if c
            then record m { tc_states = assign key (record tc { updates = 0 }) m.tc_states }
            else m)
    cleared tc true = record { streams = b.streams; bytes = b.bytes }
    cleared tc false = b

-- A poll keeps the ring's size, cleared or not.
max_reader_backlog-data_size :
    (c : Bool) (r : Ring) → (Ring.get_max_reader_backlog r c).1.data_size ≡ r.data_size
unfolding Ring.get_max_reader_backlog
max_reader_backlog-data_size c r = ground arith

backpressure-data_size :
    (c : Bool) (r : Ring) → (Ring.get_viewer_backpressure_events r c).1.data_size ≡ r.data_size
unfolding Ring.get_viewer_backpressure_events
backpressure-data_size c r = ground arith

viewer_snd_drops-data_size :
    (c : Bool) (r : Ring) → (Ring.get_viewer_snd_drops r c).1.data_size ≡ r.data_size
unfolding Ring.get_viewer_snd_drops
viewer_snd_drops-data_size c r = ground arith

discontinuities-data_size :
    (c : Bool) (r : Ring) → (Ring.get_ingest_discontinuities r c).1.data_size ≡ r.data_size
unfolding Ring.get_ingest_discontinuities
discontinuities-data_size c r = ground arith

Step-Balanced : {m m' : MapData} → Step m m' → Balanced m → Balanced m'
unfolding set_caps report_viewer_backpressure get_max_reader_backlog get_viewer_backpressure_events
    get_viewer_snd_drops get_ingest_discontinuities Ring.report_viewer_backpressure
Step-Balanced (adds {m = m} base key kbps latency next now) b =
    add_sized-Balanced base m key kbps latency next now b
Step-Balanced (removes {m = m} key) b = remove-Balanced m key b
Step-Balanced (clears {m = m}) b = clear-Balanced m b
Step-Balanced (caps streams bytes) b = record { streams = b.streams; bytes = b.bytes }
Step-Balanced (puts {m = m} key d len) b = put-Balanced m key d len b
Step-Balanced (gets {m = m} key id size aligned now) b = get-Balanced m key id size aligned now b
Step-Balanced (polls_backlog {m = m} key clear_) b =
    poll-Balanced Ring.get_max_reader_backlog m key clear_ (max_reader_backlog-data_size clear_) b
Step-Balanced (polls_backpressure {m = m} key clear_) b =
    poll-Balanced Ring.get_viewer_backpressure_events m key clear_ (backpressure-data_size clear_) b
Step-Balanced (polls_snd_drops {m = m} key clear_) b =
    poll-Balanced Ring.get_viewer_snd_drops m key clear_ (viewer_snd_drops-data_size clear_) b
Step-Balanced (polls_discontinuities {m = m} key clear_) b =
    poll-Balanced Ring.get_ingest_discontinuities m key clear_ (discontinuities-data_size clear_) b
Step-Balanced (reports_backpressure {m = m} key) b =
    report-Balanced Ring.report_viewer_backpressure m key (λ r. refl) b
Step-Balanced (reports_snd_drops {m = m} key count) b = snd_drops-Balanced m key count b
Step-Balanced (sets_scan {m = m} key enabled) b = set_timecode_scan-Balanced m key enabled b
Step-Balanced (polls_timecode {m = m} key clear_) b = get_timecode_stats-Balanced m key clear_ b

-- In every state that calls reach, the stream counter is the number of live rings and the byte
-- counter the sum of their sizes, each in the width of its type.
pub Reachable-Balanced : {m : MapData} → Reachable m → Balanced m
Reachable-Balanced start = init-Balanced
Reachable-Balanced (goes r s) = Step-Balanced s (Reachable-Balanced r)
