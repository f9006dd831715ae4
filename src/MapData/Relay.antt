-- ===== src/MapData/Relay.antt =====
-- `put` and `get` of src/core/SLSMapData.cpp keep the budget: they store rings of the same size.
use irl_srt_server.Prelude.{
  ℕ, ◌%◌, ◌^◌, ◌≡◌, ◌∙◌, refl, sym, ap, Option, none, some, List, arith, Bool-cases, Option-cases,
  inl, inr,
}
use irl_srt_server.Prelude.Int.{ℤ, pos_part}
use irl_srt_server.Prelude.Keyed.{Key, find, assign, total}
use irl_srt_server.Ring
use irl_srt_server.Ring.{Ring, ReadId, Got}
use irl_srt_server.Ts.Continuity.{CcState}
use irl_srt_server.Timecode.State.{TcState}
use irl_srt_server.Timecode.Scan.{scan_timecode}
use irl_srt_server.MapData.Budget.{
  Balanced, assign-Balanced, Ring-put-data_size, get_at-data_size, one, size_of,
}
use irl_srt_server.MapData.{
  MapData, check_ingest, store_scan, store_got, scan_ingest, put_ring, put, get_ring, get,
}

-- `m'` has the rings and the counters of `m`.
pub record SameRings (m m' : MapData) : Type 0 where
  pub rings : m'.rings ≡ m.rings
  pub stream_count : m'.stream_count ≡ m.stream_count
  pub total_ring_bytes : m'.total_ring_bytes ≡ m.total_ring_bytes

pub check_ingest-SameRings :
    (o : Option CcState) (d : Option (List ℕ)) (len : ℤ) (m : MapData) (key : Key) (r : Ring)
    → SameRings m (check_ingest o d len m key r).0
      × ((check_ingest o d len m key r).1.data_size ≡ r.data_size)
unfolding check_ingest Ring.note_ingest_discontinuity
check_ingest-SameRings none d len m key r =
    (record { rings = refl; stream_count = refl; total_ring_bytes = refl }, refl)
check_ingest-SameRings (some cc) d len m key r =
    (record { rings = refl; stream_count = refl; total_ring_bytes = refl }, ground arith)

store_scan-SameRings :
    (m : MapData) (key : Key) (o : Option TcState) → SameRings m (store_scan m key o)
unfolding store_scan
store_scan-SameRings m key none = record {
  rings = refl;
  stream_count = refl;
  total_ring_bytes = refl;
}
store_scan-SameRings m key (some tc) = record {
  rings = refl;
  stream_count = refl;
  total_ring_bytes = refl;
}

pub scan_ingest-SameRings :
    (o : Option TcState) (d : Option (List ℕ)) (len : ℤ) (m : MapData) (key : Key)
    → SameRings m (scan_ingest o d len m key)
unfolding scan_ingest
scan_ingest-SameRings none d len m key = record {
  rings = refl;
  stream_count = refl;
  total_ring_bytes = refl;
}
scan_ingest-SameRings (some tc) d len m key =
    store_scan-SameRings m key (scan_timecode d (pos_part len) (some tc)).1

trans-SameRings : {a b c : MapData} → SameRings a b → SameRings b c → SameRings a c
trans-SameRings s t = record {
  rings = t.rings ∙ s.rings;
  stream_count = t.stream_count ∙ s.stream_count;
  total_ring_bytes = t.total_ring_bytes ∙ s.total_ring_bytes;
}

-- A store of a ring in a map that has the rings and the counters of a balanced one.
store-Balanced :
    {m m' : MapData} (key : Key) (r r' : Ring)
    → SameRings m m'
    → find key m.rings ≡ some r
    → r'.data_size ≡ r.data_size
    → Balanced m
    → Balanced (record m' { rings = assign key r' m'.rings })
store-Balanced {m = m} {m' = m'} key r r' s e h b =
    assign-Balanced m' key r r' (ap (find key) s.rings ∙ e) h (record {
      streams = s.stream_count ∙ b.streams ∙ ap (λ rs. total one rs % 2 ^ 32) (sym s.rings);
      bytes = s.total_ring_bytes ∙ b.bytes ∙ ap (λ rs. total size_of rs % 2 ^ 64) (sym s.rings);
    })

pub put-Balanced :
    (m : MapData) (key : Key) (d : Option (List ℕ)) (len : ℤ)
    → Balanced m
    → Balanced (put m key d len).map
unfolding put put_ring
put-Balanced m key d len b = elim (Option-cases (find key m.rings)) [
  | inl e ↦ rw (e, put) b
  | inr (r, e) ↦
      rw (e, put)
        (store-Balanced key r (Ring.put (checked r).1 d len).1
          (trans-SameRings (check_ingest-SameRings (find key m.cc_states) d len m key r).0
            (scan_ingest-SameRings (find key (checked r).0.tc_states) d len (checked r).0 key))
          e
          (Ring-put-data_size (checked r).1 d len
            ∙ (check_ingest-SameRings (find key m.cc_states) d len m key r).1)
          b)
]
  where
    checked : Ring → MapData × Ring
    checked r = check_ingest (find key m.cc_states) d len m key r

get_ring-Balanced :
    (m : MapData) (key : Key) (id : Option ReadId) (size aligned now : ℕ) (r : Ring)
    → find key m.rings ≡ some r
    → Balanced m
    → Balanced (get_ring (some r) m key id size aligned now).2
unfolding get_ring Ring.get store_got
get_ring-Balanced m key none size aligned now r e b = b
get_ring-Balanced m key (some id) size aligned now r e b = elim (Bool-cases r.freed) [
  | inl f ↦ simp f b
  | inr f ↦ simp f (
      assign-Balanced m key r (Ring.get_at r id size aligned now).ring e
        (get_at-data_size r id size aligned now) b)
]

pub get-Balanced :
    (m : MapData) (key : Key) (id : Option ReadId) (size aligned now : ℕ)
    → Balanced m
    → Balanced (get m key id size aligned now).2
unfolding get get_ring
get-Balanced m key id size aligned now b = elim (Option-cases (find key m.rings)) [
  | inl e ↦ rw (e, get) b
  | inr (r, e) ↦ rw (e, get) (get_ring-Balanced m key id size aligned now r e b)
]
