-- ===== src/Tests/MapDataTests.antt =====
-- The streams of src/core/SLSMapData.cpp: a map with one small ring, below its caps.
use irl_srt_server.Prelude.{
  ℕ, ◌≤◌, ◌≡◌, ◌⊎◌, refl, true, false, none, some, List, [], ◌∷◌, ◌++◌, arith, ltb, take,
  if◌then◌else◌,
}
use irl_srt_server.Prelude.Int.{pos, sls_ok, sls_error, add64}
use irl_srt_server.Prelude.Keyed.{Key, find, same_key, is_some, total}
use irl_srt_server.Ring.{Ring, create_sized}
use irl_srt_server.Ring.Inv.{Holds, create_sized-Holds}
use irl_srt_server.Ring.Put.{Fits}
use irl_srt_server.Ts.Continuity
use irl_srt_server.Ts.Continuity.{CcState, check_continuity}
use irl_srt_server.MapData.{MapData, init, add_sized, set_caps, put, intended_size, max_ring_bytes}
use irl_srt_server.MapData.Budget.{Balanced}
use irl_srt_server.MapData.Reachable.{adds, caps, puts, start, goes, Reachable-Balanced}
use irl_srt_server.MapData.Caps.{Within, intended_size-bounds, add_sized-Within, add_sized-cases}
use irl_srt_server.MapData.Streams.{put-relays}

abbrev small : Ring
unfolding create_sized
small = (create_sized 8 1 1000).0

abbrev live : Key
live = 108 ∷ 1 ∷ []

abbrev other : Key
other = 108 ∷ 2 ∷ []

abbrev one_stream : MapData
one_stream = record {
  rings = (live, small) ∷ [];
  cc_states = (live, Continuity.init) ∷ [];
  tc_states = [];
  stream_count = 1;
  total_ring_bytes = 8;
  max_streams = pos 2;
  max_total_ring_bytes = pos 20;
}

one_stream-Balanced : Balanced one_stream
unfolding total create_sized
one_stream-Balanced = record { streams = omega arith; bytes = omega arith }

one_stream-Within : Within one_stream 2 20
unfolding total create_sized
one_stream-Within = record {
  stream_cap = refl;
  byte_cap = refl;
  few = omega arith;
  small = omega arith;
}

found : find live one_stream.rings ≡ some small
unfolding find same_key
found = refl

found_cc : find live one_stream.cc_states ≡ some Continuity.init
unfolding find same_key
found_cc = refl

distinct : same_key other live ≡ false
unfolding same_key
distinct = refl

Reachable-Balanced_example :
    Balanced
      (put
        (set_caps (add_sized 8 init live (pos 0) (pos 0) 1 1000).1 (pos 2) (pos 20))
        live
        (some (1 ∷ []))
        (pos 1)).map
Reachable-Balanced_example = Reachable-Balanced (
    goes (goes (goes start (adds 8 live (pos 0) (pos 0) 1 1000)) (caps (pos 2) (pos 20)))
      (puts live (some (1 ∷ [])) (pos 1)))

add_sized-Within_example : Within (add_sized 8 one_stream other (pos 0) (pos 0) 2 1001).1 2 20
add_sized-Within_example =
    add_sized-Within 8 2 20 one_stream other (pos 0) (pos 0) 2 1001
      (omega arith, omega arith, omega arith, omega arith) one_stream-Balanced one_stream-Within

intended_size-bounds_example :
    (8 ≤ intended_size 8 (pos 4000) (pos 3500))
    × ((intended_size 8 (pos 4000) (pos 3500) ≤ 8)
        ⊎ (intended_size 8 (pos 4000) (pos 3500) ≤ max_ring_bytes))
intended_size-bounds_example = intended_size-bounds 8 (pos 4000) (pos 3500)

sized : intended_size 8 (pos 4000) (pos 3500) ≡ 1500000
unfolding intended_size
sized = refl

add_sized-cases_example :
    let (ret, m', next') = add_sized 13 one_stream other (pos 0) (pos 0) 2 1001 in
    ((is_some (find other one_stream.rings) ≡ true)
      × (ret ≡ sls_ok)
      × (m' ≡ one_stream)
      × (next' ≡ 2))
    ⊎ (((find other one_stream.rings ≡ none) × (ret ≡ sls_error) × (m' ≡ one_stream))
        ⊎ ((find other one_stream.rings ≡ none)
            × (ret ≡ sls_ok)
            × ((r : Ring) × (find other m'.rings ≡ some r)
                × (r.data_size ≡ intended_size 13 (pos 0) (pos 0)))))
add_sized-cases_example = add_sized-cases 13 one_stream other (pos 0) (pos 0) 2 1001

abbrev chunk : List ℕ
chunk = 0x47 ∷ 1 ∷ 0 ∷ 0x13 ∷ []

chunk-Fits : Fits small chunk 4
unfolding create_sized
chunk-Fits = record { some_bytes = omega arith; within = omega arith; backed = omega arith }

put-relays_example :
    ((put one_stream live (some chunk) (pos 4)).ret ≡ pos 4)
    × ((r' : Ring) × (find live (put one_stream live (some chunk) (pos 4)).map.rings ≡ some r')
        × Holds r' ([] ++ take 4 chunk)
        × (r'.ingest_discontinuities ≡ (
            if ltb 0 (check_continuity (some chunk) 4 (some Continuity.init)).0
            then add64 small.ingest_discontinuities 1
            else small.ingest_discontinuities)))
unfolding create_sized small
put-relays_example =
    put-relays one_stream live small Continuity.init [] chunk 4 found found_cc
      (create_sized-Holds 8 1 1000 (omega arith)) chunk-Fits (omega arith)
