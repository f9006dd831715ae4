-- ===== src/MapData/Streams.antt =====
-- The streams of src/core/SLSMapData.cpp: a call for one key leaves the others' rings alone, and what a
-- publisher puts reaches the log of its own ring.
use irl_srt_server.Prelude.{
  ℕ, ◌+◌, ◌<◌, ◌^◌, ◌≡◌, refl, ap, ◌∙◌, Bool, true, false, Option, none, some, List, ◌++◌, arith,
  Option-cases, inl, inr, ltb, length, take, if◌then◌else◌,
}
use irl_srt_server.Prelude.Int.{ℤ, pos, negsuc, add64}
use irl_srt_server.Prelude.Keyed.{
  Key, Keyed, find, same_key, find-assign_same, find-assign_other, find-erase_other,
}
use irl_srt_server.Ring
use irl_srt_server.Ring.{Ring, ReadId, Got}
use irl_srt_server.Ring.Inv.{Holds}
use irl_srt_server.Ring.Put.{Fits, put-Holds}
use irl_srt_server.Ts.Continuity.{CcState, check_continuity}
use irl_srt_server.MapData.{
  MapData, remove, remove_ring, drop_states, release, check_ingest, scan_ingest, put_ring, put,
  get_ring, get, store_got, add_sized, commit, grow, intended_size,
}
use irl_srt_server.MapData.Relay.{check_ingest-SameRings, scan_ingest-SameRings}

-- The rings behind the two scans of a `put`.
scanned_rings :
    (m : MapData) (key : Key) (d : Option (List ℕ)) (len : ℤ) (r : Ring)
    → (scan_ingest
        (find key (check_ingest (find key m.cc_states) d len m key r).0.tc_states)
        d
        len
        (check_ingest (find key m.cc_states) d len m key r).0
        key).rings
      ≡ m.rings
scanned_rings m key d len r =
    (scan_ingest-SameRings (find key (checked m).tc_states) d len (checked m) key).rings
    ∙ (check_ingest-SameRings (find key m.cc_states) d len m key r).0.rings
  where
    checked : MapData → MapData
    checked m = (check_ingest (find key m.cc_states) d len m key r).0

put_other :
    (m : MapData) (key l : Key) (d : Option (List ℕ)) (len : ℤ)
    → same_key l key ≡ false
    → find l (put m key d len).map.rings ≡ find l m.rings
unfolding put put_ring
put_other m key l d len h = elim (Option-cases (find key m.rings)) [
  | inl e ↦ rw (e, put)
  | inr (r, e) ↦
      rw (e, put)
        (find-assign_other key l (stored r) (scanned r) h
          ∙ ap (find l) (scanned_rings m key d len r))
]
  where
    checked : Ring → MapData × Ring
    checked r = check_ingest (find key m.cc_states) d len m key r

    stored : Ring → Ring
    stored r = (Ring.put (checked r).1 d len).1

    scanned : Ring → Keyed Ring
    scanned r = (scan_ingest (find key (checked r).0.tc_states) d len (checked r).0 key).rings

get_other :
    (m : MapData) (key l : Key) (id : Option ReadId) (size aligned now : ℕ)
    → same_key l key ≡ false
    → find l (get m key id size aligned now).2.rings ≡ find l m.rings
unfolding get get_ring store_got
get_other m key l id size aligned now h = elim (Option-cases (find key m.rings)) [
  | inl e ↦ rw (e, get)
  | inr (r, e) ↦ rw (e, get) (stored (Ring.get r id size aligned now).1)
]
  where
    stored : (o : Option Got) → find l (store_got m key o).rings ≡ find l m.rings
    stored none = refl
    stored (some g) = find-assign_other key l g.ring m.rings h

remove_other :
    (m : MapData) (key l : Key)
    → same_key l key ≡ false
    → find l (remove m key).1.rings ≡ find l m.rings
unfolding remove remove_ring drop_states release
remove_other m key l h = elim (Option-cases (find key m.rings)) [
  | inl e ↦ rw (e, remove)
  | inr (r, e) ↦ rw (e, remove) (find-erase_other key l m.rings h)
]

add_other :
    (base : ℕ) (m : MapData) (key l : Key) (kbps latency : ℤ) (next now : ℕ)
    → same_key l key ≡ false
    → find l (add_sized base m key kbps latency next now).1.rings ≡ find l m.rings
unfolding add_sized commit
add_other base m key l kbps latency next now h = ground (
  arith,
  find-assign_other key l
      (grow (Ring.create_sized base next now) (intended_size base kbps latency)).0 m.rings h,
)

-- A call for one key leaves the ring of every other key as it is: `add`, `put`, `get` and `remove`.
pub isolated :
    (m : MapData) (key l : Key)
    → same_key l key ≡ false
    → ((base : ℕ) (kbps latency : ℤ) (next now : ℕ)
        → find l (add_sized base m key kbps latency next now).1.rings ≡ find l m.rings)
      × ((d : Option (List ℕ)) (len : ℤ) → find l (put m key d len).map.rings ≡ find l m.rings)
      × ((id : Option ReadId) (size aligned now : ℕ)
          → find l (get m key id size aligned now).2.rings ≡ find l m.rings)
      × (find l (remove m key).1.rings ≡ find l m.rings)
isolated m key l h = (
  λ base kbps latency next now. add_other base m key l kbps latency next now h,
  λ d len. put_other m key l d len h,
  λ id size aligned now. get_other m key l id size aligned now h,
  remove_other m key l h,
)

noted : Bool → Ring → Ring
noted b r = if b then Ring.note_ingest_discontinuity r else r

noted-Holds : (b : Bool) (r : Ring) (log : List ℕ) → Holds r log → Holds (noted b r) log
unfolding noted Ring.note_ingest_discontinuity
noted-Holds true r log v = record {
  in_use = v.in_use;
  stored = v.stored;
  head_in = v.head_in;
  counted = v.counted;
  countable = v.countable;
  newest = v.newest;
}
noted-Holds false r log v = v

noted-Fits : (b : Bool) (r : Ring) (d : List ℕ) (len : ℕ) → Fits r d len → Fits (noted b r) d len
unfolding noted Ring.note_ingest_discontinuity
noted-Fits true r d len f = record {
  some_bytes = f.some_bytes;
  within = f.within;
  backed = f.backed;
}
noted-Fits false r d len f = f

put-discontinuities :
    (r : Ring) (d : Option (List ℕ)) (len : ℤ)
    → (Ring.put r d len).1.ingest_discontinuities ≡ r.ingest_discontinuities
unfolding Ring.put
put-discontinuities r none len = refl
put-discontinuities r (some d) (negsuc n) = refl
put-discontinuities r (some d) (pos n) = ground arith

noted-discontinuities :
    (b : Bool) (r : Ring)
    → (noted b r).ingest_discontinuities
      ≡ (if b then add64 r.ingest_discontinuities 1 else r.ingest_discontinuities)
unfolding noted Ring.note_ingest_discontinuity
noted-discontinuities true r = refl
noted-discontinuities false r = refl

-- A chunk that a publisher puts on its stream, of at least one byte and at most the ring's size, is
-- accepted whole, as long as fewer than 2^63 bytes are put in all: the call returns its length, the
-- stream's ring then holds the log with the chunk added, and its discontinuity counter goes up by one
-- (in 64 bits) exactly when the chunk breaks continuity.
pub put-relays :
    (m : MapData) (key : Key) (r : Ring) (cc : CcState) (log d : List ℕ) (n : ℕ)
    → find key m.rings ≡ some r
    → find key m.cc_states ≡ some cc
    → Holds r log
    → Fits r d n
    → length log + n < 2 ^ 63
    → ((put m key (some d) (pos n)).ret ≡ pos n)
      × ((r' : Ring) × (find key (put m key (some d) (pos n)).map.rings ≡ some r')
          × Holds r' (log ++ take n d)
          × (r'.ingest_discontinuities ≡ (
              if ltb 0 (check_continuity (some d) n (some cc)).0
              then add64 r.ingest_discontinuities 1
              else r.ingest_discontinuities)))
unfolding put put_ring check_ingest noted
put-relays m key r cc log d n e ec v f room =
    rw (e, put)
      (rw (ec, check_ingest)
        (
          done.0,
          (
            (Ring.put (noted broken r) (some d) (pos n)).1,
            find-assign_same key (Ring.put (noted broken r) (some d) (pos n)).1 _,
            done.1,
            put-discontinuities (noted broken r) (some d) (pos n) ∙ noted-discontinuities broken r,
          ),
        ))
  where
    broken : Bool
    broken = ltb 0 (check_continuity (some d) n (some cc)).0

    done :
        ((Ring.put (noted broken r) (some d) (pos n)).0 ≡ pos n)
        × Holds (Ring.put (noted broken r) (some d) (pos n)).1 (log ++ take n d)
    done =
        put-Holds (noted broken r) log d n (noted-Holds broken r log v) (noted-Fits broken r d n f)
          room
