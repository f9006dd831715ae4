-- ===== src/Tests/RingTests.antt =====
-- A ring of eight bytes: three puts, a viewer that reads, and one that is lapped.
use irl_srt_server.Prelude.{
  ℕ, ◌++◌, ◌∙◌, ◌≡◌, refl, true, some, List, [], ◌∷◌, arith, read_bytes, write_bytes,
}
use irl_srt_server.Prelude.Int.{pos}
use irl_srt_server.Ring.{
  Ring, ReadId, create_sized, put, get_at, anchor, copy_len, copy_out, clamp_pos, drain, resync,
}
use irl_srt_server.Ring.Inv.{Holds, IsAt, create_sized-Holds, anchor-IsAt}
use irl_srt_server.Ring.Put.{Fits, put-Holds, put-IsAt, put-data_size}
use irl_srt_server.Ring.Stream.{
  Peek, peeks, put_amid, Call, puts, gets, gets_other, run, deliver, run-refines,
}

abbrev fresh : Ring
unfolding create_sized
fresh = (create_sized 8 1 1000).0

abbrev unanchored : ReadId
unanchored = record { read_pos = 0; data_count = 0; first = true; generation = 0 }

abbrev viewer : ReadId
unfolding anchor
viewer = anchor fresh unanchored

fresh-Holds : Holds fresh []
unfolding create_sized
fresh-Holds = create_sized-Holds 8 1 1000 (omega arith)

viewer-IsAt : IsAt fresh viewer 0
unfolding create_sized anchor
viewer-IsAt = anchor-IsAt unanchored fresh-Holds

abbrev passer_by : Peek
passer_by = record { id = unanchored; size = 4; aligned = 0; now = 5 }

abbrev script : List Call
script =
    puts (1 ∷ 2 ∷ 3 ∷ 4 ∷ 5 ∷ []) (passer_by ∷ [])
    ∷ gets 3 0 5
    ∷ puts (6 ∷ 7 ∷ 8 ∷ 9 ∷ []) []
    ∷ gets_other passer_by
    ∷ gets 10 2 5
    ∷ puts [] []
    ∷ []

run-script : run fresh viewer script ≡ (1 ∷ 2 ∷ 3 ∷ []) ∷ (4 ∷ 5 ∷ 6 ∷ 7 ∷ 8 ∷ 9 ∷ []) ∷ []
unfolding run peeks put_amid create_sized anchor put get_at drain resync copy_len copy_out clamp_pos
    read_bytes write_bytes
run-script = refl

run-refines_example : run fresh viewer script ≡ deliver 8 (record { log = []; cursor = 0 }) script
unfolding create_sized
run-refines_example =
    run-refines script fresh viewer (record { log = []; cursor = 0 })
      (record { holds = fresh-Holds; at = viewer-IsAt }) (omega arith)

abbrev payload : List ℕ
payload = 1 ∷ 2 ∷ 3 ∷ 4 ∷ 5 ∷ []

payload-Fits : Fits fresh payload 5
unfolding create_sized
payload-Fits = record { some_bytes = omega arith; within = omega arith; backed = omega arith }

-- The ring behind one put, with the viewer still at its start.
abbrev filled_ring : Ring
filled_ring = (put fresh (some payload) (pos 5)).1

filled-Holds : Holds filled_ring payload
filled-Holds = (put-Holds fresh [] payload 5 fresh-Holds payload-Fits (omega arith)).1

filled-IsAt : IsAt filled_ring viewer 0
filled-IsAt =
    put-IsAt fresh [] payload 5 0 viewer fresh-Holds payload-Fits (omega arith) viewer-IsAt

filled-size : filled_ring.data_size ≡ 8
unfolding create_sized
filled-size = (put-data_size fresh payload 5).0

-- A second put of six bytes laps the viewer.
abbrev more : List ℕ
more = 6 ∷ 7 ∷ 8 ∷ 9 ∷ 10 ∷ 11 ∷ []

more-Fits : Fits filled_ring more 6
more-Fits = record {
  some_bytes = omega arith;
  within = rw filled-size (omega arith);
  backed = omega arith;
}

abbrev lapped_ring : Ring
lapped_ring = (put filled_ring (some more) (pos 6)).1

lapped-Holds : Holds lapped_ring (payload ++ more)
lapped-Holds = (put-Holds filled_ring payload more 6 filled-Holds more-Fits (omega arith)).1

lapped-IsAt : IsAt lapped_ring viewer 0
lapped-IsAt =
    put-IsAt filled_ring payload more 6 0 viewer filled-Holds more-Fits (omega arith) filled-IsAt

lapped-size : lapped_ring.data_size ≡ 8
lapped-size = (put-data_size filled_ring more 6).0 ∙ filled-size
