-- ===== src/Tests/QueueTests.antt =====
-- The byte queue of src/core/SLSArray.cpp and the clock of src/core/SLSSyncClock.cpp.
use irl_srt_server.Prelude.{◌≤◌, ◌<◌, ◌≡◌, refl, some, List, [], ◌∷◌, arith, min}
use irl_srt_server.Prelude.Int.{pos, ◌+ℤ◌}
use irl_srt_server.ByteQueue.{ByteQueue, create, set_size, put, get, count, ext_len}
use irl_srt_server.ByteQueue.Fifo.{Holds, set_size-Holds}
use irl_srt_server.ByteQueue.Script.{Call, puts, gets, clears, run, deliver, run-deliver}
use irl_srt_server.ByteQueue.Growth.{put-grows}
use irl_srt_server.SyncClock.{SyncClock, wait, ahead}
use irl_srt_server.SyncClock.Pace.{InPace, wait_lem}

small : ByteQueue
unfolding set_size
small = set_size create 4

small-Holds : Holds (set_size create 4) []
small-Holds = set_size-Holds create 4 (omega arith)

-- The third put goes round the end of the buffer.
abbrev calls : List Call
calls =
    puts (1 ∷ 2 ∷ 3 ∷ [])
    ∷ gets 2
    ∷ puts (4 ∷ 5 ∷ [])
    ∷ gets 9
    ∷ puts (6 ∷ 7 ∷ [])
    ∷ clears
    ∷ gets 1
    ∷ []

run-deliver_example : run (set_size create 4) calls ≡ deliver [] calls
unfolding set_size
run-deliver_example =
    run-deliver (set_size create 4) [] calls small-Holds
      (omega arith, omega arith, (omega arith, omega arith, (omega arith, omega arith, record {})))

put-grows_example :
    let q' = (put (set_size create 4) (some (1 ∷ 2 ∷ 3 ∷ 4 ∷ 5 ∷ [])) (pos 5)).1 in
    (count q' ≡ 5)
    × (5 ≤ ext_len (set_size create 4) 5)
    × ((get q' 9).0 ≡ pos (min 9 (ext_len (set_size create 4) 5)))
unfolding set_size
put-grows_example =
    put-grows (set_size create 4) [] (1 ∷ 2 ∷ 3 ∷ 4 ∷ 5 ∷ []) 5 9 small-Holds (omega arith)

abbrev clock : SyncClock
clock = record { jitter = pos 1000; begin_ms_rts = pos 500; begin_ms_sys = pos 90000 }

wait_lem_example :
    ((wait clock (pos 900) (pos 90100)).0 < 1000)
    × InPace
        (ahead
          (wait clock (pos 900) (pos 90100)).1
          (pos 900)
          (pos 90100 +ℤ pos (wait clock (pos 900) (pos 90100)).0))
        1000
wait_lem_example = wait_lem clock (pos 900) (pos 90100) refl (omega arith)
