-- ===== src/ByteQueue/Script.antt =====
-- Whole scripts of calls on `CSLSArray`, against the plain queue.
use irl_srt_server.Prelude.{
  ℕ, ◌+◌, ◌≤◌, ◌<◌, ◌≡◌, refl, ap₂, some, List, [], ◌∷◌, ◌++◌, arith, length, take, drop, take-all,
}
use irl_srt_server.Prelude.Int.{pos}
use irl_srt_server.ByteQueue.{ByteQueue, get, get_inline, put, store, clear}
use irl_srt_server.ByteQueue.Fifo.{Holds, get-Holds, put-Holds, clear-Holds}

pub data Call : Type 0 where
  puts : List ℕ → Call
  gets : ℕ → Call
  clears : Call

-- What the reads of a script hand back, in order.
unfoldable pub run : ByteQueue → List Call → List (List ℕ)
run q [] = []
run q (puts d ∷ cs) = run (put q (some d) (pos (length d))).1 cs
run q (gets size ∷ cs) = (get q size).1 ∷ run (get q size).2 cs
run q (clears ∷ cs) = run (clear q) cs

unfoldable pub deliver : List ℕ → List Call → List (List ℕ)
deliver log [] = []
deliver log (puts d ∷ cs) = deliver (log ++ d) cs
deliver log (gets size ∷ cs) = take size log ∷ deliver (drop size log) cs
deliver log (clears ∷ cs) = deliver [] cs

-- Every put has bytes and finds room for them among `size` bytes.
abbrev pub AllFit : ℕ → List ℕ → List Call → Type 0
AllFit size log [] = Unit
AllFit size log (puts d ∷ cs) =
    (0 < length d) × (length log + length d ≤ size) × AllFit size (log ++ d) cs
AllFit size log (gets n ∷ cs) = AllFit size (drop n log) cs
AllFit size log (clears ∷ cs) = AllFit size [] cs

put-data_size :
    (q : ByteQueue) (log d : List ℕ)
    → Holds q log
    → length log + length d ≤ q.data_size
    → (put q (some d) (pos (length d))).1.data_size ≡ q.data_size
unfolding put
put-data_size q log d v room = unfold store in ground (arith, v.counted)

get-data_size : (q : ByteQueue) (size : ℕ) → (get q size).2.data_size ≡ q.data_size
unfolding get get_inline
get-data_size q size = ground arith

-- As long as each put has bytes and finds room for them, the reads of a script of puts, reads and
-- clears hand out what a plain queue does: the bytes put, in order, each one once.
pub run-deliver :
    (q : ByteQueue) (log : List ℕ) (cs : List Call)
    → Holds q log
    → AllFit q.data_size log cs
    → run q cs ≡ deliver log cs
unfolding run deliver
run-deliver q log [] v fit = refl
run-deliver q log (puts d ∷ cs) v (some_bytes, room, fit) =
    let (_, held) = put-Holds q log d (length d) v some_bytes (omega arith) room in
    let same = put-data_size q log d v room in
    run-deliver (put q (some d) (pos (length d))).1 (log ++ d) cs
      (rw (take-all (length d) d (omega arith)) at held) (rw same fit)
run-deliver q log (gets size ∷ cs) v fit =
    let (_, out, held) = get-Holds q log v size in
    ap₂ ◌∷◌ out (run-deliver (get q size).2 (drop size log) cs held (rw (get-data_size q size) fit))
run-deliver q log (clears ∷ cs) v fit =
    run-deliver (clear q) [] cs (clear-Holds q log v) (unfold clear in fit)
