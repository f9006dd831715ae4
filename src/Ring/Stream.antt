-- ===== src/Ring/Stream.antt =====
-- The ring of SLSRecycleArray.cpp against a stream with a cursor: what one viewer receives while the
-- publisher puts and other viewers get, in any order, also in the middle of a put.
use mathlib.Core.Path.{subst}
use irl_srt_server.Prelude.{
  ◌==◌, ◌||◌, ℕ, ◌+◌, ◌-◌, ◌^◌, ◌≤◌, ◌<◌, ◌≡◌, refl, ap, ap₂, ◌∙◌, sym, some, List, [], ◌∷◌, ◌++◌,
  ◌&&◌, arith, leb, ltb, if◌then◌else◌, Bool-cases, leb→le, length, length-append, take-all,
  read_bytes, inl, inr,
}
use irl_srt_server.Prelude.Int.{pos, add64}
use irl_srt_server.Ring.{Ring, ReadId, put, write_in, count_put, get_at, copy_len}
use irl_srt_server.Ring.Inv.{Holds, IsAt}
use irl_srt_server.Ring.Put.{Fits, put-Holds, put-IsAt, put-data_size, put_refuses_length}
use irl_srt_server.Ring.Drain.{get_at_next, get_at_lapped, get_at-keeps}

-- Another viewer's `get`, with its own reader.
pub record Peek : Type 0 where
  pub id : ReadId
  pub size : ℕ
  pub aligned : ℕ
  pub now : ℕ

unfoldable pub peeks : Ring → List Peek → Ring
peeks r [] = r
peeks r (g ∷ gs) = peeks (get_at r g.id g.size g.aligned g.now).ring gs

-- A `put` with other viewers' calls between its two steps: behind the lock, and before the counter.
unfoldable pub put_amid : Ring → List ℕ → List Peek → Ring
put_amid r d gs =
    if length d == 0 || ltb r.data_size (length d)
    then peeks r gs
    else count_put (peeks (write_in r d (length d)) gs) (length d)

-- One call on the ring: the publisher's, with those of others in its middle, this viewer's, or another
-- viewer's.
pub data Call : Type 0 where
  puts : List ℕ → List Peek → Call
  gets : ℕ → ℕ → ℕ → Call
  gets_other : Peek → Call

-- What this viewer is handed, call by call.
unfoldable pub run : Ring → ReadId → List Call → List (List ℕ)
run r id [] = []
run r id (puts d gs ∷ cs) = run (put_amid r d gs) id cs
run r id (gets size aligned now ∷ cs) =
    (get_at r id size aligned now).out
    ∷ run (get_at r id size aligned now).ring (get_at r id size aligned now).id cs
run r id (gets_other g ∷ cs) = run (peeks r (g ∷ [])) id cs

-- The specification: all bytes put so far, and how many of them the viewer has passed.
pub record Stream : Type 0 where
  pub log : List ℕ
  pub cursor : ℕ

module _ (window : ℕ) where
  -- A buffer is taken whole or not at all.
  unfoldable pub append : Stream → List ℕ → Stream
  append s d =
      if ltb 0 (length d) && leb (length d) window then record s { log = s.log ++ d } else s

  -- The viewer gets the next bytes, or skips to the end if it is a whole window behind.
  unfoldable pub next : Stream → ℕ → ℕ → List ℕ × Stream
  next s size aligned =
      let n = copy_len (length s.log - s.cursor) size aligned in
      if leb (s.cursor + window) (length s.log)
      then ([], record s { cursor = length s.log })
      else (read_bytes 0 s.log s.cursor n, record s { cursor = s.cursor + n })

  unfoldable pub deliver : Stream → List Call → List (List ℕ)
  deliver s [] = []
  deliver s (puts d gs ∷ cs) = deliver (append s d) cs
  deliver s (gets size aligned now ∷ cs) =
      (next s size aligned).0 ∷ deliver (next s size aligned).1 cs
  deliver s (gets_other g ∷ cs) = deliver s cs

-- The bytes that a schedule puts.
abbrev pub put_total : List Call → ℕ
put_total [] = 0
put_total (puts d gs ∷ cs) = length d + put_total cs
put_total (gets size aligned now ∷ cs) = put_total cs
put_total (gets_other g ∷ cs) = put_total cs

-- The ring and the reader stand for this stream.
pub record Models (r : Ring) (id : ReadId) (s : Stream) : Type 0 where
  pub holds : Holds r s.log
  pub at : IsAt r id s.cursor

put-Models :
    (r : Ring) (id : ReadId) (s : Stream) (d : List ℕ)
    → Models r id s
    → length s.log + length d < 2 ^ 63
    → Models (put r (some d) (pos (length d))).1 id (append r.data_size s d)
unfolding append
put-Models r id s d m room = elim (Bool-cases (ltb 0 (length d) && leb (length d) r.data_size)) [
  | inl yes_fits ↦
      let f : Fits r d (length d) = ground (arith, yes_fits) in
      rw yes_fits (record {
        holds =
            rw (take-all (length d) d (omega arith)) at
              ((put-Holds r s.log d (length d) m.holds f room).1);
        at = put-IsAt r s.log d (length d) s.cursor id m.holds f room m.at;
      })
  | inr no_fit ↦ rw (no_fit, put_refuses_length r d (length d) (ground (arith, no_fit))) m
]

pub get-Models :
    (r : Ring) (id : ReadId) (s : Stream) (size aligned now : ℕ)
    → Models r id s
    → let g = get_at r id size aligned now in
      let (out, s') = next r.data_size s size aligned in (g.out ≡ out) × Models g.ring g.id s'
unfolding next
get-Models r id s size aligned now m =
    elim (Bool-cases (leb (s.cursor + r.data_size) (length s.log))) [
      | inl lapped ↦
          let done =
            get_at_lapped r s.log id s.cursor size aligned now m.holds m.at (leb→le _ _ lapped) in
          rw lapped (done.1, record { holds = done.3; at = done.2 })
      | inr kept ↦
          let done =
            get_at_next r s.log id s.cursor size aligned now m.holds m.at (ground (arith, kept)) in
          rw kept (done.1, record { holds = done.3; at = done.2 })
    ]

length-append_log :
    (window : ℕ) (s : Stream) (d : List ℕ)
    → length (append window s d).log ≤ length s.log + length d
unfolding append
length-append_log window s d = ground (arith, length-append s.log d)

log-next : (window : ℕ) (s : Stream) (size aligned : ℕ) → (next window s size aligned).1.log ≡ s.log
unfolding next
log-next window s size aligned = ground arith

-- Two rings that differ in their gauges only.
record Agrees (r r' : Ring) : Type 0 where
  bytes : r'.bytes ≡ r.bytes
  freed : r'.freed ≡ r.freed
  data_size : r'.data_size ≡ r.data_size
  data_count : r'.data_count ≡ r.data_count
  write_pos : r'.write_pos ≡ r.write_pos
  generation : r'.generation ≡ r.generation

Models-Agrees :
    (r r' : Ring) (id : ReadId) (s : Stream) → Agrees r r' → Models r id s → Models r' id s
Models-Agrees r r' id s a m = record {
  holds = record {
    in_use = a.freed ∙ m.holds.in_use;
    stored = rw (a.bytes, a.data_size) (m.holds.stored);
    head_in = rw (a.write_pos, a.data_size) (m.holds.head_in);
    counted = a.data_count ∙ m.holds.counted;
    countable = m.holds.countable;
    newest = λ k k_pos k_size k_log.
        rw (a.bytes, a.write_pos, a.data_size)
          (m.holds.newest k k_pos (subst (λ n. k ≤ n) a.data_size k_size) k_log);
  };
  at = record {
    anchored = m.at.anchored;
    same = m.at.same ∙ sym a.generation;
    read_in = rw a.data_size (m.at.read_in);
    behind = rw a.data_count (m.at.behind);
    consumed = m.at.consumed;
    placed = rw (a.data_count, a.data_size, a.write_pos) (m.at.placed);
  };
}

peeks-Agrees : (r : Ring) (gs : List Peek) → Agrees r (peeks r gs)
unfolding peeks
peeks-Agrees r [] = record {
  bytes = refl;
  freed = refl;
  data_size = refl;
  data_count = refl;
  write_pos = refl;
  generation = refl;
}
peeks-Agrees r (g ∷ gs) =
    let first = get_at-keeps r g.id g.size g.aligned g.now in
    let later = peeks-Agrees (get_at r g.id g.size g.aligned g.now).ring gs in
    record {
      bytes = later.bytes ∙ first.0;
      freed = later.freed ∙ first.1;
      data_size = later.data_size ∙ first.2;
      data_count = later.data_count ∙ first.3;
      write_pos = later.write_pos ∙ first.4;
      generation = later.generation ∙ first.5;
    }

-- What comes in the middle of a put changes nothing of it.
put_amid-Agrees :
    (r : Ring) (d : List ℕ) (gs : List Peek)
    → Agrees (put r (some d) (pos (length d))).1 (put_amid r d gs)
unfolding put put_amid
put_amid-Agrees r d gs = elim (Bool-cases (length d == 0)) [
  | inl e ↦ rw e (peeks-Agrees r gs)
  | inr e ↦ elim (Bool-cases (ltb r.data_size (length d))) [
    | inl big ↦ rw (e, big) (peeks-Agrees r gs)
    | inr fits ↦
        let amid = peeks-Agrees (write_in r d (length d)) gs in
        rw (e, fits, take-all (length d) d (omega arith))
          (record {
            bytes = amid.bytes;
            freed = amid.freed;
            data_size = amid.data_size;
            data_count = ap (λ n. add64 n (length d)) amid.data_count;
            write_pos = amid.write_pos;
            generation = amid.generation;
          })
  ]
]

-- Whatever the schedule, and whatever the other viewers do, also between the two steps of a put, the viewer
-- is handed exactly what the stream specification delivers, as long as its own calls do not fall between
-- these steps: consecutive bytes of what was put, skipped forward only when it is a whole buffer behind.
-- In all, fewer than 2^63 bytes are put.
pub run-refines :
    (cs : List Call) (r : Ring) (id : ReadId) (s : Stream)
    → Models r id s
    → length s.log + put_total cs < 2 ^ 63
    → run r id cs ≡ deliver r.data_size s cs
unfolding run deliver
run-refines [] r id s m room = refl
run-refines (puts d gs ∷ cs) r id s m room =
    let amid = put_amid-Agrees r d gs in
    run-refines cs (put_amid r d gs) id (append r.data_size s d)
      (Models-Agrees (put r (some d) (pos (length d))).1 (put_amid r d gs) id
        (append r.data_size s d) amid (put-Models r id s d m (omega arith)))
      (omega (arith, length-append_log r.data_size s d))
    ∙ ap (λ w. deliver w (append r.data_size s d) cs)
        (amid.data_size ∙ (put-data_size r d (length d)).0)
run-refines (gets size aligned now ∷ cs) r id s m room =
    let done = get-Models r id s size aligned now m in
    ap₂ ◌∷◌ done.0 (
      run-refines cs (get_at r id size aligned now).ring (get_at r id size aligned now).id
        (next r.data_size s size aligned).1 done.1 (rw (log-next r.data_size s size aligned) room)
      ∙ ap (λ w. deliver w (next r.data_size s size aligned).1 cs)
          (get_at-keeps r id size aligned now).2)
run-refines (gets_other g ∷ cs) r id s m room =
    let other = peeks-Agrees r (g ∷ []) in
    run-refines cs (peeks r (g ∷ [])) id s (Models-Agrees r (peeks r (g ∷ [])) id s other m) room
    ∙ ap (λ w. deliver w s cs) other.data_size
