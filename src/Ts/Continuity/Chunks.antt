-- ===== src/Ts/Continuity/Chunks.antt =====
-- `sls_ts_check_continuity` does not depend on how the stream is cut into chunks of whole packets.
use Prim.Native.Nat.add
use native.Mathlib.Nat.{add_assoc, add-zero}
use irl_srt_server.Prelude.{
  ℕ, zero, suc, ◌+◌, ◌*◌, ◌≤◌, ◌<◌, ◌≡◌, refl, Option, some, none, List, [], ◌∷◌, ◌++◌, arith,
  length, length-append, length-drop, get_or-append, drop,
}
use irl_srt_server.Prelude.Bytes.{at}
use irl_srt_server.Ts.{ts_pack_len, pid_of, packet_count}
use irl_srt_server.Ts.Continuity.{
  CcState, last_cc_of, is_break, check_slot, check_packet, check_packets, check_continuity,
}

at-append : (a b : List ℕ) (k : ℕ) → k < length a → at (a ++ b) k ≡ at a k
at-append a b k h = ground (arith, get_or-append a b k 0)

drop-append : (n : ℕ) (a b : List ℕ) → n ≤ length a → drop n (a ++ b) ≡ drop n a ++ b
drop-append zero a b h = refl
drop-append (suc n) [] b h = absurd (omega arith)
drop-append (suc n) (x ∷ a) b h = drop-append n a b (omega arith)

check_slot-append :
    (a b : List ℕ) (st : CcState) (o : Option ℕ)
    → 6 ≤ length a
    → check_slot (a ++ b) st o ≡ check_slot a st o
unfolding check_slot is_break
check_slot-append a b st none h =
    rw (at-append a b 1 (omega arith), at-append a b 2 (omega arith), at-append a b 3 (omega arith))
check_slot-append a b st (some last) h = rw (
  at-append a b 1 (omega arith),
  at-append a b 2 (omega arith),
  at-append a b 3 (omega arith),
  at-append a b 4 (omega arith),
  at-append a b 5 (omega arith),
)

-- The checker reads the first six bytes of a packet.
check_packet-append :
    (a b : List ℕ) (st : CcState) → 6 ≤ length a → check_packet (a ++ b) st ≡ check_packet a st
unfolding check_packet
check_packet-append a b st h = rw (
  at-append a b 0 (omega arith),
  at-append a b 1 (omega arith),
  at-append a b 2 (omega arith),
  check_slot-append a b st (last_cc_of (pid_of a) st) h,
)

-- `m` packets, then what follows.
pub check_packets-append :
    (m n : ℕ) (a b : List ℕ) (st : CcState)
    → length a ≡ m * ts_pack_len
    → let (x, st₁) = check_packets m a st in
      let (y, st₂) = check_packets n b st₁ in check_packets (m + n) (a ++ b) st ≡ (x + y, st₂)
unfolding check_packets
check_packets-append zero n [] b st h = rw (add.zero, add.zero)
check_packets-append zero n (x ∷ a) b st h = absurd (omega arith)
check_packets-append (suc m) n a b st h = rw (
  add.suc,
  drop-append 188 a b (omega arith),
  check_packet-append a b st (omega arith),
  check_packets-append m n (drop 188 a) b (check_packet a st).1 (omega (arith, length-drop 188 a)),
  add_assoc,
)

-- Splitting a buffer at a packet boundary changes neither the breaks counted nor the state reached.
pub check_continuity-append :
    (m : ℕ) (a b : List ℕ) (st : CcState)
    → length a ≡ m * ts_pack_len
    → let (x, st₁) = check_continuity (some a) (length a) (some st) in
      let (y, st₂) = check_continuity (some b) (length b) st₁ in
      check_continuity (some (a ++ b)) (length (a ++ b)) (some st) ≡ (x + y, st₂)
unfolding check_continuity
check_continuity-append m a b st h =
    rw (whole, all, check_packets-append m (packet_count (length b)) a b st h)
  where
    whole : packet_count (length (a ++ b)) ≡ m + packet_count (length b)
    whole = omega (arith, length-append a b)

    all : packet_count (length a) ≡ m
    all = omega arith

-- A tail of less than one packet is ignored.
pub check_continuity-ragged :
    (m : ℕ) (a tail : List ℕ) (st : CcState)
    → length a ≡ m * ts_pack_len
    → length tail < ts_pack_len
    → check_continuity (some (a ++ tail)) (length (a ++ tail)) (some st)
      ≡ check_continuity (some a) (length a) (some st)
unfolding check_continuity check_packets
check_continuity-ragged m a tail st h short =
    rw (whole, all, check_packets-append m 0 a tail st h, add-zero)
  where
    whole : packet_count (length (a ++ tail)) ≡ m + 0
    whole = omega (arith, length-append a tail)

    all : packet_count (length a) ≡ m
    all = omega arith
