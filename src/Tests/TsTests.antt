-- ===== src/Tests/TsTests.antt =====
-- The continuity checker of src/core/common.cpp on two packets of one PID, the second out of order.
use irl_srt_server.Prelude.{ℕ, ◌+◌, ◌≡◌, refl, inl, some, List, [], ◌∷◌, ◌++◌, arith, replicate}
use irl_srt_server.Ts.Continuity.{
  init, last_cc_of, set_last_cc, add_slot, is_break, check_slot, check_packet, check_packets,
  check_continuity,
}
use irl_srt_server.Ts.Continuity.Tracking.{recall_packets, check_packets-eq-recall_packets}

-- A packet of PID 256 with a payload and this continuity counter.
abbrev packet : ℕ → List ℕ
packet counter = 0x47 ∷ 1 ∷ 0 ∷ (16 + counter) ∷ replicate 184 0

abbrev pair : List ℕ
pair = packet 3 ++ packet 9

breaks : (check_continuity (some pair) 376 (some init)).0 ≡ 1
unfolding check_continuity check_packets check_packet check_slot add_slot set_last_cc last_cc_of
    is_break
breaks = refl

check_packets-eq-recall_packets_example : (check_packets 2 pair init).0 ≡ recall_packets 2 pair []
check_packets-eq-recall_packets_example =
    check_packets-eq-recall_packets 2 (256 ∷ []) pair (omega arith)
      (λ _. inl refl, (λ _. inl refl, record {}))
