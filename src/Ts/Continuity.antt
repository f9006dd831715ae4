-- ===== src/Ts/Continuity.antt =====
-- `ts_cc_state` and `sls_ts_check_continuity` of src/core/common.cpp: counting breaks of the
-- continuity counter, PID by PID, over what a publisher sends.
pub mod Chunks
pub mod Tracking
use irl_srt_server.Prelude.{
  ℕ, zero, suc, ◌+◌, ◌%◌, ◌^◌, Bool, true, false, ◌&&◌, not, Option, none, some, List, [], ◌∷◌,
  ◌++◌, ltb, ◌==◌, if◌then◌else◌, length, drop,
}
use irl_srt_server.Prelude.Bytes.{at, flag, field}
use irl_srt_server.Ts.{ts_pack_len, null_pid, pid_of, afc_of, packet_count}

-- `TS_CC_MAX_PIDS`
abbrev pub ts_cc_max_pids : ℕ
ts_cc_max_pids = 16

-- One slot of the arrays `pid` and `last_cc`.
pub record Slot : Type 0 where
  pub pid : ℕ
  pub last_cc : ℕ

-- `ts_cc_state`: the slots in use, so `n_pids` is the length.
abbrev pub CcState : Type 0
CcState = List Slot

-- `sls_init_ts_cc_state`
abbrev pub init : CcState
init = []

-- The first slot of the PID.
unfoldable pub last_cc_of : ℕ → CcState → Option ℕ
last_cc_of pid [] = none
last_cc_of pid (s ∷ st) = if s.pid == pid then some s.last_cc else last_cc_of pid st

unfoldable pub set_last_cc : ℕ → ℕ → CcState → CcState
set_last_cc pid cc [] = []
set_last_cc pid cc (s ∷ st) =
    if s.pid == pid then record s { last_cc = cc } ∷ st else s ∷ set_last_cc pid cc st

unfoldable pub add_slot : ℕ → ℕ → CcState → CcState
add_slot pid cc st =
    if ltb (length st) ts_cc_max_pids then st ++ record { pid = pid; last_cc = cc } ∷ [] else st

-- What the checker reads of a packet.
abbrev pub has_payload : List ℕ → Bool
has_payload p = flag 0 (afc_of p)

abbrev pub cc_of : List ℕ → ℕ
cc_of p = field 0 4 (at p 3)

-- `declared_discontinuity`
abbrev pub declared : List ℕ → Bool
declared p = flag 1 (afc_of p) && ltb 0 (at p 4) && flag 7 (at p 5)

-- The packet is neither out of sync nor a null packet.
abbrev pub is_checked : List ℕ → Bool
is_checked p = (at p 0 == 0x47) && not (pid_of p == null_pid)

-- An equal counter is a legal duplicate packet.
unfoldable pub is_break : List ℕ → ℕ → Bool
is_break p last = not (cc_of p == (last + 1) % 2 ^ 4) && not (cc_of p == last) && not (declared p)

-- The body of the loop behind its two `continue`s, given the slot that the search found.
unfoldable pub check_slot : List ℕ → CcState → Option ℕ → ℕ × CcState
check_slot p st none = (0, add_slot (pid_of p) (cc_of p) st)
check_slot p st (some last) =
    if has_payload p
    then (if is_break p last then 1 else 0, set_last_cc (pid_of p) (cc_of p) st)
    else (0, st)

unfoldable pub check_packet : List ℕ → CcState → ℕ × CcState
check_packet p st = if is_checked p then check_slot p st (last_cc_of (pid_of p) st) else (0, st)

-- `n` rounds of the loop, with the pointer at `data`: the breaks, and the state.
unfoldable pub check_packets : ℕ → List ℕ → CcState → ℕ × CcState
check_packets zero data_ st = (0, st)
check_packets (suc n) data_ st =
    let (more, st') = check_packets n (drop ts_pack_len data_) (check_packet data_ st).1 in
    ((check_packet data_ st).0 + more, st')

-- The whole of `sls_ts_check_continuity`; a NULL buffer or state counts nothing.
unfoldable pub check_continuity : Option (List ℕ) → ℕ → Option CcState → ℕ × Option CcState
check_continuity none len st = (0, st)
check_continuity (some data_) len none = (0, none)
check_continuity (some data_) len (some st) =
    let (breaks, st') = check_packets (packet_count len) data_ st in (breaks, some st')
