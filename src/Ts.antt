-- ===== src/Ts.antt =====
-- Fields of an MPEG-TS packet, as src/core/common.cpp and src/core/SLSTimecode.cpp read them. A
-- packet is the list of its bytes and of what follows it.
pub mod Continuity
use irl_srt_server.Prelude.{ℕ, ◌+◌, ◌*◌, ◌/◌, ◌%◌, ◌^◌, Bool, List, ◌==◌}
use irl_srt_server.Prelude.Bytes.{at, field}

-- `TS_PACK_LEN`
abbrev pub ts_pack_len : ℕ
ts_pack_len = 188

-- `TS_SYNC_BYTE`
abbrev pub ts_sync_byte : ℕ
ts_sync_byte = 0x47

-- The PID of null packets.
abbrev pub null_pid : ℕ
null_pid = 0x1fff

abbrev pub pid_of : List ℕ → ℕ
pid_of p = field 0 5 (at p 1) * 2 ^ 8 + at p 2

-- adaptation_field_control
abbrev pub afc_of : List ℕ → ℕ
afc_of p = field 4 2 (at p 3)

-- The rounds of `for (i = 0; i + TS_PACK_LEN <= len; i += TS_PACK_LEN)`.
abbrev pub packet_count : ℕ → ℕ
packet_count len = len / ts_pack_len
