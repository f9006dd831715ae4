-- ===== src/Tests/PesTests.antt =====
-- `sls_parse_ts_info` of src/core/common.cpp.
use irl_srt_server.Prelude.{
  ℕ, ◌+◌, ◌*◌, ◌/◌, ◌%◌, ◌^◌, ◌≡◌, some, List, [], ◌∷◌, ◌++◌, arith, replicate,
}
use irl_srt_server.Prelude.Int.{pos}
use irl_srt_server.Pes.{TsInfo, parse_ts_info, ff_parse_pes_pts}
use irl_srt_server.Pes.Reads.{Yields}
use irl_srt_server.Pes.Bounds.{KeepsLock, parse_ts_info-Yields}
use irl_srt_server.Pes.Pts.{encode_pts, ff_parse_pes_pts-encode}

-- A packet of PID 256 with a PES header and a time stamp, while that PID is followed.
abbrev packet : List ℕ
packet =
    (0x47 ∷ 0x41 ∷ 0 ∷ 0x10 ∷ 0 ∷ 0 ∷ 1 ∷ 0xe0 ∷ 0 ∷ 0 ∷ 0x80 ∷ 0x80 ∷ 5 ∷ 0x21 ∷ 0 ∷ 1 ∷ 0 ∷ 1
      ∷ [])
    ++ replicate 170 0xff

abbrev followed : TsInfo
followed = record { es_pid = pos 256; dts = pos 7; pts = pos 7; pmt_pid = pos 4096 }

parse_ts_info-Yields_example :
    Yields (KeepsLock followed) (parse_ts_info (some packet) 188 followed)
parse_ts_info-Yields_example = parse_ts_info-Yields packet 188 followed (omega arith)

-- 2^22 ticks, some 46 seconds, are the first stamp that is read wrong.
ff_parse_pes_pts-encode_example :
    ff_parse_pes_pts (encode_pts 2 4194304) 5
    ≡ some (pos (4194304 % 2 ^ 22 + 4194304 / 2 ^ 22 * 2 ^ 23))
ff_parse_pes_pts-encode_example = ff_parse_pes_pts-encode 2 4194304 (omega arith) (omega arith)
