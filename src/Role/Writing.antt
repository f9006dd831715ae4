-- ===== src/Role/Writing.antt =====
-- `handler_write_data` of src/core/SLSRole.cpp: how the bytes of a stream's ring reach a viewer's socket.
use irl_srt_server.Prelude.{
  ℕ, zero, suc, ◌+◌, ◌-◌, ◌*◌, ◌/◌, ◌%◌, ◌^◌, Bool, true, false, ◌&&◌, ◌||◌, not, Option, none,
  some, List, [], ◌∷◌, ◌++◌, max, ltb, leb, length, take, drop, ◌==◌, if◌then◌else◌,
}
use irl_srt_server.Prelude.Int.{
  ℤ, pos, pos_part, sub_ℕ, ltb_ℤ, leb_ℤ, i32, add64, sls_ok, sls_error,
}
use irl_srt_server.Prelude.Keyed.{Key}
use irl_srt_server.Ring.{Got}
use irl_srt_server.MapData.{MapData}
use irl_srt_server.MapData
use irl_srt_server.MapData.Stats.{report_viewer_backpressure}
use irl_srt_server.Relay.Loop.{is_ok}
use irl_srt_server.Role.Webhook.{Vetter, Response, Checked, check_http_passed}
use irl_srt_server.Role.{Role, World, Egress, Bitrate, Call, sends, is_empty}

-- TS_UDP_LEN, DATA_BUFF_SIZE and MAX_EGRESS_BATCHES.
abbrev pub ts_udp_len : ℕ
ts_udp_len = 1316

abbrev pub data_buff_size : ℕ
data_buff_size = 16 * 1316

-- What `libsrt_write` did with a packet: it took it whole, or so many bytes of it; it was busy
-- (SRT_EASYNCSND) at this time; or it failed.
pub data Answer : Type 0 where
  whole : Answer
  short : ℕ → Answer
  busy : ℕ → Answer
  failed : Answer

-- `backpressure_stuck_timeout_ms`
abbrev pub stuck_timeout_ms : ℤ → ℕ
stuck_timeout_ms latency = max (pos_part latency * 3) 500

-- `m_data_pos < m_data_len`, and what the packet loop tests.
abbrev pub has_packet : Egress → Bool
has_packet e = leb (e.data_pos + ts_udp_len) (length e.staged)

abbrev pub packet : Egress → List ℕ
packet e = take ts_udp_len (drop e.data_pos e.staged)

-- How a round of the loops ends: it goes on, or the handler returns.
pub data Ended : Type 0 where
  goes_on : Ended
  returns : ℤ → Ended

-- The members that the loops change, the stream map, the packets that the socket took (oldest first), the
-- bytes in them, and the packets that were given to it (newest first).
pub record Progress : Type 0 where
  pub egress : Egress
  pub map : MapData
  pub sent : List (List ℕ)
  pub write_size : ℕ
  pub tried : List (List ℕ)

-- A packet that the socket took.
unfoldable pub sent_one : Progress → Progress
sent_one p = record p {
  egress = record p.egress { data_pos = p.egress.data_pos + ts_udp_len; stuck_since_ms = 0 };
  sent = p.sent ++ packet p.egress ∷ [];
  write_size = p.write_size + ts_udp_len;
  tried = packet p.egress ∷ p.tried;
}

-- SRT_EASYNCSND: it is counted, here and on the ring. The first one of a row starts the timer, and a later
-- one ends the viewer that made no progress for too long.
unfoldable pub backpressured : Key → ℤ → Progress → ℕ → Ended × Progress
backpressured key latency p now =
    let counted : Egress = record p.egress {
      backpressure_count = add64 p.egress.backpressure_count 1;
    } in
    let noted : Progress = record p {
      egress = counted;
      map = report_viewer_backpressure p.map (some key);
      tried = packet p.egress ∷ p.tried;
    } in
    if counted.stuck_since_ms == 0
    then (
      returns (pos p.write_size),
      record noted { egress = record counted { stuck_since_ms = now } },
    )
    else if ltb_ℤ (pos (stuck_timeout_ms latency)) (sub_ℕ now counted.stuck_since_ms)
    then (returns sls_error, noted)
    else (returns (pos p.write_size), noted)

abbrev pub after_write : Key → ℤ → Progress → Answer → Ended × Progress
after_write key latency p whole = (goes_on, sent_one p)
after_write key latency p (short n) =
    (returns (pos p.write_size), record p { tried = packet p.egress ∷ p.tried })
after_write key latency p (busy now) = backpressured key latency p now
after_write key latency p failed =
    (returns sls_error, record p { tried = packet p.egress ∷ p.tried })

abbrev pub next_round : (Progress → Ended × Progress) → Ended × Progress → Ended × Progress
next_round later (goes_on, p) = later p
next_round later (returns ret, p) = (returns ret, p)

-- The packet loop, on fuel: each round takes a packet off what is staged. Behind a short write, as
-- behind a packet that is not whole, the batch loop returns what was written.
unfoldable pub write_packets : (ℕ → Answer) → Key → ℤ → ℕ → Progress → Ended × Progress
write_packets answers key latency zero p = (goes_on, p)
write_packets answers key latency (suc fuel) p =
    let rest =
      next_round (write_packets answers key latency fuel)
        (after_write key latency p (answers (length p.tried))) in
    if has_packet p.egress then rest else (goes_on, p)

-- The bitrate of what is fetched. The distance in time is an `int`.
unfoldable pub note_fetched : Bitrate → ℕ → ℕ → Bitrate
note_fetched b got now =
    let counted = b.datacount + got in
    let d = i32 ((now + 2 ^ 32 - b.last_tm % 2 ^ 32) % 2 ^ 32) in
    if ltb_ℤ (pos 0) d && leb_ℤ b.interval d
    then record b {
      datacount = 0;
      last_tm = now;
      kbitrate = i32 (counted * 8 / pos_part d % 2 ^ 32);
    }
    else record b { datacount = counted }

-- The role's part of a batch: the bitrate and the time of the last fetch.
pub record Meter : Type 0 where
  pub bitrate : Bitrate
  pub invalid_begin_tm : ℕ

unfoldable pub stage : Egress → Got → Egress
stage e g = record e { staged = g.out; data_pos = 0; map_data_id = g.id }

-- The fetch of a batch, and whether there is one to write. An id that was moved stays moved.
unfoldable pub fetched : Meter → Progress → ℕ → ℤ × Option Got × MapData → Bool × Meter × Progress
fetched m p now (ret, none, map) = (false, m, record p { map = map })
fetched m p now (ret, some g, map) =
    if leb_ℤ ret (pos 0)
    then (false, m, record p { map = map; egress = record p.egress { map_data_id = g.id } })
    else (
      true,
      record m { bitrate = note_fetched m.bitrate (pos_part ret) now; invalid_begin_tm = now },
      record p { map = map; egress = stage p.egress g },
    )

abbrev pub Written : Type 0
Written = ℤ × Meter × Progress

abbrev pub unstage : Progress → Progress
unstage p = record p { egress = record p.egress { staged = []; data_pos = 0 } }

-- Behind the packet loop: what could not be written stays, and a batch that is written makes room.
abbrev pub after_packets : (Meter → Progress → Written) → Meter → Ended × Progress → Written
after_packets later m (returns ret, p) = (ret, m, p)
after_packets later m (goes_on, p) =
    if ltb p.egress.data_pos (length p.egress.staged)
    then (pos p.write_size, m, p)
    else later m (unstage p)

-- Each round of the packet loop passes on one packet of what is staged.
unfoldable pub write_staged :
    (ℕ → Answer) → Key → ℤ → (Meter → Progress → Written) → Bool × Meter × Progress → Written
write_staged answers key latency later (false, m, p) = (pos p.write_size, m, p)
write_staged answers key latency later (true, m, p) =
    after_packets later m (write_packets answers key latency (suc (length p.egress.staged)) p)

-- A batch is fetched where less than a packet is staged. `clock` is read once for each fetch.
unfoldable pub next_batch : Key → (ℕ → ℕ) → ℕ → Meter → Progress → Bool × Meter × Progress
next_batch key clock batch m p =
    if ltb (length p.egress.staged) ts_udp_len
    then fetched m p (clock batch)
        (MapData.get p.map key (some p.egress.map_data_id) data_buff_size ts_udp_len (clock batch))
    else (true, m, p)

-- The loop over the batches, with the rounds that are left.
unfoldable pub write_batches : (ℕ → Answer) → Key → ℤ → (ℕ → ℕ) → ℕ → Meter → Progress → Written
write_batches answers key latency clock zero m p = (pos p.write_size, m, p)
write_batches answers key latency clock (suc batch) m p =
    write_staged answers key latency (write_batches answers key latency clock batch)
      (next_batch key clock batch m p)

-- MAX_EGRESS_BATCHES
abbrev pub max_egress_batches : ℕ
max_egress_batches = 2

-- What the handler hands back: its return value, the role, the streams and the packets that were sent.
pub record Wrote : Type 0 where
  pub ret : ℤ
  pub role : Role
  pub map : MapData
  pub sent : List (List ℕ)

abbrev pub log_sends : ℕ → List (List ℕ) → List Call → List Call
log_sends s [] calls = calls
log_sends s (d ∷ tried) calls = sends s d ∷ log_sends s tried calls

abbrev pub wrote : Role → ℕ → Written → Wrote
wrote r s (ret, m, p) = record {
  ret = ret;
  role = record r {
    egress = p.egress;
    bitrate = m.bitrate;
    invalid_begin_tm = m.invalid_begin_tm;
    calls = log_sends s p.tried r.calls;
  };
  map = p.map;
  sent = p.sent;
}

abbrev pub not_written : ℤ → Role → MapData → Wrote
not_written ret r map = record { ret = ret; role = r; map = map; sent = [] }

unfoldable pub loops : (ℕ → Answer) → (ℕ → ℕ) → MapData → Role → Written
loops answers clock map r =
    write_batches answers r.map_data_key r.latency clock max_egress_batches
      (record { bitrate = r.bitrate; invalid_begin_tm = r.invalid_begin_tm })
      (record { egress = r.egress; map = map; sent = []; write_size = 0; tried = [] })

-- The handler behind the check of the authorization.
abbrev pub write_to : (ℕ → Answer) → (ℕ → ℕ) → MapData → Role → Option ℕ → Wrote
write_to answers clock map r none = not_written sls_error r map
write_to answers clock map r (some s) =
    if not r.has_map_data || is_empty r.map_data_key
    then not_written sls_error r map
    else wrote r s (loops answers clock map r)

abbrev pub write_authorized : (ℕ → Answer) → (ℕ → ℕ) → Role → MapData → Wrote
write_authorized answers clock r map = write_to answers clock map r r.srt

abbrev pub write_checked : (ℕ → Answer) → (ℕ → ℕ) → MapData → Checked → Wrote
write_checked answers clock map c =
    if is_ok c.ret then write_authorized answers clock c.role map else not_written sls_ok c.role map

-- `handler_write_data`, without the cache of refused ids, which only a publisher has.
unfoldable pub handler_write_data :
    World → Vetter → ℕ → ℕ → Option Response → (ℕ → Answer) → (ℕ → ℕ) → Role → MapData → Wrote
handler_write_data w v now now_s answer answers clock r map =
    write_checked answers clock map (check_http_passed w v now now_s answer r none)
