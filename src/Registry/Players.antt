-- ===== src/Registry/Players.antt =====
-- src/core/SLSPlayerRegistry.hpp and .cpp: the players attached to each stream. HMAC, SHA-256 and the
-- process's secret are arguments; so is what the weak and shared pointers of a registration reach.
pub mod Live
pub mod History
use irl_srt_server.Prelude.{
  ℕ, zero, suc, ◌+◌, ◌-◌, ◌*◌, ◌/◌, ◌%◌, Bool, true, false, ◌||◌, Option, none, some, List, [], ◌∷◌,
  ◌++◌, if◌then◌else◌, leb, ltb, length,
}
use irl_srt_server.Prelude.Int.{ℤ, pos, negsuc, ◌-ℤ◌}
use irl_srt_server.Prelude.Keyed.{Key, Keyed, find, assign, erase}

-- `PlayerStatsSnapshot`; a double is carried as its bit pattern.
pub record Snapshot : Type 0 where
  pub rtt_ms : ℕ
  pub mbps_send_rate : ℕ
  pub pkt_snd_drop_total : ℤ
  pub pkt_retrans_total : ℤ
  pub closed : Bool

-- `PlayerRegistration`; `liveness` and `snapshot` are the addresses of a role and of a snapshot.
pub record Player : Type 0 where
  pub stream_key : Key
  pub client_id : List ℕ
  pub player_key_id : List ℕ
  pub connected_at_ms : ℤ
  pub latency_ms : ℤ
  pub liveness : ℕ
  pub snapshot : Option ℕ

-- `PlayerView`
pub record View : Type 0 where
  pub client_id : List ℕ
  pub player_key_id : List ℕ
  pub uptime_s : ℤ
  pub latency_ms : ℤ
  pub rtt_ms : ℕ
  pub mbps_send_rate : ℕ
  pub pkt_snd_drop_total : ℤ
  pub pkt_retrans_total : ℤ

-- What the pointers reach at the time of a call: which roles are freed, and the snapshots.
pub record World : Type 0 where
  pub expired : ℕ → Bool
  pub snapshots : ℕ → Snapshot

abbrev pub Registry : Type 0
Registry = Keyed (List Player)

abbrev pub is_closed : World → Option ℕ → Bool
is_closed w none = false
is_closed w (some s) = (w.snapshots s).closed

abbrev pub is_gone : World → Player → Bool
is_gone w p = w.expired p.liveness || is_closed w p.snapshot

unfoldable pub keep_live : World → List Player → List Player
keep_live w [] = []
keep_live w (p ∷ ps) = let rest = keep_live w ps in if is_gone w p then rest else p ∷ rest

-- The entry of a stream with no players left goes.
abbrev pub store_live : Key → List Player → Registry → Registry
store_live key [] m = erase key m
store_live key (p ∷ ps) m = assign key (p ∷ ps) m

abbrev pub prune_entry : World → Key → Option (List Player) → Registry → Registry
prune_entry w key none m = m
prune_entry w key (some ps) m = store_live key (keep_live w ps) m

unfoldable pub prune_locked : World → Key → Registry → Registry
prune_locked w key m = prune_entry w key (find key m) m

-- `m_players[key]`, empty where there is no entry, and `it->second` behind the test for one.
abbrev pub players_of : Option (List Player) → List Player
players_of none = []
players_of (some ps) = ps

unfoldable pub add : World → Player → Registry → Registry
add w p m =
    let pruned = prune_locked w p.stream_key m in
    assign p.stream_key (players_of (find p.stream_key pruned) ++ (p ∷ [])) pruned

unfoldable pub count : World → Key → Registry → ℕ × Registry
count w key m = let pruned = prune_locked w key m in (length (players_of (find key pruned)), pruned)

-- `max(0, (now - then) / 1000)`; the division drops the fraction of a negative difference as well.
abbrev pub uptime : ℤ → ℤ
uptime (pos d) = pos (d / 1000)
uptime (negsuc d) = pos 0

-- Without a snapshot its fields stay 0.
abbrev pub view_stats : Option Snapshot → View → View
view_stats none v = v
view_stats (some s) v = record v {
  rtt_ms = s.rtt_ms;
  mbps_send_rate = s.mbps_send_rate;
  pkt_snd_drop_total = s.pkt_snd_drop_total;
  pkt_retrans_total = s.pkt_retrans_total;
}

abbrev pub snapshot_of : World → Option ℕ → Option Snapshot
snapshot_of w none = none
snapshot_of w (some s) = some (w.snapshots s)

unfoldable pub view_of : World → ℤ → Player → View
view_of w now_ms p = view_stats (snapshot_of w p.snapshot) (record {
  client_id = p.client_id;
  player_key_id = p.player_key_id;
  uptime_s = uptime (now_ms -ℤ p.connected_at_ms);
  latency_ms = p.latency_ms;
  rtt_ms = 0;
  mbps_send_rate = 0;
  pkt_snd_drop_total = pos 0;
  pkt_retrans_total = pos 0;
})

unfoldable pub views : World → ℤ → List Player → List View
views w now_ms [] = []
views w now_ms (p ∷ ps) = view_of w now_ms p ∷ views w now_ms ps

unfoldable pub list : World → Key → ℤ → Registry → List View × Registry
list w key now_ms m =
    let pruned = prune_locked w key m in (views w now_ms (players_of (find key pruned)), pruned)

-- `ID_HEX_CHARS`
abbrev pub id_hex_chars : ℕ
id_hex_chars = 16

abbrev pub hex_digit : ℕ → ℕ
hex_digit d = if ltb d 10 then 0x30 + d else 0x61 + (d - 10)

-- `to_hex_prefix`, with room for `left` more characters.
unfoldable pub hex_prefix : ℕ → List ℕ → List ℕ
hex_prefix left [] = []
hex_prefix left (b ∷ digest) =
    let rest = hex_prefix (left - 2) digest in
    if leb left 0 then [] else hex_digit (b / 16) ∷ hex_digit (b % 16) ∷ rest

unfoldable pub to_hex_prefix : List ℕ → List ℕ
to_hex_prefix digest = hex_prefix id_hex_chars digest

-- `hmac` keyed with the secret of the process; `none` where it fails.
abbrev pub client_id_of : Option (List ℕ) → List ℕ
client_id_of none = []
client_id_of (some digest) = to_hex_prefix digest

unfoldable pub player_client_id : (List ℕ → Option (List ℕ)) → List ℕ → List ℕ
player_client_id hmac peer_ip = client_id_of (hmac peer_ip)

unfoldable pub player_key_id_of : (List ℕ → List ℕ) → List ℕ → List ℕ
player_key_id_of sha256 [] = []
player_key_id_of sha256 (b ∷ key) = to_hex_prefix (sha256 (b ∷ key))
