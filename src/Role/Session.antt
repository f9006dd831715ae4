-- ===== src/Role/Session.antt =====
-- A connection in the hands of its worker (src/core/SLSGroup.cpp, SLSPublisher.cpp): the calls that the
-- worker makes, a publisher's and a viewer's, in any order and at any times.
use irl_srt_server.Prelude.{ℕ, Bool, not, ◌||◌, Option, List, [], ◌∷◌, if◌then◌else◌}
use irl_srt_server.AuthRejectCache.{Cache}
use irl_srt_server.MapData.{MapData}
use irl_srt_server.Prelude.Int.{ℤ, pos, ltb_ℤ}
use irl_srt_server.Role.{
  Role, World, SockState, get_state, get_statistics, request_kick, mark_invalid, is_invalid,
  update_egress_arming,
}
use irl_srt_server.Role.Webhook.{Vetter, Response, check_http_passed}
use irl_srt_server.Role.Reading.{Arrival, handler_read_data}
use irl_srt_server.Role.Writing.{Answer, Wrote, handler_write_data}

-- The role, the cache of refused ids, the streams and the next identity of a ring.
pub record Session : Type 0 where
  pub role : Role
  pub cache : Option Cache
  pub map : MapData
  pub next : ℕ

-- `handler`, with the clocks of the check, of the cache and of the read; `on_worker_tick`; `get_state`; and
-- another thread's `request_kick` and `get_statistics`.
pub data Turn : Type 0 where
  handles : ℕ → ℕ → ℕ → Option Response → Arrival → Turn
  ticks : ℕ → ℕ → Option Response → Turn
  polls : ℕ → SockState → Turn
  kicks : Turn
  measures : Turn

-- `CSLSPublisher::on_worker_tick`
unfoldable pub on_worker_tick :
    World → Vetter → ℕ → ℕ → Option Response → Role → Option Cache → Role × Option Cache
on_worker_tick w v now now_s answer r cache =
    if r.auth.http_passed
    then (r, cache)
    else (let c = check_http_passed w v now now_s answer r cache in (c.role, c.cache))

-- Behind a handler that failed.
abbrev pub dropped : World → ℤ → Role → Role
dropped w ret r = if ltb_ℤ ret (pos 0) then mark_invalid w r else r

module _ (w : World) (v : Vetter) (timecode_sei : Bool) where
  unfoldable pub turn : Session → Turn → Session
  turn s (handles now now_s read_now answer arrival) =
      let (done, cache) =
        handler_read_data w v timecode_sei now now_s read_now answer arrival s.role s.cache s.map
          s.next in
      record {
        role = dropped w done.ret done.role;
        cache = cache;
        map = done.map;
        next = done.next;
      }
  turn s (ticks now now_s answer) =
      let (r, cache) = on_worker_tick w v now now_s answer s.role s.cache in
      record s { role = r; cache = cache }
  turn s (polls now st) = record s { role = get_state w s.role now st }
  turn s kicks = record s { role = request_kick s.role }
  turn s measures = record s { role = get_statistics s.role }

  unfoldable pub turns : Session → List Turn → Session
  turns s [] = s
  turns s (t ∷ ts) = turns (turn s t) ts

-- A viewer's role and the streams.
pub record Viewing : Type 0 where
  pub role : Role
  pub map : MapData

-- The egress pass, with the clocks of the check, what the socket answers and the clock of the fetches;
-- `get_state`; `request_kick`; and `get_statistics`, of which `sample_viewer_snd_drops` reads the answer.
pub data Visit : Type 0 where
  serves : ℕ → ℕ → Option Response → (ℕ → Answer) → (ℕ → ℕ) → Bool → Visit
  looks : ℕ → SockState → Visit
  kicked : Visit
  sampled : Visit

abbrev pub served : World → Bool → Wrote → Viewing
served w obeys done = record {
  role =
      (if ltb_ℤ done.ret (pos 0)
        then mark_invalid w done.role
        else update_egress_arming obeys done.role);
  map = done.map;
}

module _ (w : World) (v : Vetter) where
  unfoldable pub visit : Viewing → Visit → Viewing
  visit p (serves now now_s answer answers clock obeys) =
      if not p.role.is_write || is_invalid p.role.state
      then p
      else served w obeys (handler_write_data w v now now_s answer answers clock p.role p.map)
  visit p (looks now st) = record p { role = get_state w p.role now st }
  visit p kicked = record p { role = request_kick p.role }
  visit p sampled = record p { role = get_statistics p.role }

  unfoldable pub visits : Viewing → List Visit → Viewing
  visits p [] = p
  visits p (t ∷ ts) = visits (visit p t) ts
