-- ===== src/Relay/Queue.antt =====
-- The queue of the URLs that a pusher tries again (`CSLSPusherManager::reconnect_all`).
use irl_srt_server.Prelude.{
  ℕ, ◌+◌, ◌*◌, ◌≡◌, refl, Bool, true, false, ◌&&◌, not, Option, none, some, List, [], ◌∷◌, arith,
  leb, if◌then◌else◌,
}
use irl_srt_server.Prelude.Int.{ℤ, pos, sls_ok, sls_error}
use irl_srt_server.Prelude.Keyed.{Key, Keyed}
use irl_srt_server.PushUrl.Address.{Addr}
use irl_srt_server.Relay.Loop.{is_ok}
use irl_srt_server.Relay.Manager.{Hub}
use irl_srt_server.Relay.Pusher.{is_early, reconnect_from, reconnect_all, or_int}

-- When an entry is tried next, and what becomes of it: the clock and the time of the entry are in
-- milliseconds, the interval is in seconds.
abbrev pub is_due : ℕ → ℕ → ℕ → Bool
is_due now interval begin_tm = leb (begin_tm + interval * 1000) now

-- What the entry of a URL becomes, by itself.
abbrev pub fate : ℕ → ℕ → Bool → (List ℕ → Bool) → Key × ℕ → Option (Key × ℕ)
fate now interval no_publisher up (url, begin_tm) =
    if is_due now interval begin_tm
    then (if not no_publisher && up url then none else some (url, now))
    else some (url, begin_tm)

abbrev pub kept : Option (Key × ℕ) → Keyed ℕ → Keyed ℕ
kept none queue = queue
kept (some e) queue = e ∷ queue

abbrev pub remaining : ℕ → ℕ → Bool → (List ℕ → Bool) → Keyed ℕ → Keyed ℕ
remaining now interval no_publisher up [] = []
remaining now interval no_publisher up (e ∷ queue) =
    kept (fate now interval no_publisher up e) (remaining now interval no_publisher up queue)

-- A queue whose times are not negative.
abbrev pub entries : Keyed ℕ → Keyed ℤ
entries [] = []
entries ((url, begin_tm) ∷ queue) = (url, pos begin_tm) ∷ entries queue

module _ (connect_to : Option Addr → List ℕ → Hub → ℤ × Hub) (now interval : ℕ) where
  is_early-is_due :
      (begin_tm : ℕ)
      → is_early connect_to (pos now) (pos interval) (pos begin_tm)
        ≡ not (is_due now interval begin_tm)
  unfolding is_early
  is_early-is_due begin_tm = ground arith

  reconnect_from-remaining :
      (no_publisher : Bool) (up : List ℕ → Bool) (ret all_ret : ℤ) (queue : Keyed ℕ) (hub : Hub)
      → ((url : List ℕ) (hub : Hub) → is_ok (connect_to none url hub).0 ≡ up url)
      → (reconnect_from connect_to
          (pos now)
          (pos interval)
          no_publisher
          ret
          all_ret
          (entries queue)
          hub).1
        ≡ entries (remaining now interval no_publisher up queue)
  unfolding reconnect_from
  reconnect_from-remaining no_publisher up ret all_ret [] hub h = refl
  reconnect_from-remaining no_publisher up ret all_ret ((url, begin_tm) ∷ queue) hub h = ground (
    arith,
    is_early-is_due begin_tm,
    h url hub,
    reconnect_from-remaining no_publisher up ret (or_int all_ret ret) queue hub h,
    reconnect_from-remaining no_publisher up (connect_to none url hub).0
        (or_int all_ret (connect_to none url hub).0) queue (connect_to none url hub).1 h,
  )

  idle-hub :
      (ret all_ret : ℤ) (queue : Keyed ℤ) (hub : Hub)
      → (reconnect_from connect_to (pos now) (pos interval) true ret all_ret queue hub).2 ≡ hub
  unfolding reconnect_from
  idle-hub ret all_ret [] hub = refl
  idle-hub ret all_ret ((url, begin_tm) ∷ queue) hub =
      ground (arith, idle-hub ret (or_int all_ret ret) queue hub)

  -- A pass over the queue, where whether a URL answers is settled for the pass and no time is negative: a
  -- URL stays as it is until as many seconds as the interval says are over since its time; from then on
  -- one that answers goes, and any other waits from now on. Without a publisher nothing is connected: no
  -- URL goes and the server stays as it was.
  pub reconnect_all-remaining :
      (no_publisher : Bool) (up : List ℕ → Bool) (queue : Keyed ℕ) (hub : Hub)
      → ((url : List ℕ) (hub : Hub) → is_ok (connect_to none url hub).0 ≡ up url)
      → let (ret, queue', hub') =
          reconnect_all connect_to (pos now) (pos interval) no_publisher (entries queue) hub in
        (queue' ≡ entries (remaining now interval no_publisher up queue))
        × (no_publisher ≡ true → hub' ≡ hub)
  unfolding reconnect_all
  reconnect_all-remaining no_publisher up queue hub h = (
    reconnect_from-remaining no_publisher up sls_error sls_ok queue hub h,
    λ e. idle no_publisher e,
  )
    where
      idle :
          (b : Bool)
          → b ≡ true
          → (reconnect_from connect_to
              (pos now)
              (pos interval)
              b
              sls_error
              sls_ok
              (entries queue)
              hub).2
            ≡ hub
      idle true e = idle-hub sls_error sls_ok (entries queue) hub
      idle false e = absurd cc
