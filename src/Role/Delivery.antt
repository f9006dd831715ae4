-- ===== src/Role/Delivery.antt =====
-- `handler_write_data` of src/core/SLSRole.cpp against the stream of the viewer's ring: no byte is lost,
-- doubled or reordered on its way to the socket.
use mathlib.Core.Path.{subst}
use mathlib.Core.List.{append-nil, append_assoc}
use irl_srt_server.Prelude.{
  ℕ, zero, suc, ◌≤◌, ◌≡◌, refl, sym, ap, ◌∙◌, Bool, true, false, Option, none, some, List, [], ◌++◌,
  not, ◌||◌, arith, ltb, length, if◌then◌else◌, Bool-cases, inl, inr,
}
use irl_srt_server.Prelude.Int.{ℤ, sls_ok, sls_error}
use irl_srt_server.Relay.Loop.{is_ok}
use irl_srt_server.Prelude.Keyed.{Key}
use irl_srt_server.Ring.Stream.{Stream, next}
use irl_srt_server.MapData.{MapData}
use irl_srt_server.Role.{Role, World, Egress, is_empty}
use irl_srt_server.Role.Frame.{check_http_passed-Frame}
use irl_srt_server.Role.Webhook.{Vetter, Response, check_http_passed}
use irl_srt_server.Role.Writing
use irl_srt_server.Role.Packets.{
  pending, join, IsStaged, Serves, Keeps, Result, drop-length, write_packets-Result,
}
use irl_srt_server.Role.Fetching.{nexts, fetched-AfterFetch}

-- The handler's loops fetch up to so many times: the packets sent and those pending are the bytes so far
-- and what these fetches deliver.
abbrev Delivers : ℕ → ℕ → Key → Stream → List ℕ → Writing.Progress → Type 0
Delivers batch window key s bytes p =
    (k : ℕ) × (k ≤ batch) × Keeps window key (nexts window k s).1 (bytes ++ (nexts window k s).0) p

kept-Delivers :
    (batch window : ℕ) (key : Key) (s : Stream) (bytes : List ℕ) (p : Writing.Progress)
    → Keeps window key s bytes p
    → Delivers batch window key s bytes p
unfolding nexts
kept-Delivers batch window key s bytes p k = (0, omega arith, rw (append-nil bytes) k)

fetched-Delivers :
    (batch window : ℕ) (key : Key) (s : Stream) (bytes : List ℕ) (p : Writing.Progress)
    → Delivers batch window key
        (next window s Writing.data_buff_size 1316).1
        (bytes ++ (next window s Writing.data_buff_size 1316).0)
        p
    → Delivers (suc batch) window key s bytes p
unfolding nexts
fetched-Delivers batch window key s bytes p (n, le, k) = (
  suc n,
  omega arith,
  subst
      (λ (t : List ℕ).
        Keeps window key (nexts window n (next window s Writing.data_buff_size 1316).1).1 t p)
      (append_assoc bytes (next window s Writing.data_buff_size 1316).0
        (nexts window n (next window s Writing.data_buff_size 1316).1).0)
      k,
)

longer-Delivers :
    (batch window : ℕ) (key : Key) (s : Stream) (bytes : List ℕ) (p : Writing.Progress)
    → Delivers batch window key s bytes p
    → Delivers (suc batch) window key s bytes p
longer-Delivers batch window key s bytes p (n, le, k) = (n, omega arith, k)

unstage-Keeps :
    (window : ℕ) (key : Key) (s : Stream) (bytes : List ℕ) (p : Writing.Progress)
    → Keeps window key s bytes p
    → pending p.egress ≡ []
    → Keeps window key s bytes (Writing.unstage p)
unstage-Keeps window key s bytes p k empty = record {
  total = ap (λ t. join p.sent ++ t) (sym empty) ∙ k.total;
  staged = (0, refl);
  serves = k.serves;
}

-- What the loop of the later batches does.
abbrev Goes : ℕ → ℕ → Key → (Writing.Meter → Writing.Progress → Writing.Written) → Type 0
Goes batch window key later =
    (m : Writing.Meter) (p : Writing.Progress) (s : Stream) (bytes : List ℕ)
    → Keeps window key s bytes p
    → Delivers batch window key s bytes (later m p).2

after_packets-Delivers :
    (batch window : ℕ) (key : Key) (s : Stream) (bytes : List ℕ)
    (later : Writing.Meter → Writing.Progress → Writing.Written) (m : Writing.Meter)
    (r : Writing.Ended × Writing.Progress)
    → Goes batch window key later
    → Result window key s bytes r
    → Delivers batch window key s bytes (Writing.after_packets later m r).2
after_packets-Delivers batch window key s bytes later m (Writing.returns ret, p) go (k, done) =
    kept-Delivers batch window key s bytes p k
after_packets-Delivers batch window key s bytes later m (Writing.goes_on, p) go (k, empty) =
    elim (Bool-cases (ltb p.egress.data_pos (length p.egress.staged))) [
      | inl part ↦ rw part (kept-Delivers batch window key s bytes p k)
      | inr full ↦
          rw full (go m (Writing.unstage p) s bytes (unstage-Keeps window key s bytes p k empty))
    ]

write_staged-Delivers :
    (batch window : ℕ) (key : Key) (latency : ℤ) (answers : ℕ → Writing.Answer) (s : Stream)
    (bytes : List ℕ) (later : Writing.Meter → Writing.Progress → Writing.Written)
    (r : Bool × Writing.Meter × Writing.Progress)
    → Goes batch window key later
    → Keeps window key s bytes r.2
    → Delivers batch window key s bytes (Writing.write_staged answers key latency later r).2
unfolding Writing.write_staged
write_staged-Delivers batch window key latency answers s bytes later (false, m, p) go k =
    kept-Delivers batch window key s bytes p k
write_staged-Delivers batch window key latency answers s bytes later (true, m, p) go k =
    after_packets-Delivers batch window key s bytes later m _ go (
      write_packets-Result window answers key latency s bytes (suc (length p.egress.staged)) p k
        (omega arith))

empty_before : (e : Egress) → IsStaged e → ltb (length e.staged) 1316 ≡ true → pending e ≡ []
empty_before e (zero, h) less = drop-length e.data_pos e.staged (omega arith)
empty_before e (suc q, h) less = absurd (ground (arith, h, less))

write_batches-Delivers :
    (batch window : ℕ) (key : Key) (latency : ℤ) (answers : ℕ → Writing.Answer) (clock : ℕ → ℕ)
    → Goes batch window key (Writing.write_batches answers key latency clock batch)
unfolding Writing.write_batches Writing.next_batch
write_batches-Delivers zero window key latency answers clock m p s bytes k =
    kept-Delivers 0 window key s bytes p k
write_batches-Delivers (suc batch) window key latency answers clock m p s bytes k =
    let later = Writing.write_batches answers key latency clock batch in
    let go = write_batches-Delivers batch window key latency answers clock in
    elim (Bool-cases (ltb (length p.egress.staged) 1316)) [
      | inl less ↦ rw less (
          fetched-Delivers batch window key s bytes _ (
            write_staged-Delivers batch window key latency answers _ _ later _ go (
              fetched-AfterFetch window key s bytes m p (clock batch) k
                (empty_before p.egress k.staged less))))
      | inr more ↦ rw more (
          longer-Delivers batch window key s bytes _ (
            write_staged-Delivers batch window key latency answers s bytes later (true, m, p) go k))
    ]

-- What a call of the handler does for a viewer whose pending bytes and stream are these.
abbrev pub IsDelivered : ℕ → Stream → List ℕ → Writing.Wrote → Type 0
IsDelivered window s bytes r =
    (k : ℕ) × (k ≤ Writing.max_egress_batches)
    × (join r.sent ++ pending r.role.egress ≡ bytes ++ (nexts window k s).0)
    × IsStaged r.role.egress
    × Serves window r.role.map_data_key (nexts window k s).1 r.map r.role.egress.map_data_id

Delivers-IsDelivered :
    (window : ℕ) (s : Stream) (bytes : List ℕ) (r : Role) (sock : ℕ) (out : Writing.Written)
    → Delivers Writing.max_egress_batches window r.map_data_key s bytes out.2
    → IsDelivered window s bytes (Writing.wrote r sock out)
Delivers-IsDelivered window s bytes r sock (ret, m, p) (n, le, k) =
    (n, le, k.total, k.staged, k.serves)

if-IsDelivered :
    (window : ℕ) (s : Stream) (bytes : List ℕ) (b : Bool) (x y : Writing.Wrote)
    → IsDelivered window s bytes x
    → IsDelivered window s bytes y
    → IsDelivered window s bytes (if b then x else y)
if-IsDelivered window s bytes true x y f g = f
if-IsDelivered window s bytes false x y f g = g

module _ (window : ℕ) (s : Stream) (r : Role) (map : MapData) (staged : IsStaged r.egress)
    (v : Serves window r.map_data_key s map r.egress.map_data_id) where
  not_written-IsDelivered :
      (ret : ℤ) → IsDelivered window s (pending r.egress) (Writing.not_written ret r map)
  unfolding nexts
  not_written-IsDelivered ret = (0, omega arith, sym (append-nil (pending r.egress)), staged, v)

  loops-Delivers :
      (answers : ℕ → Writing.Answer) (clock : ℕ → ℕ)
      → Delivers Writing.max_egress_batches window r.map_data_key s
          (pending r.egress)
          (Writing.loops answers clock map r).2
  unfolding Writing.loops
  loops-Delivers answers clock =
      write_batches-Delivers Writing.max_egress_batches window r.map_data_key r.latency answers
        clock _ _ s (pending r.egress) (record { total = refl; staged = staged; serves = v })

  write_to-IsDelivered :
      (answers : ℕ → Writing.Answer) (clock : ℕ → ℕ) (sock : Option ℕ)
      → IsDelivered window s (pending r.egress) (Writing.write_to answers clock map r sock)
  write_to-IsDelivered answers clock none = not_written-IsDelivered sls_error
  write_to-IsDelivered answers clock (some sock) =
      if-IsDelivered window s (pending r.egress) (not r.has_map_data || is_empty r.map_data_key) _ _
        (not_written-IsDelivered sls_error)
        (Delivers-IsDelivered window s (pending r.egress) r sock (Writing.loops answers clock map r)
          (loops-Delivers answers clock))

  write_checked-IsDelivered :
      (answers : ℕ → Writing.Answer) (clock : ℕ → ℕ) (ret : ℤ)
      → IsDelivered window s (pending r.egress) (
          if is_ok ret
          then Writing.write_authorized answers clock r map
          else Writing.not_written sls_ok r map)
  write_checked-IsDelivered answers clock ret =
      if-IsDelivered window s (pending r.egress) (is_ok ret) _ _
        (write_to-IsDelivered answers clock r.srt) (not_written-IsDelivered sls_ok)

-- Whatever the socket answers, at whatever times, and whether the viewer is authorized or not, a call of
-- `handler_write_data` loses no byte, sends none twice and keeps their order: the packets that the socket
-- took, followed by what is staged and not yet sent, are what was staged before followed by what at
-- most two fetches deliver to this viewer, who skips bytes only where the stream does. Whole packets are
-- staged afterwards, and the ring goes on serving the viewer.
pub handler_write_data-IsDelivered :
    (window : ℕ) (s : Stream) (w : World) (v : Vetter) (now now_s : ℕ) (answer : Option Response)
    (answers : ℕ → Writing.Answer) (clock : ℕ → ℕ) (r : Role) (map : MapData)
    → IsStaged r.egress
    → Serves window r.map_data_key s map r.egress.map_data_id
    → IsDelivered window s
        (pending r.egress)
        (Writing.handler_write_data w v now now_s answer answers clock r map)
unfolding Writing.handler_write_data
handler_write_data-IsDelivered window s w v now now_s answer answers clock r map staged serves =
    let c = check_http_passed w v now now_s answer r none in
    let f = check_http_passed-Frame w v now now_s answer r none in
    rw f.egress at (
      write_checked-IsDelivered window s c.role map (rw (f.egress) staged)
        (rw (f.egress, f.map_data_key) serves) answers clock c.ret)
