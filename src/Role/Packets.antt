-- ===== src/Role/Packets.antt =====
-- The packet loop of `handler_write_data` (src/core/SLSRole.cpp): it sends the next packets of what is
-- staged, whatever the socket answers.
use mathlib.Core.List.{append-nil, append_assoc}
use irl_srt_server.Prelude.{
  ℕ, zero, suc, ◌+◌, ◌*◌, ◌<◌, ◌≡◌, refl, sym, ap, ◌∙◌, true, false, some, List, [], ◌∷◌, ◌++◌,
  arith, length, take, drop, ◌==◌, Bool-cases, inl, inr,
}
use irl_srt_server.Prelude.Int.{ℤ, pos, ltb_ℤ, sub_ℕ}
use irl_srt_server.Prelude.Keyed.{Key, find, find-assign_same}
use irl_srt_server.Ring.{Ring, ReadId, Got}
use irl_srt_server.Ring
use irl_srt_server.Ring.Stream.{Stream, Models}
use irl_srt_server.MapData.{MapData}
use irl_srt_server.MapData.Stats.{report, report_viewer_backpressure}
use irl_srt_server.Role.{Egress}
use irl_srt_server.Role.Writing

-- What is staged and not yet sent.
abbrev pub pending : Egress → List ℕ
pending e = drop e.data_pos e.staged

abbrev pub join : List (List ℕ) → List ℕ
join [] = []
join (d ∷ ds) = d ++ join ds

-- So many packets are pending.
abbrev pub IsStaged : Egress → Type 0
IsStaged e = (q : ℕ) × (length e.staged ≡ e.data_pos + q * 1316)

-- The stream's ring holds the stream, of which the viewer has taken what the cursor says.
pub record Serves (window : ℕ) (key : Key) (s : Stream) (map : MapData) (id : ReadId) : Type 0 where
  pub ring : Ring
  pub found : find key map.rings ≡ some ring
  pub sized : ring.data_size ≡ window
  pub models : Models ring id s

join-snoc : (ds : List (List ℕ)) (d : List ℕ) → join (ds ++ d ∷ []) ≡ join ds ++ d
join-snoc [] d = append-nil d
join-snoc (e ∷ ds) d = rw (join-snoc ds d) (sym (append_assoc e (join ds) d))

take-append-drop : (n : ℕ) (xs : List ℕ) → take n xs ++ drop n xs ≡ xs
take-append-drop zero xs = refl
take-append-drop (suc n) [] = refl
take-append-drop (suc n) (x ∷ xs) = ap (◌∷◌ x) (take-append-drop n xs)

drop-nil : (n : ℕ) → drop {A = ℕ} n [] ≡ []
drop-nil zero = refl
drop-nil (suc n) = refl

drop-drop : (p n : ℕ) (xs : List ℕ) → drop n (drop p xs) ≡ drop (p + n) xs
drop-drop zero n xs = ap (λ k. drop k xs) (omega arith)
drop-drop (suc p) n [] = drop-nil n ∙ sym (drop-nil (suc p + n))
drop-drop (suc p) n (x ∷ xs) =
    let e : suc (p + n) ≡ suc p + n = omega arith in drop-drop p n xs ∙ ap (λ k. drop k (x ∷ xs)) e

pub drop-length : (p : ℕ) (xs : List ℕ) → length xs ≡ p → drop p xs ≡ []
drop-length zero [] e = refl
drop-length zero (x ∷ xs) e = absurd (omega arith)
drop-length (suc p) [] e = refl
drop-length (suc p) (x ∷ xs) e = drop-length p xs (omega arith)

-- A packet off what is pending.
packet-pending :
    (e e' : Egress)
    → e'.staged ≡ e.staged
    → e'.data_pos ≡ e.data_pos + 1316
    → Writing.packet e ++ pending e' ≡ pending e
packet-pending e e' same moved =
    rw (same, moved, sym (drop-drop e.data_pos 1316 e.staged))
      (take-append-drop 1316 (drop e.data_pos e.staged))

-- What the loops keep: the packets sent and those pending are the bytes so far, whole packets are
-- pending, and the ring serves the viewer.
pub record Keeps (window : ℕ) (key : Key) (s : Stream) (bytes : List ℕ) (p : Writing.Progress)
    : Type 0 where
  pub total : join p.sent ++ pending p.egress ≡ bytes
  pub staged : IsStaged p.egress
  pub serves : Serves window key s p.map p.egress.map_data_id

fewer :
    (e : Egress)
    → IsStaged e
    → Writing.has_packet e ≡ true
    → (q : ℕ) × (length e.staged ≡ e.data_pos + 1316 + q * 1316)
fewer e (zero, h) more = absurd (ground (arith, h, more))
fewer e (suc q, h) more = (q, omega arith)

sent_one-Keeps :
    (window : ℕ) (key : Key) (s : Stream) (bytes : List ℕ) (p : Writing.Progress)
    → Keeps window key s bytes p
    → Writing.has_packet p.egress ≡ true
    → Keeps window key s bytes (Writing.sent_one p)
unfolding Writing.sent_one
sent_one-Keeps window key s bytes p k more = record {
  total = rw (join-snoc p.sent (Writing.packet p.egress)) (
      append_assoc (join p.sent) (Writing.packet p.egress) _
      ∙ ap (λ t. join p.sent ++ t) (packet-pending p.egress (Writing.sent_one p).egress refl refl)
      ∙ k.total);
  staged = fewer p.egress k.staged more;
  serves = k.serves;
}

-- A note on the ring's gauge changes nothing of what it holds.
report-Serves :
    (window : ℕ) (key : Key) (s : Stream) (map : MapData) (id : ReadId)
    → Serves window key s map id
    → Serves window key s (report_viewer_backpressure map (some key)) id
unfolding report_viewer_backpressure report Ring.report_viewer_backpressure
report-Serves window key s map id v =
    rw (v.found, report)
      (record {
        ring = Ring.report_viewer_backpressure v.ring;
        found = find-assign_same key _ map.rings;
        sized = v.sized;
        models = record {
          holds = record {
            in_use = v.models.holds.in_use;
            stored = v.models.holds.stored;
            head_in = v.models.holds.head_in;
            counted = v.models.holds.counted;
            countable = v.models.holds.countable;
            newest = v.models.holds.newest;
          };
          at = record {
            anchored = v.models.at.anchored;
            same = v.models.at.same;
            read_in = v.models.at.read_in;
            behind = v.models.at.behind;
            consumed = v.models.at.consumed;
            placed = v.models.at.placed;
          };
        };
      })

noted-Keeps :
    (window : ℕ) (key : Key) (s : Stream) (bytes : List ℕ) (p p' : Writing.Progress)
    → Keeps window key s bytes p
    → p'.sent ≡ p.sent
    → p'.egress.staged ≡ p.egress.staged
    → p'.egress.data_pos ≡ p.egress.data_pos
    → Serves window key s p'.map p'.egress.map_data_id
    → Keeps window key s bytes p'
noted-Keeps window key s bytes p p' k es et ep v = record {
  total = rw (es, et, ep) k.total;
  staged = rw (et, ep) k.staged;
  serves = v;
}

backpressured-Keeps :
    (window : ℕ) (key : Key) (latency : ℤ) (s : Stream) (bytes : List ℕ) (p : Writing.Progress)
    (now : ℕ)
    → Keeps window key s bytes p
    → Keeps window key s bytes (Writing.backpressured key latency p now).1
unfolding Writing.backpressured
backpressured-Keeps window key latency s bytes p now k =
    elim (Bool-cases (p.egress.stuck_since_ms == 0)) [
      | inl first ↦ rw first (noted-Keeps window key s bytes p _ k refl refl refl served)
      | inr later ↦
          elim (Bool-cases
            (ltb_ℤ (pos (Writing.stuck_timeout_ms latency)) (sub_ℕ now p.egress.stuck_since_ms))) [
              | inl stuck ↦
                  rw (later, stuck) (noted-Keeps window key s bytes p _ k refl refl refl served)
              | inr slow ↦
                  rw (later, slow) (noted-Keeps window key s bytes p _ k refl refl refl served)
            ]
    ]
  where
    served : Serves window key s (report_viewer_backpressure p.map (some key)) p.egress.map_data_id
    served = report-Serves window key s p.map p.egress.map_data_id k.serves

after_write-Keeps :
    (window : ℕ) (key : Key) (latency : ℤ) (s : Stream) (bytes : List ℕ) (p : Writing.Progress)
    (answer : Writing.Answer)
    → Keeps window key s bytes p
    → Writing.has_packet p.egress ≡ true
    → Keeps window key s bytes (Writing.after_write key latency p answer).1
after_write-Keeps window key latency s bytes p Writing.whole k more =
    sent_one-Keeps window key s bytes p k more
after_write-Keeps window key latency s bytes p (Writing.short n) k more =
    noted-Keeps window key s bytes p _ k refl refl refl k.serves
after_write-Keeps window key latency s bytes p (Writing.busy now) k more =
    backpressured-Keeps window key latency s bytes p now k
after_write-Keeps window key latency s bytes p Writing.failed k more =
    noted-Keeps window key s bytes p _ k refl refl refl k.serves

-- A loop that went on has nothing left to send.
abbrev pub HasSent : Writing.Ended × Writing.Progress → Type 0
HasSent (Writing.goes_on, p) = pending p.egress ≡ []
HasSent (Writing.returns ret, p) = Unit {0}

-- Enough rounds for what is staged.
abbrev IsEnough : ℕ → Writing.Ended × Writing.Progress → Type 0
IsEnough fuel (Writing.goes_on, p) = length p.egress.staged < p.egress.data_pos + fuel
IsEnough fuel (Writing.returns ret, p) = Unit {0}

after_write-IsEnough :
    (fuel : ℕ) (key : Key) (latency : ℤ) (p : Writing.Progress) (answer : Writing.Answer)
    → length p.egress.staged < p.egress.data_pos + suc fuel
    → IsEnough fuel (Writing.after_write key latency p answer)
unfolding Writing.sent_one Writing.backpressured
after_write-IsEnough fuel key latency p Writing.whole h = omega arith
after_write-IsEnough fuel key latency p (Writing.short n) h = tt
after_write-IsEnough fuel key latency p (Writing.busy now) h =
    elim (Bool-cases (p.egress.stuck_since_ms == 0)) [
      | inl first ↦ rw first tt
      | inr later ↦
          elim (Bool-cases
            (ltb_ℤ (pos (Writing.stuck_timeout_ms latency)) (sub_ℕ now p.egress.stuck_since_ms))) [
              | inl stuck ↦ rw (later, stuck) tt
              | inr slow ↦ rw (later, slow) tt
            ]
    ]
after_write-IsEnough fuel key latency p Writing.failed h = tt

abbrev pub Result : ℕ → Key → Stream → List ℕ → Writing.Ended × Writing.Progress → Type 0
Result window key s bytes r = Keeps window key s bytes r.1 × HasSent r

next_round-Result :
    (window : ℕ) (key : Key) (s : Stream) (bytes : List ℕ) (fuel : ℕ)
    (later : Writing.Progress → Writing.Ended × Writing.Progress)
    (r : Writing.Ended × Writing.Progress)
    → Keeps window key s bytes r.1
    → IsEnough fuel r
    → ((p : Writing.Progress)
        → Keeps window key s bytes p
        → length p.egress.staged < p.egress.data_pos + fuel
        → Result window key s bytes (later p))
    → Result window key s bytes (Writing.next_round later r)
next_round-Result window key s bytes fuel later (Writing.goes_on, p) k h ih = ih p k h
next_round-Result window key s bytes fuel later (Writing.returns ret, p) k h ih = (k, tt)

nothing_pending : (e : Egress) → IsStaged e → Writing.has_packet e ≡ false → pending e ≡ []
nothing_pending e (zero, h) full = drop-length e.data_pos e.staged (omega arith)
nothing_pending e (suc q, h) full = absurd (ground (arith, h, full))

-- Whatever the socket answers, the packet loop sends the next packets of what is pending, and the fuel is
-- enough: it ends where nothing is pending or the handler returns.
pub write_packets-Result :
    (window : ℕ) (answers : ℕ → Writing.Answer) (key : Key) (latency : ℤ) (s : Stream)
    (bytes : List ℕ) (fuel : ℕ) (p : Writing.Progress)
    → Keeps window key s bytes p
    → length p.egress.staged < p.egress.data_pos + fuel
    → Result window key s bytes (Writing.write_packets answers key latency fuel p)
unfolding Writing.write_packets
write_packets-Result window answers key latency s bytes zero p k h =
    let (q, e) = k.staged in absurd (omega (arith, e))
write_packets-Result window answers key latency s bytes (suc fuel) p k h =
    elim (Bool-cases (Writing.has_packet p.egress)) [
      | inl more ↦ rw more (
          next_round-Result window key s bytes fuel (Writing.write_packets answers key latency fuel)
            (Writing.after_write key latency p (answers (length p.tried)))
            (after_write-Keeps window key latency s bytes p (answers (length p.tried)) k more)
            (after_write-IsEnough fuel key latency p (answers (length p.tried)) h)
            (write_packets-Result window answers key latency s bytes fuel))
      | inr full ↦ rw full (k, nothing_pending p.egress k.staged full)
    ]
