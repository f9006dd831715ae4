-- ===== src/Role/Fetching.antt =====
-- The fetches of `handler_write_data` in src/core/SLSRole.cpp: what a batch adds to what is staged.
use mathlib.Core.Path.{subst}
use mathlib.Core.List.{append-nil}
use irl_srt_server.Prelude.{
  ℕ, zero, suc, ◌+◌, ◌-◌, ◌*◌, ◌/◌, ◌≡◌, refl, sym, ap, ◌∙◌, Bool, true, false, some, List, [], ◌∷◌,
  ◌++◌, arith, leb, leb→le, length, length-read_bytes, if◌then◌else◌, Bool-cases, inl, inr,
}
use irl_srt_server.Prelude.Int.{pos, leb_ℤ}
use irl_srt_server.Prelude.Keyed.{Key, find, find-assign_same}
use irl_srt_server.Ring.{Ring, ReadId, Got, get_at, copy_len}
use irl_srt_server.Ring
use irl_srt_server.Ring.Drain.{get_at_next, get_at_lapped, get_at-keeps}
use irl_srt_server.Ring.Stream.{Stream, Models, next, get-Models}
use irl_srt_server.MapData.{MapData, get, get_ring, store_got}
use irl_srt_server.Role.Writing
use irl_srt_server.Role.Packets.{pending, join, Serves, Keeps}

-- So many fetches of a viewer, on the stream.
unfoldable pub nexts : ℕ → ℕ → Stream → List ℕ × Stream
nexts window zero s = ([], s)
nexts window (suc k) s =
    let (out, s') = next window s Writing.data_buff_size 1316 in
    let (rest, s'') = nexts window k s' in (out ++ rest, s'')

-- What a fetch returns is the number of the bytes that it hands out, which is one of whole packets.
record IsWhole (g : Got) : Type 0 where
  counted : g.ret ≡ pos (length g.out)
  whole : (q : ℕ) × (length g.out ≡ q * 1316)

copy_len-whole : (ready size : ℕ) → (q : ℕ) × (copy_len ready size 1316 ≡ q * 1316)
unfolding copy_len
copy_len-whole ready size = ((if leb ready size then ready else size) / 1316, refl)

get_at-IsWhole :
    (r : Ring) (id : ReadId) (s : Stream) (size now : ℕ)
    → Models r id s
    → IsWhole (get_at r id size 1316 now)
get_at-IsWhole r id s size now m = elim (Bool-cases (leb (s.cursor + r.data_size) (length s.log))) [
  | inl lapped ↦
      let done = get_at_lapped r s.log id s.cursor size 1316 now m.holds m.at (leb→le _ _ lapped) in
      record { counted = rw (done.0, done.1) refl; whole = (0, rw done.1 refl) }
  | inr kept ↦
      let done =
        get_at_next r s.log id s.cursor size 1316 now m.holds m.at (ground (arith, kept)) in
      let n = copy_len (length s.log - s.cursor) size 1316 in
      let e = ap length done.1 ∙ length-read_bytes 0 s.log s.cursor n in
      let (q, whole_len) = copy_len-whole (length s.log - s.cursor) size in
      record { counted = done.0 ∙ ap pos (sym e); whole = (q, e ∙ whole_len) }
]

-- What a fetch of a batch does to what is kept: nothing was pending, and the stream has moved on.
abbrev AfterFetch : ℕ → Key → Stream → List ℕ → Bool × Writing.Meter × Writing.Progress → Type 0
AfterFetch window key s bytes (b, m, p) =
    Keeps window key (next window s Writing.data_buff_size 1316).1
      (bytes ++ (next window s Writing.data_buff_size 1316).0) p

get-eq :
    (map : MapData) (key : Key) (r : Ring) (id : ReadId) (size now : ℕ)
    → find key map.rings ≡ some r
    → r.freed ≡ false
    → let g = get_at r id size 1316 now in
      get map key (some id) size 1316 now ≡ (g.ret, some g, store_got map key (some g))
unfolding get get_ring Ring.get
get-eq map key r id size now e used = rw (e, get_ring) (rw (used, Ring.get) refl)

no_bytes : (g : Got) → IsWhole g → leb_ℤ g.ret (pos 0) ≡ true → g.out ≡ []
no_bytes g w e = empty g.out (rw w.counted at e)
  where
    empty : (out : List ℕ) → leb_ℤ (pos (length out)) (pos 0) ≡ true → out ≡ []
    empty [] h = refl
    empty (x ∷ out) h = absurd (ground (arith, h))

fetched-Keeps :
    (window : ℕ) (key : Key) (s s' : Stream) (bytes : List ℕ) (m : Writing.Meter)
    (p : Writing.Progress) (now : ℕ) (g : Got) (map : MapData)
    → Keeps window key s bytes p
    → pending p.egress ≡ []
    → IsWhole g
    → Serves window key s' map g.id
    → Keeps window key s' (bytes ++ g.out) (Writing.fetched m p now (g.ret, some g, map)).2
unfolding Writing.fetched Writing.stage
fetched-Keeps window key s s' bytes m p now g map k empty w v =
    elim (Bool-cases (leb_ℤ g.ret (pos 0))) [
      | inl idle ↦ rw idle (record {
        total = k.total ∙ sym (append-nil bytes) ∙ ap (λ t. bytes ++ t) (sym (no_bytes g w idle));
        staged = k.staged;
        serves = v;
      })
      | inr some_bytes ↦
          let all_sent : join p.sent ≡ bytes =
            sym (append-nil (join p.sent)) ∙ ap (λ t. join p.sent ++ t) (sym empty) ∙ k.total in
          rw some_bytes (record {
            total = ap (λ t. t ++ g.out) all_sent;
            staged = let (q, e) = w.whole in (q, omega (arith, e));
            serves = v;
          })
    ]

pub fetched-AfterFetch :
    (window : ℕ) (key : Key) (s : Stream) (bytes : List ℕ) (m : Writing.Meter)
    (p : Writing.Progress) (now : ℕ)
    → Keeps window key s bytes p
    → pending p.egress ≡ []
    → AfterFetch window key s bytes (
        Writing.fetched m p now
          (get p.map key (some p.egress.map_data_id) Writing.data_buff_size 1316 now))
unfolding store_got
fetched-AfterFetch window key s bytes m p now k empty =
    let v = k.serves in
    let r = v.ring in
    let id = p.egress.map_data_id in
    let g = get_at r id Writing.data_buff_size 1316 now in
    let moved = get-Models r id s Writing.data_buff_size 1316 now v.models in
    rw (get-eq p.map key r id Writing.data_buff_size now v.found v.models.holds.in_use) (
      subst
        (λ (n : ℕ).
          Keeps window key (next n s Writing.data_buff_size 1316).1
            (bytes ++ (next n s Writing.data_buff_size 1316).0) (after g))
        v.sized
        (subst
          (λ (out : List ℕ).
            Keeps window key (next r.data_size s Writing.data_buff_size 1316).1 (bytes ++ out)
              (after g))
          moved.0
          (fetched-Keeps window key s _ bytes m p now g _ k empty
            (get_at-IsWhole r id s Writing.data_buff_size now v.models)
            (record {
              ring = g.ring;
              found = find-assign_same key g.ring p.map.rings;
              sized = (get_at-keeps r id Writing.data_buff_size 1316 now).2 ∙ v.sized;
              models = moved.1;
            }))))
  where
    after : Got → Writing.Progress
    after g = (Writing.fetched m p now (g.ret, some g, store_got p.map key (some g))).2
