-- ===== src/MapData/Caps.antt =====
-- The guardrails of `CSLSMapData::add` in src/core/SLSMapData.cpp: the size it decides on, the two
-- caps, and what an `add` that is refused or repeated leaves behind.
use mathlib.Core.Path.{subst}
use irl_srt_server.Prelude.{
  ℕ, ◌+◌, ◌%◌, ◌^◌, ◌≤◌, ◌<◌, ◌≡◌, ◌⊎◌, inl, inr, refl, true, false, ◌&&◌, none, some, arith,
  Bool-cases, Option-cases,
}
use irl_srt_server.Prelude.Int.{ℤ, pos, negsuc, sls_ok, sls_error, i64, i32, ltb_ℤ, leb_ℤ, ◌+ℤ◌}
use irl_srt_server.Prelude.Keyed.{Key, find, is_some, total-assign_new, find-assign_same}
use irl_srt_server.Ring
use irl_srt_server.Ring.{Ring}
use irl_srt_server.MapData.{
  MapData, streams_full, bytes_full, grow, intended_size, commit, add_sized, max_ring_bytes,
}
use irl_srt_server.MapData.Budget.{Balanced, ring_total, byte_total, one, size_of}

-- The size that `add` decides on is at least the first buffer's and at most the larger of that and
-- 32 MiB, whatever bitrate and latency the publisher announces.
pub intended_size-bounds :
    (base : ℕ) (kbps latency : ℤ)
    → (base ≤ intended_size base kbps latency)
      × ((intended_size base kbps latency ≤ base)
          ⊎ (intended_size base kbps latency ≤ max_ring_bytes))
unfolding intended_size
intended_size-bounds base (negsuc k) latency = (omega arith, inl (omega arith))
intended_size-bounds base (pos k) (negsuc l) = (omega arith, inl (omega arith))
intended_size-bounds base (pos k) (pos l) = ground arith

grown_size :
    (base size next now : ℕ)
    → base ≤ size
    → (grow (Ring.create_sized base next now) size).0.data_size ≡ size
unfolding grow Ring.create_sized Ring.set_size
grown_size base size next now h = ground arith

-- The caps that are in force.
pub record Within (m : MapData) (streams bytes : ℕ) : Type 0 where
  pub stream_cap : m.max_streams ≡ pos streams
  pub byte_cap : m.max_total_ring_bytes ≡ pos bytes
  pub few : ring_total m ≤ streams
  pub small : byte_total m ≤ bytes

-- What the two tests of `add` say of the totals behind the counters.
room :
    (s c t : ℕ)
    → t ≡ c % 2 ^ 32
    → 0 < s
    → s < 2 ^ 31
    → c ≤ s
    → (ltb_ℤ (pos 0) (pos s) && leb_ℤ (pos s) (i32 t)) ≡ false
    → c + 1 ≤ s
room s c t e h h' le f = ground arith

space :
    (s c t size : ℕ)
    → t ≡ c % 2 ^ 64
    → 0 < s
    → s < 2 ^ 63
    → c ≤ s
    → (ltb_ℤ (pos 0) (pos s) && ltb_ℤ (pos s) (i64 t +ℤ pos size)) ≡ false
    → c + size ≤ s
space s c t size e h h' le f = ground arith

commit-Within :
    (streams bytes size : ℕ) (m : MapData) (key : Key) (r : Ring)
    → find key m.rings ≡ none
    → r.data_size ≡ size
    → (0 < streams) × (streams < 2 ^ 31) × (0 < bytes) × (bytes < 2 ^ 63)
    → Balanced m
    → Within m streams bytes
    → streams_full m ≡ false
    → bytes_full m size ≡ false
    → Within (commit m key r) streams bytes
unfolding commit streams_full bytes_full
commit-Within streams bytes size m key r absent grown (hs, hs', hb, hb') b w fs fb = record {
  stream_cap = w.stream_cap;
  byte_cap = w.byte_cap;
  few = omega (
    arith,
    room streams (ring_total m) m.stream_count b.streams hs hs' w.few
        (subst (λ x. (ltb_ℤ (pos 0) x && leb_ℤ x (i32 m.stream_count)) ≡ false) w.stream_cap fs),
    total-assign_new one key r m.rings absent,
  );
  small = omega (
    arith,
    grown,
    space bytes (byte_total m) m.total_ring_bytes size b.bytes hb hb' w.small (
        subst (λ x. (ltb_ℤ (pos 0) x && ltb_ℤ x (i64 m.total_ring_bytes +ℤ pos size)) ≡ false)
          w.byte_cap fb),
    total-assign_new size_of key r m.rings absent,
  );
}

-- With both caps set, to what an `int` and an `int64_t` hold, and counters that are right, an `add`
-- never leads past either cap: not more rings than `streams`, not more ring memory than `bytes`.
pub add_sized-Within :
    (base streams bytes : ℕ) (m : MapData) (key : Key) (kbps latency : ℤ) (next now : ℕ)
    → (0 < streams) × (streams < 2 ^ 31) × (0 < bytes) × (bytes < 2 ^ 63)
    → Balanced m
    → Within m streams bytes
    → Within (add_sized base m key kbps latency next now).1 streams bytes
unfolding add_sized is_some
add_sized-Within base streams bytes m key kbps latency next now h b w =
    elim (Option-cases (find key m.rings)) [
      | inl e ↦
          rw (e, add_sized)
            (ground (
              arith,
              w,
              commit-Within streams bytes size m key (grow (Ring.create_sized base next now) size).0
                  e (grown_size base size next now (intended_size-bounds base kbps latency).0) h b
                  w,
            ))
      | inr (r, e) ↦ rw (e, add_sized) w
    ]
  where
    size : ℕ
    size = intended_size base kbps latency

find-commit : (m : MapData) (key : Key) (r : Ring) → find key (commit m key r).rings ≡ some r
unfolding commit
find-commit m key r = find-assign_same key r m.rings

-- An `add` for a key that has a ring succeeds and changes nothing, whatever the budget; an `add` that
-- is refused fails for a key without a ring and changes nothing in the object; an `add` of a new key that succeeds gives the key a ring of the
-- size it decided on.
pub add_sized-cases :
    (base : ℕ) (m : MapData) (key : Key) (kbps latency : ℤ) (next now : ℕ)
    → let (ret, m', next') = add_sized base m key kbps latency next now in
      ((is_some (find key m.rings) ≡ true) × (ret ≡ sls_ok) × (m' ≡ m) × (next' ≡ next))
      ⊎ (((find key m.rings ≡ none) × (ret ≡ sls_error) × (m' ≡ m))
          ⊎ ((find key m.rings ≡ none)
              × (ret ≡ sls_ok)
              × ((r : Ring) × (find key m'.rings ≡ some r)
                  × (r.data_size ≡ intended_size base kbps latency))))
unfolding add_sized is_some
add_sized-cases base m key kbps latency next now = elim (Option-cases (find key m.rings)) [
  | inr (r, e) ↦ rw (e, add_sized) (inl (refl, refl, refl, refl))
  | inl e ↦ elim (Bool-cases (streams_full m)) [
    | inl f ↦ rw (e, add_sized, f) (inr (inl (refl, refl, refl)))
    | inr f ↦ elim (Bool-cases (bytes_full m size)) [
      | inl g ↦ rw (e, add_sized, f, g) (inr (inl (refl, refl, refl)))
      | inr g ↦
          rw (e, add_sized, f, g) (inr (inr (refl, refl, (grown, find-commit m key grown, fits))))
    ]
  ]
]
  where
    size : ℕ
    size = intended_size base kbps latency

    grown : Ring
    grown = (grow (Ring.create_sized base next now) size).0

    fits : grown.data_size ≡ size
    fits = grown_size base size next now (intended_size-bounds base kbps latency).0
