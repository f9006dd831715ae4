-- ===== src/MapData/Budget.antt =====
-- The budget of src/core/SLSMapData.cpp: the two counters are what the live rings add up to.
use irl_srt_server.Prelude.{
  ℕ, ◌+◌, ◌%◌, ◌^◌, ◌≡◌, refl, Option, none, some, List, [], ◌∷◌, arith, Option-cases, inl, inr,
}
use irl_srt_server.Prelude.Int.{ℤ, pos, negsuc}
use irl_srt_server.Prelude.Keyed.{
  Key, Keyed, find, assign, erase, total, is_some, total-assign_new, total-assign_old, total-erase,
}
use irl_srt_server.Ring
use irl_srt_server.Ring.{Ring, ReadId, Got}
use irl_srt_server.MapData.{
  MapData, init, grow, intended_size, commit, add_sized, release, drop_states, remove_ring, remove,
  release_all, clear,
}

abbrev pub one : Ring → ℕ
one r = 1

abbrev pub size_of : Ring → ℕ
size_of r = r.data_size

abbrev pub ring_total : MapData → ℕ
ring_total m = total one m.rings

abbrev pub byte_total : MapData → ℕ
byte_total m = total size_of m.rings

-- What the counters promise.
pub record Balanced (m : MapData) : Type 0 where
  pub streams : m.stream_count ≡ ring_total m % 2 ^ 32
  pub bytes : m.total_ring_bytes ≡ byte_total m % 2 ^ 64

pub init-Balanced : Balanced init
unfolding total
init-Balanced = record { streams = omega arith; bytes = omega arith }

commit-Balanced :
    (m : MapData) (key : Key) (r : Ring)
    → find key m.rings ≡ none
    → Balanced m
    → Balanced (commit m key r)
unfolding commit
commit-Balanced m key r absent b = record {
  streams = omega (arith, b.streams, total-assign_new one key r m.rings absent);
  bytes = omega (arith, b.bytes, total-assign_new size_of key r m.rings absent);
}

pub add_sized-Balanced :
    (base : ℕ) (m : MapData) (key : Key) (kbps latency : ℤ) (next now : ℕ)
    → Balanced m
    → Balanced (add_sized base m key kbps latency next now).1
unfolding add_sized is_some
add_sized-Balanced base m key kbps latency next now b = elim (Option-cases (find key m.rings)) [
  | inl e ↦
      rw (e, add_sized)
        (ground (
          arith,
          b,
          commit-Balanced m key
              (grow (Ring.create_sized base next now) (intended_size base kbps latency)).0 e b,
        ))
  | inr (r, e) ↦ rw (e, add_sized) b
]

release-Balanced :
    (m : MapData) (key : Key) (r : Ring)
    → find key m.rings ≡ some r
    → Balanced m
    → Balanced (record (release r m) { rings = erase key m.rings })
unfolding release
release-Balanced m key r e b = record {
  streams = omega (arith, b.streams, total-erase one key m.rings e);
  bytes = omega (arith, b.bytes, total-erase size_of key m.rings e);
}

pub remove-Balanced : (m : MapData) (key : Key) → Balanced m → Balanced (remove m key).1
unfolding remove drop_states remove_ring release
remove-Balanced m key b = elim (Option-cases (find key m.rings)) [
  | inl e ↦ rw (e, remove) (record { streams = b.streams; bytes = b.bytes })
  | inr (r, e) ↦
      rw (e, remove)
        (record {
          streams = (release-Balanced m key r e b).streams;
          bytes = (release-Balanced m key r e b).bytes;
        })
]

-- The counters behind the loop of `clear`, which had `s` streams and `t` bytes above the rings' own.
release_all_lem :
    (rs : Keyed Ring) (m : MapData) (s t : ℕ)
    → m.stream_count ≡ (total one rs + s) % 2 ^ 32
    → m.total_ring_bytes ≡ (total size_of rs + t) % 2 ^ 64
    → ((release_all rs m).stream_count ≡ s % 2 ^ 32)
      × ((release_all rs m).total_ring_bytes ≡ t % 2 ^ 64)
unfolding release_all total release
release_all_lem [] m s t hs ht = (omega arith, omega arith)
release_all_lem ((k, r) ∷ rest) m s t hs ht =
    release_all_lem rest (release r m) s t (omega (arith, hs)) (omega (arith, ht))

pub clear-Balanced : (m : MapData) → Balanced m → Balanced (clear m)
unfolding clear total
clear-Balanced m b =
    let (s, t) =
      release_all_lem m.rings m 0 0 (omega (arith, b.streams)) (omega (arith, b.bytes)) in
    record { streams = s; bytes = t }

-- A ring that is replaced by one of its size.
pub assign-Balanced :
    (m : MapData) (key : Key) (r r' : Ring)
    → find key m.rings ≡ some r
    → r'.data_size ≡ r.data_size
    → Balanced m
    → Balanced (record m { rings = assign key r' m.rings })
assign-Balanced m key r r' e h b = record {
  streams = omega (arith, b.streams, total-assign_old one key r' m.rings e);
  bytes = omega (arith, b.bytes, h, total-assign_old size_of key r' m.rings e);
}

pub Ring-put-data_size :
    (r : Ring) (d : Option (List ℕ)) (len : ℤ) → (Ring.put r d len).1.data_size ≡ r.data_size
unfolding Ring.put
Ring-put-data_size r none len = refl
Ring-put-data_size r (some d) (negsuc n) = refl
Ring-put-data_size r (some d) (pos n) = ground arith

pub get_at-data_size :
    (r : Ring) (id : ReadId) (size aligned now : ℕ)
    → (Ring.get_at r id size aligned now).ring.data_size ≡ r.data_size
unfolding Ring.get_at Ring.drain Ring.resync
get_at-data_size r id size aligned now = ground arith
