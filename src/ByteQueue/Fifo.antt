-- ===== src/ByteQueue/Fifo.antt =====
-- `CSLSArray` against a plain queue of bytes: what goes in comes out, in order, until a put makes
-- the buffer grow.
use native.Mathlib.Numerals.{unary_clauses}
use irl_srt_server.Prelude.{
  ℕ, zero, suc, ◌+◌, ◌-◌, ◌≤◌, ◌<◌, ◌≡◌, refl, sym, ap, ap₂, ◌∙◌, false, List, [], ◌∷◌, ◌++◌, some,
  arith, leb, ltb, ◌==◌, true, ltb→lt, if◌then◌else◌, Bool-cases, inl, inr, length, get_or, take,
  drop, min, take-all, length-replicate, length-take, length-drop, length-append, get_or-append,
  get_or-take, get_or-drop, write_bytes, length-write_bytes, get_or-write_bytes, read_bytes,
  read_bytes_ext, read_bytes-add,
}
use irl_srt_server.Prelude.Int.{pos}
use irl_srt_server.ByteQueue.{
  ByteQueue, create, set_size, clear, ready_len, copy_len, copy_out, clamp_pos, get_inline, get,
  copy_in, store, put, default_max_data_size,
}

-- The index `k` places behind `p` in a buffer of `size` bytes (k ≤ size).
abbrev pub ahead : ℕ → ℕ → ℕ → ℕ
ahead p size k = if ltb (p + k) size then p + k else p + k - size

-- The buffer holds the bytes `log`, the next to be read first.
pub record Holds (q : ByteQueue) (log : List ℕ) : Type 0 where
  pub in_use : q.freed ≡ false
  pub stored : length q.bytes ≡ q.data_size
  pub read_in : q.read_pos < q.data_size
  pub write_at : q.write_pos ≡ ahead q.read_pos q.data_size q.data_count
  pub counted : q.data_count ≡ length log
  pub room : length log ≤ q.data_size
  pub kept :
      (k : ℕ) → k < length log → get_or q.bytes (ahead q.read_pos q.data_size k) 0 ≡ get_or log k 0

pub create-Holds : Holds create []
unfolding create
create-Holds = record {
  in_use = refl;
  stored = length-replicate {A = ℕ} default_max_data_size 0;
  read_in = omega arith;
  write_at = ground arith;
  counted = refl;
  room = omega arith;
  kept = λ k h. absurd (omega arith);
}

pub set_size-Holds : (q : ByteQueue) (n : ℕ) → 0 < n → Holds (set_size q n) []
unfolding set_size
set_size-Holds q n h = record {
  in_use = refl;
  stored = length-replicate {A = ℕ} n 0;
  read_in = h;
  write_at = ground arith;
  counted = refl;
  room = omega arith;
  kept = λ k h. absurd (omega arith);
}

pub clear-Holds : (q : ByteQueue) (log : List ℕ) → Holds q log → Holds (clear q) []
unfolding clear
clear-Holds q log v = record {
  in_use = v.in_use;
  stored = v.stored;
  read_in = omega (arith, v.read_in);
  write_at = ground (arith, v.read_in);
  counted = refl;
  room = omega arith;
  kept = λ k h. absurd (omega arith);
}

read_bytes-take : (xs : List ℕ) (n : ℕ) → n ≤ length xs → read_bytes 0 xs 0 n ≡ take n xs
unfolding read_bytes
read_bytes-take xs zero h = refl
read_bytes-take [] (suc n) h = absurd (omega arith)
read_bytes-take (x ∷ xs) (suc n) h =
    ap (◌∷◌ x) (
      read_bytes_ext 0 (x ∷ xs) xs 1 0 n (λ k lt. ground arith)
      ∙ read_bytes-take xs n (omega arith))

take-min : (n : ℕ) (xs : List ℕ) → take (min n (length xs)) xs ≡ take n xs
take-min zero xs = simp unary_clauses refl
take-min (suc n) [] = simp unary_clauses refl
take-min (suc n) (x ∷ xs) = simp unary_clauses (ap (◌∷◌ x) (take-min n xs))

drop-min : (n : ℕ) (xs : List ℕ) → drop (min n (length xs)) xs ≡ drop n xs
drop-min zero xs = simp unary_clauses refl
drop-min (suc n) [] = simp unary_clauses refl
drop-min (suc n) (x ∷ xs) = simp unary_clauses (drop-min n xs)

empty : (xs : List ℕ) → length xs ≡ 0 → xs ≡ []
empty [] e = refl
empty (x ∷ xs) e = absurd (omega arith)

drop-empty : (n : ℕ) (xs : List ℕ) → length xs ≡ 0 → drop n xs ≡ xs
drop-empty zero xs e = refl
drop-empty (suc n) [] e = refl
drop-empty (suc n) (x ∷ xs) e = absurd (omega arith)

module _ (q : ByteQueue) (log : List ℕ) (v : Holds q log) where
  ready_len-eq : 0 < length log → ready_len q ≡ length log
  ready_len-eq h = ground (arith, v.write_at, v.counted, v.room, v.read_in)

  piece :
      (p c n : ℕ)
      → c + n ≤ length log
      → p + n ≤ q.data_size
      → (0 < n → p ≡ ahead q.read_pos q.data_size c)
      → read_bytes 0 q.bytes p n ≡ read_bytes 0 log c n
  piece p c n short inside starts =
      read_bytes_ext 0 q.bytes log p c n λ k lt. ground (arith, starts, v.kept (c + k), v.room)

  round :
      (n tail : ℕ)
      → n ≤ length log
      → tail + q.read_pos ≡ q.data_size
      → tail < n
      → read_bytes 0 q.bytes q.read_pos tail ++ read_bytes 0 q.bytes 0 (n - tail) ≡ take n log
  round n tail le e over =
      ap₂ ◌++◌
        (piece q.read_pos 0 tail (omega arith) (omega arith) (λ h. ground (arith, v.read_in)))
        (piece 0 (0 + tail) (n - tail) (omega arith) (omega (arith, v.room)) (λ h. ground arith))
      ∙ sym (read_bytes-add 0 log 0 tail (n - tail))
      ∙ ap (read_bytes 0 log 0) (omega arith)
      ∙ read_bytes-take log n le

  not_round : (n : ℕ) → n ≤ length log → q.data_size - q.read_pos < n → q.write_pos ≤ q.read_pos
  not_round n le over = ground (arith, v.write_at, v.counted, v.room, v.read_in)

  copy_out-eq : (n : ℕ) → n ≤ length log → (copy_out q n).0 ≡ take n log
  unfolding copy_out
  copy_out-eq n le = elim (Bool-cases (leb n (q.data_size - q.read_pos))) [
    | inl one ↦ rw one (
        ground (
          arith,
          read_bytes-take log n le,
          piece q.read_pos 0 n (omega arith) (ground (arith, one, v.read_in))
              (λ h. ground (arith, v.read_in)),
        ))
    | inr two ↦
        let over : q.data_size - q.read_pos < n = ground (arith, two) in
        ground (
          arith,
          two,
          not_round n le over,
          round n (q.data_size - q.read_pos) le (omega (arith, v.read_in)) over,
        )
  ]

  clamp_pos-eq :
      (n : ℕ) → n ≤ length log → clamp_pos q (copy_out q n).1 ≡ ahead q.read_pos q.data_size n
  unfolding copy_out clamp_pos
  clamp_pos-eq n le = ground (arith, v.write_at, v.counted, v.room, v.read_in)

  advance :
      (n : ℕ)
      → n ≤ length log
      → Holds
          (record q {
            freed = false;
            read_pos = clamp_pos q (copy_out q n).1;
            data_count = q.data_count - n;
          })
          (drop n log)
  advance n le = record {
    in_use = refl;
    stored = v.stored;
    read_in = ground (arith, clamp_pos-eq n le, v.read_in, v.room);
    write_at = ground (arith, clamp_pos-eq n le, v.read_in, v.room, v.counted, v.write_at);
    counted = omega (arith, v.counted, length-drop n log);
    room = omega (arith, v.room, length-drop n log);
    kept = λ k h. ground (
      arith,
      clamp_pos-eq n le,
      v.read_in,
      v.room,
      v.kept (n + k),
      length-drop n log,
      get_or-drop n log k 0,
    );
  }

  -- A read returns the oldest bytes, as many as are there and asked for, and leaves the others.
  pub get-Holds :
      (size : ℕ)
      → let (ret, out, q') = get q size in
        (ret ≡ pos (min size (length log))) × (out ≡ take size log) × Holds q' (drop size log)
  unfolding get get_inline
  get-Holds size = elim (Bool-cases (ltb 0 (length log))) [
    | inl some_left ↦
        let h : 0 < length log = ltb→lt 0 (length log) some_left in
        let n : ℕ = min size (length log) in
        let le : n ≤ length log = omega arith in
        let len_eq : copy_len q size ≡ n = ground (arith, ready_len-eq h) in
        let busy : (q.data_count == 0) ≡ false = ground (arith, v.counted) in
        simp (v.in_use, busy, len_eq)
          (refl, copy_out-eq n le ∙ take-min size log, rw⁻¹ (drop-min size log) (advance n le))
    | inr none_left ↦
        let e : length log ≡ 0 = ground (arith, none_left) in
        let idle : (q.data_count == 0) ≡ true = ground (arith, v.counted) in
        simp (v.in_use, idle)
          (
            ground arith,
            sym (take-all size log (omega arith) ∙ empty log e),
            rw (drop-empty size log e) v,
          )
  ]

module _ (q : ByteQueue) (log d : List ℕ) (len : ℕ) (v : Holds q log) (sized : length d ≡ len)
    (room : length log + len ≤ q.data_size) where
  length-copy_in : length (copy_in q d len).0 ≡ q.data_size
  unfolding copy_in
  length-copy_in = ground (
    arith,
    v.stored,
    length-write_bytes d q.bytes q.write_pos,
    length-write_bytes (take (q.data_size - q.write_pos) d) q.bytes q.write_pos,
    length-write_bytes (drop (q.data_size - q.write_pos) d)
        (write_bytes q.bytes q.write_pos (take (q.data_size - q.write_pos) d)) 0,
  )

  -- The byte `k` places behind the reader after a copy in one piece, and round the end.
  straight-kept :
      (k : ℕ)
      → k < length log + len
      → len + q.write_pos ≤ q.data_size
      → get_or (write_bytes q.bytes q.write_pos d) (ahead q.read_pos q.data_size k) 0
        ≡ get_or (log ++ d) k 0
  straight-kept k lt fit =
      rw
        (get_or-write_bytes d q.bytes q.write_pos (ahead q.read_pos q.data_size k) 0
          (omega (arith, v.stored)))
        (ground (arith, v.write_at, v.counted, v.read_in, v.kept k, get_or-append log d k 0))

  round-kept :
      (k first : ℕ)
      → k < length log + len
      → first + q.write_pos ≡ q.data_size
      → first < len
      → get_or
          (write_bytes (write_bytes q.bytes q.write_pos (take first d)) 0 (drop first d))
          (ahead q.read_pos q.data_size k)
          0
        ≡ get_or (log ++ d) k 0
  round-kept k first lt e over =
      rw
        (
          get_or-write_bytes (drop first d) (write_bytes q.bytes q.write_pos (take first d)) 0 i 0 (
              omega (
                arith,
                v.stored,
                length-drop first d,
                length-write_bytes (take first d) q.bytes q.write_pos,
              )),
          get_or-write_bytes (take first d) q.bytes q.write_pos i 0
              (omega (arith, v.stored, length-take first d)),
          get_or-drop first d (i - 0) 0,
        )
        (ground (
          arith,
          v.write_at,
          v.counted,
          v.read_in,
          v.kept k,
          length-take first d,
          length-drop first d,
          get_or-take first d (i - q.write_pos) 0,
          get_or-append log d k 0,
        ))
    where
      i : ℕ
      i = ahead q.read_pos q.data_size k

  copy_in-kept :
      (k : ℕ)
      → k < length log + len
      → get_or (copy_in q d len).0 (ahead q.read_pos q.data_size k) 0 ≡ get_or (log ++ d) k 0
  unfolding copy_in
  copy_in-kept k lt = elim (Bool-cases (leb len (q.data_size - q.write_pos))) [
    | inl fit ↦ rw fit (straight-kept k lt (ground (arith, fit, v.write_at, v.counted, v.read_in)))
    | inr over ↦ rw over (
        round-kept k (q.data_size - q.write_pos) lt
          (ground (arith, over, v.write_at, v.counted, v.read_in)) (ground (arith, over)))
  ]

  store-Holds : 0 < len → Holds (store q d len) (log ++ d)
  unfolding store
  store-Holds h = record {
    in_use = v.in_use;
    stored = length-copy_in;
    read_in = v.read_in;
    write_at = unfold copy_in in ground (arith, v.write_at, v.counted, v.read_in);
    counted = omega (arith, v.counted, length-append log d);
    room = omega (arith, length-append log d);
    kept = λ k lt. copy_in-kept k (omega (arith, length-append log d));
  }

-- A put that the free space can take returns its length and goes behind all that is there.
pub put-Holds :
    (q : ByteQueue) (log d : List ℕ) (len : ℕ)
    → Holds q log
    → 0 < len
    → len ≤ length d
    → length log + len ≤ q.data_size
    → let (ret, q') = put q (some d) (pos len) in (ret ≡ pos len) × Holds q' (log ++ take len d)
unfolding put
put-Holds q log d len v h backed room = ground (
  arith,
  v.counted,
  store-Holds q log (take len d) len v (omega (arith, length-take len d)) room h,
)
