-- ===== src/Ring/Put.antt =====
-- `CSLSRecycleArray::put`: the ring goes on holding the end of the stream.
use irl_srt_server.Prelude.{
  ℕ, ◌+◌, ◌-◌, ◌^◌, ◌≤◌, ◌<◌, ◌≡◌, refl, ◌⊎◌, inl, inr, Option, some, none, List, ◌++◌, arith, leb,
  if◌then◌else◌, Bool-cases, length, get_or, take, drop, length-take, length-drop, length-append,
  get_or-append, get_or-take, get_or-drop, write_bytes, length-write_bytes, get_or-write_bytes,
}
use irl_srt_server.Prelude.Int.{ℤ, pos, negsuc, ◌+ℤ◌, ◌≤ℤ◌, sls_error, add64}
use irl_srt_server.Ring.{Ring, ReadId, put, copy_in, wrap_pos}
use irl_srt_server.Ring.Inv.{Holds, IsAt, back}

-- The byte put `k` bytes ago, after `d` (of `len` bytes) has been put at `wp` into `bytes`.
abbrev aged : List ℕ → List ℕ → ℕ → ℕ → ℕ → ℕ → ℕ
aged bytes d wp size len k =
    if leb k len then get_or d (len - k) 0 else get_or bytes (back wp size (k - len)) 0

module _ (r : Ring) (d : List ℕ) (len : ℕ) (stored : length r.bytes ≡ r.data_size)
    (sized : length d ≡ len) (fits : len ≤ r.data_size) (head_in : r.write_pos < r.data_size) where
  length-copy_in : length (copy_in r d len).0 ≡ r.data_size
  unfolding copy_in
  length-copy_in = ground (
    arith,
    length-write_bytes d r.bytes r.write_pos,
    length-write_bytes (take (r.data_size - r.write_pos) d) r.bytes r.write_pos,
    length-write_bytes (drop (r.data_size - r.write_pos) d)
        (write_bytes r.bytes r.write_pos (take (r.data_size - r.write_pos) d)) 0,
  )

  wrap_pos-lt : wrap_pos r (copy_in r d len).1 < r.data_size
  unfolding copy_in wrap_pos
  wrap_pos-lt = ground arith

  -- The copy in one piece, and the copy round the end.
  straight-aged :
      (k : ℕ)
      → 0 < k
      → k ≤ r.data_size
      → len ≤ r.data_size - r.write_pos
      → get_or
          (write_bytes r.bytes r.write_pos d)
          (back (wrap_pos r (r.write_pos + len)) r.data_size k)
          0
        ≡ aged r.bytes d r.write_pos r.data_size len k
  unfolding wrap_pos
  straight-aged k k_pos k_size fit =
      rw
        (get_or-write_bytes d r.bytes r.write_pos
          (back (wrap_pos r (r.write_pos + len)) r.data_size k) 0 (omega arith))
        (ground arith)

  round-aged :
      (k first : ℕ)
      → 0 < k
      → k ≤ r.data_size
      → first + r.write_pos ≡ r.data_size
      → first < len
      → get_or
          (write_bytes (write_bytes r.bytes r.write_pos (take first d)) 0 (drop first d))
          (back (wrap_pos r (len - first)) r.data_size k)
          0
        ≡ aged r.bytes d r.write_pos r.data_size len k
  unfolding wrap_pos
  round-aged k first k_pos k_size e over =
      rw
        (
          get_or-write_bytes (drop first d) (write_bytes r.bytes r.write_pos (take first d)) 0 i 0 (
              omega (
                arith,
                length-drop first d,
                length-write_bytes (take first d) r.bytes r.write_pos,
              )),
          get_or-write_bytes (take first d) r.bytes r.write_pos i 0
              (omega (arith, length-take first d)),
          get_or-drop first d (i - 0) 0,
        )
        (ground (
          arith,
          length-take first d,
          length-drop first d,
          get_or-take first d (i - r.write_pos) 0,
        ))
    where
      i : ℕ
      i = back (wrap_pos r (len - first)) r.data_size k

  copy_in-aged :
      (k : ℕ)
      → 0 < k
      → k ≤ r.data_size
      → get_or (copy_in r d len).0 (back (wrap_pos r (copy_in r d len).1) r.data_size k) 0
        ≡ aged r.bytes d r.write_pos r.data_size len k
  unfolding copy_in
  copy_in-aged k k_pos k_size = elim (Bool-cases (leb len (r.data_size - r.write_pos))) [
    | inl fit ↦ rw fit (straight-aged k k_pos k_size (ground (arith, fit)))
    | inr over ↦
        rw over (
          round-aged k (r.data_size - r.write_pos) k_pos k_size (omega arith)
            (ground (arith, over)))
  ]

-- The call's arguments: a buffer of at least `len` bytes, and a length that the ring can take.
pub record Fits (r : Ring) (d : List ℕ) (len : ℕ) : Type 0 where
  pub some_bytes : 0 < len
  pub within : len ≤ r.data_size
  pub backed : len ≤ length d

-- The ring behind the checks of `put`, for a payload `d` of `len` bytes.
filled : Ring → List ℕ → ℕ → Ring
filled r d len = record r {
  bytes = (copy_in r d len).0;
  write_pos = wrap_pos r (copy_in r d len).1;
  data_count = add64 r.data_count len;
}

put-filled :
    (r : Ring) (d : List ℕ) (len : ℕ)
    → Fits r d len
    → put r (some d) (pos len) ≡ (pos len, filled r (take len d) len)
unfolding put filled
put-filled r d len f = ground arith

filled-Holds :
    (r : Ring) (log d : List ℕ) (len : ℕ)
    → Holds r log
    → 0 < len
    → length d ≡ len
    → len ≤ r.data_size
    → length log + len < 2 ^ 63
    → Holds (filled r d len) (log ++ d)
unfolding filled
filled-Holds r log d len v len_pos sized fits room = record {
  in_use = v.in_use;
  stored = length-copy_in r d len v.stored sized fits v.head_in;
  head_in = wrap_pos-lt r d len v.stored sized fits v.head_in;
  counted = omega (arith, length-append log d);
  countable = omega (arith, length-append log d);
  newest = λ k k_pos k_size k_log. ground (
    arith,
    copy_in-aged r d len v.stored sized fits v.head_in k k_pos k_size,
    length-append log d,
    get_or-append log d (length (log ++ d) - k) 0,
    v.newest (k - len),
  );
}

-- A call that fits returns its length, and the ring then holds the stream with those bytes added, as
-- long as fewer than 2^63 bytes are put in all.
pub put-Holds :
    (r : Ring) (log d : List ℕ) (len : ℕ)
    → Holds r log
    → Fits r d len
    → length log + len < 2 ^ 63
    → let (ret, r') = put r (some d) (pos len) in (ret ≡ pos len) × Holds r' (log ++ take len d)
put-Holds r log d len v f room = rw (put-filled r d len f) (
  refl,
  filled-Holds r log (take len d) len v f.some_bytes (omega (arith, length-take len d)) f.within
      room,
)

-- A reader keeps its place in the stream while others are put behind it.
pub put-IsAt :
    (r : Ring) (log d : List ℕ) (len cursor : ℕ) (id : ReadId)
    → Holds r log
    → Fits r d len
    → length log + len < 2 ^ 63
    → IsAt r id cursor
    → IsAt (put r (some d) (pos len)).1 id cursor
put-IsAt r log d len cursor id v f room a =
    rw (put-filled r d len f) (unfold filled copy_in wrap_pos in ground arith)

-- A NULL buffer, a length that is not positive and one above the size of the ring are refused, and
-- the ring stays as it was.
pub put_refuses :
    (r : Ring) (buffer : Option (List ℕ)) (len : ℤ)
    → (buffer ≡ none) ⊎ (len ≤ℤ pos 0) ⊎ (pos r.data_size +ℤ pos 1 ≤ℤ len)
    → put r buffer len ≡ (sls_error, r)
unfolding put
put_refuses r none len bad = refl
put_refuses r (some d) (negsuc len) bad = refl
put_refuses r (some d) (pos len) bad = ground arith

pub put_refuses_length :
    (r : Ring) (d : List ℕ) (len : ℕ)
    → (len ≡ 0) ⊎ (r.data_size < len)
    → put r (some d) (pos len) ≡ (sls_error, r)
unfolding put
put_refuses_length r d len bad = ground arith

pub put-data_size :
    (r : Ring) (d : List ℕ) (len : ℕ)
    → ((put r (some d) (pos len)).1.data_size ≡ r.data_size)
      × ((put r (some d) (pos len)).1.generation ≡ r.generation)
unfolding put
put-data_size r d len = ground arith
