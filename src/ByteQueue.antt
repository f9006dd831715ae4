-- ===== src/ByteQueue.antt =====
-- src/core/SLSArray.hpp and .cpp: the queue of bytes between a TCP socket and its role. The sizes
-- are of type `int`; a sum that overflows one is undefined in the source and is left out. A fresh
-- buffer is zeroes, which nothing but a read behind the bytes put can see.
pub mod Fifo
pub mod Script
pub mod Growth
use irl_srt_server.Prelude.{
  ℕ, ◌+◌, ◌-◌, Bool, true, false, Option, none, some, List, [], ◌++◌, ltb, leb, ◌==◌, if◌then◌else◌,
  take, drop, replicate, read_bytes, write_bytes,
}
use irl_srt_server.Prelude.Int.{ℤ, pos, negsuc, sls_ok, sls_error}

-- `CSLSArray`. `freed` says that `m_arrayData` is NULL, as the destructor leaves it.
pub record ByteQueue : Type 0 where
  pub bytes : List ℕ
  pub freed : Bool
  pub data_size : ℕ
  pub data_count : ℕ
  pub write_pos : ℕ
  pub read_pos : ℕ

-- `DEFAULT_MAX_DATA_SIZE`
abbrev pub default_max_data_size : ℕ
default_max_data_size = 4096

unfoldable pub create : ByteQueue
create = record {
  bytes = replicate default_max_data_size 0;
  freed = false;
  data_size = default_max_data_size;
  data_count = 0;
  write_pos = 0;
  read_pos = 0;
}

unfoldable pub count : ByteQueue → ℕ
count q = q.data_count

unfoldable pub set_size : ByteQueue → ℕ → ByteQueue
set_size q n = record q {
  bytes = replicate n 0;
  freed = false;
  data_size = n;
  data_count = 0;
  write_pos = 0;
  read_pos = 0;
}

unfoldable pub clear : ByteQueue → ByteQueue
clear q = record q { write_pos = 0; read_pos = 0; data_count = 0 }

abbrev pub ready_len : ByteQueue → ℕ
ready_len q =
    if ltb q.read_pos q.write_pos
    then q.write_pos - q.read_pos
    else q.data_size - q.read_pos + q.write_pos

abbrev pub copy_len : ByteQueue → ℕ → ℕ
copy_len q size = if leb (ready_len q) size then ready_len q else size

-- The copies out of the buffer, and the position behind them before it is wrapped.
unfoldable pub copy_out : ByteQueue → ℕ → List ℕ × ℕ
copy_out q n =
    if ltb q.read_pos q.write_pos
    then (read_bytes 0 q.bytes q.read_pos n, q.read_pos + n)
    else if leb n tail
    then (read_bytes 0 q.bytes q.read_pos n, q.read_pos + n)
    else (read_bytes 0 q.bytes q.read_pos tail ++ read_bytes 0 q.bytes 0 (n - tail), n - tail)
  where
    tail : ℕ
    tail = q.data_size - q.read_pos

unfoldable pub clamp_pos : ByteQueue → ℕ → ℕ
clamp_pos q p = if p == q.data_size then 0 else if ltb q.data_size p then 0 else p

-- The return value, the bytes copied out and the queue. A count below the copied length, which
-- would turn negative in the source, stops at 0 here.
unfoldable pub get_inline : ByteQueue → ℕ → ℤ × List ℕ × ByteQueue
get_inline q size =
    if q.freed
    then (sls_error, [], q)
    else if q.data_count == 0
    then (sls_ok, [], q)
    else let n = copy_len q size in
      let (out, p) = copy_out q n in
      (pos n, out, record q { read_pos = clamp_pos q p; data_count = q.data_count - n })

unfoldable pub get : ByteQueue → ℕ → ℤ × List ℕ × ByteQueue
get = get_inline

-- `ext_len`: the new size, by the default or by the payload, whichever is more.
abbrev pub ext_len : ByteQueue → ℕ → ℕ
ext_len q len = q.data_size + (if leb len default_max_data_size then default_max_data_size else len)

-- What `get_inline` copies to the new buffer goes first. Its result is an error only on a freed
-- buffer.
abbrev pub moved : ℤ → ℕ
moved (pos n) = n
moved (negsuc n) = 0

unfoldable pub expand : ByteQueue → List ℕ → ℕ → ByteQueue
expand q d len =
    let (re, out, rest) = get_inline q q.data_count in
    record rest {
      bytes = write_bytes (write_bytes (replicate (ext_len q len) 0) 0 out) (moved re) d;
      freed = false;
      data_size = ext_len q len;
      write_pos = 0;
      read_pos = 0;
      data_count = moved re + len;
    }

-- The copy into the buffer: into one piece, or round the end.
unfoldable pub copy_in : ByteQueue → List ℕ → ℕ → List ℕ × ℕ
copy_in q d len =
    if leb len (q.data_size - q.write_pos)
    then (write_bytes q.bytes q.write_pos d, q.write_pos + len)
    else (
      write_bytes (write_bytes q.bytes q.write_pos (take first d)) 0 (drop first d),
      len - first,
    )
  where
    first : ℕ
    first = q.data_size - q.write_pos

unfoldable pub store : ByteQueue → List ℕ → ℕ → ByteQueue
store q d len =
    let (bytes, p) = copy_in q d len in
    record q {
      bytes = bytes;
      write_pos = if p == q.data_size then 0 else p;
      data_count = q.data_count + len;
    }

-- `data` is NULL or a buffer of which the first `len` bytes are read.
unfoldable pub put : ByteQueue → Option (List ℕ) → ℤ → ℤ × ByteQueue
put q none len = (sls_error, q)
put q (some d) (negsuc len) = (sls_error, q)
put q (some d) (pos len) =
    if len == 0
    then (sls_error, q)
    else if ltb (q.data_size - q.data_count) len
    then (pos len, expand q (take len d) len)
    else (pos len, store q (take len d) len)
