-- ===== src/Timecode/Rbsp.antt =====
-- `rbsp_unescape` of src/core/SLSTimecode.cpp: dropping emulation-prevention bytes.
use irl_srt_server.Prelude.{
  ℕ, zero, suc, ◌+◌, ◌≤◌, ◌≡◌, refl, ◌&&◌, List, [], ◌∷◌, arith, leb, ◌==◌, if◌then◌else◌, length,
}

-- The loop, with room for `cap` more bytes and `run` zero bytes just copied.
unfoldable pub unescape_from : ℕ → ℕ → List ℕ → List ℕ
unescape_from cap run [] = []
unescape_from zero run (c ∷ src) = []
unescape_from (suc cap) run (c ∷ src) =
    if leb 2 run && (c == 3)
    then unescape_from (suc cap) 0 src
    else c ∷ unescape_from cap (if c == 0 then run + 1 else 0) src

unfoldable pub rbsp_unescape : List ℕ → ℕ → List ℕ
rbsp_unescape src dst_cap = unescape_from dst_cap 0 src

-- The reference encoder (ITU-T H.264, 7.4.1): after two zero bytes a byte of at most 3 is preceded by
-- an emulation-prevention byte. `run` counts the zero bytes just written.
unfoldable pub escape_from : ℕ → List ℕ → List ℕ
escape_from run [] = []
escape_from run (c ∷ src) =
    let next = escape_from (if c == 0 then 1 else 0) src in
    let plain = escape_from (if c == 0 then run + 1 else 0) src in
    if leb 2 run && leb c 3 then 3 ∷ c ∷ next else c ∷ plain

-- Unescaping what an encoder escaped gives the payload back, if the room is not less than it needs.
pub unescape_from-escape_from :
    (cap run : ℕ) (src : List ℕ)
    → length src ≤ cap
    → unescape_from cap run (escape_from run src) ≡ src
unfolding unescape_from escape_from
unescape_from-escape_from cap run [] h = refl
unescape_from-escape_from zero run (c ∷ src) h = absurd (omega arith)
unescape_from-escape_from (suc cap) run (c ∷ src) h = ground (
  arith,
  unescape_from-escape_from cap (if c == 0 then 1 else 0) src,
  unescape_from-escape_from cap (if c == 0 then run + 1 else 0) src,
)

-- Never more than fits the destination, nor more than there was.
pub unescape_from-bound :
    (cap run : ℕ) (src : List ℕ)
    → (length (unescape_from cap run src) ≤ cap) × (length (unescape_from cap run src) ≤ length src)
unfolding unescape_from
unescape_from-bound cap run [] = omega arith
unescape_from-bound zero run (c ∷ src) = omega arith
unescape_from-bound (suc cap) run (c ∷ src) = ground (
  arith,
  unescape_from-bound (suc cap) 0 src,
  unescape_from-bound cap (if c == 0 then run + 1 else 0) src,
)
