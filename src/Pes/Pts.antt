-- ===== src/Pes/Pts.antt =====
-- `ff_parse_pes_pts` against the layout of a time stamp in a PES header (ISO 13818-1), and against
-- `read_pts` of src/core/SLSTimecode.cpp, which reads the same five bytes.
use native.Mathlib.Nat.{pow-suc}
use irl_srt_server.Prelude.{
  ℕ, zero, suc, ◌+◌, ◌*◌, ◌/◌, ◌%◌, ◌^◌, ◌≤◌, ◌<◌, ◌≡◌, ap, ◌∙◌, some, List, [], ◌∷◌, arith,
}
use irl_srt_server.Prelude.Int.{pos}
use irl_srt_server.Prelude.Bytes.{field, lor}
use irl_srt_server.Pes.{pts_of, ff_parse_pes_pts, extend}
use irl_srt_server.Timecode.Scan.{read_pts}

-- The five bytes of a stamp: a prefix of four bits, then 3, 15 and 15 bits, each with a marker bit.
unfoldable pub encode_pts : ℕ → ℕ → List ℕ
encode_pts prefix t =
    (prefix * 16 + t / 2 ^ 30 % 8 * 2 + 1)
    ∷ (t / 2 ^ 22 % 2 ^ 8)
    ∷ (t / 2 ^ 15 % 2 ^ 7 * 2 + 1)
    ∷ (t / 2 ^ 7 % 2 ^ 8)
    ∷ (t % 2 ^ 7 * 2 + 1)
    ∷ []

lor-zero : (w a : ℕ) → a < 2 ^ w → lor w a 0 ≡ a
unfolding lor
lor-zero zero a h = omega (arith, h)
lor-zero (suc w) a h = omega (arith, pow-suc 2 w, lor-zero w (a / 2) (omega (arith, pow-suc 2 w)))

-- Numbers without a bit in common.
lor-disjoint :
    (w k a b : ℕ) → b < 2 ^ k → a * 2 ^ k < 2 ^ w → k ≤ w → lor w (a * 2 ^ k) b ≡ a * 2 ^ k + b
unfolding lor
lor-disjoint zero zero a b hb ha le = omega arith
lor-disjoint zero (suc k) a b hb ha le = absurd (omega arith)
lor-disjoint (suc w) zero a zero hb ha le =
    let half : lor w (a * 1 / 2) 0 ≡ a * 1 / 2 =
      lor-zero w (a * 1 / 2) (omega (arith, pow-suc 2 w)) in
    omega (arith, half)
lor-disjoint (suc w) zero a (suc b) hb ha le = absurd (omega arith)
lor-disjoint (suc w) (suc k) a b hb ha le =
    let twice : a * 2 ^ suc k ≡ a * 2 ^ k * 2 = rw (pow-suc 2 k) (omega arith) in
    let half : a * 2 ^ suc k / 2 ≡ a * 2 ^ k = omega arith in
    let rest : lor w (a * 2 ^ k) (b / 2) ≡ a * 2 ^ k + b / 2 =
      lor-disjoint w k a (b / 2) (omega (arith, pow-suc 2 k)) (omega (arith, pow-suc 2 w))
        (omega arith) in
    rw half (omega (arith, rest))

zero-lor : (w a : ℕ) → a < 2 ^ w → lor w 0 a ≡ a
unfolding lor
zero-lor zero a h = omega arith
zero-lor (suc w) a h = omega (arith, pow-suc 2 w, zero-lor w (a / 2) (omega (arith, pow-suc 2 w)))

pts_of-eq :
    (b0 b1 b2 b3 b4 : ℕ)
    → field 1 3 b0 ≡ 0
    → b1 < 2 ^ 8
    → b2 < 2 ^ 8
    → b3 < 2 ^ 8
    → b4 < 2 ^ 8
    → pts_of b0 b1 b2 b3 b4 ≡ pos ((b1 * 2 ^ 8 + b2 / 2) * 2 ^ 15 + (b3 * 2 ^ 8 + b4) / 2)
unfolding pts_of
pts_of-eq b0 b1 b2 b3 b4 h0 h1 h2 h3 h4 =
    let high : extend (field 1 3 b0 * 2 ^ 30 % 2 ^ 32) ≡ 0 = ground (arith, h0) in
    let inner : lor 64 (b1 % 2 ^ 8 * 2 ^ 8) (b2 / 2) ≡ b1 * 2 ^ 8 + b2 / 2 =
      lor-disjoint 64 8 (b1 % 2 ^ 8) (b2 / 2) (omega arith) (omega arith) (omega arith)
      ∙ omega arith in
    let low : lor 64 (b3 % 2 ^ 8 * 2 ^ 8) b4 ≡ b3 * 2 ^ 8 + b4 =
      lor-disjoint 64 8 (b3 % 2 ^ 8) b4 (omega arith) (omega arith) (omega arith) ∙ omega arith in
    let middle : lor 64 0 ((b1 * 2 ^ 8 + b2 / 2) * 2 ^ 15) ≡ (b1 * 2 ^ 8 + b2 / 2) * 2 ^ 15 =
      zero-lor 64 ((b1 * 2 ^ 8 + b2 / 2) * 2 ^ 15) (omega arith) in
    let outer : lor 64 ((b1 * 2 ^ 8 + b2 / 2) * 2 ^ 15) ((b3 * 2 ^ 8 + b4) / 2)
        ≡ (b1 * 2 ^ 8 + b2 / 2) * 2 ^ 15 + (b3 * 2 ^ 8 + b4) / 2 =
      lor-disjoint 64 15 (b1 * 2 ^ 8 + b2 / 2) ((b3 * 2 ^ 8 + b4) / 2) (omega arith) (omega arith)
        (omega arith) in
    rw (high, inner, low, middle, outer) (ground arith)

-- A stamp below 2^30 decodes with its upper bits doubled: bits 22 to 29 are read one place too high.
pub ff_parse_pes_pts-encode :
    (prefix t : ℕ)
    → prefix < 16
    → t < 2 ^ 30
    → ff_parse_pes_pts (encode_pts prefix t) 5 ≡ some (pos (t % 2 ^ 22 + t / 2 ^ 22 * 2 ^ 23))
unfolding ff_parse_pes_pts encode_pts
ff_parse_pes_pts-encode prefix t hp ht = ap some (
    pts_of-eq (prefix * 16 + t / 2 ^ 30 % 8 * 2 + 1) (t / 2 ^ 22 % 2 ^ 8)
      (t / 2 ^ 15 % 2 ^ 7 * 2 + 1) (t / 2 ^ 7 % 2 ^ 8) (t % 2 ^ 7 * 2 + 1) (omega arith)
      (omega arith) (omega arith) (omega arith) (omega arith)
    ∙ ap pos (omega arith))

-- `read_pts` reads every stamp right.
pub read_pts-encode : (prefix t : ℕ) → prefix < 16 → t < 2 ^ 33 → read_pts (encode_pts prefix t) ≡ t
unfolding read_pts encode_pts
read_pts-encode prefix t hp ht = omega arith
