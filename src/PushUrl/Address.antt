-- ===== src/PushUrl/Address.antt =====
-- The categories of addresses. An IPv4 address is a number in host order, an IPv6 one its 16 bytes.
use irl_srt_server.Prelude.{
  ℕ, ◌+◌, ◌-◌, ◌*◌, ◌/◌, ◌^◌, ◌<◌, ◌≡◌, refl, Bool, false, ◌&&◌, ◌||◌, List, [], ◌∷◌, arith, leb,
  ◌==◌, if◌then◌else◌,
}
use irl_srt_server.Prelude.Bytes.{at, field}
use irl_srt_server.Prelude.Keyed.{same_key}

-- `sockaddr`, by its family.
pub data Addr : Type 0 where
  v4 : ℕ → Addr
  v6 : List ℕ → Addr
  other : Addr

pub record Category : Type 0 where
  pub loopback : Bool
  pub link_local : Bool
  pub privnet : Bool

-- `x & (~0u << (32 - prefix))`, and 0 for no prefix at all.
abbrev pub masked : ℕ → ℕ → ℕ
masked prefix x = if prefix == 0 then 0 else x / 2 ^ (32 - prefix) * 2 ^ (32 - prefix)

-- The base is one of the literals below, which `inet_pton` reads.
unfoldable pub ipv4_in_cidr : ℕ → ℕ → ℕ → Bool
ipv4_in_cidr addr base prefix = masked prefix addr == masked prefix base

-- a.b.c.d
abbrev pub dotted : ℕ → ℕ → ℕ → ℕ → ℕ
dotted a b c d = a * 2 ^ 24 + b * 2 ^ 16 + c * 2 ^ 8 + d

unfoldable pub is_loopback_v4 : ℕ → Bool
is_loopback_v4 addr = ipv4_in_cidr addr (dotted 127 0 0 0) 8

unfoldable pub is_link_local_v4 : ℕ → Bool
is_link_local_v4 addr = ipv4_in_cidr addr (dotted 169 254 0 0) 16

unfoldable pub is_private_v4 : ℕ → Bool
is_private_v4 addr =
    ipv4_in_cidr addr (dotted 10 0 0 0) 8
    || ipv4_in_cidr addr (dotted 172 16 0 0) 12
    || ipv4_in_cidr addr (dotted 192 168 0 0) 16

-- ::1
unfoldable pub is_loopback_v6 : List ℕ → Bool
is_loopback_v6 a = same_key a (0 ∷ 0 ∷ 0 ∷ 0 ∷ 0 ∷ 0 ∷ 0 ∷ 0 ∷ 0 ∷ 0 ∷ 0 ∷ 0 ∷ 0 ∷ 0 ∷ 0 ∷ 1 ∷ [])

-- fe80::/10 and fc00::/7
unfoldable pub is_link_local_v6 : List ℕ → Bool
is_link_local_v6 a = (at a 0 == 0xfe) && (field 6 2 (at a 1) == 2)

unfoldable pub is_ula_v6 : List ℕ → Bool
is_ula_v6 a = field 1 7 (at a 0) == 0x7e

unfoldable pub categorize_addr : Addr → Category
categorize_addr (v4 v) = record {
  loopback = is_loopback_v4 v;
  link_local = is_link_local_v4 v;
  privnet = is_private_v4 v;
}
categorize_addr (v6 v) = record {
  loopback = is_loopback_v6 v;
  link_local = is_link_local_v6 v;
  privnet = is_ula_v6 v;
}
categorize_addr other = record { loopback = false; link_local = false; privnet = false }

abbrev pub is_internal : Category → Bool
is_internal c = c.loopback || c.link_local || c.privnet

abbrev pub between : ℕ → ℕ → ℕ → Bool
between low x high = leb low x && leb x high

-- The internal IPv4 addresses are the five ranges, from their first address to their last.
pub is_internal-v4 :
    (v : ℕ)
    → v < 2 ^ 32
    → is_internal (categorize_addr (v4 v)) ≡ (
        between (dotted 10 0 0 0) v (dotted 10 255 255 255)
        || between (dotted 127 0 0 0) v (dotted 127 255 255 255)
        || between (dotted 169 254 0 0) v (dotted 169 254 255 255)
        || between (dotted 172 16 0 0) v (dotted 172 31 255 255)
        || between (dotted 192 168 0 0) v (dotted 192 168 255 255))
unfolding categorize_addr is_loopback_v4 is_link_local_v4 is_private_v4 ipv4_in_cidr
is_internal-v4 v h = ground arith

-- Loopback, link-local and private addresses, by the first and the last of each range: those of RFC 1122,
-- 3927 and 1918, and of RFC 4291 and 4193. An IPv4 address that is mapped to IPv6 is not among them.
abbrev pub is_reserved : Addr → Bool
is_reserved (v4 v) =
    between (dotted 10 0 0 0) v (dotted 10 255 255 255)
    || between (dotted 127 0 0 0) v (dotted 127 255 255 255)
    || between (dotted 169 254 0 0) v (dotted 169 254 255 255)
    || between (dotted 172 16 0 0) v (dotted 172 31 255 255)
    || between (dotted 192 168 0 0) v (dotted 192 168 255 255)
is_reserved (v6 v) =
    same_key v (0 ∷ 0 ∷ 0 ∷ 0 ∷ 0 ∷ 0 ∷ 0 ∷ 0 ∷ 0 ∷ 0 ∷ 0 ∷ 0 ∷ 0 ∷ 0 ∷ 0 ∷ 1 ∷ [])
    || between 0xfc (at v 0) 0xfd
    || ((at v 0 == 0xfe) && between 0x80 (at v 1) 0xbf)
is_reserved other = false

pub is_reserved-internal :
    (a : Addr) → is_internal (categorize_addr a) ≡ false → is_reserved a ≡ false
unfolding categorize_addr is_loopback_v4 is_link_local_v4 is_private_v4 ipv4_in_cidr is_loopback_v6
    is_link_local_v6 is_ula_v6
is_reserved-internal (v4 v) h = ground (arith, h)
is_reserved-internal (v6 v) h = ground (arith, h)
is_reserved-internal other h = refl

-- ::ffff:a.b.c.d
abbrev pub mapped : ℕ → ℕ → ℕ → ℕ → List ℕ
mapped a b c d = 0 ∷ 0 ∷ 0 ∷ 0 ∷ 0 ∷ 0 ∷ 0 ∷ 0 ∷ 0 ∷ 0 ∷ 0xff ∷ 0xff ∷ a ∷ b ∷ c ∷ d ∷ []

-- No IPv6 address that maps an IPv4 one is internal, whichever address it maps.
pub is_internal-mapped : (a b c d : ℕ) → is_internal (categorize_addr (v6 (mapped a b c d))) ≡ false
unfolding categorize_addr is_loopback_v6 is_link_local_v6 is_ula_v6 same_key
is_internal-mapped a b c d = refl
