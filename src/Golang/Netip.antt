-- ===== src/Golang/Netip.antt =====
-- Package net/netip: addresses and prefixes, as internal/boltstore and internal/ipkey use them.
use bgp_api.Base.{
  ℕ, ◌-◌, ◌*◌, ◌/◌, ◌^◌, Bytes, Bool, true, false, [], ◌∷◌, ◌++◌, take, drop, leb, if◌then◌else◌,
  replicate, Option,
}
use bgp_api.Golang.ByteSlice.{bytes_equal, compare_bytes}

-- An IPv4 address has four bytes; an IPv6 address sixteen bytes and a zone, mostly empty.
pub data Addr : Type 0 where
  v4 : Bytes → Addr
  v6 : Bytes → Bytes → Addr

abbrev pub is4 : Addr → Bool
is4 (v4 bytes) = true
is4 (v6 bytes zone) = false

abbrev pub is6 : Addr → Bool
is6 (v4 bytes) = false
is6 (v6 bytes zone) = true

abbrev pub zone_of : Addr → Bytes
zone_of (v4 bytes) = []
zone_of (v6 bytes zone) = zone

-- The first twelve bytes of an IPv4-mapped IPv6 address, ::ffff:0:0/96.
abbrev pub mapped_prefix : Bytes
mapped_prefix = replicate 10 0 ++ (0xff ∷ 0xff ∷ [])

-- Unmap, which turns an IPv4-mapped IPv6 address into the IPv4 address.
unfoldable pub unmap : Addr → Addr
unfolding compare_bytes
unmap (v4 bytes) = v4 bytes
unmap (v6 bytes zone) =
    if bytes_equal (take 12 bytes) mapped_prefix then v4 (drop 12 bytes) else v6 bytes zone

-- As16
abbrev pub as16 : Addr → Bytes
as16 (v4 bytes) = mapped_prefix ++ bytes
as16 (v6 bytes zone) = bytes

-- BitLen
abbrev pub bit_len : Addr → ℕ
bit_len (v4 bytes) = 32
bit_len (v6 bytes zone) = 128

-- A prefix with a length that fits its address.
pub record Prefix : Type 0 where
  pub addr : Addr
  pub bits : ℕ

-- The bytes with all bits from the `bits`-th on cleared.
unfoldable pub clear_from : ℕ → Bytes → Bytes
clear_from bits [] = []
clear_from bits (b ∷ bs) =
    (if leb 8 bits then b else b / 2 ^ (8 - bits) * 2 ^ (8 - bits)) ∷ clear_from (bits - 8) bs

abbrev pub masked_addr : Addr → ℕ → Addr
masked_addr (v4 bytes) bits = v4 (clear_from bits bytes)
masked_addr (v6 bytes zone) bits = v6 (clear_from bits bytes) []

-- Masked, which drops a zone too.
unfoldable pub masked : Prefix → Prefix
masked p = record { addr = masked_addr p.addr p.bits; bits = p.bits }

-- The texts of addresses and prefixes: String, ParseAddr and ParsePrefix.
pub record Texts : Type 0 where
  pub addr_text : Addr → Bytes
  pub parse_addr : Bytes → Option Addr
  pub prefix_text : Prefix → Bytes
  pub parse_prefix : Bytes → Option Prefix
