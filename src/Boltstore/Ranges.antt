-- ===== src/Boltstore/Ranges.antt =====
-- internal/boltstore/build.go: the prefixes that a range of addresses splits into.
mod Runs
pub mod Blocks
pub mod Cover
use bgp_api.Base.{
  ℕ, zero, suc, ◌+◌, ◌-◌, ◌*◌, ◌/◌, ◌^◌, Bytes, List, [], ◌∷◌, drop, leb, ltb, ◌==◌, if◌then◌else◌,
}
use bgp_api.Golang.BigInt.{low_bit, bit_len, fill_bytes}
use bgp_api.Golang.ByteSlice.{number}
use bgp_api.Golang.Netip.{Addr, v4, v6, Prefix}
use bgp_api.Boltstore.Keys.{Address}

-- `for blockSize.Cmp(remaining) > 0 { blockSize.Rsh(blockSize, 1) }`, in at most 129 rounds.
unfoldable pub shrink : ℕ → ℕ → ℕ → ℕ
shrink zero block remaining = block
shrink (suc fuel) block remaining =
    let smaller = shrink fuel (block / 2) remaining in
    if ltb remaining block then smaller else block

-- The block that starts at `current` and does not pass `last`.
unfoldable pub block_size : ℕ → ℕ → ℕ → ℕ
unfolding shrink low_bit
block_size bits current last =
    let largest = if current == 0 then 2 ^ bits else low_bit current in
    shrink 129 largest (last - current + 1)

unfoldable pub prefix_from : ℕ → ℕ → ℕ → Prefix
unfolding fill_bytes
prefix_from version current length = record {
  addr = if version == 4 then v4 (fill_bytes 4 current) else v6 (fill_bytes 16 current) [];
  bits = length;
}

-- Each round takes one address at least.
unfoldable pub range_loop : ℕ → ℕ → ℕ → ℕ → ℕ → List Prefix
range_loop zero version bits current last = []
range_loop (suc fuel) version bits current last =
    let block = block_size bits current last in
    let length = bits - (bit_len block - 1) in
    let rest = range_loop fuel version bits (current + block) last in
    if leb current last then prefix_from version current length ∷ rest else []

unfoldable pub range_prefixes : Address → Address → ℕ → List Prefix
unfolding range_loop number
range_prefixes start end version =
    let bits = if version == 4 then 32 else 128 in
    let current = number (if version == 4 then drop 12 start else start) in
    let last = number (if version == 4 then drop 12 end else end) in
    range_loop (last + 1 - current) version bits current last
