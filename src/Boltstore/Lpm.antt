-- ===== src/Boltstore/Lpm.antt =====
-- internal/boltstore/route_lpm.go: bits of addresses, counted from the first bit that a version uses.
mod Runs
pub mod Xor
pub mod Common
pub mod Prefix
pub mod Masked
use Prim.Native.Nat.{bit_xor, min}
use bgp_api.Base.{
  ℕ, zero, suc, ◌+◌, ◌-◌, ◌*◌, ◌/◌, ◌%◌, ◌^◌, Bool, Bytes, List, [], ◌∷◌, ◌++◌, take, drop,
  replicate, get_or, leb, ltb, ◌==◌, if◌then◌else◌, Option, none, some,
}
use bgp_api.Boltstore.Keys.{Address}

-- Where the bytes that a version uses begin, and how many bits they have.
abbrev pub offset_of : ℕ → ℕ
offset_of version = if version == 4 then 12 else 0

abbrev pub width_of : ℕ → ℕ
width_of version = if version == 4 then 32 else 128

unfoldable pub route_lpm_bit : Address → ℕ → ℕ → ℕ
route_lpm_bit value version bit =
    get_or value (offset_of version + bit / 8) 0 / 2 ^ (7 - bit % 8) % 2

-- bits.LeadingZeros8
abbrev pub leading_zeros8 : ℕ → ℕ
leading_zeros8 x =
    if leb 128 x
    then 0
    else if leb 64 x
    then 1
    else if leb 32 x
    then 2
    else if leb 16 x
    then 3
    else if leb 8 x
    then 4
    else if leb 4 x
    then 5
    else if leb 2 x
    then 6
    else if leb 1 x
    then 7
    else 8

-- The loop over whole bytes: the first bit in which two bytes differ, if some do.
unfoldable pub byte_loop : ℕ → ℕ → ℕ → Address → Address → Option ℕ
byte_loop zero index offset left right = none
byte_loop (suc rounds) index offset left right =
    let rest = byte_loop rounds (index + 1) offset left right in
    let difference = bit_xor (get_or left (offset + index) 0) (get_or right (offset + index) 0) in
    if difference == 0 then rest else some (index * 8 + leading_zeros8 difference)

-- The loop over the bits that are left, which ends at the limit.
unfoldable pub bit_loop : ℕ → ℕ → ℕ → Address → Address → ℕ
unfolding route_lpm_bit
bit_loop zero bit version left right = bit
bit_loop (suc rounds) bit version left right =
    let rest = bit_loop rounds (bit + 1) version left right in
    if route_lpm_bit left version bit == route_lpm_bit right version bit then rest else bit

unfoldable pub route_lpm_common_prefix : Address → ℕ → Address → ℕ → ℕ → ℕ
unfolding byte_loop bit_loop
route_lpm_common_prefix left left_length right right_length version =
    let limit = if ltb right_length left_length then right_length else left_length in
    let full_bytes = limit / 8 in
    elim (byte_loop full_bytes 0 (offset_of version) left right) [
      | some bit ↦ bit
      | none ↦ bit_loop (limit - full_bytes * 8) (full_bytes * 8) version left right
    ]

-- The byte of the cut, and the bytes behind it.
unfoldable pub masked_route_lpm_address : Address → ℕ → ℕ → Address
masked_route_lpm_address value version length =
    if leb (width_of version) length
    then value
    else let whole = offset_of version + length / 8 in
      let cut = 2 ^ (8 - length % 8) in
      let middle = get_or value whole 0 / cut * cut in
      if length % 8 == 0
      then take whole value ++ replicate (16 - whole) 0
      else take whole value ++ (middle ∷ replicate (15 - whole) 0)

unfoldable pub route_lpm_address_matches : Address → Address → ℕ → ℕ → Bool
route_lpm_address_matches address prefix version length =
    route_lpm_common_prefix address length prefix length version == length
