-- ===== src/Boltstore/Build.antt =====
-- internal/boltstore/build.go: what the builder reads from a row of a CSV file.
mod Runs
pub mod Bounds
use bgp_api.Base.{
  ℕ, zero, suc, ◌+◌, ◌-◌, ◌*◌, ◌/◌, ◌%◌, ◌^◌, Bool, true, false, not, ◌&&◌, ◌||◌, Bytes, List, [],
  ◌∷◌, ◌++◌, length, take, drop, get_or, get_elem?, replicate, leb, ltb, ◌==◌, if◌then◌else◌,
  Option, none, some,
}
use Prim.Native.Nat.{Ordering}
use bgp_api.Golang.BigInt.{fill_bytes, bit_len}
use bgp_api.Golang.ByteSlice.{compare_bytes}
use bgp_api.Golang.Netip.{is4, Prefix, masked}
use bgp_api.Golang.Text.{codes, trim_space, to_upper, trim_prefix, parse_uint, natural}
use bgp_api.Boltstore.Keys.{Address, address_from_addr}

-- An ID for the record behind `count` others; `none` is the error.
unfoldable pub next_record_id : ℕ → Option ℕ
next_record_id count = if leb (2 ^ 32 - 1) count then none else some (count + 1)

-- A field of a row, empty where the row is too short.
unfoldable pub at : List Bytes → ℕ → Bytes
unfolding trim_space
at row index = trim_space (get_or row index [])

-- Zero for a text that is no AS number.
unfoldable pub parse_asn : Bytes → ℕ
unfolding trim_prefix to_upper trim_space parse_uint
parse_asn value = elim (parse_uint (trim_prefix (to_upper (trim_space value)) (codes "AS")) 32) [
  | none ↦ 0
  | some number ↦ number
]

-- A decimal number of at most 128 bits in sixteen bytes; the first twelve are cleared for IPv4.
unfoldable pub address_from_sort_key : Bytes → ℕ → Option Address
address_from_sort_key value version = elim (natural (trim_space value)) [
  | none ↦ none
  | some number ↦
      if ltb 128 (bit_len number)
      then none
      else some (
          if version == 4
          then replicate 12 0 ++ drop 12 (fill_bytes 16 number)
          else fill_bytes 16 number)
]

-- The version, which strconv.Atoi reads, with a sign or without.
abbrev pub version_of : Bytes → Option ℕ
version_of text = elim (natural (trim_space text)) [
  | none ↦ none
  | some version ↦ if version == 4 || version == 6 then some version else none
]

unfoldable pub parse_range : Bytes → Bytes → Bytes → Option (ℕ × Address × Address)
parse_range start_value end_value version_value = elim (version_of version_value) [
  | none ↦ none
  | some version ↦ elim (address_from_sort_key start_value version) [
    | none ↦ none
    | some start ↦ elim (address_from_sort_key end_value version) [
      | none ↦ none
      | some end ↦ elim (compare_bytes start end) [
        | Ordering.gt ↦ none
        | _ ↦ some (version, start, end)
      ]
    ]
  ]
]

-- `end[index] |= 1 << shift`, a bit that may be set already.
abbrev pub set_bit : Address → ℕ → ℕ → Address
set_bit value index shift =
    let b = get_or value index 0 in
    let b' = if b / 2 ^ shift % 2 == 1 then b else b + 2 ^ shift in
    take index value ++ (b' ∷ drop (index + 1) value)

-- `for bit := prefix.Bits(); bit < bits; bit++`
unfoldable pub set_bits : ℕ → ℕ → ℕ → Address → Address
set_bits zero bit offset value = value
set_bits (suc rounds) bit offset value =
    set_bits rounds (bit + 1) offset (set_bit value (offset + bit / 8) (7 - bit % 8))

unfoldable pub prefix_range : Prefix → Address × Address
unfolding set_bits masked address_from_addr
prefix_range prefix =
    let prefix' = masked prefix in
    let start = address_from_addr prefix'.addr in
    let bits = if is4 prefix'.addr then 32 else 128 in
    let offset = if is4 prefix'.addr then 12 else 0 in
    (start, set_bits (bits - prefix'.bits) prefix'.bits offset start)
