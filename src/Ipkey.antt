-- ===== src/Ipkey.antt =====
-- internal/ipkey/ipkey.go: the addresses, prefixes and ranges that a request names.
mod Runs
pub mod Prefixes
pub mod Exact
use bgp_api.Base.{
  ℕ, zero, suc, ◌+◌, ◌-◌, ◌*◌, ◌/◌, ◌%◌, ◌^◌, Bytes, Bool, true, false, not, ◌&&◌, ◌||◌, List, [],
  ◌∷◌, ◌++◌, length, replicate, leb, ltb, ◌==◌, if◌then◌else◌, Option, none, some,
}
use bgp_api.Golang.BigInt.{low_bit, bit_len, fill_bytes}
use bgp_api.Golang.ByteSlice.{number}
use bgp_api.Golang.Decimal.{decimal}
use bgp_api.Golang.Netip.{Addr, v4, v6, is4, as16, zone_of, Texts, Prefix, masked}
use bgp_api.Golang.Text.{trim_space, natural, masked_number, codes}
use bgp_api.Boltstore.Ranges.{block_size}

pub record Parsed : Type 0 where
  pub canonical : Bytes
  pub version : ℕ
  pub sort_key : Bytes

pub record RuntimeIp : Type 0 where
  pub address : Addr
  pub canonical : Bytes
  pub version : ℕ

pub record ParsedPrefix : Type 0 where
  pub canonical : Bytes
  pub version : ℕ
  pub prefix_length : ℕ
  pub start : Parsed
  pub end : Parsed
  pub address_count : Bytes

pub record ParsedRange : Type 0 where
  pub start : Parsed
  pub end : Parsed
  pub version : ℕ
  pub address_count : Bytes

-- The bytes of an address: As4 of an IPv4 address.
abbrev pub bytes_of : Addr → Bytes
bytes_of (v4 bytes) = bytes
bytes_of (v6 bytes zone) = bytes

abbrev sort_key_width : ℕ
sort_key_width = 39

-- `%0*s`
unfoldable pub pad : ℕ → Bytes
unfolding decimal
pad value = replicate (sort_key_width - length (decimal value)) b'0' ++ decimal value

-- The bits of ipv4Mapped, ::ffff:0:0, set.
abbrev pub or_mapped : ℕ → ℕ
or_mapped value = value / 2 ^ 48 * 2 ^ 48 + 0xffff * 2 ^ 32 + value % 2 ^ 32

unfoldable pub prefix_key : ℕ → ℕ → ℕ → Bytes
unfolding decimal pad
prefix_key version value length' =
    decimal version ++ (codes ":" ++ (pad value ++ (codes "/" ++ decimal length')))

abbrev or_zero : Option ℕ → ℕ
or_zero none = 0
or_zero (some value) = value

-- SetString, and zero where it fails; no sort key that a parser gives is negative.
unfoldable pub address_value : Parsed → ℕ
unfolding natural masked_number
address_value ip =
    if ip.version == 4
    then or_zero (masked_number 32 ip.sort_key)
    else or_zero (natural ip.sort_key)

unfoldable pub address_value_with_mapping : ℕ → ℕ → ℕ
address_value_with_mapping value version = if version == 4 then or_mapped value else value

unfoldable pub range_of : Parsed → Parsed → Option ParsedRange
unfolding address_value decimal
range_of start end =
    if not (start.version == end.version) || ltb (address_value end) (address_value start)
    then none
    else some (record {
      start = start;
      end = end;
      version = start.version;
      address_count = decimal (address_value end - address_value start + 1);
    })

-- The length of the prefix that is exactly the range from `start` to `end`. A count is a power of two
-- when its lowest bit is its highest.
unfoldable pub range_prefix_length : ℕ → ℕ → ℕ → Option ℕ
range_prefix_length bits start end =
    let count = end + 1 - start in
    let length' = bits - (bit_len count - 1) in
    if ltb end start || not (2 ^ (bit_len count - 1) == low_bit count)
    then none
    else if ltb bits (bit_len count - 1)
    then none
    else if not (start % count == 0)
    then none
    else some length'

module _ (texts : Texts) where
  unfoldable pub parse_runtime : Bytes → Option RuntimeIp
  unfolding trim_space
  parse_runtime input = elim (texts.parse_addr (trim_space input)) [
    | none ↦ none
    | some address ↦
        if not (length (zone_of address) == 0)
        then none
        else some (record {
          address = address;
          canonical = texts.addr_text address;
          version = if is4 address then 4 else 6;
        })
  ]

  abbrev pub parsed_of : RuntimeIp → Parsed
  parsed_of ip = record {
    canonical = ip.canonical;
    version = ip.version;
    sort_key = pad (
        if ip.version == 4
        then or_mapped (number (bytes_of ip.address))
        else number (as16 ip.address));
  }

  unfoldable pub parse : Bytes → Option Parsed
  unfolding parse_runtime pad number
  parse input = elim (parse_runtime input) [ none ↦ none | some ip ↦ some (parsed_of ip) ]

  -- FillBytes panics on a number that does not fit; no text comes of that.
  unfoldable pub sort_key_to_ip : Bytes → ℕ → Option Bytes
  unfolding natural fill_bytes
  sort_key_to_ip sort_key version = elim (natural sort_key) [
    | none ↦ some []
    | some value ↦
        if version == 4
        then some (texts.addr_text (v4 (fill_bytes 4 (value % 2 ^ 32))))
        else if ltb value (2 ^ 128)
        then some (texts.addr_text (v6 (fill_bytes 16 value) []))
        else none
  ]

  -- `none` stands for a panic of SortKeyToIP, `some none` for an input that is refused.
  unfoldable pub parse_prefix : Bytes → Option (Option ParsedPrefix)
  unfolding trim_space masked parse pad decimal address_value address_value_with_mapping
      sort_key_to_ip
  parse_prefix input = elim (texts.parse_prefix (trim_space input)) [
    | none ↦ some none
    | some given ↦
        let prefix = masked given in
        let scoped = not (length (zone_of given.addr) == 0) in
        let bits = if is4 prefix.addr then 32 else 128 in
        let version = if is4 prefix.addr then 4 else 6 in
        let count = 2 ^ (bits - prefix.bits) in
        elim (parse (texts.addr_text prefix.addr)) [
          | none ↦ some none
          | some start ↦
              if scoped || ltb bits prefix.bits
              then some none
              else (let key =
                    pad (address_value_with_mapping (address_value start + (count - 1)) version) in
                  elim (sort_key_to_ip key version) [
                    | none ↦ none
                    | some canonical ↦ some (
                        some (record {
                          canonical = texts.prefix_text prefix;
                          version = version;
                          prefix_length = prefix.bits;
                          start = start;
                          end = record { canonical = canonical; version = version; sort_key = key };
                          address_count = decimal count;
                        }))
                  ])
        ]
  ]

  unfoldable pub parse_range : Bytes → Bytes → Option ParsedRange
  unfolding parse range_of
  parse_range start_input end_input = elim (parse start_input) [
    | none ↦ none
    | some start ↦ elim (parse end_input) [ none ↦ none | some end ↦ range_of start end ]
  ]

  unfoldable pub prefix_for_range : ParsedRange → Option (Option ParsedPrefix)
  unfolding range_prefix_length address_value parse_prefix decimal
  prefix_for_range value =
      elim (range_prefix_length (if value.version == 4 then 32 else 128) (address_value value.start)
        (address_value value.end)) [
          | none ↦ some none
          | some length' ↦ parse_prefix (value.start.canonical ++ (codes "/" ++ decimal length'))
        ]

  unfoldable pub summary_prefix_keys : ParsedRange → Option (Option (List Bytes))
  unfolding prefix_for_range
  summary_prefix_keys value =
      if not (value.version == 4) then some none else elim (prefix_for_range value) [
        | none ↦ none
        | some none ↦ some none
        | some (some prefix) ↦
            if ltb 16 prefix.prefix_length then some none else some (some (prefix.canonical ∷ []))
      ]

pub record RangePrefix : Type 0 where
  pub key : Bytes
  pub length : ℕ

-- Each round takes one address at least.
unfoldable pub prefixes_loop : ℕ → ℕ → ℕ → ℕ → ℕ → List RangePrefix
prefixes_loop zero version bits current last = []
prefixes_loop (suc fuel) version bits current last =
    let block = block_size bits current last in
    let length' = bits - (bit_len block - 1) in
    let rest = prefixes_loop fuel version bits (current + block) last in
    let full = if version == 4 then or_mapped current else current in
    if leb current last
    then record { key = prefix_key version full length'; length = length' } ∷ rest
    else []

-- `none` for a bound that is not a number, or a start above the end.
unfoldable pub range_to_prefixes : Bytes → Bytes → ℕ → Option (List RangePrefix)
unfolding masked_number
range_to_prefixes start_sort_key end_sort_key version =
    let bits = if version == 4 then 32 else 128 in
    elim (masked_number bits start_sort_key) [
      | none ↦ none
      | some first ↦ elim (masked_number bits end_sort_key) [
        | none ↦ none
        | some last ↦
            if ltb last first
            then none
            else some (prefixes_loop (last + 1 - first) version bits first last)
      ]
    ]

-- The keys of the prefixes from the given length down to zero.
unfoldable pub keys_loop : ℕ → ℕ → ℕ → ℕ → List Bytes
unfolding prefix_key
keys_loop version bits value zero = []
keys_loop version bits value (suc length') =
    let network = value / 2 ^ (bits - length') * 2 ^ (bits - length') in
    let full = if version == 4 then or_mapped network else network in
    prefix_key version full length' ∷ keys_loop version bits value length'

-- A sort key that is no number makes SetString's result nil, whose And panics.
unfoldable pub prefix_keys_for_ip : Parsed → Option (List Bytes)
unfolding masked_number keys_loop
prefix_keys_for_ip ip =
    let bits = if ip.version == 4 then 32 else 128 in
    elim (masked_number bits ip.sort_key) [
      | none ↦ none
      | some value ↦ some (keys_loop ip.version bits value (suc bits))
    ]
