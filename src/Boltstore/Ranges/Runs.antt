-- ===== src/Boltstore/Ranges/Runs.antt =====
-- The prefixes of the range from 10.0.0.1 to 10.0.0.6.
use bgp_api.Base.{◌≡◌, refl, [], ◌∷◌, ◌++◌, replicate, leb, ◌&&◌, if◌then◌else◌, All, arith}
use bgp_api.Golang.BigInt.{low_bit, bit_len, fill_bytes}
use bgp_api.Golang.ByteSlice.{number}
use bgp_api.Golang.Netip.{v4}
use bgp_api.Boltstore.Keys.{Address}
use bgp_api.Boltstore.Keys.Order.{IsAddress, ipv4-IsAddress}
use bgp_api.Boltstore.Ranges.{range_prefixes, range_loop, block_size, shrink, prefix_from}
use bgp_api.Boltstore.Ranges.Cover.{
  count_containing, address_number, ipv4, IsCanonical, range_prefixes_cover,
  range_prefixes-IsCanonical,
}

abbrev first : Address
first = replicate 12 0 ++ (10 ∷ 0 ∷ 0 ∷ 1 ∷ [])

abbrev final : Address
final = replicate 12 0 ++ (10 ∷ 0 ∷ 0 ∷ 6 ∷ [])

final-IsAddress : IsAddress final
final-IsAddress = ipv4-IsAddress 10 0 0 6 (omega arith) (omega arith) (omega arith) (omega arith)

six_addresses : range_prefixes first final 4 ≡ (
    record { addr = v4 (10 ∷ 0 ∷ 0 ∷ 1 ∷ []); bits = 32 }
    ∷ record { addr = v4 (10 ∷ 0 ∷ 0 ∷ 2 ∷ []); bits = 31 }
    ∷ record { addr = v4 (10 ∷ 0 ∷ 0 ∷ 4 ∷ []); bits = 31 }
    ∷ record { addr = v4 (10 ∷ 0 ∷ 0 ∷ 6 ∷ []); bits = 32 }
    ∷ [])
unfolding range_prefixes number range_loop block_size shrink low_bit bit_len prefix_from fill_bytes
six_addresses = refl

range_prefixes_cover_example : count_containing 32 (range_prefixes first final 4) 0x0a000003 ≡ (
    if leb (address_number 4 first) 0x0a000003 && leb 0x0a000003 (address_number 4 final)
    then 1
    else 0)
range_prefixes_cover_example = range_prefixes_cover first final 0x0a000003 ipv4 final-IsAddress

range_prefixes-IsCanonical_example : All (IsCanonical 32) (range_prefixes first final 4)
range_prefixes-IsCanonical_example = range_prefixes-IsCanonical first final ipv4 final-IsAddress
