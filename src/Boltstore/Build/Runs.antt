-- ===== src/Boltstore/Build/Runs.antt =====
-- A row of a CSV file with the range from 10.0.0.0 to 10.0.0.255.
use bgp_api.Base.{◌≡◌, refl, [], ◌∷◌, ◌++◌, replicate, some}
use bgp_api.Golang.BigInt.{fill_bytes, bit_len, bit_len_loop}
use bgp_api.Golang.ByteSlice.{compare_bytes}
use bgp_api.Golang.Text.{
  codes, natural, digits, digits_loop, trim_space, trim_left, trim_right, trim_prefix, to_upper,
  parse_uint,
}
use bgp_api.Boltstore.Keys.{Address}
use bgp_api.Boltstore.Build.{parse_range, address_from_sort_key, parse_asn}
use bgp_api.Boltstore.Build.Bounds.{IsRange, parse_range-IsRange}

abbrev first : Address
first = replicate 12 0 ++ (10 ∷ 0 ∷ 0 ∷ 0 ∷ [])

abbrev final : Address
final = replicate 12 0 ++ (10 ∷ 0 ∷ 0 ∷ 255 ∷ [])

test_range :
    parse_range (codes "281470849515520") (codes "281470849515775") (codes " 4")
    ≡ some (4, first, final)
unfolding parse_range address_from_sort_key compare_bytes natural digits digits_loop trim_space
    trim_left trim_right fill_bytes bit_len bit_len_loop
test_range = refl

test_asn : parse_asn (codes " as64496") ≡ 64496
unfolding parse_asn trim_prefix to_upper trim_space trim_left trim_right parse_uint digits
    digits_loop compare_bytes
test_asn = refl

parse_range-IsRange_example : IsRange 4 first final
parse_range-IsRange_example =
    parse_range-IsRange (codes "281470849515520") (codes "281470849515775") (codes " 4") test_range
