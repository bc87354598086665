-- ===== src/Ipkey/Runs.antt =====
-- internal/ipkey/ipkey.go: the range from 10.0.1.0 to 10.0.1.255.
use bgp_api.Base.{◌≡◌, ◌↔◌, refl, arith, [], ◌∷◌, ◌++◌, map, replicate, some}
use bgp_api.Golang.BigInt.{bit_len, bit_len_loop, low_bit, low_bit_loop}
use bgp_api.Golang.ByteSlice.{number}
use bgp_api.Golang.Text.{codes, natural, digits, digits_loop}
use bgp_api.Boltstore.Keys.{Address}
use bgp_api.Boltstore.Keys.Order.{ipv4-IsAddress}
use bgp_api.Boltstore.Ranges.{range_prefixes}
use bgp_api.Boltstore.Ranges.Cover.{ipv4}
use bgp_api.Ipkey.{range_to_prefixes, range_prefix_length}
use bgp_api.Ipkey.Prefixes.{key_of, range_to_prefixes-range_prefixes}
use bgp_api.Ipkey.Exact.{IsPrefixRange, range_prefix_length-IsPrefixRange}

abbrev low : Address
low = replicate 12 0 ++ (10 ∷ 0 ∷ 1 ∷ 0 ∷ [])

abbrev high : Address
high = replicate 12 0 ++ (10 ∷ 0 ∷ 1 ∷ 255 ∷ [])

reads_low : natural (codes "167772416") ≡ some 167772416
unfolding natural digits digits_loop
reads_low = refl

reads_high : natural (codes "167772671") ≡ some 167772671
unfolding natural digits digits_loop
reads_high = refl

range_to_prefixes-range_prefixes_example :
    range_to_prefixes (codes "167772416") (codes "167772671") 4
    ≡ some (map (key_of 4) (range_prefixes low high 4))
unfolding number
range_to_prefixes-range_prefixes_example =
    range_to_prefixes-range_prefixes low high (codes "167772416") (codes "167772671") 167772416
      167772671 ipv4
      (ipv4-IsAddress 10 0 1 255 (omega arith) (omega arith) (omega arith) (omega arith)) reads_low
      reads_high refl refl (omega arith)

finds_length : range_prefix_length 32 167772416 167772671 ≡ some 24
unfolding range_prefix_length bit_len bit_len_loop low_bit low_bit_loop
finds_length = refl

range_prefix_length-IsPrefixRange_example :
    (range_prefix_length 32 167772416 167772671 ≡ some 24) ↔ IsPrefixRange 32 167772416 167772671 24
range_prefix_length-IsPrefixRange_example =
    range_prefix_length-IsPrefixRange 32 167772416 167772671 24 (omega arith) (omega arith)
      (omega arith)
