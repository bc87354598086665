-- ===== src/Boltstore/Lpm/Runs.antt =====
-- The bits of two addresses at concrete addresses.
use bgp_api.Base.{[], ◌∷◌, ◌++◌, replicate, arith}
use bgp_api.Boltstore.Keys.{Address}
use bgp_api.Boltstore.Keys.Order.{IsAddress, ipv4-IsAddress}
use bgp_api.Boltstore.Lpm.{masked_route_lpm_address, route_lpm_common_prefix}
use bgp_api.Boltstore.Lpm.Prefix.{Shared, limit_of, route_lpm_common_prefix_lem}
use bgp_api.Boltstore.Lpm.Masked.{masked_route_lpm_address-IsAddress}

abbrev left : Address
left = replicate 12 0 ++ (10 ∷ 1 ∷ 2 ∷ 3 ∷ [])

abbrev right : Address
right = replicate 12 0 ++ (10 ∷ 1 ∷ 3 ∷ 0 ∷ [])

left-IsAddress : IsAddress left
left-IsAddress = ipv4-IsAddress 10 1 2 3 (omega arith) (omega arith) (omega arith) (omega arith)

right-IsAddress : IsAddress right
right-IsAddress = ipv4-IsAddress 10 1 3 0 (omega arith) (omega arith) (omega arith) (omega arith)

route_lpm_common_prefix_lem_example :
    Shared 4 left right (limit_of 32 24) (route_lpm_common_prefix left 32 right 24 4)
route_lpm_common_prefix_lem_example =
    route_lpm_common_prefix_lem 4 left right 32 24 left-IsAddress.bytes right-IsAddress.bytes

masked_route_lpm_address-IsAddress_example : IsAddress (masked_route_lpm_address left 4 21)
masked_route_lpm_address-IsAddress_example =
    masked_route_lpm_address-IsAddress left 4 21 left-IsAddress
