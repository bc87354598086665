-- ===== src/Boltstore/Keys/Runs.antt =====
-- The keys at concrete prefixes, ranges and IDs.
use bgp_api.Base.{◌≡◌, ◌≢◌, ◌≤◌, ◌↔◌, refl, arith, [], ◌∷◌, ◌++◌, replicate, some}
use Prim.Native.Nat.{compare, Ordering}
use bgp_api.Golang.ByteSlice.{compare_bytes, number, and_then, write_at}
use bgp_api.Golang.Netip.{v4, Prefix, masked, unmap, clear_from}
use bgp_api.Boltstore.Decoder.{ok}
use bgp_api.Boltstore.Keys.{
  Address, put_prefix_key, prefix_key, range_index_key, prefix_from_route_index_key,
  address_from_addr,
}
use bgp_api.Boltstore.Keys.RoundTrip.{range_key, put_range_index_key_lem, range_index_start_key_lem}
use bgp_api.Boltstore.Keys.Order.{
  IsAddress, ipv4-IsAddress, compare-range_index_key, range_index_start_key-seek,
}
use bgp_api.Boltstore.Keys.Prefixes.{
  IsPrefix, mapped, compatible, prefix_key_collision, prefix_from_route_index_key-prefix_key,
}

abbrev low : Address
low = replicate 12 0 ++ (10 ∷ 0 ∷ 0 ∷ 0 ∷ [])

abbrev high : Address
high = replicate 12 0 ++ (10 ∷ 0 ∷ 255 ∷ 255 ∷ [])

low-IsAddress : IsAddress low
low-IsAddress = ipv4-IsAddress 10 0 0 0 (omega arith) (omega arith) (omega arith) (omega arith)

high-IsAddress : IsAddress high
high-IsAddress = ipv4-IsAddress 10 0 255 255 (omega arith) (omega arith) (omega arith) (omega arith)

abbrev network : Prefix
network = record { addr = v4 (10 ∷ 1 ∷ 2 ∷ 3 ∷ []); bits = 16 }

network-IsPrefix : IsPrefix network
network-IsPrefix = record { address = refl; bits = omega arith }

key_1 : range_index_key 4 low high 1 ≡ ok (range_key 4 low high 1)
unfolding range_index_key
key_1 = put_range_index_key_lem (replicate 37 0) 4 low high 1 (omega arith) refl refl

key_2 : range_index_key 4 low low 2 ≡ ok (range_key 4 low low 2)
unfolding range_index_key
key_2 = put_range_index_key_lem (replicate 37 0) 4 low low 2 (omega arith) refl refl

compare-range_index_key_example :
    compare_bytes (range_key 4 low high 1) (range_key 4 low low 2)
    ≡ and_then (compare 4 4) (
        and_then
          (compare (number low) (number low))
          (and_then (compare (number high) (number low)) (compare 1 2)))
compare-range_index_key_example =
    compare-range_index_key 4 4 low high low low 1 2 low-IsAddress high-IsAddress low-IsAddress
      low-IsAddress (omega arith) (omega arith) key_1 key_2

range_index_start_key-seek_example :
    (compare_bytes (4 ∷ (low ++ replicate 20 0)) (range_key 4 low high 1) ≢ Ordering.gt)
    ↔ (number low ≤ number low)
range_index_start_key-seek_example =
    range_index_start_key-seek (replicate 37 7) 4 low low high 1 (omega arith) low-IsAddress
      low-IsAddress high-IsAddress
      (range_index_start_key_lem (replicate 37 7) 4 low (omega arith) refl) key_1

prefix_key_collision_example :
    prefix_key (mapped (1 ∷ 2 ∷ 3 ∷ 4 ∷ []) 120) ≡ prefix_key (compatible (1 ∷ 2 ∷ 3 ∷ 4 ∷ []) 120)
prefix_key_collision_example =
    prefix_key_collision (1 ∷ 2 ∷ 3 ∷ 4 ∷ []) 120 refl (omega arith) (omega arith)

network_key : prefix_key network ≡ ok (4 ∷ (replicate 12 0 ++ (10 ∷ 1 ∷ 0 ∷ 0 ∷ 16 ∷ [])))
unfolding prefix_key put_prefix_key masked clear_from address_from_addr unmap write_at
network_key = refl

prefix_from_route_index_key-prefix_key_example :
    prefix_from_route_index_key (4 ∷ (replicate 12 0 ++ (10 ∷ 1 ∷ 0 ∷ 0 ∷ 16 ∷ [])))
    ≡ some (masked network)
unfolding unmap masked
prefix_from_route_index_key-prefix_key_example =
    prefix_from_route_index_key-prefix_key network network-IsPrefix refl network_key
