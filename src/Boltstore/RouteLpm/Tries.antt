-- ===== src/Boltstore/RouteLpm/Tries.antt =====
-- A trie with the route 10.0.0.0/8, from an insertion to a lookup in its bytes.
use bgp_api.Base.{refl, arith, [], ◌∷◌, none, All, IsByte}
use bgp_api.Golang.Netip.{Addr, v4, Prefix}
use bgp_api.Boltstore.Keys.{address_from_addr}
use bgp_api.Boltstore.Keys.Prefixes.{IsPrefix}
use bgp_api.Boltstore.Trie.{initial_nodes}
use bgp_api.Boltstore.Trie.Root.{IsRooted, initial_nodes-IsRooted, place-All}
use bgp_api.Boltstore.RouteLpm.{insert_route, lookup_route_lpm}
use bgp_api.Boltstore.RouteLpm.Insertion.{
  RouteInserted, insert_route-RouteInserted, RouteInserted-IsRooted,
}
use bgp_api.Boltstore.RouteLpm.Lookup.{LongestIds, lookup_route_lpm-longest}
use bgp_api.Boltstore.RouteLpm.Runs.{two_nodes, two_bytes, ten_inserted, two_encoded}

abbrev ten_prefix : Prefix
ten_prefix = record { addr = v4 (10 ∷ 1 ∷ 2 ∷ 3 ∷ []); bits = 8 }

ten_prefix-IsPrefix : IsPrefix ten_prefix
ten_prefix-IsPrefix = record { address = refl; bits = omega arith }

insert_route-RouteInserted_example :
    RouteInserted 4 ten_prefix
      (7 ∷ 9 ∷ [])
      (insert_route 4 (initial_nodes none) ten_prefix (7 ∷ 9 ∷ []))
insert_route-RouteInserted_example =
    insert_route-RouteInserted 4 (initial_nodes none) ten_prefix (7 ∷ 9 ∷ [])
      (initial_nodes-IsRooted 4 none) ten_prefix-IsPrefix
      (omega arith, (omega arith, (omega arith, (omega arith, tt))))

abbrev visitor : Addr
visitor = v4 (10 ∷ 200 ∷ 0 ∷ 1 ∷ [])

visitor_bytes : All IsByte (address_from_addr visitor)
unfolding address_from_addr
visitor_bytes = place-All visitor (omega arith, (omega arith, (omega arith, (omega arith, tt))))

two_nodes-IsRooted : IsRooted 4 two_nodes
two_nodes-IsRooted = RouteInserted-IsRooted 4 ten_prefix (7 ∷ 9 ∷ []) insert_again ten_inserted
  where
    insert_again :
        RouteInserted 4 ten_prefix
          (7 ∷ 9 ∷ [])
          (insert_route 4 (initial_nodes none) ten_prefix (7 ∷ 9 ∷ []))
    insert_again =
        insert_route-RouteInserted 4 (initial_nodes none) ten_prefix (7 ∷ 9 ∷ [])
          (initial_nodes-IsRooted 4 none) ten_prefix-IsPrefix
          (omega arith, (omega arith, (omega arith, (omega arith, tt))))

lookup_route_lpm-longest_example :
    LongestIds 4 two_nodes (address_from_addr visitor) (lookup_route_lpm 130 two_bytes visitor)
lookup_route_lpm-longest_example =
    lookup_route_lpm-longest two_nodes visitor two_nodes-IsRooted (omega arith)
      (tt, ((omega arith, (omega arith, tt)), tt)) two_encoded visitor_bytes
