-- ===== src/Boltstore/RouteLpm/Runs.antt =====
-- A trie of the routes 0.0.0.0/0, without IDs, and 10.0.0.0/8, with two.
use bgp_api.Base.{◌≡◌, refl, arith, Bytes, List, [], ◌∷◌, ◌++◌, replicate, none, some}
use bgp_api.Golang.Binary.{put_uint32, uint32}
use bgp_api.Golang.Netip.{v4, unmap, masked, clear_from}
use bgp_api.Boltstore.Keys.{encode_ids, decode_ids_loop, address_from_addr}
use bgp_api.Boltstore.Lpm.{
  masked_route_lpm_address, route_lpm_bit, route_lpm_common_prefix, byte_loop, bit_loop,
  route_lpm_address_matches,
}
use bgp_api.Boltstore.Trie.{
  ok, Node, initial_nodes, insert, keep_root, append_node, modify, attach, split,
}
use bgp_api.Boltstore.RouteLpm.{
  Ids, node_bytes, encode_nodes, encode_route_lpm, route_header, RouteLpmStats,
  decode_route_lpm_node, insert_route, place_ids, lookup_route_lpm, lookup_loop, check_route_header,
  read_best,
}
use bgp_api.Boltstore.RouteLpm.Layout.{IsNode, offset_at, decoded}
use bgp_api.Boltstore.RouteLpm.Cycle.{next_of, lookup_loop-cycle}
use bgp_api.Boltstore.Trie.{stuck}
use bgp_api.Boltstore.RouteLpm.{DecodedNode}
use bgp_api.Base.{true, ◌+◌}
use bgp_api.Boltstore.RouteLpm.Nodes.{decode_route_lpm_node-encode_route_lpm}

abbrev root : Node Ids
root = record { prefix = replicate 16 0; prefix_length = 0; child0 = 2; child1 = 0; payload = none }

abbrev ten : Node Ids
ten = record {
  prefix = replicate 12 0 ++ (10 ∷ 0 ∷ 0 ∷ 0 ∷ []);
  prefix_length = 8;
  child0 = 0;
  child1 = 0;
  payload = some (7 ∷ 9 ∷ []);
}

abbrev pub two_nodes : List (Node Ids)
two_nodes = root ∷ ten ∷ []

abbrev pub two_bytes : Bytes
two_bytes =
    route_header 4 2 2
    ++ ((node_bytes root 0 ++ (node_bytes ten 0 ++ []))
        ++ (encode_ids [] ++ (encode_ids (7 ∷ 9 ∷ []) ++ [])))

abbrev two_stats : RouteLpmStats
two_stats = record { nodes = 2; ids = 2; bytes = 90 }

pub ten_inserted :
    insert_route 4
      (initial_nodes none)
      (record { addr = v4 (10 ∷ 1 ∷ 2 ∷ 3 ∷ []); bits = 8 })
      (7 ∷ 9 ∷ [])
    ≡ ok two_nodes
unfolding insert_route insert keep_root append_node modify attach split place_ids masked clear_from
    address_from_addr unmap masked_route_lpm_address route_lpm_bit route_lpm_common_prefix byte_loop
    bit_loop
ten_inserted = refl

pub two_encoded : encode_route_lpm 4 two_nodes ≡ ok (two_bytes, two_stats)
unfolding encode_route_lpm encode_nodes
two_encoded = refl

ten_found : lookup_route_lpm 3 two_bytes (v4 (10 ∷ 200 ∷ 0 ∷ 1 ∷ [])) ≡ ok (7 ∷ 9 ∷ [])
unfolding lookup_route_lpm lookup_loop check_route_header read_best decode_route_lpm_node node_bytes
    encode_ids put_uint32 uint32 decode_ids_loop address_from_addr unmap route_lpm_bit
    route_lpm_common_prefix byte_loop bit_loop route_lpm_address_matches
ten_found = refl

root-IsNode : IsNode root
root-IsNode = record { prefix = refl; child0 = omega arith; child1 = omega arith }

ten-IsNode : IsNode ten
ten-IsNode = record { prefix = refl; child0 = omega arith; child1 = omega arith }

decode_route_lpm_node-encode_route_lpm_example :
    decode_route_lpm_node two_bytes 1 2 ≡ ok (decoded ten (offset_at two_nodes 1))
decode_route_lpm_node-encode_route_lpm_example =
    decode_route_lpm_node-encode_route_lpm 4 two_nodes 1 ten (root-IsNode, (ten-IsNode, tt))
      two_encoded refl

abbrev cycle_root : DecodedNode
cycle_root = record {
  prefix = replicate 16 0;
  prefix_length = 0;
  child0 = 1;
  child1 = 0;
  id_offset = 0;
  id_count = 0;
}

abbrev cycle_bytes : Bytes
cycle_bytes =
    route_header 4 1 0
    ++ (replicate 16 0 ++ (0 ∷ (put_uint32 1 ++ (put_uint32 0 ++ (put_uint32 0 ++ put_uint32 0)))))

cycle_decoded : decode_route_lpm_node cycle_bytes 0 1 ≡ ok cycle_root
unfolding decode_route_lpm_node put_uint32 uint32
cycle_decoded = refl

cycle_matches : route_lpm_address_matches (replicate 16 0) cycle_root.prefix 4 0 ≡ true
unfolding route_lpm_address_matches route_lpm_common_prefix byte_loop bit_loop
cycle_matches = refl

cycle_next : next_of cycle_root (replicate 16 0) 4 ≡ 0 + 1
unfolding route_lpm_bit
cycle_next = refl

lookup_loop-cycle_example : lookup_loop 1000 cycle_bytes 4 1 (replicate 16 0) 0 0 0 ≡ stuck
lookup_loop-cycle_example =
    lookup_loop-cycle 1000 cycle_bytes 4 1 0 0 0 (replicate 16 0) cycle_root cycle_decoded
      (omega arith) cycle_matches cycle_next
