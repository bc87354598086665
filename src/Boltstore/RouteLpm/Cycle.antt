-- ===== src/Boltstore/RouteLpm/Cycle.antt =====
-- internal/boltstore/route_lpm.go: the lookup in a trie whose node is its own child.
use bgp_api.Base.{
  ℕ, zero, suc, ◌+◌, ◌-◌, ◌<◌, ◌≡◌, refl, arith, true, false, Bytes, ltb, leb, ◌==◌, if◌then◌else◌,
}
use bgp_api.Boltstore.Keys.{Address}
use bgp_api.Boltstore.Lpm.{route_lpm_bit, route_lpm_address_matches, width_of}
use bgp_api.Boltstore.Trie.{ok, stuck}
use bgp_api.Boltstore.RouteLpm.{DecodedNode, decode_route_lpm_node, lookup_loop}

-- The child that the loop of LookupRouteLPM follows.
abbrev pub next_of : DecodedNode → Address → ℕ → ℕ
next_of node query version =
    if route_lpm_bit query version node.prefix_length == 0 then node.child0 else node.child1

-- Where a node that matches the address, with a length below the width, is its own child on the
-- address's branch, no number of rounds ends the loop of LookupRouteLPM.
pub lookup_loop-cycle :
    (fuel : ℕ) (value : Bytes) (version count current best_offset best_count : ℕ) (query : Address)
    (node : DecodedNode)
    → decode_route_lpm_node value current count ≡ ok node
    → node.prefix_length < width_of version
    → route_lpm_address_matches query node.prefix version node.prefix_length ≡ true
    → next_of node query version ≡ current + 1
    → lookup_loop fuel value version count query current best_offset best_count ≡ stuck
unfolding lookup_loop
lookup_loop-cycle zero value version count current o c query node hd hl hm hn = refl
lookup_loop-cycle (suc fuel) value version count current o c query node hd hl hm hn =
    let rest =
      λ (p q : ℕ). lookup_loop-cycle fuel value version count current p q query node hd hl hm hn in
    let short : ltb (width_of version) node.prefix_length ≡ false = ground (arith, hl) in
    let inside : leb (width_of version) node.prefix_length ≡ false = ground (arith, hl) in
    let some_child : (current + 1 == 0) ≡ false = ground arith in
    let same : current + 1 - 1 ≡ current = omega arith in
    simp (lookup_loop, hd, short, hm, inside, hn, some_child, same) (rest _ _)
