-- ===== src/Boltstore/RouteLpm/Lookup.antt =====
-- internal/boltstore/route_lpm.go: LookupRouteLPM on the bytes that Encode makes of a trie.
use bgp_api.Base.{
  ℕ, zero, suc, ◌^◌, ◌≤◌, ◌<◌, ◌≡◌, refl, arith, Bytes, List, [], ◌∷◌, length, get_elem?, some, All,
  IsByte,
}
use bgp_api.Golang.Netip.{Addr}
use bgp_api.Boltstore.Keys.{Address, address_from_addr}
use bgp_api.Boltstore.Keys.Prefixes.{family}
use bgp_api.Boltstore.Trie.{Outcome, ok, Node, child}
use bgp_api.Boltstore.Trie.Nodes.{get-lt}
use bgp_api.Boltstore.Trie.Links.{IsTrie}
use bgp_api.Boltstore.Trie.Root.{IsRooted}
use bgp_api.Boltstore.RouteLpm.{
  Ids, ids_of, total_ids, encode_route_lpm, RouteLpmStats, lookup_route_lpm, read_best,
}
use bgp_api.Boltstore.RouteLpm.Layout.{IsNode}
use bgp_api.Boltstore.RouteLpm.Nodes.{decode_route_lpm_node-encode_route_lpm}
use bgp_api.Boltstore.RouteLpm.Longest.{Matching, nothing, longest, Finds, finds}
use bgp_api.Boltstore.RouteLpm.Search.{lookup_loop-Finds}
use bgp_api.Boltstore.RouteLpm.Parts.{
  check_route_header-encode_route_lpm, read_best-encode_route_lpm,
}

-- The IDs of the longest prefix of the trie that has IDs and holds the address, or none.
pub data LongestIds (version : ℕ) (nodes : List (Node Ids)) (query : Address)
    : Outcome (List ℕ) → Type 0 where
  no_match : ((j : ℕ) → ¬ Matching version nodes query 0 j) → LongestIds version nodes query (ok [])
  longest_match :
      (j : ℕ) (found : Matching version nodes query 0 j)
      → ((k : ℕ) (other : Matching version nodes query 0 k)
          → other.node.prefix_length ≤ found.node.prefix_length)
      → LongestIds version nodes query (ok (ids_of found.node.payload))

All-of :
    (Q : Node Ids → Type 0) (ns : List (Node Ids))
    → ((i : ℕ) (n : Node Ids) → get_elem? ns i ≡ some n → Q n)
    → All Q ns
All-of Q [] f = tt
All-of Q (n ∷ ns) f = (f 0 n refl, All-of Q ns (λ i m h. f (suc i) m h))

child_lt :
    (version : ℕ) (nodes : List (Node Ids)) (i branch c : ℕ) (n : Node Ids)
    → IsTrie version nodes
    → get_elem? nodes i ≡ some n
    → branch < 2
    → child n branch ≡ c
    → c ≤ length nodes
child_lt version nodes i branch zero n t h b e = omega arith
child_lt version nodes i branch (suc k) n t h b e =
    omega (arith, get-lt nodes k ((t i n h).links branch k b e).at)

-- The parts of each node fit the bytes that they take.
IsTrie-IsNode :
    (version : ℕ) (nodes : List (Node Ids))
    → IsTrie version nodes
    → length nodes < 2 ^ 32
    → All IsNode nodes
IsTrie-IsNode version nodes t l = All-of IsNode nodes (λ i n h. record {
  prefix = (t i n h).address.size;
  child0 = omega (arith, child_lt version nodes i 0 n.child0 n t h (omega arith) refl);
  child1 = omega (arith, child_lt version nodes i 1 n.child1 n t h (omega arith) refl);
})

found_ids :
    (version : ℕ) (nodes : List (Node Ids)) (query : Address) {value : Bytes}
    {stats : RouteLpmStats} {o : Outcome (ℕ × ℕ)}
    → All IsNode nodes
    → All (λ m. All (λ id. id < 2 ^ 32) (ids_of m.payload)) nodes
    → encode_route_lpm version nodes ≡ ok (value, stats)
    → Finds version nodes query 0 (0, 0) o
    → LongestIds version nodes query (read_best value (length nodes) (total_ids nodes) o)
unfolding read_best
found_ids version nodes query hn a e (finds r (nothing f)) = no_match f
found_ids version nodes query hn a e (finds r (longest j m f)) =
    rw (read_best-encode_route_lpm version nodes j m.node hn a e m.at m.has_ids)
      (longest_match j m f)

-- For a trie whose first node is the root and whose references lead to longer prefixes inside the
-- one that refers to them, on the branch of the next bit, with fewer than 2 ^ 32 nodes and IDs that
-- fit a uint32: on the bytes that Encode makes of it, LookupRouteLPM ends within 130 rounds without
-- an error or a panic and gives the IDs of the longest prefix below the root that has IDs and holds
-- the address, or none where no such prefix holds it; for an address of the trie's version, in bytes.
pub lookup_route_lpm-longest :
    (nodes : List (Node Ids)) (address : Addr) {value : Bytes} {stats : RouteLpmStats}
    → IsRooted (family address) nodes
    → length nodes < 2 ^ 32
    → All (λ m. All (λ id. id < 2 ^ 32) (ids_of m.payload)) nodes
    → encode_route_lpm (family address) nodes ≡ ok (value, stats)
    → All IsByte (address_from_addr address)
    → LongestIds
        (family address)
        nodes
        (address_from_addr address)
        (lookup_route_lpm 130 value address)
unfolding lookup_route_lpm
lookup_route_lpm-longest nodes address {value} r l a e q =
    let version = family address in
    let query = address_from_addr address in
    let fits = IsTrie-IsNode version nodes r.trie l in
    let header = check_route_header-encode_route_lpm version nodes fits (get-lt nodes 0 r.at) l e in
    let loop =
      lookup_loop-Finds version nodes query r.trie value q
        (λ i n h. decode_route_lpm_node-encode_route_lpm version nodes i n fits e h) 130 0 0 0
        r.root r.at (ground arith) in
    rw (lookup_route_lpm, header) (found_ids version nodes query fits a e loop)
