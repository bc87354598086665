-- ===== src/Boltstore/RouteLpm/Insertion.antt =====
-- internal/boltstore/route_lpm.go: Insert keeps the trie of routes.
use bgp_api.Base.{
  ℕ, ◌≡◌, ◌≢◌, arith, List, length, Bool-cases, inl, inr, true, false, ◌==◌, ==_iff, All, IsByte,
  some, none,
}
use bgp_api.Golang.Netip.{Prefix, masked}
use bgp_api.Boltstore.Keys.{address_from_addr}
use bgp_api.Boltstore.Keys.Prefixes.{IsPrefix}
use bgp_api.Boltstore.Trie.{Outcome, ok, err, Node, of_version, wrong_version, no_payload}
use bgp_api.Boltstore.Trie.Root.{
  IsRooted, Rooted, rooted, repeated, crowded, insert-Rooted, bytes_of, address_from_addr-IsAddress,
  of_version-bits,
}
use bgp_api.Boltstore.RouteLpm.{Ids, insert_route, place_ids}

-- What Insert gives: an error for a prefix of the other family or without IDs, and otherwise what an
-- insertion from the root gives.
pub data RouteInserted (version : ℕ) (prefix : Prefix) (ids : List ℕ)
    : Outcome (List (Node Ids)) → Type 0 where
  other_family :
      of_version version (masked prefix).addr ≡ false
      → RouteInserted version prefix ids (err wrong_version)
  without_ids : length ids ≡ 0 → RouteInserted version prefix ids (err no_payload)
  inserted :
      {o : Outcome (List (Node Ids))}
      → of_version version (masked prefix).addr ≡ true
      → length ids ≢ 0
      → Rooted version o
      → RouteInserted version prefix ids o

-- For a trie whose first node is the root and whose references lead to longer prefixes inside the
-- one that refers to them, on the branch of the next bit: Insert of a prefix with an address of its
-- version's size and a length that fits it ends within its 130 rounds and never panics. It gives the
-- error for a prefix of the other family, the one for no IDs, and otherwise such a trie again, or one
-- of the errors for a prefix that is there already and for too many nodes; never the errors for a
-- missing node or for another root.
pub insert_route-RouteInserted :
    (version : ℕ) (nodes : List (Node Ids)) (prefix : Prefix) (ids : List ℕ)
    → IsRooted version nodes
    → IsPrefix prefix
    → All IsByte (bytes_of prefix.addr)
    → RouteInserted version prefix ids (insert_route version nodes prefix ids)
unfolding insert_route
insert_route-RouteInserted version nodes prefix ids r p b =
    elim (Bool-cases (of_version version (masked prefix).addr)) [
      | inr e ↦ simp (insert_route, e) (other_family e)
      | inl e ↦ elim (Bool-cases (length ids == 0)) [
        | inl z ↦ simp (insert_route, e, z) (without_ids ((==_iff (length ids) 0).0 z))
        | inr z ↦
            simp (insert_route, e, z)
              (inserted e (ground arith) (
                insert-Rooted version none place_ids nodes (address_from_addr (masked prefix).addr)
                  (masked prefix).bits (some ids) r (address_from_addr-IsAddress prefix p b)
                  (of_version-bits version prefix p e)))
      ]
    ]

-- The trie that an insertion gives.
pub RouteInserted-IsRooted :
    (version : ℕ) (prefix : Prefix) (ids : List ℕ) {o : Outcome (List (Node Ids))}
    {after : List (Node Ids)}
    → RouteInserted version prefix ids o
    → o ≡ ok after
    → IsRooted version after
RouteInserted-IsRooted version prefix ids (other_family e) h = absurd (cc)
RouteInserted-IsRooted version prefix ids (without_ids e) h = absurd (cc)
RouteInserted-IsRooted version prefix ids {after = after} (inserted e z (rooted {after = built} r))
      h =
    let same : built ≡ after = cc in rw same at r
RouteInserted-IsRooted version prefix ids (inserted e z repeated) h = absurd (cc)
RouteInserted-IsRooted version prefix ids (inserted e z crowded) h = absurd (cc)
