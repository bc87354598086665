-- ===== src/Boltstore/Trie/Total.antt =====
-- internal/boltstore/route_lpm.go and selection_lpm.go: every insertion ends, with a trie or an error.
use bgp_api.Base.{
  ℕ, zero, suc, ◌+◌, ◌≤◌, ◌<◌, ◌≡◌, refl, sym, ◌∙◌, arith, List, Option, Option-cases, ◌==◌, ==_iff,
  Bool-cases, inl, inr,
}
use bgp_api.Boltstore.Keys.{Address}
use bgp_api.Boltstore.Keys.Order.{IsAddress}
use bgp_api.Boltstore.Lpm.{route_lpm_bit, width_of, route_lpm_common_prefix}
use bgp_api.Boltstore.Lpm.Common.{Agree}
use bgp_api.Boltstore.Lpm.Prefix.{extend, limit_of, route_lpm_common_prefix_lem}
use bgp_api.Boltstore.Trie.{Node, child, append_node, split, insert}
use bgp_api.Boltstore.Trie.Links.{IsNode, IsTrie, Grown-refl}
use bgp_api.Boltstore.Trie.Insert.{
  Below, absent, present, Inserted, placed, duplicate, leaf-Placed, attach-Inserted, bit_lt,
}
use bgp_api.Boltstore.Trie.Split.{limit-le, low-common, limit-above, payload-Placed, split-Inserted}

module _ {P : Type 0} (version : ℕ) (empty : P) (place : P → P → Option P) where
  -- The child on the branch of the prefix stands below the node.
  child-Below :
      (nodes : List (Node P)) (n : Node P) (prefix : Address) (branch c : ℕ)
      → IsNode version nodes n
      → branch < 2
      → child n branch ≡ c
      → Agree version n.prefix prefix n.prefix_length
      → route_lpm_bit prefix version n.prefix_length ≡ branch
      → Below version nodes prefix (n.prefix_length + 1) c
  child-Below nodes n prefix branch zero t h e a b = absent
  child-Below nodes n prefix branch (suc k) t h e a b =
      let link = t.links branch k h e in
      present k link.target link.at (omega (arith, link.longer)) (
        extend version link.target.prefix prefix n.prefix_length (λ i hi. link.inside i hi ∙ a i hi)
          (link.bit ∙ sym b))

  pub insert-Inserted :
      (fuel : ℕ) (nodes : List (Node P)) (reference : ℕ) (prefix : Address) (len : ℕ) (payload : P)
      (low : ℕ)
      → IsTrie version nodes
      → IsAddress prefix
      → len ≤ width_of version
      → low ≤ len
      → width_of version < fuel + low
      → Below version nodes prefix low reference
      → Inserted version nodes reference prefix low
          (insert version empty place fuel nodes reference prefix len payload)
  unfolding insert split append_node
  insert-Inserted fuel nodes zero prefix len payload low t a w l f absent =
      leaf-Placed version nodes payload prefix len low t a w l
  insert-Inserted zero nodes (suc r) prefix len payload low t a w l f b = absurd (omega (arith, f))
  insert-Inserted (suc fuel) nodes (suc r) prefix len payload low t a w l f
        (present k node h lo in') =
      let common = route_lpm_common_prefix node.prefix node.prefix_length prefix len version in
      let shared =
        route_lpm_common_prefix_lem version node.prefix prefix node.prefix_length len
          (t r node h).address.bytes a.bytes in
      let bounds = limit-le node.prefix_length len in
      let limit = limit_of node.prefix_length len in
      let deep : low ≤ common =
        low-common version node.prefix prefix low limit common shared in'
          (limit-above node.prefix_length len low lo l) in
      elim (Bool-cases (common == node.prefix_length)) [
        | inr split' ↦
            rw (insert, h, split')
              (split-Inserted version empty place nodes r node prefix common len low payload t h a w
                deep (ground (arith, shared.bound, bounds.0)) shared)
        | inl whole ↦ elim (Bool-cases (common == len)) [
          | inl equal ↦ elim (Option-cases (place node.payload payload)) [
            | inl e ↦ simp (insert, h, whole, equal, e) duplicate
            | inr e ↦
                simp (insert, h, whole, equal, e.1)
                  (placed r _ (
                    payload-Placed version nodes nodes (suc r) r node prefix low e.0 t
                      (Grown-refl version nodes) h lo in' (λ j m g q d. omega (arith, g))))
          ]
          | inr longer ↦
              let full_length : common ≡ node.prefix_length =
                (==_iff common node.prefix_length).0 whole in
              let agree : Agree version node.prefix prefix node.prefix_length =
                rw full_length at shared.same in
              let branch = route_lpm_bit prefix version node.prefix_length in
              let more : node.prefix_length < len = ground (arith, shared.bound, bounds.1) in
              simp (insert, h, whole, longer)
                (rw full_length (
                  attach-Inserted version nodes r node node.prefix_length (child node branch) prefix
                    low h refl lo agree
                    (insert-Inserted fuel nodes (child node branch) prefix len payload
                      (node.prefix_length + 1) t a w (omega arith) (omega (arith, f))
                      (child-Below nodes node prefix branch (child node branch) (t r node h)
                        (bit_lt version prefix node.prefix_length) refl agree refl))))
        ]
      ]
