-- ===== src/Boltstore/RouteLpm/Search.antt =====
-- internal/boltstore/route_lpm.go: the loop of LookupRouteLPM over the bytes of an encoded trie.
use bgp_api.Base.{
  ℕ, zero, suc, ◌+◌, ◌-◌, ◌≤◌, ◌<◌, ◌≡◌, ap, ◌∙◌, arith, Bytes, List, length, get_elem?, some, All,
  IsByte, true, false, ltb, leb, ◌==◌, Bool-cases, inl, inr, ◌⊎◌,
}
use bgp_api.Boltstore.Keys.{Address}
use bgp_api.Boltstore.Lpm.{route_lpm_bit, width_of, route_lpm_address_matches}
use bgp_api.Boltstore.Lpm.Common.{Agree}
use bgp_api.Boltstore.Lpm.Prefix.{route_lpm_address_matches_iff}
use bgp_api.Boltstore.Trie.{Outcome, ok, Node, child}
use bgp_api.Boltstore.Trie.Insert.{bit_lt}
use bgp_api.Boltstore.Trie.Links.{Link, IsTrie, same_node}
use bgp_api.Boltstore.RouteLpm.{Ids, decode_route_lpm_node, lookup_loop}
use bgp_api.Boltstore.RouteLpm.Layout.{offset_at, decoded}
use bgp_api.Boltstore.RouteLpm.Reach.{here, Reach-Inside}
use bgp_api.Boltstore.RouteLpm.Longest.{
  count_of, Matching, Longest, nothing, longest, Finds, finds, Deeper, at_node, at_child,
  Matching-Deeper, Longest-without, Longest-with,
}

suc-pred : (k : ℕ) → (k == 0) ≡ false → k ≡ suc (k - 1)
suc-pred zero h = absurd (cc)
suc-pred (suc k) h = omega arith

module _ (version : ℕ) (nodes : List (Node Ids)) (query : Address) (t : IsTrie version nodes) where
  -- The loop goes no further at the node.
  abbrev Ends : Node Ids → Type 0
  Ends n =
      (child n (route_lpm_bit query version n.prefix_length) ≡ 0)
      ⊎ (width_of version ≤ n.prefix_length)

  Ends-at :
      (i j : ℕ) (n : Node Ids)
      → get_elem? nodes i ≡ some n
      → Ends n
      → (m : Matching version nodes query i j) → m.node ≡ n
  Ends-at i j n h e m = from e (Matching-Deeper version nodes query t i j n h m)
    where
      from : Ends n → Deeper version nodes query j n m.node → m.node ≡ n
      from e' (at_node q) = q
      from (inl z) (at_child k c r b) = absurd (omega (arith, z, c))
      from (inr w) (at_child k c r b) = absurd (omega (arith, w, b, (t j m.node m.at).length))

  Ends-without :
      (i : ℕ) (n : Node Ids) (best : ℕ × ℕ)
      → get_elem? nodes i ≡ some n
      → Ends n
      → count_of n ≡ 0
      → Longest version nodes query i best best
  Ends-without i n best h e z =
      nothing (λ j m. absurd (omega (arith, m.has_ids, z, ap count_of (Ends-at i j n h e m))))

  Ends-with :
      (i : ℕ) (n : Node Ids) (best : ℕ × ℕ) (self : Matching version nodes query i i)
      → get_elem? nodes i ≡ some n
      → Ends n
      → Longest version nodes query i best (offset_at nodes i, count_of self.node)
  Ends-with i n best self h e = longest i self (λ j m. omega (
    arith,
    ap (λ x. x.prefix_length) (Ends-at i j n h e m),
    ap (λ x. x.prefix_length) (same_node self.node n self.at h),
  ))

  abbrev next_child : Node Ids → ℕ
  next_child n = child n (route_lpm_bit query version n.prefix_length)

  next_child-Link :
      (i : ℕ) (n : Node Ids)
      → get_elem? nodes i ≡ some n
      → (next_child n == 0) ≡ false
      → Link version nodes n.prefix n.prefix_length
          (route_lpm_bit query version n.prefix_length)
          (next_child n - 1)
  next_child-Link i n h z =
      (t i n h).links (route_lpm_bit query version n.prefix_length) (next_child n - 1)
        (bit_lt version query n.prefix_length) (suc-pred (next_child n) z)

  -- Nothing below a node matches an address outside its prefix.
  Longest-outside :
      (i : ℕ) (n : Node Ids) (best : ℕ × ℕ)
      → All IsByte query
      → get_elem? nodes i ≡ some n
      → route_lpm_address_matches query n.prefix version n.prefix_length ≡ false
      → Longest version nodes query i best best
  Longest-outside i n best q h e = nothing (λ j m. outside j m)
    where
      outside : (j : ℕ) → Matching version nodes query i j → ⊥
      outside j m =
          let up = Reach-Inside version nodes i j n m.node t m.reach h m.at in
          let agree : Agree version query n.prefix n.prefix_length =
            λ b l. m.inside b (omega (arith, up.longer)) ∙ up.agree b l in
          let yes' : route_lpm_address_matches query n.prefix version n.prefix_length ≡ true =
            (route_lpm_address_matches_iff version query n.prefix n.prefix_length q
                (t i n h).address.bytes).1
              agree in
          absurd (cc)

  module _ (value : Bytes) (q : All IsByte query)
      (read : (i : ℕ) (n : Node Ids)
        → get_elem? nodes i ≡ some n
        → decode_route_lpm_node value i (length nodes) ≡ ok (decoded n (offset_at nodes i))) where
    -- One round at a node that matches, with the answer of the next round.
    deeper-Finds :
        (i k : ℕ) (best : ℕ × ℕ) (n : Node Ids) {r : Outcome (ℕ × ℕ)}
        → get_elem? nodes i ≡ some n
        → child n (route_lpm_bit query version n.prefix_length) ≡ suc k
        → count_of n ≡ 0
        → Finds version nodes query k best r
        → Finds version nodes query i best r
    deeper-Finds i k best n h c z (finds r l) =
        finds r (Longest-without version nodes query t i k n best h c z l)

    improved-Finds :
        (i k : ℕ) (best : ℕ × ℕ) (n : Node Ids) (self : Matching version nodes query i i)
        {r : Outcome (ℕ × ℕ)}
        → get_elem? nodes i ≡ some n
        → child n (route_lpm_bit query version n.prefix_length) ≡ suc k
        → Finds version nodes query k (offset_at nodes i, count_of self.node) r
        → Finds version nodes query i best r
    improved-Finds i k best n self h c (finds r l) =
        finds r (Longest-with version nodes query t i k n best self h c l)

    pub lookup_loop-Finds :
        (fuel i best_offset best_count : ℕ) (n : Node Ids)
        → get_elem? nodes i ≡ some n
        → width_of version < fuel + n.prefix_length
        → Finds version nodes query i
            (best_offset, best_count)
            (lookup_loop fuel value version (length nodes) query i best_offset best_count)
    unfolding lookup_loop
    lookup_loop-Finds zero i o c n h f = absurd (omega (arith, f, (t i n h).length))
    lookup_loop-Finds (suc fuel) i o c n h f =
        let short : ltb (width_of version) n.prefix_length ≡ false =
          ground (arith, (t i n h).length) in
        let d = read i n h in
        elim (Bool-cases (route_lpm_address_matches query n.prefix version n.prefix_length)) [
          | inr e ↦
              simp (lookup_loop, d, short, e) (finds (o, c) (Longest-outside i n (o, c) q h e))
          | inl e ↦
              let self : 0 < count_of n → Matching version nodes query i i = λ some_ids. record {
                node = n;
                at = h;
                reach = here i;
                has_ids = some_ids;
                inside =
                    (route_lpm_address_matches_iff version query n.prefix n.prefix_length q
                        (t i n h).address.bytes).0
                      e;
              } in
              elim (Bool-cases (leb (width_of version) n.prefix_length)) [
                | inl w ↦ elim (Bool-cases (ltb 0 (count_of n))) [
                  | inl y ↦
                      simp (lookup_loop, d, short, e, w, y)
                        (finds _
                          (Ends-with i n (o, c) (self (ground arith)) h (inr (ground arith))))
                  | inr y ↦
                      simp (lookup_loop, d, short, e, w, y)
                        (finds _ (Ends-without i n (o, c) h (inr (ground arith)) (ground arith)))
                ]
                | inr w ↦ elim (Bool-cases (next_child n == 0)) [
                  | inl z ↦ elim (Bool-cases (ltb 0 (count_of n))) [
                    | inl y ↦
                        simp (lookup_loop, d, short, e, w, z, y)
                          (finds _
                            (Ends-with i n (o, c) (self (ground arith)) h (inl (ground arith))))
                    | inr y ↦
                        simp (lookup_loop, d, short, e, w, z, y)
                          (finds _ (Ends-without i n (o, c) h (inl (ground arith)) (ground arith)))
                  ]
                  | inr z ↦
                      let link = next_child-Link i n h z in
                      let k = next_child n - 1 in
                      let is = suc-pred (next_child n) z in
                      let left : width_of version < fuel + link.target.prefix_length =
                        omega (arith, f, link.longer) in
                      elim (Bool-cases (ltb 0 (count_of n))) [
                        | inl y ↦
                            simp (lookup_loop, d, short, e, w, z, y)
                              (improved-Finds i k (o, c) n (self (ground arith)) h is
                                (lookup_loop-Finds fuel k (offset_at nodes i) (count_of n)
                                  link.target link.at left))
                        | inr y ↦
                            simp (lookup_loop, d, short, e, w, z, y)
                              (deeper-Finds i k (o, c) n h is (ground arith)
                                (lookup_loop-Finds fuel k o c link.target link.at left))
                      ]
                ]
              ]
        ]
