-- ===== src/Boltstore/RouteLpm/Longest.antt =====
-- internal/boltstore/route_lpm.go: the loop of LookupRouteLPM finds the longest prefix with IDs.
use bgp_api.Base.{ℕ, suc, ◌≤◌, ◌<◌, ◌≡◌, sym, ap, ◌∙◌, arith, List, length, get_elem?, some}
use bgp_api.Boltstore.Keys.{Address}
use bgp_api.Boltstore.Lpm.{route_lpm_bit}
use bgp_api.Boltstore.Lpm.Common.{Agree}
use bgp_api.Boltstore.Trie.{Outcome, ok, Node, child}
use bgp_api.Boltstore.Trie.Insert.{bit_lt}
use bgp_api.Boltstore.Trie.Links.{IsTrie, same_node}
use bgp_api.Boltstore.RouteLpm.{Ids, ids_of}
use bgp_api.Boltstore.RouteLpm.Layout.{offset_at}
use bgp_api.Boltstore.RouteLpm.Reach.{Reach, here, below, Reach-bit}

abbrev pub count_of : Node Ids → ℕ
count_of n = length (ids_of n.payload)

-- The node at `j` stands below the one at `i`, has IDs, and the address lies in its prefix.
pub record Matching (version : ℕ) (nodes : List (Node Ids)) (query : Address) (i j : ℕ)
    : Type 0 where
  pub node : Node Ids
  pub at : get_elem? nodes j ≡ some node
  pub reach : Reach nodes i j
  pub has_ids : 0 < count_of node
  pub inside : Agree version query node.prefix node.prefix_length

-- Where the IDs of the longest matching prefix below a node stand, or the range given for none.
pub data Longest (version : ℕ) (nodes : List (Node Ids)) (query : Address) (i : ℕ) (best : ℕ × ℕ)
    : ℕ × ℕ → Type 0 where
  nothing : ((j : ℕ) → ¬ Matching version nodes query i j) → Longest version nodes query i best best
  longest :
      (j : ℕ) (found : Matching version nodes query i j)
      → ((k : ℕ) (other : Matching version nodes query i k)
          → other.node.prefix_length ≤ found.node.prefix_length)
      → Longest version nodes query i best (offset_at nodes j, count_of found.node)

pub data Finds (version : ℕ) (nodes : List (Node Ids)) (query : Address) (i : ℕ) (best : ℕ × ℕ)
    : Outcome (ℕ × ℕ) → Type 0 where
  finds :
      (r : ℕ × ℕ) → Longest version nodes query i best r → Finds version nodes query i best (ok r)

module _ (version : ℕ) (nodes : List (Node Ids)) (query : Address) where
  -- A match below a node is the node or below its child on the address's branch.
  pub data Deeper (j : ℕ) (n m : Node Ids) : Type 0 where
    at_node : m ≡ n → Deeper j n m
    at_child :
        (k : ℕ)
        → child n (route_lpm_bit query version n.prefix_length) ≡ suc k
        → Reach nodes k j
        → n.prefix_length < m.prefix_length
        → Deeper j n m

  -- A match below the child that another equation names.
  abbrev descend :
      (i j k l : ℕ) (n : Node Ids) (m : Matching version nodes query i j)
      → child n (route_lpm_bit query version n.prefix_length) ≡ suc k
      → child n (route_lpm_bit query version n.prefix_length) ≡ suc l
      → Reach nodes l j
      → Matching version nodes query k j
  descend i j k l n m c d r =
      let e : l ≡ k = omega (arith, sym c ∙ d) in
      record { node = m.node; at = m.at; reach = rw e at r; has_ids = m.has_ids; inside = m.inside }

  abbrev lift :
      (i j k : ℕ) (n : Node Ids)
      → get_elem? nodes i ≡ some n
      → child n (route_lpm_bit query version n.prefix_length) ≡ suc k
      → Matching version nodes query k j
      → Matching version nodes query i j
  lift i j k n h c m = record {
    node = m.node;
    at = m.at;
    reach = below i j k _ n h (bit_lt version query n.prefix_length) c m.reach;
    has_ids = m.has_ids;
    inside = m.inside;
  }

module _ (version : ℕ) (nodes : List (Node Ids)) (query : Address) (t : IsTrie version nodes) where
  Reach-Deeper :
      (i j : ℕ) (n m : Node Ids)
      → get_elem? nodes i ≡ some n
      → get_elem? nodes j ≡ some m
      → Agree version query m.prefix m.prefix_length
      → Reach nodes i j
      → Deeper version nodes query j n m
  Reach-Deeper i j n m h g q (here i') = at_node (same_node m n g h)
  Reach-Deeper i j n m h g q (below i' j' k branch o ho hb hc r) =
      let e : o ≡ n = same_node o n ho h in
      let c : child n branch ≡ suc k = rw e at hc in
      let b = Reach-bit version nodes i j k branch n m t h hb c r g in
      let turn : route_lpm_bit query version n.prefix_length ≡ branch =
        q n.prefix_length b.0 ∙ b.1 in
      at_child k (rw turn c) r b.0

  pub Matching-Deeper :
      (i j : ℕ) (n : Node Ids)
      → get_elem? nodes i ≡ some n
      → (m : Matching version nodes query i j) → Deeper version nodes query j n m.node
  Matching-Deeper i j n h m = Reach-Deeper i j n m.node h m.at m.inside m.reach

  -- A node without IDs adds no match to those below its child.
  pub Longest-without :
      (i k : ℕ) (n : Node Ids) (best : ℕ × ℕ) {r : ℕ × ℕ}
      → get_elem? nodes i ≡ some n
      → child n (route_lpm_bit query version n.prefix_length) ≡ suc k
      → count_of n ≡ 0
      → Longest version nodes query k best r
      → Longest version nodes query i best r
  Longest-without i k n best h c z (nothing f) =
      nothing (λ j m. none_below j m (Matching-Deeper i j n h m))
    where
      none_below :
          (j : ℕ) (m : Matching version nodes query i j) → Deeper version nodes query j n m.node → ⊥
      none_below j m (at_node e) = absurd (omega (arith, m.has_ids, z, ap count_of e))
      none_below j m (at_child d e r b) = f j (descend version nodes query i j k d n m c e r)
  Longest-without i k n best h c z (longest j m f) =
      longest j (lift version nodes query i j k n h c m)
        (λ l o. bound l o (Matching-Deeper i l n h o))
    where
      bound :
          (l : ℕ) (o : Matching version nodes query i l)
          → Deeper version nodes query l n o.node
          → o.node.prefix_length ≤ m.node.prefix_length
      bound l o (at_node e) = absurd (omega (arith, o.has_ids, z, ap count_of e))
      bound l o (at_child d e r b) = f l (descend version nodes query i l k d n o c e r)

  -- A node with IDs is the longest match where its child has none below it.
  pub Longest-with :
      (i k : ℕ) (n : Node Ids) (best : ℕ × ℕ) (self : Matching version nodes query i i) {r : ℕ × ℕ}
      → get_elem? nodes i ≡ some n
      → child n (route_lpm_bit query version n.prefix_length) ≡ suc k
      → Longest version nodes query k (offset_at nodes i, count_of self.node) r
      → Longest version nodes query i best r
  Longest-with i k n best self h c (nothing f) =
      longest i self (λ l o. bound l o (Matching-Deeper i l n h o))
    where
      bound :
          (l : ℕ) (o : Matching version nodes query i l)
          → Deeper version nodes query l n o.node
          → o.node.prefix_length ≤ self.node.prefix_length
      bound l o (at_node e) =
          let e' : self.node ≡ n = same_node self.node n self.at h in
          omega (arith, ap (λ x. x.prefix_length) e, ap (λ x. x.prefix_length) e')
      bound l o (at_child d e r b) = absurd (f l (descend version nodes query i l k d n o c e r))
  Longest-with i k n best self h c (longest j m f) =
      longest j (lift version nodes query i j k n h c m)
        (λ l o. bound l o (Matching-Deeper i l n h o))
    where
      bound :
          (l : ℕ) (o : Matching version nodes query i l)
          → Deeper version nodes query l n o.node
          → o.node.prefix_length ≤ m.node.prefix_length
      bound l o (at_node e) =
          let b =
            Reach-bit version nodes i j k _ n m.node t h (bit_lt version query n.prefix_length) c
              m.reach m.at in
          omega (arith, b.0, ap (λ x. x.prefix_length) e)
      bound l o (at_child d e r b) = f l (descend version nodes query i l k d n o c e r)
