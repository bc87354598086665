-- ===== src/Boltstore/RouteLpm/Reach.antt =====
-- internal/boltstore/route_lpm.go: the nodes below a node of a trie, and where they can match.
use bgp_api.Base.{ℕ, suc, ◌≤◌, ◌<◌, ◌≡◌, refl, ◌∙◌, arith, List, get_elem?, some}
use bgp_api.Boltstore.Lpm.{route_lpm_bit}
use bgp_api.Boltstore.Lpm.Common.{Agree}
use bgp_api.Boltstore.Trie.{Node, child}
use bgp_api.Boltstore.Trie.Links.{IsTrie, same_node}

module _ {P : Type 0} where
  -- The node at the second index stands at or below the one at the first.
  pub data Reach (nodes : List (Node P)) : ℕ → ℕ → Type 0 where
    here : (i : ℕ) → Reach nodes i i
    below :
        (i j k branch : ℕ) (n : Node P)
        → get_elem? nodes i ≡ some n
        → branch < 2
        → child n branch ≡ suc k
        → Reach nodes k j
        → Reach nodes i j

  -- A node that lies in the prefix of another one.
  pub record Inside (version : ℕ) (n m : Node P) : Type 0 where
    pub longer : n.prefix_length ≤ m.prefix_length
    pub agree : Agree version m.prefix n.prefix n.prefix_length

  pub Reach-Inside :
      (version : ℕ) (nodes : List (Node P)) (i j : ℕ) (n m : Node P)
      → IsTrie version nodes
      → Reach nodes i j
      → get_elem? nodes i ≡ some n
      → get_elem? nodes j ≡ some m
      → Inside version n m
  Reach-Inside version nodes i j n m t (here i') hn hm =
      let e : m ≡ n = same_node m n hm hn in
      rw e record { longer = omega arith; agree = λ b h. refl }
  Reach-Inside version nodes i j n m t (below i' j' k branch o ho hb hc r) hn hm =
      let e : o ≡ n = same_node o n ho hn in
      let link = (t i n hn).links branch k hb (rw e at hc) in
      let deeper = Reach-Inside version nodes k j link.target m t r link.at hm in
      record {
        longer = omega (arith, link.longer, deeper.longer);
        agree = λ b h. deeper.agree b (omega (arith, link.longer)) ∙ link.inside b h;
      }

  -- A node below a child, on the branch of its bit.
  pub Reach-bit :
      (version : ℕ) (nodes : List (Node P)) (i j k branch : ℕ) (n m : Node P)
      → IsTrie version nodes
      → get_elem? nodes i ≡ some n
      → branch < 2
      → child n branch ≡ suc k
      → Reach nodes k j
      → get_elem? nodes j ≡ some m
      → (n.prefix_length < m.prefix_length)
        × (route_lpm_bit m.prefix version n.prefix_length ≡ branch)
  Reach-bit version nodes i j k branch n m t hn hb hc r hm =
      let link = (t i n hn).links branch k hb hc in
      let deeper = Reach-Inside version nodes k j link.target m t r link.at hm in
      (
        omega (arith, link.longer, deeper.longer),
        deeper.agree n.prefix_length link.longer ∙ link.bit,
      )
