-- ===== src/Boltstore/Trie/Split.antt =====
-- internal/boltstore/route_lpm.go and selection_lpm.go: a node that is split keeps the links of the trie.
use native.Mathlib.Decide.{dec_lt}
use bgp_api.Base.{
  ℕ, suc, ◌+◌, ◌-◌, ◌^◌, ◌≤◌, ◌<◌, ◌≡◌, refl, sym, ◌∙◌, arith, List, [], ◌∷◌, ◌++◌, length,
  get_elem?, Option, some, leb, ◌==◌, Bool-cases, inl, inr,
}
use bgp_api.Boltstore.Keys.{Address}
use bgp_api.Boltstore.Keys.Order.{IsAddress}
use bgp_api.Boltstore.Lpm.{route_lpm_bit, width_of}
use bgp_api.Boltstore.Lpm.Common.{Agree}
use bgp_api.Boltstore.Lpm.Prefix.{Shared, limit_of}
use bgp_api.Boltstore.Lpm.Masked.{masked_route_lpm_address-Agree}
use bgp_api.Boltstore.Trie.{
  Outcome, Node, with_child, with_payload, modify, append_node, leaf, split,
}
use bgp_api.Boltstore.Trie.Nodes.{get-append, get-append_last, get-modify_self}
use bgp_api.Boltstore.Trie.Links.{
  Link, IsTrie, Grown, Grown-trans, append-Grown, append-IsTrie, modify-Grown, modify-IsTrie,
  same_node, IsNode-Grown,
}
use bgp_api.Boltstore.Trie.Insert.{
  Placed, Inserted, placed, duplicate, full, leaf-IsNode, leaf-Placed, with_child-Keeps,
  with_child-Linked, attach-Inserted, bit_lt,
}

pub limit-le : (m n : ℕ) → (limit_of m n ≤ m) × (limit_of m n ≤ n)
limit-le m n = (ground arith, ground arith)

pub low-common :
    (version : ℕ) (a b : Address) (low limit common : ℕ)
    → Shared version a b limit common
    → Agree version a b low
    → low ≤ limit
    → low ≤ common
low-common version a b low limit common s h l = elim (dec_lt common low) [
  | yes short ↦ absurd (s.differs (omega arith) (h common short))
  | no enough ↦ omega arith
]

pub limit-above : (m n low : ℕ) → low ≤ m → low ≤ n → low ≤ limit_of m n
limit-above m n low h l = ground arith

module _ {P : Type 0} (version : ℕ) where
  -- A node takes a payload.
  pub payload-Placed :
      (nodes after : List (Node P)) (reference i : ℕ) (n : Node P) (prefix : Address) (low : ℕ)
      (payload : P)
      → IsTrie version after
      → Grown version nodes after
      → get_elem? after i ≡ some n
      → low ≤ n.prefix_length
      → Agree version n.prefix prefix low
      → ((j : ℕ) (m : Node P)
          → reference ≡ suc j
          → get_elem? nodes j ≡ some m
          → m.prefix_length ≡ low
          → i ≡ j)
      → Placed version nodes reference prefix low i (modify after i (λ m. with_payload m payload))
  payload-Placed nodes after reference i n prefix low payload t g h l a s =
      let f : Node P → Node P = λ m. with_payload m payload in
      record {
        trie = modify-IsTrie version after i f n t h (refl, refl) (t i n h).links;
        grown =
            Grown-trans version nodes after _ g (modify-Grown version after i f n h (refl, refl));
        node = f n;
        at = get-modify_self after i f h;
        longer = l;
        inside = a;
        same = s;
      }

  -- What holds of an insertion into the longer list, at a new reference, holds of the old one where
  -- the node there was split.
  Inserted-split :
      {nodes after : List (Node P)} {reference new low : ℕ} {prefix : Address}
      {o : Outcome (ℕ × List (Node P))}
      → Grown version nodes after
      → ((i : ℕ) (n : Node P)
          → reference ≡ suc i
          → get_elem? nodes i ≡ some n
          → low < n.prefix_length)
      → Inserted version after new prefix low o
      → Inserted version nodes reference prefix low o
  Inserted-split g s duplicate = duplicate
  Inserted-split g s full = full
  Inserted-split g s (placed k after p) = placed k after record {
    trie = p.trie;
    grown = Grown-trans version _ _ _ g p.grown;
    node = p.node;
    at = p.at;
    longer = p.longer;
    inside = p.inside;
    same = λ i n e h q. absurd (omega (arith, s i n e h));
  }

module _ {P : Type 0} (version : ℕ) (empty : P) (place : P → P → Option P) where
  -- The new node above a node that is split, with that node as a child.
  abbrev parent_of : Address → ℕ → Node P → ℕ → Node P
  parent_of prefix common node r =
      with_child (leaf empty prefix version common) (route_lpm_bit node.prefix version common)
        (suc r)

  abbrev with_parent : List (Node P) → Address → ℕ → Node P → ℕ → List (Node P)
  with_parent nodes prefix common node r =
      modify (nodes ++ (leaf empty prefix version common ∷ [])) (length nodes)
        (λ n. with_child n (route_lpm_bit node.prefix version common) (suc r))

  record Parent (nodes : List (Node P)) (prefix : Address) (common : ℕ) (after : List (Node P))
      : Type 0 where
    trie : IsTrie version after
    grown : Grown version nodes after
    node : Node P
    at : get_elem? after (length nodes) ≡ some node
    len : node.prefix_length ≡ common
    inside : Agree version node.prefix prefix common

  with_parent-Parent :
      (nodes : List (Node P)) (r : ℕ) (node : Node P) (prefix : Address) (common limit : ℕ)
      → IsTrie version nodes
      → get_elem? nodes r ≡ some node
      → IsAddress prefix
      → common ≤ width_of version
      → Shared version node.prefix prefix limit common
      → common < node.prefix_length
      → Parent nodes prefix common (with_parent nodes prefix common node r)
  with_parent-Parent nodes r node prefix common limit t h a w s l =
      let m = leaf empty prefix version common in
      let nodes1 = nodes ++ (m ∷ []) in
      let branch = route_lpm_bit node.prefix version common in
      let f : Node P → Node P = λ n. with_child n branch (suc r) in
      let new = leaf-IsNode version nodes empty prefix common a w in
      let grown1 = append-Grown version nodes m in
      let keeps = with_child-Keeps version branch (suc r) m in
      let masked = masked_route_lpm_address-Agree prefix version common a in
      let link : Link version nodes1 m.prefix common branch r = record {
        target = node;
        at = get-append nodes m r h;
        longer = l;
        inside = λ i hi. s.same i hi ∙ sym (masked i hi);
        bit = refl;
      } in
      record {
        trie =
            modify-IsTrie version nodes1 (length nodes) f m (append-IsTrie version nodes m t new)
              (get-append_last nodes m) keeps
              (with_child-Linked version nodes1 m branch r (bit_lt version node.prefix common)
                (IsNode-Grown version grown1 new).links link);
        grown =
            Grown-trans version nodes nodes1 _ grown1
              (modify-Grown version nodes1 (length nodes) f m (get-append_last nodes m) keeps);
        node = parent_of prefix common node r;
        at = get-modify_self nodes1 (length nodes) f (get-append_last nodes m);
        len = keeps.1;
        inside = rw keeps.0 masked;
      }

  pub split-Inserted :
      (nodes : List (Node P)) (r : ℕ) (node : Node P) (prefix : Address) (common len low : ℕ)
      (payload : P)
      → IsTrie version nodes
      → get_elem? nodes r ≡ some node
      → IsAddress prefix
      → len ≤ width_of version
      → low ≤ common
      → common < node.prefix_length
      → Shared version node.prefix prefix (limit_of node.prefix_length len) common
      → Inserted version nodes
          (suc r)
          prefix
          low
          (split version empty place nodes (suc r) node common prefix len payload)
  unfolding split append_node
  split-Inserted nodes r node prefix common len low payload t h a w l c s =
      elim (Bool-cases (leb (2 ^ 32 - 1) (length nodes))) [
        | inl no_room ↦ rw (split, no_room) full
        | inr room ↦
            let next : length nodes + 1 ≡ suc (length nodes) = omega arith in
            let pred : suc (length nodes) - 1 ≡ length nodes = omega arith in
            let bounds = limit-le node.prefix_length len in
            let p =
              with_parent-Parent nodes r node prefix common (limit_of node.prefix_length len) t h a
                (omega (arith, s.bound, bounds.1, w)) s c in
            let after = with_parent nodes prefix common node r in
            let deeper : (i : ℕ) (n : Node P)
                → suc r ≡ suc i
                → get_elem? nodes i ≡ some n
                → low < n.prefix_length =
              λ i n e g.
                let at : r ≡ i = omega (arith, e) in
                let is : n ≡ node = same_node n node g (rw at at h) in rw is (omega arith) in
            rw (split, room, next, pred)
              (elim (Bool-cases (common == len)) [
                | inl whole ↦ rw whole (
                    placed (length nodes) _ (
                      payload-Placed version nodes after (suc r) (length nodes) p.node prefix low
                        payload p.trie p.grown p.at (omega (arith, p.len))
                        (λ i hi. p.inside i (omega arith))
                        (λ i n e g q. absurd (omega (arith, deeper i n e g)))))
                | inr part ↦ rw part (
                    Inserted-split version p.grown deeper (
                      attach-Inserted version after (length nodes) p.node common 0 prefix low p.at
                        p.len l p.inside
                        (leaf-Placed version after payload prefix len (common + 1) p.trie a w
                          (ground (arith, s.bound, bounds.1)))))
              ])
      ]
