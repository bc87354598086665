-- ===== src/Boltstore/Trie/Insert.antt =====
-- internal/boltstore/route_lpm.go and selection_lpm.go: an insertion keeps the links of the trie.
use native.Mathlib.Decide.{ℕ_discrete}
use bgp_api.Base.{
  ℕ, suc, ◌+◌, ◌-◌, ◌^◌, ◌≤◌, ◌<◌, ◌≡◌, ◌≢◌, refl, sym, ◌∙◌, arith, List, [], ◌∷◌, ◌++◌, length,
  get_elem?, some, true, false, leb, ◌==◌, Bool-cases, inl, inr,
}
use bgp_api.Boltstore.Keys.{Address}
use bgp_api.Boltstore.Keys.Order.{IsAddress}
use bgp_api.Boltstore.Lpm.{route_lpm_bit, width_of}
use bgp_api.Boltstore.Lpm.Common.{Agree}
use bgp_api.Boltstore.Lpm.Masked.{
  masked_route_lpm_address-Agree, masked_route_lpm_address-IsAddress,
}
use bgp_api.Boltstore.Trie.{
  Outcome, ok, err, duplicate_prefix, too_many_nodes, Node, child, with_child, append_node, leaf,
  attach,
}
use bgp_api.Boltstore.Trie.Nodes.{get-append_last, get-modify_self}
use bgp_api.Boltstore.Trie.Links.{
  Link, Linked, IsNode, IsTrie, Grown, Grown-trans, append-Grown, append-IsTrie, modify-Grown,
  modify-IsTrie, Keeps,
}

pub bit_lt : (version : ℕ) (prefix : Address) (n : ℕ) → route_lpm_bit prefix version n < 2
unfolding route_lpm_bit
bit_lt version prefix n = omega arith

module _ {P : Type 0} (version : ℕ) where
  -- A reference may stand below a node: none, or that of a node that shares the first bits.
  pub data Below (nodes : List (Node P)) (prefix : Address) (low : ℕ) : ℕ → Type 0 where
    absent : Below nodes prefix low 0
    present :
        (k : ℕ) (n : Node P)
        → get_elem? nodes k ≡ some n
        → low ≤ n.prefix_length
        → Agree version n.prefix prefix low
        → Below nodes prefix low (suc k)

  -- The trie after an insertion, and the node at `k` that stands where the reference stood.
  pub record Placed (nodes : List (Node P)) (reference : ℕ) (prefix : Address) (low k : ℕ)
      (after : List (Node P)) : Type 0 where
    pub trie : IsTrie version after
    pub grown : Grown version nodes after
    pub node : Node P
    pub at : get_elem? after k ≡ some node
    pub longer : low ≤ node.prefix_length
    pub inside : Agree version node.prefix prefix low
    pub same :
        (i : ℕ) (n : Node P)
        → reference ≡ suc i
        → get_elem? nodes i ≡ some n
        → n.prefix_length ≡ low
        → k ≡ i

  -- An insertion gives such a trie, or one of two errors.
  pub data Inserted (nodes : List (Node P)) (reference : ℕ) (prefix : Address) (low : ℕ)
      : Outcome (ℕ × List (Node P)) → Type 0 where
    placed :
        (k : ℕ) (after : List (Node P))
        → Placed nodes reference prefix low k after
        → Inserted nodes reference prefix low (ok (suc k, after))
    duplicate : Inserted nodes reference prefix low (err duplicate_prefix)
    full : Inserted nodes reference prefix low (err too_many_nodes)

  pub data AppendedNode (nodes : List (Node P)) (m : Node P)
      : Outcome (ℕ × List (Node P)) → Type 0 where
    appended : AppendedNode nodes m (ok (suc (length nodes), nodes ++ (m ∷ [])))
    no_room : AppendedNode nodes m (err too_many_nodes)

  append_node-AppendedNode :
      (nodes : List (Node P)) (m : Node P) → AppendedNode nodes m (append_node nodes m)
  unfolding append_node
  append_node-AppendedNode nodes m = elim (Bool-cases (leb (2 ^ 32 - 1) (length nodes))) [
    | inl e ↦ rw e no_room
    | inr e ↦ let s : length nodes + 1 ≡ suc (length nodes) = omega arith in rw (e, s) appended
  ]

  -- A new leaf has no children.
  pub leaf-IsNode :
      (nodes : List (Node P)) (payload : P) (prefix : Address) (len : ℕ)
      → IsAddress prefix
      → len ≤ width_of version
      → IsNode version nodes (leaf payload prefix version len)
  leaf-IsNode nodes payload prefix len a h = record {
    address = masked_route_lpm_address-IsAddress prefix version len a;
    length = h;
    links = λ b k hb e. absurd (ground (arith, e));
  }

  pub leaf-Placed :
      (nodes : List (Node P)) (payload : P) (prefix : Address) (len low : ℕ)
      → IsTrie version nodes
      → IsAddress prefix
      → len ≤ width_of version
      → low ≤ len
      → Inserted nodes 0 prefix low (append_node nodes (leaf payload prefix version len))
  leaf-Placed nodes payload prefix len low t a h l =
      from (append_node-AppendedNode nodes (leaf payload prefix version len))
    where
      from :
          {o : Outcome (ℕ × List (Node P))}
          → AppendedNode nodes (leaf payload prefix version len) o
          → Inserted nodes 0 prefix low o
      from appended = placed (length nodes) _ record {
        trie = append-IsTrie version nodes _ t (leaf-IsNode nodes payload prefix len a h);
        grown = append-Grown version nodes _;
        node = leaf payload prefix version len;
        at = get-append_last nodes _;
        longer = l;
        inside = λ i hi. masked_route_lpm_address-Agree prefix version len a i (omega arith);
        same = λ i n e. absurd (omega arith);
      }
      from no_room = full

  child-same : (n : Node P) (branch c : ℕ) → child (with_child n branch c) branch ≡ c
  child-same n branch c = elim (Bool-cases (branch == 0)) [ inl e ↦ rw e refl | inr e ↦ rw e refl ]

  child-other :
      (n : Node P) (branch b c : ℕ)
      → branch < 2
      → b < 2
      → b ≢ branch
      → child (with_child n branch c) b ≡ child n b
  child-other n branch b c h hb ne = elim (Bool-cases (branch == 0)) [
    | inl e ↦ let f : (b == 0) ≡ false = ground arith in rw (e, f) refl
    | inr e ↦ let f : (b == 0) ≡ true = ground arith in rw (e, f) refl
  ]

  pub with_child-Keeps : (branch c : ℕ) (n : Node P) → Keeps version (λ m. with_child m branch c) n
  with_child-Keeps branch c n = elim (Bool-cases (branch == 0)) [
    | inl e ↦ rw e (refl, refl)
    | inr e ↦ rw e (refl, refl)
  ]

  pub with_child-Linked :
      (nodes : List (Node P)) (n : Node P) (branch k : ℕ)
      → branch < 2
      → Linked version nodes n
      → Link version nodes n.prefix n.prefix_length branch k
      → Linked version nodes (with_child n branch (suc k))
  with_child-Linked nodes n branch k h l new b j hb e =
      let keeps = with_child-Keeps branch (suc k) n in
      rw (keeps.0, keeps.1)
        (elim (ℕ_discrete b branch) [
          | yes same ↦
              let is : suc k ≡ suc j = sym (child-same n branch (suc k)) ∙ (rw same at e) in
              let is' : j ≡ k = omega (arith, is) in rw (same, is') new
          | no ne ↦ l b j hb (sym (child-other n branch b (suc k) h hb ne) ∙ e)
        ])

  -- The node at `r` takes what was inserted below it as a child.
  pub attach-Inserted :
      (nodes : List (Node P)) (r : ℕ) (n : Node P) (len reference : ℕ) (prefix : Address) (low : ℕ)
      {o : Outcome (ℕ × List (Node P))}
      → get_elem? nodes r ≡ some n
      → n.prefix_length ≡ len
      → low ≤ len
      → Agree version n.prefix prefix len
      → Inserted nodes reference prefix (len + 1) o
      → Inserted nodes (suc r) prefix low (attach (suc r) (route_lpm_bit prefix version len) o)
  unfolding attach
  attach-Inserted nodes r n len reference prefix low h q l a duplicate = duplicate
  attach-Inserted nodes r n len reference prefix low h q l a full = full
  attach-Inserted nodes r n len reference prefix low h q l a (placed k after p) =
      let branch = route_lpm_bit prefix version len in
      let kept = p.grown r n h in
      let keeps = with_child-Keeps branch (suc k) kept.new in
      let small : branch < 2 = bit_lt version prefix len in
      let grown =
        modify-Grown version after r (λ m. with_child m branch (suc k)) kept.new kept.at keeps in
      let link : Link version after kept.new.prefix kept.new.prefix_length branch k =
        rw (kept.prefix, kept.length, q)
          record {
            target = p.node;
            at = p.at;
            longer = omega (arith, p.longer);
            inside = λ i hi. p.inside i (omega arith) ∙ sym (a i hi);
            bit = p.inside len (omega arith);
          } in
      let pred : suc r - 1 ≡ r = omega arith in
      rw pred (
        placed r _ record {
          trie =
              modify-IsTrie version after r (λ m. with_child m branch (suc k)) kept.new p.trie
                kept.at keeps
                (with_child-Linked after kept.new branch k small (p.trie r kept.new kept.at).links
                  link);
          grown = Grown-trans version _ _ _ p.grown grown;
          node = with_child kept.new branch (suc k);
          at = get-modify_self after r (λ m. with_child m branch (suc k)) kept.at;
          longer = rw (keeps.1, kept.length, q) l;
          inside = rw (keeps.0, kept.prefix) (λ i hi. a i (omega arith));
          same = λ i m e g d. omega (arith, e);
        })
