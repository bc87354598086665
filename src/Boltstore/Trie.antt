-- ===== src/Boltstore/Trie.antt =====
-- internal/boltstore/route_lpm.go and selection_lpm.go: the Patricia trie that both builders fill. The
-- two types of node differ in what a node carries, and the two insert methods in what they do with a
-- prefix that is there already; both are parameters here.
pub mod Nodes
pub mod Links
pub mod Insert
pub mod Split
pub mod Total
pub mod Root
use bgp_api.Base.{
  ℕ, zero, suc, ◌+◌, ◌-◌, ◌*◌, ◌^◌, Bool, true, false, Bytes, List, [], ◌∷◌, ◌++◌, length,
  get_elem?, leb, ltb, ◌==◌, if◌then◌else◌, Option, none, some, replicate, not, ◌&&◌, ◌||◌,
}
use bgp_api.Golang.ByteSlice.{bytes_equal}
use bgp_api.Golang.Netip.{Addr, is4, is6, zone_of}
use bgp_api.Boltstore.Keys.{Address}
use bgp_api.Boltstore.Lpm.{route_lpm_bit, route_lpm_common_prefix, masked_route_lpm_address}

pub data LpmError : Type 0 where
  wrong_version no_payload root_replaced missing_node duplicate_prefix too_many_nodes : LpmError
  too_many_ids no_record_id too_large invalid_header no_root invalid_length : LpmError
  invalid_id_range invalid_version : LpmError

-- A result, an error, a run-time panic, or fuel that ran out, which is no Go value.
pub data Outcome (A : Type 0) : Type 0 where
  ok : A → Outcome A
  err : LpmError → Outcome A
  panic stuck : Outcome A

-- `children[0]` and `children[1]`: one-based node indexes, zero for an absent child.
pub record Node (P : Type 0) : Type 0 where
  pub prefix : Address
  pub prefix_length : ℕ
  pub child0 : ℕ
  pub child1 : ℕ
  pub payload : P

module _ {P : Type 0} where
  abbrev pub child : Node P → ℕ → ℕ
  child n branch = if branch == 0 then n.child0 else n.child1

  abbrev pub with_child : Node P → ℕ → ℕ → Node P
  with_child n branch c = if branch == 0 then record n { child0 = c } else record n { child1 = c }

  abbrev pub with_payload : Node P → P → Node P
  with_payload n p = record n { payload = p }

  -- A change of the node at an index.
  unfoldable pub modify : List (Node P) → ℕ → (Node P → Node P) → List (Node P)
  modify [] i f = []
  modify (n ∷ ns) zero f = f n ∷ ns
  modify (n ∷ ns) (suc i) f = n ∷ modify ns i f

  unfoldable pub append_node : List (Node P) → Node P → Outcome (ℕ × List (Node P))
  append_node nodes n =
      if leb (2 ^ 32 - 1) (length nodes)
      then err too_many_nodes
      else ok (length nodes + 1, nodes ++ (n ∷ []))

  -- A new node with no children.
  abbrev pub leaf : P → Address → ℕ → ℕ → Node P
  leaf payload prefix version len = record {
    prefix = masked_route_lpm_address prefix version len;
    prefix_length = len;
    child0 = 0;
    child1 = 0;
    payload = payload;
  }

-- `nodes[reference-1].children[branch] = child`, after a call that gives the child.
unfoldable pub attach :
    {P : Type 0} → ℕ → ℕ → Outcome (ℕ × List (Node P)) → Outcome (ℕ × List (Node P))
unfolding modify
attach reference branch (ok (c, nodes)) =
    ok (reference, modify nodes (reference - 1) (λ n. with_child n branch c))
attach reference branch (err e) = err e
attach reference branch panic = panic
attach reference branch stuck = stuck

-- What an insertion does with the payload of a node that has the same prefix; `none` is an error.
module _ {P : Type 0} (version : ℕ) (empty : P) (place : P → P → Option P) where
  -- A node is split: `common` bits are shared, and the old node becomes a child of the new one.
  unfoldable pub split :
      List (Node P) → ℕ → Node P → ℕ → Address → ℕ → P → Outcome (ℕ × List (Node P))
  unfolding append_node modify attach
  split nodes reference node common prefix len payload =
      elim (append_node nodes (leaf empty prefix version common)) [
        | err e ↦ err e
        | panic ↦ panic
        | stuck ↦ stuck
        | ok (parent, nodes1) ↦
            let existing = route_lpm_bit node.prefix version common in
            let nodes2 = modify nodes1 (parent - 1) (λ n. with_child n existing reference) in
            if common == len
            then ok (parent, modify nodes2 (parent - 1) (λ n. with_payload n payload))
            else attach parent (route_lpm_bit prefix version common)
                (append_node nodes2 (leaf payload prefix version len))
      ]

  -- `fuel` bounds the depth of the trie below the node.
  unfoldable pub insert : ℕ → List (Node P) → ℕ → Address → ℕ → P → Outcome (ℕ × List (Node P))
  unfolding split append_node attach
  insert fuel nodes zero prefix len payload = append_node nodes (leaf payload prefix version len)
  insert zero nodes (suc r) prefix len payload = stuck
  insert (suc fuel) nodes (suc r) prefix len payload = elim (get_elem? nodes r) [
    | none ↦ err missing_node
    | some node ↦
        let common = route_lpm_common_prefix node.prefix node.prefix_length prefix len version in
        elim (common == node.prefix_length) [
          | true ↦ elim (common == len) [
            | true ↦ elim (place node.payload payload) [
              | none ↦ err duplicate_prefix
              | some p ↦ ok (suc r, modify nodes r (λ n. with_payload n p))
            ]
            | false ↦
                let branch = route_lpm_bit prefix version common in
                attach (suc r) branch (insert fuel nodes (child node branch) prefix len payload)
          ]
          | false ↦ split nodes (suc r) node common prefix len payload
        ]
  ]

-- The sentinel root, as both builders start with it.
abbrev pub initial_nodes : {P : Type 0} → P → List (Node P)
initial_nodes empty =
    record { prefix = replicate 16 0; prefix_length = 0; child0 = 0; child1 = 0; payload = empty }
    ∷ []

-- `root, err := builder.insert(1, ...)`: the root stays the first node.
unfoldable pub keep_root : {P : Type 0} → Outcome (ℕ × List (Node P)) → Outcome (List (Node P))
keep_root (ok (root, nodes)) = if root == 1 then ok nodes else err root_replaced
keep_root (err e) = err e
keep_root panic = panic
keep_root stuck = stuck

-- The test that begins both Insert methods.
abbrev pub of_version : ℕ → Addr → Bool
of_version version address =
    not (version == 4 && not (is4 address))
    && not (version == 6 && (not (is6 address) || not (bytes_equal (zone_of address) [])))
