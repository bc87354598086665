-- ===== src/Boltstore/Trie/Root.antt =====
-- internal/boltstore/route_lpm.go and selection_lpm.go: an insertion from the root of a builder's trie.
use bgp_api.Base.{
  ℕ, zero, suc, ◌^◌, ◌-◌, ◌≤◌, ◌≡◌, refl, ◌∙◌, arith, take, List, [], ◌∷◌, get_elem?, Option, some,
  true, false, ◌==◌, Bytes, All, All-append, IsByte, drop, replicate, Bool-cases, inl, inr,
}
use bgp_api.Golang.ByteSlice.{bytes_equal}
use bgp_api.Golang.Netip.{
  Addr, v4, v6, unmap, bit_len, mapped_prefix, Prefix, masked, masked_addr, clear_from,
}
use bgp_api.Boltstore.Keys.{Address, place, address_from_addr}
use bgp_api.Boltstore.Keys.Order.{IsAddress}
use bgp_api.Boltstore.Keys.Prefixes.{IsPrefix, masked-IsAddr, length-address_from_addr}
use bgp_api.Boltstore.Lpm.{width_of}
use bgp_api.Boltstore.Lpm.Masked.{All-zeros}
use native.Mathlib.Nat.{div-mul-le_self}
use bgp_api.Boltstore.Trie.{
  Outcome, ok, err, duplicate_prefix, too_many_nodes, Node, insert, keep_root, initial_nodes,
  of_version,
}
use bgp_api.Boltstore.Trie.Links.{IsTrie, IsNode, same_node}
use bgp_api.Boltstore.Trie.Insert.{Inserted, placed, duplicate, full, present}
use bgp_api.Boltstore.Trie.Total.{insert-Inserted}

-- A trie whose first node is the root, with the empty prefix.
pub record IsRooted {P : Type 0} (version : ℕ) (nodes : List (Node P)) : Type 0 where
  pub trie : IsTrie version nodes
  pub root : Node P
  pub at : get_elem? nodes 0 ≡ some root
  pub len : root.prefix_length ≡ 0

-- An insertion gives such a trie, or one of two errors.
pub data Rooted {P : Type 0} (version : ℕ) : Outcome (List (Node P)) → Type 0 where
  rooted : {after : List (Node P)} → IsRooted version after → Rooted version (ok after)
  repeated : Rooted version (err duplicate_prefix)
  crowded : Rooted version (err too_many_nodes)

module _ {P : Type 0} (version : ℕ) where
  keep_root-Rooted :
      (nodes : List (Node P)) (prefix : Address) {o : Outcome (ℕ × List (Node P))}
      → IsRooted version nodes
      → Inserted version nodes 1 prefix 0 o
      → Rooted version (keep_root o)
  unfolding keep_root
  keep_root-Rooted nodes prefix r duplicate = repeated
  keep_root-Rooted nodes prefix r full = crowded
  keep_root-Rooted nodes prefix r (placed k after p) =
      let first : k ≡ 0 = p.same 0 r.root (omega arith) r.at r.len in
      let kept = p.grown 0 r.root r.at in
      rw first
        (rooted record { trie = p.trie; root = kept.new; at = kept.at; len = kept.length ∙ r.len })

  pub insert-Rooted :
      (empty : P) (place : P → P → Option P) (nodes : List (Node P)) (prefix : Address) (len : ℕ)
      (payload : P)
      → IsRooted version nodes
      → IsAddress prefix
      → len ≤ width_of version
      → Rooted version (keep_root (insert version empty place 130 nodes 1 prefix len payload))
  insert-Rooted empty place nodes prefix len payload r a w = keep_root-Rooted nodes prefix r (
      insert-Inserted version empty place 130 nodes 1 prefix len payload 0 r.trie a w (omega arith)
        (ground arith) (present 0 r.root r.at (omega arith) (λ i h. absurd (omega arith))))

abbrev sentinel : {P : Type 0} → P → Node P
sentinel empty = record {
  prefix = replicate 16 0;
  prefix_length = 0;
  child0 = 0;
  child1 = 0;
  payload = empty;
}

sentinel-IsNode :
    {P : Type 0} (version : ℕ) (nodes : List (Node P)) (empty : P)
    → IsNode version nodes (sentinel empty)
sentinel-IsNode version nodes empty = record {
  address = record { size = refl; bytes = All-zeros 16 };
  length = omega arith;
  links = λ b k hb e. absurd (ground (arith, e));
}

-- The trie that a builder begins with.
pub initial_nodes-IsRooted :
    {P : Type 0} (version : ℕ) (empty : P) → IsRooted version (initial_nodes empty)
initial_nodes-IsRooted version empty = record {
  trie = first;
  root = sentinel empty;
  at = refl;
  len = refl;
}
  where
    first : IsTrie version (initial_nodes empty)
    first zero n h =
        let e : n ≡ sentinel empty = same_node n (sentinel empty) h refl in
        rw e (sentinel-IsNode version (initial_nodes empty) empty)
    first (suc i) n h = absurd (cc)

-- The bytes of an address.
abbrev pub bytes_of : Addr → Bytes
bytes_of (v4 bytes) = bytes
bytes_of (v6 bytes zone) = bytes

All-drop : (n : ℕ) (xs : Bytes) → All IsByte xs → All IsByte (drop n xs)
All-drop zero xs h = h
All-drop (suc n) [] h = tt
All-drop (suc n) (x ∷ xs) h = All-drop n xs h.1

clear_from-All : (n : ℕ) (bs : Bytes) → All IsByte bs → All IsByte (clear_from n bs)
unfolding clear_from
clear_from-All n [] h = tt
clear_from-All n (b ∷ bs) h =
    (ground (arith, h.0, div-mul-le_self b (2 ^ (8 - n))), clear_from-All (n - 8) bs h.1)

pub place-All : (a : Addr) → All IsByte (bytes_of a) → All IsByte (place (unmap a))
unfolding unmap
place-All (v4 bytes) h = All-append IsByte (replicate 12 0) bytes (All-zeros 12) h
place-All (v6 bytes zone) h = elim (Bool-cases (bytes_equal (take 12 bytes) mapped_prefix)) [
  | inl e ↦
      rw e (All-append IsByte (replicate 12 0) (drop 12 bytes) (All-zeros 12) (All-drop 12 bytes h))
  | inr e ↦ rw e h
]

-- The address that is put into a trie.
pub address_from_addr-IsAddress :
    (p : Prefix)
    → IsPrefix p
    → All IsByte (bytes_of p.addr)
    → IsAddress (address_from_addr (masked p).addr)
unfolding masked address_from_addr
address_from_addr-IsAddress p h b = record {
  size =
      length-address_from_addr (masked_addr p.addr p.bits) (masked-IsAddr p.addr p.bits h.address);
  bytes = place-All (masked_addr p.addr p.bits) (masked-All p.addr p.bits b);
}
  where
    masked-All :
        (a : Addr) (n : ℕ) → All IsByte (bytes_of a) → All IsByte (bytes_of (masked_addr a n))
    masked-All (v4 bytes) n h = clear_from-All n bytes h
    masked-All (v6 bytes zone) n h = clear_from-All n bytes h

-- A length that fits the address fits the trie that takes it.
pub of_version-bits :
    (version : ℕ) (p : Prefix)
    → IsPrefix p
    → of_version version (masked p).addr ≡ true
    → p.bits ≤ width_of version
unfolding masked
of_version-bits version p h o = fits p.addr h.bits o
  where
    fits :
        (a : Addr)
        → p.bits ≤ bit_len a
        → of_version version (masked_addr a p.bits) ≡ true
        → p.bits ≤ width_of version
    fits (v4 bytes) b o' = ground arith
    fits (v6 bytes zone) b o' = elim (Bool-cases (version == 4)) [
      | inl e ↦ let bad : false ≡ true = simp e at o' in absurd (cc)
      | inr e ↦ rw e b
    ]
