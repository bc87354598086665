-- ===== src/Boltstore/RouteLpm/Layout.antt =====
-- internal/boltstore/route_lpm.go: the reader of a node finds the node that Encode wrote.
use bgp_api.Base.{
  ℕ, zero, suc, ◌+◌, ◌*◌, ◌^◌, ◌<◌, ◌≡◌, refl, sym, ap, ◌∙◌, arith, false, Bytes, List, [], ◌∷◌,
  ◌++◌, append_assoc, length, length-append, get_or, take, drop, take-append, drop-append, leb,
  lt→leb,
}
use bgp_api.Golang.Binary.{put_uint32, uint32}
use bgp_api.Golang.Binary.Words.{length-put_uint32, uint32-put_uint32}
use bgp_api.Boltstore.Trie.{ok, Node}
use bgp_api.Boltstore.RouteLpm.{Ids, ids_of, node_bytes, DecodedNode, decode_route_lpm_node}

pub record IsNode (n : Node Ids) : Type 0 where
  pub prefix : length n.prefix ≡ 16
  pub child0 : n.child0 < 2 ^ 32
  pub child1 : n.child1 < 2 ^ 32

-- The IDs in front of a node's.
abbrev pub offset_at : List (Node Ids) → ℕ → ℕ
offset_at [] i = 0
offset_at (n ∷ ns) zero = 0
offset_at (n ∷ ns) (suc i) = length (ids_of n.payload) + offset_at ns i

drop_at : (k : ℕ) (xs ys : Bytes) → length xs ≡ k → drop k (xs ++ ys) ≡ ys
drop_at k xs ys h = rw (sym h) (drop-append xs ys)

take_at : (k : ℕ) (xs ys : Bytes) → length xs ≡ k → take k (xs ++ ys) ≡ xs
take_at k xs ys h = rw (sym h) (take-append xs ys)

get_or_at : (k : ℕ) (xs ys : Bytes) (l : ℕ) → length xs ≡ k → get_or (xs ++ (l ∷ ys)) k 0 ≡ l
get_or_at zero [] ys l h = refl
get_or_at (suc k) [] ys l h = absurd (omega arith)
get_or_at zero (x ∷ xs) ys l h = absurd (omega arith)
get_or_at (suc k) (x ∷ xs) ys l h = get_or_at k xs ys l (omega arith)

pub length-node_bytes : (n : Node Ids) (o : ℕ) → IsNode n → length (node_bytes n o) ≡ 33
unfolding node_bytes put_uint32
length-node_bytes n o h = rw (length-append, h.prefix) (omega arith)

word_at :
    (k : ℕ) (xs ys : Bytes) (w : ℕ) {v : Bytes}
    → v ≡ xs ++ (put_uint32 w ++ ys)
    → length xs ≡ k
    → w < 2 ^ 32
    → uint32 (drop k v) ≡ w
word_at k xs ys w e hl hw = rw (e, drop_at k xs (put_uint32 w ++ ys) hl) (uint32-put_uint32 w ys hw)

-- A node in the middle of a value.
pub record NodeAt (v : Bytes) (start : ℕ) (n : Node Ids) (o : ℕ) : Type 0 where
  pub before : Bytes
  pub after : Bytes
  pub layout : v ≡ before ++ (node_bytes n o ++ after)
  pub size : length before ≡ start

abbrev pub decoded : Node Ids → ℕ → DecodedNode
decoded n o = record {
  prefix = n.prefix;
  prefix_length = n.prefix_length;
  child0 = n.child0;
  child1 = n.child1;
  id_offset = o;
  id_count = length (ids_of n.payload);
}

pub read_node :
    (v : Bytes) (index count : ℕ) (n : Node Ids) (o : ℕ)
    → index < count
    → IsNode n
    → o < 2 ^ 32
    → length (ids_of n.payload) < 2 ^ 32
    → NodeAt v (16 + index * 33) n o
    → decode_route_lpm_node v index count ≡ ok (decoded n o)
unfolding decode_route_lpm_node node_bytes
read_node v index count n o hi hn ho hc at =
    let c = length (ids_of n.payload) in
    let r3 = put_uint32 c ++ at.after in
    let r2 = put_uint32 o ++ r3 in
    let r1 = put_uint32 n.child1 ++ r2 in
    let r0 = put_uint32 n.child0 ++ r1 in
    let p0 = at.before ++ n.prefix in
    let p1 = p0 ++ (n.prefix_length ∷ []) in
    let p2 = p1 ++ put_uint32 n.child0 in
    let p3 = p2 ++ put_uint32 n.child1 in
    let p4 = p3 ++ put_uint32 o in
    let n0 : length p0 ≡ 16 + index * 33 + 16 =
      rw length-append (omega (arith, at.size, hn.prefix)) in
    let n1 : length p1 ≡ 16 + index * 33 + 17 = rw length-append (omega (arith, n0)) in
    let n2 : length p2 ≡ 16 + index * 33 + 21 =
      rw (length-append, length-put_uint32) (omega (arith, n1)) in
    let n3 : length p3 ≡ 16 + index * 33 + 25 =
      rw (length-append, length-put_uint32) (omega (arith, n2)) in
    let n4 : length p4 ≡ 16 + index * 33 + 29 =
      rw (length-append, length-put_uint32) (omega (arith, n3)) in
    let at_prefix : v ≡ at.before ++ (n.prefix ++ (n.prefix_length ∷ r0)) =
      at.layout ∙ simp append_assoc in
    let at_length : v ≡ p0 ++ (n.prefix_length ∷ r0) = at.layout ∙ simp append_assoc in
    let at_child0 : v ≡ p1 ++ r0 = at.layout ∙ simp append_assoc in
    let at_child1 : v ≡ p2 ++ r1 = at.layout ∙ simp append_assoc in
    let at_offset : v ≡ p3 ++ r2 = at.layout ∙ simp append_assoc in
    let at_count : v ≡ p4 ++ r3 = at.layout ∙ simp append_assoc in
    let s0 : take 16 (drop (16 + index * 33) v) ≡ n.prefix =
      ap (take 16)
        (ap (drop (16 + index * 33)) at_prefix ∙ drop_at (16 + index * 33) at.before _ at.size)
      ∙ take_at 16 n.prefix (n.prefix_length ∷ r0) hn.prefix in
    let s1 : get_or v (16 + index * 33 + 16) 0 ≡ n.prefix_length =
      ap (λ t. get_or t (16 + index * 33 + 16) 0) at_length
      ∙ get_or_at (16 + index * 33 + 16) p0 r0 n.prefix_length n0 in
    let s2 : uint32 (drop (16 + index * 33 + 17) v) ≡ n.child0 =
      word_at _ p1 r1 n.child0 at_child0 n1 hn.child0 in
    let s3 : uint32 (drop (16 + index * 33 + 21) v) ≡ n.child1 =
      word_at _ p2 r2 n.child1 at_child1 n2 hn.child1 in
    let s4 : uint32 (drop (16 + index * 33 + 25) v) ≡ o = word_at _ p3 r3 o at_offset n3 ho in
    let s5 : uint32 (drop (16 + index * 33 + 29) v) ≡ c = word_at _ p4 at.after c at_count n4 hc in
    let bound : leb count index ≡ false = lt→leb count index hi in
    simp (bound, s0, s1, s2, s3, s4, s5) refl
