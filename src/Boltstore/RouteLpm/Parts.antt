-- ===== src/Boltstore/RouteLpm/Parts.antt =====
-- internal/boltstore/route_lpm.go: the header and the IDs in the bytes of Encode, as a lookup reads them.
use bgp_api.Base.{
  ℕ, zero, suc, ◌+◌, ◌*◌, ◌^◌, ◌<◌, ◌≡◌, refl, sym, ap, ◌∙◌, arith, Bytes, List, [], ◌∷◌, ◌++◌,
  length, length-append, get_elem?, All, some, drop, false, true, ltb, ◌==◌, ==_iff,
}
use bgp_api.Golang.Binary.{put_uint32, uint32}
use bgp_api.Golang.Binary.Words.{uint32-put_uint32}
use bgp_api.Golang.ByteSlice.{compare_bytes}
use bgp_api.Boltstore.Keys.{encode_ids, decode_ids_loop}
use bgp_api.Boltstore.Keys.RoundTrip.{length-encode_ids, decode_ids_loop-encode_ids}
use bgp_api.Boltstore.Trie.{ok, Node}
use bgp_api.Boltstore.RouteLpm.{
  Ids, ids_of, total_ids, encode_nodes, encode_route_lpm, RouteLpmStats, check_route_header,
  read_best, route_header,
}
use bgp_api.Boltstore.RouteLpm.Layout.{IsNode, offset_at, length-node_bytes}
use bgp_api.Boltstore.RouteLpm.Bodies.{body_of, tail_of, encode_nodes-Later, offset_at_le}
use bgp_api.Boltstore.RouteLpm.Nodes.{header_of, Layout, Layout-of}

-- The IDs of all nodes, one after the other.
abbrev ids_bytes : List (Node Ids) → Bytes
ids_bytes [] = []
ids_bytes (n ∷ ns) = encode_ids (ids_of n.payload) ++ ids_bytes ns

record Sizes (ns : List (Node Ids)) (body tail : Bytes) : Type 0 where
  body_size : length body ≡ 33 * length ns
  tail_ids : tail ≡ ids_bytes ns

nothing_encoded :
    (o : ℕ) {body tail : Bytes} → encode_nodes [] o ≡ ok (body, tail) → Sizes [] body tail
unfolding encode_nodes
nothing_encoded o {body} {tail} h = record {
  body_size = ap length (sym (ap body_of h));
  tail_ids = sym (ap tail_of h);
}

encode_nodes-Sizes :
    (ns : List (Node Ids)) (o : ℕ) {body tail : Bytes}
    → All IsNode ns
    → encode_nodes ns o ≡ ok (body, tail)
    → Sizes ns body tail
encode_nodes-Sizes [] o hn h = nothing_encoded o h
encode_nodes-Sizes (n ∷ ns) o hn h =
    let l = encode_nodes-Later n ns o h in
    let r = encode_nodes-Sizes ns (o + length (ids_of n.payload)) hn.1 l.result in
    record {
      body_size =
          rw (l.split, length-append, length-node_bytes n o hn.0, r.body_size) (omega arith);
      tail_ids = l.join ∙ ap (λ t. encode_ids (ids_of n.payload) ++ t) r.tail_ids;
    }

length-ids_bytes : (ns : List (Node Ids)) → length (ids_bytes ns) ≡ 4 * total_ids ns
length-ids_bytes [] = refl
length-ids_bytes (n ∷ ns) = rw (length-append, length-encode_ids, length-ids_bytes ns) (omega arith)

drop_front : (k m : ℕ) (xs ys : Bytes) → length xs ≡ k → drop (k + m) (xs ++ ys) ≡ drop m ys
drop_front zero m [] ys h = ap (λ t. drop t ys) (omega arith)
drop_front zero m (x ∷ xs) ys h = absurd (omega arith)
drop_front (suc k) m [] ys h = absurd (omega arith)
drop_front (suc k) m (x ∷ xs) ys h =
    let e : suc k + m ≡ suc (k + m) = omega arith in rw e (drop_front k m xs ys (omega arith))

-- Behind the IDs of the nodes before it stand those of a node.
ids_at :
    (ns : List (Node Ids)) (i : ℕ) (n : Node Ids)
    → get_elem? ns i ≡ some n
    → All (λ m. All (λ id. id < 2 ^ 32) (ids_of m.payload)) ns
    → decode_ids_loop (length (ids_of n.payload)) (drop (offset_at ns i * 4) (ids_bytes ns))
      ≡ ids_of n.payload
ids_at [] i n h a = cc
ids_at (m ∷ ns) zero n h a =
    let e : m ≡ n = cc in
    rw (sym e) (decode_ids_loop-encode_ids (ids_of m.payload) (ids_bytes ns) a.0)
ids_at (m ∷ ns) (suc i) n h a =
    let c = length (ids_of m.payload) in
    let e : (c + offset_at ns i) * 4 ≡ 4 * c + offset_at ns i * 4 = omega arith in
    rw
      (
        e,
        drop_front (4 * c) (offset_at ns i * 4) (encode_ids (ids_of m.payload)) (ids_bytes ns)
            (length-encode_ids (ids_of m.payload)),
      )
      (ids_at ns i n h a.1)

first_word :
    (version a b : ℕ) (rest : Bytes)
    → a < 2 ^ 32
    → uint32 (drop 8 (route_header version a b ++ rest)) ≡ a
unfolding put_uint32
first_word version a b rest h = uint32-put_uint32 a (put_uint32 b ++ rest) h

second_word :
    (version a b : ℕ) (rest : Bytes)
    → b < 2 ^ 32
    → uint32 (drop 12 (route_header version a b ++ rest)) ≡ b
unfolding put_uint32
second_word version a b rest h = uint32-put_uint32 b rest h

length-route_header : (version a b : ℕ) → length (route_header version a b) ≡ 16
unfolding put_uint32
length-route_header version a b = refl

-- A header with the counts that the length of the value agrees with.
check_route_header-route_header :
    (version a b : ℕ) (rest : Bytes)
    → 0 < a
    → a < 2 ^ 32
    → b < 2 ^ 32
    → length rest ≡ a * 33 + b * 4
    → check_route_header (route_header version a b ++ rest) version ≡ ok (a, b)
unfolding check_route_header compare_bytes
check_route_header-route_header version a b rest z ha hb h =
    let size : length (route_header version a b ++ rest) ≡ 16 + a * 33 + b * 4 =
      rw (length-append, length-route_header, h) (omega arith) in
    let long : ltb (length (route_header version a b ++ rest)) 16 ≡ false = ground (arith, size) in
    let some_nodes : (a == 0) ≡ false = ground arith in
    let same : (version == version) ≡ true = (==_iff version version).1 refl in
    let fits : (16 + a * 33 + b * 4 == length (route_header version a b ++ rest)) ≡ true =
      (==_iff (16 + a * 33 + b * 4) (length (route_header version a b ++ rest))).1 (sym size) in
    simp
      (
        check_route_header,
        first_word version a b rest ha,
        second_word version a b rest hb,
        long,
        some_nodes,
        same,
        fits,
      )
      refl

-- What stands behind the header.
length-parts :
    (version : ℕ) (ns : List (Node Ids)) {value : Bytes}
    → All IsNode ns
    → (p : Layout version ns value) → length (p.body ++ p.tail) ≡ length ns * 33 + total_ids ns * 4
length-parts version ns hn p =
    let s = encode_nodes-Sizes ns 0 hn p.parts in
    rw (length-append, s.body_size, s.tail_ids, length-ids_bytes) (omega arith)

-- A lookup accepts the header that Encode writes.
pub check_route_header-encode_route_lpm :
    (version : ℕ) (ns : List (Node Ids)) {value : Bytes} {stats : RouteLpmStats}
    → All IsNode ns
    → 0 < length ns
    → length ns < 2 ^ 32
    → encode_route_lpm version ns ≡ ok (value, stats)
    → check_route_header value version ≡ ok (length ns, total_ids ns)
check_route_header-encode_route_lpm version ns hn h l e =
    let p = Layout-of version ns e in
    rw p.split (
      check_route_header-route_header version (length ns) (total_ids ns) (p.body ++ p.tail) h l
        p.few (length-parts version ns hn p))

ids_part :
    (version : ℕ) (ns : List (Node Ids)) (offset : ℕ) {value : Bytes}
    → All IsNode ns
    → Layout version ns value
    → drop (16 + length ns * 33 + offset * 4) value ≡ drop (offset * 4) (ids_bytes ns)
ids_part version ns offset hn p =
    let s = encode_nodes-Sizes ns 0 hn p.parts in
    let e : 16 + length ns * 33 + offset * 4 ≡ 16 + (33 * length ns + offset * 4) = omega arith in
    rw
      (
        p.split,
        e,
        drop_front 16 (33 * length ns + offset * 4) (header_of version ns) (p.body ++ p.tail)
            (length-route_header version (length ns) (total_ids ns)),
        drop_front (33 * length ns) (offset * 4) p.body p.tail s.body_size,
        s.tail_ids,
      )
      refl

-- The IDs at the offset of a node are the node's.
pub read_best-encode_route_lpm :
    (version : ℕ) (ns : List (Node Ids)) (i : ℕ) (n : Node Ids) {value : Bytes}
    {stats : RouteLpmStats}
    → All IsNode ns
    → All (λ m. All (λ id. id < 2 ^ 32) (ids_of m.payload)) ns
    → encode_route_lpm version ns ≡ ok (value, stats)
    → get_elem? ns i ≡ some n
    → 0 < length (ids_of n.payload)
    → read_best value (length ns) (total_ids ns) (ok (offset_at ns i, length (ids_of n.payload)))
      ≡ ok (ids_of n.payload)
unfolding read_best
read_best-encode_route_lpm version ns i n hn a e at h =
    let p = Layout-of version ns e in
    let some_ids : (length (ids_of n.payload) == 0) ≡ false = ground arith in
    let inside : ltb (total_ids ns) (offset_at ns i + length (ids_of n.payload)) ≡ false =
      ground (arith, offset_at_le ns i at) in
    let part = ids_part version ns (offset_at ns i) hn p in
    simp (read_best, some_ids, inside, part) (ap ok (ids_at ns i n at a))
