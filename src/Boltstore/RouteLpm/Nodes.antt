-- ===== src/Boltstore/RouteLpm/Nodes.antt =====
-- internal/boltstore/route_lpm.go: where Encode puts a node and its IDs.
use bgp_api.Base.{
  ℕ, zero, suc, ◌+◌, ◌-◌, ◌*◌, ◌^◌, ◌<◌, ◌≡◌, inl, inr, refl, sym, ap, ◌∙◌, arith, Bytes, List, [],
  ◌∷◌, ◌++◌, append_assoc, length, length-append, get_elem?, All, ltb, some, if◌then◌else◌,
  Bool-cases, ltb→le,
}
use bgp_api.Golang.Binary.{put_uint32}
use bgp_api.Boltstore.Trie.{Outcome, ok, err, panic, stuck, Node, too_many_ids, too_large}
use bgp_api.Boltstore.RouteLpm.{
  Ids, total_ids, encode_nodes, encode_route_lpm, route_header, RouteLpmStats,
  decode_route_lpm_node, header_size, node_size,
}
use bgp_api.Boltstore.RouteLpm.Layout.{IsNode, offset_at, read_node, decoded}
use bgp_api.Boltstore.RouteLpm.Bodies.{Parts, body_at, offset_at_le}

get_elem?-lt :
    (ns : List (Node Ids)) (i : ℕ) {n : Node Ids} → get_elem? ns i ≡ some n → i < length ns
get_elem?-lt [] i h = cc
get_elem?-lt (m ∷ ns) zero h = omega arith
get_elem?-lt (m ∷ ns) (suc i) h = omega (arith, get_elem?-lt ns i h)

All-get_elem? :
    (ns : List (Node Ids)) (i : ℕ) {n : Node Ids}
    → All IsNode ns
    → get_elem? ns i ≡ some n
    → IsNode n
All-get_elem? [] i h at = cc
All-get_elem? (m ∷ ns) zero {n} h at = let e : m ≡ n = cc in rw (sym e) h.0
All-get_elem? (m ∷ ns) (suc i) h at = All-get_elem? ns i h.1 at

abbrev value_of : Outcome (Bytes × RouteLpmStats) → Bytes
value_of (ok p) = p.0
value_of (err e) = []
value_of panic = []
value_of stuck = []

abbrev pub header_of : ℕ → List (Node Ids) → Bytes
header_of version ns = route_header version (length ns) (total_ids ns)

abbrev Encoded : Type 0
Encoded = Outcome (Bytes × RouteLpmStats)

-- What Encode makes of the parts of the nodes.
abbrev finish : ℕ → List (Node Ids) → Outcome Parts → Encoded
finish version ns (ok p) = ok (
  header_of version ns ++ (p.0 ++ p.1),
  record {
    nodes = length ns;
    ids = total_ids ns;
    bytes = header_size + length ns * node_size + total_ids ns * 4;
  },
)
finish version ns (err e) = err e
finish version ns panic = panic
finish version ns stuck = stuck

encode_steps :
    (version : ℕ) (ns : List (Node Ids))
    → encode_route_lpm version ns ≡ (
        if ltb (2 ^ 32 - 1) (total_ids ns)
        then err too_many_ids
        else if ltb (2 ^ 63 - 1) (header_size + length ns * node_size + total_ids ns * 4)
        then err too_large
        else finish version ns (encode_nodes ns 0))
unfolding encode_route_lpm
encode_steps version ns = refl

pub record Layout (version : ℕ) (ns : List (Node Ids)) (value : Bytes) : Type 0 where
  pub body : Bytes
  pub tail : Bytes
  pub parts : encode_nodes ns 0 ≡ ok (body, tail)
  pub split : value ≡ header_of version ns ++ (body ++ tail)
  pub few : total_ids ns < 2 ^ 32

finished :
    (version : ℕ) (ns : List (Node Ids)) (r : Outcome Parts) {value : Bytes} {stats : RouteLpmStats}
    → total_ids ns < 2 ^ 32
    → encode_nodes ns 0 ≡ r
    → finish version ns r ≡ ok (value, stats)
    → Layout version ns value
finished version ns (ok p) few q e = record {
  body = p.0;
  tail = p.1;
  parts = q;
  split = sym (ap value_of e);
  few = few;
}
finished version ns (err x) few q e = cc
finished version ns panic few q e = cc
finished version ns stuck few q e = cc

pub Layout-of :
    (version : ℕ) (ns : List (Node Ids)) {value : Bytes} {stats : RouteLpmStats}
    → encode_route_lpm version ns ≡ ok (value, stats)
    → Layout version ns value
Layout-of version ns {value} {stats} h =
    let steps = sym (encode_steps version ns) ∙ h in
    elim (Bool-cases (ltb (2 ^ 32 - 1) (total_ids ns))) [
      | inl many ↦
          let e : ◌≡◌ {A = Encoded} (err too_many_ids) (ok (value, stats)) = simp many at steps in
          cc
      | inr few ↦
          elim (Bool-cases
            (ltb (2 ^ 63 - 1) (header_size + length ns * node_size + total_ids ns * 4))) [
              | inl large ↦
                  let e : ◌≡◌ {A = Encoded} (err too_large) (ok (value, stats)) =
                    simp (few, large) at steps in
                  cc
              | inr small ↦
                  finished version ns (encode_nodes ns 0)
                    (omega (arith, ltb→le (2 ^ 32 - 1) (total_ids ns) few)) refl
                    (simp (few, small) at steps)
            ]
    ]

length-header_of : (version : ℕ) (ns : List (Node Ids)) → length (header_of version ns) ≡ 16
unfolding put_uint32
length-header_of version ns = refl

-- For nodes with sixteen bytes of prefix and uint32 children, decodeRouteLPMNode reads from the bytes of
-- Encode, at each node's index, that node's prefix, length and children, with the count of its IDs and
-- the number of IDs in front of them.
pub decode_route_lpm_node-encode_route_lpm :
    (version : ℕ) (ns : List (Node Ids)) (i : ℕ) (n : Node Ids) {value : Bytes}
    {stats : RouteLpmStats}
    → All IsNode ns
    → encode_route_lpm version ns ≡ ok (value, stats)
    → get_elem? ns i ≡ some n
    → decode_route_lpm_node value i (length ns) ≡ ok (decoded n (offset_at ns i))
decode_route_lpm_node-encode_route_lpm version ns i n h e at =
    let l = Layout-of version ns e in
    let b = body_at ns 0 i n h l.parts at in
    let few = offset_at_le ns i at in
    let z : 0 + offset_at ns i ≡ offset_at ns i = omega arith in
    read_node _ i (length ns) n (offset_at ns i) (get_elem?-lt ns i at) (All-get_elem? ns i h at)
      (omega (arith, few, l.few)) (omega (arith, few, l.few))
      (record {
        before = header_of version ns ++ b.before;
        after = b.after ++ l.tail;
        layout =
            l.split
            ∙ ap (λ t. header_of version ns ++ (t ++ l.tail)) b.layout
            ∙ rw z (simp append_assoc);
        size = rw (length-append, length-header_of version ns) (omega (arith, b.size));
      })
