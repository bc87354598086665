-- ===== src/Boltstore/RouteLpm.antt =====
-- internal/boltstore/route_lpm.go: the trie of routes, its bytes, and the lookup in the bytes.
mod Runs
pub mod Layout
pub mod Bodies
pub mod Nodes
pub mod Cycle
pub mod Insertion
pub mod Reach
pub mod Longest
pub mod Search
pub mod Parts
pub mod Lookup
mod Tries
use bgp_api.Base.{
  ℕ, zero, suc, ◌+◌, ◌-◌, ◌*◌, ◌^◌, Bool, false, not, ◌&&◌, ◌||◌, Bytes, List, [], ◌∷◌, ◌++◌,
  length, get_or, take, drop, leb, ltb, ◌==◌, if◌then◌else◌, Option, none, some,
}
use bgp_api.Golang.Binary.{put_uint32, uint32}
use bgp_api.Golang.ByteSlice.{bytes_equal}
use bgp_api.Golang.Text.{codes}
use bgp_api.Golang.Netip.{Addr, is4, Prefix, masked}
use bgp_api.Boltstore.Keys.{Address, address_from_addr, encode_ids, decode_ids_loop}
use bgp_api.Boltstore.Lpm.{route_lpm_bit, route_lpm_address_matches, width_of}
use bgp_api.Boltstore.Trie.{
  Outcome, ok, err, panic, stuck, Node, insert, keep_root, of_version, no_payload, wrong_version,
  too_many_ids, too_large, no_record_id, invalid_header, no_root, invalid_length, invalid_id_range,
  missing_node,
}

-- `ids`, where `none` is nil.
abbrev pub Ids : Type 0
Ids = Option (List ℕ)

abbrev pub ids_of : Ids → List ℕ
ids_of none = []
ids_of (some ids) = ids

-- A node takes IDs only once.
unfoldable pub place_ids : Ids → Ids → Option Ids
place_ids none ids = some ids
place_ids (some old) ids = none

abbrev pub header_size : ℕ
header_size = 16

abbrev pub node_size : ℕ
node_size = 33

-- Insert. A trie is no deeper than its version's width, and 130 is above 128.
unfoldable pub insert_route : ℕ → List (Node Ids) → Prefix → List ℕ → Outcome (List (Node Ids))
unfolding insert keep_root place_ids masked address_from_addr
insert_route version nodes prefix ids =
    let prefix' = masked prefix in
    if not (of_version version prefix'.addr)
    then err wrong_version
    else if length ids == 0
    then err no_payload
    else keep_root (
        insert version none place_ids 130 nodes 1 (address_from_addr prefix'.addr) prefix'.bits
          (some ids))

abbrev pub total_ids : List (Node Ids) → ℕ
total_ids [] = 0
total_ids (n ∷ ns) = length (ids_of n.payload) + total_ids ns

abbrev pub has_zero : List ℕ → Bool
has_zero [] = false
has_zero (id ∷ ids) = id == 0 || has_zero ids

unfoldable pub node_bytes : Node Ids → ℕ → Bytes
node_bytes n id_offset =
    n.prefix
    ++ (n.prefix_length
        ∷ (put_uint32 n.child0
            ++ (put_uint32 n.child1
                ++ (put_uint32 id_offset ++ put_uint32 (length (ids_of n.payload))))))

-- The loop of Encode: the nodes' part and the IDs' part grow side by side.
unfoldable pub encode_nodes : List (Node Ids) → ℕ → Outcome (Bytes × Bytes)
encode_nodes [] id_offset = ok ([], [])
encode_nodes (n ∷ ns) id_offset =
    let ids = ids_of n.payload in
    let rest = encode_nodes ns (id_offset + length ids) in
    if has_zero ids then err no_record_id else elim rest [
      | ok (nodes, tail) ↦ ok (node_bytes n id_offset ++ nodes, encode_ids ids ++ tail)
      | err e ↦ err e
      | panic ↦ panic
      | stuck ↦ stuck
    ]

pub record RouteLpmStats : Type 0 where
  pub nodes : ℕ
  pub ids : ℕ
  pub bytes : ℕ

abbrev pub route_header : ℕ → ℕ → ℕ → Bytes
route_header version nodes ids =
    codes "MLP2" ++ (version ∷ 0 ∷ 0 ∷ 0 ∷ (put_uint32 nodes ++ put_uint32 ids))

-- Encode. With at most 2 ^ 32 - 1 nodes, which appendNode ensures, no sum wraps around.
unfoldable pub encode_route_lpm : ℕ → List (Node Ids) → Outcome (Bytes × RouteLpmStats)
encode_route_lpm version nodes =
    let ids = total_ids nodes in
    let bytes = header_size + length nodes * node_size + ids * 4 in
    if ltb (2 ^ 32 - 1) ids
    then err too_many_ids
    else if ltb (2 ^ 63 - 1) bytes
    then err too_large
    else elim (encode_nodes nodes 0) [
      | ok (body, tail) ↦ ok (
        route_header version (length nodes) ids ++ (body ++ tail),
        record { nodes = length nodes; ids = ids; bytes = bytes },
      )
      | err e ↦ err e
      | panic ↦ panic
      | stuck ↦ stuck
    ]

unfoldable pub route_lpm_key : ℕ → Bytes
route_lpm_key version = if version == 4 then codes "ipv4" else codes "ipv6"

pub record DecodedNode : Type 0 where
  pub prefix : Address
  pub prefix_length : ℕ
  pub child0 : ℕ
  pub child1 : ℕ
  pub id_offset : ℕ
  pub id_count : ℕ

-- The offset is in the value, whose length the caller has compared with the count.
unfoldable pub decode_route_lpm_node : Bytes → ℕ → ℕ → Outcome DecodedNode
decode_route_lpm_node value index count =
    let offset = header_size + index * node_size in
    if leb count index
    then err missing_node
    else ok record {
      prefix = take 16 (drop offset value);
      prefix_length = get_or value (offset + 16) 0;
      child0 = uint32 (drop (offset + 17) value);
      child1 = uint32 (drop (offset + 21) value);
      id_offset = uint32 (drop (offset + 25) value);
      id_count = uint32 (drop (offset + 29) value);
    }

-- The loop of LookupRouteLPM, with the best range of IDs so far. A length above the width makes the
-- comparison read behind the sixteen bytes when no earlier bit differs.
unfoldable pub lookup_loop : ℕ → Bytes → ℕ → ℕ → Address → ℕ → ℕ → ℕ → Outcome (ℕ × ℕ)
lookup_loop zero value version count query current best_offset best_count = stuck
lookup_loop (suc fuel) value version count query current best_offset best_count =
    elim (decode_route_lpm_node value current count) [
      | err e ↦ err e
      | panic ↦ panic
      | stuck ↦ stuck
      | ok node ↦
          let bits = width_of version in
          let branch = route_lpm_bit query version node.prefix_length in
          let next = if branch == 0 then node.child0 else node.child1 in
          let offset = if ltb 0 node.id_count then node.id_offset else best_offset in
          let ids = if ltb 0 node.id_count then node.id_count else best_count in
          let deeper = lookup_loop fuel value version count query (next - 1) offset ids in
          if ltb bits node.prefix_length && route_lpm_address_matches query node.prefix version bits
          then panic
          else if not (route_lpm_address_matches query node.prefix version node.prefix_length)
          then ok (best_offset, best_count)
          else if leb bits node.prefix_length || next == 0
          then ok (offset, ids)
          else deeper
    ]

-- The header that a lookup accepts, and the counts in it.
unfoldable pub check_route_header : Bytes → ℕ → Outcome (ℕ × ℕ)
check_route_header value version =
    let nodes = uint32 (drop 8 value) in
    let ids = uint32 (drop 12 value) in
    if ltb (length value) header_size
      || not (bytes_equal (take 4 value) (codes "MLP2"))
      || not (get_or value 4 0 == version)
    then err invalid_header
    else if nodes == 0
    then err no_root
    else if not (header_size + nodes * node_size + ids * 4 == length value)
    then err invalid_length
    else ok (nodes, ids)

-- The IDs of the best range; none where there is none.
unfoldable pub read_best : Bytes → ℕ → ℕ → Outcome (ℕ × ℕ) → Outcome (List ℕ)
read_best value nodes ids (ok (offset, count)) =
    if count == 0
    then ok []
    else if ltb ids (offset + count)
    then err invalid_id_range
    else ok (decode_ids_loop count (drop (header_size + nodes * node_size + offset * 4) value))
read_best value nodes ids (err e) = err e
read_best value nodes ids panic = panic
read_best value nodes ids stuck = stuck

-- LookupRouteLPM; `fuel` bounds the rounds of the loop.
unfoldable pub lookup_route_lpm : ℕ → Bytes → Addr → Outcome (List ℕ)
lookup_route_lpm fuel value address =
    let version = if is4 address then 4 else 6 in
    elim (check_route_header value version) [
      | err e ↦ err e
      | panic ↦ panic
      | stuck ↦ stuck
      | ok (nodes, ids) ↦
          read_best value nodes ids
            (lookup_loop fuel value version nodes (address_from_addr address) 0 0 0)
    ]
