-- ===== src/Boltstore/Selection.antt =====
-- internal/boltstore/selection_lpm.go: the trie that selects one record, its bytes, and the lookup.
mod Runs
pub mod Width
pub mod Least
use Prim.Native.Nat.{compare, Ordering}
use bgp_api.Base.{
  ℕ, zero, suc, ◌+◌, ◌-◌, ◌*◌, ◌/◌, ◌%◌, ◌^◌, Bool, true, false, not, ◌&&◌, ◌||◌, Bytes, List, [],
  ◌∷◌, ◌++◌, length, get_or, take, drop, replicate, leb, ltb, ◌==◌, if◌then◌else◌, Option, none,
  some,
}
use bgp_api.Golang.Binary.{put_uint32, uint32}
use bgp_api.Golang.ByteSlice.{bytes_equal, compare_bytes}
use bgp_api.Golang.Text.{codes}
use bgp_api.Golang.Netip.{Addr, is4, Prefix, masked}
use bgp_api.Boltstore.Keys.{Address, address_from_addr}
use bgp_api.Boltstore.Lpm.{route_lpm_bit, offset_of, width_of}
use bgp_api.Boltstore.RouteLpm.{route_lpm_key}
use bgp_api.Boltstore.Trie.{
  LpmError, Outcome, ok, err, panic, stuck, Node, insert, keep_root, of_version, no_record_id,
  wrong_version, too_large, invalid_header, no_root, invalid_length, missing_node, invalid_version,
}

-- An ID of zero stands for no candidate.
pub record Candidate : Type 0 where
  pub id : ℕ
  pub width : Address

abbrev pub no_candidate : Candidate
no_candidate = record { id = 0; width = replicate 16 0 }

unfoldable pub selection_lpm_key : ℕ → Bytes
unfolding route_lpm_key
selection_lpm_key version = route_lpm_key version

-- One round of the loop in selectionRangeWidth: the byte and the borrow for the next one.
abbrev pub subtract_byte : ℕ → ℕ → ℕ → ℕ × ℕ
subtract_byte e s borrow =
    if ltb e (s + borrow) then (e + 256 - (s + borrow), 1) else (e - (s + borrow), 0)

-- The loop runs from the last byte to the first.
unfoldable pub subtract_bytes : Bytes → Bytes → Bytes × ℕ
subtract_bytes [] ss = ([], 0)
subtract_bytes (e ∷ es) [] = ([], 0)
subtract_bytes (e ∷ es) (s ∷ ss) =
    let rest = subtract_bytes es ss in
    let round = subtract_byte e s rest.1 in (round.0 ∷ rest.0, round.1)

unfoldable pub selection_range_width : Address → Address → Address
unfolding subtract_bytes
selection_range_width start end = (subtract_bytes end start).0

unfoldable pub selection_candidate_less : Candidate → Candidate → Bool
unfolding compare_bytes
selection_candidate_less left right = elim (compare_bytes left.width right.width) [
  | Ordering.lt ↦ true
  | Ordering.gt ↦ false
  | Ordering.eq ↦ ltb left.id right.id
]

-- A node keeps the lesser of two candidates.
unfoldable pub place_candidate : Candidate → Candidate → Option Candidate
unfolding selection_candidate_less
place_candidate old new =
    some (if old.id == 0 || selection_candidate_less new old then new else old)

-- Insert. A trie is no deeper than its version's width, and 130 is above 128.
unfoldable pub insert_selection :
    ℕ → List (Node Candidate) → Prefix → ℕ → Address → Address → Outcome (List (Node Candidate))
unfolding insert keep_root place_candidate masked address_from_addr selection_range_width
insert_selection version nodes prefix id start end =
    let prefix' = masked prefix in
    let candidate : Candidate = record { id = id; width = selection_range_width start end } in
    if not (of_version version prefix'.addr)
    then err wrong_version
    else if id == 0
    then err no_record_id
    else keep_root (
        insert version no_candidate place_candidate 130 nodes 1 (address_from_addr prefix'.addr)
          prefix'.bits candidate)

-- The size of a node, and of an address in it.
unfoldable pub selection_lpm_node_layout : ℕ → Outcome (ℕ × ℕ)
selection_lpm_node_layout version =
    if version == 4 then ok (21, 4) else if version == 6 then ok (45, 16) else err invalid_version

abbrev pub selection_address_bytes : Address → ℕ → Bytes
selection_address_bytes value version = if version == 4 then drop 12 value else value

-- The first twelve bytes of an IPv4 width stay as they are.
abbrev pub selection_copy_address_bytes : Address → Bytes → ℕ → Address
selection_copy_address_bytes destination source version =
    if version == 4 then take 12 destination ++ source else source

unfoldable pub selection_node_bytes : ℕ → Node Candidate → Bytes
selection_node_bytes version n =
    selection_address_bytes n.prefix version
    ++ (n.prefix_length
        ∷ (put_uint32 n.child0
            ++ (put_uint32 n.child1
                ++ (put_uint32 n.payload.id ++ selection_address_bytes n.payload.width version))))

unfoldable pub selection_nodes_bytes : ℕ → List (Node Candidate) → Bytes
unfolding selection_node_bytes
selection_nodes_bytes version [] = []
selection_nodes_bytes version (n ∷ ns) =
    selection_node_bytes version n ++ selection_nodes_bytes version ns

pub record SelectionLpmStats : Type 0 where
  pub nodes : ℕ
  pub bytes : ℕ

unfoldable pub encode_selection_lpm :
    ℕ → List (Node Candidate) → Outcome (Bytes × SelectionLpmStats)
unfolding selection_lpm_node_layout selection_nodes_bytes
encode_selection_lpm version nodes = elim (selection_lpm_node_layout version) [
  | err e ↦ err e
  | panic ↦ panic
  | stuck ↦ stuck
  | ok (node_size, address_bytes) ↦
      let bytes = 16 + length nodes * node_size in
      if ltb (2 ^ 63 - 1) bytes
      then err too_large
      else ok (
        codes "SLP2"
            ++ (version
                ∷ 0
                ∷ 0
                ∷ 0
                ∷ (put_uint32 (length nodes)
                    ++ (replicate 4 0 ++ selection_nodes_bytes version nodes))),
        record { nodes = length nodes; bytes = bytes },
      )
]

-- The byte in which a length ends is compared under a mask of its first bits.
unfoldable pub selection_address_matches : Address → Bytes → ℕ → ℕ → Bool
unfolding compare_bytes
selection_address_matches address prefix version length =
    let whole = length / 8 in
    let offset = offset_of version in
    let unit = 2 ^ (8 - length % 8) in
    if not (bytes_equal (take whole (drop offset address)) (take whole prefix))
    then false
    else if length % 8 == 0
    then true
    else get_or address (offset + whole) 0 / unit * unit == get_or prefix whole 0 / unit * unit

unfoldable pub selection_encoded_candidate_less : Bytes → ℕ → ℕ → Address → ℕ → ℕ → ℕ → Bool
unfolding compare_bytes
selection_encoded_candidate_less width id prefix_length best_width best_id best_prefix_length
      version =
    elim (compare_bytes width (selection_address_bytes best_width version)) [
      | Ordering.lt ↦ true
      | Ordering.gt ↦ false
      | Ordering.eq ↦
          if not (prefix_length == best_prefix_length)
          then ltb best_prefix_length prefix_length
          else ltb id best_id
    ]

pub record Best : Type 0 where
  pub id : ℕ
  pub width : Address
  pub prefix_length : ℕ

-- The candidate of one node against the best so far.
unfoldable pub better : ℕ → Best → ℕ → ℕ → Bytes → Best
unfolding selection_encoded_candidate_less
better version best id prefix_length width =
    if not (id == 0)
      && (best.id == 0
          || selection_encoded_candidate_less width id prefix_length best.width best.id
              best.prefix_length version)
    then record {
      id = id;
      width = selection_copy_address_bytes best.width width version;
      prefix_length = prefix_length;
    }
    else best

-- The loop of LookupSelectionLPM.
unfoldable pub selection_loop : ℕ → Bytes → ℕ → ℕ → ℕ → ℕ → Address → ℕ → Best → Outcome ℕ
unfolding selection_address_matches better
selection_loop zero value version node_size address_bytes count query current best = stuck
selection_loop (suc fuel) value version node_size address_bytes count query current best =
    let node = drop (16 + current * node_size) value in
    let prefix_length = get_or node address_bytes 0 in
    let branch = route_lpm_bit query version prefix_length in
    let next = uint32 (drop (address_bytes + 1 + branch * 4) node) in
    let id = uint32 (drop (address_bytes + 9) node) in
    let best' =
      better version best id prefix_length (take address_bytes (drop (address_bytes + 13) node)) in
    let deeper =
      selection_loop fuel value version node_size address_bytes count query (next - 1) best' in
    if leb count current
    then err missing_node
    else if ltb (width_of version) prefix_length
        || not (selection_address_matches query (take address_bytes node) version prefix_length)
    then ok best.id
    else if leb (width_of version) prefix_length || next == 0
    then ok best'.id
    else deeper

-- LookupSelectionLPM; `fuel` bounds the rounds of the loop.
unfoldable pub lookup_selection_lpm : ℕ → Bytes → Addr → Outcome ℕ
unfolding selection_lpm_node_layout selection_loop address_from_addr
lookup_selection_lpm fuel value address =
    let version = if is4 address then 4 else 6 in
    let count = uint32 (drop 8 value) in
    elim (selection_lpm_node_layout version) [
      | err e ↦ err e
      | panic ↦ panic
      | stuck ↦ stuck
      | ok (node_size, address_bytes) ↦
          if ltb (length value) 16
            || not (bytes_equal (take 4 value) (codes "SLP2"))
            || not (get_or value 4 0 == version)
          then err invalid_header
          else if count == 0
          then err no_root
          else if not (16 + count * node_size == length value)
          then err invalid_length
          else selection_loop fuel value version node_size address_bytes count
              (address_from_addr address) 0
              (record { id = 0; width = replicate 16 0; prefix_length = 0 })
    ]
