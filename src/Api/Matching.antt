-- ===== src/Api/Matching.antt =====
-- internal/api/bbolt.go: the record IDs that a prefix index holds for an address and for a range.
use bgp_api.Base.{
  ℕ, zero, suc, ◌+◌, ◌%◌, Bytes, Bool, not, ◌&&◌, ◌||◌, List, [], ◌∷◌, ◌++◌, length, get_or, take,
  drop, replicate, ltb, ◌==◌, if◌then◌else◌, Option, none, some,
}
use bgp_api.Golang.ByteSlice.{compare_bytes, bytes_equal, write_at}
use bgp_api.Golang.Netip.{Addr, bit_len}
use bgp_api.Boltstore.Keys.{
  Address, address_from_addr, index_key_size, prefix_key_size, put_prefix_key, index_id,
}
use bgp_api.Api.Reply.{Reply, ok, err, stuck, cancelled, query_too_broad, ◌>>=◌, of_result}
use bgp_api.Api.Bucket.{Bucket, key_of}
use bgp_api.Api.Range.Direct.{above}

abbrev pub max_candidates : ℕ
max_candidates = 64

abbrev pub max_overlap_index_entries : ℕ
max_overlap_index_entries = 2000000

-- The address's prefix of the given length, written into the empty buffer `seek`: `base`, with which
-- the keys of that prefix start.
unfoldable pub base_key : Addr → ℕ → Reply Bytes
base_key address length =
    of_result
      (put_prefix_key (replicate index_key_size 0) (record { addr = address; bits = length }))

abbrev pub seek_of : Bytes → Bytes
seek_of base = write_at 0 base (replicate index_key_size 0)

unfoldable pub has_base : Bytes → Bytes → Bool
unfolding compare_bytes
has_base base key = length key == index_key_size && bytes_equal (take prefix_key_size key) base

unfoldable pub index_id_of : Bytes → ℕ
unfolding index_id
index_id_of key = elim (index_id key) [ none ↦ 0 | some id ↦ id ]

-- `limit == 0 || len(ids) < limit`
abbrev pub room_for : ℕ → ℕ → Bool
room_for limit count = limit == 0 || ltb count limit

-- The cursor's loop in matchingIPIDs.
unfoldable pub ids_loop : ℕ → Bucket → Bytes → ℕ → ℕ → Option Bytes → Reply (List ℕ)
unfolding has_base index_id_of ◌>>=◌
ids_loop zero b base limit count key = stuck
ids_loop (suc fuel) b base limit count key =
    let rest = ids_loop fuel b base limit (suc count) (b.next (key_of key)) in
    if room_for limit count && has_base base (key_of key)
    then (rest >>= λ ids. ok (index_id_of (key_of key) ∷ ids))
    else ok []

-- The loop over the lengths, from the longest one down to zero; `ctx` tells for a length whether the
-- context has ended by then.
unfoldable pub lengths_loop : ℕ → (ℕ → Bool) → Bucket → Addr → ℕ → ℕ → ℕ → Reply (List ℕ)
unfolding ids_loop base_key ◌>>=◌
lengths_loop fuel ctx b address limit zero count = ok []
lengths_loop fuel ctx b address limit (suc length') count =
    let rest = lengths_loop fuel ctx b address limit length' in
    if not (room_for limit count) then ok [] else if ctx length' then err cancelled else (do
      base ← base_key address length'
      ids ← ids_loop fuel b base limit count (b.seek (seek_of base))
      more ← rest (count + length ids)
      ok (ids ++ more))

unfoldable pub matching_ip_ids : ℕ → (ℕ → Bool) → Bucket → Addr → ℕ → Reply (List ℕ)
unfolding lengths_loop
matching_ip_ids fuel ctx b address limit =
    lengths_loop fuel ctx b address limit (suc (bit_len address)) 0

-- A set of IDs, in ascending order.
unfoldable pub insert_id : ℕ → List ℕ → List ℕ
insert_id id [] = id ∷ []
insert_id id (i ∷ ids) =
    let rest = insert_id id ids in
    if ltb id i then id ∷ i ∷ ids else if id == i then i ∷ ids else i ∷ rest

-- The set of IDs and the entries scanned so far.
pub record Overlap : Type 0 where
  pub ids : List ℕ
  pub scanned : ℕ

abbrev pub add_after : ℕ → ℕ → List ℕ → List ℕ
add_after after id ids = if ltb after id then insert_id id ids else ids

-- One entry of a loop in overlapIDs.
unfoldable pub scan_entry : ℕ → Bytes → Overlap → Reply Overlap
unfolding insert_id index_id_of
scan_entry after key o =
    if ltb max_overlap_index_entries (suc o.scanned)
    then err query_too_broad
    else ok (record { ids = add_after after (index_id_of key) o.ids; scanned = suc o.scanned })

-- The entries of one prefix of the start address.
unfoldable pub exact_loop : ℕ → Bucket → ℕ → Bytes → Overlap → Option Bytes → Reply Overlap
unfolding has_base scan_entry ◌>>=◌
exact_loop zero b after base o key = stuck
exact_loop (suc fuel) b after base o key =
    let rest = λ (o' : Overlap). exact_loop fuel b after base o' (b.next (key_of key)) in
    if has_base base (key_of key) then (scan_entry after (key_of key) o >>= rest) else ok o

unfoldable pub exact_lengths : ℕ → (ℕ → Bool) → Bucket → ℕ → Addr → ℕ → Overlap → Reply Overlap
unfolding exact_loop base_key ◌>>=◌
exact_lengths fuel ctx b after address zero o = ok o
exact_lengths fuel ctx b after address (suc length') o =
    let rest = exact_lengths fuel ctx b after address length' in
    if ctx length' then err cancelled else (do
      base ← base_key address length'
      o' ← exact_loop fuel b after base o (b.seek (seek_of base))
      rest o')

-- The entries whose prefix starts inside the range; `ctx` is asked when the set's size is a multiple
-- of 4096, and told how many entries have been scanned.
unfoldable pub inside_loop :
    ℕ → (ℕ → Bool) → Bucket → ℕ → ℕ → Address → Overlap → Option Bytes → Reply Overlap
unfolding above scan_entry ◌>>=◌
inside_loop zero ctx b after version end o key = stuck
inside_loop (suc fuel) ctx b after version end o key =
    let rest =
      λ (o' : Overlap). inside_loop fuel ctx b after version end o' (b.next (key_of key)) in
    if not (length (key_of key) == index_key_size && get_or (key_of key) 0 0 == version)
    then ok o
    else if above (take 16 (drop 1 (key_of key))) end
    then ok o
    else (do
      o' ← scan_entry after (key_of key) o
      (if length o'.ids % 4096 == 0 && ctx o'.scanned then err cancelled else rest o'))

abbrev pub no_overlap : Overlap
no_overlap = record { ids = []; scanned = 0 }

-- `startValue` and `endValue`, their texts parsed.
unfoldable pub overlap_ids :
    ℕ → (ℕ → Bool) → (ℕ → Bool) → Bucket → ℕ → Addr → Addr → ℕ → Reply (List ℕ)
unfolding exact_lengths inside_loop address_from_addr ◌>>=◌
overlap_ids fuel ctx ctx' b version start end after = do
  o ← exact_lengths fuel ctx b after start (suc (if version == 4 then 32 else 128)) no_overlap
  o' ←
      inside_loop fuel ctx' b after version (address_from_addr end) o
        (b.seek (write_at 1 (address_from_addr start) (version ∷ replicate 21 0)))
  ok o'.ids
