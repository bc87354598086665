-- ===== src/Boltstore/Keys.antt =====
-- internal/boltstore/store.go and build.go: the keys of the buckets, and lists of record IDs.
mod Runs
pub mod Order
pub mod RoundTrip
pub mod Prefixes
pub mod Write
use bgp_api.Base.{
  ℕ, zero, suc, ◌+◌, ◌*◌, ◌/◌, ◌%◌, ◌^◌, Bytes, Bool, true, false, List, [], ◌∷◌, ◌++◌, length,
  take, drop, get_or, replicate, leb, ltb, ◌==◌, not, ◌&&◌, ◌||◌, if◌then◌else◌, Option, none, some,
}
use bgp_api.Golang.Binary.{put_uint32, uint32}
use bgp_api.Golang.ByteSlice.{write_at}
use bgp_api.Golang.Netip.{Addr, v4, v6, is4, unmap, as16, Prefix, masked}
use bgp_api.Boltstore.Decoder.{Result, ok, err, panic, invalid_id_list}

-- `Address`: sixteen bytes, of which an IPv4 address takes the last four.
abbrev pub Address : Type 0
Address = Bytes

-- The bytes of an address that is not IPv4-mapped.
abbrev pub place : Addr → Address
place (v4 bytes) = replicate 12 0 ++ bytes
place (v6 bytes zone) = bytes

unfoldable pub address_from_addr : Addr → Address
unfolding unmap
address_from_addr value = place (unmap value)

-- `Address.Addr`
unfoldable pub addr : Address → ℕ → Addr
addr value version = if version == 4 then v4 (drop 12 value) else v6 value []

unfoldable pub id_key : ℕ → Bytes
id_key id = put_uint32 id

unfoldable pub asn_key : ℕ → Bytes
asn_key asn = put_uint32 asn

abbrev pub prefix_key_size : ℕ
prefix_key_size = 18

abbrev pub id_key_size : ℕ
id_key_size = 4

abbrev pub index_key_size : ℕ
index_key_size = 22

abbrev pub range_index_key_size : ℕ
range_index_key_size = 37

-- A result that is `panic` stands for the explicit panic on a short buffer.
unfoldable pub put_prefix_key : Bytes → Prefix → Result Bytes
unfolding masked address_from_addr
put_prefix_key key prefix =
    if ltb (length key) prefix_key_size
    then panic
    else let prefix' = masked prefix in
      let key1 = write_at 0 ((if is4 prefix'.addr then 4 else 6) ∷ []) key in
      let key2 = write_at 1 (address_from_addr prefix'.addr) key1 in
      let key3 = write_at 17 ((prefix'.bits % 256) ∷ []) key2 in ok (take prefix_key_size key3)

-- The buffer that PrefixKey makes is long enough.
unfoldable pub prefix_key : Prefix → Result Bytes
unfolding put_prefix_key
prefix_key prefix = put_prefix_key (replicate prefix_key_size 0) (masked prefix)

unfoldable pub index_key : Prefix → ℕ → Result Bytes
unfolding prefix_key
index_key prefix id = elim (prefix_key prefix) [
  | ok head ↦
      ok (write_at prefix_key_size (put_uint32 id) (write_at 0 head (replicate index_key_size 0)))
  | err e ↦ err e
  | panic ↦ panic
]

unfoldable pub index_id : Bytes → Option ℕ
index_id key =
    if not (length key == index_key_size) then none else some (uint32 (drop prefix_key_size key))

unfoldable pub put_range_index_key : Bytes → ℕ → Address → Address → ℕ → Result Bytes
put_range_index_key key version start end id =
    if ltb (length key) range_index_key_size
    then panic
    else let key1 = write_at 0 (version ∷ []) key in
      let key2 = write_at 1 start key1 in
      let key3 = write_at 17 end key2 in
      let key4 = write_at 33 (put_uint32 id) key3 in ok (take range_index_key_size key4)

unfoldable pub range_index_key : ℕ → Address → Address → ℕ → Result Bytes
unfolding put_range_index_key
range_index_key version start end id =
    put_range_index_key (replicate range_index_key_size 0) version start end id

unfoldable pub range_index_start_key : Bytes → ℕ → Address → Result Bytes
range_index_start_key key version start =
    if ltb (length key) range_index_key_size
    then panic
    else let key1 = write_at 0 (version ∷ []) key in
      let key2 = write_at 1 start key1 in
      let key3 = write_at 17 (replicate 20 0) key2 in ok (take range_index_key_size key3)

unfoldable pub range_index_start : Bytes → Option Address
range_index_start key =
    if not (length key == range_index_key_size) then none else some (take 16 (drop 1 key))

unfoldable pub range_index_id : Bytes → Option ℕ
range_index_id key =
    if not (length key == range_index_key_size) then none else some (uint32 (take 4 (drop 33 key)))

-- Each ID in its four bytes.
unfoldable pub encode_ids : List ℕ → Bytes
encode_ids [] = []
encode_ids (id ∷ ids) = put_uint32 id ++ encode_ids ids

-- `for index := range ids`, which counts the rounds.
unfoldable pub decode_ids_loop : ℕ → Bytes → List ℕ
decode_ids_loop zero value = []
decode_ids_loop (suc count) value = uint32 value ∷ decode_ids_loop count (drop id_key_size value)

unfoldable pub decode_ids : Bytes → Result (List ℕ)
unfolding decode_ids_loop
decode_ids value =
    if not (length value % id_key_size == 0)
    then err invalid_id_list
    else ok (decode_ids_loop (length value / id_key_size) value)

-- build.go: the prefix that a key of the route index starts with.
unfoldable pub prefix_from_route_index_key : Bytes → Option Prefix
unfolding addr masked
prefix_from_route_index_key key =
    let version = get_or key 0 0 in
    let bits = get_or key 17 0 in
    if not (length key == prefix_key_size) || (not (version == 4) && not (version == 6))
    then none
    else if (version == 4 && ltb 32 bits) || (version == 6 && ltb 128 bits)
    then none
    else some (masked (record { addr = addr (take 16 (drop 1 key)) version; bits = bits }))
