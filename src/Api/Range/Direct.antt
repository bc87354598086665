-- ===== src/Api/Range/Direct.antt =====
-- internal/api/bbolt.go: the entries of a range bucket that start inside a range.
use Prim.Native.Nat.{Ordering}
use bgp_api.Base.{
  ℕ, zero, suc, Bytes, Bool, true, false, not, ◌&&◌, List, [], ◌∷◌, length, get_or, replicate, ltb,
  ◌==◌, if◌then◌else◌, Option, none, some,
}
use bgp_api.Golang.ByteSlice.{compare_bytes, bytes_equal}
use bgp_api.Boltstore.Keys.{
  Address, range_index_key_size, range_index_start_key, range_index_start, range_index_id,
}
use bgp_api.Api.Reply.{Reply, ok, err, stuck, cancelled, ◌>>=◌, of_result}
use bgp_api.Api.Bucket.{Bucket, key_of}

pub record RangeIndexEntry : Type 0 where
  pub id : ℕ
  pub key : Bytes

-- A key of 37 bytes has both.
unfoldable pub start_of : Bytes → Address
unfolding range_index_start
start_of key = elim (range_index_start key) [ none ↦ replicate 16 0 | some start ↦ start ]

unfoldable pub id_of : Bytes → ℕ
unfolding range_index_id
id_of key = elim (range_index_id key) [ none ↦ 0 | some id ↦ id ]

-- The condition of the loop in directRangeEntries.
unfoldable pub of_index : ℕ → Bytes → Bool
of_index version key = length key == range_index_key_size && get_or key 0 0 == version

unfoldable pub above : Bytes → Bytes → Bool
unfolding compare_bytes
above a b = elim (compare_bytes a b) [ Ordering.gt ↦ true | _ ↦ false ]

-- The loop in directRangeEntries, with `count` entries so far; `ctx` tells for each of them whether
-- the context has ended by then.
unfoldable pub direct_loop :
    ℕ
    → (ℕ → Bool)
    → Bucket
    → ℕ
    → Address
    → ℕ
    → ℕ
    → Option Bytes
    → Reply (List RangeIndexEntry × Bool)
unfolding start_of id_of of_index above ◌>>=◌
direct_loop zero ctx b version end maximum count key = stuck
direct_loop (suc fuel) ctx b version end maximum count key =
    let entry : RangeIndexEntry = record { id = id_of (key_of key); key = key_of key } in
    let rest = direct_loop fuel ctx b version end maximum (suc count) (b.next (key_of key)) in
    if not (of_index version (key_of key))
    then ok ([], false)
    else if above (start_of (key_of key)) end
    then ok ([], false)
    else if ctx count
    then err cancelled
    else if suc count == maximum
    then ok (entry ∷ [], true)
    else (rest >>= λ r. ok (entry ∷ r.0, r.1))

-- The key where the loop starts; `after` is the key of the last entry of the page before.
abbrev pub seek_key : ℕ → Address → Option Bytes → Reply Bytes
seek_key version start none =
    of_result (range_index_start_key (replicate range_index_key_size 0) version start)
seek_key version start (some key) = ok key

abbrev pub first_key : Bucket → Option Bytes → Bytes → Option Bytes
first_key b none seek = b.seek seek
first_key b (some key) seek =
    if bytes_equal (key_of (b.seek seek)) key then b.next (key_of (b.seek seek)) else b.seek seek

-- `make` takes `maximum` as a capacity, for which there is taken to be memory: rangePageEntries asks for
-- one more than the page's limit at most.
unfoldable pub direct_range_entries :
    ℕ
    → (ℕ → Bool)
    → Bucket
    → ℕ
    → Address
    → Address
    → Option Bytes
    → ℕ
    → Reply (List RangeIndexEntry × Bool)
unfolding ◌>>=◌
direct_range_entries fuel ctx b version start end after maximum = do
  seek ← seek_key version start after
  direct_loop fuel ctx b version end (if ltb maximum 1 then 1 else maximum) 0
      (first_key b after seek)
