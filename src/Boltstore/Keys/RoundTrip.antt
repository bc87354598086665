-- ===== src/Boltstore/Keys/RoundTrip.antt =====
-- internal/boltstore/store.go: what the parts of a key and of an ID list read back.
use bgp_api.Base.{
  ℕ, ◌*◌, ◌^◌, ◌<◌, ◌≤◌, ◌≡◌, refl, sym, ap, ◌∙◌, arith, Bytes, All, List, [], ◌∷◌, ◌++◌, length,
  length-append, replicate, take, drop, drop-append, append_assoc, append-nil, le→ltb,
}
use bgp_api.Golang.Binary.{put_uint32}
use bgp_api.Golang.Binary.Words.{uint32-put_uint32, length-put_uint32}
use bgp_api.Golang.ByteSlice.{write_at}
use bgp_api.Golang.ByteSlice.Write.{Cut-at, take_exact}
use bgp_api.Boltstore.Keys.Write.{written, write_three_lem, write_fourth}
use bgp_api.Boltstore.Decoder.{ok}
use bgp_api.Boltstore.Keys.{
  Address, put_range_index_key, range_index_start_key, encode_ids, decode_ids_loop, decode_ids,
  range_index_key_size,
}

-- The four parts of a range key, in order.
abbrev pub range_key : ℕ → Address → Address → ℕ → Bytes
range_key version start end id = version ∷ (start ++ (end ++ put_uint32 id))

length-range_key :
    (version : ℕ) (start end : Address) (id : ℕ)
    → length start ≡ 16
    → length end ≡ 16
    → length (range_key version start end id) ≡ 37
length-range_key version start end id hs he =
    rw (length-append, length-append, length-put_uint32) (omega arith)

-- Into any buffer of at least 37 bytes, and for addresses of sixteen bytes, PutRangeIndexKey puts
-- the version, the start, the end and the big-endian ID, whatever the buffer held.
pub put_range_index_key_lem :
    (key : Bytes) (version : ℕ) (start end : Address) (id : ℕ)
    → range_index_key_size ≤ length key
    → length start ≡ 16
    → length end ≡ 16
    → put_range_index_key key version start end id ≡ ok (range_key version start end id)
unfolding put_range_index_key
put_range_index_key_lem key version start end id hk hs he =
    elim (write_three_lem key version start end hs (omega arith)) [
      | written rest e l ↦ rw (le→ltb (length key) 37 hk) (
          ap (λ t. ok (take 37 t))
            (ap (write_at 33 (put_uint32 id)) e
              ∙ write_fourth version start end rest id hs he (Cut-at 4 rest (omega arith)))
          ∙ ap ok (
              take_exact 37 (range_key version start end id) (drop 4 rest)
                (length-range_key version start end id hs he)))
    ]

-- Into any buffer of at least 37 bytes, and for a start of sixteen bytes, RangeIndexStartKey puts
-- the version, the start and twenty zero bytes, whatever the buffer held.
pub range_index_start_key_lem :
    (key : Bytes) (version : ℕ) (start : Address)
    → range_index_key_size ≤ length key
    → length start ≡ 16
    → range_index_start_key key version start ≡ ok (version ∷ (start ++ replicate 20 0))
unfolding range_index_start_key
range_index_start_key_lem key version start hk hs =
    elim (write_three_lem key version start (replicate 20 0) hs (omega arith)) [
      | written rest e l ↦ rw (le→ltb (length key) 37 hk) (
          ap (λ t. ok (take 37 t))
            (e ∙ ap (λ t. version ∷ t) (sym (append_assoc start (replicate 20 0) rest)))
          ∙ ap ok (
              take_exact 37 (version ∷ (start ++ replicate 20 0)) rest
                (omega (arith, length-append start (replicate {A = ℕ} 20 0)))))
    ]

pub length-encode_ids : (ids : List ℕ) → length (encode_ids ids) ≡ 4 * length ids
unfolding encode_ids
length-encode_ids [] = refl
length-encode_ids (id ∷ ids) =
    rw (length-append, length-put_uint32, length-encode_ids ids) (omega arith)

pub decode_ids_loop-encode_ids :
    (ids : List ℕ) (rest : Bytes)
    → All (λ id. id < 2 ^ 32) ids
    → decode_ids_loop (length ids) (encode_ids ids ++ rest) ≡ ids
unfolding decode_ids_loop encode_ids
decode_ids_loop-encode_ids [] rest h = refl
decode_ids_loop-encode_ids (id ∷ ids) rest (hid, h) =
    let e : drop 4 (put_uint32 id ++ (encode_ids ids ++ rest)) ≡ encode_ids ids ++ rest =
      rw length-put_uint32 at (drop-append (put_uint32 id) (encode_ids ids ++ rest)) in
    rw
      (
        append_assoc,
        uint32-put_uint32 id (encode_ids ids ++ rest) hid,
        e,
        decode_ids_loop-encode_ids ids rest h,
      )
      refl

-- DecodeIDs reads back from EncodeIDs's bytes exactly the list of IDs, for IDs that fit a uint32.
decode_ids-encode_ids :
    (ids : List ℕ) → All (λ id. id < 2 ^ 32) ids → decode_ids (encode_ids ids) ≡ ok ids
unfolding decode_ids
decode_ids-encode_ids ids h =
    let all = rw append-nil at (decode_ids_loop-encode_ids ids [] h) in
    ground (arith, length-encode_ids ids, all)
