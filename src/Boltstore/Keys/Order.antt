-- ===== src/Boltstore/Keys/Order.antt =====
-- internal/boltstore/store.go: bbolt orders keys as byte slices, and the range index relies on what
-- that order means.
use Prim.Native.Nat.{compare, Ordering}
use bgp_api.Base.{
  ℕ, zero, suc, ◌^◌, ◌<◌, ◌≤◌, ◌≡◌, ◌≢◌, ◌↔◌, refl, sym, ◌∙◌, arith, Bytes, IsByte, All, All-append,
  [], ◌∷◌, ◌++◌, length, length-append, replicate,
}
use bgp_api.Golang.Binary.{put_uint32}
use bgp_api.Golang.Binary.Words.{length-put_uint32}
use bgp_api.Golang.ByteSlice.{and_then, compare_bytes, number}
use bgp_api.Golang.ByteSlice.Order.{
  compare_bytes-append, compare_bytes-number, compare_bytes-put_uint32, put_uint32-IsByte,
}
use bgp_api.Boltstore.Decoder.{ok}
use bgp_api.Boltstore.Keys.{Address, range_index_key, range_index_start_key, range_index_key_size}
use bgp_api.Boltstore.Keys.RoundTrip.{range_key, put_range_index_key_lem, range_index_start_key_lem}

pub record IsAddress (a : Address) : Type 0 where
  pub size : length a ≡ 16
  pub bytes : All IsByte a

pub compare_addresses :
    (a b : Address) → IsAddress a → IsAddress b → compare_bytes a b ≡ compare (number a) (number b)
compare_addresses a b ha hb = compare_bytes-number a b ha.bytes hb.bytes (ha.size ∙ sym hb.size)

compare-range_key :
    (v w : ℕ) (a b c d : Address) (i j : ℕ)
    → IsAddress a
    → IsAddress b
    → IsAddress c
    → IsAddress d
    → i < 2 ^ 32
    → j < 2 ^ 32
    → compare_bytes (range_key v a b i) (range_key w c d j)
      ≡ and_then (compare v w) (
          and_then
            (compare (number a) (number c))
            (and_then (compare (number b) (number d)) (compare i j)))
unfolding compare_bytes
compare-range_key v w a b c d i j ha hb hc hd hi hj = rw (
  compare_bytes-append a c (b ++ put_uint32 i) (d ++ put_uint32 j) (ha.size ∙ sym hc.size),
  compare_bytes-append b d (put_uint32 i) (put_uint32 j) (hb.size ∙ sym hd.size),
  compare_bytes-put_uint32 i j hi hj,
  compare_addresses a c ha hc,
  compare_addresses b d hb hd,
)

range_index_key_lem :
    (v : ℕ) (a b : Address) (i : ℕ)
    → IsAddress a
    → IsAddress b
    → range_index_key v a b i ≡ ok (range_key v a b i)
unfolding range_index_key
range_index_key_lem v a b i ha hb =
    put_range_index_key_lem (replicate 37 0) v a b i (omega arith) ha.size hb.size

-- The byte order of two range index keys is the order of their versions, then of their start
-- addresses as numbers, then of their end addresses, then of their IDs; for addresses of sixteen
-- bytes and IDs that fit a uint32.
pub compare-range_index_key :
    (v w : ℕ) (a b c d : Address) (i j : ℕ) {k l : Bytes}
    → IsAddress a
    → IsAddress b
    → IsAddress c
    → IsAddress d
    → i < 2 ^ 32
    → j < 2 ^ 32
    → range_index_key v a b i ≡ ok k
    → range_index_key w c d j ≡ ok l
    → compare_bytes k l
      ≡ and_then (compare v w) (
          and_then
            (compare (number a) (number c))
            (and_then (compare (number b) (number d)) (compare i j)))
compare-range_index_key v w a b c d i j {k} {l} ha hb hc hd hi hj hk hl =
    let ek : k ≡ range_key v a b i = cc (range_index_key_lem v a b i ha hb) in
    let el : l ≡ range_key w c d j = cc (range_index_key_lem w c d j hc hd) in
    rw (ek, el) (compare-range_key v w a b c d i j ha hb hc hd hi hj)

zeros_number : (n : ℕ) → number (replicate n 0) ≡ 0
unfolding number
zeros_number zero = refl
zeros_number (suc n) = omega (arith, zeros_number n)

pub zeros-IsByte : (n : ℕ) → All IsByte (replicate n 0)
zeros-IsByte zero = tt
zeros-IsByte (suc n) = (omega arith, zeros-IsByte n)

-- An IPv4 address in its place.
pub ipv4-IsAddress :
    (a b c d : ℕ)
    → a < 256
    → b < 256
    → c < 256
    → d < 256
    → IsAddress (replicate 12 0 ++ (a ∷ b ∷ c ∷ d ∷ []))
ipv4-IsAddress a b c d ha hb hc hd = record {
  size = refl;
  bytes =
      All-append IsByte (replicate 12 0) (a ∷ b ∷ c ∷ d ∷ []) (zeros-IsByte 12)
        (ha, (hb, (hc, (hd, tt))));
}

zeros_first :
    (bs : Bytes) → All IsByte bs → length bs ≡ 20 → compare_bytes (replicate 20 0) bs ≢ Ordering.gt
zeros_first bs hb hl =
    rw (compare_bytes-number (replicate 20 0) bs (zeros-IsByte 20) hb (sym hl), zeros_number 20)
      (ground arith)

compare-start_key :
    (v : ℕ) (s a b : Address) (i : ℕ)
    → IsAddress s
    → IsAddress a
    → IsAddress b
    → compare_bytes (v ∷ (s ++ replicate 20 0)) (range_key v a b i)
      ≡ and_then
          (compare (number s) (number a))
          (compare_bytes (replicate 20 0) (b ++ put_uint32 i))
unfolding compare_bytes
compare-start_key v s a b i hs ha hb =
    rw
      (
        compare_bytes-append s a (replicate 20 0) (b ++ put_uint32 i) (hs.size ∙ sym ha.size),
        compare_addresses s a hs ha,
      )
      (ground arith)

-- In the byte order, the key of RangeIndexStartKey does not come after a record's range key of the
-- same version exactly when the record's start is not below the start that is sought; for a buffer
-- of at least 37 bytes and addresses of sixteen bytes.
pub range_index_start_key-seek :
    (buffer : Bytes) (v : ℕ) (s a b : Address) (i : ℕ) {k l : Bytes}
    → range_index_key_size ≤ length buffer
    → IsAddress s
    → IsAddress a
    → IsAddress b
    → range_index_start_key buffer v s ≡ ok k
    → range_index_key v a b i ≡ ok l
    → (compare_bytes k l ≢ Ordering.gt) ↔ (number s ≤ number a)
range_index_start_key-seek buffer v s a b i {k} {l} hbuf hs ha hb hk hl =
    let ek : k ≡ v ∷ (s ++ replicate 20 0) =
      cc (range_index_start_key_lem buffer v s hbuf hs.size) in
    let el : l ≡ range_key v a b i = cc (range_index_key_lem v a b i ha hb) in
    let first =
      zeros_first (b ++ put_uint32 i)
        (All-append IsByte b (put_uint32 i) hb.bytes (put_uint32-IsByte i))
        (omega (arith, length-append b (put_uint32 i), length-put_uint32 i, hb.size)) in
    rw (ek, el, compare-start_key v s a b i hs ha hb) (ground arith)
