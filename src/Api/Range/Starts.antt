-- ===== src/Api/Range/Starts.antt =====
-- internal/api/bbolt.go: the keys of the records that start inside a range, in their parts.
use Prim.Native.Nat.{compare, Ordering}
use bgp_api.Base.{
  ℕ, zero, suc, ◌≡◌, ◌≢◌, ◌⊎◌, inl, inr, refl, ap, arith, Bytes, Bool, true, not, ◌&&◌, List, [],
  ◌∷◌, ◌++◌, length, length-append, ◌==◌, if◌then◌else◌, replicate,
}
use bgp_api.Golang.ByteSlice.{compare_bytes, and_then}
use bgp_api.Golang.ByteSlice.Order.{compare_bytes-append}
use bgp_api.Golang.ByteSlice.Write.{cut, Cut-at, take_exact}
use bgp_api.Boltstore.Keys.{Address, range_index_start}
use bgp_api.Api.Bucket.Contents.{from}
use bgp_api.Api.Range.Direct.{start_of, of_index, above}
use bgp_api.Api.Range.Pages.{inside}

-- The version's key of a record that starts from `start` to `end`.
unfoldable pub starts_inside : ℕ → Address → Address → Bytes → Bool
unfolding inside above
starts_inside version start end key = inside version end key && not (above start (start_of key))

unfoldable pub filter : (Bytes → Bool) → List Bytes → List Bytes
filter p [] = []
filter p (k ∷ ks) = let rest = filter p ks in if p k then k ∷ rest else rest

-- A key in its parts.
pub data Parts (key : Bytes) : Type 0 where
  parts :
      (version : ℕ) (start tail : Bytes)
      → key ≡ version ∷ (start ++ tail)
      → length start ≡ 16
      → length tail ≡ 20
      → Parts key

pub Parts-of : (key : Bytes) → length key ≡ 37 → Parts key
Parts-of [] h = absurd (omega arith)
Parts-of (version ∷ key) h = elim (Cut-at 16 key (omega arith)) [
  | cut start tail e l ↦
      parts version start tail (ap (λ t. version ∷ t) e) l
        (omega (arith, length-append start tail, ap length e))
]

module _ (v : ℕ) (start tail : Bytes) (hs : length start ≡ 16) (ht : length tail ≡ 20) where
  start_of-parts : start_of (v ∷ (start ++ tail)) ≡ start
  unfolding start_of range_index_start
  start_of-parts =
      let size : (suc (length (start ++ tail)) == 37) ≡ true =
        ground (arith, length-append start tail, hs, ht) in
      simp (start_of, range_index_start, size) (take_exact 16 start tail hs)

  of_index-parts : (version : ℕ) → of_index version (v ∷ (start ++ tail)) ≡ (v == version)
  unfolding of_index
  of_index-parts version =
      let size : length (start ++ tail) ≡ 36 = omega (arith, length-append start tail) in
      rw size refl

pub zeros_le :
    (n : ℕ) (tail : Bytes) → length tail ≡ n → compare_bytes tail (replicate n 0) ≢ Ordering.lt
unfolding compare_bytes
zeros_le zero [] h = λ e. cc
zeros_le zero (x ∷ tail) h = absurd (omega arith)
zeros_le (suc n) [] h = absurd (omega arith)
zeros_le (suc n) (x ∷ tail) h = ground (arith, zeros_le n tail (omega arith))

pub compare-parts :
    (v w : ℕ) (a b x y : Bytes)
    → length a ≡ length b
    → compare_bytes (v ∷ (a ++ x)) (w ∷ (b ++ y))
      ≡ and_then (compare v w) (and_then (compare_bytes a b) (compare_bytes x y))
unfolding compare_bytes
compare-parts v w a b x y h = rw (compare_bytes-append a b x y h) refl

pub inside-parts :
    (version v : ℕ) (end st tail : Bytes)
    → length st ≡ 16
    → length tail ≡ 20
    → inside version end (v ∷ (st ++ tail)) ≡ (v == version && not (above st end))
unfolding inside
inside-parts version v end st tail l m =
    simp (inside, of_index-parts v st tail l m version, start_of-parts v st tail l m) refl

pub starts_inside-parts :
    (version v : ℕ) (start end st tail : Bytes)
    → length st ≡ 16
    → length tail ≡ 20
    → starts_inside version start end (v ∷ (st ++ tail))
      ≡ ((v == version && not (above st end)) && not (above start st))
unfolding starts_inside
starts_inside-parts version v start end st tail l m =
    simp (starts_inside, of_index-parts v st tail l m version, start_of-parts v st tail l m) refl

pub lt-cases : (o : Ordering) → (o ≡ Ordering.lt) ⊎ (o ≢ Ordering.lt)
lt-cases Ordering.lt = inl refl
lt-cases Ordering.eq = inr (λ e. cc)
lt-cases Ordering.gt = inr (λ e. cc)

pub from-below :
    (key k : Bytes) (ks : List Bytes)
    → compare_bytes k key ≡ Ordering.lt
    → from key (k ∷ ks) ≡ from key ks
unfolding from
from-below key k ks e = rw (e, from) refl

pub from-at :
    (key k : Bytes) (ks : List Bytes)
    → compare_bytes k key ≢ Ordering.lt
    → from key (k ∷ ks) ≡ k ∷ ks
unfolding from
from-at key k ks n = ground (arith, n)

-- What the order says of two keys, the first not above the second, and of the query.
