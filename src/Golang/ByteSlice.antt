-- ===== src/Golang/ByteSlice.antt =====
-- Package bytes, and Go's copy into a slice.
pub mod Order
pub mod Write
pub mod Total
use Prim.Native.Nat.{compare, Ordering}
use bgp_api.Base.{
  ℕ, zero, suc, ◌+◌, ◌*◌, ◌^◌, Bytes, Bool, true, false, List, [], ◌∷◌, ◌++◌, length, take, drop,
}

-- The first of two comparisons that is not equal.
abbrev pub and_then : Ordering → Ordering → Ordering
and_then Ordering.lt o = Ordering.lt
and_then Ordering.eq o = o
and_then Ordering.gt o = Ordering.gt

-- bytes.Compare
unfoldable pub compare_bytes : Bytes → Bytes → Ordering
compare_bytes [] [] = Ordering.eq
compare_bytes [] (y ∷ ys) = Ordering.lt
compare_bytes (x ∷ xs) [] = Ordering.gt
compare_bytes (x ∷ xs) (y ∷ ys) = and_then (compare x y) (compare_bytes xs ys)

-- bytes.Equal
abbrev pub bytes_equal : Bytes → Bytes → Bool
bytes_equal a b = elim (compare_bytes a b) [ Ordering.eq ↦ true | _ ↦ false ]

-- `copy(key[k:], src)` where the bytes fit behind `k`.
unfoldable pub write_at : ℕ → Bytes → Bytes → Bytes
write_at k src dst = take k dst ++ (src ++ drop (k + length src) dst)

-- The number that a slice of bytes spells, its first byte the most significant: big.Int.SetBytes.
unfoldable pub number : Bytes → ℕ
number [] = 0
number (y ∷ ys) = y * 256 ^ length ys + number ys
