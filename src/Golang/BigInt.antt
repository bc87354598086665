-- ===== src/Golang/BigInt.antt =====
-- Package math/big, on numbers below 2 ^ 129: what the range code of internal/boltstore/build.go and
-- internal/ipkey/ipkey.go computes with.
use bgp_api.Base.{ℕ, zero, suc, ◌+◌, ◌*◌, ◌/◌, ◌%◌, ◌^◌, Bytes, [], ◌∷◌, ◌==◌, if◌then◌else◌}

-- The lowest set bit of a positive number, which is And(x, Neg(x)).
unfoldable pub low_bit_loop : ℕ → ℕ → ℕ
low_bit_loop zero n = 1
low_bit_loop (suc fuel) n =
    let higher = low_bit_loop fuel (n / 2) in if n % 2 == 1 then 1 else 2 * higher

unfoldable pub low_bit : ℕ → ℕ
unfolding low_bit_loop
low_bit n = low_bit_loop 128 n

-- BitLen
unfoldable pub bit_len_loop : ℕ → ℕ → ℕ
bit_len_loop zero n = 0
bit_len_loop (suc fuel) n =
    let higher = bit_len_loop fuel (n / 2) in if n == 0 then 0 else higher + 1

unfoldable pub bit_len : ℕ → ℕ
unfolding bit_len_loop
bit_len n = bit_len_loop 129 n

-- FillBytes into a slice of the given size, for a number that fits.
unfoldable pub fill_bytes : ℕ → ℕ → Bytes
fill_bytes zero v = []
fill_bytes (suc w) v = (v / 256 ^ w % 256) ∷ fill_bytes w v
