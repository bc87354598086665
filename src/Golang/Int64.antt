-- ===== src/Golang/Int64.antt =====
-- Go's int64, as words of 64 bits in two's complement: its sums and products wrap around.
use bgp_api.Base.{ℕ, ◌+◌, ◌%◌, ◌^◌, ◌<◌, ◌≡◌, arith, Bool, ltb}

abbrev pub int64 : ℕ → ℕ
int64 n = n % 2 ^ 64

-- The order of the words as signed numbers is that of the words with their first bits turned around.
abbrev pub int64_less : ℕ → ℕ → Bool
int64_less a b = ltb ((a + 2 ^ 63) % 2 ^ 64) ((b + 2 ^ 63) % 2 ^ 64)

pub int64_less-ltb : (a b : ℕ) → a < 2 ^ 63 → b < 2 ^ 63 → int64_less a b ≡ ltb a b
int64_less-ltb a b ha hb = ground arith

pub int64-small : (n : ℕ) → n < 2 ^ 63 → int64 n ≡ n
int64-small n h = omega arith
