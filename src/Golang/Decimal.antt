-- ===== src/Golang/Decimal.antt =====
-- Packages strconv and math/big: a number in decimal.
use bgp_api.Base.{ℕ, zero, suc, ◌+◌, ◌/◌, ◌%◌, Bytes, true, false, [], ◌∷◌, ◌++◌, ltb}

-- The digits of a number, in at most `fuel` places.
unfoldable pub decimal_loop : ℕ → ℕ → Bytes
decimal_loop zero n = []
decimal_loop (suc fuel) n = elim (ltb n 10) [
  | true ↦ (b'0' + n) ∷ []
  | false ↦ decimal_loop fuel (n / 10) ++ ((b'0' + n % 10) ∷ [])
]

-- FormatInt, FormatUint and Itoa in base ten, and big.Int's String. A number has no more digits than it
-- counts, zero aside.
unfoldable pub decimal : ℕ → Bytes
unfolding decimal_loop
decimal n = decimal_loop (suc n) n
