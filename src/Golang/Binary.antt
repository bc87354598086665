-- ===== src/Golang/Binary.antt =====
-- encoding/binary: big-endian words and variable-length integers, which internal/boltstore/store.go
-- reads and writes.
pub mod Words
pub mod Varint
use bgp_api.Base.{
  ℕ, zero, suc, ◌+◌, ◌*◌, ◌/◌, ◌%◌, ◌^◌, ◌<◌, List, [], ◌∷◌, ◌++◌, Bytes, ltb, leb, ◌==◌,
  if◌then◌else◌, ◌&&◌, Option, none, some,
}

-- BigEndian.PutUint32 and BigEndian.Uint32; a word is its number, reduced where Go converts.
unfoldable pub put_uint32 : ℕ → Bytes
put_uint32 w = (w / 2 ^ 24 % 256) ∷ (w / 2 ^ 16 % 256) ∷ (w / 2 ^ 8 % 256) ∷ (w % 256) ∷ []

-- Go reads the first four bytes, and panics on a shorter slice; the callers have checked.
unfoldable pub uint32 : Bytes → ℕ
uint32 (a ∷ b ∷ c ∷ d ∷ r) = a * 2 ^ 24 + b * 2 ^ 16 + c * 2 ^ 8 + d
uint32 _ = 0

unfoldable pub put_uint64 : ℕ → Bytes
unfolding put_uint32
put_uint64 w = put_uint32 (w / 2 ^ 32) ++ put_uint32 (w % 2 ^ 32)

unfoldable pub uint64 : Bytes → ℕ
unfolding uint32
uint64 (a ∷ b ∷ c ∷ d ∷ r) = uint32 (a ∷ b ∷ c ∷ d ∷ []) * 2 ^ 32 + uint32 r
uint64 _ = 0

-- AppendUvarint, on fuel: a uint64 has at most ten groups of seven bits.
unfoldable pub append_uvarint_loop : ℕ → ℕ → Bytes
append_uvarint_loop zero v = (v % 256) ∷ []
append_uvarint_loop (suc fuel) v =
    let rest = append_uvarint_loop fuel (v / 128) in
    if leb 128 v then (v % 128 + 128) ∷ rest else (v % 256) ∷ []

unfoldable pub uvarint_bytes : ℕ → Bytes
uvarint_bytes v = append_uvarint_loop 9 v

-- Uvarint: the value and the count of bytes read; `none` is a count that is not positive (the
-- input ends inside a number, or the number does not fit 64 bits).
unfoldable pub uvarint_loop : Bytes → ℕ → ℕ → ℕ → Option (ℕ × ℕ)
uvarint_loop [] i s x = none
uvarint_loop (b ∷ rest) i s x =
    let more = uvarint_loop rest (i + 1) (s + 7) (x + b % 128 * 2 ^ s) in
    if i == 10
    then none
    else if ltb b 128
    then (if i == 9 && ltb 1 b then none else some (x + b * 2 ^ s, i + 1))
    else more

unfoldable pub uvarint : Bytes → Option (ℕ × ℕ)
uvarint src = uvarint_loop src 0 0 0
