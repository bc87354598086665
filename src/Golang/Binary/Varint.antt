-- ===== src/Golang/Binary/Varint.antt =====
-- A variable-length integer that was written is read back, whatever follows it.
use bgp_api.Base.{
  ℕ, zero, suc, ◌+◌, ◌*◌, ◌/◌, ◌%◌, ◌^◌, ◌<◌, ◌≡◌, ap, arith, ◌++◌, length, Bytes, some,
}
use native.Mathlib.Nat.{div-add-mod}
use native.Mathlib.Numerals.{towards_suc}
use bgp_api.Golang.Binary.{append_uvarint_loop, uvarint_bytes, uvarint_loop, uvarint}

pow_step : (s : ℕ) → 2 ^ (s + 7) ≡ 128 * 2 ^ s
pow_step s = simp towards_suc (omega arith)

-- A number shifted by `s`, as its lowest seven bits and the others.
split_low : (v s : ℕ) → v * 2 ^ s ≡ v % 128 * 2 ^ s + v / 128 * 2 ^ (s + 7)
split_low v s =
    omega (
      arith,
      ap (λ (t : ℕ). t * 2 ^ s) (div-add-mod v 128),
      ap (λ (t : ℕ). v / 128 * t) (pow_step s),
    )

-- `i` bytes have been read, and `fuel` more may follow the next one.
uvarint_loop-append :
    (fuel v i s x : ℕ) (rest : Bytes)
    → i + fuel ≡ 9
    → v < 2 * 128 ^ fuel
    → uvarint_loop (append_uvarint_loop fuel v ++ rest) i s x
      ≡ some (x + v * 2 ^ s, i + length (append_uvarint_loop fuel v))
unfolding uvarint_loop append_uvarint_loop
uvarint_loop-append zero v i s x rest hi hv = ground arith
uvarint_loop-append (suc fuel) v i s x rest hi hv = ground (
  arith,
  split_low v s,
  uvarint_loop-append fuel (v / 128) (i + 1) (s + 7) (x + v % 128 * 2 ^ s) rest (omega arith)
      (omega arith),
)

pub uvarint-uvarint_bytes :
    (v : ℕ) (rest : Bytes)
    → v < 2 ^ 64
    → uvarint (uvarint_bytes v ++ rest) ≡ some (v, length (uvarint_bytes v))
unfolding uvarint uvarint_bytes
uvarint-uvarint_bytes v rest h = ground (arith, uvarint_loop-append 9 v 0 0 0 rest)
