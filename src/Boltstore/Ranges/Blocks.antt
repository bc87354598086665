-- ===== src/Boltstore/Ranges/Blocks.antt =====
-- internal/boltstore/build.go: the next block is a power of two that divides its start, and ends
-- with the range at the latest.
use native.Mathlib.Nat.{one-le-pow, pow-suc, pow-le-pow_right}
use native.Mathlib.Decide.{dec_lt}
use bgp_api.Base.{
  ℕ, zero, suc, ◌+◌, ◌-◌, ◌*◌, ◌/◌, ◌%◌, ◌^◌, ◌≤◌, ◌<◌, ◌≡◌, refl, ◌∙◌, arith, ltb, ◌==◌,
  if◌then◌else◌, Bool-cases, inl, inr,
}
use bgp_api.Golang.BigInt.{low_bit_loop, low_bit, bit_len_loop, bit_len}
use bgp_api.Boltstore.Ranges.{shrink, block_size}

-- A block of 2 ^ k addresses, aligned at its start.
pub data Block (start : ℕ) (size : ℕ) : Type 0 where
  block : (k q : ℕ) → size ≡ 2 ^ k → start ≡ q * 2 ^ k → Block start size

double : (n q p : ℕ) → n ≡ 2 * (n / 2) → n / 2 ≡ q * p → n ≡ q * (p * 2)
double n q p even s = grind arith

Block-double : (n size : ℕ) → n ≡ 2 * (n / 2) → Block (n / 2) size → Block n (2 * size)
Block-double n size even (block k q e s) =
    block (suc k) q (omega (arith, pow-suc 2 k)) (rw pow-suc (double n q (2 ^ k) even s))

low_bit_loop-Block : (fuel n : ℕ) → n < 2 ^ fuel → 0 < n → Block n (low_bit_loop fuel n)
unfolding low_bit_loop
low_bit_loop-Block zero n h p = absurd (omega arith)
low_bit_loop-Block (suc fuel) n h p = elim (Bool-cases (n % 2 == 1)) [
  | inl odd ↦ rw odd (block 0 n refl (omega arith))
  | inr even ↦ rw even (
      Block-double n (low_bit_loop fuel (n / 2)) (ground arith)
        (low_bit_loop-Block fuel (n / 2) (omega (arith, pow-suc 2 fuel)) (ground arith)))
]

pow_pos : (k : ℕ) → 1 ≤ 2 ^ k
pow_pos k = one-le-pow k 2 (omega arith)

pow_le_inv : (k n : ℕ) → 2 ^ k ≤ 2 ^ n → k ≤ n
pow_le_inv k n h = elim (dec_lt n k) [
  | yes p ↦
      let up : 2 ^ suc n ≤ 2 ^ k = pow-le-pow_right (omega arith) p in
      absurd (omega (arith, pow-suc 2 n, pow_pos n))
  | no p ↦ omega arith
]

half_pow : (k : ℕ) → 2 ^ suc k / 2 ≡ 2 ^ k
half_pow k = omega (arith, pow-suc 2 k)

bit_len_loop-zero : (fuel : ℕ) → bit_len_loop fuel 0 ≡ 0
unfolding bit_len_loop
bit_len_loop-zero zero = refl
bit_len_loop-zero (suc fuel) = refl

bit_len_loop-pow : (fuel k : ℕ) → k < fuel → bit_len_loop fuel (2 ^ k) ≡ k + 1
unfolding bit_len_loop
bit_len_loop-pow zero k h = elim h [ ]
bit_len_loop-pow (suc fuel) zero h = omega (arith, bit_len_loop-zero fuel)
bit_len_loop-pow (suc fuel) (suc k) h =
    rw (half_pow k) (ground (arith, pow_pos (suc k), bit_len_loop-pow fuel k (omega arith)))

pub bit_len-pow : (k : ℕ) → k ≤ 128 → bit_len (2 ^ k) ≡ k + 1
unfolding bit_len
bit_len-pow k h = bit_len_loop-pow 129 k (omega arith)

regroup : (q k : ℕ) → q * 2 ^ suc k ≡ q * 2 * 2 ^ k
regroup q k = rw pow-suc (grind arith)

Block-half : (start size : ℕ) → 1 < size → Block start size → Block start (size / 2)
Block-half start size h (block zero q e s) = absurd (omega arith)
Block-half start size h (block (suc k) q e s) =
    block k (q * 2) (rw e (half_pow k)) (s ∙ regroup q k)

-- The block shrinks until it fits.
shrink-Block :
    (fuel start size remaining : ℕ)
    → size < 2 ^ fuel
    → 0 < remaining
    → Block start size
    → Block start (shrink fuel size remaining) × (shrink fuel size remaining ≤ remaining)
unfolding shrink
shrink-Block zero start size remaining hs hr b = (b, omega arith)
shrink-Block (suc fuel) start size remaining hs hr b = elim (Bool-cases (ltb remaining size)) [
  | inl large ↦ rw large (
      shrink-Block fuel start (size / 2) remaining (omega (arith, pow-suc 2 fuel)) hr
        (Block-half start size (ground arith) b))
  | inr fits ↦ rw fits (b, ground arith)
]

pub low_bit-Block : (n : ℕ) → n < 2 ^ 128 → 0 < n → Block n (low_bit n)
unfolding low_bit
low_bit-Block n h p = low_bit_loop-Block 128 n h p

Block-le : (start size : ℕ) → 0 < start → Block start size → size ≤ start
Block-le start size h (block k zero e s) = absurd (omega arith)
Block-le start size h (block k (suc q) e s) = rw (e, s) (grind arith)

largest-Block :
    (bits current : ℕ)
    → bits ≤ 128
    → current < 2 ^ bits
    → Block current (if current == 0 then 2 ^ bits else low_bit current)
      × ((if current == 0 then 2 ^ bits else low_bit current) ≤ 2 ^ bits)
largest-Block bits current hb hc = elim (Bool-cases (current == 0)) [
  | inl first ↦ rw first (block bits 0 refl (ground arith), omega arith)
  | inr later ↦
      let wide : 2 ^ bits ≤ 2 ^ 128 = pow-le-pow_right (omega arith) hb in
      let b = low_bit-Block current (omega arith) (ground arith) in
      rw later (b, omega (arith, Block-le current (low_bit current) (ground arith) b))
]

-- What a round of the loop takes.
pub data Round (bits current last : ℕ) (size : ℕ) : Type 0 where
  round :
      (k q : ℕ)
      → k ≤ bits
      → size ≡ 2 ^ k
      → current ≡ q * 2 ^ k
      → current + 2 ^ k ≤ last + 1
      → Round bits current last size

Round-of :
    (bits current last size : ℕ)
    → current ≤ last
    → last < 2 ^ bits
    → Block current size
    → size ≤ last - current + 1
    → Round bits current last size
Round-of bits current last size hcl hl (block k q e s) fits =
    round k q (pow_le_inv k bits (omega arith)) e s (omega arith)

pub block_size-Round :
    (bits current last : ℕ)
    → bits ≤ 128
    → current ≤ last
    → last < 2 ^ bits
    → Round bits current last (block_size bits current last)
unfolding block_size
block_size-Round bits current last hb hcl hl =
    let (b, small) = largest-Block bits current hb (omega arith) in
    let wide : 2 ^ bits ≤ 2 ^ 128 = pow-le-pow_right (omega arith) hb in
    let (b', fits) =
      shrink-Block 129 current (if current == 0 then 2 ^ bits else low_bit current)
        (last - current + 1) (omega arith) (omega arith) b in
    Round-of bits current last (block_size bits current last) hcl hl b' fits
