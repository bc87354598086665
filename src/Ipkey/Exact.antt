-- ===== src/Ipkey/Exact.antt =====
-- internal/ipkey/ipkey.go: PrefixForRange takes a range for a prefix only where it is one.
use native.Mathlib.Nat.{pow-suc}
use bgp_api.Base.{
  ℕ, zero, suc, ◌+◌, ◌-◌, ◌*◌, ◌%◌, ◌^◌, ◌≤◌, ◌<◌, ◌≡◌, refl, sym, ap, ◌∙◌, arith, true, false, ltb,
  ltb→le, le→ltb, ==_refl, ◌==◌, Bool-cases, inl, inr, none, some, ◌/◌, ◌↔◌,
}
use bgp_api.Golang.BigInt.{bit_len, bit_len_loop, low_bit, low_bit_loop}
use bgp_api.Boltstore.Ranges.Blocks.{block, low_bit-Block, bit_len-pow}
use bgp_api.Ipkey.{range_prefix_length}

-- A range that has the addresses of a prefix of the given length, and no others.
pub record IsPrefixRange (bits start end length : ℕ) : Type 0 where
  pub fits : length ≤ bits
  pub size : start + 2 ^ (bits - length) ≡ end + 1
  pub aligned : start % 2 ^ (bits - length) ≡ 0

some-eq : (a b : ℕ) → some a ≡ some b → a ≡ b
some-eq a b e = cc

low_bit_loop-pow : (fuel k : ℕ) → k ≤ fuel → low_bit_loop fuel (2 ^ k) ≡ 2 ^ k
unfolding low_bit_loop
low_bit_loop-pow zero zero h = refl
low_bit_loop-pow zero (suc k) h = absurd (omega arith)
low_bit_loop-pow (suc fuel) zero h = refl
low_bit_loop-pow (suc fuel) (suc k) h =
    let half : 2 ^ suc k / 2 ≡ 2 ^ k = omega (arith, pow-suc 2 k) in
    let even : 2 ^ suc k % 2 ≡ 0 = omega (arith, pow-suc 2 k) in
    let odd : (2 ^ suc k % 2 == 1) ≡ false = ground (arith, even) in
    simp (low_bit_loop, half, odd, low_bit_loop-pow fuel k (omega arith))
      (omega (arith, pow-suc 2 k))

bit_len_loop_lt : (fuel n : ℕ) → n < 2 ^ fuel → n < 2 ^ bit_len_loop fuel n
unfolding bit_len_loop
bit_len_loop_lt zero n h = h
bit_len_loop_lt (suc fuel) n h = elim (Bool-cases (n == 0)) [
  | inl z ↦ let e : n ≡ 0 = ground arith in simp (bit_len_loop, z) (omega (arith, e))
  | inr z ↦
      let half = bit_len_loop_lt fuel (n / 2) (omega (arith, pow-suc 2 fuel)) in
      let e : bit_len_loop fuel (n / 2) + 1 ≡ suc (bit_len_loop fuel (n / 2)) = omega arith in
      simp (bit_len_loop, z, e, pow-suc) (omega (arith, half))
]

bit_len_lt : (n : ℕ) → n < 2 ^ 128 → n < 2 ^ bit_len n
unfolding bit_len
bit_len_lt n h = bit_len_loop_lt 129 n (omega arith)

-- One block that does not fit twice.
one_block : (n q p : ℕ) → 0 < n → n ≡ q * p → n < p * 2 → n ≡ p
one_block n zero p h e l = absurd (omega arith)
one_block n (suc zero) p h e l = omega arith
one_block n (suc (suc q)) p h e l = absurd (grind arith)

-- A number whose lowest bit is its highest is a power of two.
power_of_two :
    (n : ℕ) → 0 < n → n < 2 ^ 128 → 2 ^ (bit_len n - 1) ≡ low_bit n → n ≡ 2 ^ (bit_len n - 1)
power_of_two n h small e = elim (low_bit-Block n small h) [
  | block k q size at ↦
      let below = bit_len_lt n small in
      let top : 2 ^ bit_len n ≡ 2 ^ (bit_len n - 1) * 2 =
        double (bit_len n) (positive (bit_len n) n h below) in
      one_block n q (2 ^ (bit_len n - 1)) h (at ∙ ap (λ (t : ℕ). q * t) (sym (e ∙ size)))
        (omega (arith, top, below))
]
  where
    positive : (b m : ℕ) → 0 < m → m < 2 ^ b → 0 < b
    positive zero m h l = absurd (omega arith)
    positive (suc b) m h l = omega arith

    double : (b : ℕ) → 0 < b → 2 ^ b ≡ 2 ^ (b - 1) * 2
    double zero h = absurd (omega arith)
    double (suc b) h = let p : suc b - 1 ≡ b = omega arith in rw p (pow-suc 2 b)

low_bit-pow : (k : ℕ) → k ≤ 128 → low_bit (2 ^ k) ≡ 2 ^ k
unfolding low_bit
low_bit-pow k h = low_bit_loop-pow 128 k h

-- What the function says of a range of `count` addresses.
module _ (bits start end length : ℕ) (le : start ≤ end) where
  abbrev count : ℕ
  count = end + 1 - start

  abbrev highest : ℕ
  highest = bit_len count - 1

  order : ltb end start ≡ false
  order = le→ltb end start le

  found :
      end + 1 - start < 2 ^ 128
      → 2 ^ highest ≡ low_bit count
      → highest ≤ bits
      → start % count ≡ 0
      → bits - highest ≡ length
      → IsPrefixRange bits start end length
  found small c d a same =
      let size = power_of_two count (omega arith) small c in
      let host : bits - length ≡ highest = omega arith in
      record {
        fits = omega arith;
        size = rw host (omega (arith, size));
        aligned = rw (host, sym size) a;
      }

  to_prefix :
      end + 1 - start < 2 ^ 128
      → range_prefix_length bits start end ≡ some length
      → IsPrefixRange bits start end length
  unfolding range_prefix_length
  to_prefix small e = elim (Bool-cases (2 ^ highest == low_bit count)) [
    | inr c ↦
        let bad : none ≡ some length = simp (range_prefix_length, order, c) at e in absurd (cc)
    | inl c ↦ elim (Bool-cases (ltb bits highest)) [
      | inl d ↦
          let bad : none ≡ some length = simp (range_prefix_length, order, c, d) at e in absurd (cc)
      | inr d ↦ elim (Bool-cases (start % count == 0)) [
        | inr a ↦
            let bad : none ≡ some length = simp (range_prefix_length, order, c, d, a) at e in
            absurd (cc)
        | inl a ↦
            let same : some (bits - highest) ≡ some length =
              simp (range_prefix_length, order, c, d, a) at e in
            found small (ground (arith, c)) (ltb→le bits highest d) (ground (arith, a))
              (some-eq (bits - highest) length same)
      ]
    ]
  ]

  from_prefix :
      bits ≤ 128
      → IsPrefixRange bits start end length
      → range_prefix_length bits start end ≡ some length
  unfolding range_prefix_length
  from_prefix hb h =
      let size : count ≡ 2 ^ (bits - length) = omega (arith, h.size) in
      let top : bit_len count - 1 ≡ bits - length =
        rw size (omega (arith, bit_len-pow (bits - length) (omega arith))) in
      let c : (2 ^ highest == low_bit count) ≡ true =
        rw (top, size, low_bit-pow (bits - length) (omega arith)) (==_refl (2 ^ (bits - length))) in
      let d : ltb bits highest ≡ false = le→ltb bits highest (omega arith) in
      let a : (start % count == 0) ≡ true = rw size (ground (arith, h.aligned)) in
      let back : bits - highest ≡ length = omega (arith, h.fits) in
      simp (range_prefix_length, order, c, d, a, back) refl

-- PrefixForRange finds the length of a prefix for a range exactly when the range has the addresses of a
-- prefix of that length, and no others; for a range whose bounds are in order and which is not the whole
-- IPv6 space.
pub range_prefix_length-IsPrefixRange :
    (bits start end length : ℕ)
    → bits ≤ 128
    → start ≤ end
    → end + 1 - start < 2 ^ 128
    → (range_prefix_length bits start end ≡ some length) ↔ IsPrefixRange bits start end length
range_prefix_length-IsPrefixRange bits start end length hb le small =
    (to_prefix bits start end length le small, from_prefix bits start end length le hb)
