-- ===== src/Boltstore/Ranges/Cover.antt =====
-- internal/boltstore/build.go: the prefixes of a range cover each of its addresses exactly once, and
-- no other address.
use native.Mathlib.Nat.{
  mul-div_cancel, one-le-pow, le-div_iff_mul-le, div-lt_iff_lt-mul, pow-suc, mul-mod_left,
  div-add-mod', div-div-eq-div-mul,
}
use bgp_api.Base.{
  ℕ, zero, suc, ◌+◌, ◌-◌, ◌*◌, ◌/◌, ◌%◌, ◌^◌, ◌≤◌, ◌<◌, ◌≡◌, refl, sym, ap, arith, Bytes, Bool,
  ◌&&◌, List, [], ◌∷◌, ltb, leb, leb→le, ◌==◌, if◌then◌else◌, Bool-cases, inl, inr, length,
  length-drop, All, IsByte, drop,
}
use bgp_api.Golang.BigInt.{fill_bytes, bit_len}
use bgp_api.Golang.ByteSlice.{number}
use bgp_api.Golang.Netip.{Addr, v4, v6, Prefix}
use bgp_api.Boltstore.Keys.{Address}
use bgp_api.Boltstore.Keys.Order.{IsAddress}
use bgp_api.Golang.ByteSlice.Order.{number_lt}
use bgp_api.Boltstore.Ranges.{block_size, prefix_from, range_loop, range_prefixes}
use bgp_api.Boltstore.Ranges.Blocks.{Round, round, block_size-Round, bit_len-pow}

abbrev pub addr_number : Addr → ℕ
addr_number (v4 bytes) = number bytes
addr_number (v6 bytes zone) = number bytes

-- An address, as a number of `width` bits, lies in a prefix if their first bits are the same.
abbrev pub contains : ℕ → Prefix → ℕ → Bool
contains width p x = x / 2 ^ (width - p.bits) == addr_number p.addr / 2 ^ (width - p.bits)

-- How many prefixes of a list an address lies in.
abbrev pub count_containing : ℕ → List Prefix → ℕ → ℕ
count_containing width [] x = 0
count_containing width (p ∷ ps) x =
    (if contains width p x then 1 else 0) + count_containing width ps x

suc_mul : (q p : ℕ) → (q + 1) * p ≡ q * p + p
suc_mul q p = grind arith

same_block : (x q p : ℕ) → 0 < p → (x / p == q * p / p) ≡ (leb (q * p) x && ltb x (q * p + p))
same_block x q p h =
    let lo = le-div_iff_mul-le {k = p} {x = q} {y = x} h in
    let hi = div-lt_iff_lt-mul {k = p} {x = x} {y = q + 1} h in
    rw (mul-div_cancel q h) (ground (arith, lo.0, lo.1, hi.0, hi.1, suc_mul q p))

-- `mod` by a product, digit by digit.
mod_digits : (v p : ℕ) → 0 < p → v % (p * 256) ≡ v / p % 256 * p + v % p
mod_digits v p h = omega (
  arith,
  div-add-mod' v (p * 256),
  div-add-mod' v p,
  ap (λ (t : ℕ). t * (p * 256)) (div-div-eq-div-mul v p 256),
  ap (λ (t : ℕ). t * p) (div-add-mod' (v / p) 256),
)

length-fill_bytes : (w v : ℕ) → length (fill_bytes w v) ≡ w
unfolding fill_bytes
length-fill_bytes zero v = refl
length-fill_bytes (suc w) v = ap suc (length-fill_bytes w v)

number-fill_bytes : (w v : ℕ) → number (fill_bytes w v) ≡ v % 256 ^ w
unfolding number fill_bytes
number-fill_bytes zero v = omega arith
number-fill_bytes (suc w) v =
    rw (length-fill_bytes w v, number-fill_bytes w v, pow-suc)
      (sym (mod_digits v (256 ^ w) (one-le-pow w 256 (omega arith))))

-- The range code runs at these two widths.
pub data Family : ℕ → ℕ → Type 0 where
  ipv4 : Family 4 32
  ipv6 : Family 6 128

pub number-prefix_from :
    {version bits : ℕ} (current length : ℕ)
    → Family version bits
    → current < 2 ^ bits
    → addr_number (prefix_from version current length).addr ≡ current
unfolding prefix_from
number-prefix_from current length ipv4 h = rw (number-fill_bytes 4 current) (omega arith)
number-prefix_from current length ipv6 h = rw (number-fill_bytes 16 current) (omega arith)

width_le : {version bits : ℕ} → Family version bits → bits ≤ 128
width_le ipv4 = omega arith
width_le ipv6 = omega arith

-- The prefix of one round holds the addresses of its block.
contains-Round :
    {version bits : ℕ} (current last size x : ℕ)
    → Family version bits
    → last < 2 ^ bits
    → current ≤ last
    → Round bits current last size
    → contains bits (prefix_from version current (bits - (bit_len size - 1))) x
      ≡ (leb current x && ltb x (current + size))
unfolding prefix_from
contains-Round {version} {bits} current last size x f hl hc (round k q hk e s fits) =
    let host : bits - (bits - (k + 1 - 1)) ≡ k = omega arith in
    let same = number-prefix_from current (bits - (k + 1 - 1)) f (omega arith) in
    rw (e, bit_len-pow k (omega (arith, width_le f)), same, host, s)
      (same_block x q (2 ^ k) (one-le-pow k 2 (omega arith)))

abbrev between : ℕ → ℕ → ℕ → ℕ
between lo hi x = if leb lo x && leb x hi then 1 else 0

split_range :
    (c n l x : ℕ)
    → c + n ≤ l + 1
    → (if leb c x && ltb x (c + n) then 1 else 0) + between (c + n) l x ≡ between c l x
split_range c n l x h = ground arith

Round-size :
    {bits current last size : ℕ}
    → Round bits current last size
    → (1 ≤ size) × (current + size ≤ last + 1)
Round-size (round k q hk e s fits) =
    let p : 1 ≤ 2 ^ k = one-le-pow k 2 (omega arith) in (omega arith, omega arith)

range_loop-cover :
    {version bits : ℕ} (fuel current last x : ℕ)
    → Family version bits
    → last < 2 ^ bits
    → last + 1 - current ≤ fuel
    → count_containing bits (range_loop fuel version bits current last) x ≡ between current last x
unfolding range_loop
range_loop-cover zero current last x f hl hf = ground arith
range_loop-cover {version} {bits} (suc fuel) current last x f hl hf =
    elim (Bool-cases (leb current last)) [
      | inr over ↦ rw over (ground arith)
      | inl more ↦
          let size = block_size bits current last in
          let r = block_size-Round bits current last (width_le f) (ground arith) hl in
          let (pos, fits) = Round-size r in
          rw
            (
              more,
              contains-Round current last size x f hl (ground arith) r,
              range_loop-cover fuel (current + size) last x f hl (omega arith),
            )
            (split_range current size last x fits)
    ]

-- The part of an address that a version uses, as a number.
abbrev pub address_number : ℕ → Address → ℕ
address_number version a = number (if version == 4 then drop 12 a else a)

All-drop {κ} : (P : ℕ → Type κ) (n : ℕ) (xs : Bytes) → All P xs → All P (drop n xs)
All-drop P zero xs h = h
All-drop P (suc n) [] h = h
All-drop P (suc n) (x ∷ xs) h = All-drop P n xs h.1

pub address_number_lt :
    {version bits : ℕ} (a : Address)
    → Family version bits
    → IsAddress a
    → address_number version a < 2 ^ bits
address_number_lt a ipv4 h =
    let size : length (drop 12 a) ≡ 4 = omega (arith, length-drop 12 a, h.size) in
    rw size at (number_lt (drop 12 a) (All-drop IsByte 12 a h.bytes))
address_number_lt a ipv6 h = rw h.size at (number_lt a h.bytes)

-- For a version and its width, and an end of sixteen bytes: an address lies in exactly one of the
-- prefixes of rangePrefixes if it is between start and end, and in none of them otherwise.
pub range_prefixes_cover :
    {version bits : ℕ} (start end : Address) (x : ℕ)
    → Family version bits
    → IsAddress end
    → count_containing bits (range_prefixes start end version) x ≡ (
        if leb (address_number version start) x && leb x (address_number version end) then 1 else 0)
unfolding range_prefixes
range_prefixes_cover start end x ipv4 h =
    range_loop-cover (number (drop 12 end) + 1 - number (drop 12 start)) (number (drop 12 start))
      (number (drop 12 end)) x ipv4 (address_number_lt end ipv4 h) (omega arith)
range_prefixes_cover start end x ipv6 h =
    range_loop-cover (number end + 1 - number start) (number start) (number end) x ipv6
      (address_number_lt end ipv6 h) (omega arith)

-- A prefix in canonical form: its length fits the version and its host bits are zero.
abbrev pub IsCanonical : ℕ → Prefix → Type 0
IsCanonical bits p = (p.bits ≤ bits) × (addr_number p.addr % 2 ^ (bits - p.bits) ≡ 0)

IsCanonical-Round :
    {version bits : ℕ} (current last size : ℕ)
    → Family version bits
    → last < 2 ^ bits
    → current ≤ last
    → Round bits current last size
    → IsCanonical bits (prefix_from version current (bits - (bit_len size - 1)))
unfolding prefix_from
IsCanonical-Round {version} {bits} current last size f hl hc (round k q hk e s fits) =
    let host : bits - (bits - (k + 1 - 1)) ≡ k = omega arith in
    let same = number-prefix_from current (bits - (k + 1 - 1)) f (omega arith) in
    rw (e, bit_len-pow k (omega (arith, width_le f)), same, host, s)
      (omega arith, mul-mod_left q (2 ^ k))

range_loop-IsCanonical :
    {version bits : ℕ} (fuel current last : ℕ)
    → Family version bits
    → last < 2 ^ bits
    → All (IsCanonical bits) (range_loop fuel version bits current last)
unfolding range_loop
range_loop-IsCanonical zero current last f hl = tt
range_loop-IsCanonical {version} {bits} (suc fuel) current last f hl =
    elim (Bool-cases (leb current last)) [
      | inr over ↦ rw over tt
      | inl more ↦
          let size = block_size bits current last in
          let le = leb→le current last more in
          let r = block_size-Round bits current last (width_le f) le hl in
          rw more (
            IsCanonical-Round current last size f hl le r,
            range_loop-IsCanonical fuel (current + size) last f hl,
          )
    ]

-- For a version and its width, and an end of sixteen bytes: each prefix of rangePrefixes has a length
-- that fits the width, and no bit set behind that length.
pub range_prefixes-IsCanonical :
    {version bits : ℕ} (start end : Address)
    → Family version bits
    → IsAddress end
    → All (IsCanonical bits) (range_prefixes start end version)
unfolding range_prefixes
range_prefixes-IsCanonical start end ipv4 h =
    range_loop-IsCanonical (number (drop 12 end) + 1 - number (drop 12 start))
      (number (drop 12 start)) (number (drop 12 end)) ipv4 (address_number_lt end ipv4 h)
range_prefixes-IsCanonical start end ipv6 h =
    range_loop-IsCanonical (number end + 1 - number start) (number start) (number end) ipv6
      (address_number_lt end ipv6 h)
