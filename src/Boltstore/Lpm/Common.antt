-- ===== src/Boltstore/Lpm/Common.antt =====
-- internal/boltstore/route_lpm.go: routeLPMCommonPrefix finds the first bit in which two addresses
-- differ.
use Prim.Native.Nat.{bit_xor}
use native.Mathlib.Nat.{div-div-eq-div-mul, pow-suc, add-zero, add-suc}
use native.Mathlib.Decide.{dec_lt}
use bgp_api.Base.{
  ℕ, zero, suc, ◌+◌, ◌-◌, ◌*◌, ◌/◌, ◌%◌, ◌^◌, ◌≤◌, ◌<◌, ◌≡◌, ◌≢◌, refl, sym, ap, ◌∙◌, arith, Bytes,
  IsByte, All, [], ◌∷◌, get_or, ◌==◌, Bool-cases, inl, inr, Option, none, some,
}
use bgp_api.Boltstore.Keys.{Address}
use bgp_api.Boltstore.Lpm.{offset_of, leading_zeros8, route_lpm_bit, byte_loop}
use bgp_api.Boltstore.Lpm.Xor.{bit_xor_shift, bit_xor_eq, bit_xor_ne, bit_xor-lt}

-- The bits of two addresses from `lo` to below `hi` are the same.
abbrev pub SameBits : ℕ → Address → Address → ℕ → ℕ → Type 0
SameBits version a b lo hi =
    (i : ℕ) → lo ≤ i → i < hi → route_lpm_bit a version i ≡ route_lpm_bit b version i

-- The bits below `n` are the same: one address lies in the prefix of the other of that length.
abbrev pub Agree : ℕ → Address → Address → ℕ → Type 0
Agree version a b n = (i : ℕ) → i < n → route_lpm_bit a version i ≡ route_lpm_bit b version i

record Leads (d lz : ℕ) : Type 0 where
  small : lz < 8
  above : d / 2 ^ (8 - lz) ≡ 0
  at : d / 2 ^ (7 - lz) ≡ 1

leading_zeros8-Leads : (d : ℕ) → 0 < d → d < 256 → Leads d (leading_zeros8 d)
leading_zeros8-Leads d h l = ground arith

same_above : (x y m : ℕ) → bit_xor x y / 2 ^ m ≡ 0 → x / 2 ^ m ≡ y / 2 ^ m
same_above x y m h = bit_xor_eq (x / 2 ^ m) (y / 2 ^ m) (sym (bit_xor_shift m x y) ∙ h)

pub get_or-IsByte : (bs : Bytes) (i : ℕ) → All IsByte bs → get_or bs i 0 < 256
get_or-IsByte [] i h = omega arith
get_or-IsByte (b ∷ bs) zero h = h.0
get_or-IsByte (b ∷ bs) (suc i) h = get_or-IsByte bs i h.1

byte_of_bit :
    (version : ℕ) (a : Address) (index j : ℕ)
    → j < 8
    → route_lpm_bit a version (index * 8 + j)
      ≡ get_or a (offset_of version + index) 0 / 2 ^ (7 - j) % 2
unfolding route_lpm_bit
byte_of_bit version a index j h =
    let q : (index * 8 + j) / 8 ≡ index = omega arith in
    let r : (index * 8 + j) % 8 ≡ j = omega arith in rw (q, r)

pow_add : (m e : ℕ) → 2 ^ (m + e) ≡ 2 ^ m * 2 ^ e
pow_add m zero = rw add-zero (omega arith)
pow_add m (suc e) = rw (add-suc, pow-suc, pow-suc, pow_add m e) (grind arith)

pub div_pow_add : (x m e : ℕ) → x / 2 ^ (m + e) ≡ x / 2 ^ m / 2 ^ e
div_pow_add x m e = rw (pow_add, div-div-eq-div-mul) refl

-- Two bytes that differ: the first bit in which they do.
record FirstBit (x y lz : ℕ) : Type 0 where
  small : lz < 8
  same : (j : ℕ) → j < lz → x / 2 ^ (7 - j) % 2 ≡ y / 2 ^ (7 - j) % 2
  differs : x / 2 ^ (7 - lz) % 2 ≢ y / 2 ^ (7 - lz) % 2

same_bit :
    (x y lz j : ℕ)
    → lz < 8
    → j < lz
    → x / 2 ^ (8 - lz) ≡ y / 2 ^ (8 - lz)
    → x / 2 ^ (7 - j) % 2 ≡ y / 2 ^ (7 - j) % 2
same_bit x y lz j hl hj e =
    let split : 7 - j ≡ (8 - lz) + (lz - 1 - j) = omega arith in
    rw (split, div_pow_add, div_pow_add, e) refl

first_bit :
    (x y : ℕ) → x < 256 → y < 256 → 0 < bit_xor x y → FirstBit x y (leading_zeros8 (bit_xor x y))
first_bit x y hx hy h =
    let lead = leading_zeros8-Leads (bit_xor x y) h (bit_xor-lt x y hx hy) in
    let lz = leading_zeros8 (bit_xor x y) in
    record {
      small = lead.small;
      same = λ j hj. same_bit x y lz j lead.small hj (same_above x y (8 - lz) lead.above);
      differs =
          bit_xor_ne (x / 2 ^ (7 - lz)) (y / 2 ^ (7 - lz))
            (sym (bit_xor_shift (7 - lz) x y) ∙ lead.at);
    }

-- The outcome of a search for the first difference from bit `lo` to bit `hi`.
pub data Scan (version : ℕ) (a b : Address) (lo hi : ℕ) : Option ℕ → Type 0 where
  found :
      (c : ℕ)
      → lo ≤ c
      → c < hi
      → SameBits version a b lo c
      → route_lpm_bit a version c ≢ route_lpm_bit b version c
      → Scan version a b lo hi (some c)
  missing : SameBits version a b lo hi → Scan version a b lo hi none

join_bits :
    (version : ℕ) (a b : Address) (lo mid hi : ℕ)
    → SameBits version a b lo mid
    → SameBits version a b mid hi
    → SameBits version a b lo hi
join_bits version a b lo mid hi p q i h l = elim (dec_lt i mid) [
  | yes below ↦ p i h below
  | no above ↦ q i (omega arith) l
]

-- The bits of one byte.
same_byte :
    (version : ℕ) (a b : Address) (index n : ℕ)
    → n ≤ 8
    → ((j : ℕ)
        → j < n
        → get_or a (offset_of version + index) 0 / 2 ^ (7 - j) % 2
          ≡ get_or b (offset_of version + index) 0 / 2 ^ (7 - j) % 2)
    → SameBits version a b (index * 8) (index * 8 + n)
same_byte version a b index n hn h i lo hi =
    let e : i ≡ index * 8 + (i - index * 8) = omega arith in
    rw
      (
        e,
        byte_of_bit version a index (i - index * 8) (omega arith),
        byte_of_bit version b index (i - index * 8) (omega arith),
      )
      (h (i - index * 8) (omega arith))

Scan-cons :
    (version : ℕ) (a b : Address) (lo mid hi : ℕ) {o : Option ℕ}
    → lo ≤ mid
    → SameBits version a b lo mid
    → Scan version a b mid hi o
    → Scan version a b lo hi o
Scan-cons version a b lo mid hi hm p (found c l h q d) =
    found c (omega arith) h (join_bits version a b lo mid c p q) d
Scan-cons version a b lo mid hi hm p (missing q) = missing (join_bits version a b lo mid hi p q)

pub byte_loop-Scan :
    (version : ℕ) (a b : Address) (rounds index : ℕ)
    → All IsByte a
    → All IsByte b
    → Scan version a b
        (index * 8)
        ((index + rounds) * 8)
        (byte_loop rounds index (offset_of version) a b)
unfolding byte_loop
byte_loop-Scan version a b zero index ha hb = missing (λ i lo hi. absurd (omega arith))
byte_loop-Scan version a b (suc rounds) index ha hb =
    let x = get_or a (offset_of version + index) 0 in
    let y = get_or b (offset_of version + index) 0 in
    elim (Bool-cases (bit_xor x y == 0)) [
      | inl same ↦
          let e : x ≡ y = bit_xor_eq x y (ground arith) in
          let bits =
            same_byte version a b index 8 (omega arith) (λ j h. ap (λ t. t / 2 ^ (7 - j) % 2) e) in
          rw same (scan_step bits (byte_loop-Scan version a b rounds (index + 1) ha hb))
      | inr differ ↦
          let f =
            first_bit x y (get_or-IsByte a (offset_of version + index) ha)
              (get_or-IsByte b (offset_of version + index) hb) (ground arith) in
          rw differ (
            found (index * 8 + leading_zeros8 (bit_xor x y)) (omega arith) (omega (arith, f.small))
              (same_byte version a b index (leading_zeros8 (bit_xor x y)) (omega (arith, f.small))
                f.same)
              (rw (byte_of_bit version a index _ f.small, byte_of_bit version b index _ f.small)
                f.differs))
    ]
  where
    scan_step :
        {o : Option ℕ}
        → SameBits version a b (index * 8) (index * 8 + 8)
        → Scan version a b ((index + 1) * 8) ((index + 1 + rounds) * 8) o
        → Scan version a b (index * 8) ((index + suc rounds) * 8) o
    scan_step p s =
        let e1 : (index + 1) * 8 ≡ index * 8 + 8 = omega arith in
        let e2 : (index + 1 + rounds) * 8 ≡ (index + suc rounds) * 8 = omega arith in
        Scan-cons version a b (index * 8) (index * 8 + 8) ((index + suc rounds) * 8) (omega arith) p
          (rw (e1, e2) at s)
