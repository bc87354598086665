-- ===== src/Boltstore/Lpm/Prefix.antt =====
-- internal/boltstore/route_lpm.go: what the common prefix of two addresses is, and when an address
-- lies in a prefix.
use native.Mathlib.Decide.{dec_lt}
use bgp_api.Base.{
  ℕ, zero, suc, ◌+◌, ◌-◌, ◌*◌, ◌/◌, ◌≤◌, ◌<◌, ◌≡◌, ◌≢◌, ◌↔◌, arith, true, false, IsByte, All, ltb,
  ◌==◌, ==_iff, if◌then◌else◌, Bool-cases, inl, inr, Option, none, some,
}
use bgp_api.Boltstore.Keys.{Address}
use bgp_api.Boltstore.Lpm.{
  offset_of, route_lpm_bit, byte_loop, bit_loop, route_lpm_common_prefix, route_lpm_address_matches,
}
use bgp_api.Boltstore.Lpm.Common.{Agree, Scan, found, missing, byte_loop-Scan}

-- The bits below `c`, at most `limit`, are the same, and the next one differs.
pub record Shared (version : ℕ) (a b : Address) (limit c : ℕ) : Type 0 where
  pub bound : c ≤ limit
  pub same : Agree version a b c
  pub differs : c < limit → route_lpm_bit a version c ≢ route_lpm_bit b version c

pub extend :
    (version : ℕ) (a b : Address) (n : ℕ)
    → Agree version a b n
    → route_lpm_bit a version n ≡ route_lpm_bit b version n
    → Agree version a b (n + 1)
extend version a b n h e i l = elim (dec_lt i n) [
  | yes below ↦ h i below
  | no above ↦ let at : i ≡ n = omega arith in rw at e
]

ne_of : (x y : ℕ) → (x == y) ≡ false → x ≢ y
ne_of x y h e = ground arith

bit_loop-Shared :
    (version : ℕ) (a b : Address) (rounds bit : ℕ)
    → Agree version a b bit
    → Shared version a b (bit + rounds) (bit_loop rounds bit version a b)
unfolding bit_loop
bit_loop-Shared version a b zero bit h = record {
  bound = omega arith;
  same = h;
  differs = λ l. absurd (omega arith);
}
bit_loop-Shared version a b (suc rounds) bit h =
    elim (Bool-cases (route_lpm_bit a version bit == route_lpm_bit b version bit)) [
      | inl same ↦
          let e : bit + 1 + rounds ≡ bit + suc rounds = omega arith in
          rw same (
            rw e at (
              bit_loop-Shared version a b rounds (bit + 1) (
                extend version a b bit h
                  ((==_iff (route_lpm_bit a version bit) (route_lpm_bit b version bit)).0 same))))
      | inr differs ↦ rw differs (record {
        bound = omega arith;
        same = h;
        differs =
            λ _ e. ne_of (route_lpm_bit a version bit) (route_lpm_bit b version bit) differs e;
      })
    ]

common_from :
    (version : ℕ) (a b : Address) (limit : ℕ) (o : Option ℕ)
    → Scan version a b 0 (limit / 8 * 8) o
    → Shared version a b limit (elim o [
      | some bit ↦ bit
      | none ↦ bit_loop (limit - limit / 8 * 8) (limit / 8 * 8) version a b
    ])
common_from version a b limit (some c) (found c' lo hi same differs) = record {
  bound = omega arith;
  same = λ i h. same i (omega arith) h;
  differs = λ _. differs;
}
common_from version a b limit none (missing same) =
    let e : limit / 8 * 8 + (limit - limit / 8 * 8) ≡ limit = omega arith in
    rw e at (
      bit_loop-Shared version a b (limit - limit / 8 * 8) (limit / 8 * 8)
        (λ i h. same i (omega arith) h))

abbrev pub limit_of : ℕ → ℕ → ℕ
limit_of m n = if ltb n m then n else m

-- For byte slices, routeLPMCommonPrefix, which counts equal bytes and the leading zeros of the first
-- difference, gives the number of leading bits that both addresses share, at most the smaller length:
-- all bits before it agree, and below that bound the bit at it differs.
pub route_lpm_common_prefix_lem :
    (version : ℕ) (a b : Address) (m n : ℕ)
    → All IsByte a
    → All IsByte b
    → Shared version a b (limit_of m n) (route_lpm_common_prefix a m b n version)
unfolding route_lpm_common_prefix
route_lpm_common_prefix_lem version a b m n ha hb =
    let whole = limit_of m n / 8 in
    let e : (0 + whole) * 8 ≡ whole * 8 = omega arith in
    common_from version a b (limit_of m n) (byte_loop whole 0 (offset_of version) a b)
      (rw e at (byte_loop-Scan version a b whole 0 ha hb))

all-Shared :
    (version : ℕ) (a b : Address) (n c : ℕ) → Shared version a b n c → Agree version a b n → c ≡ n
all-Shared version a b n c p h = elim (dec_lt c n) [
  | yes below ↦ absurd (p.differs below (h c below))
  | no above ↦ omega (arith, p.bound)
]

-- For byte slices, routeLPMAddressMatches, which compares whole bytes and then single bits, holds
-- exactly when the two addresses agree on each of the first n bits.
pub route_lpm_address_matches_iff :
    (version : ℕ) (a b : Address) (n : ℕ)
    → All IsByte a
    → All IsByte b
    → (route_lpm_address_matches a b version n ≡ true) ↔ Agree version a b n
unfolding route_lpm_address_matches
route_lpm_address_matches_iff version a b n ha hb =
    let p = route_lpm_common_prefix_lem version a b n n ha hb in
    let c = route_lpm_common_prefix a n b n version in
    let limit : limit_of n n ≡ n = ground arith in
    (
      λ e i l. p.same i (omega (arith, (==_iff c n).0 e)),
      λ h. (==_iff c n).1 (all-Shared version a b n c (rw limit at p) h),
    )
