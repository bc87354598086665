-- ===== src/Ipkey/Prefixes.antt =====
-- internal/ipkey/ipkey.go: RangeToPrefixes, which the builder of the prefix index splits a range by, and
-- rangePrefixes of internal/boltstore/build.go.
use native.Mathlib.Nat.{zero-mod, mod_self}
use bgp_api.Base.{
  ℕ, zero, suc, ◌+◌, ◌-◌, ◌%◌, ◌^◌, ◌≤◌, ◌<◌, ◌≡◌, ◌∙◌, refl, ap, arith, Bytes, false, map, leb,
  ltb, leb→le, le→ltb, ==_iff, Option-cases, none, ◌∷◌, [], ◌==◌, if◌then◌else◌, Bool-cases, inl,
  inr, some,
}
use bgp_api.Golang.BigInt.{bit_len}
use bgp_api.Golang.Netip.{Prefix}
use bgp_api.Golang.Text.{natural, masked_number, reduced, digits}
use bgp_api.Boltstore.Keys.{Address}
use bgp_api.Boltstore.Keys.Order.{IsAddress}
use bgp_api.Boltstore.Ranges.{block_size, prefix_from, range_loop, range_prefixes}
use bgp_api.Boltstore.Ranges.Cover.{
  addr_number, Family, ipv4, ipv6, number-prefix_from, address_number, address_number_lt,
}
use bgp_api.Ipkey.{RangePrefix, prefix_key, or_mapped, prefixes_loop, range_to_prefixes}

abbrev pub full_number : ℕ → ℕ → ℕ
full_number version n = if version == 4 then or_mapped n else n

-- A prefix as RangeToPrefixes writes it.
abbrev pub key_of : ℕ → Prefix → RangePrefix
key_of version p = record {
  key = prefix_key version (full_number version (addr_number p.addr)) p.bits;
  length = p.bits;
}

bits-prefix_from :
    (version current length' : ℕ) → (prefix_from version current length').bits ≡ length'
unfolding prefix_from
bits-prefix_from version current length' = refl

prefixes_loop-range_loop :
    {version bits : ℕ} (fuel current last : ℕ)
    → Family version bits
    → last < 2 ^ bits
    → prefixes_loop fuel version bits current last
      ≡ map (key_of version) (range_loop fuel version bits current last)
unfolding prefixes_loop range_loop
prefixes_loop-range_loop zero current last f h = refl
prefixes_loop-range_loop {version} {bits} (suc fuel) current last f h =
    elim (Bool-cases (leb current last)) [
      | inl e ↦
          let block = block_size bits current last in
          let rest = prefixes_loop-range_loop fuel (current + block) last f h in
          let le = leb→le current last e in
          let same = number-prefix_from current (bits - (bit_len block - 1)) f (omega arith) in
          simp
            (
              prefixes_loop,
              range_loop,
              e,
              rest,
              same,
              bits-prefix_from version current (bits - (bit_len block - 1)),
            )
            refl
      | inr e ↦ simp (prefixes_loop, range_loop, e) refl
    ]

masked_number-plain :
    (bits c : ℕ) (s : Bytes)
    → (c == 0x2d) ≡ false
    → masked_number bits (c ∷ s) ≡ reduced bits (natural (c ∷ s))
unfolding masked_number
masked_number-plain bits c s plain = rw (masked_number, plain) refl

natural-masked_number :
    (bits : ℕ) (key : Bytes) (a : ℕ)
    → natural key ≡ some a
    → masked_number bits key ≡ some (a % 2 ^ bits)
unfolding natural masked_number
natural-masked_number bits [] a h = absurd (cc)
natural-masked_number bits (c ∷ s) a h = elim (Bool-cases (c == 0x2d)) [
  | inr plain ↦ masked_number-plain bits c s plain ∙ ap (reduced bits) h
  | inl minus ↦
      let no_plus : (c == 0x2b) ≡ false = ground (arith, minus) in
      elim (Option-cases (digits s)) [
        | inl unread ↦
            let bad : none ≡ some a = simp (natural, no_plus, minus, unread) at h in absurd (cc)
        | inr (n, read) ↦ elim (Bool-cases (n == 0)) [
          | inr negative ↦
              let bad : none ≡ some a = simp (natural, no_plus, minus, read, negative) at h in
              absurd (cc)
          | inl z ↦
              let none_left : some 0 ≡ some a = simp (natural, no_plus, minus, read, z) at h in
              let a_zero : a ≡ 0 = cc in
              let n_zero : n ≡ 0 = (==_iff n 0).0 z in
              simp (masked_number, minus, read, a_zero, n_zero)
                (let whole : 2 ^ bits - 0 ≡ 2 ^ bits = omega arith in
                  ap some (rw (zero-mod (2 ^ bits), whole) (mod_self (2 ^ bits))))
        ]
      ]
]

-- RangeToPrefixes splits a range as rangePrefixes of the dataset builder does: for sort keys that spell
-- the bounds of an IPv4 or an IPv6 range, the first not above the second, its entries are the keys and the
-- lengths of that function's prefixes, in their order.
pub range_to_prefixes-range_prefixes :
    {version bits : ℕ} (start end : Address) (start_key end_key : Bytes) (a b : ℕ)
    → Family version bits
    → IsAddress end
    → natural start_key ≡ some a
    → natural end_key ≡ some b
    → a % 2 ^ bits ≡ address_number version start
    → b % 2 ^ bits ≡ address_number version end
    → address_number version start ≤ address_number version end
    → range_to_prefixes start_key end_key version
      ≡ some (map (key_of version) (range_prefixes start end version))
unfolding range_to_prefixes range_prefixes
range_to_prefixes-range_prefixes start end start_key end_key a b ipv4 he ea eb ma mb le =
    let fits = address_number_lt end ipv4 he in
    let e : ltb (address_number 4 end) (address_number 4 start) ≡ false =
      le→ltb (address_number 4 end) (address_number 4 start) le in
    simp
      (
        range_to_prefixes,
        natural-masked_number _ start_key a ea,
        natural-masked_number _ end_key b eb,
        ma,
        mb,
        e,
      )
      (ap some
        (prefixes_loop-range_loop _ (address_number 4 start) (address_number 4 end) ipv4 fits))
range_to_prefixes-range_prefixes start end start_key end_key a b ipv6 he ea eb ma mb le =
    let fits = address_number_lt end ipv6 he in
    let e : ltb (address_number 6 end) (address_number 6 start) ≡ false =
      le→ltb (address_number 6 end) (address_number 6 start) le in
    simp
      (
        range_to_prefixes,
        natural-masked_number _ start_key a ea,
        natural-masked_number _ end_key b eb,
        ma,
        mb,
        e,
      )
      (ap some
        (prefixes_loop-range_loop _ (address_number 6 start) (address_number 6 end) ipv6 fits))
