-- ===== src/Boltstore/Lpm/Masked.antt =====
-- internal/boltstore/route_lpm.go: maskedRouteLPMAddress keeps the bits in front of the cut.
use native.Mathlib.Nat.{mul-div_cancel, div-mul-le_self, one-le-pow}
use native.Mathlib.Decide.{dec_lt}
use bgp_api.Base.{
  ℕ, zero, suc, ◌+◌, ◌-◌, ◌*◌, ◌/◌, ◌%◌, ◌^◌, ◌≤◌, ◌<◌, ◌≡◌, refl, arith, Bytes, IsByte, All,
  All-append, [], ◌∷◌, ◌++◌, take, replicate, length, length-append, length-take, length-replicate,
  get_or, leb, ◌==◌, Bool-cases, inl, inr,
}
use bgp_api.Boltstore.Keys.{Address}
use bgp_api.Boltstore.Keys.Order.{IsAddress}
use bgp_api.Boltstore.Lpm.{offset_of, width_of, route_lpm_bit, masked_route_lpm_address}
use bgp_api.Boltstore.Lpm.Common.{Agree, div_pow_add, get_or-IsByte}

get_or-take :
    (n k : ℕ) (xs ys : Bytes) → k < n → k < length xs → get_or (take n xs ++ ys) k 0 ≡ get_or xs k 0
get_or-take zero k xs ys hn hl = absurd (omega arith)
get_or-take (suc n) k [] ys hn hl = absurd (omega arith)
get_or-take (suc n) zero (x ∷ xs) ys hn hl = refl
get_or-take (suc n) (suc k) (x ∷ xs) ys hn hl = get_or-take n k xs ys (omega arith) (omega arith)

get_or-at :
    (n : ℕ) (xs : Bytes) (y : ℕ) (ys : Bytes)
    → n ≤ length xs
    → get_or (take n xs ++ (y ∷ ys)) n 0 ≡ y
get_or-at zero xs y ys h = refl
get_or-at (suc n) [] y ys h = absurd (omega arith)
get_or-at (suc n) (x ∷ xs) y ys h = get_or-at n xs y ys (omega arith)

-- The bits of a byte in front of a cut.
cut_bit :
    (b r j : ℕ)
    → r ≤ 8
    → j < r
    → b / 2 ^ (8 - r) * 2 ^ (8 - r) / 2 ^ (7 - j) % 2 ≡ b / 2 ^ (7 - j) % 2
cut_bit b r j hr hj =
    let split : 7 - j ≡ (8 - r) + (r - 1 - j) = omega arith in
    let whole =
      mul-div_cancel (b / 2 ^ (8 - r)) {n = 2 ^ (8 - r)} (one-le-pow (8 - r) 2 (omega arith)) in
    rw (split, div_pow_add, whole, div_pow_add) refl

cut_lt : (b c : ℕ) → b < 256 → b / c * c < 256
cut_lt b c h = omega (arith, div-mul-le_self b c)

offset_width : (version : ℕ) → offset_of version * 8 + width_of version ≡ 128
offset_width version = ground arith

parts : (version n : ℕ) → n < width_of version → offset_of version + n / 8 < 16
parts version n h = omega (arith, offset_width version)

bits_of :
    (version n : ℕ) (value out : Address)
    → ((k : ℕ) → k < offset_of version + n / 8 → get_or out k 0 ≡ get_or value k 0)
    → ((j : ℕ)
        → j < n % 8
        → get_or out (offset_of version + n / 8) 0 / 2 ^ (7 - j) % 2
          ≡ get_or value (offset_of version + n / 8) 0 / 2 ^ (7 - j) % 2)
    → Agree version out value n
unfolding route_lpm_bit
bits_of version n value out front cut i hi = elim (dec_lt (i / 8) (n / 8)) [
  | yes below ↦ rw (front (offset_of version + i / 8) (omega arith)) refl
  | no last ↦ let e : i / 8 ≡ n / 8 = omega arith in rw e (cut (i % 8) (omega arith))
]

-- For an address of sixteen bytes, maskedRouteLPMAddress keeps each of the first n bits of the
-- address.
pub masked_route_lpm_address-Agree :
    (value : Address) (version n : ℕ)
    → IsAddress value
    → Agree version (masked_route_lpm_address value version n) value n
unfolding masked_route_lpm_address
masked_route_lpm_address-Agree value version n h = elim (Bool-cases (leb (width_of version) n)) [
  | inl all ↦ rw all (λ i hi. refl)
  | inr some' ↦
      let whole = offset_of version + n / 8 in
      let inside : whole < 16 = parts version n (ground arith) in
      let b = get_or value whole 0 in
      rw some' (elim (Bool-cases (n % 8 == 0)) [
        | inl even ↦ rw even (
            bits_of version n value (take whole value ++ replicate (16 - whole) 0)
              (λ k hk.
                get_or-take whole k value (replicate (16 - whole) 0) hk (omega (arith, h.size)))
              (λ j hj. absurd (ground arith)))
        | inr odd ↦ rw odd (
            bits_of version n value
              (take whole value
                ++ ((b / 2 ^ (8 - n % 8) * 2 ^ (8 - n % 8)) ∷ replicate (15 - whole) 0))
              (λ k hk. get_or-take whole k value _ hk (omega (arith, h.size)))
              (λ j hj.
                rw
                  (get_or-at whole value (b / 2 ^ (8 - n % 8) * 2 ^ (8 - n % 8))
                    (replicate (15 - whole) 0) (omega (arith, h.size)))
                  (cut_bit b (n % 8) j (omega arith) hj)))
      ])
]

All-take {κ} : (P : ℕ → Type κ) (n : ℕ) (xs : Bytes) → All P xs → All P (take n xs)
All-take P zero xs h = tt
All-take P (suc n) [] h = tt
All-take P (suc n) (x ∷ xs) h = (h.0, All-take P n xs h.1)

pub All-zeros : (n : ℕ) → All IsByte (replicate n 0)
All-zeros zero = tt
All-zeros (suc n) = (omega arith, All-zeros n)

-- For an address of sixteen bytes, maskedRouteLPMAddress gives an address of sixteen bytes.
pub masked_route_lpm_address-IsAddress :
    (value : Address) (version n : ℕ)
    → IsAddress value
    → IsAddress (masked_route_lpm_address value version n)
unfolding masked_route_lpm_address
masked_route_lpm_address-IsAddress value version n h =
    elim (Bool-cases (leb (width_of version) n)) [
      | inl all ↦ rw all h
      | inr some' ↦
          let whole = offset_of version + n / 8 in
          let inside : whole < 16 = parts version n (ground arith) in
          let b = get_or value whole 0 in
          let front = All-take IsByte whole value h.bytes in
          let size = length-take whole value (omega (arith, h.size)) in
          rw some' (elim (Bool-cases (n % 8 == 0)) [
            | inl even ↦ rw even (record {
              size = rw (length-append, size, length-replicate) (omega arith);
              bytes =
                  All-append IsByte (take whole value) (replicate (16 - whole) 0) front
                    (All-zeros (16 - whole));
            })
            | inr odd ↦ rw odd (record {
              size =
                  rw (length-append, size) (omega (arith, length-replicate {A = ℕ} (15 - whole) 0));
              bytes = All-append IsByte (take whole value) _ front (
                cut_lt b (2 ^ (8 - n % 8)) (get_or-IsByte value whole h.bytes),
                All-zeros (15 - whole),
              );
            })
          ])
    ]
