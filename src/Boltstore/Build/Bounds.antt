-- ===== src/Boltstore/Build/Bounds.antt =====
-- internal/boltstore/build.go: a range that the builder reads has an end that is not before its start.
use Prim.Native.Nat.{Ordering}
use mathlib.Core.Option.{some-injective}
use bgp_api.Base.{
  ℕ, zero, suc, ◌≤◌, ◌≡◌, ◌≢◌, ◌⊎◌, inl, inr, refl, sym, ap, arith, ◌||◌, Bytes, IsByte, All,
  All-append, [], ◌∷◌, ◌++◌, length, drop, replicate, ltb, ◌==◌, Option, none, some, Bool-cases,
  Option-cases,
}
use bgp_api.Golang.BigInt.{fill_bytes, bit_len}
use bgp_api.Golang.ByteSlice.{compare_bytes, number}
use bgp_api.Golang.Text.{natural, trim_space}
use bgp_api.Boltstore.Keys.{Address}
use bgp_api.Boltstore.Keys.Order.{IsAddress, compare_addresses, zeros-IsByte}
use bgp_api.Boltstore.Build.{parse_range, address_from_sort_key, version_of}

pub length-fill_bytes : (w v : ℕ) → length (fill_bytes w v) ≡ w
unfolding fill_bytes
length-fill_bytes zero v = refl
length-fill_bytes (suc w) v = ap suc (length-fill_bytes w v)

fill_bytes-IsByte : (w v : ℕ) → All IsByte (fill_bytes w v)
unfolding fill_bytes
fill_bytes-IsByte zero v = tt
fill_bytes-IsByte (suc w) v = (omega arith, fill_bytes-IsByte w v)

All-drop : (n : ℕ) (xs : Bytes) → All IsByte xs → All IsByte (drop n xs)
All-drop zero xs h = h
All-drop (suc n) [] h = h
All-drop (suc n) (x ∷ xs) h = All-drop n xs h.1

fill_bytes-IsAddress : (v : ℕ) → IsAddress (fill_bytes 16 v)
fill_bytes-IsAddress v = record { size = length-fill_bytes 16 v; bytes = fill_bytes-IsByte 16 v }

ipv4_fill-IsAddress : (v : ℕ) → IsAddress (replicate 12 0 ++ drop 12 (fill_bytes 16 v))
unfolding fill_bytes
ipv4_fill-IsAddress v = record {
  size = refl;
  bytes =
      All-append IsByte (replicate 12 0) (drop 12 (fill_bytes 16 v)) (zeros-IsByte 12)
        (All-drop 12 (fill_bytes 16 v) (fill_bytes-IsByte 16 v));
}

address_from_sort_key-IsAddress :
    (value : Bytes) (version : ℕ) {a : Address}
    → address_from_sort_key value version ≡ some a
    → IsAddress a
unfolding address_from_sort_key
address_from_sort_key-IsAddress value version {a} h =
    elim (Option-cases (natural (trim_space value))) [
      | inl bad ↦ let e : none ≡ some a = simp (address_from_sort_key, bad) at h in cc
      | inr (n, good) ↦ elim (Bool-cases (ltb 128 (bit_len n))) [
        | inl wide ↦ let e : none ≡ some a = simp (address_from_sort_key, good, wide) at h in cc
        | inr fits ↦ elim (Bool-cases (version == 4)) [
          | inl four ↦
              let e : some (replicate 12 0 ++ drop 12 (fill_bytes 16 n)) ≡ some a =
                simp (address_from_sort_key, good, fits, four) at h in
              let f : replicate 12 0 ++ drop 12 (fill_bytes 16 n) ≡ a = some-injective _ _ e in
              rw (sym f) (ipv4_fill-IsAddress n)
          | inr six ↦
              let e : some (fill_bytes 16 n) ≡ some a =
                simp (address_from_sort_key, good, fits, six) at h in
              let f : fill_bytes 16 n ≡ a = some-injective _ _ e in
              rw (sym f) (fill_bytes-IsAddress n)
        ]
      ]
    ]

-- What the builder and rangePrefixes ask of a range.
pub record IsRange (version : ℕ) (start end : Address) : Type 0 where
  pub known : (version ≡ 4) ⊎ (version ≡ 6)
  pub first : IsAddress start
  pub final : IsAddress end
  pub order : number start ≤ number end

version_of_lem : (text : Bytes) {v : ℕ} → version_of text ≡ some v → (v ≡ 4) ⊎ (v ≡ 6)
version_of_lem text {v} h = elim (Option-cases (natural (trim_space text))) [
  | inl bad ↦ let e : none ≡ some v = simp (version_of, bad) at h in cc
  | inr (n, good) ↦ elim (Bool-cases (n == 4 || n == 6)) [
    | inl known ↦
        let e : some n ≡ some v = simp (version_of, good, known) at h in
        let f : n ≡ v = cc in let g : (n ≡ 4) ⊎ (n ≡ 6) = ground arith in rw (sym f) g
    | inr unknown ↦ let e : none ≡ some v = simp (version_of, good, unknown) at h in cc
  ]
]

ordered :
    (a b : Address)
    → IsAddress a
    → IsAddress b
    → compare_bytes a b ≢ Ordering.gt
    → number a ≤ number b
ordered a b ha hb h = let e = compare_addresses a b ha hb in ground (arith, h, e)

-- The comparison that ends parseRange.
checked :
    {A : Type 0} (o : Ordering) (x y : A)
    → (elim o as (λ _. Option A) [ Ordering.gt ↦ none | _ ↦ some x ]) ≡ some y
    → (o ≢ Ordering.gt) × (x ≡ y)
checked Ordering.lt x y h = (λ e. cc, some-injective _ _ h)
checked Ordering.eq x y h = (λ e. cc, some-injective _ _ h)
checked Ordering.gt x y h = cc

abbrev triple : ℕ → Address → Address → ℕ × Address × Address
triple version start end = (version, start, end)

in-IsRange :
    (version v : ℕ) (start end a b : Address)
    → (version ≡ 4) ⊎ (version ≡ 6)
    → IsAddress start
    → IsAddress end
    → compare_bytes start end ≢ Ordering.gt
    → triple version start end ≡ triple v a b
    → IsRange v a b
in-IsRange version v start end a b k hs he o e =
    let ev : version ≡ v = ap (λ t. t.0) e in
    let ea : start ≡ a = ap (λ t. t.1) e in
    let eb : end ≡ b = ap (λ t. t.2) e in
    rw (sym ev, sym ea, sym eb)
      (record { known = k; first = hs; final = he; order = ordered start end hs he o })

-- A range that parseRange accepts has version 4 or 6, two addresses of sixteen bytes, and a start that
-- is not above its end.
pub parse_range-IsRange :
    (start_value end_value version_value : Bytes) {v : ℕ} {a b : Address}
    → parse_range start_value end_value version_value ≡ some (v, a, b)
    → IsRange v a b
unfolding parse_range
parse_range-IsRange sv ev vv {v} {a} {b} h = elim (Option-cases (version_of vv)) [
  | inl bad ↦ let e : none ≡ some (triple v a b) = simp (parse_range, bad) at h in cc
  | inr (version, k) ↦ elim (Option-cases (address_from_sort_key sv version)) [
    | inl bad ↦ let e : none ≡ some (triple v a b) = simp (parse_range, k, bad) at h in cc
    | inr (start, s) ↦ elim (Option-cases (address_from_sort_key ev version)) [
      | inl bad ↦ let e : none ≡ some (triple v a b) = simp (parse_range, k, s, bad) at h in cc
      | inr (end, t) ↦
          let (o, e) =
            checked (compare_bytes start end) (triple version start end) (triple v a b)
              (simp (parse_range, k, s, t) at h) in
          in-IsRange version v start end a b (version_of_lem vv k)
            (address_from_sort_key-IsAddress sv version s)
            (address_from_sort_key-IsAddress ev version t) o e
    ]
  ]
]
