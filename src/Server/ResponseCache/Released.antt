-- ===== src/Server/ResponseCache/Released.antt =====
-- internal/api/compact_cache.go: which flights are closed, and that only a release closes one.
use bgp_api.Base.{
  ℕ, ◌≡◌, ◌≢◌, refl, sym, ap, arith, Bool, true, false, Bytes, List, [], ◌∷◌, All, get_elem?, none,
  some, Option-cases, Bool-cases, inl, inr, if◌then◌else◌, ◌==◌,
}
use mathlib.Core.Option.{some-injective}
use bgp_api.Server.ResponseCache.{
  ResponseCache, get, add, shard_add, acquire_round, shard_index, set_shard, Operation, release_key,
}

-- The flights that a sequence of operations releases.
abbrev pub released : List Operation → List ℕ
released [] = []
released (release_key key flight ∷ os) = flight ∷ released os
released (o ∷ os) = released os

-- No flight stands in the list twice.
abbrev pub Once : List ℕ → Type 0
Once [] = Unit {0}
Once (f ∷ fs) = All (λ g. g ≢ f) fs × Once fs

-- None of the flights is closed.
abbrev pub Open : (ℕ → Bool) → List ℕ → Type 0
Open closed fs = All (λ f. closed f ≡ false) fs

pub get-closed : (cache : ResponseCache) (key : Bytes) → (get cache key).1.closed ≡ cache.closed
unfolding get
get-closed cache key = elim (Bool-cases cache.enabled) [
  | inr off ↦ simp off refl
  | inl on ↦ elim (Option-cases (get_elem? cache.shards (shard_index key))) [
    | inl absent ↦ simp (on, absent) refl
    | inr (s, there) ↦ simp (on, there) refl
  ]
]

pub acquire_round-closed :
    (cache : ResponseCache) (key : Bytes) → (acquire_round cache key).1.closed ≡ cache.closed
unfolding acquire_round
acquire_round-closed cache key = elim (Bool-cases cache.enabled) [
  | inr off ↦ simp (acquire_round, off) refl
  | inl on ↦ elim (Option-cases (get cache key).0) [
    | inr (value, hit) ↦ simp (acquire_round, on, hit) (get-closed cache key)
    | inl miss ↦ elim (Option-cases (cache.flights key)) [
      | inr (flight, busy) ↦ simp (acquire_round, on, miss, busy) refl
      | inl free ↦ simp (acquire_round, on, miss, free) refl
    ]
  ]
]

pub add-closed :
    (cache cache' : ResponseCache) (key value : Bytes)
    → add cache key value ≡ some cache'
    → cache'.closed ≡ cache.closed
unfolding add
add-closed cache cache' key value h = elim (Bool-cases cache.enabled) [
  | inr off ↦
      let e : some cache ≡ some cache' = simp (add, off) at h in
      ap (λ (c : ResponseCache). c.closed) (sym (some-injective _ _ e))
  | inl on ↦ elim (Option-cases (get_elem? cache.shards (shard_index key))) [
    | inl absent ↦ let bad : none ≡ some cache' = simp (add, on, absent) at h in absurd (cc)
    | inr (s, there) ↦ elim (Option-cases (shard_add s key value)) [
      | inl stops ↦ let bad : none ≡ some cache' = simp (add, on, there, stops) at h in absurd (cc)
      | inr (s', e) ↦
          let made : ResponseCache = record {
            shards = set_shard cache.shards (shard_index key) s';
            flights = cache.flights;
            closed = cache.closed;
            next_flight = cache.next_flight;
            enabled = true;
          } in
          let same : some made ≡ some cache' = simp (add, on, there, e) at h in
          ap (λ (c : ResponseCache). c.closed) (sym (some-injective _ _ same))
    ]
  ]
]

-- The release of one flight leaves the others open.
pub Open-release :
    (closed : ℕ → Bool) (flight : ℕ) (fs : List ℕ)
    → All (λ g. g ≢ flight) fs
    → Open closed fs
    → Open (λ f. if f == flight then true else closed f) fs
Open-release closed flight [] h o = tt
Open-release closed flight (f ∷ fs) h o =
    let other : (f == flight) ≡ false = ground (arith, h.0) in
    (rw other o.0, Open-release closed flight fs h.1 o.1)
