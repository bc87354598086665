-- ===== src/Server/ResponseCache/Shards.antt =====
-- internal/api/compact_cache.go: Get and Add keep every shard of the cache within its budget.
use bgp_api.Base.{
  Option, ℕ, zero, suc, ◌+◌, ◌≤◌, ◌<◌, ◌≡◌, inl, inr, refl, sym, ap, ◌∙◌, arith, Bool, Bytes, List,
  [], ◌∷◌, length, get_elem?, All, some, Bool-cases, Option-cases,
}
use bgp_api.Server.ResponseCache.{
  Shard, ResponseCache, shard_get, set_shard, shard_index, get, add, response_cache_shards,
  total_used, push_front,
}
use bgp_api.Server.ResponseCache.Accounts.{IsShard, shard_get-IsShard}
use bgp_api.Server.ResponseCache.Add.{discard-budget}
use bgp_api.Server.ResponseCache.Evict.{Added, refused, stored, shard_add_lem}

abbrev pub IsWithin : Shard → Type 0
IsWithin s = IsShard s × (s.used ≤ s.budget)

abbrev pub total_budget : List Shard → ℕ
total_budget [] = 0
total_budget (s ∷ ss) = s.budget + total_budget ss

pub record IsCache (limit : ℕ) (cache : ResponseCache) : Type 0 where
  pub count : length cache.shards ≡ response_cache_shards
  pub shards : All IsWithin cache.shards
  pub budget : total_budget cache.shards ≡ limit

pub total_used_le : (ss : List Shard) → All IsWithin ss → total_used ss ≤ total_budget ss
total_used_le [] h = omega arith
total_used_le (s ∷ ss) h = omega (arith, total_used_le ss h.1, h.0.1)

-- A shard that an operation leaves, for the one that it found.
record Replaces (s s' : Shard) : Type 0 where
  within : IsWithin s'
  budget : s'.budget ≡ s.budget

set_shard-IsCache :
    (ss : List Shard) (i : ℕ) (s s' : Shard)
    → get_elem? ss i ≡ some s
    → Replaces s s'
    → All IsWithin ss
    → All IsWithin (set_shard ss i s')
      × (total_budget (set_shard ss i s') ≡ total_budget ss)
      × (length (set_shard ss i s') ≡ length ss)
unfolding set_shard
set_shard-IsCache [] i s s' at r h = cc
set_shard-IsCache (t ∷ ss) zero s s' at r h =
    let e : t ≡ s = cc in
    let b : t.budget ≡ s.budget = ap (λ x. x.budget) e in
    ((r.within, h.1), omega (arith, b, r.budget), refl)
set_shard-IsCache (t ∷ ss) (suc i) s s' at r h =
    let (w, b, l) = set_shard-IsCache ss i s s' at r h.1 in ((h.0, w), omega (arith, b), ap suc l)

found_in : (ss : List Shard) (i : ℕ) → i < length ss → (s : Shard) × (get_elem? ss i ≡ some s)
found_in [] i h = absurd (omega arith)
found_in (s ∷ ss) zero h = (s, refl)
found_in (s ∷ ss) (suc i) h = found_in ss i (omega arith)

All-get_elem? :
    (P : Shard → Type 0) (ss : List Shard) (i : ℕ) {s : Shard}
    → All P ss
    → get_elem? ss i ≡ some s
    → P s
All-get_elem? P [] i h at = cc
All-get_elem? P (t ∷ ss) zero {s} h at = let e : t ≡ s = cc in rw (sym e) h.0
All-get_elem? P (t ∷ ss) (suc i) h at = All-get_elem? P ss i h.1 at

shard_index_lt : (key : Bytes) → shard_index key < 32
unfolding shard_index
shard_index_lt key = omega arith

shard_get-Replaces : (s : Shard) (key : Bytes) → IsWithin s → Replaces s (shard_get s key).1
unfolding shard_get
shard_get-Replaces s key h =
    let w = shard_get-IsShard s key h.0 in
    elim (Option-cases (s.entries key)) [
      | inl absent ↦ rw (shard_get, absent) (record { within = h; budget = refl })
      | inr (e, present) ↦ record {
        within = (w, rw (shard_get, present) h.1);
        budget = rw (shard_get, present) refl;
      }
    ]

Added-Replaces :
    (s : Shard) (key value : Bytes) (s' : Shard) → IsWithin s → Added s key value s' → Replaces s s'
unfolding push_front
Added-Replaces s key value s' h (refused why same) = rw same (record { within = h; budget = refl })
Added-Replaces s key value s' h (stored m r g) = record {
  within = (r.shard, r.fits);
  budget = r.budget ∙ discard-budget s key;
}

replaced :
    (budget : ℕ) (cache : ResponseCache) (i : ℕ) (s s' : Shard) (flights : Bytes → Option ℕ)
    (closed : ℕ → Bool) (next_flight : ℕ) (enabled : Bool)
    → IsCache budget cache
    → get_elem? cache.shards i ≡ some s
    → Replaces s s'
    → IsCache budget (record {
      shards = set_shard cache.shards i s';
      flights = flights;
      closed = closed;
      next_flight = next_flight;
      enabled = enabled;
    })
replaced budget cache i s s' flights closed next_flight enabled h at r =
    let (w, b, l) = set_shard-IsCache cache.shards i s s' at r h.shards in
    record { count = l ∙ h.count; shards = w; budget = b ∙ h.budget }

pub get-IsCache :
    (budget : ℕ) (cache : ResponseCache) (key : Bytes)
    → IsCache budget cache
    → IsCache budget (get cache key).1
unfolding get
get-IsCache budget cache key h = elim (Bool-cases cache.enabled) [
  | inr off ↦ simp (get, off) h
  | inl on ↦
      let (s, at) = found_in cache.shards (shard_index key) (rw h.count (shard_index_lt key)) in
      simp (get, on, at)
        (replaced budget cache (shard_index key) s (shard_get s key).1 _ _ _ _ h at (
          shard_get-Replaces s key
            (All-get_elem? IsWithin cache.shards (shard_index key) h.shards at)))
]

pub add-IsCache :
    (budget : ℕ) (cache : ResponseCache) (key value : Bytes)
    → IsCache budget cache
    → (cache' : ResponseCache) × (add cache key value ≡ some cache') × IsCache budget cache'
unfolding add
add-IsCache budget cache key value h = elim (Bool-cases cache.enabled) [
  | inr off ↦ (cache, simp off refl, h)
  | inl on ↦
      let (s, at) = found_in cache.shards (shard_index key) (rw h.count (shard_index_lt key)) in
      let within = All-get_elem? IsWithin cache.shards (shard_index key) h.shards at in
      let (s', eq, r) = shard_add_lem s key value within.0 in
      (
        record cache { shards = set_shard cache.shards (shard_index key) s' },
        simp (on, at, eq) refl,
        replaced budget cache (shard_index key) s s' _ _ _ _ h at
            (Added-Replaces s key value s' within r),
      )
]
