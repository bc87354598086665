-- ===== src/Server/ResponseCache/Empty.antt =====
-- internal/api/compact_cache.go: the shards that newResponseCache makes.
use bgp_api.Base.{
  ℕ, zero, suc, ◌+◌, ◌-◌, ◌*◌, ◌/◌, ◌%◌, ◌≡◌, inl, inr, refl, ap, arith, length, All, ltb,
  Bool-cases, ltb→lt, ltb→le,
}
use bgp_api.Server.ResponseCache.{empty_shard, make_shards, response_cache_shards}
use bgp_api.Server.ResponseCache.Shards.{IsWithin, total_budget}

empty_shard-IsWithin : (budget max_entry : ℕ) → IsWithin (empty_shard budget max_entry)
empty_shard-IsWithin budget max_entry =
    (record { used = refl; found = λ k. refl; distinct = tt; fresh = tt; sized = tt }, omega arith)

pub make_shards-All :
    (count index budget max_entry : ℕ)
    → All IsWithin (make_shards count index budget max_entry)
      × (length (make_shards count index budget max_entry) ≡ count)
unfolding make_shards
make_shards-All zero index budget max_entry = (tt, refl)
make_shards-All (suc count) index budget max_entry =
    let (w, l) = make_shards-All count (index + 1) budget max_entry in
    let share = budget / response_cache_shards in
    elim (Bool-cases (ltb index (budget % response_cache_shards))) [
      | inl more ↦ rw more ((empty_shard-IsWithin (share + 1) max_entry, w), ap suc l)
      | inr even ↦ rw even ((empty_shard-IsWithin share max_entry, w), ap suc l)
    ]

one_more : (count q : ℕ) → suc count * q ≡ q + count * q
one_more count q = grind arith

pub make_shards-budget :
    (count index budget max_entry : ℕ)
    → index + count ≡ response_cache_shards
    → total_budget (make_shards count index budget max_entry)
      ≡ count * (budget / response_cache_shards) + (budget % response_cache_shards - index)
unfolding make_shards
make_shards-budget zero index budget max_entry h = omega arith
make_shards-budget (suc count) index budget max_entry h =
    let rest = make_shards-budget count (index + 1) budget max_entry (omega (arith, h)) in
    let m = one_more count (budget / response_cache_shards) in
    elim (Bool-cases (ltb index (budget % response_cache_shards))) [
      | inl more ↦
          rw more (omega (arith, rest, m, ltb→lt index (budget % response_cache_shards) more))
      | inr even ↦
          rw even (omega (arith, rest, m, ltb→le index (budget % response_cache_shards) even))
    ]
