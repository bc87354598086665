-- ===== src/Server/ResponseCache/Lookup.antt =====
-- internal/api/compact_cache.go: what a caller sees: a stored response is found again, and a key that
-- nobody has stored has one producer.
use bgp_api.Base.{
  ℕ, zero, suc, ◌+◌, ◌≤◌, ◌≡◌, inl, inr, refl, ap, ◌∙◌, arith, true, Bytes, List, [], ◌∷◌, length,
  get_elem?, Option, none, some, if◌then◌else◌, Bool-cases, Option-cases,
}
use bgp_api.Golang.ByteSlice.{bytes_equal}
use bgp_api.Server.ResponseCache.{
  Shard, ResponseCache, shard_get, set_shard, shard_index, get, add, acquire_round, uncached,
  cached, producer, waits, cache_entry_overhead,
}
use bgp_api.Server.ResponseCache.Accounts.{IsShard, bytes_equal_refl}
use bgp_api.Server.ResponseCache.Evict.{Added, refused, stored, shard_add_lem}

get-set_shard :
    (ss : List Shard) (i : ℕ) (s' : Shard) {s : Shard}
    → get_elem? ss i ≡ some s
    → get_elem? (set_shard ss i s') i ≡ some s'
unfolding set_shard
get-set_shard [] i s' h = cc
get-set_shard (t ∷ ss) zero s' h = refl
get-set_shard (t ∷ ss) (suc i) s' h = get-set_shard ss i s' h

get-Added :
    (s s' : Shard) (key value : Bytes)
    → length value ≤ s.max_entry
    → length key + length value + cache_entry_overhead ≤ s.budget
    → Added s key value s'
    → (shard_get s' key).0 ≡ some value
get-Added s s' key value m b (refused (inl long) e) = absurd (omega (arith, long, m))
get-Added s s' key value m b (refused (inr large) e) = absurd (omega (arith, large, b))
get-Added s s' key value m b (stored n r g) = g

-- In an enabled cache whose shard for the key keeps map and list together, Add succeeds and Get then
-- gives the added value, for a value within the shard's largest entry whose entry fits the shard.
pub get-add :
    (cache : ResponseCache) (key value : Bytes) {s : Shard}
    → cache.enabled ≡ true
    → get_elem? cache.shards (shard_index key) ≡ some s
    → IsShard s
    → length value ≤ s.max_entry
    → length key + length value + cache_entry_overhead ≤ s.budget
    → (cache' : ResponseCache) × (add cache key value ≡ some cache')
      × ((get cache' key).0 ≡ some value)
unfolding add get
get-add cache key value {s} on at h m b =
    let (s', eq, r) = shard_add_lem s key value h in
    (
      record {
        shards = set_shard cache.shards (shard_index key) s';
        flights = cache.flights;
        closed = cache.closed;
        next_flight = cache.next_flight;
        enabled = true;
      },
      simp (on, at, eq) refl,
      simp (get-set_shard cache.shards (shard_index key) s' at) (get-Added s s' key value m b r),
    )

get_flights :
    (cache : ResponseCache) (key : Bytes) (flights : Bytes → Option ℕ) (next_flight : ℕ)
    → (get (record cache { flights = flights; next_flight = next_flight }) key).0
      ≡ (get cache key).0
unfolding get
get_flights cache key flights next_flight = elim (Bool-cases cache.enabled) [
  | inr off ↦ simp off refl
  | inl on ↦ elim (Option-cases (get_elem? cache.shards (shard_index key))) [
    | inl none_there ↦ simp (on, none_there) refl
    | inr (s, there) ↦ simp (on, there) refl
  ]
]

-- The key is taken by a producer.
waits_then :
    (cache : ResponseCache) (key : Bytes) (flight : ℕ)
    → cache.enabled ≡ true
    → (get cache key).0 ≡ none
    → cache.flights key ≡ some flight
    → (acquire_round cache key).0 ≡ waits
unfolding acquire_round
waits_then cache key flight on miss busy = simp (on, miss, busy) refl

-- Where one round of Acquire makes a caller the producer of a key, the next round for that key, with
-- nothing in between, waits.
pub acquire_round-waits :
    (cache : ResponseCache) (key : Bytes) {flight : ℕ}
    → (acquire_round cache key).0 ≡ producer flight
    → (acquire_round (acquire_round cache key).1 key).0 ≡ waits
unfolding acquire_round
acquire_round-waits cache key {flight} h = elim (Bool-cases cache.enabled) [
  | inr off ↦ let e : uncached ≡ producer flight = simp off at h in cc
  | inl on ↦ elim (Option-cases (get cache key).0) [
    | inr (value, hit) ↦ let e : cached value ≡ producer flight = simp (on, hit) at h in cc
    | inl miss ↦ elim (Option-cases (cache.flights key)) [
      | inr (other, busy) ↦ let e : waits ≡ producer flight = simp (on, miss, busy) at h in cc
      | inl free ↦
          let taken : ResponseCache = record cache {
            flights = λ k. if bytes_equal k key then some cache.next_flight else cache.flights k;
            next_flight = cache.next_flight + 1;
          } in
          let next : (acquire_round cache key).1 ≡ taken = simp (on, miss, free) refl in
          ap (λ c. (acquire_round c key).0) next
          ∙ (waits_then taken key cache.next_flight on
              (get_flights cache key taken.flights taken.next_flight ∙ miss)
              (rw (bytes_equal_refl key) refl))
    ]
  ]
]
