-- ===== src/Server/ResponseCache/Bounded.antt =====
-- internal/api/compact_cache.go: the whole cache stays within its budget.
use bgp_api.Base.{
  ℕ, suc, ◌≤◌, ◌≡◌, inl, inr, refl, sym, ap, ◌∙◌, arith, true, false, Bytes, List, [], ◌∷◌, length,
  All, ltb, ◌==◌, none, some, if◌then◌else◌, Bool-cases, Option-cases,
}
use bgp_api.Golang.ByteSlice.{bytes_equal}
use mathlib.Core.Option.{some-injective}
use bgp_api.Server.ResponseCache.{
  Shard, ResponseCache, get, acquire_round, release, disable_and_clear, perform, perform_all,
  Operation, get_key, add_key, acquire_key, release_key, switch_on, switch_off, make_shards,
  new_response_cache, response_cache_shards, total_used, clear_shards,
}
use bgp_api.Server.ResponseCache.Released.{
  released, Once, Open, get-closed, acquire_round-closed, add-closed, Open-release,
}
use bgp_api.Server.ResponseCache.Shards.{
  IsWithin, total_budget, IsCache, total_used_le, get-IsCache, add-IsCache,
}
use bgp_api.Server.ResponseCache.Empty.{make_shards-All, make_shards-budget}

clear_shards-All : (ss : List Shard) → All IsWithin (clear_shards ss)
clear_shards-All [] = tt
clear_shards-All (s ∷ ss) = (
  (record { used = refl; found = λ k. refl; distinct = tt; fresh = tt; sized = tt }, omega arith),
  clear_shards-All ss,
)

clear_shards-budget :
    (ss : List Shard)
    → (total_budget (clear_shards ss) ≡ total_budget ss) × (length (clear_shards ss) ≡ length ss)
clear_shards-budget [] = (refl, refl)
clear_shards-budget (s ∷ ss) = let (b, l) = clear_shards-budget ss in (omega (arith, b), ap suc l)

acquire_round-IsCache :
    (budget : ℕ) (cache : ResponseCache) (key : Bytes)
    → IsCache budget cache
    → IsCache budget (acquire_round cache key).1
unfolding acquire_round
acquire_round-IsCache budget cache key h = elim (Bool-cases cache.enabled) [
  | inr off ↦ simp (acquire_round, off) h
  | inl on ↦ elim (Option-cases (get cache key).0) [
    | inr (value, hit) ↦ simp (acquire_round, on, hit) (get-IsCache budget cache key h)
    | inl miss ↦ elim (Option-cases (cache.flights key)) [
      | inr busy ↦ simp (acquire_round, on, miss, busy.1) h
      | inl free ↦
          simp (acquire_round, on, miss, free)
            (record { count = h.count; shards = h.shards; budget = h.budget })
    ]
  ]
]

-- A cache whose parts agree, and in which none of the given flights is closed.
record Ready (budget : ℕ) (flights : List ℕ) (cache : ResponseCache) : Type 0 where
  cache_ok : IsCache budget cache
  unclosed : Open cache.closed flights

perform-Ready :
    (budget : ℕ) (o : Operation) (os : List Operation) (cache : ResponseCache)
    → Once (released (o ∷ os))
    → Ready budget (released (o ∷ os)) cache
    → (cache' : ResponseCache) × (perform o cache ≡ some cache') × Ready budget (released os) cache'
unfolding perform release disable_and_clear
perform-Ready budget (get_key key) os cache once r = (
  _,
  refl,
  record {
    cache_ok = get-IsCache budget cache key r.cache_ok;
    unclosed = rw (get-closed cache key) r.unclosed;
  },
)
perform-Ready budget (add_key key value) os cache once r =
    let (cache', eq, i) = add-IsCache budget cache key value r.cache_ok in
    (
      cache',
      eq,
      record { cache_ok = i; unclosed = rw (add-closed cache cache' key value eq) r.unclosed },
    )
perform-Ready budget (acquire_key key) os cache once r = (
  _,
  refl,
  record {
    cache_ok = acquire_round-IsCache budget cache key r.cache_ok;
    unclosed = rw (acquire_round-closed cache key) r.unclosed;
  },
)
perform-Ready budget (release_key key flight) os cache once r =
    let h = r.cache_ok in
    let after : ResponseCache = record cache {
      flights = λ k. if bytes_equal k key then none else cache.flights k;
      closed = λ f. if f == flight then true else cache.closed f;
    } in
    let unclosed : cache.closed flight ≡ false = r.unclosed.0 in
    (
      after,
      simp (release, unclosed) refl,
      record {
        cache_ok = record { count = h.count; shards = h.shards; budget = h.budget };
        unclosed = Open-release cache.closed flight (released os) once.0 r.unclosed.1;
      },
    )
perform-Ready budget switch_on os cache once r =
    let h = r.cache_ok in
    (
      _,
      refl,
      record {
        cache_ok = record { count = h.count; shards = h.shards; budget = h.budget };
        unclosed = r.unclosed;
      },
    )
perform-Ready budget switch_off os cache once r =
    let h = r.cache_ok in
    let (b, l) = clear_shards-budget cache.shards in
    (
      _,
      refl,
      record {
        cache_ok = record {
          count = l ∙ h.count;
          shards = clear_shards-All cache.shards;
          budget = b ∙ h.budget;
        };
        unclosed = r.unclosed;
      },
    )

later-Once : (o : Operation) (os : List Operation) → Once (released (o ∷ os)) → Once (released os)
later-Once (get_key key) os h = h
later-Once (add_key key value) os h = h
later-Once (acquire_key key) os h = h
later-Once (release_key key flight) os h = h.1
later-Once switch_on os h = h
later-Once switch_off os h = h

perform_all-Ready :
    (budget : ℕ) (os : List Operation) (cache : ResponseCache)
    → Once (released os)
    → Ready budget (released os) cache
    → (cache' : ResponseCache) × (perform_all os cache ≡ some cache') × IsCache budget cache'
unfolding perform_all
perform_all-Ready budget [] cache once r = (cache, refl, r.cache_ok)
perform_all-Ready budget (o ∷ os) cache once r =
    let (next, eq, i) = perform-Ready budget o os cache once r in
    let (last, eqs, j) = perform_all-Ready budget os next (later-Once o os once) i in
    (last, rw (perform_all, eq) eqs, j)

total_used-IsCache :
    (budget : ℕ) (cache : ResponseCache) → IsCache budget cache → total_used cache.shards ≤ budget
total_used-IsCache budget cache h = omega (arith, total_used_le cache.shards h.shards, h.budget)

new_response_cache-IsCache :
    (budget fallback max_entry : ℕ) {cache : ResponseCache}
    → new_response_cache budget fallback max_entry ≡ some cache
    → IsCache (if budget == 0 then fallback else budget) cache
unfolding new_response_cache
new_response_cache-IsCache budget fallback max_entry {cache} h =
    let b = if budget == 0 then fallback else budget in
    elim (Bool-cases (ltb b 1)) [
      | inl small ↦ let e : none ≡ some cache = rw small at h in cc
      | inr enough ↦
          let (w, l) = make_shards-All response_cache_shards 0 b max_entry in
          let e : some (record {
            shards = make_shards response_cache_shards 0 b max_entry;
            flights = λ _. none;
            closed = λ _. false;
            next_flight = 0;
            enabled = true;
          })
              ≡ some cache =
            rw enough at h in
          let made : record {
            shards = make_shards response_cache_shards 0 b max_entry;
            flights = λ _. none;
            closed = λ _. false;
            next_flight = 0;
            enabled = true;
          }
              ≡ cache =
            some-injective _ _ e in
          rw (sym made) (record {
            count = l;
            shards = w;
            budget = omega (arith, make_shards-budget response_cache_shards 0 b max_entry refl);
          })
    ]

-- In a new cache no flight is closed.
new_response_cache-Open :
    (budget fallback max_entry : ℕ) {cache : ResponseCache} (fs : List ℕ)
    → new_response_cache budget fallback max_entry ≡ some cache
    → Open cache.closed fs
unfolding new_response_cache
new_response_cache-Open budget fallback max_entry {cache} [] h = tt
new_response_cache-Open budget fallback max_entry {cache} (f ∷ fs) h =
    (ground (arith, h), new_response_cache-Open budget fallback max_entry fs h)

-- After any sequence of Get, Add, Acquire, release, Enable and DisableAndClear from a new cache, in which
-- no flight is released twice, no operation has panicked and the shards' used bytes are at most the
-- budget, or the fallback where the budget is zero.
pub perform_all-total_used :
    (budget fallback max_entry : ℕ) (os : List Operation) {cache : ResponseCache}
    → new_response_cache budget fallback max_entry ≡ some cache
    → Once (released os)
    → (cache' : ResponseCache) × (perform_all os cache ≡ some cache')
      × (total_used cache'.shards ≤ (if budget == 0 then fallback else budget))
perform_all-total_used budget fallback max_entry os {cache} h once =
    let b = if budget == 0 then fallback else budget in
    let (last, eq, i) = perform_all-Ready b os cache once (record {
      cache_ok = new_response_cache-IsCache budget fallback max_entry h;
      unclosed = new_response_cache-Open budget fallback max_entry (released os) h;
    }) in
    (last, eq, total_used-IsCache b last i)
