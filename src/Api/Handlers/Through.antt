-- ===== src/Api/Handlers/Through.antt =====
-- internal/api/api.go: what an answer that goes through the cache does to the cached responses.
use bgp_api.Base.{
  ℕ, ◌+◌, ◌≡◌, inl, inr, refl, Bytes, true, false, ◌∷◌, ◌++◌, Option, none, some, Option-cases,
  Bool-cases, if◌then◌else◌, [],
}
use bgp_api.Golang.ByteSlice.{bytes_equal}
use bgp_api.Server.ResponseCache.{ResponseCache, acquire_round, release, add, get}
use bgp_api.Api.Reply.{Reply, ApiError, ok, err, panic, stuck}
use bgp_api.Api.Types.{DatasetMetadata}
use bgp_api.Api.Requests.{Response, failure, body}
use bgp_api.Api.Handlers.{
  Handled, answered, waiting, crashed, unfinished, write_and_cache_json, with_meta, respond,
  respond_found, and_release, through_cache,
}

-- After a failure the cache holds the same entries in the same order, and is enabled as before.
abbrev pub Keeps : ResponseCache → Handled → Type 0
Keeps cache (answered (failure status code) cache') =
    (cache'.shards ≡ cache.shards) × (cache'.enabled ≡ cache.enabled)
Keeps cache (answered (body status text) cache') = Unit
Keeps cache waiting = Unit
Keeps cache crashed = Unit
Keeps cache unfinished = Unit

pub write_and_cache_json-Keeps :
    (cache : ResponseCache) (key : Bytes) (text : Option Bytes)
    → Keeps cache (write_and_cache_json cache key text)
unfolding write_and_cache_json
write_and_cache_json-Keeps cache key none = (refl, refl)
write_and_cache_json-Keeps cache key (some text) =
    elim (add cache key (text ++ (0x0a ∷ [])))
      as (λ o. Keeps cache (elim o [
        | none ↦ crashed
        | some cache' ↦ answered (body 200 (text ++ (0x0a ∷ []))) cache'
      ])) [ none ↦ tt | some cache' ↦ tt ]

module _ {A : Type 0} (cache : ResponseCache) where
  pub with_meta-Keeps :
      (attach : Option DatasetMetadata → A → A) (meta : Reply (Option DatasetMetadata)) (a : A)
      (go_on : A → Handled)
      → ((b : A) → Keeps cache (go_on b))
      → Keeps cache (with_meta attach meta a cache go_on)
  with_meta-Keeps attach (ok m) a go_on h = h (attach m a)
  with_meta-Keeps attach (err e) a go_on h = (refl, refl)
  with_meta-Keeps attach panic a go_on h = tt
  with_meta-Keeps attach stuck a go_on h = tt

  pub respond-Keeps :
      (on_error : ApiError → Response) (not_found : Response) (r : Reply (Option A))
      (go_on : A → Handled)
      → ((e : ApiError) → Keeps cache (answered (on_error e) cache))
      → Keeps cache (answered not_found cache)
      → ((a : A) → Keeps cache (go_on a))
      → Keeps cache (respond on_error not_found r cache go_on)
  respond-Keeps on_error not_found (ok none) go_on he hn h = hn
  respond-Keeps on_error not_found (ok (some a)) go_on he hn h = h a
  respond-Keeps on_error not_found (err e) go_on he hn h = he e
  respond-Keeps on_error not_found panic go_on he hn h = tt
  respond-Keeps on_error not_found stuck go_on he hn h = tt

  pub respond_found-Keeps :
      (on_error : ApiError → Response) (r : Reply A) (go_on : A → Handled)
      → ((e : ApiError) → Keeps cache (answered (on_error e) cache))
      → ((a : A) → Keeps cache (go_on a))
      → Keeps cache (respond_found on_error r cache go_on)
  respond_found-Keeps on_error (ok a) go_on he h = h a
  respond_found-Keeps on_error (err e) go_on he h = he e
  respond_found-Keeps on_error panic go_on he h = tt
  respond_found-Keeps on_error stuck go_on he h = tt

release-Keeps :
    (cache : ResponseCache) (key : Bytes) (flight : ℕ) (h : Handled)
    → Keeps cache h
    → Keeps cache (and_release key flight h)
unfolding release
release-Keeps cache key flight (answered (failure status code) cache') h =
    elim (Bool-cases (cache'.closed flight)) [
      | inl twice ↦ rw (release, twice) tt
      | inr once ↦ rw (release, once) h
    ]
release-Keeps cache key flight (answered (body status text) cache') h =
    elim (Bool-cases (cache'.closed flight)) [
      | inl twice ↦ rw (release, twice) tt
      | inr once ↦ rw (release, once) tt
    ]
release-Keeps cache key flight waiting h = tt
release-Keeps cache key flight crashed h = tt
release-Keeps cache key flight unfinished h = tt

abbrev with_flight : ResponseCache → Bytes → ResponseCache
with_flight cache key = record cache {
  flights = λ k. if bytes_equal k key then some cache.next_flight else cache.flights k;
  next_flight = cache.next_flight + 1;
}

Keeps-with_flight :
    (cache : ResponseCache) (key : Bytes) (h : Handled)
    → Keeps (with_flight cache key) h
    → Keeps cache h
Keeps-with_flight cache key (answered (failure status code) cache') h = h
Keeps-with_flight cache key (answered (body status text) cache') h = tt
Keeps-with_flight cache key waiting h = tt
Keeps-with_flight cache key crashed h = tt
Keeps-with_flight cache key unfinished h = tt

-- What the handler does in each round of the cache.
module _ (cache : ResponseCache) (key : Bytes) (work : ResponseCache → Handled) where
  through-off : cache.enabled ≡ false → through_cache cache key work ≡ work cache
  unfolding through_cache acquire_round
  through-off e = simp (through_cache, acquire_round, e) refl

  through-hit :
      (text : Bytes)
      → cache.enabled ≡ true
      → (get cache key).0 ≡ some text
      → through_cache cache key work ≡ answered (body 200 text) (get cache key).1
  unfolding through_cache acquire_round
  through-hit text e f = simp (through_cache, acquire_round, e, f) refl

  through-wait :
      cache.enabled ≡ true
      → (get cache key).0 ≡ none
      → (flight : ℕ) → cache.flights key ≡ some flight
      → through_cache cache key work ≡ waiting
  unfolding through_cache acquire_round
  through-wait e f flight g = simp (through_cache, acquire_round, e, f, g) refl

  through-produce :
      cache.enabled ≡ true
      → (get cache key).0 ≡ none
      → cache.flights key ≡ none
      → through_cache cache key work
        ≡ and_release key cache.next_flight (work (with_flight cache key))
  unfolding through_cache acquire_round
  through-produce e f g = simp (through_cache, acquire_round, e, f, g) refl

pub through_cache-Keeps :
    (cache : ResponseCache) (key : Bytes) (work : ResponseCache → Handled)
    → ((c : ResponseCache) → Keeps c (work c))
    → Keeps cache (through_cache cache key work)
through_cache-Keeps cache key work h = elim (Bool-cases cache.enabled) [
  | inr e ↦ rw (through-off cache key work e) (h cache)
  | inl e ↦ elim (Option-cases (get cache key).0) [
    | inr (v, f) ↦ rw (through-hit cache key work v e f) tt
    | inl f ↦ elim (Option-cases (cache.flights key)) [
      | inr (flight, g) ↦ rw (through-wait cache key work e f flight g) tt
      | inl g ↦ rw (through-produce cache key work e f g) (
          release-Keeps cache key cache.next_flight (work (with_flight cache key)) (
            Keeps-with_flight cache key (work (with_flight cache key)) (h (with_flight cache key))))
    ]
  ]
]
