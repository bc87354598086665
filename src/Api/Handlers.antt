-- ===== src/Api/Handlers.antt =====
-- internal/api/api.go: the handlers, which answer from the cache or from the repository.
pub mod Through
pub mod Failures
use bgp_api.Base.{
  ℕ, Bytes, Bool, true, false, not, List, [], ◌∷◌, ◌++◌, length, ◌==◌, if◌then◌else◌, Option, none,
  some,
}
use bgp_api.Golang.Decimal.{decimal}
use bgp_api.Golang.Netip.{Texts}
use bgp_api.Golang.Text.{codes}
use bgp_api.Ipkey.{
  RuntimeIp, ParsedPrefix, ParsedRange, parse_runtime, parse_prefix, parse_range,
  summary_prefix_keys,
}
use bgp_api.Server.ResponseCache.{
  ResponseCache, Acquired, uncached, cached, producer, waits, acquire_round, release, add,
}
use bgp_api.Api.Reply.{
  Reply, ApiError, ok, err, panic, stuck, query_too_broad, invalid_range_cursor, ◌>>=◌,
}
use bgp_api.Api.Types.{
  DatasetMetadata, LookupResponse, PrefixResponse, RangeResponse, AsnResponse, Page, RangePage,
}
use bgp_api.Api.Range.Cursor.{RangeKind, range_allocations, range_routes, no_kind}
use bgp_api.Api.Requests.{
  Query, Response, failure, body, Checked, accepted, refused, request_page, request_range_page,
  request_asn_page, parse_asn, lookup_options, request_kind,
}

-- ResourceRepository, in one request's context.
pub record ResourceRepository : Type 0 where
  pub lookup_prefix : ParsedPrefix → Page → Reply (Option PrefixResponse)
  pub lookup_range : ParsedRange → RangeKind → RangePage → Reply RangeResponse
  pub lookup_range_summary : ParsedRange → RangeKind → Reply RangeResponse
  pub lookup_asn : ℕ → Page → Reply (Option AsnResponse)

-- Repository and MetadataRepository; `resources` is there where the repository is a ResourceRepository
-- too.
pub record Repository : Type 0 where
  pub lookup : RuntimeIp → Bool → Reply (Option LookupResponse)
  pub resources : Option ResourceRepository
  pub dataset_metadata : Reply (Option DatasetMetadata)

-- json.Marshal of each response.
pub record Marshal : Type 0 where
  pub of_lookup : LookupResponse → Option Bytes
  pub of_prefix : PrefixResponse → Option Bytes
  pub of_range : RangeResponse → Option Bytes
  pub of_asn : AsnResponse → Option Bytes

-- What a handler does with the cache: an answer, a wait for another request's answer, a panic, or fuel of
-- the model that ran out.
pub data Handled : Type 0 where
  answered : Response → ResponseCache → Handled
  waiting crashed unfinished : Handled

abbrev internal_error : Response
internal_error = failure 500 (codes "INTERNAL_ERROR")

unfoldable pub write_and_cache_json : ResponseCache → Bytes → Option Bytes → Handled
write_and_cache_json cache key none = answered internal_error cache
write_and_cache_json cache key (some text) = elim (add cache key (text ++ (0x0a ∷ []))) [
  | none ↦ crashed
  | some cache' ↦ answered (body 200 (text ++ (0x0a ∷ []))) cache'
]

-- writeJSON, which has written the status before the body fails to encode.
abbrev pub write_json : ResponseCache → Option Bytes → Handled
write_json cache none = answered (body 200 []) cache
write_json cache (some text) = answered (body 200 (text ++ (0x0a ∷ []))) cache

-- A lookup with details is not cached.
abbrev pub write_lookup : Bool → ResponseCache → Bytes → Option Bytes → Handled
write_lookup true cache key text = write_json cache text
write_lookup false cache key text = write_and_cache_json cache key text

-- attachMeta, and then what is done with the response.
abbrev pub with_meta :
    {A : Type 0}
    → (Option DatasetMetadata → A → A)
    → Reply (Option DatasetMetadata)
    → A
    → ResponseCache
    → (A → Handled)
    → Handled
with_meta attach (ok meta) a cache go_on = go_on (attach meta a)
with_meta attach (err e) a cache go_on = answered internal_error cache
with_meta attach panic a cache go_on = crashed
with_meta attach stuck a cache go_on = unfinished

-- A handler's branches on what the repository gives.
abbrev pub respond :
    {A : Type 0}
    → (ApiError → Response)
    → Response
    → Reply (Option A)
    → ResponseCache
    → (A → Handled)
    → Handled
respond on_error not_found (ok none) cache go_on = answered not_found cache
respond on_error not_found (ok (some a)) cache go_on = go_on a
respond on_error not_found (err e) cache go_on = answered (on_error e) cache
respond on_error not_found panic cache go_on = crashed
respond on_error not_found stuck cache go_on = unfinished

-- The same where the repository never gives nil.
abbrev pub respond_found :
    {A : Type 0} → (ApiError → Response) → Reply A → ResponseCache → (A → Handled) → Handled
respond_found on_error (ok a) cache go_on = go_on a
respond_found on_error (err e) cache go_on = answered (on_error e) cache
respond_found on_error panic cache go_on = crashed
respond_found on_error stuck cache go_on = unfinished

-- The deferred release.
abbrev pub released : Response → Option ResponseCache → Handled
released response none = crashed
released response (some cache) = answered response cache

abbrev pub and_release : Bytes → ℕ → Handled → Handled
and_release key flight (answered response cache) = released response (release cache key flight)
and_release key flight other = other

-- acquireCachedResponse, and the rest of the handler where no cached body is served.
unfoldable pub through_cache : ResponseCache → Bytes → (ResponseCache → Handled) → Handled
unfolding acquire_round release
through_cache cache key work =
    let round = acquire_round cache key in
    elim round.0 [
      | cached text ↦ answered (body 200 text) round.1
      | waits ↦ waiting
      | uncached ↦ work round.1
      | producer flight ↦ and_release key flight (work round.1)
    ]

abbrev pub plain_error : ApiError → Response
plain_error e = internal_error

abbrev pub prefix_error : ApiError → Response
prefix_error query_too_broad = failure 422 (codes "QUERY_TOO_BROAD")
prefix_error e = internal_error

abbrev pub range_error : ApiError → Response
range_error invalid_range_cursor = failure 400 (codes "INVALID_CURSOR")
range_error query_too_broad = failure 422 (codes "QUERY_TOO_BROAD")
range_error e = internal_error

abbrev or_else : Option DatasetMetadata → Option DatasetMetadata → Option DatasetMetadata
or_else none old = old
or_else (some m) old = some m

-- strings.Join with a zero byte.
unfoldable pub response_cache_key : List Bytes → Bytes
response_cache_key [] = []
response_cache_key (part ∷ []) = part
response_cache_key (part ∷ other ∷ parts) = part ++ (0 ∷ response_cache_key (other ∷ parts))

-- A request that is refused leaves the cache as it is.
abbrev pub checked : {A : Type 0} → ResponseCache → Checked A → (A → Handled) → Handled
checked cache (refused status code) go_on = answered (failure status code) cache
checked cache (accepted a) go_on = go_on a

-- A parameter that must parse.
abbrev pub given : {A : Type 0} → ResponseCache → Bytes → Option A → (A → Handled) → Handled
given cache code none go_on = answered (failure 400 code) cache
given cache code (some a) go_on = go_on a

-- The same for a parser that may panic.
abbrev pub given_or_panic :
    {A : Type 0} → ResponseCache → Bytes → Option (Option A) → (A → Handled) → Handled
given_or_panic cache code none go_on = crashed
given_or_panic cache code (some o) go_on = given cache code o go_on

-- resourceRepository, and the rest of the handler where it is there.
abbrev pub resource_repository :
    Repository → ResponseCache → (ResourceRepository → Handled) → Handled
resource_repository repository cache go_on = elim repository.resources [
  | none ↦ answered (failure 503 (codes "DATASET_FEATURE_UNAVAILABLE")) cache
  | some resources ↦ go_on resources
]

module _ (texts : Texts) (marshal : Marshal) (repository : Repository) where
  unfoldable pub answer_ip : RuntimeIp → Bool → ResponseCache → Handled
  unfolding write_and_cache_json
  answer_ip ip full cache =
      respond plain_error (failure 404 (codes "IP_NOT_FOUND")) (repository.lookup ip full) cache
        (λ r.
          with_meta (λ m (r' : LookupResponse). record r' { meta = or_else m r'.meta })
            repository.dataset_metadata r cache
            (λ r'. write_lookup full cache ip.canonical (marshal.of_lookup r')))

  -- With the details, which are not cached, or through the cache.
  abbrev pub lookup_ip_with : RuntimeIp → ResponseCache → Bool → Handled
  lookup_ip_with ip cache true = answer_ip ip true cache
  lookup_ip_with ip cache false = through_cache cache ip.canonical (answer_ip ip false)

  unfoldable pub lookup_ip : Query → ResponseCache → Handled
  lookup_ip query cache =
      given cache (codes "INVALID_IP") (parse_runtime texts (query (codes "query")))
        (λ ip. checked cache (lookup_options query) (lookup_ip_with ip cache))

  abbrev pub prefix_cache_key : ParsedPrefix → Page → Bytes
  prefix_cache_key prefix page =
      response_cache_key
        (codes "prefix" ∷ prefix.canonical ∷ decimal page.limit ∷ decimal page.cursor ∷ [])

  unfoldable pub answer_prefix :
      ResourceRepository → ParsedPrefix → Page → Bytes → ResponseCache → Handled
  unfolding write_and_cache_json
  answer_prefix resources prefix page key cache =
      respond prefix_error (failure 404 (codes "PREFIX_NOT_FOUND"))
        (resources.lookup_prefix prefix page) cache
        (λ r.
          with_meta (λ m (r' : PrefixResponse). record r' { meta = or_else m r'.meta })
            repository.dataset_metadata r cache
            (λ r'. write_and_cache_json cache key (marshal.of_prefix r')))

  unfoldable pub lookup_prefix : Query → ResponseCache → Handled
  lookup_prefix query cache = resource_repository repository cache (λ resources.
      given_or_panic cache (codes "INVALID_PREFIX") (parse_prefix texts (query (codes "prefix")))
        (λ prefix. checked cache (request_page query) (λ page.
          through_cache cache (prefix_cache_key prefix page)
            (answer_prefix resources prefix page (prefix_cache_key prefix page)))))

  abbrev pub asn_cache_key : ℕ → Page → Bytes
  asn_cache_key asn page = response_cache_key (
      codes "asn"
      ∷ decimal asn
      ∷ decimal page.limit
      ∷ (if page.numbered then codes "page=" ++ decimal page.number else decimal page.cursor)
      ∷ [])

  unfoldable pub answer_asn : ResourceRepository → ℕ → Page → Bytes → ResponseCache → Handled
  unfolding write_and_cache_json
  answer_asn resources asn page key cache =
      respond plain_error (failure 404 (codes "ASN_NOT_FOUND")) (resources.lookup_asn asn page)
        cache
        (λ r.
          with_meta (λ m (r' : AsnResponse). record r' { meta = or_else m r'.meta })
            repository.dataset_metadata r cache
            (λ r'. write_and_cache_json cache key (marshal.of_asn r')))

  unfoldable pub lookup_asn : Query → ResponseCache → Handled
  lookup_asn query cache = resource_repository repository cache (λ resources.
      given cache (codes "INVALID_ASN") (parse_asn (query (codes "query"))) (λ asn.
        checked cache (request_asn_page query) (λ page.
          through_cache cache (asn_cache_key asn page)
            (answer_asn resources asn page (asn_cache_key asn page)))))

  abbrev kind_text : RangeKind → Bytes
  kind_text range_allocations = codes "allocations"
  kind_text range_routes = codes "routes"
  kind_text no_kind = []

  abbrev pub is_broad : Option (List Bytes) → Bool
  is_broad none = false
  is_broad (some keys) = true

  abbrev pub range_cache_key : ParsedRange → RangeKind → RangePage → Bool → Bytes
  range_cache_key value kind page broad =
      let key =
        response_cache_key
          (codes "range" ∷ value.start.canonical ∷ value.end.canonical ∷ kind_text kind ∷ []) in
      if broad then key else response_cache_key (key ∷ decimal page.limit ∷ page.cursor ∷ [])

  unfoldable pub answer_range :
      ResourceRepository
      → ParsedRange
      → RangeKind
      → RangePage
      → Bool
      → Bytes
      → ResponseCache
      → Handled
  unfolding write_and_cache_json
  answer_range resources value kind page broad key cache =
      respond_found range_error
        (if broad
          then resources.lookup_range_summary value kind
          else resources.lookup_range value kind page)
        cache
        (λ r.
          with_meta (λ m (r' : RangeResponse). record r' { meta = or_else m r'.meta })
            repository.dataset_metadata r cache
            (λ r'. write_and_cache_json cache key (marshal.of_range r')))

  -- The range's summary if it has one, or a page of its records.
  abbrev pub lookup_range_with :
      ResourceRepository
      → ParsedRange
      → RangeKind
      → RangePage
      → ResponseCache
      → Option (Option (List Bytes))
      → Handled
  lookup_range_with resources value kind page cache none = crashed
  lookup_range_with resources value kind page cache (some keys) =
      through_cache cache (range_cache_key value kind page (is_broad keys)) (
        answer_range resources value kind page (is_broad keys)
          (range_cache_key value kind page (is_broad keys)))

  unfoldable pub lookup_range : Query → ResponseCache → Handled
  lookup_range query cache = resource_repository repository cache (λ resources.
      given cache (codes "INVALID_RANGE")
        (parse_range texts (query (codes "start")) (query (codes "end")))
        (λ value. checked cache (request_kind query) (λ kind.
          checked cache (request_range_page query) (λ page.
            lookup_range_with resources value kind page cache (summary_prefix_keys texts value)))))
