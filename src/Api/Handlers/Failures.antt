-- ===== src/Api/Handlers/Failures.antt =====
-- internal/api/api.go: a request that fails leaves the cached responses as they are.
use bgp_api.Base.{ℕ, refl, Bytes, Bool, true, false, List, Option, none, some}
use bgp_api.Golang.Netip.{Texts}
use bgp_api.Golang.Text.{codes}
use bgp_api.Ipkey.{
  RuntimeIp, ParsedPrefix, ParsedRange, parse_runtime, parse_prefix, parse_range,
  summary_prefix_keys,
}
use bgp_api.Server.ResponseCache.{ResponseCache}
use bgp_api.Api.Reply.{ApiError, query_too_broad, invalid_range_cursor}
use bgp_api.Api.Types.{Page, RangePage}
use bgp_api.Api.Range.Cursor.{RangeKind}
use bgp_api.Api.Requests.{
  Query, failure, Checked, accepted, refused, request_page, request_range_page, request_asn_page,
  parse_asn, lookup_options, request_kind,
}
use bgp_api.Api.Handlers.{
  Repository, ResourceRepository, resource_repository, Marshal, Handled, answered, write_lookup,
  checked, given, given_or_panic, lookup_ip_with, lookup_range_with, answer_ip, lookup_ip,
  answer_prefix, lookup_prefix, answer_asn, lookup_asn, answer_range, lookup_range, plain_error,
  prefix_error, range_error,
}
use bgp_api.Api.Handlers.Through.{
  Keeps, write_and_cache_json-Keeps, with_meta-Keeps, respond-Keeps, respond_found-Keeps,
  through_cache-Keeps,
}

write_lookup-Keeps :
    (full : Bool) (cache : ResponseCache) (key : Bytes) (text : Option Bytes)
    → Keeps cache (write_lookup full cache key text)
write_lookup-Keeps true cache key none = tt
write_lookup-Keeps true cache key (some text) = tt
write_lookup-Keeps false cache key text = write_and_cache_json-Keeps cache key text

prefix_error-Keeps :
    (cache : ResponseCache) (e : ApiError) → Keeps cache (answered (prefix_error e) cache)
prefix_error-Keeps cache query_too_broad = (refl, refl)
prefix_error-Keeps cache e = (refl, refl)

range_error-Keeps :
    (cache : ResponseCache) (e : ApiError) → Keeps cache (answered (range_error e) cache)
range_error-Keeps cache query_too_broad = (refl, refl)
range_error-Keeps cache invalid_range_cursor = (refl, refl)
range_error-Keeps cache e = (refl, refl)

module _ {A : Type 0} (cache : ResponseCache) where
  checked-Keeps :
      (c : Checked A) (go_on : A → Handled)
      → ((a : A) → Keeps cache (go_on a))
      → Keeps cache (checked cache c go_on)
  checked-Keeps (accepted a) go_on h = h a
  checked-Keeps (refused status code) go_on h = (refl, refl)

  given-Keeps :
      (code : Bytes) (o : Option A) (go_on : A → Handled)
      → ((a : A) → Keeps cache (go_on a))
      → Keeps cache (given cache code o go_on)
  given-Keeps code none go_on h = (refl, refl)
  given-Keeps code (some a) go_on h = h a

  given_or_panic-Keeps :
      (code : Bytes) (o : Option (Option A)) (go_on : A → Handled)
      → ((a : A) → Keeps cache (go_on a))
      → Keeps cache (given_or_panic cache code o go_on)
  given_or_panic-Keeps code none go_on h = tt
  given_or_panic-Keeps code (some o) go_on h = given-Keeps code o go_on h

module _ (texts : Texts) (marshal : Marshal) (repository : Repository) where
  answer_ip-Keeps :
      (ip : RuntimeIp) (full : Bool) (cache : ResponseCache)
      → Keeps cache (answer_ip texts marshal repository ip full cache)
  unfolding answer_ip
  answer_ip-Keeps ip full cache =
      respond-Keeps cache plain_error _ (repository.lookup ip full) _ (λ e. (refl, refl))
        (refl, refl)
        (λ r.
          with_meta-Keeps cache _ repository.dataset_metadata r _
            (λ r'. write_lookup-Keeps full cache ip.canonical (marshal.of_lookup r')))

  answer_prefix-Keeps :
      (resources : ResourceRepository) (prefix : ParsedPrefix) (page : Page) (key : Bytes)
      (cache : ResponseCache)
      → Keeps cache (answer_prefix texts marshal repository resources prefix page key cache)
  unfolding answer_prefix
  answer_prefix-Keeps resources prefix page key cache =
      respond-Keeps cache prefix_error _ (resources.lookup_prefix prefix page) _
        (prefix_error-Keeps cache) (refl, refl)
        (λ r.
          with_meta-Keeps cache _ repository.dataset_metadata r _
            (λ r'. write_and_cache_json-Keeps cache key (marshal.of_prefix r')))

  answer_asn-Keeps :
      (resources : ResourceRepository) (asn : ℕ) (page : Page) (key : Bytes) (cache : ResponseCache)
      → Keeps cache (answer_asn texts marshal repository resources asn page key cache)
  unfolding answer_asn
  answer_asn-Keeps resources asn page key cache =
      respond-Keeps cache plain_error _ (resources.lookup_asn asn page) _ (λ e. (refl, refl))
        (refl, refl)
        (λ r.
          with_meta-Keeps cache _ repository.dataset_metadata r _
            (λ r'. write_and_cache_json-Keeps cache key (marshal.of_asn r')))

  answer_range-Keeps :
      (resources : ResourceRepository) (value : ParsedRange) (kind : RangeKind) (page : RangePage)
      (broad : Bool) (key : Bytes) (cache : ResponseCache)
      → Keeps cache
          (answer_range texts marshal repository resources value kind page broad key cache)
  unfolding answer_range
  answer_range-Keeps resources value kind page broad key cache =
      respond_found-Keeps cache range_error _ _ (range_error-Keeps cache) (λ r.
        with_meta-Keeps cache _ repository.dataset_metadata r _
          (λ r'. write_and_cache_json-Keeps cache key (marshal.of_range r')))

  lookup_ip_with-Keeps :
      (ip : RuntimeIp) (cache : ResponseCache) (full : Bool)
      → Keeps cache (lookup_ip_with texts marshal repository ip cache full)
  lookup_ip_with-Keeps ip cache true = answer_ip-Keeps ip true cache
  lookup_ip_with-Keeps ip cache false =
      through_cache-Keeps cache ip.canonical (answer_ip texts marshal repository ip false)
        (answer_ip-Keeps ip false)

  lookup_range_with-Keeps :
      (resources : ResourceRepository) (value : ParsedRange) (kind : RangeKind) (page : RangePage)
      (cache : ResponseCache) (keys : Option (Option (List Bytes)))
      → Keeps cache
          (lookup_range_with texts marshal repository resources value kind page cache keys)
  lookup_range_with-Keeps resources value kind page cache none = tt
  lookup_range_with-Keeps resources value kind page cache (some keys) =
      through_cache-Keeps cache _ _ (answer_range-Keeps resources value kind page _ _)

  resource_repository-Keeps :
      (cache : ResponseCache) (go_on : ResourceRepository → Handled)
      → ((resources : ResourceRepository) → Keeps cache (go_on resources))
      → Keeps cache (resource_repository repository cache go_on)
  resource_repository-Keeps cache go_on h =
      elim repository.resources
        as (λ o. Keeps cache (elim o [
          | none ↦ answered (failure 503 (codes "DATASET_FEATURE_UNAVAILABLE")) cache
          | some resources ↦ go_on resources
        ])) [ none ↦ (refl, refl) | some resources ↦ h resources ]

  -- A request for an address, a prefix, an AS number or a range that is answered with an error leaves the
  -- cache's entries, their order and whether it is enabled as they were, whatever the repository and the
  -- encoder of responses do.
  pub lookup-Keeps :
      (query : Query) (cache : ResponseCache)
      → Keeps cache (lookup_ip texts marshal repository query cache)
        × Keeps cache (lookup_prefix texts marshal repository query cache)
        × Keeps cache (lookup_asn texts marshal repository query cache)
        × Keeps cache (lookup_range texts marshal repository query cache)
  unfolding lookup_ip lookup_prefix lookup_asn lookup_range
  lookup-Keeps query cache = (
    given-Keeps cache _ (parse_runtime texts _) _
        (λ ip. checked-Keeps cache (lookup_options query) _ (lookup_ip_with-Keeps ip cache)),
    resource_repository-Keeps cache _ (λ resources.
        given_or_panic-Keeps cache _ (parse_prefix texts _) _ (λ prefix.
          checked-Keeps cache (request_page query) _
            (λ page. through_cache-Keeps cache _ _ (answer_prefix-Keeps resources prefix page _)))),
    resource_repository-Keeps cache _ (λ resources. given-Keeps cache _ (parse_asn _) _ (λ asn.
        checked-Keeps cache (request_asn_page query) _
          (λ page. through_cache-Keeps cache _ _ (answer_asn-Keeps resources asn page _)))),
    resource_repository-Keeps cache _ (λ resources.
        given-Keeps cache _ (parse_range texts _ _) _ (λ value.
          checked-Keeps cache (request_kind query) _ (λ kind.
            checked-Keeps cache (request_range_page query) _ (λ page.
              lookup_range_with-Keeps resources value kind page cache
                (summary_prefix_keys texts value))))),
  )
