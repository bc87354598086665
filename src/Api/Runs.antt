-- ===== src/Api/Runs.antt =====
-- internal/api: tests and instances of the theorems on lookups, requests and warm-ups.
use bgp_api.Base.{
  ℕ, ◌-◌, ◌*◌, ◌^◌, ◌<◌, ◌≤◌, ◌≡◌, inl, refl, ap, arith, true, false, All, [], ◌∷◌, ◌++◌, length,
  map, take, drop, replicate, none, some, if◌then◌else◌,
}
use mathlib.Core.List.{Memᴰ}
use bgp_api.Golang.Binary.{put_uint32, uvarint_bytes, append_uvarint_loop}
use bgp_api.Golang.ByteSlice.{compare_bytes, bytes_equal, number}
use bgp_api.Golang.Netip.{v4, Texts}
use bgp_api.Golang.Text.{codes, digits, digits_loop, natural}
use bgp_api.Ipkey.{RuntimeIp}
use bgp_api.Boltstore.Keys.{encode_ids}
use bgp_api.Boltstore.Keys.Order.{ipv4-IsAddress}
use bgp_api.Boltstore.Record.{Allocation, Route, encode_route, put_strings}
use bgp_api.Boltstore.Encoder
use bgp_api.Boltstore.Record.RoundTrip.{decode_route-encode_route}
use bgp_api.Server.ResponseCache.{ResponseCache, make_shards}
use bgp_api.Api.Reply.{BucketName, allocation_lpm, ok, err, cancelled, ◌>>=◌, of_result}
use bgp_api.Api.Bucket.{Tx, bucket}
use bgp_api.Api.Selectors.{CompactSelectors, preload_compact_selectors, read_selectors, selector}
use bgp_api.Api.Selectors.Preload.{lookup_compact-preload_compact_selectors}
use bgp_api.Api.Lookup.{lookup_compact}
use bgp_api.Api.Narrowest.{narrowest_allocation}
use bgp_api.Api.Narrowest.Least.{IsBounds, width, narrowest_allocation-Narrowest}
use bgp_api.Api.Requests.{Query, accepted, request_asn_page, request_page, number_within}
use bgp_api.Api.Requests.Bounds.{IsPage, request_asn_page-IsPage}
use bgp_api.Api.Types.{Page}
use bgp_api.Api.Handlers.{
  Repository, ResourceRepository, Marshal, lookup_ip, lookup_prefix, lookup_asn, lookup_range,
}
use bgp_api.Api.Handlers.Through.{Keeps}
use bgp_api.Api.Handlers.Failures.{lookup-Keeps}
use bgp_api.Api.Records.{record_by_id, route_by_id}
use bgp_api.Api.Objects.{route_object}
use bgp_api.Api.Asn.{asn_routes_page}
use bgp_api.Api.Asn.Pages.{asn_routes_page_lem}
use bgp_api.Api.Warmup.{
  idle, in_progress, Warming, starts, goes_on, swaps, opens, WarmStep, WarmSteps, done, then_step,
  no_calls, loaded, opening, reading, ended, busy, warm_start, warm_swap, warm_open,
}
use bgp_api.Api.Warmup.OneReader.{readers, readers_in, WarmSteps-readers}

-- Texts of no address.
abbrev texts : Texts
texts = record {
  addr_text = λ a. [];
  parse_addr = λ t. none;
  prefix_text = λ p. [];
  parse_prefix = λ t. none;
}

-- A file whose six selectors are of one byte.
abbrev one_byte : Tx
one_byte name =
    some
      (record { get = λ key. some (name_byte name ∷ []); seek = λ key. none; next = λ key. none })
  where
    name_byte : BucketName → ℕ
    name_byte allocation_lpm = 1
    name_byte name = 2

abbrev google : RuntimeIp
google = record { address = v4 (8 ∷ 8 ∷ 8 ∷ 8 ∷ []); canonical = codes "8.8.8.8"; version = 4 }

abbrev copied : CompactSelectors
copied = record {
  allocations = record { ipv4 = 1 ∷ []; ipv6 = 1 ∷ [] };
  routes = record { ipv4 = 2 ∷ []; ipv6 = 2 ∷ [] };
  geofeeds = record { ipv4 = 2 ∷ []; ipv6 = 2 ∷ [] };
  bytes = 6;
}

preloads :
    preload_compact_selectors (record { db = one_byte; selector_preload = none })
    ≡ ok (6, record { db = one_byte; selector_preload = some copied })
unfolding preload_compact_selectors read_selectors selector ◌>>=◌
preloads = refl

lookup_compact-preload_compact_selectors_example :
    lookup_compact texts 9 (record { db = one_byte; selector_preload = some copied }) google
    ≡ lookup_compact texts 9 (record { db = one_byte; selector_preload = none }) google
lookup_compact-preload_compact_selectors_example =
    lookup_compact-preload_compact_selectors texts 9 one_byte google 6
      (record { db = one_byte; selector_preload = some copied }) (inl refl) preloads

-- An allocation from 10.0.n.0 to 10.0.m.0.
abbrev allocation : ℕ → ℕ → Allocation
allocation n m = record {
  version = 4;
  start = replicate 12 0 ++ (10 ∷ 0 ∷ n ∷ 0 ∷ []);
  end = replicate 12 0 ++ (10 ∷ 0 ∷ m ∷ 0 ∷ []);
  registry = [];
  country = [];
  name = [];
  status = [];
  allocation_date = [];
  created = [];
  last_modified = [];
  source = [];
  maintainers = [];
  organization = [];
  abuse_contact = [];
  description = [];
}

allocation-IsBounds :
    (n m : ℕ) → n < 256 → m < 256 → n ≤ m → IsBounds (allocation n m).start (allocation n m).end
unfolding number
allocation-IsBounds n m hn hm le = record {
  first = ipv4-IsAddress 10 0 n 0 (omega arith) (omega arith) hn (omega arith);
  last = ipv4-IsAddress 10 0 m 0 (omega arith) (omega arith) hm (omega arith);
  order = omega arith;
}

narrowest_allocation-Narrowest_example :
    (best : Allocation) × (narrowest_allocation
        (allocation 0 9 ∷ allocation 3 5 ∷ allocation 2 7 ∷ [])
      ≡ some best)
    × Memᴰ best (allocation 0 9 ∷ allocation 3 5 ∷ allocation 2 7 ∷ [])
    × All
        (λ (v : Allocation). width best.start best.end ≤ width v.start v.end)
        (allocation 0 9 ∷ allocation 3 5 ∷ allocation 2 7 ∷ [])
narrowest_allocation-Narrowest_example =
    narrowest_allocation-Narrowest (allocation 0 9) (allocation 3 5 ∷ allocation 2 7 ∷ []) (
      allocation-IsBounds 0 9 (omega arith) (omega arith) (omega arith),
      (
        allocation-IsBounds 3 5 (omega arith) (omega arith) (omega arith),
        (allocation-IsBounds 2 7 (omega arith) (omega arith) (omega arith), tt),
      ),
    )

-- `?page=3&limit=20`
abbrev page_three : Query
page_three name =
    if bytes_equal name (codes "page")
    then codes "3"
    else if bytes_equal name (codes "limit")
    then codes "20"
    else []

abbrev third : Page
third = record { cursor = 0; limit = 20; number = 3; numbered = true }

page_three_accepted : request_asn_page page_three ≡ accepted third
unfolding request_asn_page request_page number_within natural digits digits_loop compare_bytes
page_three_accepted = refl

request_asn_page-IsPage_example : IsPage third
request_asn_page-IsPage_example = request_asn_page-IsPage page_three third page_three_accepted

abbrev no_resources : ResourceRepository
no_resources = record {
  lookup_prefix = λ prefix page. ok none;
  lookup_range = λ value kind page. err cancelled;
  lookup_range_summary = λ value kind. err cancelled;
  lookup_asn = λ asn page. ok none;
}

-- A repository that finds nothing, and encoders that encode nothing.
abbrev nothing : Repository
nothing = record {
  lookup = λ ip full. ok none;
  resources = some no_resources;
  dataset_metadata = ok none;
}

abbrev no_marshal : Marshal
no_marshal = record {
  of_lookup = λ r. none;
  of_prefix = λ r. none;
  of_range = λ r. none;
  of_asn = λ r. none;
}

-- `?query=AS64500`
abbrev asn_query : Query
asn_query name = if bytes_equal name (codes "query") then codes "AS64500" else []

abbrev empty_cache : ResponseCache
empty_cache = record {
  shards = make_shards 32 0 6400 100;
  flights = λ key. none;
  closed = λ f. false;
  next_flight = 0;
  enabled = true;
}

lookup-Keeps_example :
    Keeps empty_cache (lookup_ip texts no_marshal nothing asn_query empty_cache)
    × Keeps empty_cache (lookup_prefix texts no_marshal nothing asn_query empty_cache)
    × Keeps empty_cache (lookup_asn texts no_marshal nothing asn_query empty_cache)
    × Keeps empty_cache (lookup_range texts no_marshal nothing asn_query empty_cache)
lookup-Keeps_example = lookup-Keeps texts no_marshal nothing asn_query empty_cache

-- A call takes the state and opens the file; another one starts then and finds it busy.
abbrev one_loaded : Warming
one_loaded = record { state = idle; calls = loaded ∷ [] }

abbrev one_opening : Warming
one_opening = record { state = in_progress; calls = opening ∷ [] }

abbrev two_calls : Warming
two_calls = record { state = in_progress; calls = loaded ∷ opening ∷ [] }

abbrev one_busy : Warming
one_busy = record { state = in_progress; calls = ended busy ∷ opening ∷ [] }

abbrev one_reading : Warming
one_reading = record { state = in_progress; calls = ended busy ∷ reading 0 ∷ [] }

one_loads : WarmStep no_calls one_loaded
unfolding warm_start
one_loads = starts no_calls (some 100)

one_swaps : WarmStep one_loaded one_opening
unfolding warm_swap
one_swaps = goes_on idle [] [] loaded (opening, in_progress) (swaps idle)

other_loads : WarmStep one_opening two_calls
unfolding warm_start
other_loads = starts one_opening (some 100)

other_swaps : WarmStep two_calls one_busy
unfolding warm_swap
other_swaps =
    goes_on in_progress [] (opening ∷ []) loaded (ended busy, in_progress) (swaps in_progress)

one_opens : WarmStep one_busy one_reading
unfolding warm_open
one_opens =
    goes_on in_progress (ended busy ∷ []) [] opening (reading 0, in_progress)
      (opens true in_progress)

two_starts : WarmSteps no_calls one_reading
two_starts =
    then_step
      (then_step (then_step (then_step (then_step (done no_calls) one_loads) one_swaps) other_loads)
        other_swaps)
      one_opens

WarmSteps-readers_example : readers one_reading.calls ≡ readers_in one_reading.state
WarmSteps-readers_example = WarmSteps-readers two_starts

abbrev one_route : Route
one_route = record {
  version = 4;
  prefix_length = 8;
  network = replicate 12 0 ++ (10 ∷ 0 ∷ 0 ∷ 0 ∷ []);
  as_number = 64500;
  origin_asn = codes "AS64500";
  registry = [];
  source = [];
  maintainers = [];
  organization = [];
  abuse_contact = [];
  description = [];
}

-- A file that has this route under every ID.
abbrev route_file : Tx
route_file name =
    some (record {
      get = λ key. some (encode_route one_route);
      seek = λ key. none;
      next = λ key. none;
    })

one_route_fits : length (encode_route one_route) < 2 ^ 63
unfolding encode_route put_strings Encoder.string Encoder.uint32 Encoder.address Encoder.byte
    put_uint32 uvarint_bytes append_uvarint_loop
one_route_fits = omega arith

route_file-route : (id : ℕ) → route_by_id route_file id ≡ ok one_route
unfolding route_by_id record_by_id bucket of_result ◌>>=◌
route_file-route id = ap of_result (
    decode_route-encode_route one_route (record { network = refl; as_number = omega arith })
      one_route_fits)

abbrev page_two : Page
page_two = record { cursor = 0; limit = 2; number = 2; numbered = true }

page_two-IsPage : IsPage page_two
page_two-IsPage = record {
  limit_low = omega arith;
  limit_high = omega arith;
  cursor_high = omega arith;
  plain = λ e. absurd (cc);
  number_low = λ e. omega arith;
  number_high = λ e. omega arith;
}

asn_routes_page_lem_example :
    asn_routes_page texts (λ i. false) route_file (encode_ids (3 ∷ 5 ∷ 8 ∷ [])) page_two
    ≡ ok (
      map (λ id. route_object texts id one_route) (take 2 (drop ((2 - 1) * 2) (3 ∷ 5 ∷ 8 ∷ []))),
      3,
    )
asn_routes_page_lem_example =
    asn_routes_page_lem texts (λ i. false) route_file (λ id. one_route) (λ i. refl) (3 ∷ 5 ∷ 8 ∷ [])
      page_two page_two-IsPage refl (omega arith)
      (
        (omega arith, route_file-route 3),
        ((omega arith, route_file-route 5), ((omega arith, route_file-route 8), tt)),
      )
