-- ===== src/Api/Lookup.antt =====
-- internal/api/bbolt.go: the lookup of an address.
use bgp_api.Base.{
  ℕ, Bytes, Bool, true, false, not, ◌&&◌, List, [], ◌∷◌, length, take, ltb, ◌==◌, if◌then◌else◌,
  Option, none, some,
}
use bgp_api.Golang.Netip.{Texts, Addr}
use bgp_api.Boltstore.Record.{Allocation, Route, Geofeed}
use bgp_api.Boltstore.Selection.{lookup_selection_lpm}
use bgp_api.Boltstore.RouteLpm.{lookup_route_lpm}
use bgp_api.Ipkey.{RuntimeIp}
use bgp_api.Api.Reply.{
  BucketName, allocation_lpm, route_lpm, geofeed_lpm, allocation_index, route_index, geofeed_index,
  Reply, ok, ◌>>=◌, of_outcome, for_each,
}
use bgp_api.Api.Bucket.{Tx, bucket}
use bgp_api.Api.Text.{Nullable, optional, lower, upper, country_code, as_number}
use bgp_api.Api.Records.{
  allocation_by_id, allocation_lookup_by_id, route_by_id, route_lookup_by_id, geofeed_by_id,
}
use bgp_api.Api.Matching.{matching_ip_ids, max_candidates}
use bgp_api.Api.Range.Page.{prefix_range_for_record}
use bgp_api.Api.Types.{AsnIdentity, LookupResponse, Network, AllocationPart, Location}
use bgp_api.Api.Objects.{address_text, record_prefix, bbolt_details}
use bgp_api.Api.Origins.{bbolt_asns, bbolt_origin_identities}
use bgp_api.Api.Narrowest.{narrowest_allocation, narrowest_geofeed, narrowest_routes}
use bgp_api.Api.Selectors.{BboltRepository, selector_value}

-- What a lookup selects.
pub record Selected : Type 0 where
  pub allocation : Option Allocation
  pub routes : List Route
  pub origins : List AsnIdentity
  pub geofeed : Option Geofeed

abbrev pub is_some : {A : Type 0} → Option A → Bool
is_some none = false
is_some (some a) = true

abbrev empty_allocation : AllocationPart
empty_allocation = record {
  start_ip = none;
  end_ip = none;
  registry = none;
  country_code = none;
  country_raw = none;
  name = none;
  allocation_date = none;
  status = none;
  abuse_contact = none;
}

-- `if len(response.Network.ASNs) == 1`
abbrev only : List Bytes → Nullable
only (asn ∷ []) = some asn
only asns = none

module _ (texts : Texts) where
  unfoldable pub network_part : List Route → List AsnIdentity → Network
  unfolding bbolt_asns as_number optional record_prefix prefix_range_for_record
  network_part [] origins = record {
    cidr = none;
    start_ip = none;
    end_ip = none;
    asn = only (bbolt_asns []);
    asns = bbolt_asns [];
    origins = origins;
    as_number = as_number (only (bbolt_asns []));
    status = none;
    abuse_contact = none;
  }
  network_part (route ∷ routes) origins = record {
    cidr = optional (record_prefix texts route);
    start_ip = some (address_text texts (prefix_range_for_record route).0 route.version);
    end_ip = some (address_text texts (prefix_range_for_record route).1 route.version);
    asn = only (bbolt_asns (route ∷ routes));
    asns = bbolt_asns (route ∷ routes);
    origins = origins;
    as_number = as_number (only (bbolt_asns (route ∷ routes)));
    status = none;
    abuse_contact = optional route.abuse_contact;
  }

  unfoldable pub allocation_part : Option Allocation → AllocationPart
  unfolding lower upper optional country_code
  allocation_part none = empty_allocation
  allocation_part (some a) = record {
    start_ip = some (address_text texts a.start a.version);
    end_ip = some (address_text texts a.end a.version);
    registry = lower (optional a.registry);
    country_code = country_code (upper (optional a.country));
    country_raw = upper (optional a.country);
    name = optional a.name;
    allocation_date = optional a.allocation_date;
    status = optional a.status;
    abuse_contact = optional a.abuse_contact;
  }

  -- The location of the geofeed; a country that it does not have is the allocation's.
  unfoldable pub location_part : Option Geofeed → AllocationPart → Location
  unfolding upper optional country_code
  location_part none allocation = record {
    country_code = allocation.country_code;
    region = none;
    city = none;
  }
  location_part (some g) allocation = record {
    country_code = elim (country_code (upper (optional g.country))) [
      | none ↦ allocation.country_code
      | some code ↦ some code
    ];
    region = optional g.region;
    city = optional g.city;
  }

  unfoldable pub build_selected_bbolt_response : RuntimeIp → Selected → Option LookupResponse
  unfolding network_part allocation_part location_part
  build_selected_bbolt_response ip s =
      if not (is_some s.allocation) && length s.routes == 0 && not (is_some s.geofeed)
      then none
      else some (record {
        meta = none;
        ip = ip.canonical;
        version = ip.version;
        registry = (allocation_part s.allocation).registry;
        allocation_date = (allocation_part s.allocation).allocation_date;
        allocation_status = (allocation_part s.allocation).status;
        network = network_part s.routes s.origins;
        allocation = allocation_part s.allocation;
        location = location_part s.geofeed (allocation_part s.allocation);
        sources = record {
          allocation = is_some s.allocation;
          route = not (length s.routes == 0);
          geofeed = is_some s.geofeed;
        };
        details = none;
      })

  -- buildBboltResponse for `details=full`
  unfoldable pub build_bbolt_response :
      RuntimeIp
      → List Allocation
      → List Route
      → List AsnIdentity
      → List Geofeed
      → Option LookupResponse
  unfolding build_selected_bbolt_response bbolt_details narrowest_allocation narrowest_routes
      narrowest_geofeed
  build_bbolt_response ip allocations routes origins geofeeds =
      elim (build_selected_bbolt_response ip (record {
        allocation = narrowest_allocation allocations;
        routes = narrowest_routes routes;
        origins = origins;
        geofeed = narrowest_geofeed geofeeds;
      })) [
        | none ↦ none
        | some response ↦
            some
              (record response { details = some (bbolt_details texts allocations routes geofeeds) })
      ]

  -- A record whose ID is zero is absent.
  abbrev pub if_selected : {A : Type 0} → (ℕ → Reply A) → ℕ → Reply (Option A)
  if_selected get id = if id == 0 then ok none else (do record' ← get id; ok (some record'))

  abbrev pub at_most : ℕ → List ℕ → List ℕ
  at_most n ids = if ltb n (length ids) then take n ids else ids

  -- What lookupCompact selects; `fuel` bounds the rounds of the searches in the selectors.
  unfoldable pub select_compact : ℕ → BboltRepository → RuntimeIp → Reply Selected
  unfolding ◌>>=◌ for_each of_outcome
  select_compact fuel r ip = do
    allocation_selector ← selector_value r allocation_lpm ip.version
    allocation_id ← of_outcome (lookup_selection_lpm fuel allocation_selector ip.address)
    allocation ← if_selected (allocation_lookup_by_id r.db) allocation_id
    route_selector ← selector_value r route_lpm ip.version
    ids ← of_outcome (lookup_route_lpm fuel route_selector ip.address)
    routes ← for_each (route_lookup_by_id r.db) (at_most max_candidates ids)
    origins ← bbolt_origin_identities r.db routes
    geofeed_selector ← selector_value r geofeed_lpm ip.version
    geofeed_id ← of_outcome (lookup_selection_lpm fuel geofeed_selector ip.address)
    geofeed ← if_selected (geofeed_by_id r.db) geofeed_id
    ok (record { allocation = allocation; routes = routes; origins = origins; geofeed = geofeed })

  unfoldable pub lookup_compact : ℕ → BboltRepository → RuntimeIp → Reply (Option LookupResponse)
  unfolding ◌>>=◌ build_selected_bbolt_response
  lookup_compact fuel r ip = do
    selected ← select_compact fuel r ip
    ok (build_selected_bbolt_response ip selected)

  -- The records of an index that hold the address; `fuel` bounds the entries of one prefix, and `ctx`
  -- tells for an index and a length whether the context has ended by then.
  abbrev pub matching_records :
      {A : Type 0}
      → (ℕ → Reply A)
      → ℕ
      → (BucketName → ℕ → Bool)
      → Tx
      → BucketName
      → Addr
      → Reply (List A)
  matching_records get fuel ctx tx name address = do
    b ← bucket tx name
    ids ← matching_ip_ids fuel (ctx name) b address max_candidates
    for_each get ids

  unfoldable pub lookup_full :
      ℕ → (BucketName → ℕ → Bool) → BboltRepository → RuntimeIp → Reply (Option LookupResponse)
  unfolding ◌>>=◌ bucket for_each narrowest_routes build_bbolt_response
  lookup_full fuel ctx r ip = do
    allocations ← matching_records (allocation_by_id r.db) fuel ctx r.db allocation_index ip.address
    routes ← matching_records (route_by_id r.db) fuel ctx r.db route_index ip.address
    origins ← bbolt_origin_identities r.db (narrowest_routes routes)
    geofeeds ← matching_records (geofeed_by_id r.db) fuel ctx r.db geofeed_index ip.address
    ok (build_bbolt_response ip allocations routes origins geofeeds)

  -- Lookup, where `full` tells whether the details are asked for.
  unfoldable pub lookup :
      ℕ
      → (BucketName → ℕ → Bool)
      → BboltRepository
      → RuntimeIp
      → Bool
      → Reply (Option LookupResponse)
  lookup fuel ctx r ip full = if full then lookup_full fuel ctx r ip else lookup_compact fuel r ip
