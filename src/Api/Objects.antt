-- ===== src/Api/Objects.antt =====
-- internal/api/bbolt.go: the records of the dataset as objects of a response.
use bgp_api.Base.{ℕ, Bytes, List, [], ◌∷◌, length, take, map, ltb, leb, if◌then◌else◌, none, some}
use bgp_api.Golang.Decimal.{decimal}
use bgp_api.Golang.Netip.{Texts}
use bgp_api.Boltstore.Keys.{Address, addr}
use bgp_api.Boltstore.Record.{Allocation, Route, Geofeed, Autnum}
use bgp_api.Ipkey.{ParsedPrefix, ParsedRange}
use bgp_api.Api.Reply.{Reply, ok, panic, ◌>>=◌}
use bgp_api.Api.Text.{Nullable, optional, lower, upper, country_code, as_number}
use bgp_api.Api.Range.Page.{prefix_range_for_record}
use bgp_api.Api.Types.{
  LookupDetailRecord, LookupDetails, RouteObject, AllocationObject, AutnumObject, PrefixDescriptor,
  RangeDescriptor,
}

module _ (texts : Texts) where
  -- `value.Start.Addr(int(value.Version)).String()`
  abbrev pub address_text : Address → ℕ → Bytes
  address_text value version = texts.addr_text (addr value version)

  unfoldable pub record_prefix : Route → Bytes
  unfolding addr
  record_prefix v =
      texts.prefix_text (record { addr = addr v.network v.version; bits = v.prefix_length })

  unfoldable pub allocation_detail : Allocation → LookupDetailRecord
  unfolding addr optional lower upper country_code
  allocation_detail v = record {
    start_ip = address_text v.start v.version;
    end_ip = address_text v.end v.version;
    version = v.version;
    registry = lower (optional v.registry);
    country_code = country_code (upper (optional v.country));
    country_raw = upper (optional v.country);
    name = optional v.name;
    cidr = none;
    asn = none;
    as_number = none;
    region = none;
    city = none;
    status = optional v.status;
    allocation_date = optional v.allocation_date;
    created = optional v.created;
    last_modified = optional v.last_modified;
    source = optional v.source;
    maintainers = optional v.maintainers;
    organization = optional v.organization;
    abuse_contact = optional v.abuse_contact;
    description = optional v.description;
  }

  unfoldable pub route_detail : Route → LookupDetailRecord
  unfolding addr optional lower upper as_number record_prefix prefix_range_for_record
  route_detail v = record {
    start_ip = address_text (prefix_range_for_record v).0 v.version;
    end_ip = address_text (prefix_range_for_record v).1 v.version;
    version = v.version;
    registry = lower (optional v.registry);
    country_code = none;
    country_raw = none;
    name = none;
    cidr = optional (record_prefix v);
    asn = upper (optional v.origin_asn);
    as_number = as_number (upper (optional v.origin_asn));
    region = none;
    city = none;
    status = none;
    allocation_date = none;
    created = none;
    last_modified = none;
    source = optional v.source;
    maintainers = optional v.maintainers;
    organization = optional v.organization;
    abuse_contact = optional v.abuse_contact;
    description = optional v.description;
  }

  unfoldable pub geofeed_detail : Geofeed → LookupDetailRecord
  unfolding addr optional upper country_code
  geofeed_detail v = record {
    start_ip = address_text v.start v.version;
    end_ip = address_text v.end v.version;
    version = v.version;
    registry = none;
    country_code = country_code (upper (optional v.country));
    country_raw = upper (optional v.country);
    name = none;
    cidr = none;
    asn = none;
    as_number = none;
    region = optional v.region;
    city = optional v.city;
    status = none;
    allocation_date = none;
    created = none;
    last_modified = none;
    source = none;
    maintainers = none;
    organization = none;
    abuse_contact = none;
    description = none;
  }

  unfoldable pub bbolt_details : List Allocation → List Route → List Geofeed → LookupDetails
  unfolding allocation_detail route_detail geofeed_detail
  bbolt_details allocations routes geofeeds = record {
    allocations = map allocation_detail allocations;
    routes = map route_detail routes;
    geofeeds = map geofeed_detail geofeeds;
  }

  unfoldable pub allocation_object : ℕ → Allocation → AllocationObject
  unfolding addr optional lower upper country_code
  allocation_object id v = record {
    id = id;
    start_ip = address_text v.start v.version;
    end_ip = address_text v.end v.version;
    version = v.version;
    registry = lower (optional v.registry);
    country_code = country_code (upper (optional v.country));
    country_raw = upper (optional v.country);
    name = optional v.name;
    status = optional v.status;
    allocation_date = optional v.allocation_date;
    created = optional v.created;
    last_modified = optional v.last_modified;
    source = optional v.source;
    maintainers = optional v.maintainers;
    organization = optional v.organization;
    abuse_contact = optional v.abuse_contact;
    description = optional v.description;
  }

  unfoldable pub route_object : ℕ → Route → RouteObject
  unfolding record_prefix optional lower
  route_object id v = record {
    id = id;
    prefix = record_prefix v;
    version = v.version;
    origin_asn = v.origin_asn;
    as_number = if ltb 0 v.as_number then some v.as_number else none;
    relation = [];
    registry = lower (optional v.registry);
    source = optional v.source;
    maintainers = optional v.maintainers;
    organization = optional v.organization;
    abuse_contact = optional v.abuse_contact;
    description = optional v.description;
  }

  unfoldable pub autnum_object : Autnum → AutnumObject
  unfolding optional lower upper country_code
  autnum_object v = record {
    asn = v.asn;
    as_number = v.as_number;
    registry = lower (optional v.registry);
    country_code = country_code (upper (optional v.country));
    country_raw = upper (optional v.country);
    name = optional v.name;
    organization = optional v.organization;
    status = optional v.status;
    created = optional v.created;
    last_modified = optional v.last_modified;
    source = optional v.source;
    maintainers = optional v.maintainers;
    abuse_contact = optional v.abuse_contact;
    description = optional v.description;
  }

-- `items[len(items)-1].ID`
abbrev pub last_id : List RouteObject → Reply ℕ
last_id [] = panic
last_id (r ∷ []) = ok r.id
last_id (r ∷ s ∷ items) = last_id (s ∷ items)

-- The page's items and the cursor of the next one.
unfoldable pub route_page : List RouteObject → ℕ → Reply (List RouteObject × Nullable)
unfolding ◌>>=◌ decimal
route_page items limit =
    if leb (length items) limit
    then ok (items, none)
    else (do id ← last_id (take limit items); ok (take limit items, some (decimal id)))

unfoldable pub prefix_descriptor : ParsedPrefix → PrefixDescriptor
prefix_descriptor p = record {
  cidr = p.canonical;
  version = p.version;
  prefix_length = p.prefix_length;
  start_ip = p.start.canonical;
  end_ip = p.end.canonical;
  address_count = p.address_count;
}

unfoldable pub range_descriptor : ParsedRange → RangeDescriptor
range_descriptor r = record {
  start_ip = r.start.canonical;
  end_ip = r.end.canonical;
  version = r.version;
  address_count = r.address_count;
}
