-- ===== src/Boltstore/Record.antt =====
-- internal/boltstore/store.go: the source records and their values in the store. A string is its
-- bytes, an Address its sixteen bytes.
mod Runs
pub mod RoundTrip
pub mod Lookup
pub mod Partial
use mathlib.Core.List.{foldl}
use bgp_api.Base.{ℕ, Bytes, List, [], ◌∷◌}
use bgp_api.Boltstore.Encoder
use bgp_api.Boltstore.Encoder.{Encoder}
use bgp_api.Boltstore.Decoder
use bgp_api.Boltstore.Decoder.{Reader, Result, ◌>>=◌, ◌>>◌, pure, complete}

-- `for _, item := range items { w.string(item) }`.
unfoldable pub put_strings : Encoder → List Bytes → Encoder
put_strings w items = foldl Encoder.string w items

pub record Allocation : Type 0 where
  pub version : ℕ
  pub start : Bytes
  pub end : Bytes
  pub registry : Bytes
  pub country : Bytes
  pub name : Bytes
  pub status : Bytes
  pub allocation_date : Bytes
  pub created : Bytes
  pub last_modified : Bytes
  pub source : Bytes
  pub maintainers : Bytes
  pub organization : Bytes
  pub abuse_contact : Bytes
  pub description : Bytes

unfoldable pub encode_allocation : Allocation → Bytes
encode_allocation v =
    let w = Encoder.byte [] v.version in
    let w1 = Encoder.address w v.start in
    let w2 = Encoder.address w1 v.end in
    put_strings w2 (
      v.registry ∷ v.country ∷ v.name ∷ v.status ∷ v.allocation_date ∷ v.created ∷ v.last_modified
      ∷ v.source ∷ v.maintainers ∷ v.organization ∷ v.abuse_contact ∷ v.description ∷ [])

unfoldable pub allocation_fields : Reader Allocation
allocation_fields = do
  version ← Decoder.byte
  start ← Decoder.address
  end ← Decoder.address
  registry ← Decoder.string
  country ← Decoder.string
  name ← Decoder.string
  status ← Decoder.string
  allocation_date ← Decoder.string
  created ← Decoder.string
  last_modified ← Decoder.string
  source ← Decoder.string
  maintainers ← Decoder.string
  organization ← Decoder.string
  abuse_contact ← Decoder.string
  description ← Decoder.string
  pure (record {
    version = version;
    start = start;
    end = end;
    registry = registry;
    country = country;
    name = name;
    status = status;
    allocation_date = allocation_date;
    created = created;
    last_modified = last_modified;
    source = source;
    maintainers = maintainers;
    organization = organization;
    abuse_contact = abuse_contact;
    description = description;
  })

unfoldable pub decode_allocation : Bytes → Result Allocation
decode_allocation value = complete allocation_fields value

pub record Route : Type 0 where
  pub version : ℕ
  pub prefix_length : ℕ
  pub network : Bytes
  pub as_number : ℕ
  pub origin_asn : Bytes
  pub registry : Bytes
  pub source : Bytes
  pub maintainers : Bytes
  pub organization : Bytes
  pub abuse_contact : Bytes
  pub description : Bytes

unfoldable pub encode_route : Route → Bytes
encode_route v =
    let w = Encoder.byte [] v.version in
    let w1 = Encoder.byte w v.prefix_length in
    let w2 = Encoder.address w1 v.network in
    let w3 = Encoder.uint32 w2 v.as_number in
    put_strings w3 (
      v.origin_asn ∷ v.registry ∷ v.source ∷ v.maintainers ∷ v.organization ∷ v.abuse_contact
      ∷ v.description ∷ [])

unfoldable pub route_fields : Reader Route
route_fields = do
  version ← Decoder.byte
  prefix_length ← Decoder.byte
  network ← Decoder.address
  as_number ← Decoder.uint32
  origin_asn ← Decoder.string
  registry ← Decoder.string
  source ← Decoder.string
  maintainers ← Decoder.string
  organization ← Decoder.string
  abuse_contact ← Decoder.string
  description ← Decoder.string
  pure (record {
    version = version;
    prefix_length = prefix_length;
    network = network;
    as_number = as_number;
    origin_asn = origin_asn;
    registry = registry;
    source = source;
    maintainers = maintainers;
    organization = organization;
    abuse_contact = abuse_contact;
    description = description;
  })

unfoldable pub decode_route : Bytes → Result Route
decode_route value = complete route_fields value

pub record Geofeed : Type 0 where
  pub version : ℕ
  pub start : Bytes
  pub end : Bytes
  pub country : Bytes
  pub region : Bytes
  pub city : Bytes

unfoldable pub encode_geofeed : Geofeed → Bytes
encode_geofeed v =
    let w = Encoder.byte [] v.version in
    let w1 = Encoder.address w v.start in
    let w2 = Encoder.address w1 v.end in put_strings w2 (v.country ∷ v.region ∷ v.city ∷ [])

unfoldable pub geofeed_fields : Reader Geofeed
geofeed_fields = do
  version ← Decoder.byte
  start ← Decoder.address
  end ← Decoder.address
  country ← Decoder.string
  region ← Decoder.string
  city ← Decoder.string
  pure (record {
    version = version;
    start = start;
    end = end;
    country = country;
    region = region;
    city = city;
  })

unfoldable pub decode_geofeed : Bytes → Result Geofeed
decode_geofeed value = complete geofeed_fields value

pub record Autnum : Type 0 where
  pub as_number : ℕ
  pub asn : Bytes
  pub registry : Bytes
  pub country : Bytes
  pub name : Bytes
  pub organization : Bytes
  pub status : Bytes
  pub created : Bytes
  pub last_modified : Bytes
  pub source : Bytes
  pub maintainers : Bytes
  pub abuse_contact : Bytes
  pub description : Bytes

unfoldable pub encode_autnum : Autnum → Bytes
encode_autnum v =
    let w = Encoder.uint32 [] v.as_number in
    put_strings w (
      v.asn ∷ v.registry ∷ v.country ∷ v.name ∷ v.organization ∷ v.status ∷ v.created
      ∷ v.last_modified ∷ v.source ∷ v.maintainers ∷ v.abuse_contact ∷ v.description ∷ [])

unfoldable pub autnum_fields : Reader Autnum
autnum_fields = do
  as_number ← Decoder.uint32
  asn ← Decoder.string
  registry ← Decoder.string
  country ← Decoder.string
  name ← Decoder.string
  organization ← Decoder.string
  status ← Decoder.string
  created ← Decoder.string
  last_modified ← Decoder.string
  source ← Decoder.string
  maintainers ← Decoder.string
  abuse_contact ← Decoder.string
  description ← Decoder.string
  pure (record {
    as_number = as_number;
    asn = asn;
    registry = registry;
    country = country;
    name = name;
    organization = organization;
    status = status;
    created = created;
    last_modified = last_modified;
    source = source;
    maintainers = maintainers;
    abuse_contact = abuse_contact;
    description = description;
  })

unfoldable pub decode_autnum : Bytes → Result Autnum
decode_autnum value = complete autnum_fields value
