-- ===== src/Api/Types.antt =====
-- internal/api/api.go and resources.go: the responses. Their JSON tags are not modelled.
use bgp_api.Base.{ℕ, Bytes, Bool, List, Option}
use bgp_api.Api.Text.{Nullable}
use bgp_api.Api.Range.Cursor.{RangeKind}

pub record AsnIdentity : Type 0 where
  pub asn : Bytes
  pub as_number : ℕ
  pub name : Nullable
  pub organization : Nullable

pub record DatasetMetadata : Type 0 where
  pub release_tag : Nullable
  pub built_at : Nullable
  pub activated_at : Nullable
  pub source_commit : Nullable

pub record LookupDetailRecord : Type 0 where
  pub start_ip : Bytes
  pub end_ip : Bytes
  pub version : ℕ
  pub registry : Nullable
  pub country_code : Nullable
  pub country_raw : Nullable
  pub name : Nullable
  pub cidr : Nullable
  pub asn : Nullable
  pub as_number : Option ℕ
  pub region : Nullable
  pub city : Nullable
  pub status : Nullable
  pub allocation_date : Nullable
  pub created : Nullable
  pub last_modified : Nullable
  pub source : Nullable
  pub maintainers : Nullable
  pub organization : Nullable
  pub abuse_contact : Nullable
  pub description : Nullable

pub record LookupDetails : Type 0 where
  pub allocations : List LookupDetailRecord
  pub routes : List LookupDetailRecord
  pub geofeeds : List LookupDetailRecord

pub record Network : Type 0 where
  pub cidr : Nullable
  pub start_ip : Nullable
  pub end_ip : Nullable
  pub asn : Nullable
  pub asns : List Bytes
  pub origins : List AsnIdentity
  pub as_number : Option ℕ
  pub status : Nullable
  pub abuse_contact : Nullable

pub record AllocationPart : Type 0 where
  pub start_ip : Nullable
  pub end_ip : Nullable
  pub registry : Nullable
  pub country_code : Nullable
  pub country_raw : Nullable
  pub name : Nullable
  pub allocation_date : Nullable
  pub status : Nullable
  pub abuse_contact : Nullable

pub record Location : Type 0 where
  pub country_code : Nullable
  pub region : Nullable
  pub city : Nullable

pub record Sources : Type 0 where
  pub allocation : Bool
  pub route : Bool
  pub geofeed : Bool

-- Meta is the dataset's metadata, when it has been attached.
pub record LookupResponse : Type 0 where
  pub meta : Option DatasetMetadata
  pub ip : Bytes
  pub version : ℕ
  pub registry : Nullable
  pub allocation_date : Nullable
  pub allocation_status : Nullable
  pub network : Network
  pub allocation : AllocationPart
  pub location : Location
  pub sources : Sources
  pub details : Option LookupDetails

pub record RouteObject : Type 0 where
  pub id : ℕ
  pub prefix : Bytes
  pub version : ℕ
  pub origin_asn : Bytes
  pub as_number : Option ℕ
  pub relation : Bytes
  pub registry : Nullable
  pub source : Nullable
  pub maintainers : Nullable
  pub organization : Nullable
  pub abuse_contact : Nullable
  pub description : Nullable

pub record AllocationObject : Type 0 where
  pub id : ℕ
  pub start_ip : Bytes
  pub end_ip : Bytes
  pub version : ℕ
  pub registry : Nullable
  pub country_code : Nullable
  pub country_raw : Nullable
  pub name : Nullable
  pub status : Nullable
  pub allocation_date : Nullable
  pub created : Nullable
  pub last_modified : Nullable
  pub source : Nullable
  pub maintainers : Nullable
  pub organization : Nullable
  pub abuse_contact : Nullable
  pub description : Nullable

pub record AutnumObject : Type 0 where
  pub asn : Bytes
  pub as_number : ℕ
  pub registry : Nullable
  pub country_code : Nullable
  pub country_raw : Nullable
  pub name : Nullable
  pub organization : Nullable
  pub status : Nullable
  pub created : Nullable
  pub last_modified : Nullable
  pub source : Nullable
  pub maintainers : Nullable
  pub abuse_contact : Nullable
  pub description : Nullable

-- The numbers are zero on a page that is not numbered.
pub record RoutePage : Type 0 where
  pub items : List RouteObject
  pub next_cursor : Nullable
  pub page : ℕ
  pub total_pages : ℕ
  pub total_items : ℕ

pub record PrefixDescriptor : Type 0 where
  pub cidr : Bytes
  pub version : ℕ
  pub prefix_length : ℕ
  pub start_ip : Bytes
  pub end_ip : Bytes
  pub address_count : Bytes

pub record RangeDescriptor : Type 0 where
  pub start_ip : Bytes
  pub end_ip : Bytes
  pub version : ℕ
  pub address_count : Bytes

pub record PrefixResponse : Type 0 where
  pub meta : Option DatasetMetadata
  pub prefix : PrefixDescriptor
  pub allocation : Option AllocationObject
  pub routes : RoutePage

pub record RangeFacet : Type 0 where
  pub value : Bytes
  pub record_count : ℕ

pub record RangeSummary : Type 0 where
  pub aggregation : Bytes
  pub bucket_prefix_length : ℕ
  pub buckets : ℕ
  pub allocation_records : ℕ
  pub route_records : ℕ
  pub countries : List RangeFacet
  pub asns : List RangeFacet

pub record RangeResponse : Type 0 where
  pub meta : Option DatasetMetadata
  pub range : RangeDescriptor
  pub kind : RangeKind
  pub mode : Bytes
  pub summary : Option RangeSummary
  pub allocations : List AllocationObject
  pub routes : List RouteObject
  pub next_cursor : Nullable

pub record AsnResponse : Type 0 where
  pub meta : Option DatasetMetadata
  pub asn : Bytes
  pub as_number : ℕ
  pub autnum : Option AutnumObject
  pub routes : RoutePage

-- Page; `number` is zero where the page is not numbered.
pub record Page : Type 0 where
  pub cursor : ℕ
  pub limit : ℕ
  pub number : ℕ
  pub numbered : Bool

pub record RangePage : Type 0 where
  pub cursor : Bytes
  pub limit : ℕ
