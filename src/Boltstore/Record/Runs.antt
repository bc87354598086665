-- ===== src/Boltstore/Record/Runs.antt =====
-- The values of the source records at concrete records and bytes.
use bgp_api.Base.{◌≡◌, refl, arith, Bytes, [], ◌∷◌, ◌++◌, replicate}
use bgp_api.Golang.Text.{codes}
use bgp_api.Golang.Binary.{put_uint32, uvarint_bytes, append_uvarint_loop}
use bgp_api.Boltstore.Encoder
use bgp_api.Boltstore.Decoder.{ok}
use bgp_api.Boltstore.Record.{
  Allocation, Route, Geofeed, Autnum, put_strings, encode_allocation, encode_route,
  decode_allocation, decode_route,
}
use bgp_api.Boltstore.Record.Lookup.{decode_allocation_lookup}
use bgp_api.Boltstore.Record.RoundTrip.{
  decode_allocation-encode_allocation, decode_route-encode_route,
}
use bgp_api.Boltstore.Record.Partial.{map_result, allocation_view, decode_allocation_lookup-map}

abbrev first : Bytes
first = replicate 12 0 ++ (192 ∷ 0 ∷ 2 ∷ 0 ∷ [])

abbrev final : Bytes
final = replicate 12 0 ++ (192 ∷ 0 ∷ 2 ∷ 255 ∷ [])

abbrev test_allocation : Allocation
test_allocation = record {
  version = 4;
  start = first;
  end = final;
  registry = codes "arin";
  country = codes "US";
  name = codes "TEST-NET-1";
  status = codes "";
  allocation_date = [];
  created = [];
  last_modified = [];
  source = codes "ARIN";
  maintainers = [];
  organization = codes "IANA";
  abuse_contact = [];
  description = codes "docs";
}

abbrev test_route : Route
test_route = record {
  version = 4;
  prefix_length = 24;
  network = first;
  as_number = 64496;
  origin_asn = codes "AS64496";
  registry = codes "ripe";
  source = codes "RIPE";
  maintainers = [];
  organization = [];
  abuse_contact = [];
  description = codes "docs";
}

abbrev test_geofeed : Geofeed
test_geofeed = record {
  version = 4;
  start = first;
  end = final;
  country = codes "US";
  region = codes "US-CA";
  city = [];
}

abbrev test_autnum : Autnum
test_autnum = record {
  as_number = 64496;
  asn = codes "AS64496";
  registry = codes "ripe";
  country = codes "DE";
  name = codes "TEST";
  organization = codes "ORG";
  status = [];
  created = [];
  last_modified = [];
  source = [];
  maintainers = [];
  abuse_contact = [];
  description = [];
}

decode_allocation-encode_allocation_example :
    decode_allocation (encode_allocation test_allocation) ≡ ok test_allocation
unfolding encode_allocation Encoder.byte Encoder.address Encoder.string put_strings uvarint_bytes
    append_uvarint_loop
decode_allocation-encode_allocation_example =
    decode_allocation-encode_allocation test_allocation (record { start = refl; end = refl })
      (omega arith)

decode_route-encode_route_example : decode_route (encode_route test_route) ≡ ok test_route
unfolding encode_route Encoder.byte Encoder.address Encoder.uint32 Encoder.string put_strings
    uvarint_bytes append_uvarint_loop put_uint32
decode_route-encode_route_example =
    decode_route-encode_route test_route (record { network = refl; as_number = omega arith })
      (omega arith)

decode_allocation_lookup-map_example :
    decode_allocation_lookup (encode_allocation test_allocation)
    ≡ map_result allocation_view (decode_allocation (encode_allocation test_allocation))
decode_allocation_lookup-map_example =
    decode_allocation_lookup-map (encode_allocation test_allocation)
