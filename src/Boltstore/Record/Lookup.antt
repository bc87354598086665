-- ===== src/Boltstore/Record/Lookup.antt =====
-- internal/boltstore/store.go: the decoders that read a part of a record for the compact response
-- and for the selectors. A field that Go leaves at its zero value is `[]`.
use bgp_api.Base.{ℕ, zero, suc, Bytes, []}
use bgp_api.Boltstore.Decoder
use bgp_api.Boltstore.Decoder.{Reader, Result, ok, err, panic, start, ◌>>=◌, ◌>>◌, pure, complete}
use bgp_api.Boltstore.Record.{Allocation, Route, Autnum}

-- `for range n { r.skipString() }`
unfoldable pub skip_strings : ℕ → Reader (Unit {0})
unfolding Decoder.skip_string
skip_strings zero = pure tt
skip_strings (suc n) = do Decoder.skip_string; skip_strings n

-- The decoders of bounds do not ask that the record ends.
unfoldable pub read_part : {A : Type 0} → Reader A → Bytes → Result A
read_part m value = elim (m (start value)) [ ok (a, d) ↦ ok a | err e ↦ err e | panic ↦ panic ]

unfoldable pub bounds_fields : Reader (ℕ × Bytes × Bytes)
bounds_fields = do
  version ← Decoder.byte
  start ← Decoder.address
  end ← Decoder.address
  pure (version, start, end)

unfoldable pub decode_allocation_bounds : Bytes → Result (ℕ × Bytes × Bytes)
decode_allocation_bounds value = read_part bounds_fields value

unfoldable pub decode_geofeed_bounds : Bytes → Result (ℕ × Bytes × Bytes)
decode_geofeed_bounds value = read_part bounds_fields value

unfoldable pub allocation_lookup_fields : Reader Allocation
allocation_lookup_fields = do
  version ← Decoder.byte
  start ← Decoder.address
  end ← Decoder.address
  registry ← Decoder.string
  country ← Decoder.string
  name ← Decoder.string
  status ← Decoder.string
  allocation_date ← Decoder.string
  skip_strings 5
  abuse_contact ← Decoder.string
  Decoder.skip_string
  pure (record {
    version = version;
    start = start;
    end = end;
    registry = registry;
    country = country;
    name = name;
    status = status;
    allocation_date = allocation_date;
    created = [];
    last_modified = [];
    source = [];
    maintainers = [];
    organization = [];
    abuse_contact = abuse_contact;
    description = [];
  })

unfoldable pub decode_allocation_lookup : Bytes → Result Allocation
decode_allocation_lookup value = complete allocation_lookup_fields value

unfoldable pub route_lookup_fields : Reader Route
route_lookup_fields = do
  version ← Decoder.byte
  prefix_length ← Decoder.byte
  network ← Decoder.address
  as_number ← Decoder.uint32
  origin_asn ← Decoder.string
  skip_strings 4
  abuse_contact ← Decoder.string
  Decoder.skip_string
  pure (record {
    version = version;
    prefix_length = prefix_length;
    network = network;
    as_number = as_number;
    origin_asn = origin_asn;
    registry = [];
    source = [];
    maintainers = [];
    organization = [];
    abuse_contact = abuse_contact;
    description = [];
  })

unfoldable pub decode_route_lookup : Bytes → Result Route
decode_route_lookup value = complete route_lookup_fields value

unfoldable pub autnum_identity_fields : Reader Autnum
autnum_identity_fields = do
  as_number ← Decoder.uint32
  skip_strings 3
  name ← Decoder.string
  organization ← Decoder.string
  skip_strings 7
  pure (record {
    as_number = as_number;
    asn = [];
    registry = [];
    country = [];
    name = name;
    organization = organization;
    status = [];
    created = [];
    last_modified = [];
    source = [];
    maintainers = [];
    abuse_contact = [];
    description = [];
  })

unfoldable pub decode_autnum_identity : Bytes → Result Autnum
decode_autnum_identity value = complete autnum_identity_fields value
