-- ===== src/Boltstore/Record/RoundTrip.antt =====
-- internal/boltstore/store.go: what the encoders of the source records write, the decoders read
-- back, for records whose addresses have sixteen bytes and whose numbers fit their types.
use bgp_api.Base.{◌^◌, ◌<◌, ◌≡◌, [], ◌∷◌, ◌++◌, length, append_assoc, append-nil}
use bgp_api.Golang.Binary.{put_uint32}
use bgp_api.Boltstore.Encoder
use bgp_api.Boltstore.Decoder.{ok}
use bgp_api.Boltstore.Decoder.Reads.{Reads, Reads-complete, reads, text}
use bgp_api.Boltstore.Record.{
  put_strings, Geofeed, encode_geofeed, geofeed_fields, decode_geofeed, Allocation,
  encode_allocation, allocation_fields, decode_allocation, Route, encode_route, route_fields,
  decode_route, Autnum, encode_autnum, autnum_fields, decode_autnum,
}

pub record IsAllocation (v : Allocation) : Type 0 where
  pub start : length v.start ≡ 16
  pub end : length v.end ≡ 16

allocation_layout :
    (v : Allocation)
    → encode_allocation v
      ≡ (v.version ∷ [])
        ++ (v.start
            ++ (v.end
                ++ (text v.registry
                    ++ (text v.country
                        ++ (text v.name
                            ++ (text v.status
                                ++ (text v.allocation_date
                                    ++ (text v.created
                                        ++ (text v.last_modified
                                            ++ (text v.source
                                                ++ (text v.maintainers
                                                    ++ (text v.organization
                                                        ++ (text v.abuse_contact
                                                            ++ (text v.description
                                                            ++ []))))))))))))))
unfolding encode_allocation put_strings Encoder.byte Encoder.address Encoder.uint32 Encoder.string
allocation_layout v = simp (append_assoc, append-nil)

allocation-Reads :
    (v : Allocation) → IsAllocation v → Reads allocation_fields (encode_allocation v) v
unfolding allocation_fields
allocation-Reads v h = rw (allocation_layout v) (search reads depth 20)

-- For an allocation whose addresses have sixteen bytes, and whose encoding is shorter than 2 ^ 63
-- bytes, DecodeAllocation reads back from EncodeAllocation's bytes exactly that allocation.
pub decode_allocation-encode_allocation :
    (v : Allocation)
    → IsAllocation v
    → length (encode_allocation v) < 2 ^ 63
    → decode_allocation (encode_allocation v) ≡ ok v
unfolding decode_allocation
decode_allocation-encode_allocation v h fits =
    Reads-complete allocation_fields (allocation-Reads v h) fits

pub record IsRoute (v : Route) : Type 0 where
  pub network : length v.network ≡ 16
  pub as_number : v.as_number < 2 ^ 32

route_layout :
    (v : Route)
    → encode_route v
      ≡ (v.version ∷ [])
        ++ ((v.prefix_length ∷ [])
            ++ (v.network
                ++ (put_uint32 v.as_number
                    ++ (text v.origin_asn
                        ++ (text v.registry
                            ++ (text v.source
                                ++ (text v.maintainers
                                    ++ (text v.organization
                                        ++ (text v.abuse_contact
                                            ++ (text v.description ++ []))))))))))
unfolding encode_route put_strings Encoder.byte Encoder.address Encoder.uint32 Encoder.string
route_layout v = simp (append_assoc, append-nil)

route-Reads : (v : Route) → IsRoute v → Reads route_fields (encode_route v) v
unfolding route_fields
route-Reads v h = rw (route_layout v) (search reads depth 20)

-- For a route whose network has sixteen bytes and whose AS number fits a uint32, and whose encoding
-- is shorter than 2 ^ 63 bytes, DecodeRoute reads back from EncodeRoute's bytes exactly that route.
pub decode_route-encode_route :
    (v : Route)
    → IsRoute v
    → length (encode_route v) < 2 ^ 63
    → decode_route (encode_route v) ≡ ok v
unfolding decode_route
decode_route-encode_route v h fits = Reads-complete route_fields (route-Reads v h) fits

pub record IsGeofeed (v : Geofeed) : Type 0 where
  pub start : length v.start ≡ 16
  pub end : length v.end ≡ 16

geofeed_layout :
    (v : Geofeed)
    → encode_geofeed v
      ≡ (v.version ∷ [])
        ++ (v.start ++ (v.end ++ (text v.country ++ (text v.region ++ (text v.city ++ [])))))
unfolding encode_geofeed put_strings Encoder.byte Encoder.address Encoder.uint32 Encoder.string
geofeed_layout v = simp (append_assoc, append-nil)

geofeed-Reads : (v : Geofeed) → IsGeofeed v → Reads geofeed_fields (encode_geofeed v) v
unfolding geofeed_fields
geofeed-Reads v h = rw (geofeed_layout v) (search reads depth 20)

-- For a geofeed whose addresses have sixteen bytes, and whose encoding is shorter than 2 ^ 63
-- bytes, DecodeGeofeed reads back from EncodeGeofeed's bytes exactly that geofeed.
decode_geofeed-encode_geofeed :
    (v : Geofeed)
    → IsGeofeed v
    → length (encode_geofeed v) < 2 ^ 63
    → decode_geofeed (encode_geofeed v) ≡ ok v
unfolding decode_geofeed
decode_geofeed-encode_geofeed v h fits = Reads-complete geofeed_fields (geofeed-Reads v h) fits

pub record IsAutnum (v : Autnum) : Type 0 where
  pub as_number : v.as_number < 2 ^ 32

autnum_layout :
    (v : Autnum)
    → encode_autnum v
      ≡ put_uint32 v.as_number
        ++ (text v.asn
            ++ (text v.registry
                ++ (text v.country
                    ++ (text v.name
                        ++ (text v.organization
                            ++ (text v.status
                                ++ (text v.created
                                    ++ (text v.last_modified
                                        ++ (text v.source
                                            ++ (text v.maintainers
                                                ++ (text v.abuse_contact
                                                    ++ (text v.description ++ []))))))))))))
unfolding encode_autnum put_strings Encoder.byte Encoder.address Encoder.uint32 Encoder.string
autnum_layout v = simp (append_assoc, append-nil)

autnum-Reads : (v : Autnum) → IsAutnum v → Reads autnum_fields (encode_autnum v) v
unfolding autnum_fields
autnum-Reads v h = rw (autnum_layout v) (search reads depth 20)

-- For an aut-num whose AS number fits a uint32, and whose encoding is shorter than 2 ^ 63 bytes,
-- DecodeAutnum reads back from EncodeAutnum's bytes exactly that aut-num.
decode_autnum-encode_autnum :
    (v : Autnum)
    → IsAutnum v
    → length (encode_autnum v) < 2 ^ 63
    → decode_autnum (encode_autnum v) ≡ ok v
unfolding decode_autnum
decode_autnum-encode_autnum v h fits = Reads-complete autnum_fields (autnum-Reads v h) fits
