-- ===== src/Api/Records.antt =====
-- internal/api/bbolt.go: the records of the dataset by their IDs.
use bgp_api.Base.{ℕ, Bytes, none, some}
use bgp_api.Boltstore.Decoder.{Result}
use bgp_api.Boltstore.Keys.{id_key}
use bgp_api.Boltstore.Record.{
  Allocation, Route, Geofeed, decode_allocation, decode_route, decode_geofeed,
}
use bgp_api.Boltstore.Record.Lookup.{decode_allocation_lookup, decode_route_lookup}
use bgp_api.Api.Reply.{
  BucketName, allocations, routes, geofeeds, Reply, err, missing_record, ◌>>=◌, of_result,
}
use bgp_api.Api.Bucket.{Tx, bucket}

-- The value under the ID's key, decoded.
unfoldable pub record_by_id : {A : Type 0} → (Bytes → Result A) → Tx → BucketName → ℕ → Reply A
unfolding ◌>>=◌ of_result
record_by_id decode tx name id = do
  b ← bucket tx name
  elim (b.get (id_key id)) [
    | none ↦ err (missing_record name id)
    | some raw ↦ of_result (decode raw)
  ]

unfoldable pub allocation_by_id : Tx → ℕ → Reply Allocation
allocation_by_id tx id = record_by_id decode_allocation tx allocations id

unfoldable pub allocation_lookup_by_id : Tx → ℕ → Reply Allocation
allocation_lookup_by_id tx id = record_by_id decode_allocation_lookup tx allocations id

unfoldable pub route_by_id : Tx → ℕ → Reply Route
route_by_id tx id = record_by_id decode_route tx routes id

unfoldable pub route_lookup_by_id : Tx → ℕ → Reply Route
route_lookup_by_id tx id = record_by_id decode_route_lookup tx routes id

unfoldable pub geofeed_by_id : Tx → ℕ → Reply Geofeed
geofeed_by_id tx id = record_by_id decode_geofeed tx geofeeds id
