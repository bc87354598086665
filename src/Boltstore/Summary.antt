-- ===== src/Boltstore/Summary.antt =====
-- internal/boltstore/store.go: the value of a range summary, two lists of facets behind the counts.
mod Runs
pub mod RoundTrip
use mathlib.Core.List.{foldl}
use bgp_api.Base.{ℕ, zero, suc, ◌%◌, ◌^◌, Bytes, List, [], ◌∷◌, length, ltb, if◌then◌else◌}
use bgp_api.Boltstore.Encoder
use bgp_api.Boltstore.Encoder.{Encoder}
use bgp_api.Boltstore.Decoder
use bgp_api.Boltstore.Decoder.{
  Reader, Result, err, invalid_facet_count, ◌>>=◌, ◌>>◌, pure, complete,
}

pub record Facet : Type 0 where
  pub value : Bytes
  pub count : ℕ

pub record RangeSummary : Type 0 where
  pub prefix_length : ℕ
  pub allocation_records : ℕ
  pub routes : ℕ
  pub countries : List Facet
  pub asns : List Facet

unfoldable pub put_facet : Encoder → Facet → Encoder
put_facet w facet = Encoder.uint64 (Encoder.string w facet.value) facet.count

unfoldable pub put_facets : Encoder → List Facet → Encoder
unfolding put_facet
put_facets w facets = foldl put_facet (Encoder.uint32 w (length facets % 2 ^ 32)) facets

unfoldable pub encode_summary : RangeSummary → Bytes
unfolding put_facets
encode_summary v =
    let w = Encoder.byte [] v.prefix_length in
    let w1 = Encoder.uint64 w v.allocation_records in
    let w2 = Encoder.uint64 w1 v.routes in put_facets (put_facets w2 v.countries) v.asns

-- `for index := uint32(0); index < count; index++`
unfoldable pub facets_loop : ℕ → Reader (List Facet)
facets_loop zero = pure []
facets_loop (suc count) = do
  value ← Decoder.string
  number ← Decoder.uint64
  items ← facets_loop count
  pure (record { value = value; count = number } ∷ items)

-- The bound that the decoder puts on a count before it allocates.
unfoldable pub check_facets : ℕ → Reader (List Facet)
unfolding facets_loop
check_facets count =
    if ltb 1_000_000 count then (λ _. err (invalid_facet_count count)) else facets_loop count

-- One round of the loop over the two destinations.
unfoldable pub read_facets : Reader (List Facet)
unfolding check_facets
read_facets = do count ← Decoder.uint32; check_facets count

unfoldable pub summary_fields : Reader RangeSummary
unfolding read_facets
summary_fields = do
  prefix_length ← Decoder.byte
  allocation_records ← Decoder.uint64
  routes ← Decoder.uint64
  countries ← read_facets
  asns ← read_facets
  pure (record {
    prefix_length = prefix_length;
    allocation_records = allocation_records;
    routes = routes;
    countries = countries;
    asns = asns;
  })

unfoldable pub decode_summary : Bytes → Result RangeSummary
unfolding summary_fields
decode_summary value = complete summary_fields value
