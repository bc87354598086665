-- ===== src/Boltstore/Summary/Runs.antt =====
-- The value of a range summary at a concrete summary.
use bgp_api.Base.{◌≡◌, arith, [], ◌∷◌}
use bgp_api.Golang.Text.{codes}
use bgp_api.Golang.Binary.{put_uint32, put_uint64, uvarint_bytes, append_uvarint_loop}
use bgp_api.Boltstore.Encoder
use bgp_api.Boltstore.Decoder.{ok}
use bgp_api.Boltstore.Summary.{RangeSummary, put_facet, put_facets, encode_summary, decode_summary}
use bgp_api.Boltstore.Summary.RoundTrip.{decode_summary-encode_summary, IsRangeSummary}

abbrev test_summary : RangeSummary
test_summary = record {
  prefix_length = 16;
  allocation_records = 3;
  routes = 700;
  countries =
      record { value = codes "US"; count = 2 } ∷ record { value = codes "DE"; count = 1 } ∷ [];
  asns = record { value = codes "AS64496"; count = 700 } ∷ [];
}

test_summary-IsRangeSummary : IsRangeSummary test_summary
test_summary-IsRangeSummary = record {
  allocation_records = omega arith;
  routes = omega arith;
  countries = (omega arith, (omega arith, (omega arith, tt)));
  asns = (omega arith, (omega arith, tt));
}

decode_summary-encode_summary_example :
    decode_summary (encode_summary test_summary) ≡ ok test_summary
unfolding encode_summary put_facets put_facet Encoder.byte Encoder.uint32 Encoder.uint64
    Encoder.string put_uint32 put_uint64 uvarint_bytes append_uvarint_loop
decode_summary-encode_summary_example =
    decode_summary-encode_summary test_summary test_summary-IsRangeSummary (omega arith)
