-- ===== src/Boltstore/Summary/RoundTrip.antt =====
-- internal/boltstore/store.go: a summary that was written is read back.
use mathlib.Core.List.{foldl}
use bgp_api.Base.{
  ℕ, ◌%◌, ◌≤◌, ◌^◌, ◌<◌, ◌≡◌, refl, ◌∙◌, arith, Bytes, List, [], ◌∷◌, ◌++◌, length, append_assoc,
  append-nil, All, le→ltb,
}
use bgp_api.Golang.Binary.{put_uint32, put_uint64}
use bgp_api.Boltstore.Encoder
use bgp_api.Boltstore.Decoder.{ok, Reader, ◌>>=◌}
use bgp_api.Boltstore.Decoder.Reads.{
  Reads, Reads-bind, Reads-map, Reads-pure, Reads-complete, reads, text, string_then, uint64_then,
  uint32_then,
}
use bgp_api.Boltstore.Summary.{
  Facet, RangeSummary, put_facet, encode_summary, facets_loop, check_facets, read_facets,
  summary_fields, decode_summary,
}

abbrev IsFacet : Facet → Type 0
IsFacet f = f.count < 2 ^ 64

abbrev facet_bytes : List Facet → Bytes
facet_bytes [] = []
facet_bytes (f ∷ fs) = text f.value ++ (put_uint64 f.count ++ facet_bytes fs)

put_facet_layout : (fs : List Facet) (w : Bytes) → foldl put_facet w fs ≡ w ++ facet_bytes fs
unfolding put_facet Encoder.string Encoder.uint64
put_facet_layout [] w = rw append-nil
put_facet_layout (f ∷ fs) w = put_facet_layout fs _ ∙ simp append_assoc

facets_loop-Reads :
    (fs : List Facet) → All IsFacet fs → Reads (facets_loop (length fs)) (facet_bytes fs) fs
unfolding facets_loop
facets_loop-Reads [] h = Reads-pure []
facets_loop-Reads (f ∷ fs) (hf, hfs) = string_then _ f.value (
    uint64_then _ f.count hf
      (Reads-map (λ items. f ∷ items) (f ∷ fs) (facets_loop-Reads fs hfs) refl))

-- The facets fit the decoder's bound, and their counts a uint64.
abbrev IsFacets : List Facet → Type 0
IsFacets fs = (length fs ≤ 1_000_000) × All IsFacet fs

pub record IsRangeSummary (v : RangeSummary) : Type 0 where
  pub allocation_records : v.allocation_records < 2 ^ 64
  pub routes : v.routes < 2 ^ 64
  pub countries : IsFacets v.countries
  pub asns : IsFacets v.asns

abbrev facets_bytes : List Facet → Bytes
facets_bytes fs = put_uint32 (length fs) ++ facet_bytes fs

read_facets-Reads : (fs : List Facet) → IsFacets fs → Reads read_facets (facets_bytes fs) fs
unfolding read_facets check_facets
read_facets-Reads fs (few, hfs) =
    uint32_then _ (length fs) (omega arith)
      (rw (le→ltb 1_000_000 (length fs) few) (facets_loop-Reads fs hfs))

facets_then :
    {B : Type 0} (k : List Facet → Reader B) {ys : Bytes} {b : B} (fs : List Facet)
    → IsFacets fs
    → Reads (k fs) ys b
    → Reads (read_facets >>= k) (facets_bytes fs ++ ys) b
facets_then k fs h p = Reads-bind k (read_facets-Reads fs h) p

small_mod : (n : ℕ) → n ≤ 1_000_000 → n % 2 ^ 32 ≡ n
small_mod n h = omega arith

summary_layout :
    (v : RangeSummary)
    → IsRangeSummary v
    → encode_summary v
      ≡ (v.prefix_length ∷ [])
        ++ (put_uint64 v.allocation_records
            ++ (put_uint64 v.routes ++ (facets_bytes v.countries ++ (facets_bytes v.asns ++ []))))
unfolding encode_summary Encoder.byte Encoder.uint64 Encoder.uint32
summary_layout v h =
    rw (put_facet_layout, put_facet_layout, small_mod _ h.countries.0, small_mod _ h.asns.0)
      (simp (append_assoc, append-nil))

summary-Reads : (v : RangeSummary) → IsRangeSummary v → Reads summary_fields (encode_summary v) v
unfolding summary_fields
summary-Reads v h = rw (summary_layout v h) (search (reads, facets_then) depth 20)

-- For a summary whose counts fit a uint64 and whose two facet lists have at most 1,000,000 facets,
-- and whose encoding is shorter than 2 ^ 63 bytes, DecodeSummary reads back from EncodeSummary's
-- bytes exactly that summary.
pub decode_summary-encode_summary :
    (v : RangeSummary)
    → IsRangeSummary v
    → length (encode_summary v) < 2 ^ 63
    → decode_summary (encode_summary v) ≡ ok v
unfolding decode_summary
decode_summary-encode_summary v h fits = Reads-complete summary_fields (summary-Reads v h) fits
