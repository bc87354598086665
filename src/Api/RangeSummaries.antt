-- ===== src/Api/RangeSummaries.antt =====
-- internal/api/bbolt.go: the summary of a range, which the dataset holds for canonical prefixes.
use Prim.Native.Nat.{Ordering}
use bgp_api.Base.{
  ℕ, ◌+◌, ◌%◌, ◌^◌, Bytes, Bool, true, false, not, List, [], ◌∷◌, length, take, ltb, ◌==◌,
  if◌then◌else◌, Option, none, some,
}
use bgp_api.Golang.ByteSlice.{compare_bytes, bytes_equal}
use bgp_api.Golang.Netip.{Texts}
use bgp_api.Golang.Text.{natural, codes}
use bgp_api.Boltstore.Keys.{prefix_key}
use bgp_api.Boltstore.Summary
use bgp_api.Boltstore.Summary.{Facet, decode_summary}
use bgp_api.Ipkey.{ParsedRange, summary_prefix_keys}
use bgp_api.Api.Reply.{
  range_summaries, Reply, ok, err, panic, cancelled, invalid_prefix, ineligible_range, ◌>>=◌,
  of_result,
}
use bgp_api.Api.Bucket.{Bucket, Tx, bucket}
use bgp_api.Api.Range.Cursor.{RangeKind}
use bgp_api.Api.Types.{RangeFacet, RangeResponse}
use bgp_api.Api.Objects.{range_descriptor}

-- A map from texts to int64 counts, which wrap around; no text stands twice.
unfoldable pub count_facet : List RangeFacet → Bytes → ℕ → List RangeFacet
unfolding compare_bytes
count_facet [] value n = record { value = value; record_count = n % 2 ^ 64 } ∷ []
count_facet (f ∷ fs) value n =
    let rest = count_facet fs value n in
    if bytes_equal f.value value
    then record f { record_count = (f.record_count + n) % 2 ^ 64 } ∷ fs
    else f ∷ rest

unfoldable pub count_facets : List RangeFacet → List Facet → List RangeFacet
unfolding count_facet
count_facets counts [] = counts
count_facets counts (f ∷ fs) = count_facets (count_facet counts f.value f.count) fs

-- An int64 that has been negative since 2 ^ 63 comes after the others.
abbrev pub signed_key : ℕ → ℕ
signed_key n = (n + 2 ^ 63) % 2 ^ 64

-- More records first, then the lower text.
unfoldable pub ranks_before : RangeFacet → RangeFacet → Bool
unfolding compare_bytes
ranks_before f g =
    if not (f.record_count == g.record_count)
    then ltb (signed_key g.record_count) (signed_key f.record_count)
    else elim (compare_bytes f.value g.value) [ Ordering.lt ↦ true | _ ↦ false ]

unfoldable pub insert_ranked : RangeFacet → List RangeFacet → List RangeFacet
unfolding ranks_before
insert_ranked f [] = f ∷ []
insert_ranked f (g ∷ gs) =
    let rest = insert_ranked f gs in if ranks_before g f then g ∷ rest else f ∷ g ∷ gs

unfoldable pub sort_ranked : List RangeFacet → List RangeFacet
unfolding insert_ranked
sort_ranked [] = []
sort_ranked (f ∷ fs) = insert_ranked f (sort_ranked fs)

unfoldable pub rank_facets : List RangeFacet → List RangeFacet
unfolding sort_ranked
rank_facets values =
    let items = sort_ranked values in if ltb 10 (length items) then take 10 items else items

-- What follows the last slash, if there is one.
unfoldable pub after_slash : Bytes → Option Bytes
after_slash [] = none
after_slash (c ∷ s) = elim (after_slash s) [
  | some rest ↦ some rest
  | none ↦ if c == b'/' then some s else none
]

abbrev number_or_zero : Option ℕ → ℕ
number_or_zero none = 0
number_or_zero (some n) = n

-- Atoi's zero where it fails; for a text that spells no negative number and none from 2 ^ 63 on.
unfoldable pub summary_bucket_length : Bytes → ℕ
unfolding after_slash natural
summary_bucket_length key = elim (after_slash key) [
  | none ↦ 0
  | some rest ↦ number_or_zero (natural rest)
]

pub record Totals : Type 0 where
  pub allocation_records : ℕ
  pub route_records : ℕ
  pub countries : List RangeFacet
  pub asns : List RangeFacet

abbrev pub no_totals : Totals
no_totals = record { allocation_records = 0; route_records = 0; countries = []; asns = [] }

abbrev add_summary : Totals → Summary.RangeSummary → Totals
add_summary t item = record {
  allocation_records = (t.allocation_records + item.allocation_records) % 2 ^ 64;
  route_records = (t.route_records + item.routes) % 2 ^ 64;
  countries = count_facets t.countries item.countries;
  asns = count_facets t.asns item.asns;
}

abbrev add_value : Totals → Option Bytes → Reply Totals
add_value t none = ok t
add_value t (some raw) = do item ← of_result (decode_summary raw); ok (add_summary t item)

module _ (texts : Texts) where
  -- `ctx` tells for a key whether the context has ended by then.
  unfoldable pub keys_loop : (Bytes → Bool) → Bucket → List Bytes → Totals → Reply Totals
  unfolding ◌>>=◌ count_facets of_result
  keys_loop ctx b [] t = ok t
  keys_loop ctx b (key ∷ keys) t =
      if ctx key then err cancelled else elim (texts.parse_prefix key) [
        | none ↦ err invalid_prefix
        | some prefix ↦ do
          raw ← of_result (prefix_key prefix)
          t' ← add_value t (b.get raw)
          keys_loop ctx b keys t'
      ]

  -- The response for the keys of the range, of which there is one at least.
  unfoldable pub summary_response :
      (Bytes → Bool) → Tx → ParsedRange → RangeKind → List Bytes → Reply RangeResponse
  unfolding ◌>>=◌ bucket keys_loop rank_facets summary_bucket_length range_descriptor
  summary_response ctx tx value kind [] = panic
  summary_response ctx tx value kind (key ∷ keys) = do
    b ← bucket tx range_summaries
    t ← keys_loop ctx b (key ∷ keys) no_totals
    ok (record {
      meta = none;
      range = range_descriptor value;
      kind = kind;
      mode = codes "summary";
      summary = some (record {
        aggregation = codes "overlapping_source_records";
        bucket_prefix_length = summary_bucket_length key;
        buckets = length (key ∷ keys);
        allocation_records = t.allocation_records;
        route_records = t.route_records;
        countries = rank_facets t.countries;
        asns = rank_facets t.asns;
      });
      allocations = [];
      routes = [];
      next_cursor = none;
    })

  unfoldable pub lookup_range_summary :
      (Bytes → Bool) → Tx → ParsedRange → RangeKind → Reply RangeResponse
  unfolding summary_response
  lookup_range_summary ctx tx value kind = elim (summary_prefix_keys texts value) [
    | none ↦ panic
    | some none ↦ err ineligible_range
    | some (some keys) ↦ summary_response ctx tx value kind keys
  ]
