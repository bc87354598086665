-- ===== src/Boltstore/Summaries.antt =====
-- internal/boltstore/build.go: the counts that the builder collects for the IPv4 prefixes of lengths 0,
-- 8 and 16, and the summaries of every prefix up to /16.
mod Runs
pub mod Ranking
pub mod TopTen
use Prim.Native.Nat.{compare, Ordering}
use bgp_api.Base.{
  ℕ, zero, suc, ◌+◌, ◌-◌, ◌*◌, ◌/◌, ◌%◌, ◌^◌, Bool, true, false, ◌&&◌, ◌||◌, Bytes, List, [], ◌∷◌,
  ◌++◌, length, take, drop, ltb, ◌==◌, if◌then◌else◌, Option, none, some,
}
use bgp_api.Golang.Binary.{uint32}
use bgp_api.Golang.BigInt.{fill_bytes}
use bgp_api.Golang.ByteSlice.{bytes_equal, compare_bytes, and_then}
use bgp_api.Golang.Netip.{v4, Prefix}
use bgp_api.Golang.Text.{trim_space, to_upper}
use bgp_api.Boltstore.Keys.{Address, prefix_key}
use bgp_api.Boltstore.Decoder.{Result}
use bgp_api.Boltstore.Summary.{Facet, RangeSummary}

-- A map from texts to counts, its entries in some order.
abbrev pub Counts : Type 0
Counts = List Facet

-- `values[value] += n` on uint64 counts
unfoldable pub increase : Counts → Bytes → ℕ → Counts
increase [] value n = record { value = value; count = n % 2 ^ 64 } ∷ []
increase (f ∷ fs) value n =
    let rest = increase fs value n in
    if bytes_equal f.value value then record f { count = (f.count + n) % 2 ^ 64 } ∷ fs else f ∷ rest

pub record SummaryAccumulator : Type 0 where
  pub allocations : ℕ
  pub routes : ℕ
  pub countries : Counts
  pub asns : Counts

abbrev pub empty_accumulator : SummaryAccumulator
empty_accumulator = record { allocations = 0; routes = 0; countries = []; asns = [] }

-- The map from a network and a length.
abbrev pub Summaries : Type 0
Summaries = ℕ → ℕ → Option SummaryAccumulator

abbrev pub or_empty : Option SummaryAccumulator → SummaryAccumulator
or_empty none = empty_accumulator
or_empty (some item) = item

-- One record counted in one item.
unfoldable pub count_record : SummaryAccumulator → Bool → Bytes → SummaryAccumulator
unfolding increase
count_record item true value = record item {
  routes = (item.routes + 1) % 2 ^ 64;
  asns = if length value == 0 then item.asns else increase item.asns value 1;
}
count_record item false value = record item {
  allocations = (item.allocations + 1) % 2 ^ 64;
  countries = if length value == 0 then item.countries else increase item.countries value 1;
}

-- `for bucket := first; bucket <= last; bucket++`
unfoldable pub bucket_loop : ℕ → ℕ → ℕ → Bool → Bytes → Summaries → Summaries
unfolding count_record
bucket_loop zero bucket len route value summaries = summaries
bucket_loop (suc rounds) bucket len route value summaries =
    let item = count_record (or_empty (summaries bucket len)) route value in
    bucket_loop rounds (bucket + 1) len route value
      (λ network l. if network == bucket && l == len then some item else summaries network l)

abbrev pub collect_length : ℕ → ℕ → ℕ → Bool → Bytes → Summaries → Summaries
collect_length len start end route value summaries =
    let first = start / 2 ^ (32 - len) in
    let last = end / 2 ^ (32 - len) in
    bucket_loop (last + 1 - first) first len route value summaries

unfoldable pub collect_summary : Summaries → Address → Address → ℕ → Bool → Bytes → Summaries
unfolding bucket_loop to_upper trim_space
collect_summary summaries start end version route value =
    let value' = to_upper (trim_space value) in
    let first = uint32 (drop 12 start) in
    let last = uint32 (drop 12 end) in
    if version == 4
    then collect_length 16 first last route value' (
        collect_length 8 first last route value'
          (collect_length 0 first last route value' summaries))
    else summaries

-- The order of the facets: the greater count first, then the lesser text.
unfoldable pub compare_facets : Facet → Facet → Ordering
unfolding compare_bytes
compare_facets left right =
    and_then (compare right.count left.count) (compare_bytes left.value right.value)

-- sort.Slice, whose result the order of the facets determines when no text appears twice.
unfoldable pub insert_facet : Facet → List Facet → List Facet
unfolding compare_facets
insert_facet f [] = f ∷ []
insert_facet f (g ∷ gs) =
    let rest = insert_facet f gs in
    elim (compare_facets f g) [ Ordering.gt ↦ g ∷ rest | _ ↦ f ∷ g ∷ gs ]

unfoldable pub sort_facets : List Facet → List Facet
unfolding insert_facet
sort_facets [] = []
sort_facets (f ∷ fs) = insert_facet f (sort_facets fs)

unfoldable pub ranked_facets : Counts → List Facet
unfolding sort_facets
ranked_facets values = take 10 (sort_facets values)

unfoldable pub summary_value : Option SummaryAccumulator → ℕ → RangeSummary
unfolding ranked_facets
summary_value none len = record {
  prefix_length = len;
  allocation_records = 0;
  routes = 0;
  countries = [];
  asns = [];
}
summary_value (some item) len = record {
  prefix_length = len;
  allocation_records = item.allocations;
  routes = item.routes;
  countries = ranked_facets item.countries;
  asns = ranked_facets item.asns;
}

abbrev pub add_facets : Counts → List Facet → Counts
add_facets counts [] = counts
add_facets counts (f ∷ fs) = add_facets (increase counts f.value f.count) fs

unfoldable pub merge_summary : SummaryAccumulator → RangeSummary → SummaryAccumulator
unfolding increase
merge_summary destination source = record {
  allocations = (destination.allocations + source.allocation_records) % 2 ^ 64;
  routes = (destination.routes + source.routes) % 2 ^ 64;
  countries = add_facets destination.countries source.countries;
  asns = add_facets destination.asns source.asns;
}

-- `for child := first; child < first+childCount; child++`
unfoldable pub merge_children : ℕ → ℕ → ℕ → Summaries → SummaryAccumulator → SummaryAccumulator
unfolding merge_summary summary_value
merge_children zero child len summaries merged = merged
merge_children (suc rounds) child len summaries merged =
    merge_children rounds (child + 1) len summaries
      (merge_summary merged (summary_value (summaries child len) len))

unfoldable pub summary_for_prefix : Summaries → ℕ → ℕ → RangeSummary
unfolding merge_children summary_value
summary_for_prefix summaries network len =
    let child_len = if ltb 8 len then 16 else 8 in
    let children = 2 ^ (child_len - len) in
    if len == 0 || len == 8 || len == 16
    then summary_value (summaries network len) len
    else summary_value
        (some (merge_children children (network * children) child_len summaries empty_accumulator))
        len

unfoldable pub summary_prefix : ℕ → ℕ → Prefix
unfolding fill_bytes
summary_prefix network len = record {
  addr = v4 (fill_bytes 4 (network * 2 ^ (32 - len) % 2 ^ 32));
  bits = len;
}

-- writeMaterializedSummary: the keys and summaries in the order in which they are put, for a prefix of
-- length 16 - `below`.
unfoldable pub materialized : ℕ → Summaries → ℕ → List (Result Bytes × RangeSummary)
unfolding summary_for_prefix summary_prefix prefix_key
materialized zero summaries network =
    (prefix_key (summary_prefix network 16), summary_for_prefix summaries network 16) ∷ []
materialized (suc below) summaries network =
    (
      prefix_key (summary_prefix network (15 - below)),
      summary_for_prefix summaries network (15 - below),
    )
    ∷ (materialized below summaries (network * 2) ++ materialized below summaries (network * 2 + 1))
