-- ===== src/Api/Resources.antt =====
-- internal/api/bbolt.go: the lookups of a prefix and of a range.
use Prim.Native.Nat.{Ordering}
use bgp_api.Base.{
  ℕ, ◌+◌, Bytes, Bool, true, false, not, ◌&&◌, ◌||◌, List, [], ◌∷◌, length, take, ltb, ◌==◌,
  if◌then◌else◌, Option, none, some,
}
use bgp_api.Golang.ByteSlice.{compare_bytes, bytes_equal}
use bgp_api.Golang.Netip.{Texts, Addr, v4, v6, clear_from, Prefix}
use bgp_api.Golang.Text.{codes}
use bgp_api.Boltstore.Keys.{Address, address_from_addr}
use bgp_api.Boltstore.Record.{Allocation}
use bgp_api.Ipkey.{ParsedPrefix, ParsedRange}
use bgp_api.Api.Reply.{allocation_index, route_index, Reply, ok, ◌>>=◌, for_each}
use bgp_api.Api.Bucket.{Tx, bucket}
use bgp_api.Api.Text.{must_parse_addr}
use bgp_api.Api.Records.{allocation_by_id, route_by_id}
use bgp_api.Api.Matching.{matching_ip_ids, overlap_ids}
use bgp_api.Api.Range.Direct.{RangeIndexEntry, above}
use bgp_api.Api.Range.Cursor.{Base64, RangeKind, range_allocations}
use bgp_api.Api.Range.Page.{range_page_entries}
use bgp_api.Api.Types.{
  Page, RangePage, AllocationObject, RouteObject, PrefixResponse, RangeResponse,
}
use bgp_api.Api.Objects.{
  record_prefix, allocation_object, route_object, route_page, prefix_descriptor, range_descriptor,
}

-- The allocation that has been selected so far, with its ID.
pub record SelectedAllocation : Type 0 where
  pub id : ℕ
  pub allocation : Allocation

-- An allocation that starts later, or starts there and ends earlier, or has the same bounds and a lower
-- ID.
unfoldable pub takes_over : ℕ → Allocation → SelectedAllocation → Bool
unfolding compare_bytes
takes_over id a s = elim (compare_bytes a.start s.allocation.start) [
  | Ordering.gt ↦ true
  | Ordering.lt ↦ false
  | Ordering.eq ↦ elim (compare_bytes a.end s.allocation.end) [
    | Ordering.lt ↦ true
    | Ordering.gt ↦ false
    | Ordering.eq ↦ ltb id s.id
  ]
]

abbrev pub select : ℕ → Allocation → Option SelectedAllocation → Option SelectedAllocation
select id a none = some (record { id = id; allocation = a })
select id a (some s) =
    if s.id == 0 || takes_over id a s then some (record { id = id; allocation = a }) else some s

abbrev pub covers : Address → Address → Allocation → Bool
covers start end a = not (above a.start start) && not (above end a.end)

unfoldable pub covering_allocation_loop :
    Tx → Address → Address → List ℕ → Option SelectedAllocation → Reply (Option SelectedAllocation)
unfolding ◌>>=◌ above takes_over
covering_allocation_loop tx start end [] selected = ok selected
covering_allocation_loop tx start end (id ∷ ids) selected = do
  a ← allocation_by_id tx id
  covering_allocation_loop tx start end ids
      (if covers start end a then select id a selected else selected)

-- netip.Prefix.Contains, which is false for an address with a zone.
unfoldable pub contains : Prefix → Addr → Bool
unfolding clear_from compare_bytes
contains p a = contains_bytes p.addr a p.bits
  where
    contains_bytes : Addr → Addr → ℕ → Bool
    contains_bytes (v4 network) (v4 bytes) bits =
        bytes_equal (clear_from bits network) (clear_from bits bytes)
    contains_bytes (v6 network zone) (v6 bytes []) bits =
        bytes_equal (clear_from bits network) (clear_from bits bytes)
    contains_bytes (v6 network zone) (v6 bytes (z ∷ zs)) bits = false
    contains_bytes (v4 network) (v6 bytes zone) bits = false
    contains_bytes (v6 network zone) (v4 bytes) bits = false

module _ (texts : Texts) where
  unfoldable pub covering_allocation :
      ℕ → (ℕ → Bool) → Tx → ParsedPrefix → Reply (Option AllocationObject)
  unfolding ◌>>=◌ covering_allocation_loop allocation_object
  covering_allocation fuel ctx tx prefix = do
    index ← bucket tx allocation_index
    start ← must_parse_addr texts prefix.start.canonical
    end ← must_parse_addr texts prefix.end.canonical
    ids ← matching_ip_ids fuel ctx index start 0
    selected ←
        covering_allocation_loop tx (address_from_addr start) (address_from_addr end) ids none
    ok (elim selected [
      | none ↦ none
      | some s ↦ if s.id == 0 then none else some (allocation_object texts s.id s.allocation)
    ])

  unfoldable pub route_prefix_contains : Bytes → ParsedPrefix → Reply Bool
  unfolding ◌>>=◌ contains
  route_prefix_contains route query = elim (texts.parse_prefix route) [
    | none ↦ ok false
    | some prefix ↦ do
      start ← must_parse_addr texts query.start.canonical
      end ← must_parse_addr texts query.end.canonical
      ok (contains prefix start && contains prefix end)
  ]

  -- A route of the overlap with how it relates to the prefix.
  unfoldable pub related_route : Tx → ParsedPrefix → ℕ → Reply RouteObject
  unfolding ◌>>=◌ compare_bytes route_object
  related_route tx prefix id = do
    record' ← route_by_id tx id
    relation ←
        (if bytes_equal (record_prefix texts record') prefix.canonical
          then ok (codes "exact")
          else (do
            covering ← route_prefix_contains (record_prefix texts record') prefix
            ok (if covering then codes "covering" else codes "more_specific")))
    ok (record (route_object texts id record') { relation = relation })

  abbrev at_most : ℕ → List ℕ → List ℕ
  at_most n ids = if ltb n (length ids) then take n ids else ids

  -- LookupPrefix, with the slot held; the contexts are those of the three searches.
  unfoldable pub lookup_prefix :
      ℕ → (ℕ → Bool) → (ℕ → Bool) → (ℕ → Bool) → Tx → ParsedPrefix → Page → Reply PrefixResponse
  unfolding ◌>>=◌ for_each prefix_descriptor
  lookup_prefix fuel ctx exact inside tx prefix page = do
    allocation ← covering_allocation fuel ctx tx prefix
    index ← bucket tx route_index
    start ← must_parse_addr texts prefix.start.canonical
    end ← must_parse_addr texts prefix.end.canonical
    ids ← overlap_ids fuel exact inside index prefix.start.version start end page.cursor
    routes ← for_each (related_route tx prefix) (at_most (page.limit + 1) ids)
    cut ← route_page routes page.limit
    ok (record {
      meta = none;
      prefix = prefix_descriptor prefix;
      allocation = allocation;
      routes = record {
        items = cut.0;
        next_cursor = cut.1;
        page = 0;
        total_pages = 0;
        total_items = 0;
      };
    })

  abbrev allocation_entry : Tx → RangeIndexEntry → Reply AllocationObject
  allocation_entry tx entry = do
    record' ← allocation_by_id tx entry.id
    ok (allocation_object texts entry.id record')

  abbrev route_entry : Tx → RangeIndexEntry → Reply RouteObject
  route_entry tx entry = do
    record' ← route_by_id tx entry.id
    ok (route_object texts entry.id record')

  abbrev range_response :
      ParsedRange
      → RangeKind
      → Option Bytes
      → List AllocationObject
      → List RouteObject
      → RangeResponse
  range_response value kind next allocations routes = record {
    meta = none;
    range = range_descriptor value;
    kind = kind;
    mode = codes "records";
    summary = none;
    allocations = allocations;
    routes = routes;
    next_cursor = next;
  }

  abbrev of_entries :
      Tx → ParsedRange → RangeKind → List RangeIndexEntry → Option Bytes → Reply RangeResponse
  of_entries tx value range_allocations entries next = do
    objects ← for_each (allocation_entry tx) entries
    ok (range_response value range_allocations next objects [])
  of_entries tx value kind entries next = do
    objects ← for_each (route_entry tx) entries
    ok (range_response value kind next [] objects)

  -- LookupRange, with the slot held.
  unfoldable pub lookup_range :
      Base64
      → ℕ
      → (ℕ → Bool)
      → (ℕ → Bool)
      → Tx
      → ParsedRange
      → RangeKind
      → RangePage
      → Reply RangeResponse
  unfolding ◌>>=◌ for_each range_descriptor
  lookup_range base64 fuel ctx ctx' tx value kind page = do
    found ← range_page_entries texts base64 fuel ctx ctx' tx value kind page.cursor page.limit
    of_entries tx value kind found.0 found.1
