-- ===== src/Api/Range/Page.antt =====
-- internal/api/bbolt.go: a page of a range query, which has first the records that start before the
-- range and reach into it, and then the records that start inside it.
use bgp_api.Base.{
  ℕ, ◌+◌, ◌-◌, Bytes, Bool, true, false, not, ◌&&◌, ◌||◌, List, [], ◌∷◌, ◌++◌, length, get_or, take,
  replicate, ltb, ◌==◌, if◌then◌else◌, Option, none, some,
}
use bgp_api.Golang.ByteSlice.{compare_bytes, bytes_equal}
use bgp_api.Golang.Netip.{Texts, Addr}
use bgp_api.Boltstore.Keys.{
  Address, addr, address_from_addr, range_index_key_size, put_range_index_key,
  range_index_start_key,
}
use bgp_api.Boltstore.Build.{set_bits}
use bgp_api.Boltstore.Record.{Route}
use bgp_api.Ipkey.{ParsedRange}
use bgp_api.Api.Reply.{
  BucketName, allocation_index, allocation_range, route_index, route_range, Reply, ok, err, panic,
  invalid_range_cursor, missing_range_index, ◌>>=◌, of_result,
}
use bgp_api.Api.Bucket.{Bucket, Tx}
use bgp_api.Api.Text.{must_parse_addr}
use bgp_api.Api.Records.{allocation_by_id, route_by_id}
use bgp_api.Api.Matching.{matching_ip_ids}
use bgp_api.Api.Range.Direct.{RangeIndexEntry, above, direct_range_entries}
use bgp_api.Api.Range.Cursor.{
  Base64, RangeKind, range_allocations, range_routes, no_kind, RangeCursor, range_cursor_covering,
  range_cursor_direct, encode_range_cursor, decode_range_cursor,
}

unfoldable pub prefix_range_for_record : Route → Address × Address
unfolding set_bits
prefix_range_for_record r =
    let bits = if r.version == 4 then 32 else 128 in
    let offset = if r.version == 4 then 12 else 0 in
    (r.network, set_bits (bits - r.prefix_length) r.prefix_length offset r.network)

-- The version and the bounds of a record.
abbrev pub bounds_of : Tx → RangeKind → ℕ → Reply (ℕ × Address × Address)
bounds_of tx range_allocations id = do
  record' ← allocation_by_id tx id
  ok (record'.version, record'.start, record'.end)
bounds_of tx kind id = do
  record' ← route_by_id tx id
  ok (record'.version, (prefix_range_for_record record').0, (prefix_range_for_record record').1)

-- A record that does not start before the query, or ends before it, gives no entry.
unfoldable pub covering_range_entry : Tx → RangeKind → ℕ → Address → Reply (Option RangeIndexEntry)
unfolding compare_bytes ◌>>=◌ of_result
covering_range_entry tx kind id query_start = do
  bounds ← bounds_of tx kind id
  (if not (above query_start bounds.1) || above query_start bounds.2 then ok none else (do
    key ←
        of_result
          (put_range_index_key (replicate range_index_key_size 0) bounds.0 bounds.1 bounds.2 id)
    ok (some (record { id = id; key = key }))))

abbrev pub has_id : ℕ → List ℕ → Bool
has_id id [] = false
has_id id (i ∷ ids) = id == i || has_id id ids

abbrev pub onto : Option RangeIndexEntry → List RangeIndexEntry → List RangeIndexEntry
onto none entries = entries
onto (some entry) entries = entry ∷ entries

-- The loop in coveringRangeEntries, with the IDs seen so far.
unfoldable pub covering_loop :
    Tx → RangeKind → Address → List ℕ → List ℕ → Reply (List RangeIndexEntry)
unfolding covering_range_entry ◌>>=◌
covering_loop tx kind start seen [] = ok []
covering_loop tx kind start seen (id ∷ ids) =
    let rest = covering_loop tx kind start (if has_id id seen then seen else id ∷ seen) ids in
    if has_id id seen
    then rest
    else (do entry ← covering_range_entry tx kind id start; entries ← rest; ok (onto entry entries))

-- sort.Slice by the keys, which no two entries share.
unfoldable pub insert_entry : RangeIndexEntry → List RangeIndexEntry → List RangeIndexEntry
unfolding above
insert_entry e [] = e ∷ []
insert_entry e (f ∷ fs) =
    let rest = insert_entry e fs in if above e.key f.key then f ∷ rest else e ∷ f ∷ fs

unfoldable pub sort_entries : List RangeIndexEntry → List RangeIndexEntry
unfolding insert_entry
sort_entries [] = []
sort_entries (e ∷ es) = insert_entry e (sort_entries es)

unfoldable pub covering_range_entries :
    ℕ → (ℕ → Bool) → Tx → Bucket → RangeKind → ℕ → Address → Reply (List RangeIndexEntry)
unfolding covering_loop sort_entries ◌>>=◌
covering_range_entries fuel ctx tx point_index kind version start = do
  ids ← matching_ip_ids fuel ctx point_index (addr start version) 0
  entries ← covering_loop tx kind start [] ids
  ok (sort_entries entries)

-- The covering entries that the page takes; `true` if one more is left.
unfoldable pub take_covering :
    ℕ → RangeCursor → List RangeIndexEntry → List RangeIndexEntry → List RangeIndexEntry × Bool
unfolding above
take_covering limit cursor taken [] = (taken, false)
take_covering limit cursor taken (e ∷ es) =
    let skip = cursor.phase == range_cursor_covering && not (above e.key cursor.key) in
    let rest = take_covering limit cursor (if skip then taken else taken ++ (e ∷ [])) es in
    if skip then rest else if length taken == limit then (taken, true) else rest

-- `entries[len(entries)-1].key`
abbrev pub last_key : List RangeIndexEntry → Reply Bytes
last_key [] = panic
last_key (e ∷ []) = ok e.key
last_key (e ∷ f ∷ es) = last_key (f ∷ es)

-- What the parts of the function share.
pub record RangeQuery : Type 0 where
  pub kind : RangeKind
  pub version : ℕ
  pub start : Address
  pub end : Address
  pub limit : ℕ

abbrev pub cursor_at : RangeQuery → ℕ → Bytes → RangeCursor
cursor_at q phase key = record {
  phase = phase;
  kind = q.kind;
  query_start = q.start;
  query_end = q.end;
  key = key;
}

abbrev pub same_kind : RangeKind → RangeKind → Bool
same_kind range_allocations range_allocations = true
same_kind range_routes range_routes = true
same_kind no_kind no_kind = true
same_kind k l = false

-- A cursor of another query.
unfoldable pub foreign_cursor : RangeQuery → RangeCursor → Bool
unfolding compare_bytes
foreign_cursor q c =
    not (c.phase == 0)
    && (not (same_kind c.kind q.kind)
        || not (bytes_equal c.query_start q.start)
        || not (bytes_equal c.query_end q.end)
        || not (get_or c.key 0 0 == q.version))

-- A page that the covering entries fill.
unfoldable pub full_page :
    Base64
    → RangeQuery
    → List RangeIndexEntry
    → List RangeIndexEntry
    → Reply (List RangeIndexEntry × Option Bytes)
unfolding ◌>>=◌
full_page base64 q entries found = if length found == 0 then ok (entries, none) else (do
  first ← of_result (range_index_start_key (replicate range_index_key_size 0) q.version q.start)
  ok (entries, encode_range_cursor base64 (cursor_at q range_cursor_direct first)))

abbrev pub cut_to : ℕ → List RangeIndexEntry → List RangeIndexEntry
cut_to capacity found = if ltb capacity (length found) then take capacity found else found

unfoldable pub last_page :
    Base64 → RangeQuery → List RangeIndexEntry → Bool → Reply (List RangeIndexEntry × Option Bytes)
unfolding ◌>>=◌
last_page base64 q page more =
    if more && not (length page == 0)
    then (do
      key ← last_key page
      ok (page, encode_range_cursor base64 (cursor_at q range_cursor_direct key)))
    else ok (page, none)

-- The entries that start inside the range, behind the covering ones.
unfoldable pub direct_part :
    Base64
    → ℕ
    → (ℕ → Bool)
    → Bucket
    → RangeQuery
    → RangeCursor
    → List RangeIndexEntry
    → Reply (List RangeIndexEntry × Option Bytes)
unfolding ◌>>=◌
direct_part base64 fuel ctx range_index q cursor entries = do
  found ←
      direct_range_entries fuel ctx range_index q.version q.start q.end
        (if cursor.phase == range_cursor_direct then some cursor.key else none)
        (q.limit - length entries + 1)
  (if length entries == q.limit
      then full_page base64 q entries found.0
      else (let capacity = q.limit - length entries in
          last_page base64 q (entries ++ cut_to capacity found.0)
            (ltb capacity (length found.0) || found.1)))

-- The covering entries of the page, and `true` where it ends with one.
unfoldable pub covering_part :
    ℕ → (ℕ → Bool) → Tx → Bucket → RangeQuery → RangeCursor → Reply (List RangeIndexEntry × Bool)
unfolding ◌>>=◌
covering_part fuel ctx tx point_index q cursor =
    if cursor.phase == range_cursor_direct then ok ([], false) else (do
      covering ← covering_range_entries fuel ctx tx point_index q.kind q.version q.start
      ok (take_covering q.limit cursor [] covering))

abbrev pub point_index_name : RangeKind → BucketName
point_index_name range_allocations = allocation_index
point_index_name kind = route_index

abbrev pub range_index_name : RangeKind → BucketName
range_index_name range_allocations = allocation_range
range_index_name kind = route_range

unfoldable pub range_buckets : Tx → RangeKind → Option Bucket × Option Bucket
range_buckets tx kind = (tx (point_index_name kind), tx (range_index_name kind))

-- The page of a query whose cursor has been read; `ctx` is the context in the search for the covering
-- records, and `ctx'` in the search for the others.
unfoldable pub page_of_buckets :
    Base64
    → ℕ
    → (ℕ → Bool)
    → (ℕ → Bool)
    → Tx
    → RangeQuery
    → RangeCursor
    → Option Bucket × Option Bucket
    → Reply (List RangeIndexEntry × Option Bytes)
unfolding ◌>>=◌
page_of_buckets base64 fuel ctx ctx' tx q cursor (none, ranges) = err missing_range_index
page_of_buckets base64 fuel ctx ctx' tx q cursor (some point_index, none) = err missing_range_index
page_of_buckets base64 fuel ctx ctx' tx q cursor (some point_index, some range_index) = do
  covering ← covering_part fuel ctx tx point_index q cursor
  (if covering.1
      then (do
        key ← last_key covering.0
        ok (covering.0, encode_range_cursor base64 (cursor_at q range_cursor_covering key)))
      else direct_part base64 fuel ctx' range_index q cursor covering.0)

abbrev pub checked_page :
    Base64
    → ℕ
    → (ℕ → Bool)
    → (ℕ → Bool)
    → Tx
    → RangeQuery
    → RangeCursor
    → Reply (List RangeIndexEntry × Option Bytes)
checked_page base64 fuel ctx ctx' tx q cursor =
    if foreign_cursor q cursor
    then err invalid_range_cursor
    else page_of_buckets base64 fuel ctx ctx' tx q cursor (range_buckets tx q.kind)

abbrev pub query_of : RangeKind → ℕ → Addr → Addr → ℕ → RangeQuery
query_of kind version start end limit = record {
  kind = kind;
  version = version;
  start = address_from_addr start;
  end = address_from_addr end;
  limit = limit;
}

unfoldable pub range_page_entries :
    Texts
    → Base64
    → ℕ
    → (ℕ → Bool)
    → (ℕ → Bool)
    → Tx
    → ParsedRange
    → RangeKind
    → Bytes
    → ℕ
    → Reply (List RangeIndexEntry × Option Bytes)
unfolding ◌>>=◌
range_page_entries texts base64 fuel ctx ctx' tx value kind text limit = do
  cursor ← decode_range_cursor base64 text
  start ← must_parse_addr texts value.start.canonical
  end ← must_parse_addr texts value.end.canonical
  checked_page base64 fuel ctx ctx' tx (query_of kind value.version start end limit) cursor
