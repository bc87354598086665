-- ===== src/Api/Asn.antt =====
-- internal/api/bbolt.go: the lookup of an AS number, whose routes come in pages.
use bgp_api.Golang.Netip.{Texts}
pub mod Ids
pub mod Pages
use bgp_api.Base.{
  ℕ, zero, suc, ◌+◌, ◌-◌, ◌*◌, ◌/◌, ◌%◌, ◌^◌, Bytes, Bool, true, false, not, ◌&&◌, List, [], ◌∷◌,
  ◌++◌, length, take, drop, ltb, ◌==◌, if◌then◌else◌, Option, none, some,
}
use bgp_api.Golang.Int64.{int64, int64_less}
use bgp_api.Golang.Decimal.{decimal}
use bgp_api.Golang.Binary.{uint32}
use bgp_api.Golang.Text.{codes}
use bgp_api.Boltstore.Keys.{asn_key, id_key_size}
use bgp_api.Boltstore.Record.{Autnum, decode_autnum}
use bgp_api.Api.Reply.{
  autnums, asn_routes, Reply, ok, err, panic, cancelled, invalid_asn_routes, ◌>>=◌, of_result,
}
use bgp_api.Api.Bucket.{Bucket, Tx, bucket, key_of}
use bgp_api.Api.Records.{route_by_id}
use bgp_api.Api.Types.{Page, AutnumObject, RouteObject, RoutePage, AsnResponse}
use bgp_api.Api.Objects.{route_object, autnum_object, route_page}

-- The ID at a place of the list.
unfoldable pub id_at : Bytes → ℕ → ℕ
id_at raw index = uint32 (drop (index * id_key_size) raw)

-- sort.Search: the least index from `low` to `high` where the test holds, if it goes on holding; `count`
-- bounds the rounds, of which each halves the distance.
unfoldable pub search : ℕ → (ℕ → Bool) → ℕ → ℕ → ℕ
search zero test low high = low
search (suc count) test low high =
    let middle = (low + high) / 2 in
    if ltb low high
    then search count test (if test middle then low else middle + 1)
        (if test middle then middle else high)
    else low

-- `int64(page.Number-1) * int64(page.Limit)`; a page's limit and number are not negative here.
abbrev pub start_of_page : Page → ℕ
start_of_page page = int64 (int64 (page.number + (2 ^ 64 - 1)) * page.limit)

-- The indexes of the page, words of Golang.Int64: the first one, and the one behind the last.
unfoldable pub page_start : Bytes → ℕ → Page → ℕ
unfolding search id_at
page_start raw total page =
    if page.numbered
    then (if int64_less (start_of_page page) total then start_of_page page else total)
    else if ltb 0 page.cursor
    then search (suc total) (λ index. ltb page.cursor (id_at raw index)) 0 total
    else 0

unfoldable pub page_end : ℕ → ℕ → Page → ℕ
page_end total start page =
    let end =
      if page.numbered then int64 (start + page.limit) else int64 (start + page.limit + 1) in
    if int64_less total end then total else end

-- `rawIDs[index*IDKeySize:]` and the ID there: an offset that is negative or too near the end panics.
unfoldable pub id_in : Bytes → ℕ → Reply ℕ
unfolding id_at
id_in raw index =
    let offset = int64 (index * id_key_size) in
    if ltb (length raw) (offset + id_key_size) then panic else ok (uint32 (drop offset raw))

-- How often `index < end` holds as the index grows from `start`.
abbrev pub index_rounds : ℕ → ℕ → ℕ
index_rounds start end = if int64_less start end then int64 (end + 2 ^ 64 - start) else 0

module _ (texts : Texts) where
  -- `for index := start; index < end; index++`, which counts the rounds.
  unfoldable pub routes_loop : (ℕ → Bool) → Tx → Bytes → ℕ → ℕ → Reply (List RouteObject)
  unfolding ◌>>=◌ route_object id_in
  routes_loop ctx tx raw index zero = ok []
  routes_loop ctx tx raw index (suc rounds) =
      let rest = routes_loop ctx tx raw (int64 (index + 1)) rounds in
      if ctx index then err cancelled else (do
        id ← id_in raw index
        record' ← route_by_id tx id
        routes ← rest
        ok (route_object texts id record' ∷ routes))

  abbrev pub read_autnum : Option Bytes → Reply (Option AutnumObject)
  read_autnum none = ok none
  read_autnum (some raw) = do
    record' ← of_result (decode_autnum raw)
    ok (some (autnum_object texts record'))

  -- The routes of the page and the number of all the routes.
  unfoldable pub asn_routes_page : (ℕ → Bool) → Tx → Bytes → Page → Reply (List RouteObject × ℕ)
  unfolding ◌>>=◌
  asn_routes_page ctx tx raw page =
      if not (length raw % id_key_size == 0)
      then err invalid_asn_routes
      else (let total = length raw / id_key_size in
          let start = page_start raw total page in
          do
            routes ← routes_loop ctx tx raw start (index_rounds start (page_end total start page))
            ok (routes, total))

  -- The numbered page, or the page up to the next cursor.
  unfoldable pub asn_page : Page → List RouteObject → ℕ → Reply RoutePage
  unfolding ◌>>=◌ route_page
  asn_page page routes total =
      if page.numbered
      then (if page.limit == 0
          then panic
          else ok (record {
            items = routes;
            next_cursor = none;
            page = page.number;
            total_pages = (total + page.limit - 1) / page.limit;
            total_items = total;
          }))
      else (do
        cut ← route_page routes page.limit
        ok (record {
          items = cut.0;
          next_cursor = cut.1;
          page = 0;
          total_pages = 0;
          total_items = 0;
        }))

  abbrev pub answers : Option AutnumObject → ℕ → Bool
  answers none total = not (total == 0)
  answers (some a) total = true

  unfoldable pub lookup_asn : (ℕ → Bool) → Tx → ℕ → Page → Reply (Option AsnResponse)
  unfolding ◌>>=◌ decimal bucket asn_routes_page asn_page autnum_object of_result
  lookup_asn ctx tx asn page = do
    identities ← bucket tx autnums
    autnum ← read_autnum (identities.get (asn_key asn))
    lists ← bucket tx asn_routes
    found ← asn_routes_page ctx tx (key_of (lists.get (asn_key asn))) page
    (if answers autnum found.1
        then (do
          routes ← asn_page page found.0 found.1
          ok (
              some (record {
                meta = none;
                asn = codes "AS" ++ decimal asn;
                as_number = asn;
                autnum = autnum;
                routes = routes;
              })))
        else ok none)
