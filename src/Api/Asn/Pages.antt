-- ===== src/Api/Asn/Pages.antt =====
-- internal/api/bbolt.go: the routes on the numbered pages of an AS number.
use native.Mathlib.Nat.{mul-le-mul}
use bgp_api.Base.{
  ℕ, zero, suc, ◌+◌, ◌-◌, ◌*◌, ◌/◌, ◌%◌, ◌^◌, ◌≤◌, ◌<◌, ◌≡◌, refl, ap, arith, Bytes, Bool, true,
  false, All, List, [], ◌∷◌, map, length, take, drop, ltb, ◌==◌, Bool-cases, inl, inr, ltb→lt,
  ltb→le, length-drop, if◌then◌else◌,
}
use bgp_api.Golang.Netip.{Texts}
use bgp_api.Boltstore.Keys.{encode_ids}
use bgp_api.Boltstore.Keys.RoundTrip.{length-encode_ids}
use bgp_api.Boltstore.Record.{Route}
use bgp_api.Api.Reply.{ok, ◌>>=◌}
use bgp_api.Api.Bucket.{Tx}
use bgp_api.Api.Records.{route_by_id}
use bgp_api.Api.Types.{Page, RouteObject}
use bgp_api.Api.Objects.{route_object}
use bgp_api.Api.Requests.Bounds.{IsPage}
use bgp_api.Golang.Int64.{int64, int64_less-ltb}
use bgp_api.Api.Asn.{
  start_of_page, page_start, page_end, index_rounds, routes_loop, asn_routes_page,
}
use bgp_api.Api.Asn.Ids.{
  All-drop, place_le, id_in-encode_ids, next_drop, at_index, drop_all, take-nil, slice_inside,
}

-- Where a numbered page starts, behind the pages before it, and where it ends.
abbrev front : Page → ℕ
front page = (page.number - 1) * page.limit

abbrev first_index : ℕ → Page → ℕ
first_index total page = if ltb (front page) total then front page else total

abbrev last_index : ℕ → Page → ℕ
last_index total page =
    if ltb total (first_index total page + page.limit)
    then total
    else first_index total page + page.limit

front_lt : (page : Page) → IsPage page → page.numbered ≡ true → front page < 2 ^ 62
front_lt page p h =
    let high : page.number - 1 ≤ 100000 = omega (arith, p.number_high h) in
    let whole : (page.number - 1) * page.limit ≤ 100000 * 100 = mul-le-mul high p.limit_high in
    omega arith

start_of_page-front :
    (page : Page) → IsPage page → page.numbered ≡ true → start_of_page page ≡ front page
start_of_page-front page p h =
    let low = p.number_low h in
    let high = p.number_high h in
    let less : (page.number + (2 ^ 64 - 1)) % 2 ^ 64 ≡ page.number - 1 = omega arith in
    rw less (omega (arith, front_lt page p h))

page_start-numbered :
    (raw : Bytes) (total : ℕ) (page : Page)
    → IsPage page
    → page.numbered ≡ true
    → total < 2 ^ 62
    → page_start raw total page ≡ first_index total page
unfolding page_start
page_start-numbered raw total page p h l =
    let small = front_lt page p h in
    let less = int64_less-ltb (front page) total (omega arith) (omega arith) in
    simp (page_start, h, start_of_page-front page p h, less) refl

first_index_le : (total : ℕ) (page : Page) → first_index total page ≤ total
first_index_le total page = ground arith

page_end-numbered :
    (total : ℕ) (page : Page)
    → IsPage page
    → page.numbered ≡ true
    → total < 2 ^ 62
    → page_end total (first_index total page) page ≡ last_index total page
unfolding page_end
page_end-numbered total page p h l =
    let start = first_index total page in
    let bound = first_index_le total page in
    let sum : int64 (start + page.limit) ≡ start + page.limit = omega (arith, p.limit_high) in
    let less =
      int64_less-ltb total (start + page.limit) (omega arith) (omega (arith, p.limit_high)) in
    simp (page_end, h, sum, less) refl

index_rounds-minus :
    (start end : ℕ) → start < 2 ^ 62 → end < 2 ^ 62 → index_rounds start end ≡ end - start
index_rounds-minus start end hs he =
    let less = int64_less-ltb start end (omega arith) (omega arith) in
    elim (Bool-cases (ltb start end)) [
      | inl below ↦
          let l = ltb→lt start end below in
          let d : (end + 2 ^ 64 - start) % 2 ^ 64 ≡ end - start = omega arith in
          simp (less, below, d) refl
      | inr above ↦
          let l = ltb→le start end above in
          let z : 0 ≡ end - start = omega arith in simp (less, above) z
    ]

-- The IDs of a numbered page, however far behind the end it starts.
page_slice :
    (ids : List ℕ) (page : Page)
    → take
        (last_index (length ids) page - first_index (length ids) page)
        (drop (first_index (length ids) page) ids)
      ≡ take page.limit (drop (front page) ids)
page_slice ids page = elim (Bool-cases (ltb (front page) (length ids))) [
  | inl e ↦ simp e (slice_inside ids (front page) page.limit (ltb→lt (front page) (length ids) e))
  | inr e ↦
      let far = ltb→le (front page) (length ids) e in
      simp
        (
          e,
          drop_all (length ids) ids (omega arith),
          drop_all (front page) ids far,
          take-nil {A = ℕ} page.limit,
        )
        (take-nil _)
]

module _ (texts : Texts) (ctx : ℕ → Bool) (tx : Tx) (record_of : ℕ → Route)
    (live : (n : ℕ) → ctx n ≡ false) where
  -- An ID that fits a uint32, and the record that the dataset has under it.
  abbrev Stored : ℕ → Type 0
  Stored id = (id < 2 ^ 32) × (route_by_id tx id ≡ ok (record_of id))

  abbrev object_of : ℕ → RouteObject
  object_of id = route_object texts id (record_of id)

  routes_loop-map :
      (raw : Bytes) (index rounds : ℕ) (ids : List ℕ)
      → All Stored ids
      → rounds ≤ length ids
      → length raw < 2 ^ 60
      → drop (index * 4) raw ≡ encode_ids ids
      → routes_loop texts ctx tx raw index rounds ≡ ok (map object_of (take rounds ids))
  unfolding routes_loop ◌>>=◌
  routes_loop-map raw index zero ids h le l e = refl
  routes_loop-map raw index (suc rounds) [] h le l e = absurd (omega arith)
  routes_loop-map raw index (suc rounds) (id ∷ ids) (s, h) le l e =
      let inside : index * 4 + 4 ≤ length raw = place_le raw index id ids e in
      let next : int64 (index + 1) ≡ suc index = omega arith in
      let rest =
        routes_loop-map raw (suc index) rounds ids h (omega arith) l
          (next_drop raw index id ids e) in
      simp
        (routes_loop, live index, id_in-encode_ids raw index id ids s.0 l e, next, s.1, rest, ◌>>=◌)
        refl

  last_index_le : (total : ℕ) (page : Page) → last_index total page ≤ total
  last_index_le total page = ground arith

  -- For an AS number whose list in the dataset has the given IDs, fewer than 2 ^ 32 and all of them
  -- stored, a numbered page with the bounds that a request's page has holds the routes of as many of the
  -- IDs as its limit says, behind those of the pages before it, and the number of all the IDs; while the
  -- context does not end.
  pub asn_routes_page_lem :
      (ids : List ℕ) (page : Page)
      → IsPage page
      → page.numbered ≡ true
      → length ids < 2 ^ 32
      → All Stored ids
      → asn_routes_page texts ctx tx (encode_ids ids) page
        ≡ ok (
          map object_of (take page.limit (drop ((page.number - 1) * page.limit) ids)),
          length ids,
        )
  unfolding asn_routes_page ◌>>=◌
  asn_routes_page_lem ids page p h few stored =
      let raw = encode_ids ids in
      let size = length-encode_ids ids in
      let whole : (length raw % 4 == 0) ≡ true = ground (arith, size) in
      let total : length raw / 4 ≡ length ids = omega (arith, size) in
      let start = first_index (length ids) page in
      let end = last_index (length ids) page in
      let below = first_index_le (length ids) page in
      let last = last_index_le (length ids) page in
      let rounds = index_rounds-minus start end (omega arith) (omega arith) in
      let loop =
        routes_loop-map raw start (end - start) (drop start ids) (All-drop Stored start ids stored)
          (omega (arith, length-drop start ids, last)) (omega (arith, size))
          (at_index ids start below) in
      simp
        (
          asn_routes_page,
          whole,
          total,
          page_start-numbered raw (length ids) page p h (omega arith),
          page_end-numbered (length ids) page p h (omega arith),
          rounds,
          loop,
          ◌>>=◌,
        )
        (ap (λ (l : List ℕ). ok (map object_of l, length ids)) (page_slice ids page))
