-- ===== src/Api/Requests.antt =====
-- internal/api/api.go: what a request asks for.
pub mod Bounds
use bgp_api.Base.{
  ℕ, ◌^◌, ◌-◌, Bytes, Bool, true, false, not, ◌&&◌, ◌||◌, List, [], ◌∷◌, length, ltb, leb, ◌==◌,
  if◌then◌else◌, Option, none, some,
}
use bgp_api.Golang.ByteSlice.{bytes_equal, compare_bytes}
use bgp_api.Golang.Text.{trim_space, to_upper, trim_prefix, natural, parse_uint, codes}
use bgp_api.Api.Types.{Page, RangePage}
use bgp_api.Api.Range.Cursor.{RangeKind, range_allocations, range_routes, no_kind}

-- url.Values.Get, empty for a parameter that is absent.
abbrev pub Query : Type 0
Query = Bytes → Bytes

-- What writeError and writeJSONBytes write: a status with an error's code, or a status with a body. An
-- error's message is left out.
pub data Response : Type 0 where
  failure : ℕ → Bytes → Response
  body : ℕ → Bytes → Response

pub data Checked (A : Type 0) : Type 0 where
  accepted : A → Checked A
  refused : ℕ → Bytes → Checked A

abbrev bad_request : {A : Type 0} → Bytes → Checked A
bad_request code = refused 400 code

-- A parameter that is absent or a number from `low` to `high`, which is below 2 ^ 63.
unfoldable pub number_within : ℕ → ℕ → ℕ → Bytes → Bytes → Checked ℕ
unfolding natural
number_within low high default code raw =
    if length raw == 0 then accepted default else elim (natural raw) [
      | none ↦ bad_request code
      | some n ↦ if ltb n low || ltb high n then bad_request code else accepted n
    ]

abbrev pub page_with : ℕ → Checked ℕ → Checked Page
page_with limit (refused status code) = refused status code
page_with limit (accepted cursor) =
    accepted (record { cursor = cursor; limit = limit; number = 0; numbered = false })

unfoldable pub request_page : Query → Checked Page
request_page query = elim (number_within 1 100 50 (codes "INVALID_LIMIT") (query (codes "limit"))) [
  | refused status code ↦ refused status code
  | accepted limit ↦
      page_with limit
        (number_within 0 (2 ^ 63 - 1) 0 (codes "INVALID_CURSOR") (query (codes "cursor")))
]

unfoldable pub request_range_page : Query → Checked RangePage
request_range_page query =
    elim (number_within 1 100 50 (codes "INVALID_LIMIT") (query (codes "limit"))) [
      | refused status code ↦ refused status code
      | accepted limit ↦
          if ltb 256 (length (query (codes "cursor")))
          then bad_request (codes "INVALID_CURSOR")
          else accepted (record { cursor = query (codes "cursor"); limit = limit })
    ]

abbrev pub with_number : Page → Checked ℕ → Checked Page
with_number page (refused status code) = refused status code
with_number page (accepted number) = accepted (record page { number = number; numbered = true })

unfoldable pub request_asn_page : Query → Checked Page
request_asn_page query = elim (request_page query) [
  | refused status code ↦ refused status code
  | accepted page ↦
      if length (query (codes "page")) == 0
      then accepted page
      else if not (length (query (codes "cursor")) == 0)
      then bad_request (codes "INVALID_PAGINATION")
      else with_number page (number_within 1 100000 1 (codes "INVALID_PAGE") (query (codes "page")))
]

unfoldable pub parse_asn : Bytes → Option ℕ
unfolding trim_space to_upper trim_prefix parse_uint
parse_asn input = elim (parse_uint (trim_prefix (to_upper (trim_space input)) (codes "AS")) 32) [
  | none ↦ none
  | some number ↦ if number == 0 then none else some number
]

-- `true` stands for `details=full`.
unfoldable pub lookup_options : Query → Checked Bool
unfolding trim_space compare_bytes
lookup_options query =
    let details = trim_space (query (codes "details")) in
    if length details == 0
    then accepted false
    else if not (bytes_equal details (codes "full"))
    then bad_request (codes "INVALID_DETAILS")
    else accepted true

-- The kind of a range query, absent for allocations.
unfoldable pub request_kind : Query → Checked RangeKind
unfolding compare_bytes
request_kind query =
    let kind = query (codes "kind") in
    if length kind == 0 || bytes_equal kind (codes "allocations")
    then accepted range_allocations
    else if bytes_equal kind (codes "routes")
    then accepted range_routes
    else bad_request (codes "INVALID_RANGE_KIND")
