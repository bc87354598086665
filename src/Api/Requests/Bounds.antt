-- ===== src/Api/Requests/Bounds.antt =====
-- internal/api/api.go: the pages that a request may ask for.
use bgp_api.Base.{
  ℕ, ◌^◌, ◌-◌, ◌≤◌, ◌<◌, ◌≡◌, ◌⊎◌, inl, inr, refl, sym, arith, Bytes, true, false, length, ◌==◌,
  Bool-cases,
}
use bgp_api.Golang.Text.{codes}
use bgp_api.Api.Types.{Page}
use bgp_api.Api.Requests.{
  Query, Checked, accepted, refused, request_page, request_asn_page, number_within,
}

accepted-injective : {A : Type 0} (a b : A) → accepted a ≡ accepted b → a ≡ b
accepted-injective a b e = cc

number_within-bounds :
    (low high default : ℕ) (code raw : Bytes) (n : ℕ)
    → low ≤ default
    → default ≤ high
    → number_within low high default code raw ≡ accepted n
    → (low ≤ n) × (n ≤ high)
unfolding number_within
number_within-bounds low high default code raw n hl hh e = ground (arith, e)

Checked-cases :
    {A : Type 0} (c : Checked A)
    → ((a : A) × (c ≡ accepted a)) ⊎ ((status : ℕ) × (code : Bytes) × (c ≡ refused status code))
Checked-cases (accepted a) = inl (a, refl)
Checked-cases (refused status code) = inr (status, code, refl)

-- A page of one to a hundred items; a page number only from one to a hundred thousand and with no cursor,
-- which fits an int64.
pub record IsPage (page : Page) : Type 0 where
  pub limit_low : 1 ≤ page.limit
  pub limit_high : page.limit ≤ 100
  pub cursor_high : page.cursor < 2 ^ 63
  pub plain : page.numbered ≡ false → page.number ≡ 0
  pub number_low : page.numbered ≡ true → 1 ≤ page.number
  pub number_high : page.numbered ≡ true → page.number ≤ 100000

plain_page : ℕ → ℕ → Page
plain_page limit cursor = record { cursor = cursor; limit = limit; number = 0; numbered = false }

plain_page-IsPage :
    (limit cursor : ℕ)
    → 1 ≤ limit
    → limit ≤ 100
    → cursor < 2 ^ 63
    → IsPage (plain_page limit cursor)
unfolding plain_page
plain_page-IsPage limit cursor l h c = record {
  limit_low = l;
  limit_high = h;
  cursor_high = c;
  plain = λ e. refl;
  number_low = λ e. absurd (cc);
  number_high = λ e. absurd (cc);
}

request_page-IsPage :
    (query : Query) (page : Page)
    → request_page query ≡ accepted page
    → IsPage page × (page.numbered ≡ false)
unfolding request_page plain_page
request_page-IsPage query page e =
    elim (Checked-cases (number_within 1 100 50 (codes "INVALID_LIMIT") (query (codes "limit")))) [
      | inr (status, code, el) ↦
          let bad : refused status code ≡ accepted page = simp (request_page, el) at e in
          absurd (cc)
      | inl (limit, el) ↦
          elim (Checked-cases
            (number_within 0 (2 ^ 63 - 1) 0 (codes "INVALID_CURSOR") (query (codes "cursor")))) [
              | inr (status, code, ec) ↦
                  let bad : refused status code ≡ accepted page =
                    simp (request_page, el, ec) at e in
                  absurd (cc)
              | inl (cursor, ec) ↦
                  let same : accepted (plain_page limit cursor) ≡ accepted page =
                    simp (request_page, el, ec) at e in
                  let l = number_within-bounds 1 100 50 _ _ limit (omega arith) (omega arith) el in
                  let c =
                    number_within-bounds 0 (2 ^ 63 - 1) 0 _ _ cursor (omega arith) (omega arith)
                      ec in
                  rw (sym (accepted-injective _ _ same))
                    (plain_page-IsPage limit cursor l.0 l.1 (omega (arith, c)), refl)
            ]
    ]

with_number-IsPage :
    (page : Page) (number : ℕ)
    → IsPage page
    → 1 ≤ number
    → number ≤ 100000
    → IsPage (record page { number = number; numbered = true })
with_number-IsPage page number h l u = record {
  limit_low = h.limit_low;
  limit_high = h.limit_high;
  cursor_high = h.cursor_high;
  plain = λ e. absurd (cc);
  number_low = λ e. l;
  number_high = λ e. u;
}

-- A page that the request for an AS number is answered with has one to a hundred items, a cursor below
-- 2 ^ 63, and either no number or a number from one to a hundred thousand.
pub request_asn_page-IsPage :
    (query : Query) (page : Page) → request_asn_page query ≡ accepted page → IsPage page
unfolding request_asn_page
request_asn_page-IsPage query page e = elim (Checked-cases (request_page query)) [
  | inr (status, code, ep) ↦
      let bad : refused status code ≡ accepted page = simp (request_asn_page, ep) at e in
      absurd (cc)
  | inl (plain, ep) ↦ elim (Bool-cases (length (query (codes "page")) == 0)) [
    | inl z ↦
        let same : accepted plain ≡ accepted page = simp (request_asn_page, ep, z) at e in
        rw (sym (accepted-injective _ _ same)) (request_page-IsPage query plain ep).0
    | inr z ↦ elim (Bool-cases (length (query (codes "cursor")) == 0)) [
      | inr y ↦
          let bad : refused 400 (codes "INVALID_PAGINATION") ≡ accepted page =
            simp (request_asn_page, ep, z, y) at e in
          absurd (cc)
      | inl y ↦
          elim (Checked-cases
            (number_within 1 100000 1 (codes "INVALID_PAGE") (query (codes "page")))) [
              | inr (status, code, en) ↦
                  let bad : refused status code ≡ accepted page =
                    simp (request_asn_page, ep, z, y, en) at e in
                  absurd (cc)
              | inl (number, en) ↦
                  let same : accepted (record plain { number = number; numbered = true })
                      ≡ accepted page =
                    simp (request_asn_page, ep, z, y, en) at e in
                  let b =
                    number_within-bounds 1 100000 1 _ _ number (omega arith) (omega arith) en in
                  rw (sym (accepted-injective _ _ same))
                    (with_number-IsPage plain number (request_page-IsPage query plain ep).0 b.0 b.1)
            ]
    ]
  ]
]
