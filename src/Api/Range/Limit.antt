-- ===== src/Api/Range/Limit.antt =====
-- internal/api/bbolt.go: a page of a range query is no longer than its limit.
use bgp_api.Base.{
  ℕ, ◌+◌, ◌-◌, ◌≤◌, ◌≡◌, sym, arith, Bytes, Bool, false, not, ◌&&◌, List, [], ◌∷◌, ◌++◌, length,
  length-append, length-take, ltb, ltb→lt, ltb→le, ◌==◌, if◌then◌else◌, Option, none, some,
  Bool-cases, inl, inr,
}
use bgp_api.Golang.Netip.{Texts}
use bgp_api.Ipkey.{ParsedRange}
use bgp_api.Api.Reply.{Reply, ok, err, invalid_range_cursor, ◌>>=◌}
use bgp_api.Api.Reply.Steps.{ok-injective, bind-ok}
use bgp_api.Api.Bucket.{Bucket, Tx}
use bgp_api.Api.Text.{must_parse_addr}
use bgp_api.Api.Range.Direct.{RangeIndexEntry, above, direct_range_entries}
use bgp_api.Api.Range.Cursor.{
  Base64, RangeKind, RangeCursor, range_cursor_covering, range_cursor_direct, decode_range_cursor,
}
use bgp_api.Api.Range.Page.{
  take_covering, RangeQuery, foreign_cursor, direct_part, full_page, last_page, cut_to,
  covering_part, covering_range_entries, range_buckets, page_of_buckets, checked_page, query_of,
  range_page_entries,
}

take_covering-length :
    (limit : ℕ) (cursor : RangeCursor) (taken es : List RangeIndexEntry)
    → length taken ≤ limit
    → length (take_covering limit cursor taken es).0 ≤ limit
unfolding take_covering
take_covering-length limit cursor taken [] h = h
take_covering-length limit cursor taken (e ∷ es) h =
    elim (Bool-cases (cursor.phase == range_cursor_covering && not (above e.key cursor.key))) [
      | inl skip ↦ simp (take_covering, skip) (take_covering-length limit cursor taken es h)
      | inr stay ↦ elim (Bool-cases (length taken == limit)) [
        | inl full ↦ simp (take_covering, stay, full) h
        | inr room ↦
            let more : length (taken ++ (e ∷ [])) ≤ limit =
              ground (arith, length-append taken (e ∷ []), room, h) in
            simp (take_covering, stay, room)
              (take_covering-length limit cursor (taken ++ (e ∷ [])) es more)
      ]
    ]

-- The result of a page.
abbrev Page : Type 0
Page = List RangeIndexEntry × Option Bytes

abbrev Within : ℕ → Page → Type 0
Within limit p = length p.0 ≤ limit

cut_length :
    (capacity : ℕ) (found : List RangeIndexEntry) → length (cut_to capacity found) ≤ capacity
cut_length capacity found = elim (Bool-cases (ltb capacity (length found))) [
  | inl e ↦ simp e (omega (arith, length-take capacity found, ltb→lt capacity (length found) e))
  | inr e ↦ simp e (ltb→le capacity (length found) e)
]

ok-Within : (limit : ℕ) (p q : Page) → ok p ≡ ok q → Within limit p → Within limit q
ok-Within limit p q e h = rw (sym (ok-injective p q e)) h

-- A page whose next cursor is made from a key that may be missing.
keyed-Within :
    (limit : ℕ) (m : Reply Bytes) (es : List RangeIndexEntry) (next : Bytes → Option Bytes)
    (p : Page)
    → length es ≤ limit
    → (m >>= λ key. ok (es, next key)) ≡ ok p
    → Within limit p
keyed-Within limit m es next p h e =
    let (key, em, ep) = bind-ok m (λ key. ok (es, next key)) p e in
    ok-Within limit (es, next key) p ep h

module _ (base64 : Base64) (q : RangeQuery) where
  full_page-Within :
      (entries found : List RangeIndexEntry) (p : Page)
      → length entries ≤ q.limit
      → full_page base64 q entries found ≡ ok p
      → Within q.limit p
  unfolding full_page
  full_page-Within entries found p h e = elim (Bool-cases (length found == 0)) [
    | inl z ↦ ok-Within q.limit (entries, none) p (simp (full_page, z) at e) h
    | inr z ↦ keyed-Within q.limit _ entries _ p h (simp (full_page, z) at e)
  ]

  last_page-Within :
      (page : List RangeIndexEntry) (more : Bool) (p : Page)
      → length page ≤ q.limit
      → last_page base64 q page more ≡ ok p
      → Within q.limit p
  unfolding last_page
  last_page-Within page more p h e = elim (Bool-cases (more && not (length page == 0))) [
    | inl z ↦ keyed-Within q.limit _ page _ p h (simp (last_page, z) at e)
    | inr z ↦ ok-Within q.limit (page, none) p (simp (last_page, z) at e) h
  ]

  direct_part-Within :
      (fuel : ℕ) (ctx : ℕ → Bool) (b : Bucket) (c : RangeCursor) (entries : List RangeIndexEntry)
      (p : Page)
      → length entries ≤ q.limit
      → direct_part base64 fuel ctx b q c entries ≡ ok p
      → Within q.limit p
  unfolding direct_part
  direct_part-Within fuel ctx b c entries p h e =
      let (found, ef, rest) =
        bind-ok
          (direct_range_entries fuel ctx b q.version q.start q.end
            (if c.phase == range_cursor_direct then some c.key else none)
            (q.limit - length entries + 1))
          _ p e in
      elim (Bool-cases (length entries == q.limit)) [
        | inl z ↦ full_page-Within entries found.0 p h (simp z at rest)
        | inr z ↦
            last_page-Within (entries ++ cut_to (q.limit - length entries) found.0) _ p
              (omega (
                arith,
                length-append entries (cut_to (q.limit - length entries) found.0),
                cut_length (q.limit - length entries) found.0,
                h,
              ))
              (simp z at rest)
      ]

  covering_part-Within :
      (fuel : ℕ) (ctx : ℕ → Bool) (tx : Tx) (b : Bucket) (c : RangeCursor)
      (r : List RangeIndexEntry × Bool)
      → covering_part fuel ctx tx b q c ≡ ok r
      → length r.0 ≤ q.limit
  unfolding covering_part
  covering_part-Within fuel ctx tx b c r e = elim (Bool-cases (c.phase == range_cursor_direct)) [
    | inl z ↦
        let same : ok ([], false) ≡ ok r = simp (covering_part, z) at e in
        rw (sym (ok-injective ([], false) r same)) (omega arith)
    | inr z ↦
        let e' : (covering_range_entries fuel ctx tx b q.kind q.version q.start >>= λ covering.
        ok (take_covering q.limit c [] covering))
            ≡ ok r =
          simp (covering_part, z) at e in
        let (covering, ec, er) =
          bind-ok (covering_range_entries fuel ctx tx b q.kind q.version q.start)
            (λ (covering : List RangeIndexEntry). ok (take_covering q.limit c [] covering)) r e' in
        rw (sym (ok-injective (take_covering q.limit c [] covering) r er))
          (take_covering-length q.limit c [] covering (omega arith))
  ]

  page_of_buckets-Within :
      (fuel : ℕ) (ctx ctx' : ℕ → Bool) (tx : Tx) (c : RangeCursor)
      (buckets : Option Bucket × Option Bucket) (p : Page)
      → page_of_buckets base64 fuel ctx ctx' tx q c buckets ≡ ok p
      → Within q.limit p
  unfolding page_of_buckets
  page_of_buckets-Within fuel ctx ctx' tx c (none, ranges) p e = absurd (cc)
  page_of_buckets-Within fuel ctx ctx' tx c (some points, none) p e = absurd (cc)
  page_of_buckets-Within fuel ctx ctx' tx c (some points, some ranges) p e =
      let (covering, ec, rest) = bind-ok (covering_part fuel ctx tx points q c) _ p e in
      let h = covering_part-Within fuel ctx tx points c covering ec in
      elim (Bool-cases covering.1) [
        | inl z ↦ keyed-Within q.limit _ covering.0 _ p h (simp z at rest)
        | inr z ↦ direct_part-Within fuel ctx' ranges c covering.0 p h (simp z at rest)
      ]

  checked_page-Within :
      (fuel : ℕ) (ctx ctx' : ℕ → Bool) (tx : Tx) (c : RangeCursor) (p : Page)
      → checked_page base64 fuel ctx ctx' tx q c ≡ ok p
      → Within q.limit p
  checked_page-Within fuel ctx ctx' tx c p e = elim (Bool-cases (foreign_cursor q c)) [
    | inl z ↦ let bad : err invalid_range_cursor ≡ ok p = simp z at e in absurd (cc)
    | inr z ↦ page_of_buckets-Within fuel ctx ctx' tx c (range_buckets tx q.kind) p (simp z at e)
  ]

bind-Within :
    {A : Type 0} (limit : ℕ) (m : Reply A) (f : A → Reply Page) (p : Page)
    → ((a : A) → f a ≡ ok p → Within limit p)
    → (m >>= f) ≡ ok p
    → Within limit p
bind-Within limit m f p h e = let (a, em, ea) = bind-ok m f p e in h a ea

-- A page of a range query has no more entries than its limit, whatever the dataset holds and whichever
-- cursor it starts from.
pub range_page_entries-limit :
    (texts : Texts) (base64 : Base64) (fuel : ℕ) (ctx ctx' : ℕ → Bool) (tx : Tx)
    (value : ParsedRange) (kind : RangeKind) (text : Bytes) (limit : ℕ)
    (entries : List RangeIndexEntry) (next : Option Bytes)
    → range_page_entries texts base64 fuel ctx ctx' tx value kind text limit ≡ ok (entries, next)
    → length entries ≤ limit
unfolding range_page_entries
range_page_entries-limit texts base64 fuel ctx ctx' tx value kind text limit entries next =
    bind-Within limit (decode_range_cursor base64 text) _ (entries, next)
      (λ cursor.
        bind-Within limit (must_parse_addr texts value.start.canonical) _ (entries, next)
          (λ start.
            bind-Within limit (must_parse_addr texts value.end.canonical) _ (entries, next)
              (λ end.
                checked_page-Within base64 (query_of kind value.version start end limit) fuel ctx
                  ctx' tx cursor (entries, next))))
