-- ===== src/Api/Range/RoundTrip.antt =====
-- internal/api/bbolt.go: a range cursor is read back from its text.
use mathlib.Core.Option.{some-injective}
use bgp_api.Base.{
  ℕ, ◌≡◌, ◌≢◌, ◌⊎◌, refl, sym, ap, ◌∙◌, arith, Bytes, IsByte, true, false, All, All-append, [], ◌∷◌,
  ◌++◌, length, length-append, append_assoc, append-nil, take, drop, replicate, ◌==◌, some,
}
use bgp_api.Golang.ByteSlice.{write_at}
use bgp_api.Golang.ByteSlice.Write.{write_at_lem, take_exact, drop_exact}
use bgp_api.Boltstore.Keys.Order.{IsAddress}
use bgp_api.Api.Reply.{ok}
use bgp_api.Api.Range.Cursor.{
  Base64, IsBase64, RangeKind, range_allocations, range_routes, no_kind, RangeCursor,
  range_kind_value, range_kind_from_value, range_cursor_payload, encode_range_cursor, of_payload,
  is_phase, check_payload, decode_range_cursor,
}

pub record IsRangeCursor (c : RangeCursor) : Type 0 where
  pub phase : (c.phase ≡ 1) ⊎ (c.phase ≡ 2)
  pub kind : c.kind ≢ no_kind
  pub start : IsAddress c.query_start
  pub end : IsAddress c.query_end
  pub key_size : length c.key ≡ 37
  pub key_bytes : All IsByte c.key

abbrev layout : ℕ → ℕ → Bytes → Bytes → Bytes → Bytes
layout phase kind start end key = phase ∷ kind ∷ (start ++ (end ++ key))

first_writes :
    (phase kind : ℕ)
    → write_at 1 (kind ∷ []) (write_at 0 (phase ∷ []) (replicate 71 0))
      ≡ phase ∷ kind ∷ replicate 69 0
unfolding write_at
first_writes phase kind = refl

address_writes :
    (phase kind : ℕ) (start end : Bytes)
    → length start ≡ 16
    → length end ≡ 16
    → write_at 18 end (write_at 2 start (phase ∷ kind ∷ replicate 69 0))
      ≡ phase ∷ kind ∷ (start ++ (end ++ replicate 37 0))
address_writes phase kind start end hs he =
    ap (write_at 18 end)
      (write_at_lem 2 (phase ∷ kind ∷ []) (replicate 16 0) start (replicate 53 0) refl (sym hs))
    ∙ write_at_lem 18 (phase ∷ kind ∷ start) (replicate 16 0) end (replicate 37 0)
        (omega (arith, hs)) (sym he)

key_write :
    (phase kind : ℕ) (start end key : Bytes)
    → length start ≡ 16
    → length end ≡ 16
    → length key ≡ 37
    → write_at 34 key (phase ∷ kind ∷ (start ++ (end ++ replicate 37 0)))
      ≡ layout phase kind start end key
key_write phase kind start end key hs he hk =
    rw (← append_assoc start end (replicate 37 0), ← append_assoc start end key)
      (write_at_lem 34 (phase ∷ kind ∷ (start ++ end)) (replicate 37 0) key []
          (omega (arith, length-append start end, hs, he)) (sym hk)
        ∙ ap (λ t. phase ∷ kind ∷ ((start ++ end) ++ t)) (append-nil key))

range_cursor_payload_lem :
    (c : RangeCursor)
    → length c.query_start ≡ 16
    → length c.query_end ≡ 16
    → length c.key ≡ 37
    → range_cursor_payload c
      ≡ layout c.phase (range_kind_value c.kind) c.query_start c.query_end c.key
unfolding range_cursor_payload
range_cursor_payload_lem c hs he hk =
    ap (λ t. write_at 34 c.key (write_at 18 c.query_end (write_at 2 c.query_start t)))
      (first_writes c.phase (range_kind_value c.kind))
    ∙ ap (write_at 34 c.key)
        (address_writes c.phase (range_kind_value c.kind) c.query_start c.query_end hs he)
    ∙ key_write c.phase (range_kind_value c.kind) c.query_start c.query_end c.key hs he hk

range_kind_from_value-range_kind_value :
    (kind : RangeKind) → kind ≢ no_kind → range_kind_from_value (range_kind_value kind) ≡ kind
unfolding range_kind_from_value range_kind_value
range_kind_from_value-range_kind_value range_allocations h = refl
range_kind_from_value-range_kind_value range_routes h = refl
range_kind_from_value-range_kind_value no_kind h = absurd (h refl)

-- The cursor of five parts.
abbrev cursor_of : ℕ → RangeKind → Bytes → Bytes → Bytes → RangeCursor
cursor_of phase kind start end key = record {
  phase = phase;
  kind = kind;
  query_start = start;
  query_end = end;
  key = key;
}

module _ (phase kv : ℕ) (start end key : Bytes) (hs : length start ≡ 16)
    (he : length end ≡ 16) where
  start-layout : take 16 (drop 2 (layout phase kv start end key)) ≡ start
  start-layout = take_exact 16 start (end ++ key) hs

  end-layout : take 16 (drop 18 (layout phase kv start end key)) ≡ end
  end-layout = ap (take 16) (drop_exact 16 start (end ++ key) hs) ∙ take_exact 16 end key he

  key-layout : drop 34 (layout phase kv start end key) ≡ key
  key-layout =
      ap (drop 32) (sym (append_assoc start end key))
      ∙ drop_exact 32 (start ++ end) key (omega (arith, length-append start end, hs, he))

  parts-layout :
      (kind : RangeKind)
      → cursor_of phase kind
          (take 16 (drop 2 (layout phase kv start end key)))
          (take 16 (drop 18 (layout phase kv start end key)))
          (drop 34 (layout phase kv start end key))
        ≡ cursor_of phase kind start end key
  parts-layout kind = λ i. cursor_of phase kind (start-layout i) (end-layout i) (key-layout i)

  of_payload-layout :
      (kind : RangeKind)
      → kind ≢ no_kind
      → of_payload (layout phase kv start end key) kind ≡ ok (cursor_of phase kind start end key)
  of_payload-layout range_allocations n = ap ok (parts-layout range_allocations)
  of_payload-layout range_routes n = ap ok (parts-layout range_routes)
  of_payload-layout no_kind n = absurd (n refl)

check_payload-layout :
    (phase : ℕ) (kind : RangeKind) (start end key : Bytes)
    → (phase ≡ 1) ⊎ (phase ≡ 2)
    → kind ≢ no_kind
    → length start ≡ 16
    → length end ≡ 16
    → length key ≡ 37
    → check_payload (layout phase (range_kind_value kind) start end key)
      ≡ ok (cursor_of phase kind start end key)
unfolding check_payload
check_payload-layout phase kind start end key hp n hs he hk =
    let size : (length (layout phase (range_kind_value kind) start end key) == 71) ≡ true =
      ground (arith, length-append start (end ++ key), length-append end key, hs, he, hk) in
    let is : is_phase phase ≡ true = ground (arith, hp) in
    simp (check_payload, size, is, range_kind_from_value-range_kind_value kind n)
      (of_payload-layout phase (range_kind_value kind) start end key hs he kind n)

kind-IsByte : (kind : RangeKind) → IsByte (range_kind_value kind)
unfolding range_kind_value
kind-IsByte range_allocations = omega arith
kind-IsByte range_routes = omega arith
kind-IsByte no_kind = omega arith

payload-IsByte : (c : RangeCursor) → IsRangeCursor c → All IsByte (range_cursor_payload c)
payload-IsByte c h = rw (range_cursor_payload_lem c h.start.size h.end.size h.key_size) (
  omega (arith, h.phase),
  (
    kind-IsByte c.kind,
    All-append IsByte c.query_start (c.query_end ++ c.key) h.start.bytes
        (All-append IsByte c.query_end c.key h.end.bytes h.key_bytes),
  ),
)

some_length : (text : Bytes) → text ≢ [] → (length text == 0) ≡ false
some_length [] h = absurd (h refl)
some_length (c ∷ text) h = ground arith

decode_range_cursor-some :
    (base64 : Base64) (text payload : Bytes)
    → text ≢ []
    → base64.decode_string text ≡ some payload
    → decode_range_cursor base64 text ≡ check_payload payload
unfolding decode_range_cursor
decode_range_cursor-some base64 text payload n e =
    simp (decode_range_cursor, some_length text n, e) refl

-- A range cursor of phase one or two, of one of the two kinds, with addresses of sixteen bytes and a key
-- of 37 bytes, is read back from the text that encodeRangeCursor makes of it.
pub decode_range_cursor-encode_range_cursor :
    (base64 : Base64) (c : RangeCursor) (text : Bytes)
    → IsBase64 base64
    → IsRangeCursor c
    → encode_range_cursor base64 c ≡ some text
    → decode_range_cursor base64 text ≡ ok c
unfolding encode_range_cursor
decode_range_cursor-encode_range_cursor base64 c text hb h e =
    let t : base64.encode_to_string (range_cursor_payload c) ≡ text = some-injective _ _ e in
    let p = range_cursor_payload_lem c h.start.size h.end.size h.key_size in
    let n : text ≢ [] =
      rw (sym t, p)
        (hb.some_text c.phase
          (range_kind_value c.kind ∷ (c.query_start ++ (c.query_end ++ c.key)))) in
    decode_range_cursor-some base64 text (range_cursor_payload c) n
      (rw (sym t) (hb.decodes (range_cursor_payload c) (payload-IsByte c h)))
    ∙ ap check_payload p
    ∙ check_payload-layout c.phase c.kind c.query_start c.query_end c.key h.phase h.kind
        h.start.size h.end.size h.key_size
