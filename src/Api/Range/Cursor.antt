-- ===== src/Api/Range/Cursor.antt =====
-- internal/api/bbolt.go: the cursor of a range query, a text that says where its next page starts.
use bgp_api.Base.{
  ℕ, ◌≡◌, ◌≢◌, Bytes, IsByte, Bool, not, ◌||◌, All, [], ◌∷◌, length, get_or, take, drop, replicate,
  ◌==◌, if◌then◌else◌, Option, none, some,
}
use bgp_api.Golang.ByteSlice.{write_at}
use bgp_api.Boltstore.Keys.{Address}
use bgp_api.Api.Reply.{Reply, ok, err, invalid_range_cursor}

-- Package encoding/base64's RawURLEncoding.
pub record Base64 : Type 0 where
  pub encode_to_string : Bytes → Bytes
  pub decode_string : Bytes → Option Bytes

-- What its documentation says of it: decoding gives back what was encoded, and only no bytes have an
-- empty encoding.
pub record IsBase64 (c : Base64) : Type 0 where
  pub decodes : (p : Bytes) → All IsByte p → c.decode_string (c.encode_to_string p) ≡ some p
  pub some_text : (b : ℕ) (p : Bytes) → c.encode_to_string (b ∷ p) ≢ []

-- RangeKind; `no_kind` is the empty text.
pub data RangeKind : Type 0 where
  range_allocations range_routes no_kind : RangeKind

abbrev pub range_cursor_covering : ℕ
range_cursor_covering = 1

abbrev pub range_cursor_direct : ℕ
range_cursor_direct = 2

abbrev pub range_cursor_size : ℕ
range_cursor_size = 71

pub record RangeCursor : Type 0 where
  pub phase : ℕ
  pub kind : RangeKind
  pub query_start : Address
  pub query_end : Address
  pub key : Bytes

abbrev pub no_cursor : RangeCursor
no_cursor = record {
  phase = 0;
  kind = no_kind;
  query_start = replicate 16 0;
  query_end = replicate 16 0;
  key = replicate 37 0;
}

unfoldable pub range_kind_value : RangeKind → ℕ
range_kind_value range_allocations = 1
range_kind_value other = 2

unfoldable pub range_kind_from_value : ℕ → RangeKind
range_kind_from_value value =
    if value == 1 then range_allocations else if value == 2 then range_routes else no_kind

-- The payload's bytes; the copies fill it.
unfoldable pub range_cursor_payload : RangeCursor → Bytes
unfolding range_kind_value
range_cursor_payload c =
    let payload = write_at 0 (c.phase ∷ []) (replicate range_cursor_size 0) in
    let payload1 = write_at 1 (range_kind_value c.kind ∷ []) payload in
    let payload2 = write_at 2 c.query_start payload1 in
    let payload3 = write_at 18 c.query_end payload2 in write_at 34 c.key payload3

unfoldable pub encode_range_cursor : Base64 → RangeCursor → Option Bytes
unfolding range_cursor_payload
encode_range_cursor base64 c = some (base64.encode_to_string (range_cursor_payload c))

abbrev pub of_payload : Bytes → RangeKind → Reply RangeCursor
of_payload payload no_kind = err invalid_range_cursor
of_payload payload kind = ok (record {
  phase = get_or payload 0 0;
  kind = kind;
  query_start = take 16 (drop 2 payload);
  query_end = take 16 (drop 18 payload);
  key = drop 34 payload;
})

abbrev pub is_phase : ℕ → Bool
is_phase phase = phase == range_cursor_covering || phase == range_cursor_direct

unfoldable pub check_payload : Bytes → Reply RangeCursor
unfolding range_kind_from_value
check_payload payload =
    if not (length payload == range_cursor_size) || not (is_phase (get_or payload 0 0))
    then err invalid_range_cursor
    else of_payload payload (range_kind_from_value (get_or payload 1 0))

unfoldable pub decode_range_cursor : Base64 → Bytes → Reply RangeCursor
unfolding check_payload
decode_range_cursor base64 value =
    if length value == 0 then ok no_cursor else elim (base64.decode_string value) [
      | none ↦ err invalid_range_cursor
      | some payload ↦ check_payload payload
    ]
