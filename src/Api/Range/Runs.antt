-- ===== src/Api/Range/Runs.antt =====
-- internal/api/bbolt.go: tests and instances of the theorems on range queries.
use bgp_api.Base.{
  ℕ, ◌+◌, ◌≤◌, ◌<◌, ◌≡◌, IsByte, All-append, drop, inr, refl, arith, Bytes, Bool, true, false, List,
  [], ◌∷◌, ◌++◌, length, get_elem?, replicate, Option, none, some,
}
use bgp_api.Golang.Binary.{put_uint32, uint32}
use bgp_api.Golang.ByteSlice.{compare_bytes, write_at}
use bgp_api.Golang.ByteSlice.Order.{put_uint32-IsByte}
use bgp_api.Golang.Netip.{Addr, v4, Texts, unmap, masked, clear_from}
use bgp_api.Ipkey.{Parsed, ParsedRange}
use bgp_api.Boltstore.Keys.{
  Address, range_index_start_key, range_index_start, range_index_id, address_from_addr, addr,
  put_prefix_key,
}
use bgp_api.Boltstore.Keys.RoundTrip.{range_key, range_index_start_key_lem}
use bgp_api.Boltstore.Keys.Order.{IsAddress, ipv4-IsAddress}
use bgp_api.Api.Reply.{ok, ◌>>=◌, of_result, allocation_range}
use bgp_api.Api.Bucket.{Bucket, Tx}
use bgp_api.Api.Bucket.Contents.{head, from, behind, Ascending, Holds}
use bgp_api.Api.Text.{must_parse_addr}
use bgp_api.Api.Range.Direct.{start_of, id_of, of_index, above, direct_loop, direct_range_entries}
use bgp_api.Api.Range.Pages.{covered, page_of, entry_of}
use bgp_api.Api.Range.Resume.{direct_range_entries-page}
use bgp_api.Api.Range.Starts.{starts_inside, filter}
use bgp_api.Api.Range.Inside.{direct_range_entries-filter}
use bgp_api.Api.Range.Cursor.{
  Base64, IsBase64, range_allocations, RangeCursor, range_cursor_payload, encode_range_cursor,
  decode_range_cursor,
}
use bgp_api.Api.Range.RoundTrip.{IsRangeCursor, decode_range_cursor-encode_range_cursor}
use bgp_api.Api.Matching.{matching_ip_ids, lengths_loop, ids_loop, base_key, has_base, index_id_of}
use bgp_api.Api.Range.Page.{
  range_page_entries, foreign_cursor, range_buckets, page_of_buckets, covering_part,
  covering_range_entries, take_covering, covering_loop, sort_entries, direct_part, last_page,
  full_page,
}
use bgp_api.Api.Range.Limit.{range_page_entries-limit}

-- 10.0.n.0
abbrev ten : ℕ → Address
ten n = replicate 12 0 ++ (10 ∷ 0 ∷ n ∷ 0 ∷ [])

abbrev seek_ten : Bytes
seek_ten = 4 ∷ (ten 1 ++ replicate 20 0)

-- Records from 10.0.0.0, 10.0.1.0, 10.0.2.0 and 10.0.3.0 on, each of one /24.
abbrev key_at : ℕ → Bytes
key_at n = range_key 4 (ten n) (replicate 12 0 ++ (10 ∷ 0 ∷ n ∷ 255 ∷ [])) (n + 7)

abbrev four_keys : List Bytes
four_keys = key_at 0 ∷ key_at 1 ∷ key_at 2 ∷ key_at 3 ∷ []

abbrev bucket_of : List Bytes → Bucket
bucket_of keys = record {
  get = λ key. none;
  seek = λ key. head (from key keys);
  next = λ key. head (behind key keys);
}

bucket_of-Holds : (keys : List Bytes) → Ascending keys → Holds (bucket_of keys) keys
bucket_of-Holds keys h = record { ascending = h; seek = λ key. refl; next = λ key. refl }

four_keys-Ascending : Ascending four_keys
unfolding compare_bytes put_uint32
four_keys-Ascending = ((refl, (refl, (refl, tt))), ((refl, (refl, tt)), ((refl, tt), (tt, tt))))

abbrev live : ℕ → Bool
live i = false

first_page :
    direct_range_entries 9 live (bucket_of four_keys) 4 (ten 1) (ten 3) none 2
    ≡ ok (entry_of (key_at 1) ∷ entry_of (key_at 2) ∷ [], true)
unfolding direct_range_entries direct_loop start_of id_of of_index above compare_bytes put_uint32
    uint32 from behind range_index_start_key range_index_start range_index_id write_at ◌>>=◌
    of_result
first_page = refl

direct_range_entries-filter_example :
    direct_range_entries 9 live (bucket_of four_keys) 4 (ten 1) (ten 3) none 2
    ≡ ok (page_of 2 (filter (starts_inside 4 (ten 1) (ten 3)) four_keys))
unfolding put_uint32
direct_range_entries-filter_example =
    direct_range_entries-filter 9 live 4 (ten 1) (ten 3) 1
      (bucket_of-Holds four_keys four_keys-Ascending) (refl, (refl, (refl, (refl, tt)))) refl
      (omega arith) (λ i. refl)

direct_range_entries-page_example :
    (direct_range_entries 9 live (bucket_of four_keys) 4 (ten 1) (ten 3) none 2
      ≡ ok (page_of 2 (covered 4 (ten 3) (from seek_ten four_keys))))
    × (get_elem? (covered 4 (ten 3) (from seek_ten four_keys)) 1 ≡ some (key_at 2)
        → direct_range_entries 9 live (bucket_of four_keys) 4 (ten 1) (ten 3) (some (key_at 2)) 5
          ≡ ok (page_of 5 (drop 2 (covered 4 (ten 3) (from seek_ten four_keys)))))
direct_range_entries-page_example =
    direct_range_entries-page 9 live 4 (ten 1) (ten 3) seek_ten (key_at 2) 1 4
      (bucket_of-Holds four_keys four_keys-Ascending) (omega arith) (λ i. refl)
      (range_index_start_key_lem (replicate 37 0) 4 (ten 1) (omega arith) refl)

-- The page behind the first one, where it has a key.
second_page :
    direct_range_entries 9 live (bucket_of four_keys) 4 (ten 1) (ten 3) (some (key_at 2)) 2
    ≡ ok (entry_of (key_at 3) ∷ [], false)
unfolding direct_range_entries direct_loop start_of id_of of_index above compare_bytes put_uint32
    uint32 from behind range_index_start range_index_id ◌>>=◌
second_page = refl

-- An encoding that changes nothing.
abbrev plain : Base64
plain = record { encode_to_string = λ p. p; decode_string = λ p. some p }

plain-IsBase64 : IsBase64 plain
plain-IsBase64 = record { decodes = λ p h. refl; some_text = λ b p e. cc }

abbrev cursor : RangeCursor
cursor = record {
  phase = 2;
  kind = range_allocations;
  query_start = ten 1;
  query_end = ten 3;
  key = key_at 2;
}

ten-IsAddress : (n : ℕ) → n < 256 → IsAddress (ten n)
ten-IsAddress n h = ipv4-IsAddress 10 0 n 0 (omega arith) (omega arith) h (omega arith)

cursor-IsRangeCursor : IsRangeCursor cursor
unfolding put_uint32
cursor-IsRangeCursor = record {
  phase = inr refl;
  kind = λ e. cc;
  start = ten-IsAddress 1 (omega arith);
  end = ten-IsAddress 3 (omega arith);
  key_size = refl;
  key_bytes = (
    omega arith,
    All-append IsByte (ten 2) ((replicate 12 0 ++ (10 ∷ 0 ∷ 2 ∷ 255 ∷ [])) ++ put_uint32 9)
        (ten-IsAddress 2 (omega arith)).bytes
        (All-append IsByte (replicate 12 0 ++ (10 ∷ 0 ∷ 2 ∷ 255 ∷ [])) (put_uint32 9)
          (ipv4-IsAddress 10 0 2 255 (omega arith) (omega arith) (omega arith) (omega arith)).bytes
          (put_uint32-IsByte 9)),
  );
}

encoded : (c : RangeCursor) → encode_range_cursor plain c ≡ some (range_cursor_payload c)
unfolding encode_range_cursor
encoded c = refl

decode_range_cursor-encode_range_cursor_example :
    decode_range_cursor plain (range_cursor_payload cursor) ≡ ok cursor
decode_range_cursor-encode_range_cursor_example =
    decode_range_cursor-encode_range_cursor plain cursor (range_cursor_payload cursor)
      plain-IsBase64 cursor-IsRangeCursor (encoded cursor)

abbrev four_bytes : Bytes → Option Addr
four_bytes (a ∷ b ∷ c ∷ d ∷ []) = some (v4 (a ∷ b ∷ c ∷ d ∷ []))
four_bytes other = none

-- Texts that are the bytes of an IPv4 address.
abbrev texts : Texts
texts = record {
  addr_text = λ a. [];
  parse_addr = four_bytes;
  prefix_text = λ p. [];
  parse_prefix = λ t. none;
}

abbrev file : Tx
file allocation_range = some (bucket_of four_keys)
file name = some (bucket_of [])

abbrev bound : ℕ → Parsed
bound n = record { canonical = 10 ∷ 0 ∷ n ∷ 0 ∷ []; version = 4; sort_key = [] }

abbrev query : ParsedRange
query = record { start = bound 1; end = bound 3; version = 4; address_count = [] }

page_of_query :
    range_page_entries texts plain 9 live live file query range_allocations [] 2
    ≡ ok (entry_of (key_at 1) ∷ entry_of (key_at 2) ∷ [], some (range_cursor_payload cursor))
unfolding range_page_entries decode_range_cursor must_parse_addr address_from_addr unmap
    foreign_cursor range_buckets page_of_buckets covering_part covering_range_entries take_covering
    covering_loop sort_entries matching_ip_ids lengths_loop ids_loop base_key has_base index_id_of
    put_prefix_key masked clear_from direct_part last_page full_page direct_range_entries
    direct_loop start_of id_of of_index above compare_bytes put_uint32 uint32 from behind addr
    range_index_start_key range_index_start range_index_id write_at ◌>>=◌ of_result
    encode_range_cursor
page_of_query = refl

range_page_entries-limit_example : length (entry_of (key_at 1) ∷ entry_of (key_at 2) ∷ []) ≤ 2
range_page_entries-limit_example =
    range_page_entries-limit texts plain 9 live live file query range_allocations [] 2 _ _
      page_of_query
