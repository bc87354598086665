-- ===== src/Boltstore/Decoder/Panics.antt =====
-- internal/boltstore/store.go: a length prefix for which the bounds test of `take` wraps around.
use bgp_api.Base.{ℕ, ◌+◌, ◌^◌, ◌<◌, ◌≤◌, ◌≡◌, ◌↔◌, arith, drop, some}
use bgp_api.Golang.Binary.{uvarint}
use bgp_api.Boltstore.Decoder.{Decoder, panic, take_bytes, string}
use bgp_api.Boltstore.Decoder.Reads.{string_after}

take_bytes_panic :
    (size : ℕ) (d : Decoder)
    → d.offset < 2 ^ 63
    → size < 2 ^ 64
    → (take_bytes size d ≡ panic) ↔ ((size < 2 ^ 63) × (2 ^ 63 ≤ d.offset + size))
unfolding take_bytes
take_bytes_panic size d ho hs = (λ e. ground arith, λ (small, large). ground arith)

-- Where the offset and the length of the length prefix stay below 2 ^ 63, reading a string panics
-- exactly when the prefix says a size below 2 ^ 63 for which offset plus size is 2 ^ 63 or more,
-- though the record ends before that.
pub string_panic :
    (d : Decoder) (size read : ℕ)
    → uvarint (drop d.offset d.value) ≡ some (size, read)
    → d.offset + read < 2 ^ 63
    → size < 2 ^ 64
    → (string d ≡ panic) ↔ ((size < 2 ^ 63) × (2 ^ 63 ≤ d.offset + read + size))
string_panic d size read e ho hs =
    rw (string_after d e) (take_bytes_panic size (record d { offset = d.offset + read }) ho hs)
