-- ===== src/Boltstore/Decoder.antt =====
-- internal/boltstore/store.go: the reader of a record's value. A method that fails loses the
-- decoder, which its callers do not look at again.
mod Runs
pub mod Panics
pub mod Reads
use bgp_api.Base.{
  ℕ, ◌+◌, ◌-◌, ◌%◌, ◌^◌, ◌≤◌, ◌<◌, ◌≡◌, Bytes, [], ◌∷◌, length, take, drop, get_or, ltb, leb, ◌==◌,
  none, some, if◌then◌else◌, ◌&&◌,
}
use bgp_api.Golang.Binary
use bgp_api.Golang.Binary.{uvarint}

pub data Error : Type 0 where
  truncated_record invalid_string_length invalid_id_list : Error
  trailing_bytes invalid_facet_count : ℕ → Error

-- A Go function's value, its error, or a run-time panic.
pub data Result (A : Type 0) : Type 0 where
  ok : A → Result A
  err : Error → Result A
  panic : Result A

pub record Decoder : Type 0 where
  pub value : Bytes
  pub offset : ℕ

abbrev pub Reader : Type 0 → Type 0
Reader A = Decoder → Result (A × Decoder)

-- `if err != nil { return result, err }` after each call.
infixl 5 ◌>>=◌ ◌>>◌
unfoldable pub ◌>>=◌ : {A B : Type 0} → Reader A → (A → Reader B) → Reader B
◌>>=◌ m f d = elim (m d) [ ok (a, d') ↦ f a d' | err e ↦ err e | panic ↦ panic ]

unfoldable pub ◌>>◌ : {A B : Type 0} → Reader A → Reader B → Reader B
unfolding ◌>>=◌
m >> k = m >>= λ _. k

unfoldable pub pure : {A : Type 0} → A → Reader A
pure a d = ok (a, d)

-- `size` is the bit pattern of an int, so it is negative from 2 ^ 63 on, and so is the sum, which
-- wraps around. A slice up to a negative index panics.
unfoldable pub take_bytes : ℕ → Reader Bytes
take_bytes size d =
    let end = (d.offset + size) % 2 ^ 64 in
    if leb (2 ^ 63) size
    then err truncated_record
    else if ltb end (2 ^ 63) && ltb (length d.value) end
    then err truncated_record
    else if leb (2 ^ 63) end
    then panic
    else ok (take size (drop d.offset d.value), record d { offset = end })

unfoldable pub byte : Reader ℕ
unfolding take_bytes ◌>>=◌ pure
byte = do value ← take_bytes 1; pure (get_or value 0 0)

unfoldable pub uint32 : Reader ℕ
unfolding take_bytes ◌>>=◌ pure
uint32 = do value ← take_bytes 4; pure (Binary.uint32 value)

unfoldable pub uint64 : Reader ℕ
unfolding take_bytes ◌>>=◌ pure
uint64 = do value ← take_bytes 8; pure (Binary.uint64 value)

unfoldable pub address : Reader Bytes
address = take_bytes 16

unfoldable pub string : Reader Bytes
unfolding take_bytes
string d = elim (uvarint (drop d.offset d.value)) [
  | none ↦ err invalid_string_length
  | some (size, read) ↦ take_bytes size (record d { offset = d.offset + read })
]

unfoldable pub skip_string : Reader (Unit {0})
unfolding take_bytes ◌>>=◌ pure
skip_string d = elim (uvarint (drop d.offset d.value)) [
  | none ↦ err invalid_string_length
  | some (size, read) ↦ (do _ ← take_bytes size; pure tt) (record d { offset = d.offset + read })
]

-- `done`, and the `return result, r.done()` that ends a decoder of a whole record.
unfoldable pub done : Decoder → Result (Unit {0})
done d =
    if d.offset == length d.value then ok tt else err (trailing_bytes (length d.value - d.offset))

abbrev pub start : Bytes → Decoder
start value = record { value = value; offset = 0 }

unfoldable pub complete : {A : Type 0} → Reader A → Bytes → Result A
unfolding done
complete m value = elim (m (start value)) [
  | ok (a, d) ↦ elim (done d) [ ok _ ↦ ok a | err e ↦ err e | panic ↦ panic ]
  | err e ↦ err e
  | panic ↦ panic
]
