-- ===== src/Boltstore/Encoder.antt =====
-- internal/boltstore/store.go: the writer of a record's value.
use bgp_api.Base.{◌∷◌, [], ◌++◌, ℕ, Bytes, length}
use bgp_api.Golang.Binary.{put_uint32, put_uint64, uvarint_bytes}

-- `encoder.value`; every method appends to it.
abbrev pub Encoder : Type 0
Encoder = Bytes

unfoldable pub byte : Encoder → ℕ → Encoder
byte w b = w ++ (b ∷ [])

unfoldable pub uint32 : Encoder → ℕ → Encoder
uint32 w v = w ++ put_uint32 v

unfoldable pub uint64 : Encoder → ℕ → Encoder
uint64 w v = w ++ put_uint64 v

unfoldable pub address : Encoder → Bytes → Encoder
address w a = w ++ a

unfoldable pub string : Encoder → Bytes → Encoder
string w s = (w ++ uvarint_bytes (length s)) ++ s
