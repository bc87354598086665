-- ===== src/Boltstore/Decoder/Runs.antt =====
-- The reader on a length prefix of 2 ^ 63 - 1.
use bgp_api.Base.{
  ◌+◌, ◌-◌, ◌≡◌, ◌<◌, ◌≤◌, ◌^◌, ◌↔◌, refl, arith, Bytes, [], ◌∷◌, ◌++◌, replicate, some,
}
use bgp_api.Golang.Binary.{uvarint, uvarint_loop}
use bgp_api.Boltstore.Decoder.{panic, string, start}
use bgp_api.Boltstore.Decoder.Panics.{string_panic}

abbrev huge_string : Bytes
huge_string = replicate 8 255 ++ (127 ∷ 65 ∷ [])

uvarint_huge : uvarint huge_string ≡ some (2 ^ 63 - 1, 9)
unfolding uvarint uvarint_loop
uvarint_huge = refl

string_panic_example :
    (string (start huge_string) ≡ panic) ↔ ((2 ^ 63 - 1 < 2 ^ 63) × (2 ^ 63 ≤ 0 + 9 + (2 ^ 63 - 1)))
string_panic_example =
    string_panic (start huge_string) (2 ^ 63 - 1) 9 uvarint_huge (omega arith) (omega arith)
