-- ===== src/Golang/Text.antt =====
-- Package strings on ASCII text, as bytes.
use Prim.Native.Char.{code}
use Prim.Native.String.{String}
use bgp_api.Golang.ByteSlice.{bytes_equal}
use bgp_api.Base.{
  ◌%◌, ◌*◌, ◌^◌, take, drop, length, ltb, Option, none, some, ℕ, ◌+◌, ◌-◌, Bytes, Bool, [], ◌∷◌,
  leb, ◌==◌, if◌then◌else◌, ◌&&◌, ◌||◌,
}

-- The bytes of an ASCII literal.
abbrev pub codes : String → Bytes
codes String.[] = []
codes (String.◌∷◌ c s) = code c ∷ codes s

abbrev pub is_space : ℕ → Bool
is_space c = c == b' ' || (leb 9 c && leb c 13)

unfoldable pub trim_left : Bytes → Bytes
trim_left [] = []
trim_left (c ∷ s) = let rest = trim_left s in if is_space c then rest else c ∷ s

-- A byte in front of a text that ends in no space.
abbrev keep : ℕ → Bytes → Bytes
keep c [] = if is_space c then [] else c ∷ []
keep c (d ∷ s) = c ∷ d ∷ s

unfoldable pub trim_right : Bytes → Bytes
trim_right [] = []
trim_right (c ∷ s) = keep c (trim_right s)

-- TrimSpace
unfoldable pub trim_space : Bytes → Bytes
unfolding trim_left trim_right
trim_space s = trim_left (trim_right s)

-- ToLower and ToUpper
unfoldable pub to_lower : Bytes → Bytes
to_lower [] = []
to_lower (c ∷ s) = (if leb b'A' c && leb c b'Z' then c + 32 else c) ∷ to_lower s

unfoldable pub to_upper : Bytes → Bytes
to_upper [] = []
to_upper (c ∷ s) = (if leb b'a' c && leb c b'z' then c - 32 else c) ∷ to_upper s

-- TrimPrefix
unfoldable pub trim_prefix : Bytes → Bytes → Bytes
trim_prefix s prefix =
    if bytes_equal (take (length prefix) s) prefix then drop (length prefix) s else s

abbrev is_digit : ℕ → Bool
is_digit c = leb b'0' c && leb c b'9'

-- The digits of a decimal number, onto the value so far.
unfoldable pub digits_loop : ℕ → Bytes → Option ℕ
digits_loop n [] = some n
digits_loop n (c ∷ s) =
    let rest = digits_loop (n * 10 + (c - b'0')) s in if is_digit c then rest else none

unfoldable pub digits : Bytes → Option ℕ
unfolding digits_loop
digits s = if length s == 0 then none else digits_loop 0 s

-- strconv.ParseUint in base ten
unfoldable pub parse_uint : Bytes → ℕ → Option ℕ
unfolding digits
parse_uint s bits = elim (digits s) [
  | none ↦ none
  | some n ↦ if ltb n (2 ^ bits) then some n else none
]

-- big.Int's SetString in base ten, with `none` for a negative number too: the callers refuse both, or
-- have a text that a number was written to.
unfoldable pub natural : Bytes → Option ℕ
unfolding digits
natural [] = none
natural (c ∷ s) =
    if c == b'+'
    then digits s
    else if c == b'-'
    then (elim (digits s) [ none ↦ none | some n ↦ if n == 0 then some 0 else none ])
    else digits (c ∷ s)

abbrev pub reduced : ℕ → Option ℕ → Option ℕ
reduced bits none = none
reduced bits (some n) = some (n % 2 ^ bits)

-- SetString, and And with 2 ^ bits - 1, which takes a negative number in two's complement.
unfoldable pub masked_number : ℕ → Bytes → Option ℕ
unfolding natural digits
masked_number bits [] = none
masked_number bits (c ∷ s) =
    if c == b'-'
    then (elim (digits s) [ none ↦ none | some n ↦ some ((2 ^ bits - n % 2 ^ bits) % 2 ^ bits) ])
    else reduced bits (natural (c ∷ s))
