-- ===== src/Api/Text.antt =====
-- internal/api: texts of the dataset as values that may be absent.
use bgp_api.Base.{
  ℕ, ◌^◌, Bytes, Bool, true, not, ◌&&◌, ◌||◌, [], ◌∷◌, length, take, leb, ◌==◌, if◌then◌else◌,
  Option, none, some,
}
use bgp_api.Golang.ByteSlice.{bytes_equal}
use bgp_api.Golang.Netip.{Addr, Texts}
use bgp_api.Api.Reply.{Reply, ok, panic}
use bgp_api.Golang.Text.{trim_space, to_lower, to_upper, trim_prefix, natural, codes}

-- `nullableString`
abbrev pub Nullable : Type 0
Nullable = Option Bytes

unfoldable pub optional : Bytes → Nullable
optional value =
    let trimmed = trim_space value in if length trimmed == 0 then none else some trimmed

unfoldable pub string_value : Bytes → Nullable
string_value value = if length value == 0 then none else some value

unfoldable pub present : Nullable → Nullable
present none = none
present (some value) =
    let trimmed = trim_space value in if length trimmed == 0 then none else some trimmed

unfoldable pub lower : Nullable → Nullable
unfolding present
lower value = elim (present value) [ none ↦ none | some text ↦ some (to_lower text) ]

unfoldable pub upper : Nullable → Nullable
unfolding present
upper value = elim (present value) [ none ↦ none | some text ↦ some (to_upper text) ]

unfoldable pub capitals : Bytes → Bool
capitals [] = true
capitals (c ∷ s) = let rest = capitals s in (leb b'A' c && leb c b'Z') && rest

unfoldable pub country_code : Nullable → Nullable
unfolding capitals
country_code none = none
country_code (some value) =
    if not (length value == 2) then none else if capitals value then some value else none

abbrev has_prefix : Bytes → Bytes → Bool
has_prefix s prefix = bytes_equal (take (length prefix) s) prefix

-- strconv.Atoi gives a number below 2 ^ 63 or fails; one that is not positive is refused.
unfoldable pub as_number : Nullable → Option ℕ
unfolding natural trim_prefix
as_number none = none
as_number (some asn) =
    if not (has_prefix asn (codes "AS"))
    then none
    else elim (natural (trim_prefix asn (codes "AS"))) [
      | none ↦ none
      | some number ↦ if number == 0 || leb (2 ^ 63) number then none else some number
    ]

-- MustParseAddr panics on a text that is not an address.
unfoldable pub must_parse_addr : Texts → Bytes → Reply Addr
must_parse_addr texts text = elim (texts.parse_addr text) [ none ↦ panic | some a ↦ ok a ]
