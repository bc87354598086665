-- ===== src/Rir.antt =====
-- cmd/parse-rir/main.go: the lines of a registry's RPSL file.
use bgp_api.Base.{
  ℕ, Bool, false, ◌||◌, Bytes, List, [], ◌∷◌, ◌++◌, length, get_or, ◌==◌, if◌then◌else◌, Option,
  none, some,
}
use bgp_api.Golang.ByteSlice.{bytes_equal}
use bgp_api.Golang.Text.{codes, is_space, trim_space, trim_left, to_lower}

-- strings.Cut at a byte: what is in front of its first place, and what is behind it.
unfoldable pub cut : ℕ → Bytes → Option (Bytes × Bytes)
cut separator [] = none
cut separator (c ∷ s) =
    let rest : Option (Bytes × Bytes) = elim (cut separator s) [
      | none ↦ none
      | some (a, b) ↦ some (c ∷ a, b)
    ] in
    if c == separator then some ([], s) else rest

abbrev is_ignored : ℕ → Bool
is_ignored c = c == b'#' || c == b'%' || c == b' ' || c == 9

-- The key in lower case and the value, for a line that holds an attribute.
unfoldable pub rpsl_attribute : Bytes → Option (Bytes × Bytes)
rpsl_attribute [] = none
rpsl_attribute (c ∷ line) =
    let found : Option (Bytes × Bytes) = elim (cut b':' (c ∷ line)) [
      | none ↦ none
      | some (key, value) ↦
          let key' = to_lower (trim_space key) in
          let value' = trim_space value in
          if length key' == 0 || length value' == 0 then none else some (key', value')
    ] in
    if is_ignored c then none else found

unfoldable pub first_attribute : List Bytes → Bytes
first_attribute values = get_or values 0 []

abbrev is_member : Bytes → List Bytes → Bool
is_member value [] = false
is_member value (v ∷ values) = bytes_equal v value || is_member value values

-- The loop of joinAttributes: the values that are not empty, each once, in their order.
unfoldable pub unique_loop : List Bytes → List Bytes → List Bytes
unique_loop seen [] = []
unique_loop seen (v ∷ values) =
    let value = trim_space v in
    let skipped = unique_loop seen values in
    let taken = value ∷ unique_loop (value ∷ seen) values in
    if length value == 0 || is_member value seen then skipped else taken

-- strings.Join
unfoldable pub join : Bytes → List Bytes → Bytes
join separator [] = []
join separator (v ∷ []) = v
join separator (v ∷ w ∷ values) = v ++ (separator ++ join separator (w ∷ values))

unfoldable pub join_attributes : List Bytes → Bytes
join_attributes values = join (codes " | ") (unique_loop [] values)

unfoldable pub first_non_empty : List Bytes → Bytes
first_non_empty [] = []
first_non_empty (v ∷ values) =
    let rest = first_non_empty values in if length (trim_space v) == 0 then rest else trim_space v

-- The first of strings.Fields: what stands in front of a space, behind the leading ones.
unfoldable pub until_space : Bytes → Bytes
until_space [] = []
until_space (c ∷ s) = let rest = until_space s in if is_space c then [] else c ∷ rest

unfoldable pub source_name : Bytes → Bytes
source_name value = until_space (trim_left value)

-- The blocks that parseRPSL hands to processRPSLBlock: the lines between empty lines.
unfoldable pub blocks_loop : List Bytes → List Bytes → List (List Bytes)
blocks_loop block [] = if length block == 0 then [] else block ∷ []
blocks_loop block (line ∷ lines) =
    let more = blocks_loop (block ++ (line ∷ [])) lines in
    let next = blocks_loop [] lines in
    let closed = if length block == 0 then next else block ∷ next in
    if length line == 0 then closed else more
