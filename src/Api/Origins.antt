-- ===== src/Api/Origins.antt =====
-- internal/api/bbolt.go: the origins of the selected routes, and who they are.
use Prim.Native.Nat.{Ordering}
use bgp_api.Base.{
  ℕ, Bytes, Bool, true, false, not, ◌&&◌, ◌||◌, List, [], ◌∷◌, length, map, ltb, ◌==◌,
  if◌then◌else◌, Option, none, some,
}
use bgp_api.Golang.ByteSlice.{compare_bytes, bytes_equal}
use bgp_api.Golang.Text.{trim_space, to_upper}
use bgp_api.Boltstore.Keys.{asn_key}
use bgp_api.Boltstore.Record.{Route}
use bgp_api.Boltstore.Record.Lookup.{decode_autnum_identity}
use bgp_api.Api.Reply.{autnums, Reply, ok, err, missing_autnums, ◌>>=◌, of_result, for_each}
use bgp_api.Api.Bucket.{Bucket, Tx}
use bgp_api.Api.Text.{optional}
use bgp_api.Api.Types.{AsnIdentity}

unfoldable pub origin_name : Route → Bytes
origin_name r = to_upper (trim_space r.origin_asn)

pub record AsnValue : Type 0 where
  pub name : Bytes
  pub number : ℕ

unfoldable pub has_text : Bytes → List Bytes → Bool
unfolding compare_bytes
has_text t [] = false
has_text t (s ∷ ss) = bytes_equal t s || has_text t ss

-- The loop over the routes, with the names seen so far.
unfoldable pub values_loop : List Bytes → List Route → List AsnValue
unfolding origin_name has_text
values_loop seen [] = []
values_loop seen (r ∷ rs) =
    let skip = length (origin_name r) == 0 || has_text (origin_name r) seen in
    let rest = values_loop (if skip then seen else origin_name r ∷ seen) rs in
    if skip then rest else record { name = origin_name r; number = r.as_number } ∷ rest

-- By number, then by name.
unfoldable pub value_less : AsnValue → AsnValue → Bool
unfolding compare_bytes
value_less a b =
    if not (a.number == b.number)
    then ltb a.number b.number
    else elim (compare_bytes a.name b.name) [ Ordering.lt ↦ true | _ ↦ false ]

unfoldable pub insert_value : AsnValue → List AsnValue → List AsnValue
unfolding value_less
insert_value v [] = v ∷ []
insert_value v (w ∷ ws) =
    let rest = insert_value v ws in if value_less w v then w ∷ rest else v ∷ w ∷ ws

-- sort.Slice; no two values share a name.
unfoldable pub sort_values : List AsnValue → List AsnValue
unfolding insert_value
sort_values [] = []
sort_values (v ∷ vs) = insert_value v (sort_values vs)

abbrev pub single_asn : Bytes → List Bytes
single_asn name = if length name == 0 then [] else name ∷ []

abbrev name_of : AsnValue → Bytes
name_of v = v.name

unfoldable pub bbolt_asns : List Route → List Bytes
unfolding values_loop sort_values origin_name
bbolt_asns (r ∷ []) = single_asn (origin_name r)
bbolt_asns rs = map name_of (sort_values (values_loop [] rs))

-- `numbers[asn]`, which the last route of that name has set.
unfoldable pub number_of : Bytes → List Route → ℕ → ℕ
unfolding origin_name compare_bytes
number_of asn [] number = number
number_of asn (r ∷ rs) number = number_of asn rs (
    if not (length (origin_name r) == 0) && bytes_equal (origin_name r) asn
    then r.as_number
    else number)

abbrev plain_identity : Bytes → ℕ → AsnIdentity
plain_identity asn number = record {
  asn = asn;
  as_number = number;
  name = none;
  organization = none;
}

abbrev pub with_autnum : AsnIdentity → Option Bytes → Reply AsnIdentity
with_autnum origin none = ok origin
with_autnum origin (some raw) = do
  autnum ← of_result (decode_autnum_identity raw)
  ok (record origin { name = optional autnum.name; organization = optional autnum.organization })

unfoldable pub origin_identity : Bucket → List Route → Bytes → Reply AsnIdentity
unfolding number_of ◌>>=◌ of_result
origin_identity b routes asn =
    let number = number_of asn routes 0 in
    if ltb 0 number
    then with_autnum (plain_identity asn number) (b.get (asn_key number))
    else ok (plain_identity asn number)

unfoldable pub bbolt_origin_identities : Tx → List Route → Reply (List AsnIdentity)
unfolding bbolt_asns origin_identity for_each
bbolt_origin_identities tx routes =
    if length (bbolt_asns routes) == 0 then ok [] else elim (tx autnums) [
      | none ↦ err missing_autnums
      | some b ↦ for_each (origin_identity b routes) (bbolt_asns routes)
    ]
