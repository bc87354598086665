-- ===== src/Api/Selectors.antt =====
-- internal/api/bbolt.go: the compact selectors, which the repository reads from its file or from a copy.
pub mod Preload
use bgp_api.Base.{
  ℕ, ◌+◌, Bytes, Bool, true, false, List, [], ◌∷◌, length, ◌==◌, if◌then◌else◌, Option, none, some,
}
use bgp_api.Boltstore.RouteLpm.{route_lpm_key}
use bgp_api.Boltstore.Selection.{selection_lpm_key}
use bgp_api.Api.Reply.{
  BucketName, allocation_lpm, route_lpm, geofeed_lpm, Reply, ok, err, missing_bucket,
  missing_selector, ◌>>=◌,
}
use bgp_api.Api.Bucket.{Bucket, Tx, bucket, key_of}

-- `[2][]byte`: for IPv4 and for IPv6.
pub record Versions : Type 0 where
  pub ipv4 : Bytes
  pub ipv6 : Bytes

pub record CompactSelectors : Type 0 where
  pub allocations : Versions
  pub routes : Versions
  pub geofeeds : Versions
  pub bytes : ℕ

-- The file, and the copy of the selectors when there is one.
pub record BboltRepository : Type 0 where
  pub db : Tx
  pub selector_preload : Option CompactSelectors

abbrev pub lpm_key : BucketName → ℕ → Bytes
lpm_key route_lpm version = route_lpm_key version
lpm_key name version = selection_lpm_key version

-- One round of the loops over the buckets and the versions.
unfoldable pub selector : Tx → BucketName → ℕ → Reply Bytes
selector tx name version = elim (tx name) [
  | none ↦ err (missing_bucket name)
  | some b ↦ elim (b.get (lpm_key name version)) [
    | none ↦ err (missing_selector name version)
    | some value ↦ if length value == 0 then err (missing_selector name version) else ok value
  ]
]

abbrev pub both : Tx → BucketName → Reply Versions
both tx name = do
  ipv4 ← selector tx name 4
  ipv6 ← selector tx name 6
  ok (record { ipv4 = ipv4; ipv6 = ipv6 })

abbrev size : Versions → ℕ
size v = length v.ipv4 + length v.ipv6

unfoldable pub read_selectors : Tx → Reply CompactSelectors
unfolding ◌>>=◌ selector
read_selectors tx = do
  allocations ← both tx allocation_lpm
  routes ← both tx route_lpm
  geofeeds ← both tx geofeed_lpm
  ok (record {
    allocations = allocations;
    routes = routes;
    geofeeds = geofeeds;
    bytes = size allocations + size routes + size geofeeds;
  })

-- The function keeps only the sizes.
unfoldable pub compact_selector_bytes : BboltRepository → Reply ℕ
unfolding ◌>>=◌
compact_selector_bytes r = elim r.selector_preload [
  | some selectors ↦ ok selectors.bytes
  | none ↦ do selectors ← read_selectors r.db; ok selectors.bytes
]

-- The bytes of the copy, and the repository that has it.
unfoldable pub preload_compact_selectors : BboltRepository → Reply (ℕ × BboltRepository)
unfolding ◌>>=◌
preload_compact_selectors r = elim r.selector_preload [
  | some selectors ↦ ok (selectors.bytes, r)
  | none ↦ do
    selectors ← read_selectors r.db
    ok (selectors.bytes, record r { selector_preload = some selectors })
]

unfoldable pub drop_compact_selectors : BboltRepository → ℕ × BboltRepository
drop_compact_selectors r = elim r.selector_preload [
  | none ↦ (0, record r { selector_preload = none })
  | some selectors ↦ (selectors.bytes, record r { selector_preload = none })
]

abbrev pub at_version : Versions → ℕ → Bytes
at_version v version = if version == 6 then v.ipv6 else v.ipv4

abbrev pub preloaded : CompactSelectors → BucketName → Versions
preloaded s allocation_lpm = s.allocations
preloaded s route_lpm = s.routes
preloaded s name = s.geofeeds

-- The selector that lookupCompact reads: the copy, or the value in the file, which may be nil.
unfoldable pub selector_value : BboltRepository → BucketName → ℕ → Reply Bytes
unfolding ◌>>=◌ bucket
selector_value r name version = elim r.selector_preload [
  | some selectors ↦ ok (at_version (preloaded selectors name) version)
  | none ↦ do b ← bucket r.db name; ok (key_of (b.get (lpm_key name version)))
]
