-- ===== src/Api/Selectors/Preload.antt =====
-- internal/api/bbolt.go: a lookup does not depend on whether the selectors have been copied.
use bgp_api.Base.{
  ℕ, ◌≡◌, ◌⊎◌, inl, inr, refl, sym, ap, Bytes, length, ◌==◌, none, some, Bool-cases, Option-cases,
}
use bgp_api.Golang.Netip.{Texts}
use bgp_api.Ipkey.{RuntimeIp}
use bgp_api.Api.Reply.{
  BucketName, allocation_lpm, route_lpm, geofeed_lpm, ok, err, ◌>>=◌, missing_selector,
  missing_bucket,
}
use bgp_api.Api.Reply.Steps.{ok-injective, bind-ok}
use bgp_api.Api.Bucket.{Tx, bucket}
use bgp_api.Api.Selectors.{
  BboltRepository, CompactSelectors, Versions, selector, read_selectors, preload_compact_selectors,
  selector_value, lpm_key, both, at_version, preloaded,
}
use bgp_api.Api.Lookup.{select_compact, lookup_compact}

abbrev from_file : Tx → BboltRepository
from_file tx = record { db = tx; selector_preload = none }

abbrev with_copy : Tx → CompactSelectors → BboltRepository
with_copy tx s = record { db = tx; selector_preload = some s }

-- A selector that the copy has is the value in the file.
selector_value-selector :
    (tx : Tx) (name : BucketName) (version : ℕ) (value : Bytes)
    → selector tx name version ≡ ok value
    → selector_value (from_file tx) name version ≡ ok value
unfolding selector selector_value bucket ◌>>=◌
selector_value-selector tx name version value e = elim (Option-cases (tx name)) [
  | inl n ↦ let bad : err (missing_bucket name) ≡ ok value = simp (selector, n) at e in absurd (cc)
  | inr (b, n) ↦ elim (Option-cases (b.get (lpm_key name version))) [
    | inl m ↦
        let bad : err (missing_selector name version) ≡ ok value = simp (selector, n, m) at e in
        absurd (cc)
    | inr (v, m) ↦ elim (Bool-cases (length v == 0)) [
      | inl z ↦
          let bad : err (missing_selector name version) ≡ ok value =
            simp (selector, n, m, z) at e in
          absurd (cc)
      | inr z ↦
          let same : ok v ≡ ok value = simp (selector, n, m, z) at e in
          simp (selector_value, bucket, n, m, ◌>>=◌) same
    ]
  ]
]

record BothOk (tx : Tx) (name : BucketName) (v : Versions) : Type 0 where
  fourth : selector tx name 4 ≡ ok v.ipv4
  sixth : selector tx name 6 ≡ ok v.ipv6

both-ok : (tx : Tx) (name : BucketName) (v : Versions) → both tx name ≡ ok v → BothOk tx name v
both-ok tx name v e =
    let (a, ea, e1) = bind-ok (selector tx name 4) _ v e in
    let (b, eb, e2) = bind-ok (selector tx name 6) _ v e1 in
    let same : record { ipv4 = a; ipv6 = b } ≡ v = ok-injective _ _ e2 in
    rw (sym same) (record { fourth = ea; sixth = eb })

BothOk-value :
    (tx : Tx) (name : BucketName) (v : Versions) (version : ℕ)
    → BothOk tx name v
    → (version ≡ 4) ⊎ (version ≡ 6)
    → selector_value (from_file tx) name version ≡ ok (at_version v version)
BothOk-value tx name v version h (inl e) = rw e (selector_value-selector tx name 4 v.ipv4 h.fourth)
BothOk-value tx name v version h (inr e) = rw e (selector_value-selector tx name 6 v.ipv6 h.sixth)

record ReadOk (tx : Tx) (s : CompactSelectors) : Type 0 where
  allocations : BothOk tx allocation_lpm s.allocations
  routes : BothOk tx route_lpm s.routes
  geofeeds : BothOk tx geofeed_lpm s.geofeeds

read_selectors-ok : (tx : Tx) (s : CompactSelectors) → read_selectors tx ≡ ok s → ReadOk tx s
unfolding read_selectors
read_selectors-ok tx s e =
    let (a, ea, e1) = bind-ok (both tx allocation_lpm) _ s e in
    let (r, er, e2) = bind-ok (both tx route_lpm) _ s e1 in
    let (g, eg, e3) = bind-ok (both tx geofeed_lpm) _ s e2 in
    rw (sym (ok-injective _ _ e3)) (record {
      allocations = both-ok tx allocation_lpm a ea;
      routes = both-ok tx route_lpm r er;
      geofeeds = both-ok tx geofeed_lpm g eg;
    })

copy_value :
    (tx : Tx) (s : CompactSelectors) (name : BucketName) (version : ℕ)
    → selector_value (with_copy tx s) name version ≡ ok (at_version (preloaded s name) version)
unfolding selector_value
copy_value tx s name version = refl

-- A compact lookup depends on the three selectors of its version only.
lookup_compact-selector_value :
    (texts : Texts) (fuel : ℕ) (tx : Tx) (s : CompactSelectors) (ip : RuntimeIp)
    → ((name : BucketName)
        → (v : Versions) → BothOk tx name v
        → selector_value (from_file tx) name ip.version ≡ ok (at_version v ip.version))
    → ReadOk tx s
    → lookup_compact texts fuel (with_copy tx s) ip ≡ lookup_compact texts fuel (from_file tx) ip
unfolding lookup_compact select_compact
lookup_compact-selector_value texts fuel tx s ip value h =
    rw
      (
        copy_value tx s allocation_lpm ip.version,
        copy_value tx s route_lpm ip.version,
        copy_value tx s geofeed_lpm ip.version,
        value allocation_lpm s.allocations h.allocations,
        value route_lpm s.routes h.routes,
        value geofeed_lpm s.geofeeds h.geofeeds,
      )
      refl

-- A compact lookup gives the same from the file as from the copy that PreloadCompactSelectors has made of
-- its selectors, error or panic included; for an address of version 4 or 6.
pub lookup_compact-preload_compact_selectors :
    (texts : Texts) (fuel : ℕ) (tx : Tx) (ip : RuntimeIp) (bytes : ℕ) (r : BboltRepository)
    → (ip.version ≡ 4) ⊎ (ip.version ≡ 6)
    → preload_compact_selectors (record { db = tx; selector_preload = none }) ≡ ok (bytes, r)
    → lookup_compact texts fuel r ip
      ≡ lookup_compact texts fuel (record { db = tx; selector_preload = none }) ip
unfolding preload_compact_selectors
lookup_compact-preload_compact_selectors texts fuel tx ip bytes r hv e =
    let (s, es, e1) = bind-ok (read_selectors tx) _ (bytes, r) e in
    let same : r ≡ with_copy tx s =
      sym (ap (λ (p : ℕ × BboltRepository). p.1) (ok-injective _ _ e1)) in
    rw same (
      lookup_compact-selector_value texts fuel tx s ip
        (λ name v b. BothOk-value tx name v ip.version b hv) (read_selectors-ok tx s es))
