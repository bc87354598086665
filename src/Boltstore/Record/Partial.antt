-- ===== src/Boltstore/Record/Partial.antt =====
-- internal/boltstore/store.go: the decoders that read a part of a record agree with the decoder of
-- the whole record, on every value.
use mathlib.Core.Path.{fun_ext}
use bgp_api.Base.{ℕ, Bytes, [], ◌≡◌, refl, arith}
use bgp_api.Boltstore.Decoder.{
  Reader, Result, ok, err, panic, string, skip_string, ◌>>=◌, ◌>>◌, pure, complete,
}
use bgp_api.Boltstore.Record.{
  Geofeed, geofeed_fields, decode_geofeed, Allocation, Route, Autnum, allocation_fields,
  decode_allocation, route_fields, decode_route, autnum_fields, decode_autnum,
}
use bgp_api.Boltstore.Record.Lookup.{
  skip_strings, read_part, bounds_fields, decode_allocation_bounds, decode_geofeed_bounds,
  allocation_lookup_fields, decode_allocation_lookup, route_lookup_fields, decode_route_lookup,
  autnum_identity_fields, decode_autnum_identity,
}

bind_assoc :
    {A B C : Type 0} (m : Reader A) (f : A → Reader B) (g : B → Reader C)
    → ((m >>= f) >>= g) ≡ (m >>= λ a. f a >>= g)
unfolding ◌>>=◌
bind_assoc m f g = fun_ext (λ d. ground arith)

pure_bind : {A B : Type 0} (a : A) (f : A → Reader B) → (pure a >>= f) ≡ f a
unfolding ◌>>=◌ pure
pure_bind a f = refl

then-bind : {A B : Type 0} (m : Reader A) (n : Reader B) → (m >> n) ≡ (m >>= λ _. n)
unfolding ◌>>◌
then-bind m n = refl

skip_string_lem : skip_string ≡ (string >>= λ _. pure tt)
unfolding skip_string string ◌>>=◌ pure
skip_string_lem = fun_ext (λ d. ground arith)

-- The result of a computation that succeeds, mapped.
abbrev pub map_result : {A B : Type 0} → (A → B) → Result A → Result B
map_result f (ok a) = ok (f a)
map_result f (err e) = err e
map_result f panic = panic

complete-map :
    {A B : Type 0} (m : Reader A) (f : A → B) (value : Bytes)
    → complete (m >>= λ a. pure (f a)) value ≡ map_result f (complete m value)
unfolding complete ◌>>=◌ pure
complete-map m f value = ground arith

ruleset reader_laws = (bind_assoc, pure_bind, then-bind, skip_string_lem)

abbrev pub allocation_view : Allocation → Allocation
allocation_view r = record r {
  created = [];
  last_modified = [];
  source = [];
  maintainers = [];
  organization = [];
  description = [];
}

allocation_lookup_fields_lem :
    allocation_lookup_fields ≡ (allocation_fields >>= λ r. pure (allocation_view r))
unfolding allocation_lookup_fields allocation_fields skip_strings
allocation_lookup_fields_lem = simp reader_laws

-- On every byte slice, DecodeAllocationLookup gives what DecodeAllocation gives, error or panic
-- included, with the created, last-modified, source, maintainers, organization and description
-- strings of a decoded allocation emptied.
pub decode_allocation_lookup-map :
    (value : Bytes)
    → decode_allocation_lookup value ≡ map_result allocation_view (decode_allocation value)
unfolding decode_allocation_lookup decode_allocation
decode_allocation_lookup-map value =
    rw allocation_lookup_fields_lem (complete-map allocation_fields allocation_view value)

abbrev pub route_view : Route → Route
route_view r = record r {
  registry = [];
  source = [];
  maintainers = [];
  organization = [];
  description = [];
}

route_lookup_fields_lem : route_lookup_fields ≡ (route_fields >>= λ r. pure (route_view r))
unfolding route_lookup_fields route_fields skip_strings
route_lookup_fields_lem = simp reader_laws

-- On every byte slice, DecodeRouteLookup gives what DecodeRoute gives, error or panic included,
-- with the registry, source, maintainers, organization and description strings of a decoded route
-- emptied.
decode_route_lookup-map :
    (value : Bytes) → decode_route_lookup value ≡ map_result route_view (decode_route value)
unfolding decode_route_lookup decode_route
decode_route_lookup-map value =
    rw route_lookup_fields_lem (complete-map route_fields route_view value)

abbrev pub autnum_view : Autnum → Autnum
autnum_view r = record r {
  asn = [];
  registry = [];
  country = [];
  status = [];
  created = [];
  last_modified = [];
  source = [];
  maintainers = [];
  abuse_contact = [];
  description = [];
}

autnum_identity_fields_lem : autnum_identity_fields ≡ (autnum_fields >>= λ r. pure (autnum_view r))
unfolding autnum_identity_fields autnum_fields skip_strings
autnum_identity_fields_lem = simp reader_laws

-- On every byte slice, DecodeAutnumIdentity gives what DecodeAutnum gives, error or panic included,
-- with every string of a decoded aut-num but its name and organization emptied.
decode_autnum_identity-map :
    (value : Bytes) → decode_autnum_identity value ≡ map_result autnum_view (decode_autnum value)
unfolding decode_autnum_identity decode_autnum
decode_autnum_identity-map value =
    rw autnum_identity_fields_lem (complete-map autnum_fields autnum_view value)

bounds_then :
    {A : Type 0} (m : Reader A) (n : Reader (Unit {0})) (value : Bytes) (a : A)
    → complete (m >>= λ x. n >>= λ _. pure x) value ≡ ok a
    → read_part m value ≡ ok a
unfolding complete read_part ◌>>=◌ pure
bounds_then m n value a e = ground arith

abbrev allocation_bounds : Allocation → ℕ × Bytes × Bytes
allocation_bounds r = (r.version, r.start, r.end)

allocation_bounds_lem :
    (allocation_fields >>= λ r. pure (allocation_bounds r))
    ≡ (bounds_fields >>= λ b. skip_strings 12 >>= λ _. pure b)
unfolding allocation_fields bounds_fields skip_strings
allocation_bounds_lem = simp reader_laws

-- Where DecodeAllocation succeeds, DecodeAllocationBounds gives that allocation's version, start and
-- end.
decode_allocation_bounds_lem :
    (value : Bytes) {r : Allocation}
    → decode_allocation value ≡ ok r
    → decode_allocation_bounds value ≡ ok (r.version, r.start, r.end)
unfolding decode_allocation decode_allocation_bounds
decode_allocation_bounds_lem value {r} e =
    bounds_then bounds_fields (skip_strings 12) value (allocation_bounds r)
      (rw (← allocation_bounds_lem, complete-map allocation_fields allocation_bounds value, e))

abbrev geofeed_bounds : Geofeed → ℕ × Bytes × Bytes
geofeed_bounds r = (r.version, r.start, r.end)

geofeed_bounds_lem :
    (geofeed_fields >>= λ r. pure (geofeed_bounds r))
    ≡ (bounds_fields >>= λ b. skip_strings 3 >>= λ _. pure b)
unfolding geofeed_fields bounds_fields skip_strings
geofeed_bounds_lem = simp reader_laws

-- Where DecodeGeofeed succeeds, DecodeGeofeedBounds gives that geofeed's version, start and end.
decode_geofeed_bounds_lem :
    (value : Bytes) {r : Geofeed}
    → decode_geofeed value ≡ ok r
    → decode_geofeed_bounds value ≡ ok (r.version, r.start, r.end)
unfolding decode_geofeed decode_geofeed_bounds
decode_geofeed_bounds_lem value {r} e =
    bounds_then bounds_fields (skip_strings 3) value (geofeed_bounds r)
      (rw (← geofeed_bounds_lem, complete-map geofeed_fields geofeed_bounds value, e))
