-- ===== src/Api/Narrowest.antt =====
-- internal/api/bbolt.go: the narrowest of the records that hold an address.
pub mod Least
use Prim.Native.Nat.{Ordering}
use bgp_api.Base.{
  ℕ, Bytes, Bool, true, false, List, [], ◌∷◌, ltb, ◌==◌, if◌then◌else◌, Option, none, some,
}
use bgp_api.Golang.ByteSlice.{compare_bytes}
use bgp_api.Boltstore.Keys.{Address}
use bgp_api.Boltstore.Record.{Allocation, Route, Geofeed}
use bgp_api.Boltstore.Selection.{subtract_bytes}

unfoldable pub subtract_address : Address → Address → Address
unfolding subtract_bytes
subtract_address left right = (subtract_bytes left right).0

unfoldable pub range_width_compare : Address → Address → Address → Address → Ordering
unfolding subtract_address compare_bytes
range_width_compare left_start left_end right_start right_end =
    compare_bytes (subtract_address left_end left_start) (subtract_address right_end right_start)

-- The narrowest value, by the bounds that `start` and `end` give, the first of equally narrow ones.
module _ {A : Type 0} (start end : A → Address) where
  abbrev pub narrower : A → A → Bool
  narrower candidate best =
      elim (range_width_compare (start candidate) (end candidate) (start best) (end best)) [
        | Ordering.lt ↦ true
        | _ ↦ false
      ]

  unfoldable pub narrowest_loop : A → List A → A
  unfolding range_width_compare
  narrowest_loop best [] = best
  narrowest_loop best (candidate ∷ values) =
      narrowest_loop (if narrower candidate best then candidate else best) values

  abbrev pub narrowest : List A → Option A
  narrowest [] = none
  narrowest (value ∷ values) = some (narrowest_loop value values)

unfoldable pub narrowest_allocation : List Allocation → Option Allocation
unfolding narrowest_loop
narrowest_allocation values =
    narrowest (λ (v : Allocation). v.start) (λ (v : Allocation). v.end) values

unfoldable pub narrowest_geofeed : List Geofeed → Option Geofeed
unfolding narrowest_loop
narrowest_geofeed values = narrowest (λ (v : Geofeed). v.start) (λ (v : Geofeed). v.end) values

unfoldable pub best_length : ℕ → List Route → ℕ
best_length best [] = best
best_length best (r ∷ rs) =
    best_length (if ltb best r.prefix_length then r.prefix_length else best) rs

unfoldable pub of_length : ℕ → List Route → List Route
of_length best [] = []
of_length best (r ∷ rs) =
    let rest = of_length best rs in if r.prefix_length == best then r ∷ rest else rest

unfoldable pub narrowest_routes : List Route → List Route
unfolding best_length of_length
narrowest_routes [] = []
narrowest_routes (r ∷ rs) = of_length (best_length r.prefix_length rs) (r ∷ rs)
