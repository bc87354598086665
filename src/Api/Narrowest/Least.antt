-- ===== src/Api/Narrowest/Least.antt =====
-- internal/api/bbolt.go: the narrowest record has the least width.
use Prim.Native.Nat.{compare}
use bgp_api.Base.{
  ℕ, ◌-◌, ◌^◌, ◌≤◌, ◌<◌, ◌≡◌, ◌⊎◌, inl, inr, refl, ap, ◌∙◌, arith, true, false, All, List, [], ◌∷◌,
  some, Bool-cases,
}
use mathlib.Core.List.{Memᴰ}
use bgp_api.Golang.ByteSlice.{number}
use bgp_api.Golang.ByteSlice.Order.{number_lt}
use bgp_api.Boltstore.Keys.{Address}
use bgp_api.Boltstore.Keys.Order.{IsAddress, compare_addresses}
use bgp_api.Boltstore.Record.{Allocation}
use bgp_api.Boltstore.Selection.{selection_range_width}
use bgp_api.Boltstore.Selection.Width.{
  number-selection_range_width, selection_range_width-IsAddress,
}
use bgp_api.Api.Narrowest.{
  subtract_address, range_width_compare, narrower, narrowest_loop, narrowest_allocation,
}

-- Addresses of sixteen bytes, the first not above the second.
pub record IsBounds (start end : Address) : Type 0 where
  pub first : IsAddress start
  pub last : IsAddress end
  pub order : number start ≤ number end

-- How many addresses lie behind the first one.
abbrev pub width : Address → Address → ℕ
width start end = number end - number start

subtract_address-selection_range_width :
    (start end : Address) → subtract_address end start ≡ selection_range_width start end
unfolding subtract_address selection_range_width
subtract_address-selection_range_width start end = refl

width_number :
    (start end : Address)
    → IsBounds start end
    → number (subtract_address end start) ≡ width start end
width_number start end h =
    let lt : number end < 2 ^ 128 = rw h.last.size at (number_lt end h.last.bytes) in
    ap number (subtract_address-selection_range_width start end)
    ∙ number-selection_range_width start end h.first h.last
    ∙ omega (arith, h.order)

range_width_compare-width :
    (s e s' e' : Address)
    → IsBounds s e
    → IsBounds s' e'
    → range_width_compare s e s' e' ≡ compare (width s e) (width s' e')
unfolding range_width_compare
range_width_compare-width s e s' e' h h' =
    compare_addresses (subtract_address e s) (subtract_address e' s')
      (rw (subtract_address-selection_range_width s e)
        (selection_range_width-IsAddress s e h.first h.last))
      (rw (subtract_address-selection_range_width s' e')
        (selection_range_width-IsAddress s' e' h'.first h'.last))
    ∙ rw (width_number s e h, width_number s' e' h') refl

module _ {A : Type 0} (start end : A → Address) where
  abbrev Bounded : A → Type 0
  Bounded a = IsBounds (start a) (end a)

  abbrev width_of : A → ℕ
  width_of a = width (start a) (end a)

  -- The best of the first one and the ones behind it.
  record Narrowest (first : A) (values : List A) (best : A) : Type 0 where
    result : narrowest_loop start end first values ≡ best
    source : (best ≡ first) ⊎ Memᴰ best values
    le_first : width_of best ≤ width_of first
    le_others : All (λ a. width_of best ≤ width_of a) values

  narrower-true :
      (a b : A) → Bounded a → Bounded b → narrower start end a b ≡ true → width_of a < width_of b
  narrower-true a b ha hb e =
      ground (arith, range_width_compare-width (start a) (end a) (start b) (end b) ha hb)

  narrower-false :
      (a b : A) → Bounded a → Bounded b → narrower start end a b ≡ false → width_of b ≤ width_of a
  narrower-false a b ha hb e =
      ground (arith, range_width_compare-width (start a) (end a) (start b) (end b) ha hb)

  replaced :
      (first a : A) (values : List A) (best : A)
      → width_of a < width_of first
      → narrowest_loop start end first (a ∷ values) ≡ narrowest_loop start end a values
      → Narrowest a values best
      → Narrowest first (a ∷ values) best
  replaced first a values best lt e r = record {
    result = e ∙ r.result;
    source = inr (elim r.source [ inl s ↦ Memᴰ.head s | inr m ↦ Memᴰ.tail m ]);
    le_first = omega (arith, r.le_first);
    le_others = (r.le_first, r.le_others);
  }

  kept :
      (first a : A) (values : List A) (best : A)
      → width_of first ≤ width_of a
      → narrowest_loop start end first (a ∷ values) ≡ narrowest_loop start end first values
      → Narrowest first values best
      → Narrowest first (a ∷ values) best
  kept first a values best le e r = record {
    result = e ∙ r.result;
    source = elim r.source [ inl s ↦ inl s | inr m ↦ inr (Memᴰ.tail m) ];
    le_first = r.le_first;
    le_others = (omega (arith, r.le_first), r.le_others);
  }

  Narrowest-of :
      (first : A) (values : List A)
      → Bounded first
      → All Bounded values
      → (best : A) × Narrowest first values best
  unfolding narrowest_loop
  Narrowest-of first [] h hs = (
    first,
    record {
      result = unfold narrowest_loop in refl;
      source = inl refl;
      le_first = omega arith;
      le_others = tt;
    },
  )
  Narrowest-of first (a ∷ values) h hs = elim (Bool-cases (narrower start end a first)) [
    | inl e ↦
        let (best, r) = Narrowest-of a values hs.0 hs.1 in
        (
          best,
          replaced first a values best (narrower-true a first hs.0 h e)
              (simp (narrowest_loop, e) refl) r,
        )
    | inr e ↦
        let (best, r) = Narrowest-of first values h hs.1 in
        (
          best,
          kept first a values best (narrower-false a first hs.0 h e) (simp (narrowest_loop, e) refl)
              r,
        )
  ]

-- The allocation that narrowestAllocation takes from one or more allocations is one of them, and none of
-- them spans fewer addresses; for bounds of sixteen bytes that are in order.
pub narrowest_allocation-Narrowest :
    (a : Allocation) (values : List Allocation)
    → All (λ (v : Allocation). IsBounds v.start v.end) (a ∷ values)
    → (best : Allocation) × (narrowest_allocation (a ∷ values) ≡ some best)
      × Memᴰ best (a ∷ values)
      × All (λ (v : Allocation). width best.start best.end ≤ width v.start v.end) (a ∷ values)
unfolding narrowest_allocation
narrowest_allocation-Narrowest a values h =
    let (best, r) =
      Narrowest-of (λ (v : Allocation). v.start) (λ (v : Allocation). v.end) a values h.0 h.1 in
    (
      best,
      ap some r.result,
      elim r.source [ inl s ↦ Memᴰ.head s | inr m ↦ Memᴰ.tail m ],
      (r.le_first, r.le_others),
    )
