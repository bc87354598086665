-- ===== src/Boltstore/Summaries/TopTen.antt =====
-- internal/boltstore/build.go: which facets rankedFacets gives, and in which order.
use Prim.Native.Nat.{min, Ordering}
use native.Mathlib.Decide.{ℕ_discrete, dec_lt}
use bgp_api.Base.{
  ℕ, zero, suc, ◌<◌, ◌≡◌, ◌≢◌, ◌⊎◌, inl, inr, refl, sym, ap, ◌∙◌, arith, List, [], ◌∷◌, ◌++◌, take,
  drop, length, All,
}
use bgp_api.Golang.ByteSlice.{compare_bytes}
use bgp_api.Boltstore.Summary.{Facet}
use bgp_api.Boltstore.Summaries.{Counts, compare_facets, insert_facet, sort_facets, ranked_facets}
use bgp_api.Boltstore.Summaries.Ranking.{
  Reordered, nothing, keep, exchange, then, IsRanked, sort_facets-IsRanked, insert_nil,
  insert_above, insert_below, above_cases,
}

-- A greater count, or the same count and a text that is not behind the other one.
abbrev pub Before : Facet → Facet → Type 0
Before f g =
    (g.count < f.count) ⊎ ((f.count ≡ g.count) × (compare_bytes f.value g.value ≢ Ordering.gt))

-- Each facet stands before all that follow.
abbrev pub InOrder : List Facet → Type 0
InOrder [] = Unit {0}
InOrder (f ∷ fs) = All (Before f) fs × InOrder fs

-- The first ten, or all, of the entries of a map in order; `rest` are the entries that are left out.
pub record TopTen (values : Counts) (top : List Facet) : Type 0 where
  pub rest : List Facet
  pub entries : Reordered values (top ++ rest)
  pub in_order : InOrder (top ++ rest)
  pub size : length top ≡ min 10 (length values)

compare_facets-Before : (f g : Facet) → compare_facets f g ≢ Ordering.gt → Before f g
unfolding compare_facets
compare_facets-Before f g h = elim (dec_lt g.count f.count) [
  | yes more ↦ inl more
  | no fewer ↦ elim (ℕ_discrete f.count g.count) [
    | yes same ↦ inr (same, λ behind. h (ground (arith, behind)))
    | no other ↦ absurd (h (ground arith))
  ]
]

All-Before :
    (f : Facet) (gs : List Facet)
    → All (λ g. compare_facets f g ≢ Ordering.gt) gs
    → All (Before f) gs
All-Before f [] h = tt
All-Before f (g ∷ gs) h = (compare_facets-Before f g h.0, All-Before f gs h.1)

IsRanked-InOrder : (fs : List Facet) → IsRanked fs → InOrder fs
IsRanked-InOrder [] h = tt
IsRanked-InOrder (f ∷ fs) h = (All-Before f fs h.0, IsRanked-InOrder fs h.1)

same_order : (fs : Counts) → Reordered fs fs
same_order [] = nothing
same_order (f ∷ fs) = keep f (same_order fs)

insert_facet-Reordered : (f : Facet) (gs : List Facet) → Reordered (f ∷ gs) (insert_facet f gs)
insert_facet-Reordered f [] = rw (insert_nil f) (same_order (f ∷ []))
insert_facet-Reordered f (g ∷ gs) = elim (above_cases f g) [
  | inl above ↦
      rw (insert_above f g gs above) (then (exchange f g gs) (keep g (insert_facet-Reordered f gs)))
  | inr below ↦ rw (insert_below f g gs below) (same_order (f ∷ g ∷ gs))
]

sort_facets-entries : (fs : Counts) → Reordered fs (sort_facets fs)
unfolding sort_facets
sort_facets-entries [] = nothing
sort_facets-entries (f ∷ fs) =
    then (keep f (sort_facets-entries fs)) (insert_facet-Reordered f (sort_facets fs))

length-Reordered : {fs gs : Counts} → Reordered fs gs → length fs ≡ length gs
length-Reordered nothing = refl
length-Reordered (keep f h) = ap suc (length-Reordered h)
length-Reordered (exchange f g fs) = refl
length-Reordered (then h k) = length-Reordered h ∙ length-Reordered k

take-drop : (n : ℕ) (fs : List Facet) → take n fs ++ drop n fs ≡ fs
take-drop zero fs = refl
take-drop (suc n) [] = refl
take-drop (suc n) (f ∷ fs) = ap (λ t. f ∷ t) (take-drop n fs)

length-take-min : (n : ℕ) (fs : List Facet) → length (take n fs) ≡ min n (length fs)
length-take-min zero fs = omega arith
length-take-min (suc n) [] = omega arith
length-take-min (suc n) (f ∷ fs) = omega (arith, length-take-min n fs)

-- rankedFacets gives ten entries of the map, or all where there are fewer. Together with the entries
-- that are left out they are the entries of the map in an order in which each stands before all that
-- follow: it has a greater count, or the same count and a text that bytes.Compare does not put behind
-- the other one.
pub ranked_facets-TopTen : (values : Counts) → TopTen values (ranked_facets values)
unfolding ranked_facets
ranked_facets-TopTen values =
    let sorted = sort_facets values in
    let whole = take-drop 10 sorted in
    record {
      rest = drop 10 sorted;
      entries = rw whole (sort_facets-entries values);
      in_order = rw whole (IsRanked-InOrder sorted (sort_facets-IsRanked values));
      size =
          length-take-min 10 sorted
          ∙ ap (min 10) (sym (length-Reordered (sort_facets-entries values)));
    }
