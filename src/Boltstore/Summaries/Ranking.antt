-- ===== src/Boltstore/Summaries/Ranking.antt =====
-- internal/boltstore/build.go: rankedFacets does not depend on the order in which a map is walked.
use Prim.Native.Nat.{compare, Ordering}
use bgp_api.Base.{ℕ, ◌≡◌, ◌≢◌, ◌⊎◌, inl, inr, refl, sym, ap, ◌∙◌, arith, List, [], ◌∷◌, take, All}
use bgp_api.Golang.ByteSlice.{compare_bytes}
use bgp_api.Golang.ByteSlice.Total.{
  flip, compare-flip, compare_bytes-flip, and_then-flip, Fits, and_then-Fits, compare_bytes-Fits,
  compare_bytes-eq,
}
use bgp_api.Boltstore.Summary.{Facet}
use bgp_api.Boltstore.Summaries.{Counts, compare_facets, insert_facet, sort_facets, ranked_facets}

compare_facets-flip : (f g : Facet) → compare_facets g f ≡ flip (compare_facets f g)
unfolding compare_facets
compare_facets-flip f g =
    rw (compare-flip g.count f.count, compare_bytes-flip f.value g.value)
      (and_then-flip (compare g.count f.count) (compare_bytes f.value g.value))

compare_down-Fits : (x y z : ℕ) → Fits (compare y x) (compare z y) (compare z x)
compare_down-Fits x y z = record {
  above = λ h k. ground arith;
  same_left = λ h. ground arith;
  same_right = λ h. ground arith;
  below = λ h k. ground arith;
  over = λ h k. ground arith;
}

compare_facets-Fits :
    (f g h : Facet) → Fits (compare_facets f g) (compare_facets g h) (compare_facets f h)
unfolding compare_facets
compare_facets-Fits f g h =
    and_then-Fits (compare g.count f.count) (compare h.count g.count) (compare h.count f.count) _ _
      _ (compare_down-Fits f.count g.count h.count) (compare_bytes-Fits f.value g.value h.value)

compare_facets-eq : (f g : Facet) → compare_facets f g ≡ Ordering.eq → f ≡ g
unfolding compare_facets
compare_facets-eq f g h =
    let p : (g.count ≡ f.count) × (compare_bytes f.value g.value ≡ Ordering.eq) = ground arith in
    let v = compare_bytes-eq f.value g.value p.1 in cc

order_cases : (o : Ordering) → (o ≡ Ordering.gt) ⊎ ((o ≡ Ordering.lt) ⊎ (o ≡ Ordering.eq))
order_cases Ordering.lt = inr (inl refl)
order_cases Ordering.eq = inr (inr refl)
order_cases Ordering.gt = inl refl

pub above_cases :
    (f g : Facet) → (compare_facets f g ≡ Ordering.gt) ⊎ (compare_facets f g ≢ Ordering.gt)
above_cases f g = elim (order_cases (compare_facets f g)) [
  | inl above ↦ inl above
  | inr (inl less) ↦ inr (λ e. cc)
  | inr (inr same) ↦ inr (λ e. cc)
]

-- The result of an insertion, by the comparison with the head.
pub insert_above :
    (f g : Facet) (gs : List Facet)
    → compare_facets f g ≡ Ordering.gt
    → insert_facet f (g ∷ gs) ≡ g ∷ insert_facet f gs
unfolding insert_facet
insert_above f g gs h = simp (insert_facet, h) refl

pub insert_below :
    (f g : Facet) (gs : List Facet)
    → compare_facets f g ≢ Ordering.gt
    → insert_facet f (g ∷ gs) ≡ f ∷ g ∷ gs
unfolding insert_facet
insert_below f g gs h = elim (order_cases (compare_facets f g)) [
  | inl above ↦ absurd (h above)
  | inr (inl less) ↦ simp (insert_facet, less) refl
  | inr (inr same) ↦ simp (insert_facet, same) refl
]

not_above : (f g : Facet) → compare_facets f g ≡ Ordering.gt → compare_facets g f ≢ Ordering.gt
not_above f g h e =
    let k = compare_facets-flip f g in
    let l : flip (compare_facets f g) ≡ Ordering.lt = rw h refl in cc

neither :
    (f g : Facet) → compare_facets f g ≢ Ordering.gt → compare_facets g f ≢ Ordering.gt → f ≡ g
neither f g h k = elim (order_cases (compare_facets f g)) [
  | inl above ↦ absurd (h above)
  | inr (inl less) ↦ absurd (k (compare_facets-flip f g ∙ ap flip less))
  | inr (inr same) ↦ compare_facets-eq f g same
]

-- Two facets in front of a list whose head is above neither.
swap_front :
    (f g : Facet) (l : List Facet)
    → insert_facet f l ≡ f ∷ l
    → insert_facet g l ≡ g ∷ l
    → insert_facet f (g ∷ l) ≡ insert_facet g (f ∷ l)
swap_front f g l hf hg = elim (above_cases f g) [
  | inl above ↦
      insert_above f g l above ∙ ap (λ t. g ∷ t) hf ∙ sym (insert_below g f l (not_above f g above))
  | inr below ↦ elim (above_cases g f) [
    | inl above ↦
        insert_below f g l below ∙ ap (λ t. f ∷ t) (sym hg) ∙ sym (insert_above g f l above)
    | inr other ↦
        let e = neither f g below other in
        ap (λ t. insert_facet f (t ∷ l)) (sym e) ∙ ap (λ t. insert_facet t (f ∷ l)) e
  ]
]

-- One of the two is above the head of the list and the other is not.
swap_mixed :
    (f g h : Facet) (hs : List Facet)
    → compare_facets f h ≡ Ordering.gt
    → compare_facets g h ≢ Ordering.gt
    → insert_facet f (insert_facet g (h ∷ hs)) ≡ insert_facet g (insert_facet f (h ∷ hs))
swap_mixed f g h hs a b =
    let fg = (compare_facets-Fits f g h).above b a in
    ap (insert_facet f) (insert_below g h hs b)
    ∙ insert_above f g (h ∷ hs) fg
    ∙ ap (λ t. g ∷ t) (insert_above f h hs a)
    ∙ sym (ap (insert_facet g) (insert_above f h hs a) ∙ insert_below g h (insert_facet f hs) b)

pub insert_nil : (f : Facet) → insert_facet f [] ≡ f ∷ []
unfolding insert_facet
insert_nil f = refl

insert_swap :
    (f g : Facet) (l : List Facet)
    → insert_facet f (insert_facet g l) ≡ insert_facet g (insert_facet f l)
insert_swap f g [] =
    ap (insert_facet f) (insert_nil g)
    ∙ swap_front f g [] (insert_nil f) (insert_nil g)
    ∙ sym (ap (insert_facet g) (insert_nil f))
insert_swap f g (h ∷ hs) = elim (above_cases f h) [
  | inl fa ↦ elim (above_cases g h) [
    | inl ga ↦
        ap (insert_facet f) (insert_above g h hs ga)
        ∙ insert_above f h (insert_facet g hs) fa
        ∙ ap (λ t. h ∷ t) (insert_swap f g hs)
        ∙ sym
            (ap (insert_facet g) (insert_above f h hs fa) ∙ insert_above g h (insert_facet f hs) ga)
    | inr gb ↦ swap_mixed f g h hs fa gb
  ]
  | inr fb ↦ elim (above_cases g h) [
    | inl ga ↦ sym (swap_mixed g f h hs ga fb)
    | inr gb ↦
        ap (insert_facet f) (insert_below g h hs gb)
        ∙ swap_front f g (h ∷ hs) (insert_below f h hs fb) (insert_below g h hs gb)
        ∙ sym (ap (insert_facet g) (insert_below f h hs fb))
  ]
]

-- Two orders of the entries of one map.
pub data Reordered : Counts → Counts → Type 0 where
  nothing : Reordered [] []
  keep : (f : Facet) {fs gs : Counts} → Reordered fs gs → Reordered (f ∷ fs) (f ∷ gs)
  exchange : (f g : Facet) (fs : Counts) → Reordered (f ∷ g ∷ fs) (g ∷ f ∷ fs)
  then : {fs gs hs : Counts} → Reordered fs gs → Reordered gs hs → Reordered fs hs

sort_facets-Reordered : {fs gs : Counts} → Reordered fs gs → sort_facets fs ≡ sort_facets gs
unfolding sort_facets
sort_facets-Reordered nothing = refl
sort_facets-Reordered (keep f h) = ap (insert_facet f) (sort_facets-Reordered h)
sort_facets-Reordered (exchange f g fs) = insert_swap f g (sort_facets fs)
sort_facets-Reordered (then h k) = sort_facets-Reordered h ∙ sort_facets-Reordered k

-- In whatever order the entries of a map are walked, rankedFacets gives the same facets.
pub ranked_facets-Reordered :
    {fs gs : Counts} → Reordered fs gs → ranked_facets fs ≡ ranked_facets gs
unfolding ranked_facets
ranked_facets-Reordered h = ap (take 10) (sort_facets-Reordered h)

-- No facet is above one that comes later.
abbrev pub IsRanked : List Facet → Type 0
IsRanked [] = Unit {0}
IsRanked (f ∷ fs) = All (λ g. compare_facets f g ≢ Ordering.gt) fs × IsRanked fs

All-insert_facet :
    (P : Facet → Type 0) (f : Facet) (gs : List Facet) → P f → All P gs → All P (insert_facet f gs)
All-insert_facet P f [] h hs = rw (insert_nil f) (h, tt)
All-insert_facet P f (g ∷ gs) h hs = elim (above_cases f g) [
  | inl above ↦ rw (insert_above f g gs above) (hs.0, All-insert_facet P f gs h hs.1)
  | inr below ↦ rw (insert_below f g gs below) (h, hs)
]

All-later_facets :
    (f g : Facet) (gs : List Facet)
    → compare_facets f g ≢ Ordering.gt
    → All (λ x. compare_facets g x ≢ Ordering.gt) gs
    → All (λ x. compare_facets f x ≢ Ordering.gt) gs
All-later_facets f g [] h hs = tt
All-later_facets f g (x ∷ gs) h hs =
    ((λ above. h ((compare_facets-Fits f g x).above hs.0 above)), All-later_facets f g gs h hs.1)

insert_facet-IsRanked : (f : Facet) (gs : List Facet) → IsRanked gs → IsRanked (insert_facet f gs)
insert_facet-IsRanked f [] h = rw (insert_nil f) (tt, tt)
insert_facet-IsRanked f (g ∷ gs) h = elim (above_cases f g) [
  | inl above ↦ rw (insert_above f g gs above) (
    All-insert_facet (λ x. compare_facets g x ≢ Ordering.gt) f gs (not_above f g above) h.0,
    insert_facet-IsRanked f gs h.1,
  )
  | inr below ↦ rw (insert_below f g gs below) ((below, All-later_facets f g gs below h.0), h)
]

pub sort_facets-IsRanked : (fs : Counts) → IsRanked (sort_facets fs)
unfolding sort_facets
sort_facets-IsRanked [] = tt
sort_facets-IsRanked (f ∷ fs) = insert_facet-IsRanked f (sort_facets fs) (sort_facets-IsRanked fs)
