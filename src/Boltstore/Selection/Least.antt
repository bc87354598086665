-- ===== src/Boltstore/Selection/Least.antt =====
-- internal/boltstore/selection_lpm.go: of the candidates that are inserted at one prefix, a node keeps the
-- least one.
use Prim.Native.Nat.{compare, Ordering}
use bgp_api.Base.{
  ℕ, ◌<◌, ◌≡◌, ◌↔◌, ◌⊎◌, arith, Bool, true, false, List, [], ◌∷◌, All, Option, none, some, ltb,
}
use bgp_api.Golang.ByteSlice.{compare_bytes, and_then, number}
use bgp_api.Boltstore.Keys.Order.{IsAddress, compare_addresses}
use bgp_api.Boltstore.Selection.{Candidate, selection_candidate_less, place_candidate}

order_iff :
    (a b i j : ℕ)
    → ((elim (compare a b) as (λ _. Bool) [
      | Ordering.lt ↦ true
      | Ordering.gt ↦ false
      | Ordering.eq ↦ ltb i j
    ])
        ≡ true)
      ↔ ((a < b) ⊎ ((a ≡ b) × (i < j)))
order_iff a b i j = (λ h. ground arith, λ h. ground arith)

-- For widths of sixteen bytes, selectionCandidateLess prefers the smaller width as a number, and of equal
-- widths the smaller ID.
selection_candidate_less_iff :
    (l r : Candidate)
    → IsAddress l.width
    → IsAddress r.width
    → (selection_candidate_less l r ≡ true)
      ↔ ((number l.width < number r.width) ⊎ ((number l.width ≡ number r.width) × (l.id < r.id)))
unfolding selection_candidate_less
selection_candidate_less_iff l r hl hr =
    let e = compare_addresses l.width r.width hl hr in
    rw (selection_candidate_less, e) (order_iff (number l.width) (number r.width) l.id r.id)

abbrev compare_candidates : Candidate → Candidate → Ordering
compare_candidates l r = and_then (compare_bytes l.width r.width) (compare l.id r.id)

abbrev is_less : Ordering → Bool
is_less Ordering.lt = true
is_less Ordering.eq = false
is_less Ordering.gt = false

pub data Among (c : Candidate) : List Candidate → Type 0 where
  here : {cs : List Candidate} → Among c (c ∷ cs)
  later : {d : Candidate} {cs : List Candidate} → Among c cs → Among c (d ∷ cs)

-- The candidate of a node after insertions at its prefix, one after another.
abbrev pub place_all : Candidate → List Candidate → Option Candidate
place_all old [] = some old
place_all old (c ∷ cs) = elim (place_candidate old c) [
  | none ↦ none
  | some kept ↦ place_all kept cs
]

-- The least of an old candidate and the ones that come after it.
record Least (old : Candidate) (cs : List Candidate) (best : Candidate) : Type 0 where
  result : place_all old cs ≡ some best
  source : (best ≡ old) ⊎ Among best cs
  first : selection_candidate_less old best ≡ false
  others : All (λ c. selection_candidate_less c best ≡ false) cs
