-- ===== src/Server/CachePlan/Choice.antt =====
-- cmd/bgp-api/cache_strategy.go: what the choice of a plan guarantees.
use bgp_api.Base.{
  ℕ, ◌+◌, ◌*◌, ◌^◌, ◌≤◌, ◌<◌, ◌≡◌, ◌⊎◌, inl, inr, refl, sym, ◌∙◌, arith, Bytes, false, ltb,
  Bool-cases,
}
use bgp_api.Golang.Text.{codes}
use bgp_api.Golang.Int64.{int64, int64_less, int64_less-ltb, int64-small}
use bgp_api.Golang.ByteSlice.{compare_bytes}
use bgp_api.Server.CachePlan.{
  CachePlan, PlanResult, full_plan, balanced_plan, minimal_plan, planned, not_enough_memory,
  mebibyte, normalize, resolve_cache_plan, full_cache_requirement, minimum_balanced_requirement,
}

-- The plan that is filled in, for a request.
abbrev pub empty_plan : Bytes → ℕ → ℕ → ℕ → CachePlan
empty_plan requested memory database selector = record {
  requested = requested;
  effective = codes "";
  compact_cache_mib = 0;
  resource_cache_mib = 0;
  preload_selectors = false;
  warm_dataset_page_cache = false;
  memory_total_bytes = memory;
  database_bytes = database;
  selector_bytes = selector;
}

-- A plan that the automatic choice may give on a host: the largest whose requirement is met.
pub data Chosen (memory database selector : ℕ) (plan : CachePlan) : Type 0 where
  full :
      plan.effective ≡ codes "full"
      → database + 928 * mebibyte ≤ memory
      → Chosen memory database selector plan
  balanced :
      plan.effective ≡ codes "balanced"
      → selector + 832 * mebibyte ≤ memory
      → memory < database + 928 * mebibyte
      → Chosen memory database selector plan
  minimal :
      plan.effective ≡ codes "minimal"
      → memory < database + 928 * mebibyte
      → memory < selector + 832 * mebibyte
      → Chosen memory database selector plan

-- A requirement that fits an int64 is compared as a number.
requirement_less :
    (memory size : ℕ)
    → memory < 2 ^ 63
    → size < 2 ^ 63
    → int64_less memory (int64 size) ≡ ltb memory size
requirement_less memory size hm hs = rw (int64-small size hs) (int64_less-ltb memory size hm hs)

-- For a memory below 2 ^ 63 bytes and sizes whose sums with the caches and the reserves are below that,
-- a request that normalizes to auto always gets a plan: the full one where the memory is at least 928 MiB
-- over the database, else the balanced one where it is at least 832 MiB over the selector, else the
-- minimal one.
pub resolve_cache_plan-auto :
    (requested : Bytes) (memory database selector : ℕ)
    → memory < 2 ^ 63
    → database + 928 * mebibyte < 2 ^ 63
    → selector + 832 * mebibyte < 2 ^ 63
    → normalize requested ≡ codes "auto"
    → (plan : CachePlan) × (resolve_cache_plan requested memory database selector ≡ planned plan)
      × Chosen memory database selector plan
unfolding resolve_cache_plan compare_bytes full_cache_requirement minimum_balanced_requirement
resolve_cache_plan-auto requested memory database selector hm hd hs h =
    let plan = empty_plan (codes "auto") memory database selector in
    let of_full : int64_less memory (full_cache_requirement (full_plan plan))
        ≡ ltb memory (database + 160 * mebibyte + 768 * mebibyte) =
      requirement_less memory (database + 160 * mebibyte + 768 * mebibyte) hm (omega (arith, hd)) in
    let of_balanced : int64_less memory
          (minimum_balanced_requirement (balanced_plan (full_plan plan)))
        ≡ ltb memory (selector + 320 * mebibyte + 512 * mebibyte) =
      requirement_less memory (selector + 320 * mebibyte + 512 * mebibyte) hm (omega (arith, hs)) in
    elim (Bool-cases (int64_less memory (full_cache_requirement (full_plan plan)))) [
      | inr enough ↦
          (full_plan plan, rw h (rw enough), full refl (ground (arith, sym of_full ∙ enough)))
      | inl short ↦
          elim (Bool-cases
            (int64_less memory (minimum_balanced_requirement (balanced_plan (full_plan plan))))) [
              | inr enough ↦ (
                balanced_plan (full_plan plan),
                rw h (rw (short, enough)),
                balanced refl (ground (arith, sym of_balanced ∙ enough))
                    (ground (arith, sym of_full ∙ short)),
              )
              | inl small ↦ (
                minimal_plan (balanced_plan (full_plan plan)),
                rw h (rw (short, small)),
                minimal refl (ground (arith, sym of_full ∙ short))
                    (ground (arith, sym of_balanced ∙ small)),
              )
            ]
    ]

-- What the requests for full and for auto give on one host.
pub data FullAndAuto (full_result auto_result : PlanResult) : Type 0 where
  refused :
      (plan : CachePlan)
      → full_result ≡ not_enough_memory
      → auto_result ≡ planned plan
      → (plan.effective ≡ codes "balanced") ⊎ (plan.effective ≡ codes "minimal")
      → FullAndAuto full_result auto_result
  granted :
      (plan : CachePlan)
      → full_result ≡ planned plan
      → auto_result ≡ planned (record plan { requested = codes "auto" })
      → plan.effective ≡ codes "full"
      → FullAndAuto full_result auto_result

-- On any host and for any sizes, also where a sum wraps around: where a request that normalizes to full
-- is refused, one that normalizes to auto gets the balanced or the minimal plan; where the first one gets
-- a plan, that is a full one, and the second one gets the same, but for the name of the request.
pub resolve_cache_plan-FullAndAuto :
    (full_request auto_request : Bytes) (memory database selector : ℕ)
    → normalize full_request ≡ codes "full"
    → normalize auto_request ≡ codes "auto"
    → FullAndAuto
        (resolve_cache_plan full_request memory database selector)
        (resolve_cache_plan auto_request memory database selector)
unfolding resolve_cache_plan compare_bytes full_cache_requirement minimum_balanced_requirement
resolve_cache_plan-FullAndAuto full_request auto_request memory database selector hf ha =
    let f = empty_plan (codes "full") memory database selector in
    let a = empty_plan (codes "auto") memory database selector in
    elim (Bool-cases (int64_less memory (full_cache_requirement (full_plan a)))) [
      | inr enough ↦ granted (full_plan f) (rw hf (rw enough refl)) (rw ha (rw enough refl)) refl
      | inl short ↦
          elim (Bool-cases
            (int64_less memory (minimum_balanced_requirement (balanced_plan (full_plan a))))) [
              | inr enough ↦
                  refused (balanced_plan (full_plan a)) (rw hf (rw short refl))
                    (rw ha (rw (short, enough) refl)) (inl refl)
              | inl small ↦
                  refused (minimal_plan (balanced_plan (full_plan a))) (rw hf (rw short refl))
                    (rw ha (rw (short, small) refl)) (inr refl)
            ]
    ]
