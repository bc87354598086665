-- ===== src/Server/CachePlan.antt =====
-- cmd/bgp-api/cache_strategy.go: which caches a host's memory allows. The sizes in bytes are words of
-- Golang.Int64, whose sums wrap around.
mod Runs
pub mod Choice
use bgp_api.Base.{ℕ, ◌+◌, ◌*◌, ◌^◌, Bytes, [], ◌∷◌, Bool, true, false, not, if◌then◌else◌}
use bgp_api.Golang.Int64.{int64, int64_less}
use bgp_api.Golang.ByteSlice.{bytes_equal}
use bgp_api.Golang.Text.{codes, trim_space, to_lower}

pub record CachePlan : Type 0 where
  pub requested : Bytes
  pub effective : Bytes
  pub compact_cache_mib : ℕ
  pub resource_cache_mib : ℕ
  pub preload_selectors : Bool
  pub warm_dataset_page_cache : Bool
  pub memory_total_bytes : ℕ
  pub database_bytes : ℕ
  pub selector_bytes : ℕ

abbrev pub mebibyte : ℕ
mebibyte = 2 ^ 20

abbrev pub balanced_system_reserve : ℕ
balanced_system_reserve = 512 * mebibyte

abbrev pub full_dataset_system_reserve : ℕ
full_dataset_system_reserve = 768 * mebibyte

unfoldable pub full_cache_requirement : CachePlan → ℕ
full_cache_requirement plan = int64 (
    plan.database_bytes
    + (plan.compact_cache_mib + plan.resource_cache_mib) * mebibyte
    + full_dataset_system_reserve)

unfoldable pub minimum_balanced_requirement : CachePlan → ℕ
minimum_balanced_requirement plan = int64 (
    plan.selector_bytes
    + (plan.compact_cache_mib + plan.resource_cache_mib) * mebibyte
    + balanced_system_reserve)

-- The three closures, over the plan that they fill in.
abbrev pub full_plan : CachePlan → CachePlan
full_plan plan = record plan {
  effective = codes "full";
  compact_cache_mib = 128;
  resource_cache_mib = 32;
  preload_selectors = false;
  warm_dataset_page_cache = true;
}

abbrev pub balanced_plan : CachePlan → CachePlan
balanced_plan plan = record plan {
  effective = codes "balanced";
  compact_cache_mib = 256;
  resource_cache_mib = 64;
  preload_selectors = true;
  warm_dataset_page_cache = false;
}

abbrev pub minimal_plan : CachePlan → CachePlan
minimal_plan plan = record plan {
  effective = codes "minimal";
  compact_cache_mib = 64;
  resource_cache_mib = 16;
  preload_selectors = false;
  warm_dataset_page_cache = false;
}

pub data PlanResult : Type 0 where
  planned : CachePlan → PlanResult
  not_enough_memory unknown_strategy : PlanResult

-- An empty request asks for the automatic choice.
abbrev or_auto : Bytes → Bytes
or_auto [] = codes "auto"
or_auto (c ∷ s) = c ∷ s

unfoldable pub normalize : Bytes → Bytes
unfolding trim_space to_lower
normalize requested = or_auto (to_lower (trim_space requested))

unfoldable pub resolve_cache_plan : Bytes → ℕ → ℕ → ℕ → PlanResult
unfolding normalize full_cache_requirement minimum_balanced_requirement
resolve_cache_plan requested memory_total database_bytes selector_bytes =
    let requested' = normalize requested in
    let plan : CachePlan = record {
      requested = requested';
      effective = codes "";
      compact_cache_mib = 0;
      resource_cache_mib = 0;
      preload_selectors = false;
      warm_dataset_page_cache = false;
      memory_total_bytes = memory_total;
      database_bytes = database_bytes;
      selector_bytes = selector_bytes;
    } in
    if bytes_equal requested' (codes "minimal")
    then planned (minimal_plan plan)
    else if bytes_equal requested' (codes "balanced")
    then planned (balanced_plan plan)
    else if bytes_equal requested' (codes "full")
    then (if int64_less memory_total (full_cache_requirement (full_plan plan))
        then not_enough_memory
        else planned (full_plan plan))
    else if bytes_equal requested' (codes "auto")
    then (if not (int64_less memory_total (full_cache_requirement (full_plan plan)))
        then planned (full_plan plan)
        else if not (
            int64_less memory_total (minimum_balanced_requirement (balanced_plan (full_plan plan))))
        then planned (balanced_plan (full_plan plan))
        else planned (minimal_plan (balanced_plan (full_plan plan))))
    else unknown_strategy
