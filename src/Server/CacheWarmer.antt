-- ===== src/Server/CacheWarmer.antt =====
-- cmd/bgp-api/main.go: the warm-up of the caches, of which one runs at a time.
use bgp_api.Base.{Bool, true, false, if◌then◌else◌}

-- What a warm-up does is no part of the state; it succeeds or fails.
pub record RuntimeCacheWarmer : Type 0 where
  pub running : Bool

unfoldable pub begin : RuntimeCacheWarmer → Bool × RuntimeCacheWarmer
begin warmer = if warmer.running then (false, warmer) else (true, record { running = true })

unfoldable pub finish : RuntimeCacheWarmer → RuntimeCacheWarmer
finish warmer = record { running = false }

pub data WarmResult : Type 0 where
  in_progress : WarmResult
  finished : Bool → WarmResult

-- Warm, where `warmed` tells whether `warm` succeeds.
unfoldable pub warm_up : Bool → RuntimeCacheWarmer → WarmResult × RuntimeCacheWarmer
warm_up warmed warmer =
    let (started, warmer') = begin warmer in
    if started then (finished warmed, finish warmer') else (in_progress, warmer')
