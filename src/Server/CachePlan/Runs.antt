-- ===== src/Server/CachePlan/Runs.antt =====
-- The cache plan of two hosts.
use bgp_api.Base.{◌*◌, ◌≡◌, refl, arith}
use bgp_api.Golang.Text.{codes, trim_space, trim_left, trim_right, to_lower}
use bgp_api.Server.CachePlan.{CachePlan, planned, mebibyte, normalize, resolve_cache_plan}
use bgp_api.Server.CachePlan.Choice.{
  Chosen, resolve_cache_plan-auto, FullAndAuto, resolve_cache_plan-FullAndAuto,
}

auto_text : normalize (codes " Auto ") ≡ codes "auto"
unfolding normalize trim_space trim_left trim_right to_lower
auto_text = refl

full_text : normalize (codes "full") ≡ codes "full"
unfolding normalize trim_space trim_left trim_right to_lower
full_text = refl

resolve_cache_plan-auto_example :
    (plan : CachePlan) × (resolve_cache_plan
        (codes " Auto ")
        (4096 * mebibyte)
        (3000 * mebibyte)
        (300 * mebibyte)
      ≡ planned plan)
    × Chosen (4096 * mebibyte) (3000 * mebibyte) (300 * mebibyte) plan
resolve_cache_plan-auto_example =
    resolve_cache_plan-auto (codes " Auto ") (4096 * mebibyte) (3000 * mebibyte) (300 * mebibyte)
      (omega arith) (omega arith) (omega arith) auto_text

resolve_cache_plan-FullAndAuto_example :
    FullAndAuto
      (resolve_cache_plan (codes "full") (2048 * mebibyte) (3000 * mebibyte) (300 * mebibyte))
      (resolve_cache_plan (codes " Auto ") (2048 * mebibyte) (3000 * mebibyte) (300 * mebibyte))
resolve_cache_plan-FullAndAuto_example =
    resolve_cache_plan-FullAndAuto (codes "full") (codes " Auto ") (2048 * mebibyte)
      (3000 * mebibyte) (300 * mebibyte) full_text auto_text
