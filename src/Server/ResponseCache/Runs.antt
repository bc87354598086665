-- ===== src/Server/ResponseCache/Runs.antt =====
-- The cache of responses, in a budget of 6400 bytes: 200 for each shard.
use bgp_api.Base.{
  none, ◌≡◌, ◌≤◌, refl, arith, true, false, [], ◌∷◌, get_elem?, some, if◌then◌else◌, ◌==◌,
}
use bgp_api.Golang.Text.{codes}
use bgp_api.Server.ResponseCache.{
  Shard, ResponseCache, empty_shard, new_response_cache, make_shards, perform_all, get_key, add_key,
  acquire_key, release_key, switch_off, total_used, shard_get, shard_add, evict_loop, shard_index,
  hash_loop, get, add, acquire_round, producer, waits,
}
use bgp_api.Server.ResponseCache.Accounts.{IsShard}
use bgp_api.Server.ResponseCache.Evict.{Evicted, Added, evict_loop_lem, shard_add_lem}
use bgp_api.Server.ResponseCache.Bounded.{perform_all-total_used}
use bgp_api.Server.ResponseCache.Lookup.{get-add, acquire_round-waits}

abbrev test_cache : ResponseCache
test_cache = record {
  shards = make_shards 32 0 6400 100;
  flights = λ _. none;
  closed = λ _. false;
  next_flight = 0;
  enabled = true;
}

made : new_response_cache 6400 9 100 ≡ some test_cache
unfolding new_response_cache
made = refl

empty_shard-IsShard : IsShard (empty_shard 200 100)
empty_shard-IsShard = record {
  used = refl;
  found = λ k. refl;
  distinct = tt;
  fresh = tt;
  sized = tt;
}

evict_loop_lem_example :
    (s' : Shard) × (evict_loop 3 (empty_shard 200 100) ≡ some s') × Evicted (empty_shard 200 100) s'
evict_loop_lem_example = evict_loop_lem 3 (empty_shard 200 100) empty_shard-IsShard (omega arith)

shard_add_lem_example :
    (s' : Shard) × (shard_add (empty_shard 200 100) (codes "ip:1") (codes "{}") ≡ some s')
    × Added (empty_shard 200 100) (codes "ip:1") (codes "{}") s'
shard_add_lem_example =
    shard_add_lem (empty_shard 200 100) (codes "ip:1") (codes "{}") empty_shard-IsShard

perform_all-total_used_example :
    (cache' : ResponseCache) × (perform_all
        (add_key (codes "ip:1") (codes "{}")
          ∷ get_key (codes "ip:1")
          ∷ acquire_key (codes "ip:2")
          ∷ release_key (codes "ip:2") 0
          ∷ switch_off
          ∷ [])
        test_cache
      ≡ some cache')
    × (total_used cache'.shards ≤ (if 6400 == 0 then 9 else 6400))
perform_all-total_used_example =
    perform_all-total_used 6400 9 100
      (add_key (codes "ip:1") (codes "{}")
        ∷ get_key (codes "ip:1")
        ∷ acquire_key (codes "ip:2")
        ∷ release_key (codes "ip:2") 0
        ∷ switch_off
        ∷ [])
      made (tt, tt)

shard_at : get_elem? test_cache.shards (shard_index (codes "ip:1")) ≡ some (empty_shard 200 100)
unfolding make_shards shard_index hash_loop
shard_at = refl

get-add_example :
    (cache' : ResponseCache) × (add test_cache (codes "ip:1") (codes "{}") ≡ some cache')
    × ((get cache' (codes "ip:1")).0 ≡ some (codes "{}"))
get-add_example =
    get-add test_cache (codes "ip:1") (codes "{}") refl shard_at empty_shard-IsShard (omega arith)
      (omega arith)

first_call : (acquire_round test_cache (codes "ip:1")).0 ≡ producer 0
unfolding acquire_round get shard_index hash_loop make_shards shard_get
first_call = refl

acquire_round-waits_example :
    (acquire_round (acquire_round test_cache (codes "ip:1")).1 (codes "ip:1")).0 ≡ waits
acquire_round-waits_example = acquire_round-waits test_cache (codes "ip:1") first_call
