-- ===== src/CachePolicy/Fifo.antt =====
-- `FIFOCachePolicy` (lmcache/v1/storage_backend/cache_policy/fifo.py); a put and a forced eviction
-- change nothing.
use serverless_lmcache.Common.{ℕ, Bool, List, []}
use serverless_lmcache.Common.Dict.{Dict}
use serverless_lmcache.CachePolicy.{collect_evictable}

unfoldable pub update_on_hit : {K V : Type 0} → K → Dict K V → Dict K V
update_on_hit key cache_dict = cache_dict

unfoldable pub get_evict_candidates : {K V : Type 0} → (V → Bool) → ℕ → Dict K V → List K
get_evict_candidates can_evict num_candidates cache_dict =
    collect_evictable can_evict num_candidates [] cache_dict
