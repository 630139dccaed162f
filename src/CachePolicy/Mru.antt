-- ===== src/CachePolicy/Mru.antt =====
-- `MRUCachePolicy` (lmcache/v1/storage_backend/cache_policy/mru.py); a put and a forced eviction
-- change nothing.
use mathlib.Core.List.{reverse}
use serverless_lmcache.Common.{ℕ, Bool, Option, List, []}
use serverless_lmcache.Common.Dict.{Dict}
use serverless_lmcache.CachePolicy.{collect_evictable, move_to_end}

unfoldable pub update_on_hit : {K V : Type 0} → Discrete K → K → Dict K V → Option (Dict K V)
update_on_hit dec key cache_dict = move_to_end dec key cache_dict

unfoldable pub get_evict_candidates : {K V : Type 0} → (V → Bool) → ℕ → Dict K V → List K
get_evict_candidates can_evict num_candidates cache_dict =
    collect_evictable can_evict num_candidates [] (reverse cache_dict)
