-- ===== src/CachePolicy.antt =====
-- The eviction policies of the storage backends (lmcache/v1/storage_backend/cache_policy): LRU,
-- FIFO and MRU. Each reads the backend's insertion-ordered dictionary of cached objects.
pub mod Lru
pub mod Fifo
pub mod Mru
pub mod Candidates
use serverless_lmcache.Common.{
  ℕ, zero, suc, ◌+◌, Bool, true, false, ◌==◌, leb, if◌then◌else◌, Option, none, some, List, [], ◌∷◌,
  ◌++◌, length,
}
use serverless_lmcache.Common.Dict.{Dict, get, insert, erase, keys}

module _ {K V : Type 0} (can_evict : V → Bool) where
  -- The loop of all three `get_evict_candidates`: the count is tested after a key is taken.
  unfoldable pub collect_evictable : ℕ → List K → Dict K V → List K
  collect_evictable num_candidates evict_keys [] = evict_keys
  collect_evictable num_candidates evict_keys ((key, cache) ∷ rest) = elim (can_evict cache) [
    | false ↦ collect_evictable num_candidates evict_keys rest
    | true ↦ elim (length evict_keys + 1 == num_candidates) [
      | true ↦ evict_keys ++ (key ∷ [])
      | false ↦ collect_evictable num_candidates (evict_keys ++ (key ∷ [])) rest
    ]
  ]

module _ {K V : Type 0} (dec : Discrete K) where
  -- `cache_dict.move_to_end(key)`; `none` is its KeyError.
  unfoldable pub move_to_end : K → Dict K V → Option (Dict K V)
  move_to_end key cache_dict = elim (get dec key cache_dict) [
    | none ↦ none
    | some v ↦ some (erase dec key cache_dict ++ ((key, v) ∷ []))
  ]
