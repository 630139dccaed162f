-- ===== src/CachePolicy/Lru.antt =====
-- `LRUCachePolicy` (lmcache/v1/storage_backend/cache_policy/lru.py).
use serverless_lmcache.Common.{
  ℕ, zero, suc, Bool, leb, if◌then◌else◌, Option, none, some, List, [], length,
}
use serverless_lmcache.Common.Dict.{Dict, get, insert}
use serverless_lmcache.CachePolicy.{collect_evictable, move_to_end}

-- The time at which a chunk hash was first seen; 0 is false in the source's test.
pub record LruCachePolicy (H : Type 0) : Type 0 where
  pub chunk_hash_to_init_timestamp : Dict H ℕ
  pub max_num_chunk_hash : ℕ

unfoldable pub new : {H : Type 0} → LruCachePolicy H
new = record { chunk_hash_to_init_timestamp = []; max_num_chunk_hash = 12500000 }

module _ {K H : Type 0} (dec_h : Discrete H) (dec : Discrete K) (key_hash : K → H) where
  -- The key's hash is first seen now.
  unfoldable pub remember : ℕ → H → LruCachePolicy H → LruCachePolicy H
  remember curr_time h p =
      let kept =
        if leb p.max_num_chunk_hash (length p.chunk_hash_to_init_timestamp)
        then []
        else p.chunk_hash_to_init_timestamp in
      record p { chunk_hash_to_init_timestamp = insert dec_h h curr_time kept }

  unfoldable pub update_chunk_hash_dict : ℕ → K → LruCachePolicy H → LruCachePolicy H
  update_chunk_hash_dict curr_time key p =
      elim (get dec_h (key_hash key) p.chunk_hash_to_init_timestamp) [
        | none ↦ remember curr_time (key_hash key) p
        | some zero ↦ remember curr_time (key_hash key) p
        | some (suc t) ↦ p
      ]

  unfoldable pub update_on_hit :
      {V : Type 0} → ℕ → K → LruCachePolicy H → Dict K V → Option (LruCachePolicy H × Dict K V)
  update_on_hit curr_time key p cache_dict = elim (move_to_end dec key cache_dict) [
    | none ↦ none
    | some d ↦ some (update_chunk_hash_dict curr_time key p, d)
  ]

  unfoldable pub update_on_put : ℕ → K → LruCachePolicy H → LruCachePolicy H
  update_on_put = update_chunk_hash_dict

unfoldable pub get_evict_candidates : {K V : Type 0} → (V → Bool) → ℕ → Dict K V → List K
get_evict_candidates can_evict num_candidates cache_dict =
    collect_evictable can_evict num_candidates [] cache_dict
