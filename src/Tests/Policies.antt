-- ===== src/Tests/Policies.antt =====
-- The theorems on the eviction policies and on the keys at concrete inputs.
use serverless_lmcache.Common.{
  range_from, ℕ, ◌+◌, ◌*◌, ◌≤◌, ◌≡◌, refl, Bool, true, false, none, some, List, [], ◌∷◌, ◌++◌,
  arith, All, length, remove, ℕ_discrete,
}
use serverless_lmcache.Common.Dict.{Dict, get, insert, erase}
use serverless_lmcache.CachePolicy.{move_to_end}
use serverless_lmcache.CachePolicy.Lru
use serverless_lmcache.CachePolicy.Fifo
use serverless_lmcache.CachePolicy.Mru
use serverless_lmcache.CachePolicy.Candidates.{evictable, get_evict_candidates-take}
use serverless_lmcache.Tests.Instances.{percents}
use serverless_lmcache.Distributed.LruPolicy.{
  discard, LruEvictionPolicy, target_count, get_eviction_actions, create_key, touch_key,
}
use serverless_lmcache.Distributed.LruPolicy.Recency.{Use, created, touched, replay, OldestFirst}
use serverless_lmcache.Distributed.LruPolicy.Evicts.{
  replay-OldestFirst, Evicts, get_eviction_actions-Evicts,
}
use serverless_lmcache.Distributed.Api.{IpcCacheEngineKey, ipc_keys_to_object_keys}
use serverless_lmcache.Distributed.Api.Keys.{
  compute_kv_rank-injective, for_workers, ipc_keys_to_object_keys-for_workers,
}

-- Keys 1 to 4; the objects are their `can_evict`.
abbrev cached : Dict ℕ Bool
cached = (1, true) ∷ (2, false) ∷ (3, true) ∷ (4, true) ∷ []

abbrev evictable_flag : Bool → Bool
evictable_flag b = b

get_evict_candidates-take_example :
    (Lru.get_evict_candidates evictable_flag 2 cached ≡ 1 ∷ 3 ∷ [])
    × (Fifo.get_evict_candidates evictable_flag 2 cached ≡ 1 ∷ 3 ∷ [])
    × (Mru.get_evict_candidates evictable_flag 2 cached ≡ 4 ∷ 3 ∷ [])
get_evict_candidates-take_example = get_evict_candidates-take evictable_flag 2 cached (omega arith)

abbrev policy : Lru.LruCachePolicy ℕ
policy = Lru.new

abbrev policy_after : Lru.LruCachePolicy ℕ
policy_after = record policy { chunk_hash_to_init_timestamp = (1, 7) ∷ [] }

abbrev hit : Dict ℕ Bool
hit = (2, false) ∷ (3, true) ∷ (4, true) ∷ (1, true) ∷ []

hits_one :
    Lru.update_on_hit ℕ_discrete ℕ_discrete (λ k. k) 7 1 policy cached ≡ some (policy_after, hit)
unfolding Lru.update_on_hit Lru.update_chunk_hash_dict Lru.remember Lru.new move_to_end get erase
    insert ℕ_discrete
hits_one = refl

enough : 2 ≤ length (evictable evictable_flag (erase ℕ_discrete 1 cached))
unfolding erase ℕ_discrete
enough = omega arith

hits_one_mru : Mru.update_on_hit ℕ_discrete 1 cached ≡ some hit
unfolding Mru.update_on_hit move_to_end get erase ℕ_discrete
hits_one_mru = refl

holds_one : get ℕ_discrete 1 cached ≡ some true
unfolding get ℕ_discrete
holds_one = refl

-- Worker 5 of 8, the second of its node.
abbrev world_size : ℕ
world_size = 8

abbrev global_rank : ℕ
global_rank = 5

compute_kv_rank-injective_example :
    (world_size ≡ 2 * 4) × (global_rank ≡ 4 + 1) × (world_size ≡ 8) × (global_rank ≡ 5)
compute_kv_rank-injective_example =
    compute_kv_rank-injective world_size global_rank world_size global_rank (2 * 4) (4 + 1) 8 5
      (omega arith, omega arith, omega arith) (omega arith, omega arith, omega arith) refl

abbrev lookup_key : IpcCacheEngineKey ℕ ℕ
lookup_key = record { model_name = 0; world_size = 2; worker_id = none; chunk_hash = some 9 }

no_keys : ipc_keys_to_object_keys {B = ℕ} {N = ℕ} [] ≡ some []
unfolding ipc_keys_to_object_keys
no_keys = refl

ipc_keys_to_object_keys-for_workers_example :
    ipc_keys_to_object_keys (lookup_key ∷ [])
    ≡ ipc_keys_to_object_keys (for_workers lookup_key (range_from 0 2) ++ [])
ipc_keys_to_object_keys-for_workers_example =
    ipc_keys_to_object_keys-for_workers lookup_key 9 [] [] refl refl no_keys

abbrev history : List (Use ℕ)
history = touched 1 ∷ created 3 ∷ created 2 ∷ created 1 ∷ []

abbrev tracked : LruEvictionPolicy ℕ
tracked = record { order = 2 ∷ 3 ∷ 1 ∷ []; destinations = []; default_destination = discard }

tracked_history : tracked.order ≡ replay ℕ_discrete history
unfolding replay create_key touch_key remove ℕ_discrete
tracked_history = refl

replay-OldestFirst_example : OldestFirst ℕ_discrete history (replay ℕ_discrete history)
replay-OldestFirst_example = replay-OldestFirst ℕ_discrete history

get_eviction_actions-Evicts_example :
    All
      (Evicts ℕ_discrete history tracked (target_count percents 3 70))
      (get_eviction_actions percents 70 tracked)
get_eviction_actions-Evicts_example =
    get_eviction_actions-Evicts ℕ_discrete percents 70 tracked history tracked_history (omega arith)
