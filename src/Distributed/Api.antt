-- ===== src/Distributed/Api.antt =====
-- lmcache/v1/distributed/api.py: the keys of objects, and how requests' keys become such keys.
pub mod Keys
use Prim.Native.Nat.{bit_or}
use serverless_lmcache.Common.{
  range_from, ℕ, zero, suc, ◌+◌, ◌*◌, ◌^◌, Option, none, some, List, [], ◌∷◌, ◌++◌,
}

-- `bytes` and `str` are types `B` and `N`, of which only equality matters.
pub record ObjectKey (B N : Type 0) : Type 0 where
  pub chunk_hash : B
  pub model_name : N
  pub kv_rank : ℕ

-- `IPCCacheEngineKey` as far as the conversion reads it.
pub record IpcCacheEngineKey (B N : Type 0) : Type 0 where
  pub model_name : N
  pub world_size : ℕ
  pub worker_id : Option ℕ
  pub chunk_hash : Option B

-- `(world_size << 24) | (global_rank << 16) | (local_world_size << 8) | local_rank`
unfoldable pub compute_kv_rank : ℕ → ℕ → ℕ → ℕ → ℕ
compute_kv_rank world_size global_rank local_world_size local_rank =
    bit_or (bit_or (bit_or (world_size * 2 ^ 24) (global_rank * 2 ^ 16)) (local_world_size * 2 ^ 8))
      local_rank

module _ {B N : Type 0} where
  -- The key of one worker.
  unfoldable pub storage_key : IpcCacheEngineKey B N → B → ℕ → ObjectKey B N
  storage_key ipc_key chunk_hash worker_id = record {
    chunk_hash = chunk_hash;
    model_name = ipc_key.model_name;
    kv_rank = compute_kv_rank ipc_key.world_size worker_id ipc_key.world_size worker_id;
  }

  unfoldable pub storage_keys : IpcCacheEngineKey B N → B → List ℕ → List (ObjectKey B N)
  storage_keys ipc_key chunk_hash [] = []
  storage_keys ipc_key chunk_hash (worker_id ∷ l) =
      storage_key ipc_key chunk_hash worker_id ∷ storage_keys ipc_key chunk_hash l

  -- The workers that a key stands for.
  unfoldable pub workers : IpcCacheEngineKey B N → List ℕ
  workers ipc_key = elim ipc_key.worker_id [
    | none ↦ range_from 0 ipc_key.world_size
    | some worker_id ↦ worker_id ∷ []
  ]

  -- `none` is the AssertionError for a key without a chunk hash.
  unfoldable pub ipc_keys_to_object_keys :
      List (IpcCacheEngineKey B N) → Option (List (ObjectKey B N))
  ipc_keys_to_object_keys [] = some []
  ipc_keys_to_object_keys (ipc_key ∷ l) = elim ipc_key.chunk_hash [
    | none ↦ none
    | some chunk_hash ↦ elim (ipc_keys_to_object_keys l) [
      | none ↦ none
      | some rest ↦ some (storage_keys ipc_key chunk_hash (workers ipc_key) ++ rest)
    ]
  ]
