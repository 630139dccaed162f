-- ===== src/Controller/KvController/Sync.antt =====
-- The messages that arrive during a full sync of one worker, and what they bring.
use serverless_lmcache.Common.{
  ℕ, ◌≡◌, Bool, true, false, ◌&&◌, ◌||◌, ite, some, contains, ℕ_discrete,
}
use serverless_lmcache.Controller.Worker.{
  BatchedKvOperationMsg, is_syncing, WorkerSyncInfo, WorkerNode, has_kv,
}
use serverless_lmcache.Controller.FullSync.Nodes.{same_worker}
use serverless_lmcache.Controller.KvController.{
  FullSyncBatchMsg, KvController, handle_batched_kv_operations, handle_full_sync_batch,
}

-- A message that arrives during a sync: changes as they happen, or a batch of the sync.
pub data SyncEvent (N K : Type 0) : Type 0 where
  incremental : BatchedKvOperationMsg N K → SyncEvent N K
  batch : ℕ → FullSyncBatchMsg N K → SyncEvent N K

module _ {N K : Type 0} (dec_n : Discrete N) (dec_k : Discrete K) where
  abbrev pub handle : SyncEvent N K → KvController N K → KvController N K
  handle (incremental msg) c = handle_batched_kv_operations dec_n dec_k msg c
  handle (batch now msg) c = handle_full_sync_batch dec_n dec_k now msg c

  module _ (i : N) (u : ℕ) (sync_id : N) where
    -- Whether an event is a batch of the worker's sync.
    abbrev pub is_of_sync : SyncEvent N K → Bool
    is_of_sync (incremental msg) = false
    is_of_sync (batch now msg) =
        same_worker dec_n msg.instance_id msg.worker_id i u
        && ite (dec_n sync_id msg.sync_id) true false

    -- Whether an event brings a key at a location.
    abbrev pub brings : N → K → SyncEvent N K → Bool
    brings l k (incremental msg) = false
    brings l k (batch now msg) =
        is_of_sync (batch now msg)
        && (ite (dec_n msg.location l) true false && contains dec_k k msg.keys)

    abbrev pub is_batch : ℕ → SyncEvent N K → Bool
    is_batch b (incremental msg) = false
    is_batch b (batch now msg) =
        is_of_sync (batch now msg) && ite (ℕ_discrete msg.batch_id b) true false

    -- The worker is registered and sends the batches of the sync.
    abbrev pub InSync : WorkerNode N K → WorkerSyncInfo N → ℕ → Type 0
    InSync w info n =
        (w.sync_info ≡ some info)
        × (is_syncing info.state ≡ true)
        × (info.sync_id ≡ sync_id)
        × (info.expected_batch_count ≡ n)

    -- One event from one node to another.
    abbrev pub Advance :
        SyncEvent N K
        → WorkerNode N K
        → WorkerSyncInfo N
        → WorkerNode N K
        → WorkerSyncInfo N
        → Type 0
    Advance e w info w' info' =
        ((l : N) (k : K) → has_kv dec_n dec_k l k w' ≡ brings l k e || has_kv dec_n dec_k l k w)
        × ((b : ℕ)
            → contains ℕ_discrete b info'.received_batches
              ≡ is_batch b e || contains ℕ_discrete b info.received_batches)
