-- ===== src/Controller/KvController.antt =====
-- `KVController` of controllers/kv_controller.py, and its messages (message.py). Every handler is
-- one step of the event loop: none awaits between its calls. What it forwards to the cluster executor
-- (clear, pin, compress, decompress, move, check_finish) is not modelled.
pub mod Sync
pub mod SyncStep
pub mod Started
pub mod Synced
pub mod Lookup
use serverless_lmcache.Common.{
  ℕ, ◌+◌, Bool, true, false, if◌then◌else◌, Option, none, some, List, [], ◌∷◌, length, contains,
}
use serverless_lmcache.Common.Dict.{Dict, insert}
use serverless_lmcache.Controller.Worker.{
  KvChunkInfo, admit, KvOpEvent, BatchedKvOperationMsg, WorkerNode, is_empty,
}
use serverless_lmcache.Controller.Registry.{RegistryTree, get_worker_kv_keys, clear_worker_kv}
use serverless_lmcache.Controller.Registry
use serverless_lmcache.Controller.Registry.Find.{find_kv, find_kv_with_worker_info}
use serverless_lmcache.Controller.FullSync.{
  FullSyncTracker, is_worker_syncing, start_sync, receive_batch, complete_sync, get_sync_status,
}

pub record FullSyncStartMsg (N : Type 0) : Type 0 where
  pub instance_id : N
  pub worker_id : ℕ
  pub location : N
  pub sync_id : N
  pub total_keys : ℕ
  pub batch_count : ℕ

pub record FullSyncBatchMsg (N K : Type 0) : Type 0 where
  pub instance_id : N
  pub worker_id : ℕ
  pub location : N
  pub sync_id : N
  pub batch_id : ℕ
  pub keys : List K

pub record FullSyncEndMsg (N : Type 0) : Type 0 where
  pub instance_id : N
  pub worker_id : ℕ
  pub location : N
  pub sync_id : N
  pub actual_total_keys : ℕ

pub record FullSyncStatusMsg (N : Type 0) : Type 0 where
  pub instance_id : N
  pub worker_id : ℕ
  pub sync_id : N

pub record FullSyncStartRetMsg (N : Type 0) : Type 0 where
  pub sync_id : N
  pub accepted : Bool

-- `global_progress` is a fraction, as its numerator and its denominator.
pub record FullSyncStatusRetMsg (N : Type 0) : Type 0 where
  pub sync_id : N
  pub is_complete : Bool
  pub global_progress : ℕ × ℕ
  pub can_exit_freeze : Bool
  pub missing_batches : List ℕ

pub record KvController (N K : Type 0) : Type 0 where
  pub registry : RegistryTree N K
  pub full_sync_tracker : FullSyncTracker

-- `enumerate(keys)`, as operations that admit the keys
unfoldable pub admissions : {K : Type 0} → ℕ → List K → List (KvOpEvent K)
admissions seq_num [] = []
admissions seq_num (key ∷ keys) =
    record { op_type = admit; key = key; seq_num = seq_num } ∷ admissions (seq_num + 1) keys

-- The operations of a batch, as the registry takes them.
abbrev pub batch_operations : {N K : Type 0} → FullSyncBatchMsg N K → BatchedKvOperationMsg N K
batch_operations msg = record {
  instance_id = msg.instance_id;
  worker_id = msg.worker_id;
  location = msg.location;
  operations = admissions 0 msg.keys;
}

module _ {N K : Type 0} (dec_n : Discrete N) (dec_k : Discrete K) where
  unfoldable pub handle_batched_kv_operations :
      BatchedKvOperationMsg N K → KvController N K → KvController N K
  handle_batched_kv_operations msg c =
      if is_empty msg.operations
      then c
      else if is_worker_syncing dec_n msg.instance_id msg.worker_id c.registry
      then c
      else record c {
        registry = (Registry.handle_batched_kv_operations dec_n dec_k false msg c.registry).0;
      }

  unfoldable pub handle_full_sync_start :
      ℕ → FullSyncStartMsg N → KvController N K → KvController N K × FullSyncStartRetMsg N
  handle_full_sync_start now msg c =
      let (r, success) =
        start_sync dec_n now msg.instance_id msg.worker_id msg.sync_id msg.total_keys
          msg.batch_count c.registry in
      if success
      then (
        record c {
          registry =
              if is_empty
                (get_worker_kv_keys dec_n dec_k msg.instance_id msg.worker_id msg.location r)
              then r
              else (clear_worker_kv dec_n dec_k msg.instance_id msg.worker_id (some msg.location)
                  r).0;
        },
        record { sync_id = msg.sync_id; accepted = true },
      )
      else (record c { registry = r }, record { sync_id = msg.sync_id; accepted = false })

  unfoldable pub handle_full_sync_batch :
      ℕ → FullSyncBatchMsg N K → KvController N K → KvController N K
  handle_full_sync_batch now msg c =
      let (r, recorded) =
        receive_batch dec_n now msg.instance_id msg.worker_id msg.sync_id msg.batch_id
          (length msg.keys) c.registry in
      if recorded
      then record c {
        registry =
            if is_empty (batch_operations msg).operations
            then r
            else (Registry.handle_batched_kv_operations dec_n dec_k true (batch_operations msg)
                r).0;
      }
      else record c { registry = r }

  unfoldable pub handle_full_sync_end : ℕ → FullSyncEndMsg N → KvController N K → KvController N K
  handle_full_sync_end now msg c = record c {
    registry = (complete_sync dec_n now msg.instance_id msg.worker_id msg.sync_id c.registry).0;
  }

  unfoldable pub handle_full_sync_status :
      FullSyncStatusMsg N
      → List (N × WorkerNode N K)
      → KvController N K
      → KvController N K × FullSyncStatusRetMsg N
  handle_full_sync_status msg all_workers c =
      let (t, (is_complete, global_progress, can_exit_freeze, missing_batches)) =
        get_sync_status dec_n msg.instance_id msg.worker_id msg.sync_id all_workers
          c.full_sync_tracker c.registry in
      (
        record c { full_sync_tracker = t },
        record {
          sync_id = msg.sync_id;
          is_complete = is_complete;
          global_progress = global_progress;
          can_exit_freeze = can_exit_freeze;
          missing_batches = missing_batches;
        },
      )

  -- The loop over what `token_database.process_tokens` yields: the start, the end and the key of each
  -- chunk. `layout_info` maps an instance to a location and an end.
  unfoldable pub lookup : N → List (ℕ × ℕ × K) → RegistryTree N K → Dict N (N × ℕ) → Dict N (N × ℕ)
  lookup no_name [] registry layout_info = layout_info
  lookup no_name ((start, end, key) ∷ chunks) registry layout_info =
      elim (find_kv dec_n dec_k no_name key none registry) [
        | none ↦ layout_info
        | some result ↦
            lookup no_name chunks registry
              (insert dec_n result.instance_id (result.location, end) layout_info)
      ]

  unfoldable pub count_hits : List K → List K → ℕ
  count_hits current_keys [] = 0
  count_hits current_keys (key ∷ hashes) =
      let rest = count_hits current_keys hashes in
      if contains dec_k key current_keys then rest + 1 else 0

  -- The instance, the location, the number of hits and the address; `no_name` is the empty text.
  unfoldable pub batched_p2p_lookup : N → N → List K → RegistryTree N K → N × N × ℕ × N
  batched_p2p_lookup no_name instance_id [] registry = (no_name, no_name, 0, no_name)
  batched_p2p_lookup no_name instance_id (first ∷ hashes) registry =
      elim (find_kv_with_worker_info dec_n dec_k no_name first (some instance_id) registry) [
        | none ↦ (no_name, no_name, 0, no_name)
        | some (kv_info, none, current_keys) ↦ (no_name, no_name, 0, no_name)
        | some (kv_info, some peer_init_url, current_keys) ↦ (
          kv_info.instance_id,
          kv_info.location,
          count_hits current_keys (first ∷ hashes),
          peer_init_url,
        )
      ]
