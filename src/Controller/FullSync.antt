-- ===== src/Controller/FullSync.antt =====
-- `FullSyncTracker` of controllers/full_sync_tracker.py: where each worker stands in sending all its
-- keys to a controller that has lost them. The sync infos are in the worker nodes of the registry.
-- The list of all workers comes from a cache of the registry, and so is an argument of what reads it.
mod Progress
pub mod Nodes
unfoldable pub use Progress.*
use serverless_lmcache.Common.{
  range_from, ℕ, zero, suc, ◌+◌, ◌-◌, Bool, true, false, not, ◌&&◌, ltb, if◌then◌else◌, ite, Option,
  none, some, List, [], ◌∷◌, length, contains, ℕ_discrete,
}
use serverless_lmcache.Controller.Worker.{
  FullSyncState, syncing, completed, failed, is_syncing, WorkerSyncInfo, WorkerNode, is_in_sync,
  set_add, is_empty,
}
use serverless_lmcache.Controller.Registry.{RegistryTree, get_worker, write_worker}

module _ {N : Type 0} where
  -- `sync_info is not None and sync_info.state == FullSyncState.FAILED`
  abbrev pub has_failed : Option (WorkerSyncInfo N) → Bool
  has_failed none = false
  has_failed (some info) = is_failed info.state

  -- `sync_info is None or sync_info.state not in (SYNCING, COMPLETED)`
  abbrev pub is_outside_sync : Option (WorkerSyncInfo N) → Bool
  is_outside_sync none = true
  is_outside_sync (some info) = not (is_syncing info.state) && not (is_completed info.state)

  unfoldable pub new_sync_info : ℕ → N → ℕ → ℕ → WorkerSyncInfo N
  new_sync_info now sync_id total_keys batch_count = record {
    sync_id = sync_id;
    state = syncing;
    start_time = now;
    expected_total_keys = total_keys;
    expected_batch_count = batch_count;
    received_batches = [];
    received_keys_count = 0;
    last_activity_time = now;
  }

  unfoldable pub received : ℕ → ℕ → ℕ → WorkerSyncInfo N → WorkerSyncInfo N
  received now batch_id keys_count info = record info {
    received_batches = set_add ℕ_discrete batch_id info.received_batches;
    received_keys_count = info.received_keys_count + keys_count;
    last_activity_time = now;
  }

  abbrev pub is_timed_out : ℕ → ℕ → Option (WorkerSyncInfo N) → Bool
  is_timed_out now sync_timeout_s none = false
  is_timed_out now sync_timeout_s (some info) =
      is_syncing info.state && ltb sync_timeout_s (now - info.last_activity_time)

module _ {N : Type 0} (dec_n : Discrete N) where
  abbrev pub has_sync_id : N → Option (WorkerSyncInfo N) → Bool
  has_sync_id sync_id none = false
  has_sync_id sync_id (some info) = ite (dec_n info.sync_id sync_id) true false

  abbrev pub is_complete : N → Option (WorkerSyncInfo N) → Bool
  is_complete sync_id none = false
  is_complete sync_id (some info) = has_sync_id sync_id (some info) && is_completed info.state

module _ {N K : Type 0} (dec_n : Discrete N) where
  unfoldable pub get_sync_info : N → ℕ → RegistryTree N K → Option (WorkerSyncInfo N)
  get_sync_info i u r = elim (get_worker dec_n i u r) [ none ↦ none | some w ↦ w.sync_info ]

  unfoldable pub set_sync_info :
      N → ℕ → Option (WorkerSyncInfo N) → RegistryTree N K → RegistryTree N K × Bool
  set_sync_info i u sync_info r = elim (get_worker dec_n i u r) [
    | none ↦ (r, false)
    | some w ↦ (write_worker dec_n i u (record w { sync_info = sync_info }) r, true)
  ]

  unfoldable pub should_request_full_sync :
      N → ℕ → FullSyncTracker → RegistryTree N K → Bool × Option Reason
  should_request_full_sync i u t r =
      let sync_info = get_sync_info i u r in
      if t.need_full_sync_all && is_outside_sync sync_info
      then (true, some controller_restart)
      else if has_failed sync_info
      then (true, some sync_failed_retry)
      else (false, none)

  unfoldable pub is_worker_syncing : N → ℕ → RegistryTree N K → Bool
  is_worker_syncing i u r = is_in_sync (get_sync_info i u r)

  unfoldable pub get_sync_id : N → ℕ → RegistryTree N K → Option N
  get_sync_id i u r = elim (get_sync_info i u r) [ none ↦ none | some info ↦ some info.sync_id ]

  unfoldable pub start_sync : ℕ → N → ℕ → N → ℕ → ℕ → RegistryTree N K → RegistryTree N K × Bool
  start_sync now i u sync_id total_keys batch_count r =
      let existing_sync = get_sync_info i u r in
      if is_in_sync existing_sync && not (has_sync_id dec_n sync_id existing_sync)
      then (r, false)
      else set_sync_info i u (some (new_sync_info now sync_id total_keys batch_count)) r

  unfoldable pub receive_batch : ℕ → N → ℕ → N → ℕ → ℕ → RegistryTree N K → RegistryTree N K × Bool
  receive_batch now i u sync_id batch_id keys_count r = elim (get_sync_info i u r) [
    | none ↦ (r, false)
    | some info ↦
        if not (has_sync_id dec_n sync_id (some info))
        then (r, false)
        else if not (is_syncing info.state)
        then (r, false)
        else ((set_sync_info i u (some (received now batch_id keys_count info)) r).0, true)
  ]

  -- The check of `actual_total_keys` writes to the log only.
  unfoldable pub complete_sync : ℕ → N → ℕ → N → RegistryTree N K → RegistryTree N K × Bool
  complete_sync now i u sync_id r = elim (get_sync_info i u r) [
    | none ↦ (r, false)
    | some info ↦ if not (has_sync_id dec_n sync_id (some info)) then (r, false) else (
      (set_sync_info i u (some (record info { state = completed; last_activity_time = now })) r).0,
      true,
    )
  ]

  unfoldable pub mark_failed : N → ℕ → RegistryTree N K → RegistryTree N K
  mark_failed i u r = elim (get_sync_info i u r) [
    | none ↦ r
    | some info ↦ (set_sync_info i u (some (record info { state = failed })) r).0
  ]

  unfoldable pub check_sync_timeout :
      ℕ → FullSyncTracker → List (N × WorkerNode N K) → RegistryTree N K → RegistryTree N K
  check_sync_timeout now t [] r = r
  check_sync_timeout now t ((i, w) ∷ xs) r =
      check_sync_timeout now t xs
        (if is_timed_out now t.sync_timeout_s w.sync_info then mark_failed i w.worker_id r else r)

  unfoldable pub get_missing_batches : N → ℕ → N → RegistryTree N K → List ℕ
  get_missing_batches i u sync_id r = elim (get_sync_info i u r) [
    | none ↦ []
    | some info ↦
        if not (has_sync_id dec_n sync_id (some info))
        then []
        else if is_completed info.state
        then []
        else if not (is_syncing info.state)
        then []
        else difference (range_from 0 info.expected_batch_count) info.received_batches
  ]

  unfoldable pub get_sync_status :
      N
      → ℕ
      → N
      → List (N × WorkerNode N K)
      → FullSyncTracker
      → RegistryTree N K
      → FullSyncTracker × (Bool × (ℕ × ℕ) × Bool × List ℕ)
  get_sync_status i u sync_id all_workers t r =
      let global_progress = get_global_progress all_workers in
      let (t', can_exit) = can_exit_freeze global_progress t in
      (
        t',
        (
          is_complete dec_n sync_id (get_sync_info i u r),
          global_progress,
          can_exit,
          get_missing_batches i u sync_id r,
        ),
      )
