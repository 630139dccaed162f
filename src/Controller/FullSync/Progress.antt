-- ===== src/Controller/FullSync/Progress.antt =====
-- `FullSyncTracker` as a whole: its flag, and the progress of all workers together.
use serverless_lmcache.Common.{
  range_from, ℕ, ◌+◌, Bool, true, false, ◌&&◌, if◌then◌else◌, Option, none, some, List, [], ◌∷◌,
  length, contains, ℕ_discrete,
}
use serverless_lmcache.Controller.Worker.{
  FullSyncState, completed, failed, is_syncing, WorkerSyncInfo, WorkerNode, is_in_sync, is_empty,
}

-- `reaches_threshold ready total` is `ready / total >= completion_threshold`.
pub record FullSyncTracker : Type 0 where
  pub reaches_threshold : ℕ → ℕ → Bool
  pub sync_timeout_s : ℕ
  pub need_full_sync_all : Bool

abbrev pub is_completed : FullSyncState → Bool
is_completed completed = true
is_completed _ = false

abbrev pub is_failed : FullSyncState → Bool
is_failed failed = true
is_failed _ = false

-- Why a worker should sync.
pub data Reason : Type 0 where
  controller_restart sync_failed_retry : Reason

-- `sorted(expected - received)`, where `expected` is in order
unfoldable pub difference : List ℕ → List ℕ → List ℕ
difference [] received = []
difference (b ∷ expected) received =
    let rest = difference expected received in
    if contains ℕ_discrete b received then rest else b ∷ rest

abbrev pub set_need_full_sync_all : Bool → FullSyncTracker → FullSyncTracker
set_need_full_sync_all need t = record t { need_full_sync_all = need }

module _ {N : Type 0} where
  unfoldable pub missing_of : Option (WorkerSyncInfo N) → ℕ
  missing_of none = 0
  missing_of (some info) =
      if is_syncing info.state
      then length (difference (range_from 0 info.expected_batch_count) info.received_batches)
      else 0

module _ {N K : Type 0} where
  abbrev pub is_ready : N × WorkerNode N K → Bool
  is_ready (i, w) = elim w.sync_info [ none ↦ true | some info ↦ is_completed info.state ]

  abbrev pub has_completed : N × WorkerNode N K → Bool
  has_completed (i, w) = elim w.sync_info [ none ↦ false | some info ↦ is_completed info.state ]

  unfoldable pub count_workers : (N × WorkerNode N K → Bool) → List (N × WorkerNode N K) → ℕ
  count_workers p [] = 0
  count_workers p (x ∷ xs) = (if p x then 1 else 0) + count_workers p xs

  -- A fraction, as its numerator and its denominator.
  unfoldable pub get_global_progress : List (N × WorkerNode N K) → ℕ × ℕ
  get_global_progress all_workers =
      if is_empty all_workers
      then (0, 1)
      else (count_workers is_ready all_workers, length all_workers)

  unfoldable pub get_completed_count : List (N × WorkerNode N K) → ℕ
  get_completed_count = count_workers has_completed

  unfoldable pub get_syncing_count : List (N × WorkerNode N K) → ℕ
  get_syncing_count = count_workers (λ x. is_in_sync x.1.sync_info)

  unfoldable pub get_total_missing_batches_count : List (N × WorkerNode N K) → ℕ
  get_total_missing_batches_count [] = 0
  get_total_missing_batches_count ((i, w) ∷ xs) =
      missing_of w.sync_info + get_total_missing_batches_count xs

unfoldable pub can_exit_freeze : ℕ × ℕ → FullSyncTracker → FullSyncTracker × Bool
can_exit_freeze (ready, total) t =
    let can_exit = t.reaches_threshold ready total in
    (
      if can_exit && t.need_full_sync_all then record t { need_full_sync_all = false } else t,
      can_exit,
    )
