-- ===== src/Controller/Worker.antt =====
-- `WorkerNode` of cache_controller/utils.py: what the controller knows of one worker, and its
-- messages (message.py). A method runs under the node's lock. Names (instances, locations, sync ids,
-- addresses) are a type `N`, chunk hashes a type `K`; a set is a list with no element twice.
pub mod Replay
pub mod Kept
use serverless_lmcache.Common.{
  ℕ, ◌+◌, Bool, true, false, not, ◌&&◌, ◌||◌, ◌==◌, if◌then◌else◌, ite, Option, none, some, List,
  [], ◌∷◌, ◌++◌, length, contains, remove, for_each,
}
use serverless_lmcache.Common.Dict.{Dict, get, insert, erase}

pub record KvChunkInfo (N : Type 0) : Type 0 where
  pub instance_id : N
  pub worker_id : ℕ
  pub location : N

pub data FullSyncState : Type 0 where
  idle syncing completed failed : FullSyncState

abbrev pub is_syncing : FullSyncState → Bool
is_syncing syncing = true
is_syncing _ = false

pub record WorkerSyncInfo (N : Type 0) : Type 0 where
  pub sync_id : N
  pub state : FullSyncState
  pub start_time : ℕ
  pub expected_total_keys : ℕ
  pub expected_batch_count : ℕ
  pub received_batches : List ℕ
  pub received_keys_count : ℕ
  pub last_activity_time : ℕ

pub data OpType : Type 0 where
  admit evict : OpType

pub record KvOpEvent (K : Type 0) : Type 0 where
  pub op_type : OpType
  pub key : K
  pub seq_num : ℕ

pub record BatchedKvOperationMsg (N K : Type 0) : Type 0 where
  pub instance_id : N
  pub worker_id : ℕ
  pub location : N
  pub operations : List (KvOpEvent K)

-- The socket is left out.
pub record WorkerNode (N K : Type 0) : Type 0 where
  pub worker_id : ℕ
  pub ip : N
  pub port : ℕ
  pub peer_init_url : Option N
  pub registration_time : ℕ
  pub last_heartbeat_time : ℕ
  pub seq_tracker : Dict N ℕ
  pub kv_store : Dict N (List K)
  pub sync_info : Option (WorkerSyncInfo N)

pub record WorkerInfo (N : Type 0) : Type 0 where
  pub instance_id : N
  pub worker_id : ℕ
  pub ip : N
  pub port : ℕ
  pub peer_init_url : Option N
  pub registration_time : ℕ
  pub last_heartbeat_time : ℕ

-- `s.add(k)`
unfoldable pub set_add : {A : Type 0} → Discrete A → A → List A → List A
set_add dec k s = if contains dec k s then s else s ++ (k ∷ [])

-- `d[k]` where the key is present
unfoldable pub at : {N A : Type 0} → Discrete N → N → Dict N (List A) → List A
at dec k d = elim (get dec k d) [ none ↦ [] | some s ↦ s ]

abbrev pub is_empty : {A : Type 0} → List A → Bool
is_empty [] = true
is_empty (x ∷ xs) = false

-- `sync_info is not None and sync_info.state == FullSyncState.SYNCING`
unfoldable pub is_in_sync : {N : Type 0} → Option (WorkerSyncInfo N) → Bool
is_in_sync none = false
is_in_sync (some info) = is_syncing info.state

-- The sequence check: the expected and the actual number at the first gap.
unfoldable pub check_seq_num : Option ℕ → ℕ → Option (ℕ × ℕ) → Option (ℕ × ℕ)
check_seq_num last_seq_num seq_num (some warning) = some warning
check_seq_num none seq_num none = none
check_seq_num (some last) seq_num none =
    if seq_num == last + 1 then none else some (last + 1, seq_num)

abbrev pub is_some : {A : Type 0} → Option A → Bool
is_some none = false
is_some (some a) = true

module _ {N K : Type 0} (dec_n : Discrete N) (dec_k : Discrete K) where
  unfoldable pub apply_op : OpType → K → List K → List K
  apply_op admit key s = set_add dec_k key s
  apply_op evict key s = remove dec_k key s

  -- One round of the loop over the operations.
  unfoldable pub handle_operation :
      Bool → N → KvOpEvent K → WorkerNode N K × Option (ℕ × ℕ) → WorkerNode N K × Option (ℕ × ℕ)
  handle_operation is_full_sync location op (w, seq_warning) =
      let kv_store =
        insert dec_n location (apply_op op.op_type op.key (at dec_n location w.kv_store))
          w.kv_store in
      if is_full_sync then (record w { kv_store = kv_store }, seq_warning) else (
        record w {
          kv_store = kv_store;
          seq_tracker = insert dec_n location op.seq_num w.seq_tracker;
        },
        check_seq_num (get dec_n location w.seq_tracker) op.seq_num seq_warning,
      )

  -- `if location not in self.kv_store: self.kv_store[location] = set()`
  unfoldable pub ensure_location : N → Dict N (List K) → Dict N (List K)
  ensure_location location d = elim (get dec_n location d) [
    | none ↦ insert dec_n location [] d
    | some s ↦ d
  ]

  -- `if not self.kv_store[location]: self.kv_store.pop(location, None)`
  unfoldable pub drop_empty : N → Dict N (List K) → Dict N (List K)
  drop_empty location d = if is_empty (at dec_n location d) then erase dec_n location d else d

  unfoldable pub handle_all :
      Bool → N → List (KvOpEvent K) → WorkerNode N K → WorkerNode N K × Option (ℕ × ℕ)
  handle_all is_full_sync location operations w =
      for_each (handle_operation is_full_sync location) operations
        (record w { kv_store = ensure_location location w.kv_store }, none)

  -- The node, whether the operations were processed, and whether `on_seq_num_out_of_order` is called.
  unfoldable pub handle_batched_kv_operations :
      Bool → BatchedKvOperationMsg N K → WorkerNode N K → WorkerNode N K × Bool × Bool
  handle_batched_kv_operations is_full_sync msg w =
      if is_in_sync w.sync_info && not is_full_sync
      then (w, false, false)
      else let (w', seq_warning) = handle_all is_full_sync msg.location msg.operations w in
        (record w' { kv_store = drop_empty msg.location w'.kv_store }, true, is_some seq_warning)

  unfoldable pub has_kv : N → K → WorkerNode N K → Bool
  has_kv location key w = elim (get dec_n location w.kv_store) [
    | none ↦ false
    | some s ↦ contains dec_k key s
  ]

  unfoldable pub get_kv_keys : N → WorkerNode N K → List K
  get_kv_keys location w = at dec_n location w.kv_store

  unfoldable pub clear_kv_store : WorkerNode N K → WorkerNode N K
  clear_kv_store w = record w { kv_store = []; seq_tracker = [] }

  unfoldable pub update_seq_num : N → ℕ → WorkerNode N K → WorkerNode N K
  update_seq_num location seq_num w = record w {
    seq_tracker = insert dec_n location seq_num w.seq_tracker;
  }

  unfoldable pub get_seq_num : N → WorkerNode N K → Option ℕ
  get_seq_num location w = get dec_n location w.seq_tracker

  -- The loop of `find_key`: the first location whose set has the key, and the set.
  unfoldable pub find_location : K → Dict N (List K) → Option (N × List K)
  find_location key [] = none
  find_location key ((location, s) ∷ d) =
      if contains dec_k key s then some (location, s) else find_location key d

  -- `no_name` is the empty text, which the caller replaces by the instance's id.
  unfoldable pub find_key : N → K → WorkerNode N K → Option (KvChunkInfo N × Option N × List K)
  find_key no_name key w = elim (find_location key w.kv_store) [
    | none ↦ none
    | some (location, keys) ↦ some (
      record { instance_id = no_name; worker_id = w.worker_id; location = location },
      w.peer_init_url,
      keys,
    )
  ]

  unfoldable pub find_key_simple : N → K → WorkerNode N K → Option (KvChunkInfo N)
  find_key_simple no_name key w = elim (find_location key w.kv_store) [
    | none ↦ none
    | some (location, keys) ↦
        some (record { instance_id = no_name; worker_id = w.worker_id; location = location })
  ]

unfoldable pub to_worker_info : {N K : Type 0} → N → WorkerNode N K → WorkerInfo N
to_worker_info instance_id w = record {
  instance_id = instance_id;
  worker_id = w.worker_id;
  ip = w.ip;
  port = w.port;
  peer_init_url = w.peer_init_url;
  registration_time = w.registration_time;
  last_heartbeat_time = w.last_heartbeat_time;
}

unfoldable pub sum_lengths : {N K : Type 0} → Dict N (List K) → ℕ
sum_lengths [] = 0
sum_lengths ((location, s) ∷ d) = length s + sum_lengths d

unfoldable pub get_kv_count : {N K : Type 0} → WorkerNode N K → ℕ
get_kv_count w = sum_lengths w.kv_store
