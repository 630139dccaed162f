-- ===== src/Tests/Controller.antt =====
-- The cache controller on a cluster of two workers.
use serverless_lmcache.Common.{
  ℕ, ◌*◌, ◌≡◌, refl, true, false, not, ◌&&◌, if◌then◌else◌, ite, ltb, none, some, List, [], ◌∷◌,
  ℕ_discrete, contains, for_each, remove,
}
use serverless_lmcache.Common.Dict.{get, insert, erase}
use serverless_lmcache.Controller.Worker.{
  KvChunkInfo, admit, evict, KvOpEvent, BatchedKvOperationMsg, WorkerNode, has_kv, get_kv_keys,
  is_in_sync, apply_op, set_add, at, check_seq_num, handle_operation, ensure_location, drop_empty,
  handle_all, find_location, find_key, find_key_simple,
}
use serverless_lmcache.Controller.Worker
use serverless_lmcache.Controller.Worker.Replay.{replay, handle_batched_kv_operations-replay}
use serverless_lmcache.Controller.Instance.{
  find_in_workers, find_simple_in_workers, find_key_of_instance, find_key_simple_of_instance,
  add_worker, remove_worker, has_workers,
}
use serverless_lmcache.Controller.Instance
use serverless_lmcache.Controller.Registry.{
  RegistryTree, new_registry, new_worker, get_worker, get_instance, write_instance, write_worker,
  register_worker, deregister_worker, get_or_create_instance, incr_seq_discontinuity_count,
  handle_batched_kv_operations,
}
use serverless_lmcache.Controller.Registry.Find.{
  is_excluded, find_in_instances, find_kv, find_info_in_instances, find_kv_with_worker_info,
}
use serverless_lmcache.Controller.Registry.Workers.{
  Operation, register, deregister, kv_operations, step, act, override, get_worker-step,
}
use serverless_lmcache.Controller.Registry.Shaped.{WellFormed}
use serverless_lmcache.Controller.Registry.WellFormed.{run_calls, run_calls-WellFormed}
use serverless_lmcache.Controller.Registry.FindKv.{find_kv_with_worker_info_sound, find_kv_complete}
use serverless_lmcache.Controller.FullSync.{
  get_missing_batches, start_sync, set_sync_info, get_sync_info,
}
use serverless_lmcache.Controller.KvController.{
  FullSyncStartMsg, KvController, handle_full_sync_start, handle_full_sync_end,
  handle_full_sync_status, count_hits, batched_p2p_lookup,
}
use serverless_lmcache.Controller.KvController.Sync.{
  SyncEvent, incremental, batch, handle, brings, is_batch,
}
use serverless_lmcache.Controller.KvController.Synced.{
  any, holds, end_of, status_of, holds-after_start, get_missing_batches-after_start,
  handle_full_sync_end-after_start,
}
use serverless_lmcache.Controller.KvController.Lookup.{stored_prefix, batched_p2p_lookup_sound}

abbrev event : ℕ → ℕ → KvOpEvent ℕ
event key seq_num = record { op_type = admit; key = key; seq_num = seq_num }

-- Worker 7 of instance 1 stores chunks 10, 11 and 12 at location 5.
abbrev stored : BatchedKvOperationMsg ℕ ℕ
stored = record {
  instance_id = 1;
  worker_id = 7;
  location = 5;
  operations = event 10 0 ∷ event 11 1 ∷ event 12 2 ∷ [];
}

-- It evicts chunk 11 and stores chunk 13, which comes out of order.
abbrev changed : BatchedKvOperationMsg ℕ ℕ
changed = record stored {
  operations = record { op_type = evict; key = 11; seq_num = 3 } ∷ event 13 9 ∷ [];
}

abbrev calls : List (Operation ℕ ℕ)
calls =
    register 1 7 50 80 (some 99) 3
    ∷ register 2 8 51 81 none 4
    ∷ kv_operations false stored
    ∷ kv_operations false changed
    ∷ deregister 2 8
    ∷ []

abbrev cluster : RegistryTree ℕ ℕ
cluster = run_calls ℕ_discrete ℕ_discrete calls new_registry

run_calls-WellFormed_example : WellFormed ℕ_discrete cluster
run_calls-WellFormed_example = run_calls-WellFormed ℕ_discrete ℕ_discrete calls

cluster-WellFormed : WellFormed ℕ_discrete cluster
cluster-WellFormed = run_calls-WellFormed ℕ_discrete ℕ_discrete calls

abbrev worker : WorkerNode ℕ ℕ
worker = record (new_worker 7 50 80 (some 99) 3) {
  kv_store = (5, 10 ∷ 12 ∷ 13 ∷ []) ∷ [];
  seq_tracker = (5, 9) ∷ [];
}

cluster_nf : cluster ≡ record {
  instances = (1, record { instance_id = 1; workers = (7, worker) ∷ [] }) ∷ [];
  seq_discontinuity_count = 1;
}
unfolding step deregister_worker get_instance get handle_batched_kv_operations get_worker
    register_worker write_instance insert get_or_create_instance ℕ_discrete Instance.get_worker
    add_worker new_worker Worker.handle_batched_kv_operations is_in_sync handle_all handle_operation
    erase remove has_workers remove_worker incr_seq_discontinuity_count write_worker apply_op at
    check_seq_num drop_empty ensure_location set_add
cluster_nf = refl

get_worker-step_example :
    get_worker ℕ_discrete 1 7 (step ℕ_discrete ℕ_discrete (kv_operations false changed) cluster)
    ≡ override ℕ_discrete ℕ_discrete 1 7
        (act ℕ_discrete ℕ_discrete
          (kv_operations false changed)
          (get_worker ℕ_discrete 1 7 cluster))
        1
        7
        (get_worker ℕ_discrete 1 7 cluster)
get_worker-step_example =
    get_worker-step ℕ_discrete ℕ_discrete (kv_operations false changed) cluster 1 7

handle_batched_kv_operations-replay_example :
    ((Worker.handle_batched_kv_operations ℕ_discrete ℕ_discrete false changed worker).1
      ≡ not (is_in_sync worker.sync_info && not false))
    × (has_kv ℕ_discrete ℕ_discrete 5 13
          (Worker.handle_batched_kv_operations ℕ_discrete ℕ_discrete false changed worker).0
        ≡ (if is_in_sync worker.sync_info && not false
            then has_kv ℕ_discrete ℕ_discrete 5 13 worker
            else ite
                (ℕ_discrete changed.location 5)
                (replay ℕ_discrete 13 changed.operations (has_kv ℕ_discrete ℕ_discrete 5 13 worker))
                (has_kv ℕ_discrete ℕ_discrete 5 13 worker)))
handle_batched_kv_operations-replay_example =
    handle_batched_kv_operations-replay ℕ_discrete ℕ_discrete false changed worker 5 13

abbrev where_12 : KvChunkInfo ℕ
where_12 = record { instance_id = 1; worker_id = 7; location = 5 }

found_12 :
    find_kv_with_worker_info ℕ_discrete ℕ_discrete 0 12 (some 2) cluster
    ≡ some (where_12, some 99, 10 ∷ 12 ∷ 13 ∷ [])
unfolding step deregister_worker get_instance get handle_batched_kv_operations get_worker
    register_worker write_instance insert get_or_create_instance ℕ_discrete Instance.get_worker
    add_worker new_worker Worker.handle_batched_kv_operations is_in_sync handle_all handle_operation
    erase remove has_workers remove_worker incr_seq_discontinuity_count write_worker apply_op at
    check_seq_num drop_empty ensure_location set_add find_kv_with_worker_info find_kv
    find_in_instances find_info_in_instances is_excluded find_key_of_instance
    find_key_simple_of_instance find_in_workers find_simple_in_workers find_key find_key_simple
    find_location
found_12 = refl

missing_11 : find_kv ℕ_discrete ℕ_discrete 0 11 none cluster ≡ none
unfolding step deregister_worker get_instance get handle_batched_kv_operations get_worker
    register_worker write_instance insert get_or_create_instance ℕ_discrete Instance.get_worker
    add_worker new_worker Worker.handle_batched_kv_operations is_in_sync handle_all handle_operation
    erase remove has_workers remove_worker incr_seq_discontinuity_count write_worker apply_op at
    check_seq_num drop_empty ensure_location set_add find_kv_with_worker_info find_kv
    find_in_instances find_info_in_instances is_excluded find_key_of_instance
    find_key_simple_of_instance find_in_workers find_simple_in_workers find_key find_key_simple
    find_location
missing_11 = refl

registered_7 : get_worker ℕ_discrete 1 7 cluster ≡ some worker
unfolding step deregister_worker get_instance get handle_batched_kv_operations get_worker
    register_worker write_instance insert get_or_create_instance ℕ_discrete Instance.get_worker
    add_worker new_worker Worker.handle_batched_kv_operations is_in_sync handle_all handle_operation
    erase remove has_workers remove_worker incr_seq_discontinuity_count write_worker apply_op at
    check_seq_num drop_empty ensure_location set_add find_kv_with_worker_info find_kv
    find_in_instances find_info_in_instances is_excluded find_key_of_instance
    find_key_simple_of_instance find_in_workers find_simple_in_workers find_key find_key_simple
    find_location
registered_7 = refl

included_1 : is_excluded ℕ_discrete ℕ_discrete none 1 ≡ false
unfolding is_excluded
included_1 = refl

find_kv_with_worker_info_sound_example :
    (is_excluded ℕ_discrete ℕ_discrete (some 2) 1 ≡ false)
    × (w : WorkerNode ℕ ℕ) × (get_worker ℕ_discrete 1 7 cluster ≡ some w)
    × (has_kv ℕ_discrete ℕ_discrete 5 12 w ≡ true)
    × (some 99 ≡ w.peer_init_url)
    × (10 ∷ 12 ∷ 13 ∷ [] ≡ get_kv_keys ℕ_discrete ℕ_discrete 5 w)
find_kv_with_worker_info_sound_example =
    find_kv_with_worker_info_sound ℕ_discrete ℕ_discrete 0 12 (some 2) cluster where_12 (some 99)
      (10 ∷ 12 ∷ 13 ∷ []) cluster-WellFormed found_12

find_kv_complete_example : has_kv ℕ_discrete ℕ_discrete 5 11 worker ≡ false
find_kv_complete_example =
    find_kv_complete ℕ_discrete ℕ_discrete 0 11 none cluster 1 7 worker 5 missing_11 included_1
      registered_7

looked_up :
    batched_p2p_lookup ℕ_discrete ℕ_discrete 0 2 (10 ∷ 12 ∷ 11 ∷ 13 ∷ []) cluster ≡ (1, 5, 2, 99)
unfolding step deregister_worker get_instance get handle_batched_kv_operations get_worker
    register_worker write_instance insert get_or_create_instance ℕ_discrete Instance.get_worker
    add_worker new_worker Worker.handle_batched_kv_operations is_in_sync handle_all handle_operation
    erase remove has_workers remove_worker incr_seq_discontinuity_count write_worker apply_op at
    check_seq_num drop_empty ensure_location set_add find_kv_with_worker_info find_kv
    find_in_instances find_info_in_instances is_excluded find_key_of_instance
    find_key_simple_of_instance find_in_workers find_simple_in_workers find_key find_key_simple
    find_location batched_p2p_lookup count_hits
looked_up = refl

batched_p2p_lookup_sound_example :
    (is_excluded ℕ_discrete ℕ_discrete (some 2) 1 ≡ false)
    × (u : ℕ) × (w : WorkerNode ℕ ℕ) × (get_worker ℕ_discrete 1 u cluster ≡ some w)
    × (w.peer_init_url ≡ some 99)
    × (stored_prefix ℕ_discrete ℕ_discrete 5 w (10 ∷ 12 ∷ 11 ∷ 13 ∷ []) ≡ 2)
batched_p2p_lookup_sound_example =
    batched_p2p_lookup_sound ℕ_discrete ℕ_discrete 0 2 (10 ∷ 12 ∷ 11 ∷ 13 ∷ []) cluster 1 5 99 1
      cluster-WellFormed looked_up

-- Two of the three batches of a sync of the worker arrive, among other messages.
abbrev start : FullSyncStartMsg ℕ
start = record {
  instance_id = 1;
  worker_id = 7;
  location = 5;
  sync_id = 30;
  total_keys = 5;
  batch_count = 3;
}

abbrev sent : ℕ → List ℕ → SyncEvent ℕ ℕ
sent batch_id keys = batch 21 (record {
  instance_id = 1;
  worker_id = 7;
  location = 5;
  sync_id = 30;
  batch_id = batch_id;
  keys = keys;
})

abbrev arrivals : List (SyncEvent ℕ ℕ)
arrivals = sent 0 (40 ∷ 41 ∷ []) ∷ incremental stored ∷ sent 2 (44 ∷ []) ∷ []

abbrev controller : KvController ℕ ℕ
controller = record {
  registry = cluster;
  full_sync_tracker = record {
    reaches_threshold = λ ready total. not (ltb (ready * 5) (total * 4));
    sync_timeout_s = 300;
    need_full_sync_all = true;
  };
}

start_accepted :
    (handle_full_sync_start ℕ_discrete ℕ_discrete 20 start controller).1.accepted ≡ true
unfolding step deregister_worker get_instance get handle_batched_kv_operations get_worker
    register_worker write_instance insert get_or_create_instance ℕ_discrete Instance.get_worker
    add_worker new_worker Worker.handle_batched_kv_operations is_in_sync handle_all handle_operation
    erase remove has_workers remove_worker incr_seq_discontinuity_count write_worker apply_op at
    check_seq_num drop_empty ensure_location set_add find_kv_with_worker_info find_kv
    find_in_instances find_info_in_instances is_excluded find_key_of_instance
    find_key_simple_of_instance find_in_workers find_simple_in_workers find_key find_key_simple
    find_location handle_full_sync_start start_sync get_sync_info set_sync_info
start_accepted = refl

holds-after_start_example :
    holds ℕ_discrete ℕ_discrete 1 7 5 41 (
      for_each
        (handle ℕ_discrete ℕ_discrete)
        arrivals
        (handle_full_sync_start ℕ_discrete ℕ_discrete 20 start controller).0)
    ≡ any (brings ℕ_discrete ℕ_discrete 1 7 30 5 41) arrivals
holds-after_start_example =
    holds-after_start ℕ_discrete ℕ_discrete 20 start controller arrivals start_accepted 41

get_missing_batches-after_start_example :
    contains ℕ_discrete 1 (
      get_missing_batches ℕ_discrete 1 7 30
        (for_each
          (handle ℕ_discrete ℕ_discrete)
          arrivals
          (handle_full_sync_start ℕ_discrete ℕ_discrete 20 start controller).0).registry)
    ≡ ltb 1 3 && not (any (is_batch ℕ_discrete ℕ_discrete 1 7 30 1) arrivals)
get_missing_batches-after_start_example =
    get_missing_batches-after_start ℕ_discrete ℕ_discrete 20 start controller arrivals
      start_accepted 1

handle_full_sync_end-after_start_example :
    let ended = handle_full_sync_end ℕ_discrete ℕ_discrete 22 (end_of start 5) (
      for_each
        (handle ℕ_discrete ℕ_discrete)
        arrivals
        (handle_full_sync_start ℕ_discrete ℕ_discrete 20 start controller).0) in
    let status = (handle_full_sync_status ℕ_discrete ℕ_discrete (status_of start) [] ended).1 in
    (status.is_complete ≡ true) × (status.missing_batches ≡ [])
handle_full_sync_end-after_start_example =
    handle_full_sync_end-after_start ℕ_discrete ℕ_discrete 20 start controller arrivals
      start_accepted 22 5 []
