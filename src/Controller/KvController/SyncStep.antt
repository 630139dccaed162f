-- ===== src/Controller/KvController/SyncStep.antt =====
-- One message during a full sync, on the node of the worker.
use serverless_lmcache.Common.{
  ℕ, ◌+◌, ◌≡◌, refl, inl, inr, Bool-cases, Bool, true, false, ◌||◌, if◌then◌else◌, ite, some, List,
  [], ◌∷◌, arith, contains, length, ℕ_discrete,
}
use serverless_lmcache.Controller.Worker.{
  admit, KvOpEvent, BatchedKvOperationMsg, is_syncing, syncing, WorkerSyncInfo, WorkerNode,
  is_empty, has_kv, is_in_sync, set_add,
}
use serverless_lmcache.Controller.Worker
use serverless_lmcache.Controller.Worker.Replay.{
  replay, handle_batched_kv_operations-replay, contains-set_add,
}
use serverless_lmcache.Controller.Worker.Kept.{handle_batched_kv_operations_keeps}
use serverless_lmcache.Controller.Registry.{RegistryTree, get_worker}
use serverless_lmcache.Controller.Registry
use serverless_lmcache.Controller.Registry.Workers.{
  updated, kv_operations, step, act, get_worker-step,
}
use serverless_lmcache.Controller.FullSync.{
  received, is_worker_syncing, get_sync_info, receive_batch,
}
use serverless_lmcache.Controller.FullSync.Nodes.{same_worker, get_worker-receive_batch}
use serverless_lmcache.Controller.KvController.{
  FullSyncBatchMsg, KvController, admissions, batch_operations, handle_batched_kv_operations,
  handle_full_sync_batch,
}
use serverless_lmcache.Controller.KvController.Sync.{
  SyncEvent, incremental, batch, handle, is_of_sync, InSync, Advance,
}

module _ {K : Type 0} (dec_k : Discrete K) where
  replay-admissions :
      (k : K) (n : ℕ) (keys : List K) (b : Bool)
      → replay dec_k k (admissions n keys) b ≡ contains dec_k k keys || b
  unfolding admissions
  replay-admissions k n [] b = refl
  replay-admissions k n (j ∷ keys) b =
      ground (arith, replay-admissions k (n + 1) keys b, replay-admissions k (n + 1) keys true)

  contains-none :
      (k : K) (n : ℕ) (keys : List K)
      → is_empty (admissions n keys) ≡ true
      → contains dec_k k keys ≡ false
  unfolding admissions
  contains-none k n [] h = refl
  contains-none k n (j ∷ keys) h = cc

module _ {N K : Type 0} (dec_n : Discrete N) (dec_k : Discrete K) where
  get_worker-kv_operations :
      (is_full_sync : Bool) (msg : BatchedKvOperationMsg N K) (r : RegistryTree N K) (j : N) (v : ℕ)
      → get_worker dec_n j v
          (Registry.handle_batched_kv_operations dec_n dec_k is_full_sync msg r).0
        ≡ (if same_worker dec_n msg.instance_id msg.worker_id j v
            then updated dec_n dec_k
                (get_worker dec_n j v r)
                (λ w. (Worker.handle_batched_kv_operations dec_n dec_k is_full_sync msg w).0)
            else get_worker dec_n j v r)
  unfolding step act
  get_worker-kv_operations is_full_sync msg r j v =
      let e = get_worker-step dec_n dec_k (kv_operations is_full_sync msg) r j v in ground arith

  module _ (i : N) (u : ℕ) (sync_id : N) where
    handle_incremental :
        (msg : BatchedKvOperationMsg N K) (c : KvController N K) (w : WorkerNode N K)
        (info : WorkerSyncInfo N) (n : ℕ)
        → get_worker dec_n i u c.registry ≡ some w
        → InSync dec_n dec_k i u sync_id w info n
        → get_worker dec_n i u (handle_batched_kv_operations dec_n dec_k msg c).registry ≡ some w
    unfolding handle_batched_kv_operations is_worker_syncing get_sync_info is_in_sync
    handle_incremental msg c w info n there s =
        ground (arith, get_worker-kv_operations false msg c.registry i u)

    receive_batch_recorded :
        (now : ℕ) (msg : FullSyncBatchMsg N K) (c : KvController N K) (w : WorkerNode N K)
        (info : WorkerSyncInfo N) (n : ℕ)
        → get_worker dec_n i u c.registry ≡ some w
        → InSync dec_n dec_k i u sync_id w info n
        → same_worker dec_n msg.instance_id msg.worker_id i u ≡ true
        → (receive_batch dec_n now msg.instance_id msg.worker_id msg.sync_id msg.batch_id
            (length msg.keys)
            c.registry).1
          ≡ ite (dec_n sync_id msg.sync_id) true false
    unfolding receive_batch get_sync_info
    receive_batch_recorded now msg c w info n there s same = ground arith

    handle_other_batch :
        (now : ℕ) (msg : FullSyncBatchMsg N K) (c : KvController N K) (w : WorkerNode N K)
        (info : WorkerSyncInfo N) (n : ℕ)
        → get_worker dec_n i u c.registry ≡ some w
        → InSync dec_n dec_k i u sync_id w info n
        → is_of_sync dec_n dec_k i u sync_id (batch now msg) ≡ false
        → get_worker dec_n i u (handle_full_sync_batch dec_n dec_k now msg c).registry ≡ some w
    unfolding handle_full_sync_batch
    handle_other_batch now msg c w info n there s other =
        let r =
          (receive_batch dec_n now msg.instance_id msg.worker_id msg.sync_id msg.batch_id
            (length msg.keys) c.registry).0 in
        ground (
          arith,
          get_worker-receive_batch dec_n dec_k now msg.instance_id msg.worker_id msg.sync_id
              msg.batch_id (length msg.keys) c.registry i u,
          receive_batch_recorded now msg c w info n there s,
          get_worker-kv_operations true (batch_operations msg) r i u,
        )

    handle_own_batch :
        (now : ℕ) (msg : FullSyncBatchMsg N K) (c : KvController N K) (w : WorkerNode N K)
        (info : WorkerSyncInfo N) (n : ℕ)
        → get_worker dec_n i u c.registry ≡ some w
        → InSync dec_n dec_k i u sync_id w info n
        → is_of_sync dec_n dec_k i u sync_id (batch now msg) ≡ true
        → let w1 : WorkerNode N K = record w {
          sync_info = some (received now msg.batch_id (length msg.keys) info);
        } in
          get_worker dec_n i u (handle_full_sync_batch dec_n dec_k now msg c).registry
          ≡ some (
              if is_empty (admissions 0 msg.keys)
              then w1
              else (Worker.handle_batched_kv_operations dec_n dec_k true
                  (batch_operations msg)
                  w1).0)
    unfolding handle_full_sync_batch
    handle_own_batch now msg c w info n there s own =
        let r =
          (receive_batch dec_n now msg.instance_id msg.worker_id msg.sync_id msg.batch_id
            (length msg.keys) c.registry).0 in
        ground (
          arith,
          get_worker-receive_batch dec_n dec_k now msg.instance_id msg.worker_id msg.sync_id
              msg.batch_id (length msg.keys) c.registry i u,
          receive_batch_recorded now msg c w info n there s,
          get_worker-kv_operations true (batch_operations msg) r i u,
        )

    own_batch_lem :
        (now : ℕ) (msg : FullSyncBatchMsg N K) (w : WorkerNode N K) (info : WorkerSyncInfo N)
        (n : ℕ)
        → InSync dec_n dec_k i u sync_id w info n
        → is_of_sync dec_n dec_k i u sync_id (batch now msg) ≡ true
        → let info' = received now msg.batch_id (length msg.keys) info in
          let w1 : WorkerNode N K = record w { sync_info = some info' } in
          let w' =
            if is_empty (admissions 0 msg.keys)
            then w1
            else (Worker.handle_batched_kv_operations dec_n dec_k true
                (batch_operations msg)
                w1).0 in
          InSync dec_n dec_k i u sync_id w' info' n
          × Advance dec_n dec_k i u sync_id (batch now msg) w info w' info'
    unfolding received
    own_batch_lem now msg w info n s own =
        let info' = received now msg.batch_id (length msg.keys) info in
        let w1 : WorkerNode N K = record w { sync_info = some info' } in
        let kept = handle_batched_kv_operations_keeps dec_n dec_k true (batch_operations msg) w1 in
        (
          (ground arith, s.1, s.2, s.3),
          (
            λ l k.
                let same : has_kv dec_n dec_k l k w1 ≡ has_kv dec_n dec_k l k w =
                  unfold has_kv in refl in
                ground (
                  arith,
                  handle_batched_kv_operations-replay dec_n dec_k true (batch_operations msg) w1 l
                      k,
                  replay-admissions dec_k k 0 msg.keys (has_kv dec_n dec_k l k w1),
                  contains-none dec_k k 0 msg.keys,
                ),
            λ b. ground (arith, contains-set_add ℕ_discrete b msg.batch_id info.received_batches),
          ),
        )

    pub handle_lem :
        (e : SyncEvent N K) (c : KvController N K) (w : WorkerNode N K) (info : WorkerSyncInfo N)
        (n : ℕ)
        → get_worker dec_n i u c.registry ≡ some w
        → InSync dec_n dec_k i u sync_id w info n
        → (w' : WorkerNode N K) × (info' : WorkerSyncInfo N) × (get_worker dec_n i u
              (handle dec_n dec_k e c).registry
            ≡ some w')
          × InSync dec_n dec_k i u sync_id w' info' n
          × Advance dec_n dec_k i u sync_id e w info w' info'
    handle_lem (incremental msg) c w info n there s =
        (w, info, handle_incremental msg c w info n there s, s, (λ l k. refl, λ b. refl))
    handle_lem (batch now msg) c w info n there s =
        elim (Bool-cases (is_of_sync dec_n dec_k i u sync_id (batch now msg))) [
          | inr other ↦ (
            w,
            info,
            handle_other_batch now msg c w info n there s other,
            s,
            (λ l k. rw other refl, λ b. rw other refl),
          )
          | inl own ↦
              let (s', advance) = own_batch_lem now msg w info n s own in
              (_, _, handle_own_batch now msg c w info n there s own, s', advance)
        ]
