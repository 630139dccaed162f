-- ===== src/Controller/KvController/Synced.antt =====
-- The controller's view of a worker after an accepted start of a full sync.
use serverless_lmcache.Common.{
  range_from, ℕ, zero, suc, ◌+◌, ltb, leb, ◌≡◌, refl, Bool, true, false, not, ◌&&◌, ◌||◌, none,
  some, List, [], ◌∷◌, arith, contains, ℕ_discrete, for_each,
}
use serverless_lmcache.Controller.Worker.{completed, WorkerSyncInfo, WorkerNode, has_kv}
use serverless_lmcache.Controller.Registry.{get_worker}
use serverless_lmcache.Controller.FullSync.{
  difference, new_sync_info, get_sync_info, get_missing_batches, complete_sync, get_sync_status,
}
use serverless_lmcache.Controller.FullSync.Nodes.{get_worker-set_sync_info}
use serverless_lmcache.Controller.KvController.{
  FullSyncStartMsg, FullSyncEndMsg, FullSyncStatusMsg, KvController, handle_full_sync_start,
  handle_full_sync_end, handle_full_sync_status,
}
use serverless_lmcache.Controller.KvController.Sync.{SyncEvent, handle, brings, is_batch, InSync}
use serverless_lmcache.Controller.KvController.SyncStep.{handle_lem}
use serverless_lmcache.Controller.KvController.Started.{started}

-- The messages that end a sync and ask about it.
abbrev pub end_of : {N : Type 0} → FullSyncStartMsg N → ℕ → FullSyncEndMsg N
end_of msg actual_total_keys = record {
  instance_id = msg.instance_id;
  worker_id = msg.worker_id;
  location = msg.location;
  sync_id = msg.sync_id;
  actual_total_keys = actual_total_keys;
}

abbrev pub status_of : {N : Type 0} → FullSyncStartMsg N → FullSyncStatusMsg N
status_of msg = record {
  instance_id = msg.instance_id;
  worker_id = msg.worker_id;
  sync_id = msg.sync_id;
}

-- Whether some element passes a test.
abbrev pub any {ℓ} : {A : Type ℓ} → (A → Bool) → List A → Bool
any p [] = false
any p (x ∷ xs) = p x || any p xs

contains-range_from :
    (b k n : ℕ) → contains ℕ_discrete b (range_from k n) ≡ leb k b && ltb b (k + n)
unfolding range_from
contains-range_from b k zero = ground arith
contains-range_from b k (suc n) = ground (arith, contains-range_from b (suc k) n)

contains-difference :
    (b : ℕ) (xs ys : List ℕ)
    → contains ℕ_discrete b (difference xs ys)
      ≡ contains ℕ_discrete b xs && not (contains ℕ_discrete b ys)
unfolding difference
contains-difference b [] ys = refl
contains-difference b (x ∷ xs) ys = ground (arith, contains-difference b xs ys)

module _ {N K : Type 0} (dec_n : Discrete N) (dec_k : Discrete K) where
  -- Whether the controller has a key of a worker at a location.
  abbrev pub holds : N → ℕ → N → K → KvController N K → Bool
  holds i u l k c = elim (get_worker dec_n i u c.registry) [
    | none ↦ false
    | some w ↦ has_kv dec_n dec_k l k w
  ]

  module _ (i : N) (u : ℕ) (sync_id : N) (n : ℕ) where
    run_lem :
        (events : List (SyncEvent N K)) (c : KvController N K) (w : WorkerNode N K)
        (info : WorkerSyncInfo N)
        → get_worker dec_n i u c.registry ≡ some w
        → InSync dec_n dec_k i u sync_id w info n
        → (w' : WorkerNode N K) × (info' : WorkerSyncInfo N) × (get_worker dec_n i u
              (for_each (handle dec_n dec_k) events c).registry
            ≡ some w')
          × InSync dec_n dec_k i u sync_id w' info' n
          × ((l : N) (k : K)
              → has_kv dec_n dec_k l k w'
                ≡ any (brings dec_n dec_k i u sync_id l k) events || has_kv dec_n dec_k l k w)
          × ((b : ℕ)
              → contains ℕ_discrete b info'.received_batches
                ≡ any (is_batch dec_n dec_k i u sync_id b) events
                  || contains ℕ_discrete b info.received_batches)
    run_lem [] c w info there s = (w, info, there, s, λ l k. refl, λ b. refl)
    run_lem (e ∷ events) c w info there s =
        let (w1, info1, there1, s1, (has1, got1)) =
          handle_lem dec_n dec_k i u sync_id e c w info n there s in
        let (w', info', there', s', has', got') =
          run_lem events (handle dec_n dec_k e c) w1 info1 there1 s1 in
        (
          w',
          info',
          there',
          s',
          λ l k. let h1 = has1 l k in let h' = has' l k in ground arith,
          λ b. let g1 = got1 b in let g' = got' b in ground arith,
        )

  -- The controller after an accepted start and more messages.
  module _ (now : ℕ) (msg : FullSyncStartMsg N) (c : KvController N K)
      (events : List (SyncEvent N K))
      (accepted : (handle_full_sync_start dec_n dec_k now msg c).1.accepted ≡ true) where
    abbrev after : KvController N K
    after = for_each (handle dec_n dec_k) events (handle_full_sync_start dec_n dec_k now msg c).0

    synced_node :
        (w : WorkerNode N K) × (info : WorkerSyncInfo N) × (get_worker dec_n msg.instance_id
            msg.worker_id after.registry
          ≡ some w)
        × InSync dec_n dec_k msg.instance_id msg.worker_id msg.sync_id w info msg.batch_count
        × ((k : K)
            → has_kv dec_n dec_k msg.location k w
              ≡ any
                  (brings dec_n dec_k msg.instance_id msg.worker_id msg.sync_id msg.location k)
                  events)
        × ((b : ℕ)
            → contains ℕ_discrete b info.received_batches
              ≡ any (is_batch dec_n dec_k msg.instance_id msg.worker_id msg.sync_id b) events)
    unfolding new_sync_info
    synced_node =
        let (w, there, info_there, none_stored) = started dec_n dec_k now msg c accepted in
        let info = new_sync_info now msg.sync_id msg.total_keys msg.batch_count in
        let (w', info', there', s', has', got') =
          run_lem msg.instance_id msg.worker_id msg.sync_id msg.batch_count events
            (handle_full_sync_start dec_n dec_k now msg c).0 w info there
            (info_there, refl, refl, refl) in
        (
          w',
          info',
          there',
          s',
          λ k. let h = has' msg.location k in let z = none_stored k in ground arith,
          λ b. let h = got' b in ground arith,
        )

    -- After an accepted start of a full sync, and any sequence of incremental messages and batches
    -- from any workers, the controller has a key of the syncing worker at the sync's location
    -- exactly if one of the batches of that sync brought it: what was there before is gone, and
    -- incremental messages of the worker change nothing.
    pub holds-after_start :
        (k : K)
        → holds msg.instance_id msg.worker_id msg.location k
            (for_each (handle dec_n dec_k) events (handle_full_sync_start dec_n dec_k now msg c).0)
          ≡ any (brings dec_n dec_k msg.instance_id msg.worker_id msg.sync_id msg.location k) events
    holds-after_start k =
        let (w, info, there, s, has, got) = synced_node in let h = has k in ground arith

    -- After an accepted start of a full sync, and any sequence of incremental messages and
    -- batches, the missing batches of the sync are the numbers below the announced count of which
    -- no batch of that sync has arrived.
    pub get_missing_batches-after_start :
        (b : ℕ)
        → contains ℕ_discrete b (
            get_missing_batches dec_n msg.instance_id msg.worker_id msg.sync_id
              (for_each
                (handle dec_n dec_k)
                events
                (handle_full_sync_start dec_n dec_k now msg c).0).registry)
          ≡ ltb b msg.batch_count
            && not (any (is_batch dec_n dec_k msg.instance_id msg.worker_id msg.sync_id b) events)
    unfolding get_missing_batches get_sync_info
    get_missing_batches-after_start b =
        let (w, info, there, s, has, got) = synced_node in
        let g = got b in
        ground (
          arith,
          contains-difference b (range_from 0 msg.batch_count) info.received_batches,
          contains-range_from b 0 msg.batch_count,
        )

    -- After an accepted start of a full sync, any sequence of incremental messages and batches,
    -- and the end message of that sync, the status of the sync is complete and lists no missing
    -- batch, whichever batches arrived.
    pub handle_full_sync_end-after_start :
        (later actual_total_keys : ℕ) (all_workers : List (N × WorkerNode N K))
        → let ended = handle_full_sync_end dec_n dec_k later (end_of msg actual_total_keys) (
            for_each
              (handle dec_n dec_k)
              events
              (handle_full_sync_start dec_n dec_k now msg c).0) in
          let status = (handle_full_sync_status dec_n dec_k (status_of msg) all_workers ended).1 in
          (status.is_complete ≡ true) × (status.missing_batches ≡ [])
    unfolding handle_full_sync_end handle_full_sync_status get_sync_status get_missing_batches
    handle_full_sync_end-after_start later actual_total_keys all_workers =
        let (w, info, there, s, has, got) = synced_node in
        let info' : WorkerSyncInfo N = record info {
          state = completed;
          last_activity_time = later;
        } in
        let e : get_sync_info dec_n msg.instance_id msg.worker_id
              (complete_sync dec_n later msg.instance_id msg.worker_id msg.sync_id after.registry).0
            ≡ some info' =
          unfold complete_sync in
          unfold get_sync_info in
          ground (
            arith,
            get_worker-set_sync_info dec_n dec_k msg.instance_id msg.worker_id (some info')
                after.registry msg.instance_id msg.worker_id,
          ) in
        ground arith
