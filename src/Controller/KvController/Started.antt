-- ===== src/Controller/KvController/Started.antt =====
-- The node of a worker after an accepted start of a full sync.
use serverless_lmcache.Common.{
  ℕ, ◌≡◌, refl, ◌∙◌, inl, inr, Bool-cases, Option-cases, true, false, some, List, [], ◌∷◌, arith,
  contains,
}
use serverless_lmcache.Common.Dict.{get-erase}
use serverless_lmcache.Controller.Worker.{WorkerNode, is_empty, has_kv, at, get_kv_keys}
use serverless_lmcache.Controller.Worker.Replay.{has_kv-at}
use serverless_lmcache.Controller.Registry.{
  get_worker, get_worker_kv_keys, clear_worker_kv, clear_location,
}
use serverless_lmcache.Controller.Registry.Workers.{clear_kv, step, act, get_worker-step}
use serverless_lmcache.Controller.FullSync.{new_sync_info, start_sync, set_sync_info, get_sync_info}
use serverless_lmcache.Controller.FullSync.Nodes.{get_worker-set_sync_info}
use serverless_lmcache.Controller.KvController.{
  FullSyncStartMsg, KvController, handle_full_sync_start,
}

module _ {N K : Type 0} (dec_n : Discrete N) (dec_k : Discrete K) where
  contains_empty : (k : K) (s : List K) → is_empty s ≡ true → contains dec_k k s ≡ false
  contains_empty k [] h = refl
  contains_empty k (x ∷ s) h = cc

  has_kv_empty :
      (w : WorkerNode N K) (l : N) (k : K)
      → is_empty (at dec_n l w.kv_store) ≡ true
      → has_kv dec_n dec_k l k w ≡ false
  has_kv_empty w l k h = has_kv-at dec_n dec_k l k w ∙ contains_empty k _ h

  has_kv_cleared :
      (w : WorkerNode N K) (l : N) (k : K)
      → has_kv dec_n dec_k l k (clear_location dec_n dec_k (some l) w) ≡ false
  unfolding has_kv clear_location
  has_kv_cleared w l k = ground (arith, get-erase dec_n l l w.kv_store)

  module _ (now : ℕ) (msg : FullSyncStartMsg N) (c : KvController N K)
      (accepted : (handle_full_sync_start dec_n dec_k now msg c).1.accepted ≡ true) where
    started_node :
        (w : WorkerNode N K) × (get_worker dec_n msg.instance_id msg.worker_id c.registry ≡ some w)
        × (start_sync dec_n now msg.instance_id msg.worker_id msg.sync_id msg.total_keys
              msg.batch_count c.registry
            ≡ (
              (set_sync_info dec_n msg.instance_id msg.worker_id
                  (some (new_sync_info now msg.sync_id msg.total_keys msg.batch_count))
                  c.registry).0,
              true,
            ))
    unfolding handle_full_sync_start start_sync
    started_node = elim (Option-cases (get_worker dec_n msg.instance_id msg.worker_id c.registry)) [
      | inl none_ ↦ absurd (unfold set_sync_info in unfold get_sync_info in ground arith)
      | inr (w, there) ↦ (w, there, unfold set_sync_info in ground arith)
    ]

    pub started :
        (w : WorkerNode N K) × (get_worker dec_n msg.instance_id msg.worker_id
            (handle_full_sync_start dec_n dec_k now msg c).0.registry
          ≡ some w)
        × (w.sync_info ≡ some (new_sync_info now msg.sync_id msg.total_keys msg.batch_count))
        × ((k : K) → has_kv dec_n dec_k msg.location k w ≡ false)
    unfolding handle_full_sync_start
    started =
        let (w, there, success) = started_node in
        let i = msg.instance_id in
        let u = msg.worker_id in
        let info = new_sync_info now msg.sync_id msg.total_keys msg.batch_count in
        let r = (set_sync_info dec_n i u (some info) c.registry).0 in
        let w1 : WorkerNode N K = record w { sync_info = some info } in
        let set_ : get_worker dec_n i u r ≡ some w1 =
          ground (arith, get_worker-set_sync_info dec_n dec_k i u (some info) c.registry i u) in
        elim (Bool-cases (is_empty (get_worker_kv_keys dec_n dec_k i u msg.location r))) [
          | inl empty ↦ (
            w1,
            ground arith,
            refl,
            λ k.
                has_kv_empty w1 msg.location k
                  (unfold get_worker_kv_keys in unfold get_kv_keys in ground arith),
          )
          | inr full ↦
              let w2 = clear_location dec_n dec_k (some msg.location) w1 in
              let cleared : get_worker dec_n i u
                    (clear_worker_kv dec_n dec_k i u (some msg.location) r).0
                  ≡ some w2 =
                let e = get_worker-step dec_n dec_k (clear_kv i u (some msg.location)) r i u in
                unfold step in unfold act in ground arith in
              (
                w2,
                ground arith,
                unfold clear_location in refl,
                λ k. has_kv_cleared w1 msg.location k,
              )
        ]
