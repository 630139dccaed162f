-- ===== src/Controller/Registry/Shaped.antt =====
-- The shape of the two levels of dictionaries that the calls keep.
use serverless_lmcache.Common.{
  ℕ, ◌≡◌, refl, sym, subst, inl, inr, Bool-cases, Option-cases, false, Option, none, some, [], ◌∷◌,
  arith, ℕ_discrete,
}
use serverless_lmcache.Common.Dict.{
  Dict, get, insert, erase, IsUnique, insert-IsUnique, erase-IsUnique, insert-insert, each-insert,
  each-erase,
}
use serverless_lmcache.Controller.Worker.{BatchedKvOperationMsg, WorkerNode, is_empty}
use serverless_lmcache.Controller.Worker
use serverless_lmcache.Controller.Worker.Kept.{StoreWellFormed}
use serverless_lmcache.Controller.Instance.{InstanceNode, add_worker, remove_worker, has_workers}
use serverless_lmcache.Controller.Registry.{
  RegistryTree, incr_seq_discontinuity_count, new_worker, get_or_create_instance, get_instance,
  write_instance, register_worker, deregister_worker, get_worker, write_worker, update_heartbeat,
  handle_batched_kv_operations, clear_location, clear_worker_kv,
}
use serverless_lmcache.Controller.Registry.Workers.{
  Operation, register, deregister, heartbeat, kv_operations, clear_kv, step,
}

module _ {N K : Type 0} (dec_n : Discrete N) where
  -- A worker under its id: the id is its own, and its store is well formed.
  abbrev pub WorkerWellFormed : ℕ → Option (WorkerNode N K) → Type 0
  WorkerWellFormed u none = Unit
  WorkerWellFormed u (some w) = (w.worker_id ≡ u) × StoreWellFormed dec_n w.kv_store

  abbrev pub InstanceWellFormed : N → Option (InstanceNode N K) → Type 0
  InstanceWellFormed i none = Unit
  InstanceWellFormed i (some node) =
      (node.instance_id ≡ i) × (is_empty node.workers ≡ false) × IsUnique ℕ_discrete node.workers

  abbrev pub Shaped : Dict N (InstanceNode N K) → Type 0
  Shaped d = IsUnique dec_n d × ((i : N) → InstanceWellFormed i (get dec_n i d))

  abbrev pub WellFormed : RegistryTree N K → Type 0
  WellFormed r =
      Shaped r.instances × ((i : N) (u : ℕ) → WorkerWellFormed u (get_worker dec_n i u r))

module _ {N K : Type 0} (dec_n : Discrete N) (dec_k : Discrete K) where
  write_instance-Shaped :
      (i : N) (node : InstanceNode N K) (r : RegistryTree N K)
      → InstanceWellFormed dec_n i (some node)
      → Shaped dec_n r.instances
      → Shaped dec_n (write_instance dec_n i node r).instances
  unfolding write_instance
  write_instance-Shaped i node r new (u, h) = (
    insert-IsUnique dec_n i node r.instances u,
    each-insert dec_n (InstanceWellFormed dec_n) i node r.instances new h,
  )

  insert-is_empty :
      (u : ℕ) (w : WorkerNode N K) (d : Dict ℕ (WorkerNode N K))
      → is_empty (insert ℕ_discrete u w d) ≡ false
  unfolding insert
  insert-is_empty u w [] = refl
  insert-is_empty u w (e ∷ d) = ground arith

  with_worker-InstanceWellFormed :
      (i : N) (u : ℕ) (w : WorkerNode N K) (node : InstanceNode N K)
      → node.instance_id ≡ i
      → IsUnique ℕ_discrete node.workers
      → InstanceWellFormed dec_n i
          (some (record node { workers = insert ℕ_discrete u w node.workers }))
  with_worker-InstanceWellFormed i u w node id unique =
      (id, insert-is_empty u w node.workers, insert-IsUnique ℕ_discrete u w node.workers unique)

  instance_at :
      (i : N) (r : RegistryTree N K) {node : InstanceNode N K}
      → Shaped dec_n r.instances
      → get dec_n i r.instances ≡ some node
      → InstanceWellFormed dec_n i (some node)
  instance_at i r (u, h) there = subst (InstanceWellFormed dec_n i) there (h i)

  write_worker-Shaped :
      (i : N) (u : ℕ) (w : WorkerNode N K) (r : RegistryTree N K)
      → Shaped dec_n r.instances
      → Shaped dec_n (write_worker dec_n i u w r).instances
  unfolding write_worker get_instance
  write_worker-Shaped i u w r shaped = elim (Option-cases (get dec_n i r.instances)) [
    | inl none_ ↦ let e : write_worker dec_n i u w r ≡ r = ground arith in rw e shaped
    | inr (node, there) ↦
        let node' : InstanceNode N K = record node {
          workers = insert ℕ_discrete u w node.workers;
        } in
        let e : write_worker dec_n i u w r ≡ write_instance dec_n i node' r = ground arith in
        let was = instance_at i r shaped there in
        rw e (
          write_instance-Shaped i node' r (with_worker-InstanceWellFormed i u w node was.0 was.2)
            shaped)
  ]

  register_worker-Shaped :
      (i : N) (u : ℕ) (ip : N) (port : ℕ) (url : Option N) (t : ℕ) (r : RegistryTree N K)
      → Shaped dec_n r.instances
      → Shaped dec_n (register_worker dec_n i u ip port url t r).0.instances
  unfolding register_worker get_or_create_instance add_worker new_worker
  register_worker-Shaped i u ip port url t r shaped =
      let w : WorkerNode N K = new_worker u ip port url t in
      elim (Option-cases (get dec_n i r.instances)) [
        | inl none_ ↦
            let empty_node : InstanceNode N K = record { instance_id = i; workers = [] } in
            let node' : InstanceNode N K = record empty_node {
              workers = insert ℕ_discrete u w [];
            } in
            let e : (register_worker dec_n i u ip port url t r).0.instances
                ≡ insert dec_n i node' (insert dec_n i empty_node r.instances) =
              unfold write_instance in ground arith in
            let shrunk = insert-insert dec_n i node' empty_node r.instances in
            rw (e, shrunk)
              (unfold write_instance in
                write_instance-Shaped i node' r
                  (with_worker-InstanceWellFormed i u w empty_node refl tt) shaped)
        | inr (node, there) ↦
            let node' : InstanceNode N K = record node {
              workers = insert ℕ_discrete u w node.workers;
            } in
            let e : (register_worker dec_n i u ip port url t r).0 ≡ write_instance dec_n i node' r =
              ground arith in
            let was = instance_at i r shaped there in
            rw e (
              write_instance-Shaped i node' r
                (with_worker-InstanceWellFormed i u w node was.0 was.2) shaped)
      ]

  deregister_worker-Shaped :
      (i : N) (u : ℕ) (r : RegistryTree N K)
      → Shaped dec_n r.instances
      → Shaped dec_n (deregister_worker dec_n i u r).0.instances
  unfolding deregister_worker get_instance has_workers remove_worker
  deregister_worker-Shaped i u r shaped = elim (Option-cases (get dec_n i r.instances)) [
    | inl none_ ↦ let e : (deregister_worker dec_n i u r).0 ≡ r = ground arith in rw e shaped
    | inr (node, there) ↦
        let left = erase ℕ_discrete u node.workers in
        let was = instance_at i r shaped there in
        elim (Bool-cases (is_empty left)) [
          | inl emptied ↦
              let e : (deregister_worker dec_n i u r).0.instances ≡ erase dec_n i r.instances =
                ground arith in
              rw e (
                erase-IsUnique dec_n i r.instances shaped.0,
                each-erase dec_n (InstanceWellFormed dec_n) i r.instances tt shaped.1,
              )
          | inr kept ↦
              let node' : InstanceNode N K = record node { workers = left } in
              let e : (deregister_worker dec_n i u r).0 ≡ write_instance dec_n i node' r =
                ground arith in
              rw e (
                write_instance-Shaped i node' r
                  (was.0, kept, erase-IsUnique ℕ_discrete u node.workers was.2) shaped)
        ]
  ]

  -- A call that writes to the node of worker `u`, if there is one.
  written-Shaped :
      (i : N) (u : ℕ) (f : WorkerNode N K → WorkerNode N K) (r r' : RegistryTree N K)
      → (get_worker dec_n i u r ≡ none → r' ≡ r)
      → ((w : WorkerNode N K)
          → get_worker dec_n i u r ≡ some w
          → r'.instances ≡ (write_worker dec_n i u (f w) r).instances)
      → Shaped dec_n r.instances
      → Shaped dec_n r'.instances
  written-Shaped i u f r r' unchanged written h = elim (Option-cases (get_worker dec_n i u r)) [
    | inl none_ ↦ rw (unchanged none_) h
    | inr (w, there) ↦
        subst (Shaped dec_n) (sym (written w there)) (write_worker-Shaped i u (f w) r h)
  ]

  pub step-Shaped :
      (op : Operation N K) (r : RegistryTree N K)
      → Shaped dec_n r.instances
      → Shaped dec_n (step dec_n dec_k op r).instances
  unfolding step
  step-Shaped (register i u ip port url t) r h = register_worker-Shaped i u ip port url t r h
  step-Shaped (deregister i u) r h = deregister_worker-Shaped i u r h
  step-Shaped (heartbeat i u t) r h =
      unfold update_heartbeat in
      written-Shaped i u (λ w. record w { last_heartbeat_time = t }) r
        (update_heartbeat dec_n i u t r).0 (λ absent. ground arith) (λ w there. ground arith) h
  step-Shaped (kv_operations is_full_sync msg) r h =
      unfold handle_batched_kv_operations in
      unfold incr_seq_discontinuity_count in
      written-Shaped msg.instance_id msg.worker_id
        (λ w. (Worker.handle_batched_kv_operations dec_n dec_k is_full_sync msg w).0) r
        (handle_batched_kv_operations dec_n dec_k is_full_sync msg r).0 (λ absent. ground arith)
        (λ w there. ground arith) h
  step-Shaped (clear_kv i u location) r h =
      unfold clear_worker_kv in
      written-Shaped i u (clear_location dec_n dec_k location) r
        (clear_worker_kv dec_n dec_k i u location r).0 (λ absent. ground arith)
        (λ w there. ground arith) h
