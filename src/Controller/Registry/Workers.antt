-- ===== src/Controller/Registry/Workers.antt =====
-- The registry as a map from instance and worker to the worker's node.
use serverless_lmcache.Common.{
  ℕ, ◌≡◌, refl, inl, inr, Option-cases, Bool, true, if◌then◌else◌, ite, Option, none, some, [], ◌∷◌,
  arith, ℕ_discrete,
}
use serverless_lmcache.Common.Dict.{Dict, get, insert, erase, get-insert, get-erase}
use serverless_lmcache.Controller.Worker.{BatchedKvOperationMsg, WorkerNode, is_empty}
use serverless_lmcache.Controller.Worker
use serverless_lmcache.Controller.Instance.{InstanceNode, add_worker, remove_worker, has_workers}
use serverless_lmcache.Controller.Instance
use serverless_lmcache.Controller.Registry.{
  RegistryTree, incr_seq_discontinuity_count, new_worker, get_or_create_instance, get_instance,
  write_instance, register_worker, deregister_worker, get_worker, write_worker, update_heartbeat,
  handle_batched_kv_operations, clear_location, clear_worker_kv,
}

-- A call that changes the registry.
pub data Operation (N K : Type 0) : Type 0 where
  register : N → ℕ → N → ℕ → Option N → ℕ → Operation N K
  deregister : N → ℕ → Operation N K
  heartbeat : N → ℕ → ℕ → Operation N K
  kv_operations : Bool → BatchedKvOperationMsg N K → Operation N K
  clear_kv : N → ℕ → Option N → Operation N K

module _ {N K : Type 0} where
  -- The instance and the worker that a call is about.
  abbrev pub subject : Operation N K → N × ℕ
  subject (register i u ip port url t) = (i, u)
  subject (deregister i u) = (i, u)
  subject (heartbeat i u t) = (i, u)
  subject (kv_operations is_full_sync msg) = (msg.instance_id, msg.worker_id)
  subject (clear_kv i u location) = (i, u)

get-empty : {V : Type 0} (d : Dict ℕ V) (v : ℕ) → is_empty d ≡ true → get ℕ_discrete v d ≡ none
unfolding get
get-empty [] v h = refl
get-empty (e ∷ d) v h = cc

module _ {N K : Type 0} (dec_n : Discrete N) (dec_k : Discrete K) where
  unfoldable pub step : Operation N K → RegistryTree N K → RegistryTree N K
  step (register i u ip port url t) r = (register_worker dec_n i u ip port url t r).0
  step (deregister i u) r = (deregister_worker dec_n i u r).0
  step (heartbeat i u t) r = (update_heartbeat dec_n i u t r).0
  step (kv_operations is_full_sync msg) r =
      (handle_batched_kv_operations dec_n dec_k is_full_sync msg r).0
  step (clear_kv i u location) r = (clear_worker_kv dec_n dec_k i u location r).0

  abbrev pub updated :
      Option (WorkerNode N K) → (WorkerNode N K → WorkerNode N K) → Option (WorkerNode N K)
  updated none f = none
  updated (some w) f = some (f w)

  -- What a call does to the entry of its worker in a map.
  unfoldable pub act : Operation N K → Option (WorkerNode N K) → Option (WorkerNode N K)
  act (register i u ip port url t) o = some (new_worker u ip port url t)
  act (deregister i u) o = none
  act (heartbeat i u t) o = updated o (λ w. record w { last_heartbeat_time = t })
  act (kv_operations is_full_sync msg) o =
      updated o (λ w. (Worker.handle_batched_kv_operations dec_n dec_k is_full_sync msg w).0)
  act (clear_kv i u location) o = updated o (clear_location dec_n dec_k location)

  -- The entry of worker `v` of instance `j`, where worker `u` of instance `i` gets the entry `o`.
  abbrev pub override :
      N → ℕ → Option (WorkerNode N K) → N → ℕ → Option (WorkerNode N K) → Option (WorkerNode N K)
  override i u o j v old = ite (dec_n i j) (ite (ℕ_discrete u v) o old) old

  get_worker-write_instance :
      (i : N) (node : InstanceNode N K) (r : RegistryTree N K) (j : N) (v : ℕ)
      → get_worker dec_n j v (write_instance dec_n i node r)
        ≡ ite (dec_n i j) (get ℕ_discrete v node.workers) (get_worker dec_n j v r)
  unfolding get_worker write_instance get_instance Instance.get_worker
  get_worker-write_instance i node r j v = ground (arith, get-insert dec_n i j node r.instances)

  get_worker-present :
      (i : N) (r : RegistryTree N K) (v : ℕ) {node : InstanceNode N K}
      → get_instance dec_n i r ≡ some node
      → get_worker dec_n i v r ≡ get ℕ_discrete v node.workers
  unfolding get_worker Instance.get_worker
  get_worker-present i r v there = ground arith

  get_worker-write_worker :
      (i : N) (u : ℕ) (w : WorkerNode N K) (r : RegistryTree N K) (j : N) (v : ℕ)
      {node : InstanceNode N K}
      → get_instance dec_n i r ≡ some node
      → get_worker dec_n j v (write_worker dec_n i u w r)
        ≡ override i u (some w) j v (get_worker dec_n j v r)
  unfolding write_worker
  get_worker-write_worker i u w r j v {node} there =
      let e : write_worker dec_n i u w r
          ≡ write_instance dec_n i (record node { workers = insert ℕ_discrete u w node.workers })
              r =
        ground arith in
      rw e (
        ground (
          arith,
          get_worker-write_instance i (record node { workers = insert ℕ_discrete u w node.workers })
              r j v,
          get-insert ℕ_discrete u v w node.workers,
          get_worker-present i r v there,
        ))

  get_worker-erase :
      (i : N) (r : RegistryTree N K) (j : N) (v : ℕ)
      → get_worker dec_n j v (record r { instances = erase dec_n i r.instances })
        ≡ ite (dec_n i j) none (get_worker dec_n j v r)
  unfolding get_worker get_instance
  get_worker-erase i r j v = ground (arith, get-erase dec_n i j r.instances)

  get_worker-get_or_create_instance :
      (i : N) (r : RegistryTree N K) (j : N) (v : ℕ)
      → (get_worker dec_n j v (get_or_create_instance dec_n i r).0 ≡ get_worker dec_n j v r)
        × (get ℕ_discrete v (get_or_create_instance dec_n i r).1.workers ≡ get_worker dec_n i v r)
  unfolding get_or_create_instance get_worker get_instance Instance.get_worker get
  get_worker-get_or_create_instance i r j v =
      ground (arith, get-insert dec_n i j (record { instance_id = i; workers = [] }) r.instances)

  register_worker-get_worker :
      (i : N) (u : ℕ) (ip : N) (port : ℕ) (url : Option N) (t : ℕ) (r : RegistryTree N K) (j : N)
      (v : ℕ)
      → get_worker dec_n j v (register_worker dec_n i u ip port url t r).0
        ≡ override i u (some (new_worker u ip port url t)) j v (get_worker dec_n j v r)
  unfolding register_worker add_worker new_worker
  register_worker-get_worker i u ip port url t r j v =
      let c = get_or_create_instance dec_n i r in
      let w : WorkerNode N K = new_worker u ip port url t in
      ground (
        arith,
        get_worker-write_instance i (add_worker w c.1) c.0 j v,
        get-insert ℕ_discrete u v w c.1.workers,
        get_worker-get_or_create_instance i r j v,
      )

  deregister_worker-get_worker :
      (i : N) (u : ℕ) (r : RegistryTree N K) (j : N) (v : ℕ)
      → get_worker dec_n j v (deregister_worker dec_n i u r).0
        ≡ override i u none j v (get_worker dec_n j v r)
  unfolding deregister_worker get_instance
  deregister_worker-get_worker i u r j v = elim (Option-cases (get dec_n i r.instances)) [
    | inl none_ ↦
        let e : (deregister_worker dec_n i u r).0 ≡ r = ground arith in
        rw e (unfold get_worker in ground arith)
    | inr (node, there) ↦
        let left = erase ℕ_discrete u node.workers in
        let emptied : RegistryTree N K = record r { instances = erase dec_n i r.instances } in
        let kept = write_instance dec_n i (record node { workers = left }) r in
        let e : (deregister_worker dec_n i u r).0 ≡ (if is_empty left then emptied else kept) =
          unfold remove_worker in unfold has_workers in ground arith in
        rw e (
          ground (
            arith,
            get_worker-erase i r j v,
            get_worker-write_instance i (record node { workers = left }) r j v,
            get-erase ℕ_discrete u v node.workers,
            get-empty left v,
            get_worker-present i r v {node = node} there,
          ))
  ]

  get_worker_same :
      (r r' : RegistryTree N K)
      → r.instances ≡ r'.instances
      → (j : N) (v : ℕ) → get_worker dec_n j v r ≡ get_worker dec_n j v r'
  unfolding get_worker get_instance
  get_worker_same r r' same j v = ground arith

  module _ (i : N) (u : ℕ) (f : WorkerNode N K → WorkerNode N K) (r : RegistryTree N K) (j : N)
      (v : ℕ) where
    updated-absent :
        get_worker dec_n i u r ≡ none
        → get_worker dec_n j v r
          ≡ override i u (updated (get_worker dec_n j v r) f) j v (get_worker dec_n j v r)
    updated-absent h = ground arith

    updated-present :
        {w : WorkerNode N K}
        → get_worker dec_n i u r ≡ some w
        → get_worker dec_n j v (write_worker dec_n i u (f w) r)
          ≡ override i u (updated (get_worker dec_n j v r) f) j v (get_worker dec_n j v r)
    updated-present {w} h = elim (Option-cases (get_instance dec_n i r)) [
      | inl none_ ↦ absurd (unfold get_worker in ground arith)
      | inr (node, there) ↦
          ground (arith, get_worker-write_worker i u (f w) r j v {node = node} there)
    ]

    -- A call that applies `f` to the node of worker `u`, if there is one.
    pub updated_lem :
        {r' : RegistryTree N K}
        → (get_worker dec_n i u r ≡ none → r' ≡ r)
        → ((w : WorkerNode N K)
            → get_worker dec_n i u r ≡ some w
            → r'.instances ≡ (write_worker dec_n i u (f w) r).instances)
        → get_worker dec_n j v r'
          ≡ override i u (updated (get_worker dec_n j v r) f) j v (get_worker dec_n j v r)
    updated_lem {r'} unchanged written = elim (Option-cases (get_worker dec_n i u r)) [
      | inl none_ ↦ rw (unchanged none_) (updated-absent none_)
      | inr (w, there) ↦
          let e : get_worker dec_n j v r' ≡ get_worker dec_n j v (write_worker dec_n i u (f w) r) =
            get_worker_same r' (write_worker dec_n i u (f w) r) (written w there) j v in
          rw e (updated-present there)
    ]

  -- Registration, deregistration, heartbeats, key operations and clearing refine a map from
  -- instance and worker to the worker's node: a call changes the entry of the worker that it
  -- names, as its action on one entry says, and no other entry.
  pub get_worker-step :
      (op : Operation N K) (r : RegistryTree N K) (j : N) (v : ℕ)
      → get_worker dec_n j v (step op r)
        ≡ override
            (subject op).0
            (subject op).1
            (act op (get_worker dec_n j v r))
            j
            v
            (get_worker dec_n j v r)
  unfolding step act
  get_worker-step (register i u ip port url t) r j v =
      register_worker-get_worker i u ip port url t r j v
  get_worker-step (deregister i u) r j v = deregister_worker-get_worker i u r j v
  get_worker-step (heartbeat i u t) r j v =
      unfold update_heartbeat in
      updated_lem i u (λ w. record w { last_heartbeat_time = t }) r j v (λ absent. ground arith)
        (λ w there. ground arith)
  get_worker-step (kv_operations is_full_sync msg) r j v =
      unfold handle_batched_kv_operations in
      unfold incr_seq_discontinuity_count in
      updated_lem msg.instance_id msg.worker_id
        (λ w. (Worker.handle_batched_kv_operations dec_n dec_k is_full_sync msg w).0) r j v
        (λ absent. ground arith) (λ w there. ground arith)
  get_worker-step (clear_kv i u location) r j v =
      unfold clear_worker_kv in
      updated_lem i u (clear_location dec_n dec_k location) r j v (λ absent. ground arith)
        (λ w there. ground arith)
