-- ===== src/Controller/Registry.antt =====
-- `RegistryTree` of cache_controller/utils.py: the instances and their workers. An operation runs
-- alone on the nodes that it touches; the caches of worker lists for metrics are left out.
pub mod Find
pub mod Workers
pub mod Shaped
pub mod WellFormed
pub mod Located
pub mod FindKv
use serverless_lmcache.Common.{
  ℕ, ◌+◌, Bool, true, false, not, if◌then◌else◌, ite, Option, none, some, List, [], ◌∷◌, ◌++◌, map,
  ℕ_discrete,
}
use serverless_lmcache.Common.Dict.{Dict, get, insert, erase, values}
use serverless_lmcache.Controller.Worker.{
  BatchedKvOperationMsg, WorkerNode, WorkerInfo, get_kv_keys, clear_kv_store,
}
use serverless_lmcache.Controller.Worker
use serverless_lmcache.Controller.Instance
use serverless_lmcache.Controller.Instance.{
  InstanceNode, add_worker, remove_worker, has_workers, get_all_worker_infos, has_worker_with_ip,
}

pub record RegistryTree (N K : Type 0) : Type 0 where
  pub instances : Dict N (InstanceNode N K)
  pub seq_discontinuity_count : ℕ

module _ {N K : Type 0} where
  abbrev pub new_registry : RegistryTree N K
  new_registry = record { instances = []; seq_discontinuity_count = 0 }

  unfoldable pub incr_seq_discontinuity_count : RegistryTree N K → RegistryTree N K
  incr_seq_discontinuity_count r = record r {
    seq_discontinuity_count = r.seq_discontinuity_count + 1;
  }

  unfoldable pub infos_of : List (InstanceNode N K) → List (WorkerInfo N)
  infos_of [] = []
  infos_of (node ∷ nodes) = get_all_worker_infos node ++ infos_of nodes

  unfoldable pub get_all_worker_infos_fresh : RegistryTree N K → List (WorkerInfo N)
  get_all_worker_infos_fresh r = infos_of (values r.instances)

  unfoldable pub nodes_of : Dict N (InstanceNode N K) → List (N × WorkerNode N K)
  nodes_of [] = []
  nodes_of ((instance_id, node) ∷ d) =
      map (λ w. (instance_id, w)) (values node.workers) ++ nodes_of d

  unfoldable pub get_all_worker_nodes_fresh : RegistryTree N K → List (N × WorkerNode N K)
  get_all_worker_nodes_fresh r = nodes_of r.instances

  unfoldable pub sum_total_kv_counts : List (InstanceNode N K) → ℕ
  sum_total_kv_counts [] = 0
  sum_total_kv_counts (node ∷ nodes) = Instance.get_total_kv_count node + sum_total_kv_counts nodes

  unfoldable pub get_total_kv_count : RegistryTree N K → ℕ
  get_total_kv_count r = sum_total_kv_counts (values r.instances)

  unfoldable pub new_worker : ℕ → N → ℕ → Option N → ℕ → WorkerNode N K
  new_worker worker_id ip port peer_init_url registration_time = record {
    worker_id = worker_id;
    ip = ip;
    port = port;
    peer_init_url = peer_init_url;
    registration_time = registration_time;
    last_heartbeat_time = registration_time;
    seq_tracker = [];
    kv_store = [];
    sync_info = none;
  }

module _ {N K : Type 0} (dec_n : Discrete N) where
  -- The node, and the registry that has it.
  unfoldable pub get_or_create_instance : N → RegistryTree N K → RegistryTree N K × InstanceNode N K
  get_or_create_instance instance_id r = elim (get dec_n instance_id r.instances) [
    | some node ↦ (r, node)
    | none ↦
        let node : InstanceNode N K = record { instance_id = instance_id; workers = [] } in
        (record r { instances = insert dec_n instance_id node r.instances }, node)
  ]

  unfoldable pub get_instance : N → RegistryTree N K → Option (InstanceNode N K)
  get_instance instance_id r = get dec_n instance_id r.instances

  -- A write to the instance node that `instances` has under an id.
  unfoldable pub write_instance : N → InstanceNode N K → RegistryTree N K → RegistryTree N K
  write_instance instance_id node r = record r {
    instances = insert dec_n instance_id node r.instances;
  }

  unfoldable pub register_worker :
      N → ℕ → N → ℕ → Option N → ℕ → RegistryTree N K → RegistryTree N K × WorkerNode N K
  register_worker instance_id worker_id ip port peer_init_url registration_time r =
      let (r', instance_node) = get_or_create_instance instance_id r in
      let worker_node = new_worker worker_id ip port peer_init_url registration_time in
      (write_instance instance_id (add_worker worker_node instance_node) r', worker_node)

  unfoldable pub deregister_worker :
      N → ℕ → RegistryTree N K → RegistryTree N K × Option (WorkerNode N K)
  deregister_worker instance_id worker_id r = elim (get_instance instance_id r) [
    | none ↦ (r, none)
    | some instance_node ↦
        let (node, worker_node) = remove_worker worker_id instance_node in
        (
          if not (has_workers node)
              then record r { instances = erase dec_n instance_id r.instances }
              else write_instance instance_id node r,
          worker_node,
        )
  ]

  unfoldable pub get_worker : N → ℕ → RegistryTree N K → Option (WorkerNode N K)
  get_worker instance_id worker_id r = elim (get_instance instance_id r) [
    | none ↦ none
    | some instance_node ↦ Instance.get_worker worker_id instance_node
  ]

  -- A write to the fields of a worker node that the registry has.
  unfoldable pub write_worker : N → ℕ → WorkerNode N K → RegistryTree N K → RegistryTree N K
  write_worker instance_id worker_id w r = elim (get_instance instance_id r) [
    | none ↦ r
    | some node ↦
        write_instance instance_id
          (record node { workers = insert ℕ_discrete worker_id w node.workers }) r
  ]

  unfoldable pub first_with_ip : N → List (InstanceNode N K) → Option (InstanceNode N K)
  first_with_ip ip [] = none
  first_with_ip ip (node ∷ nodes) =
      if has_worker_with_ip dec_n ip node then some node else first_with_ip ip nodes

  unfoldable pub get_instance_by_ip : N → RegistryTree N K → Option (InstanceNode N K)
  get_instance_by_ip ip r = first_with_ip ip (values r.instances)

  unfoldable pub all_with_ip : N → List (InstanceNode N K) → List (InstanceNode N K)
  all_with_ip ip [] = []
  all_with_ip ip (node ∷ nodes) =
      let rest = all_with_ip ip nodes in
      if has_worker_with_ip dec_n ip node then node ∷ rest else rest

  unfoldable pub get_instances_by_ip : N → RegistryTree N K → List (InstanceNode N K)
  get_instances_by_ip ip r = all_with_ip ip (values r.instances)

  unfoldable pub get_worker_ids : N → RegistryTree N K → List ℕ
  get_worker_ids instance_id r = elim (get_instance instance_id r) [
    | none ↦ []
    | some instance_node ↦ Instance.get_worker_ids instance_node
  ]

  unfoldable pub update_heartbeat : N → ℕ → ℕ → RegistryTree N K → RegistryTree N K × Bool
  update_heartbeat instance_id worker_id timestamp r = elim (get_worker instance_id worker_id r) [
    | none ↦ (r, false)
    | some w ↦
        (write_worker instance_id worker_id (record w { last_heartbeat_time = timestamp }) r, true)
  ]

module _ {N K : Type 0} (dec_n : Discrete N) (dec_k : Discrete K) where
  unfoldable pub handle_batched_kv_operations :
      Bool → BatchedKvOperationMsg N K → RegistryTree N K → RegistryTree N K × Bool
  handle_batched_kv_operations is_full_sync msg r =
      elim (get_worker dec_n msg.instance_id msg.worker_id r) [
        | none ↦ (r, false)
        | some w ↦
            let (w', processed, out_of_order) =
              Worker.handle_batched_kv_operations dec_n dec_k is_full_sync msg w in
            let r' = write_worker dec_n msg.instance_id msg.worker_id w' r in
            (if out_of_order then incr_seq_discontinuity_count r' else r', processed)
      ]

  unfoldable pub get_worker_kv_keys : N → ℕ → N → RegistryTree N K → List K
  get_worker_kv_keys instance_id worker_id location r =
      elim (get_worker dec_n instance_id worker_id r) [
        | none ↦ []
        | some w ↦ get_kv_keys dec_n dec_k location w
      ]

  unfoldable pub clear_location : Option N → WorkerNode N K → WorkerNode N K
  clear_location none w = record w { kv_store = []; seq_tracker = [] }
  clear_location (some location) w = record w {
    kv_store = erase dec_n location w.kv_store;
    seq_tracker = erase dec_n location w.seq_tracker;
  }

  unfoldable pub clear_worker_kv : N → ℕ → Option N → RegistryTree N K → RegistryTree N K × Bool
  clear_worker_kv instance_id worker_id location r =
      elim (get_worker dec_n instance_id worker_id r) [
        | none ↦ (r, false)
        | some w ↦ (write_worker dec_n instance_id worker_id (clear_location location w) r, true)
      ]

  unfoldable pub clear_all_worker_kv : N → ℕ → RegistryTree N K → RegistryTree N K × Bool
  clear_all_worker_kv instance_id worker_id r = elim (get_worker dec_n instance_id worker_id r) [
    | none ↦ (r, false)
    | some w ↦ (write_worker dec_n instance_id worker_id (clear_kv_store dec_n dec_k w) r, true)
  ]
