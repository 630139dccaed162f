-- ===== src/Controller/Instance.antt =====
-- `InstanceNode` of cache_controller/utils.py: the workers of one instance. A worker node is reached
-- through its instance only, so that a write through a reference to it is a write to the dictionary.
use serverless_lmcache.Common.{
  ℕ, ◌+◌, Bool, true, false, not, ltb, if◌then◌else◌, ite, Option, none, some, List, [], ◌∷◌, map,
  ℕ_discrete,
}
use serverless_lmcache.Common.Dict.{Dict, get, insert, erase, keys, values}
use serverless_lmcache.Controller.Worker.{
  KvChunkInfo, WorkerNode, WorkerInfo, find_key, find_key_simple, to_worker_info, is_empty,
  get_kv_count,
}

pub record InstanceNode (N K : Type 0) : Type 0 where
  pub instance_id : N
  pub workers : Dict ℕ (WorkerNode N K)

-- `sorted(…)`
unfoldable pub insert_sorted : ℕ → List ℕ → List ℕ
insert_sorted n [] = n ∷ []
insert_sorted n (m ∷ ms) = if ltb m n then m ∷ insert_sorted n ms else n ∷ m ∷ ms

unfoldable pub sorted : List ℕ → List ℕ
sorted [] = []
sorted (n ∷ ns) = insert_sorted n (sorted ns)

module _ {N K : Type 0} where
  unfoldable pub add_worker : WorkerNode N K → InstanceNode N K → InstanceNode N K
  add_worker w node = record node { workers = insert ℕ_discrete w.worker_id w node.workers }

  unfoldable pub remove_worker : ℕ → InstanceNode N K → InstanceNode N K × Option (WorkerNode N K)
  remove_worker worker_id node = (
    record node { workers = erase ℕ_discrete worker_id node.workers },
    get ℕ_discrete worker_id node.workers,
  )

  unfoldable pub get_worker : ℕ → InstanceNode N K → Option (WorkerNode N K)
  get_worker worker_id node = get ℕ_discrete worker_id node.workers

  unfoldable pub get_worker_ids : InstanceNode N K → List ℕ
  get_worker_ids node = sorted (keys node.workers)

  unfoldable pub has_workers : InstanceNode N K → Bool
  has_workers node = not (is_empty node.workers)

  unfoldable pub get_all_worker_infos : InstanceNode N K → List (WorkerInfo N)
  get_all_worker_infos node = map (to_worker_info node.instance_id) (values node.workers)

  unfoldable pub sum_kv_counts : List (WorkerNode N K) → ℕ
  sum_kv_counts [] = 0
  sum_kv_counts (w ∷ ws) = get_kv_count w + sum_kv_counts ws

  unfoldable pub get_total_kv_count : InstanceNode N K → ℕ
  get_total_kv_count node = sum_kv_counts (values node.workers)

module _ {N K : Type 0} (dec_n : Discrete N) where
  unfoldable pub any_with_ip : N → List (WorkerNode N K) → Bool
  any_with_ip ip [] = false
  any_with_ip ip (w ∷ ws) = ite (dec_n w.ip ip) true (any_with_ip ip ws)

  unfoldable pub has_worker_with_ip : N → InstanceNode N K → Bool
  has_worker_with_ip ip node = any_with_ip ip (values node.workers)

module _ {N K : Type 0} (dec_n : Discrete N) (dec_k : Discrete K) (no_name : N) where
  -- The loop of `find_key` over the workers.
  unfoldable pub find_in_workers :
      N → K → Dict ℕ (WorkerNode N K) → Option (KvChunkInfo N × Option N × List K)
  find_in_workers instance_id key [] = none
  find_in_workers instance_id key ((worker_id, w) ∷ ws) =
      elim (find_key dec_n dec_k no_name key w) [
        | none ↦ find_in_workers instance_id key ws
        | some (kv_info, peer_init_url, kv_keys) ↦ some (
          record { instance_id = instance_id; worker_id = worker_id; location = kv_info.location },
          peer_init_url,
          kv_keys,
        )
      ]

  unfoldable pub find_key_of_instance :
      K → InstanceNode N K → Option (KvChunkInfo N × Option N × List K)
  find_key_of_instance key node = find_in_workers node.instance_id key node.workers

  unfoldable pub find_simple_in_workers : N → K → Dict ℕ (WorkerNode N K) → Option (KvChunkInfo N)
  find_simple_in_workers instance_id key [] = none
  find_simple_in_workers instance_id key ((worker_id, w) ∷ ws) =
      elim (find_key_simple dec_n dec_k no_name key w) [
        | none ↦ find_simple_in_workers instance_id key ws
        | some kv_info ↦ some (record {
          instance_id = instance_id;
          worker_id = worker_id;
          location = kv_info.location;
        })
      ]

  unfoldable pub find_key_simple_of_instance : K → InstanceNode N K → Option (KvChunkInfo N)
  find_key_simple_of_instance key node = find_simple_in_workers node.instance_id key node.workers
