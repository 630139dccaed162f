-- ===== src/Controller/Registry/Find.antt =====
-- `find_kv` and `find_kv_with_worker_info` of `RegistryTree`: where a chunk is.
use serverless_lmcache.Common.{
  Bool, true, false, if◌then◌else◌, ite, Option, none, some, List, [], ◌∷◌,
}
use serverless_lmcache.Common.Dict.{Dict}
use serverless_lmcache.Controller.Worker.{KvChunkInfo}
use serverless_lmcache.Controller.Instance.{
  InstanceNode, find_key_of_instance, find_key_simple_of_instance,
}
use serverless_lmcache.Controller.Registry.{RegistryTree}

module _ {N K : Type 0} (dec_n : Discrete N) (dec_k : Discrete K) where
  -- `exclude_instance_id is not None and instance_id == exclude_instance_id`
  unfoldable pub is_excluded : Option N → N → Bool
  is_excluded none instance_id = false
  is_excluded (some i) instance_id = ite (dec_n instance_id i) true false

  module _ (no_name : N) (key : K) (exclude_instance_id : Option N) where
    unfoldable pub find_in_instances : Dict N (InstanceNode N K) → Option (KvChunkInfo N)
    find_in_instances [] = none
    find_in_instances ((instance_id, node) ∷ d) =
        let rest = find_in_instances d in
        if is_excluded exclude_instance_id instance_id
        then rest
        else elim (find_key_simple_of_instance dec_n dec_k no_name key node) [
          | none ↦ rest
          | some kv_info ↦ some kv_info
        ]

    unfoldable pub find_kv : RegistryTree N K → Option (KvChunkInfo N)
    find_kv r = find_in_instances r.instances

    unfoldable pub find_info_in_instances :
        Dict N (InstanceNode N K) → Option (KvChunkInfo N × Option N × List K)
    find_info_in_instances [] = none
    find_info_in_instances ((instance_id, node) ∷ d) =
        let rest = find_info_in_instances d in
        if is_excluded exclude_instance_id instance_id
        then rest
        else elim (find_key_of_instance dec_n dec_k no_name key node) [
          | none ↦ rest
          | some found ↦ some found
        ]

    unfoldable pub find_kv_with_worker_info :
        RegistryTree N K → Option (KvChunkInfo N × Option N × List K)
    find_kv_with_worker_info r = find_info_in_instances r.instances
