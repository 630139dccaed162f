-- ===== src/Controller/Registry/FindKv.antt =====
-- `find_kv` and `find_kv_with_worker_info` against the nodes of the registry.
use serverless_lmcache.Common.{
  ℕ, ◌≡◌, subst, inl, inr, Option-cases, true, false, Option, none, some, List, arith, ℕ_discrete,
}
use serverless_lmcache.Common.Dict.{get}
use serverless_lmcache.Controller.Worker.{KvChunkInfo, WorkerNode, has_kv, get_kv_keys, at}
use serverless_lmcache.Controller.Instance.{find_key_of_instance}
use serverless_lmcache.Controller.Instance
use serverless_lmcache.Controller.Registry.{RegistryTree, get_worker, get_instance}
use serverless_lmcache.Controller.Registry.Find.{is_excluded, find_kv, find_kv_with_worker_info}
use serverless_lmcache.Controller.Registry.Shaped.{InstanceWellFormed, WorkerWellFormed, WellFormed}
use serverless_lmcache.Controller.Registry.Located.{
  info_of, find_location_sound, find_location_complete, find_in_workers_sound,
  find_in_workers_complete, find_info_in_instances_sound, find_info_in_instances_complete,
  find_in_instances_lem,
}

module _ {N K : Type 0} (dec_n : Discrete N) (dec_k : Discrete K) (no_name : N) (key : K)
    (exclude_instance_id : Option N) (r : RegistryTree N K) where
  pub find_kv-eq-info_of :
      find_kv dec_n dec_k no_name key exclude_instance_id r
      ≡ info_of (find_kv_with_worker_info dec_n dec_k no_name key exclude_instance_id r)
  unfolding find_kv find_kv_with_worker_info
  find_kv-eq-info_of = find_in_instances_lem dec_n dec_k key no_name exclude_instance_id r.instances

  -- In a well-formed registry, what `find_kv_with_worker_info` reports is of an instance that is
  -- not excluded and a registered worker that has the key at the reported location, with that
  -- worker's address and all its keys at that location.
  pub find_kv_with_worker_info_sound :
      (info : KvChunkInfo N) (peer_init_url : Option N) (keys : List K)
      → WellFormed dec_n r
      → find_kv_with_worker_info dec_n dec_k no_name key exclude_instance_id r
        ≡ some (info, peer_init_url, keys)
      → (is_excluded dec_n dec_k exclude_instance_id info.instance_id ≡ false)
        × (w : WorkerNode N K) × (get_worker dec_n info.instance_id info.worker_id r ≡ some w)
        × (has_kv dec_n dec_k info.location key w ≡ true)
        × (peer_init_url ≡ w.peer_init_url)
        × (keys ≡ get_kv_keys dec_n dec_k info.location w)
  unfolding find_kv_with_worker_info find_key_of_instance
  find_kv_with_worker_info_sound info url keys (shaped, h) found =
      let (i, included, node, there, here) =
        find_info_in_instances_sound dec_n dec_k key no_name exclude_instance_id r.instances info
          url keys shaped.0 found in
      let formed = subst (InstanceWellFormed dec_n i) there (shaped.1 i) in
      let (id, w, w_there, (same_url, located)) =
        find_in_workers_sound dec_n dec_k key no_name node.instance_id node.workers info url keys
          formed.2 here in
      let same : info.instance_id ≡ i = ground arith in
      let registered : get_worker dec_n info.instance_id info.worker_id r ≡ some w =
        unfold get_worker in unfold get_instance in unfold Instance.get_worker in ground arith in
      let w_formed =
        subst (WorkerWellFormed dec_n info.worker_id) registered
          (h info.instance_id info.worker_id) in
      let (stored, holds) =
        find_location_sound dec_n dec_k key w.kv_store info.location keys w_formed.1.0 located in
      (
        rw same included,
        w,
        registered,
        unfold has_kv in ground arith,
        same_url,
        unfold get_kv_keys in unfold at in ground arith,
      )

  -- If `find_kv` reports nothing, no registered worker of an instance that is not excluded has the
  -- key at any location.
  pub find_kv_complete :
      (i : N) (u : ℕ) (w : WorkerNode N K) (location : N)
      → find_kv dec_n dec_k no_name key exclude_instance_id r ≡ none
      → is_excluded dec_n dec_k exclude_instance_id i ≡ false
      → get_worker dec_n i u r ≡ some w
      → has_kv dec_n dec_k location key w ≡ false
  find_kv_complete i u w location missing included registered =
      elim (Option-cases (get_instance dec_n i r)) [
        | inl none_ ↦ absurd (unfold get_worker in ground arith)
        | inr (node, there) ↦
            let not_found : find_kv_with_worker_info dec_n dec_k no_name key exclude_instance_id r
                ≡ none =
              ground (arith, find_kv-eq-info_of) in
            let no_worker =
              find_info_in_instances_complete dec_n dec_k key no_name exclude_instance_id
                r.instances i node (unfold find_kv_with_worker_info in not_found)
                (unfold get_instance in there) included in
            let w_there : get ℕ_discrete u node.workers ≡ some w =
              unfold get_worker in unfold Instance.get_worker in ground arith in
            let no_location =
              find_in_workers_complete dec_n dec_k key no_name node.instance_id node.workers u w
                (unfold find_key_of_instance in no_worker) w_there in
            elim (Option-cases (get dec_n location w.kv_store)) [
              | inl absent ↦ unfold has_kv in ground arith
              | inr (s, stored) ↦
                  let missed =
                    find_location_complete dec_n dec_k key w.kv_store location s no_location
                      stored in
                  unfold has_kv in ground arith
            ]
      ]
