-- ===== src/Controller/FullSync/Nodes.antt =====
-- What the tracker's calls do to the nodes of the workers.
use serverless_lmcache.Common.{
  ℕ, ◌≡◌, inl, inr, Option-cases, Bool, true, false, ◌&&◌, if◌then◌else◌, ite, Option, none, some,
  arith, ℕ_discrete,
}
use serverless_lmcache.Controller.Worker.{is_syncing, WorkerSyncInfo}
use serverless_lmcache.Controller.Registry.{RegistryTree, get_worker}
use serverless_lmcache.Controller.Registry.Workers.{updated, updated_lem}
use serverless_lmcache.Controller.FullSync.{
  has_sync_id, received, get_sync_info, set_sync_info, receive_batch,
}

module _ {N : Type 0} (dec_n : Discrete N) where
  -- Whether two pairs of an instance and a worker are the same.
  abbrev pub same_worker : N → ℕ → N → ℕ → Bool
  same_worker i u j v = ite (dec_n i j) (ite (ℕ_discrete u v) true false) false

  abbrev pub received_info : ℕ → N → ℕ → ℕ → Option (WorkerSyncInfo N) → Option (WorkerSyncInfo N)
  received_info now sync_id batch_id keys_count none = none
  received_info now sync_id batch_id keys_count (some info) =
      if has_sync_id dec_n sync_id (some info) && is_syncing info.state
      then some (received now batch_id keys_count info)
      else some info

module _ {N K : Type 0} (dec_n : Discrete N) (dec_k : Discrete K) where
  pub get_worker-set_sync_info :
      (i : N) (u : ℕ) (info : Option (WorkerSyncInfo N)) (r : RegistryTree N K) (j : N) (v : ℕ)
      → get_worker dec_n j v (set_sync_info dec_n i u info r).0 ≡ (
          if same_worker dec_n i u j v
          then updated dec_n dec_k (get_worker dec_n j v r) (λ w. record w { sync_info = info })
          else get_worker dec_n j v r)
  unfolding set_sync_info
  get_worker-set_sync_info i u info r j v =
      let e =
        updated_lem dec_n dec_k i u (λ w. record w { sync_info = info }) r j v
          {r' = (set_sync_info dec_n i u info r).0} (λ absent. ground arith)
          (λ w there. ground arith) in
      ground arith

  pub get_worker-receive_batch :
      (now : ℕ) (i : N) (u : ℕ) (sync_id : N) (batch_id keys_count : ℕ) (r : RegistryTree N K)
      (j : N) (v : ℕ)
      → get_worker dec_n j v (receive_batch dec_n now i u sync_id batch_id keys_count r).0 ≡ (
          if same_worker dec_n i u j v
          then updated dec_n dec_k (get_worker dec_n j v r) (λ w. record w {
            sync_info = received_info dec_n now sync_id batch_id keys_count w.sync_info;
          })
          else get_worker dec_n j v r)
  unfolding receive_batch get_sync_info
  get_worker-receive_batch now i u sync_id batch_id keys_count r j v =
      elim (Option-cases (get_worker dec_n i u r)) [
        | inl none_ ↦ ground arith
        | inr (w, there) ↦ elim (Option-cases w.sync_info) [
          | inl none_ ↦ ground arith
          | inr (info, here) ↦ ground (
            arith,
            get_worker-set_sync_info i u (some (received now batch_id keys_count info)) r j v,
          )
        ]
      ]
