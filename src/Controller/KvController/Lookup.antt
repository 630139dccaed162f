-- ===== src/Controller/KvController/Lookup.antt =====
-- `batched_p2p_lookup`: another instance that has the longest prefix of the chunks.
use serverless_lmcache.Common.{
  ℕ, suc, ◌+◌, ◌≡◌, refl, inl, inr, Option-cases, false, if◌then◌else◌, some, List, [], ◌∷◌, arith,
}
use serverless_lmcache.Controller.Worker.{WorkerNode, has_kv, get_kv_keys}
use serverless_lmcache.Controller.Worker.Replay.{has_kv-at}
use serverless_lmcache.Controller.Registry.{RegistryTree, get_worker}
use serverless_lmcache.Controller.Registry.Find.{is_excluded, find_kv_with_worker_info}
use serverless_lmcache.Controller.Registry.Shaped.{WellFormed}
use serverless_lmcache.Controller.Registry.FindKv.{find_kv_with_worker_info_sound}
use serverless_lmcache.Controller.KvController.{count_hits, batched_p2p_lookup}

module _ {N K : Type 0} (dec_n : Discrete N) (dec_k : Discrete K) where
  -- How many chunks, from the first on, a worker has at a location.
  abbrev pub stored_prefix : N → WorkerNode N K → List K → ℕ
  stored_prefix l w [] = 0
  stored_prefix l w (k ∷ ks) = if has_kv dec_n dec_k l k w then stored_prefix l w ks + 1 else 0

  count_hits-get_kv_keys :
      (l : N) (w : WorkerNode N K) (ks : List K)
      → count_hits dec_n dec_k (get_kv_keys dec_n dec_k l w) ks ≡ stored_prefix l w ks
  unfolding count_hits get_kv_keys
  count_hits-get_kv_keys l w [] = refl
  count_hits-get_kv_keys l w (k ∷ ks) =
      ground (arith, count_hits-get_kv_keys l w ks, has_kv-at dec_n dec_k l k w)

  -- In a well-formed registry, a lookup for a peer that reports some hits names an instance that
  -- is not the requester's, and a location and an address of one of its workers, for which the
  -- number of hits is the length of the longest prefix of the chunks that this worker has at that
  -- location.
  pub batched_p2p_lookup_sound :
      (no_name instance_id : N) (hashes : List K) (r : RegistryTree N K) (i l url : N) (n : ℕ)
      → WellFormed dec_n r
      → batched_p2p_lookup dec_n dec_k no_name instance_id hashes r ≡ (i, l, suc n, url)
      → (is_excluded dec_n dec_k (some instance_id) i ≡ false)
        × (u : ℕ) × (w : WorkerNode N K) × (get_worker dec_n i u r ≡ some w)
        × (w.peer_init_url ≡ some url)
        × (stored_prefix l w hashes ≡ suc n)
  unfolding batched_p2p_lookup
  batched_p2p_lookup_sound no_name me [] r i l url n formed found = absurd (ground arith)
  batched_p2p_lookup_sound no_name me (h ∷ hs) r i l url n formed found =
      elim (Option-cases (find_kv_with_worker_info dec_n dec_k no_name h (some me) r)) [
        | inl none_ ↦ absurd (ground arith)
        | inr ((info, peer_init_url, keys), there) ↦ elim (Option-cases peer_init_url) [
          | inl no_url ↦ absurd (ground arith)
          | inr (u', url_there) ↦
              let (included, w, registered, holds, same_url, same_keys) =
                find_kv_with_worker_info_sound dec_n dec_k no_name h (some me) r info peer_init_url
                  keys formed there in
              let same_i : info.instance_id ≡ i = ground arith in
              (
                rw (← same_i) included,
                info.worker_id,
                w,
                rw (← same_i) registered,
                ground arith,
                ground (arith, count_hits-get_kv_keys info.location w (h ∷ hs)),
              )
        ]
      ]
