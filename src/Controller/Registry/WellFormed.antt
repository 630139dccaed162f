-- ===== src/Controller/Registry/WellFormed.antt =====
-- The shape of the registry that the calls keep: ids stand under themselves, no instance is empty, and no
-- location has an empty set of chunks.
use serverless_lmcache.Common.{
  ℕ, refl, sym, subst, if_pos, if_neg, ◌∙◌, Option, none, some, List, arith, ℕ_discrete, for_each,
  for_each_inv,
}
use serverless_lmcache.Common.Dict.{get, erase-IsUnique, get-erase}
use serverless_lmcache.Controller.Worker.{WorkerNode}
use serverless_lmcache.Controller.Worker.Kept.{
  handle_batched_kv_operations-StoreWellFormed, handle_batched_kv_operations_keeps,
}
use serverless_lmcache.Controller.Registry.{
  RegistryTree, new_registry, new_worker, get_instance, get_worker, clear_location,
}
use serverless_lmcache.Controller.Registry.Workers.{
  Operation, register, deregister, heartbeat, kv_operations, clear_kv, step, override, act, subject,
  get_worker-step,
}
use serverless_lmcache.Controller.Registry.Shaped.{WorkerWellFormed, WellFormed, step-Shaped}

module _ {N K : Type 0} (dec_n : Discrete N) (dec_k : Discrete K) where
  act-WorkerWellFormed :
      (op : Operation N K) (o : Option (WorkerNode N K))
      → WorkerWellFormed dec_n (subject op).1 o
      → WorkerWellFormed dec_n (subject op).1 (act dec_n dec_k op o)
  unfolding act
  act-WorkerWellFormed (register i u ip port url t) o h =
      unfold new_worker in unfold get in (refl, (tt, λ l s there. cc))
  act-WorkerWellFormed (deregister i u) o h = tt
  act-WorkerWellFormed (heartbeat i u t) none h = tt
  act-WorkerWellFormed (heartbeat i u t) (some w) h = h
  act-WorkerWellFormed (kv_operations is_full_sync msg) none h = tt
  act-WorkerWellFormed (kv_operations is_full_sync msg) (some w) h = (
    (handle_batched_kv_operations_keeps dec_n dec_k is_full_sync msg w).0 ∙ h.0,
    handle_batched_kv_operations-StoreWellFormed dec_n dec_k is_full_sync msg w h.1,
  )
  act-WorkerWellFormed (clear_kv i u none) none h = tt
  act-WorkerWellFormed (clear_kv i u none) (some w) h =
      unfold clear_location in unfold get in (h.0, (tt, λ l s there. cc))
  act-WorkerWellFormed (clear_kv i u (some location)) none h = tt
  act-WorkerWellFormed (clear_kv i u (some location)) (some w) h =
      unfold clear_location in
      (
        h.0,
        (
          erase-IsUnique dec_n location w.kv_store h.1.0,
          λ l s there. h.1.1 l s (ground (arith, get-erase dec_n location l w.kv_store)),
        ),
      )

  override_lem :
      (op : Operation N K) (r : RegistryTree N K)
      → ((i : N) (u : ℕ) → WorkerWellFormed dec_n u (get_worker dec_n i u r))
      → (j : N) (v : ℕ)
      → WorkerWellFormed dec_n v (
          override dec_n dec_k
            (subject op).0
            (subject op).1
            (act dec_n dec_k op (get_worker dec_n j v r))
            j
            v
            (get_worker dec_n j v r))
  override_lem op r h j v = elim (dec_n (subject op).0 j) [
    | no ne ↦ rw (if_neg (dec_n (subject op).0 j) ne) (h j v)
    | yes i_is_j ↦ rw (if_pos (dec_n (subject op).0 j) i_is_j) (elim (ℕ_discrete (subject op).1 v) [
      | no ne ↦ rw (if_neg (ℕ_discrete (subject op).1 v) ne) (h j v)
      | yes u_is_v ↦ rw (if_pos (ℕ_discrete (subject op).1 v) u_is_v) (
          subst (λ u. WorkerWellFormed dec_n u (act dec_n dec_k op (get_worker dec_n j v r))) u_is_v
            (act-WorkerWellFormed op (get_worker dec_n j v r) (
              subst (λ u. WorkerWellFormed dec_n u (get_worker dec_n j v r)) (sym u_is_v) (h j v))))
    ])
  ]

  pub step-WellFormed :
      (op : Operation N K) (r : RegistryTree N K)
      → WellFormed dec_n r
      → WellFormed dec_n (step dec_n dec_k op r)
  step-WellFormed op r (shaped, h) = (
    step-Shaped dec_n dec_k op r shaped,
    λ j v. rw (get_worker-step dec_n dec_k op r j v) (override_lem op r h j v),
  )

  -- The registry after a sequence of calls.
  abbrev pub run_calls : List (Operation N K) → RegistryTree N K → RegistryTree N K
  run_calls = for_each (step dec_n dec_k)

  -- After any sequence of calls on a new registry, every instance and every worker stands once and
  -- under its own id, no instance is without workers, and every location of a worker stands once
  -- and has a set of keys that is not empty.
  pub run_calls-WellFormed :
      (ops : List (Operation N K)) → WellFormed dec_n (run_calls ops new_registry)
  run_calls-WellFormed ops =
      for_each_inv (WellFormed dec_n) (step dec_n dec_k) (λ op r h. step-WellFormed op r h) ops
        new_registry
        (unfold get_worker in unfold get_instance in unfold get in ((tt, λ i. tt), λ i u. tt))
