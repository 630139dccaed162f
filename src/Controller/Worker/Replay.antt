-- ===== src/Controller/Worker/Replay.antt =====
-- What a batch of operations leaves in a worker's store: for each key, its last operation decides.
use serverless_lmcache.Common.{
  ℕ, ◌≡◌, refl, Bool, true, false, not, ◌&&◌, if◌then◌else◌, ite, Option, none, List, [], ◌∷◌, ◌++◌,
  arith, contains, remove, for_each,
}
use serverless_lmcache.Common.Dict.{Dict, insert, erase, get-insert, get-erase}
use serverless_lmcache.Controller.Worker.{
  admit, evict, KvOpEvent, BatchedKvOperationMsg, WorkerNode, set_add, at, apply_op,
  handle_operation, ensure_location, drop_empty, handle_all, handle_batched_kv_operations, has_kv,
  is_in_sync,
}

module _ {K : Type 0} (dec_k : Discrete K) where
  contains-append :
      (k j : K) (s : List K)
      → contains dec_k k (s ++ (j ∷ [])) ≡ ite (dec_k j k) true (contains dec_k k s)
  contains-append k j [] = refl
  contains-append k j (x ∷ s) = ground (arith, contains-append k j s)

  pub contains-set_add :
      (k j : K) (s : List K)
      → contains dec_k k (set_add dec_k j s) ≡ ite (dec_k j k) true (contains dec_k k s)
  unfolding set_add
  contains-set_add k j s = ground (arith, contains-append k j s)

  pub contains-remove :
      (k j : K) (s : List K)
      → contains dec_k k (remove dec_k j s) ≡ ite (dec_k j k) false (contains dec_k k s)
  unfolding remove
  contains-remove k j [] = ground arith
  contains-remove k j (x ∷ s) = ground (arith, contains-remove k j s)

  -- Whether a key is stored after operations, from whether it was before.
  abbrev pub replay : K → List (KvOpEvent K) → Bool → Bool
  replay k [] b = b
  replay k (op ∷ ops) b =
      replay k ops (ite (dec_k op.key k) (elim op.op_type [ admit ↦ true | evict ↦ false ]) b)

module _ {N A : Type 0} (dec_n : Discrete N) where
  pub at-insert :
      (j l : N) (s : List A) (d : Dict N (List A))
      → at dec_n l (insert dec_n j s d) ≡ ite (dec_n j l) s (at dec_n l d)
  unfolding at
  at-insert j l s d = ground (arith, get-insert dec_n j l s d)

  pub at-erase :
      (j l : N) (d : Dict N (List A))
      → at dec_n l (erase dec_n j d) ≡ ite (dec_n j l) [] (at dec_n l d)
  unfolding at
  at-erase j l d = ground (arith, get-erase dec_n j l d)

module _ {N K : Type 0} (dec_n : Discrete N) (dec_k : Discrete K) where
  pub at-ensure_location :
      (j l : N) (d : Dict N (List K)) → at dec_n l (ensure_location dec_n dec_k j d) ≡ at dec_n l d
  unfolding at ensure_location
  at-ensure_location j l d = ground (arith, get-insert dec_n j l [] d)

  pub at-drop_empty :
      (j l : N) (d : Dict N (List K)) → at dec_n l (drop_empty dec_n dec_k j d) ≡ at dec_n l d
  unfolding drop_empty
  at-drop_empty j l d = ground (arith, at-erase dec_n j l d)

  pub has_kv-at :
      (l : N) (k : K) (w : WorkerNode N K)
      → has_kv dec_n dec_k l k w ≡ contains dec_k k (at dec_n l w.kv_store)
  unfolding has_kv at
  has_kv-at l k w = ground arith

  contains-apply_op :
      (op : KvOpEvent K) (k : K) (s : List K)
      → contains dec_k k (apply_op dec_n dec_k op.op_type op.key s)
        ≡ ite
            (dec_k op.key k)
            (elim op.op_type [ admit ↦ true | evict ↦ false ])
            (contains dec_k k s)
  unfolding apply_op
  contains-apply_op op k s =
      ground (arith, contains-set_add dec_k k op.key s, contains-remove dec_k k op.key s)

  contains-handle_operation :
      (is_full_sync : Bool) (j l : N) (k : K) (op : KvOpEvent K)
      (s : WorkerNode N K × Option (ℕ × ℕ))
      → contains dec_k k (at dec_n l (handle_operation dec_n dec_k is_full_sync j op s).0.kv_store)
        ≡ ite
            (dec_n j l)
            (replay dec_k k (op ∷ []) (contains dec_k k (at dec_n l s.0.kv_store)))
            (contains dec_k k (at dec_n l s.0.kv_store))
  unfolding handle_operation
  contains-handle_operation is_full_sync j l k op (w, warning) = ground (
    arith,
    at-insert dec_n j l (apply_op dec_n dec_k op.op_type op.key (at dec_n j w.kv_store)) w.kv_store,
    contains-apply_op op k (at dec_n j w.kv_store),
  )

  contains-handle_operations :
      (is_full_sync : Bool) (j l : N) (k : K) (ops : List (KvOpEvent K))
      (s : WorkerNode N K × Option (ℕ × ℕ))
      → contains dec_k k
          (at dec_n l (for_each (handle_operation dec_n dec_k is_full_sync j) ops s).0.kv_store)
        ≡ ite
            (dec_n j l)
            (replay dec_k k ops (contains dec_k k (at dec_n l s.0.kv_store)))
            (contains dec_k k (at dec_n l s.0.kv_store))
  contains-handle_operations is_full_sync j l k [] s = ground arith
  contains-handle_operations is_full_sync j l k (op ∷ ops) s = ground (
    arith,
    contains-handle_operation is_full_sync j l k op s,
    contains-handle_operations is_full_sync j l k ops
        (handle_operation dec_n dec_k is_full_sync j op s),
  )

  -- A batch of key operations is rejected exactly if the worker syncs and the batch is not part of
  -- the sync, and then changes no key; a processed batch leaves a key at its location as the last
  -- operation on that key says, or as it was if there is none, and keys at other locations as they
  -- were.
  pub handle_batched_kv_operations-replay :
      (is_full_sync : Bool) (msg : BatchedKvOperationMsg N K) (w : WorkerNode N K) (l : N) (k : K)
      → ((handle_batched_kv_operations dec_n dec_k is_full_sync msg w).1
          ≡ not (is_in_sync w.sync_info && not is_full_sync))
        × (has_kv dec_n dec_k l k (handle_batched_kv_operations dec_n dec_k is_full_sync msg w).0
            ≡ (if is_in_sync w.sync_info && not is_full_sync
                then has_kv dec_n dec_k l k w
                else ite
                    (dec_n msg.location l)
                    (replay dec_k k msg.operations (has_kv dec_n dec_k l k w))
                    (has_kv dec_n dec_k l k w)))
  unfolding handle_batched_kv_operations handle_all
  handle_batched_kv_operations-replay is_full_sync msg w l k =
      let d = ensure_location dec_n dec_k msg.location w.kv_store in
      let s : WorkerNode N K × Option (ℕ × ℕ) = (record w { kv_store = d }, none) in
      let s' = for_each (handle_operation dec_n dec_k is_full_sync msg.location) msg.operations s in
      ground (
        arith,
        has_kv-at l k w,
        has_kv-at l k (handle_batched_kv_operations dec_n dec_k is_full_sync msg w).0,
        at-drop_empty msg.location l s'.0.kv_store,
        contains-handle_operations is_full_sync msg.location l k msg.operations s,
        at-ensure_location msg.location l w.kv_store,
      )
