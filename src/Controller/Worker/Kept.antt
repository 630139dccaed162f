-- ===== src/Controller/Worker/Kept.antt =====
-- The shape of a worker's store that the calls keep: no location stands twice, and none has an empty
-- set of chunks.
use serverless_lmcache.Common.{
  ℕ, ◌≡◌, ◌≢◌, refl, inl, inr, Bool-cases, Option-cases, Bool, true, false, not, ◌&&◌, Option, none,
  some, List, [], arith, for_each_inv,
}
use serverless_lmcache.Common.Dict.{
  Dict, get, insert, erase, IsUnique, insert-IsUnique, erase-IsUnique, get-erase, get-insert,
}
use serverless_lmcache.Controller.Worker.{
  KvOpEvent, BatchedKvOperationMsg, WorkerNode, at, is_empty, handle_operation, handle_all,
  ensure_location, drop_empty, handle_batched_kv_operations, is_in_sync,
}

module _ {N K : Type 0} (dec_n : Discrete N) where
  -- Every stored set but that of `location` is inhabited.
  abbrev pub InhabitedBut : N → Dict N (List K) → Type 0
  InhabitedBut location d =
      (l : N) (s : List K) → l ≢ location → get dec_n l d ≡ some s → is_empty s ≡ false

  abbrev pub StoreWellFormed : Dict N (List K) → Type 0
  StoreWellFormed d =
      IsUnique dec_n d × ((l : N) (s : List K) → get dec_n l d ≡ some s → is_empty s ≡ false)

module _ {N K : Type 0} (dec_n : Discrete N) (dec_k : Discrete K) (location : N) where
  abbrev InLoop : WorkerNode N K × Option (ℕ × ℕ) → Type 0
  InLoop s = IsUnique dec_n s.0.kv_store × InhabitedBut dec_n location s.0.kv_store

  insert-InhabitedBut :
      (d : Dict N (List K)) (s : List K)
      → InhabitedBut dec_n location d
      → InhabitedBut dec_n location (insert dec_n location s d)
  insert-InhabitedBut d s h l t ne there =
      h l t ne (ground (arith, get-insert dec_n location l s d))

  handle_operation-InLoop :
      (is_full_sync : Bool) (op : KvOpEvent K) (s : WorkerNode N K × Option (ℕ × ℕ))
      → InLoop s
      → InLoop (handle_operation dec_n dec_k is_full_sync location op s)
  unfolding handle_operation
  handle_operation-InLoop true op (w, warning) (u, h) =
      (insert-IsUnique dec_n location _ w.kv_store u, insert-InhabitedBut w.kv_store _ h)
  handle_operation-InLoop false op (w, warning) (u, h) =
      (insert-IsUnique dec_n location _ w.kv_store u, insert-InhabitedBut w.kv_store _ h)

  ensure_location-InhabitedBut :
      (d : Dict N (List K))
      → StoreWellFormed dec_n d
      → IsUnique dec_n (ensure_location dec_n dec_k location d)
        × InhabitedBut dec_n location (ensure_location dec_n dec_k location d)
  unfolding ensure_location
  ensure_location-InhabitedBut d (u, h) = elim (Option-cases (get dec_n location d)) [
    | inl none_ ↦
        let e : ensure_location dec_n dec_k location d ≡ insert dec_n location [] d =
          ground arith in
        rw e (
          insert-IsUnique dec_n location [] d u,
          insert-InhabitedBut d [] (λ l t ne there. h l t there),
        )
    | inr (s, there) ↦
        let e : ensure_location dec_n dec_k location d ≡ d = ground arith in
        rw e (u, λ l t ne there. h l t there)
  ]

  drop_empty-StoreWellFormed :
      (d : Dict N (List K))
      → IsUnique dec_n d
      → InhabitedBut dec_n location d
      → StoreWellFormed dec_n (drop_empty dec_n dec_k location d)
  unfolding drop_empty at
  drop_empty-StoreWellFormed d u h = elim (Bool-cases (is_empty (at dec_n location d))) [
    | inl empty ↦
        let e : drop_empty dec_n dec_k location d ≡ erase dec_n location d = ground arith in
        rw e (
          erase-IsUnique dec_n location d u,
          λ l s there.
              h l s (λ same. ground (arith, get-erase dec_n location l d))
                (ground (arith, get-erase dec_n location l d)),
        )
    | inr full ↦
        let e : drop_empty dec_n dec_k location d ≡ d = ground arith in
        rw e (
          u,
          λ l s there. elim (dec_n l location) [ yes same ↦ ground arith | no ne ↦ h l s ne there ],
        )
  ]

  handle_all-InLoop :
      (is_full_sync : Bool) (ops : List (KvOpEvent K)) (w : WorkerNode N K)
      → StoreWellFormed dec_n w.kv_store
      → InLoop (handle_all dec_n dec_k is_full_sync location ops w)
  unfolding handle_all
  handle_all-InLoop is_full_sync ops w h =
      for_each_inv InLoop (handle_operation dec_n dec_k is_full_sync location)
        (handle_operation-InLoop is_full_sync) ops
        (record w { kv_store = ensure_location dec_n dec_k location w.kv_store }, none)
        (ensure_location-InhabitedBut w.kv_store h)

module _ {N K : Type 0} (dec_n : Discrete N) (dec_k : Discrete K) where
  pub handle_batched_kv_operations-StoreWellFormed :
      (is_full_sync : Bool) (msg : BatchedKvOperationMsg N K) (w : WorkerNode N K)
      → StoreWellFormed dec_n w.kv_store
      → StoreWellFormed dec_n
          (handle_batched_kv_operations dec_n dec_k is_full_sync msg w).0.kv_store
  unfolding handle_batched_kv_operations
  handle_batched_kv_operations-StoreWellFormed is_full_sync msg w h =
      let after = handle_all dec_n dec_k is_full_sync msg.location msg.operations w in
      let looped = handle_all-InLoop dec_n dec_k msg.location is_full_sync msg.operations w h in
      let dropped =
        drop_empty-StoreWellFormed dec_n dec_k msg.location after.0.kv_store looped.0 looped.1 in
      elim (Bool-cases (is_in_sync w.sync_info && not is_full_sync)) [
        | inl rejected ↦
            let e : (handle_batched_kv_operations dec_n dec_k is_full_sync msg w).0 ≡ w =
              ground arith in
            rw e h
        | inr accepted ↦
            let e : (handle_batched_kv_operations dec_n dec_k is_full_sync msg w).0.kv_store
                ≡ drop_empty dec_n dec_k msg.location after.0.kv_store =
              ground arith in
            rw e dropped
      ]

  -- The fields that are not about chunks.
  pub handle_batched_kv_operations_keeps :
      (is_full_sync : Bool) (msg : BatchedKvOperationMsg N K) (w : WorkerNode N K)
      → ((handle_batched_kv_operations dec_n dec_k is_full_sync msg w).0.worker_id ≡ w.worker_id)
        × ((handle_batched_kv_operations dec_n dec_k is_full_sync msg w).0.sync_info ≡ w.sync_info)
  unfolding handle_batched_kv_operations handle_all
  handle_batched_kv_operations_keeps is_full_sync msg w =
      let start : WorkerNode N K = record w {
        kv_store = ensure_location dec_n dec_k msg.location w.kv_store;
      } in
      let kept =
        for_each_inv
          (λ (s : WorkerNode N K × Option (ℕ × ℕ)).
            (s.0.worker_id ≡ w.worker_id) × (s.0.sync_info ≡ w.sync_info))
          (handle_operation dec_n dec_k is_full_sync msg.location)
          (λ op s e. unfold handle_operation in ground arith) msg.operations (start, none)
          (refl, refl) in
      ground arith
