-- ===== src/StorageBackend/LocalCpu/Removal.antt =====
-- What a removal changes: one key of the cache, one object, one message.
use serverless_lmcache.Common.{
  ℕ, ◌≡◌, ◌≢◌, refl, sym, ap, ◌∙◌, inl, inr, Option-cases, Bool, true, false, if◌then◌else◌, none,
  some, List, [], ◌∷◌, ◌++◌, arith,
}
use serverless_lmcache.Common.Dict.{get, erase, erase_absent}
use serverless_lmcache.Memory.MemoryObj.{TensorMemoryObj}
use serverless_lmcache.Memory.MemoryObj
use serverless_lmcache.Controller.Worker.{OpType}
use serverless_lmcache.StorageBackend.Policy.{BaseCachePolicy, ObjectAllocator}
use serverless_lmcache.StorageBackend.LocalCpu.{
  Config, LocalCpuBackend, Backend, set_object, object_up, object_down, object_pin, object_unpin,
  pin_in_request, touch_key, touch_cache, submit_put_task, get_blocking, get_from,
  batched_get_non_blocking, count_prefix, batched_async_contains, remove, batched_remove, freeing,
  add_kv_op, forget, drop_key,
}
use serverless_lmcache.StorageBackend.LocalCpu

module _ {K : Type 0} (dec : Discrete K) (cfg : Config) (p : BaseCachePolicy K ℕ)
    (a : ObjectAllocator) where
  -- The frame of a call on the object of one reference.
  abbrev pub Frame : ℕ → Backend dec cfg p a → Backend dec cfg p a → Type 0
  Frame r s s' =
      (s'.hot_cache ≡ s.hot_cache)
      × (s'.next_ref ≡ s.next_ref)
      × (s'.kv_ops ≡ s.kv_ops)
      × ((j : ℕ) → r ≢ j → s'.objects j ≡ s.objects j)

  pub freeing-Frame :
      (r : ℕ) (o : TensorMemoryObj) (b : Bool) (s : Backend dec cfg p a)
      → Frame r s (freeing dec cfg p a r (o, b) s)
  unfolding freeing set_object
  freeing-Frame r o false s = (refl, refl, refl, λ j ne. ground (arith, ne))
  freeing-Frame r o true s = (refl, refl, refl, λ j ne. ground (arith, ne))

  -- The messages of a call.
  abbrev pub with_op : OpType → K → List (OpType × K) → List (OpType × K)
  with_op op k ops = if cfg.has_sender then ops ++ ((op, k) ∷ []) else ops

  add_kv_op-fields :
      (op : OpType) (k : K) (s : Backend dec cfg p a)
      → let s' = add_kv_op dec cfg p a op k s in
        (s'.hot_cache ≡ s.hot_cache)
        × (s'.next_ref ≡ s.next_ref)
        × (s'.kv_ops ≡ with_op op k s.kv_ops)
        × (s'.objects ≡ s.objects)
  unfolding add_kv_op
  add_kv_op-fields op k s = ground arith

  forget-fields :
      (force : Bool) (k : K) (s : Backend dec cfg p a)
      → let s' = forget dec cfg p a force k s in
        (s'.hot_cache ≡ s.hot_cache)
        × (s'.next_ref ≡ s.next_ref)
        × (s'.kv_ops ≡ s.kv_ops)
        × (s'.objects ≡ s.objects)
  unfolding forget
  forget-fields false k s = (refl, refl, refl, refl)
  forget-fields true k s = (refl, refl, refl, refl)

  drop_key-fields :
      (force : Bool) (k : K) (r : ℕ) (s : Backend dec cfg p a)
      → let s' = drop_key dec cfg p a force k r s in
        (s'.hot_cache ≡ erase dec k s.hot_cache)
        × (s'.next_ref ≡ s.next_ref)
        × (s'.kv_ops ≡ with_op LocalCpu.evict k s.kv_ops)
        × ((j : ℕ) → r ≢ j → s'.objects j ≡ s.objects j)
  unfolding drop_key object_down
  drop_key-fields force k r s =
      let s0 : Backend dec cfg p a = record s { hot_cache = erase dec k s.hot_cache } in
      let (o, b) = MemoryObj.ref_count_down (s.objects r) in
      let f = freeing-Frame r o b s0 in
      let s1 = freeing dec cfg p a r (o, b) s0 in
      let g = forget-fields force k s1 in
      let m = add_kv_op-fields LocalCpu.evict k (forget dec cfg p a force k s1) in
      (
        m.0 ∙ g.0 ∙ f.0,
        m.1 ∙ g.1 ∙ f.1,
        m.2 ∙ ap (with_op LocalCpu.evict k) (g.2 ∙ f.2),
        λ j ne. ap (λ f. f j) (m.3 ∙ g.3) ∙ f.3 j ne,
      )

  -- A removal erases its key; it says so if the key was cached.
  pub remove-fields :
      (force : Bool) (k : K) (s : Backend dec cfg p a)
      → let s' = (remove dec cfg p a force k s).1 in
        (s'.hot_cache ≡ erase dec k s.hot_cache)
        × (s'.next_ref ≡ s.next_ref)
        × (s'.kv_ops ≡ elim (get dec k s.hot_cache) [
          | none ↦ s.kv_ops
          | some _ ↦ with_op LocalCpu.evict k s.kv_ops
        ])
        × ((j : ℕ) → get dec k s.hot_cache ≢ some j → s'.objects j ≡ s.objects j)
  unfolding remove
  remove-fields force k s = elim (Option-cases (get dec k s.hot_cache)) [
    | inl missing ↦
        let e : (remove dec cfg p a force k s).1 ≡ s = ground (arith, missing) in
        rw (e, missing) (sym (erase_absent dec k s.hot_cache missing), refl, refl, λ j ne. refl)
    | inr (r, here) ↦
        let e : (remove dec cfg p a force k s).1 ≡ drop_key dec cfg p a force k r s =
          ground (arith, here) in
        let f = drop_key-fields force k r s in
        rw (e, here) (f.0, f.1, f.2, λ j ne. f.3 j (λ same. ne (ap some same)))
  ]
