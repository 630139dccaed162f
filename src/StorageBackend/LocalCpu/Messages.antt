-- ===== src/StorageBackend/LocalCpu/Messages.antt =====
-- The messages of the backend and the keys that it has cached.
use serverless_lmcache.Common.{
  ℕ, ◌+◌, ◌≡◌, refl, sym, ap, ◌∙◌, inl, inr, Option-cases, Bool, true, false, ite, none, some, List,
  [], ◌∷◌, ◌++◌, arith, for_each_inv,
}
use serverless_lmcache.Common.Dict.{Dict, get, erase, get-erase, get-insert}
use serverless_lmcache.Memory.Layout.{MemoryFormat}
use serverless_lmcache.Memory.MemoryObj.{TensorMemoryObj}
use serverless_lmcache.Controller.Worker.{OpType}
use serverless_lmcache.StorageBackend.Policy.{BaseCachePolicy, ObjectAllocator}
use serverless_lmcache.StorageBackend.LocalCpu.{
  Config, LocalCpuBackend, Backend, set_object, object_up, object_down, object_pin, object_unpin,
  pin_in_request, touch_key, touch_cache, submit_put_task, get_blocking, get_from,
  batched_get_non_blocking, count_prefix, batched_async_contains, remove, batched_remove, put_key,
  add_kv_op, freeing,
}
use serverless_lmcache.StorageBackend.LocalCpu
use serverless_lmcache.StorageBackend.LocalCpu.Allocation.{take_object}
use serverless_lmcache.StorageBackend.LocalCpu.Removal.{remove-fields, with_op, freeing-Frame}

module _ {K : Type 0} (dec : Discrete K) where
  abbrev pub is_cached : K → Dict K ℕ → Bool
  is_cached k d = elim (get dec k d) [ none ↦ false | some _ ↦ true ]

  -- Whether a key is stored after operations, from whether it was before.
  abbrev pub replayed : K → List (OpType × K) → Bool → Bool
  replayed k [] b = b
  replayed k ((op, j) ∷ ops) b =
      replayed k ops (ite (dec j k) (elim op [ LocalCpu.admit ↦ true | LocalCpu.evict ↦ false ]) b)

  replayed-append :
      (k : K) (ops more : List (OpType × K)) (b : Bool)
      → replayed k (ops ++ more) b ≡ replayed k more (replayed k ops b)
  replayed-append k [] more b = refl
  replayed-append k ((op, j) ∷ ops) more b = replayed-append k ops more _

module _ {K P H : Type 0} (dec : Discrete K) where
  -- The operations turn the keys of `d0` into exactly the cached keys.
  abbrev pub Mirrors : Dict K ℕ → LocalCpuBackend K P H → Type 0
  Mirrors d0 s =
      (k : K) → replayed dec k s.kv_ops (is_cached dec k d0) ≡ is_cached dec k s.hot_cache

module _ {K : Type 0} (dec : Discrete K) (cfg : Config) (p : BaseCachePolicy K ℕ)
    (a : ObjectAllocator) where
  -- The keys and the messages of a lookup.
  abbrev pub Same : Backend dec cfg p a → Backend dec cfg p a → Type 0
  Same s s' = (s'.hot_cache ≡ s.hot_cache) × (s'.kv_ops ≡ s.kv_ops)

  pub contains-Same :
      (k : K) (pin : Bool) (s : Backend dec cfg p a)
      → Same s (LocalCpu.contains dec cfg p a k pin s).1
  unfolding LocalCpu.contains pin_in_request object_pin set_object
  contains-Same k pin s = ground arith

  pub count_prefix-Same :
      (pin : Bool) (ks : List K) (n : ℕ) (s : Backend dec cfg p a)
      → Same s (count_prefix dec cfg p a pin ks n s).1
  unfolding count_prefix pin_in_request object_pin set_object
  count_prefix-Same pin [] n s = (refl, refl)
  count_prefix-Same false (k ∷ ks) n s = ground (arith, count_prefix-Same false ks (n + 1) s)
  count_prefix-Same true (k ∷ ks) n s = elim (Option-cases (get dec k s.hot_cache)) [
    | inl missing ↦ ground (arith, missing)
    | inr (r, here) ↦
        let more = count_prefix-Same true ks (n + 1) (pin_in_request dec cfg p a k r s) in
        ground (arith, here, more)
  ]

  pub get_blocking-Same :
      (k : K) (s : Backend dec cfg p a) → Same s (get_blocking dec cfg p a k s).1
  unfolding get_blocking object_up set_object
  get_blocking-Same k s = ground arith

  pub get_from-Same :
      (ks : List K) (taken : List ℕ) (s : Backend dec cfg p a)
      → Same s (get_from dec cfg p a ks taken s).1
  unfolding get_from object_up set_object
  get_from-Same [] taken s = (refl, refl)
  get_from-Same (k ∷ ks) taken s = elim (Option-cases (get dec k s.hot_cache)) [
    | inl missing ↦ ground (arith, missing)
    | inr (r, here) ↦
        let more = get_from-Same ks (taken ++ (r ∷ [])) (object_up r s) in
        ground (arith, here, more)
  ]

  pub pin-Same : (k : K) (s : Backend dec cfg p a) → Same s (LocalCpu.pin dec cfg p a k s).1
  unfolding LocalCpu.pin object_pin set_object
  pin-Same k s = ground arith

  freeing-Same :
      (r : ℕ) (o : TensorMemoryObj) (b : Bool) (s : Backend dec cfg p a)
      → Same s (freeing dec cfg p a r (o, b) s)
  freeing-Same r o b s = let f = freeing-Frame dec cfg p a r o b s in (f.0, f.2)

  object_unpin-Same : (r : ℕ) (s : Backend dec cfg p a) → Same s (object_unpin dec cfg p a r s)
  unfolding object_unpin
  object_unpin-Same r s = freeing-Same r _ _ s

  pub object_down-Same : (r : ℕ) (s : Backend dec cfg p a) → Same s (object_down dec cfg p a r s)
  unfolding object_down
  object_down-Same r s = freeing-Same r _ _ s

  pub unpin-Same : (k : K) (s : Backend dec cfg p a) → Same s (LocalCpu.unpin dec cfg p a k s).1
  unfolding LocalCpu.unpin
  unpin-Same k s = elim (Option-cases (get dec k s.hot_cache)) [
    | inl missing ↦ ground (arith, missing)
    | inr (r, here) ↦ ground (arith, here, object_unpin-Same r s)
  ]

  pub take_object-Same :
      (layout : a.Layout) (fmt : MemoryFormat) (s : Backend dec cfg p a)
      → Same s (take_object dec cfg p a layout fmt s).1
  unfolding take_object set_object
  take_object-Same layout fmt s = elim (Option-cases (a.allocate layout fmt s.memory)) [
    | inl failed ↦ ground (arith, failed)
    | inr ((o, memory), given) ↦ ground (arith, given)
  ]

module _ {K : Type 0} (dec : Discrete K) (cfg : Config) (p : BaseCachePolicy K ℕ)
    (a : ObjectAllocator) (sender : cfg.has_sender ≡ true) (d0 : Dict K ℕ) where
  pub unchanged-Mirrors :
      (s s' : Backend dec cfg p a) → Same dec cfg p a s s' → Mirrors dec d0 s → Mirrors dec d0 s'
  unchanged-Mirrors s s' e m k =
      ground
        (arith, ap (λ o. replayed dec k o (is_cached dec k d0)) e.1, ap (is_cached dec k) e.0, m k)

  remove-Mirrors :
      (force : Bool) (k : K) (s : Backend dec cfg p a)
      → Mirrors dec d0 s
      → Mirrors dec d0 (remove dec cfg p a force k s).1
  remove-Mirrors force k s m j =
      let f = remove-fields dec cfg p a force k s in
      ap (λ o. replayed dec j o (is_cached dec j d0)) f.2 ∙ told ∙ sym (ap (is_cached dec j) f.0)
    where
      told :
          replayed dec j
            (elim (get dec k s.hot_cache) [
              | none ↦ s.kv_ops
              | some _ ↦ with_op dec cfg p a LocalCpu.evict k s.kv_ops
            ])
            (is_cached dec j d0)
          ≡ is_cached dec j (erase dec k s.hot_cache)
      told = ground (
        arith,
        sender,
        get-erase dec k j s.hot_cache,
        replayed-append dec j s.kv_ops ((LocalCpu.evict, k) ∷ []) (is_cached dec j d0),
        m j,
      )

  pub submit_put_task-Mirrors :
      (now : ℕ) (k : K) (r : ℕ) (s : Backend dec cfg p a)
      → Mirrors dec d0 s
      → Mirrors dec d0 (submit_put_task dec cfg p a now k r s)
  unfolding submit_put_task put_key add_kv_op object_up set_object
  submit_put_task-Mirrors now k r s m j = ground (
    arith,
    sender,
    get-insert dec k j r s.hot_cache,
    replayed-append dec j s.kv_ops ((LocalCpu.admit, k) ∷ []) (is_cached dec j d0),
    m j,
  )

  pub batched_remove-Mirrors :
      (force : Bool) (ks : List K) (s : Backend dec cfg p a)
      → Mirrors dec d0 s
      → Mirrors dec d0 (batched_remove dec cfg p a force ks s)
  unfolding batched_remove
  batched_remove-Mirrors force ks s m =
      for_each_inv (Mirrors dec d0) (λ k s. (remove dec cfg p a force k s).1)
        (λ k s m. remove-Mirrors force k s m) ks s m
