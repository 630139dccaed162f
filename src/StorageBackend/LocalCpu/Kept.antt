-- ===== src/StorageBackend/LocalCpu/Kept.antt =====
-- The count of the references over puts, removals and releases.

use serverless_lmcache.Common.{
  ℕ, ◌<◌, ◌≡◌, ◌≢◌, refl, sym, ap, subst, ◌∙◌, inl, inr, Bool-cases, Option-cases, Bool, true,
  false, none, some, [], ◌∷◌, ◌++◌, count_key-append, ℕ_discrete, arith,
}
use serverless_lmcache.Common.Dict.{
  Dict, get, insert, erase, IsUnique, erase-IsUnique, insert-IsUnique, get-erase,
}
use serverless_lmcache.CachePolicy.{move_to_end}
use serverless_lmcache.CachePolicy.Candidates.{move_to_end-some}
use serverless_lmcache.Memory.MemoryObj.{TensorMemoryObj}
use serverless_lmcache.Memory.MemoryObj
use serverless_lmcache.Controller.Worker.{OpType}
use serverless_lmcache.StorageBackend.Policy.{BaseCachePolicy, ObjectAllocator, ObjectAllocatorLaws}
use serverless_lmcache.StorageBackend.LocalCpu.{
  Config, LocalCpuBackend, Backend, set_object, freeing, object_up, object_down, object_pin,
  object_unpin, add_kv_op, pin_in_request, touch_key, touch_cache, submit_put_task, get_blocking,
  get_from, batched_get_non_blocking, count_prefix, batched_async_contains, remove, batched_remove,
  forget, drop_key, put_key,
}
use serverless_lmcache.StorageBackend.LocalCpu
use serverless_lmcache.StorageBackend.LocalCpu.Counting.{
  cached, one_less, Counts, set_object-Counts, cached-erase, cached-insert, freeing-Counts,
}

module _ {K : Type 0} (dec : Discrete K) where
  -- A cached object has a reference.
  pub cached_held :
      {P H : Type 0} (h : ℕ → ℕ) (k : K) (s : LocalCpuBackend K P H) {r : ℕ}
      → Counts dec h s
      → get dec k s.hot_cache ≡ some r
      → 0 < (s.objects r).ref_count
  cached_held h k s {r} c here =
      ground (arith, (c.1 r).0, cached-erase dec k s.hot_cache r r c.0 here)

  pub move_to_end-cached :
      (k : K) (d : Dict K ℕ) {d' : Dict K ℕ}
      → IsUnique dec d
      → move_to_end dec k d ≡ some d'
      → IsUnique dec d' × ((j : ℕ) → cached j d' ≡ cached j d)
  unfolding get
  move_to_end-cached k d u e =
      let (r, here, moved) = move_to_end-some dec (λ r. true) k d e in
      let rest = erase dec k d in
      (
        subst (IsUnique dec) moved
            (appended r rest (erase-IsUnique dec k d u) (ground (arith, get-erase dec k k d))),
        λ j.
            ap (cached j) (sym moved)
            ∙ count_key-append ℕ_discrete (λ (e : K × ℕ). e.1) j rest ((k, r) ∷ [])
            ∙ ground (arith, cached-erase dec k d r j u here),
      )
    where
      absent :
          (r : ℕ) (j : K) (d : Dict K ℕ)
          → get dec j d ≡ none
          → j ≢ k
          → get dec j (d ++ ((k, r) ∷ [])) ≡ none
      absent r j [] fresh ne = ground (arith, λ (e : k ≡ j). ne (sym e))
      absent r j ((i, w) ∷ d) fresh ne = ground (arith, fresh, absent r j d, ne)

      appended :
          (r : ℕ) (d : Dict K ℕ)
          → IsUnique dec d
          → get dec k d ≡ none
          → IsUnique dec (d ++ ((k, r) ∷ []))
      appended r [] u fresh = (refl, tt)
      appended r ((j, w) ∷ d) u fresh = (
        absent r j d u.0 (λ same. ground (arith, same, fresh)),
        appended r d u.1 (ground (arith, fresh)),
      )

module _ {K : Type 0} (dec : Discrete K) (cfg : Config) (p : BaseCachePolicy K ℕ)
    (a : ObjectAllocator) (al : ObjectAllocatorLaws a) where
  add_kv_op-Counts :
      (h : ℕ → ℕ) (op : OpType) (k : K) (s : Backend dec cfg p a)
      → Counts dec h s
      → Counts dec h (add_kv_op dec cfg p a op k s)
  unfolding add_kv_op
  add_kv_op-Counts h op k s c = elim (Bool-cases cfg.has_sender) [
    | inl y ↦
        let e : add_kv_op dec cfg p a op k s ≡ record s { kv_ops = s.kv_ops ++ ((op, k) ∷ []) } =
          ground (arith, y) in
        rw e c
    | inr n ↦ let e : add_kv_op dec cfg p a op k s ≡ s = ground (arith, n) in rw e c
  ]

  pub release-Counts :
      (h : ℕ → ℕ) (r : ℕ) (s : Backend dec cfg p a)
      → Counts dec h s
      → 0 < h r
      → Counts dec (one_less r h) (object_down dec cfg p a r s)
  unfolding object_down MemoryObj.ref_count_down
  release-Counts h r s c held =
      let (o, b) = MemoryObj.ref_count_down (s.objects r) in
      freeing-Counts dec cfg p a al h (one_less r h) r o b s.hot_cache s c c.0
        (λ j ne. ground (arith, ne)) (ground (arith, c.1 r)) (λ e. ground (arith, e))

  pub unpin_object-Counts :
      (h : ℕ → ℕ) (r : ℕ) (s : Backend dec cfg p a)
      → Counts dec h s
      → Counts dec h (object_unpin dec cfg p a r s)
  unfolding object_unpin MemoryObj.unpin
  unpin_object-Counts h r s c =
      let (o, b) = MemoryObj.unpin (s.objects r) in
      freeing-Counts dec cfg p a al h h r o b s.hot_cache s c c.0 (λ j ne. refl)
        (ground (arith, c.1 r)) (λ e. ground (arith, e))

  forget-Counts :
      (h : ℕ → ℕ) (force : Bool) (k : K) (s : Backend dec cfg p a)
      → Counts dec h s
      → Counts dec h (forget dec cfg p a force k s)
  unfolding forget
  forget-Counts h false k s c = c
  forget-Counts h true k s c = c

  drop_key-Counts :
      (h : ℕ → ℕ) (force : Bool) (k : K) (r : ℕ) (s : Backend dec cfg p a)
      → Counts dec h s
      → get dec k s.hot_cache ≡ some r
      → Counts dec h (drop_key dec cfg p a force k r s)
  unfolding drop_key object_down MemoryObj.ref_count_down
  drop_key-Counts h force k r s c here =
      let d = erase dec k s.hot_cache in
      let (o, b) = MemoryObj.ref_count_down (s.objects r) in
      let less = λ (j : ℕ). cached-erase dec k s.hot_cache r j c.0 here in
      add_kv_op-Counts h LocalCpu.evict k _ (
        forget-Counts h force k _ (
          freeing-Counts dec cfg p a al h h r o b d s c (erase-IsUnique dec k s.hot_cache c.0)
            (λ j ne. ground (arith, ne, less j)) (ground (arith, c.1 r, less r))
            (λ e. ground (arith, e))))

  pub remove-Counts :
      (h : ℕ → ℕ) (force : Bool) (k : K) (s : Backend dec cfg p a)
      → Counts dec h s
      → Counts dec h (remove dec cfg p a force k s).1
  unfolding remove
  remove-Counts h force k s c = elim (Option-cases (get dec k s.hot_cache)) [
    | inl missing ↦ let e : (remove dec cfg p a force k s).1 ≡ s = ground (arith, missing) in rw e c
    | inr (r, here) ↦
        let e : (remove dec cfg p a force k s).1 ≡ drop_key dec cfg p a force k r s =
          ground (arith, here) in
        rw e (drop_key-Counts h force k r s c here)
  ]

  put_key-Counts :
      (h : ℕ → ℕ) (now : ℕ) (k : K) (r : ℕ) (s : Backend dec cfg p a)
      → Counts dec h s
      → get dec k s.hot_cache ≡ none
      → 0 < h r
      → Counts dec h (put_key dec cfg p a now k r s)
  unfolding put_key object_up set_object MemoryObj.ref_count_up
  put_key-Counts h now k r s c fresh held =
      let put : Backend dec cfg p a = record (object_up r s) {
        hot_cache = insert dec k r s.hot_cache;
        cache_policy = p.update_on_put now k s.cache_policy;
      } in
      let more = λ (j : ℕ). cached-insert dec k s.hot_cache r j fresh in
      add_kv_op-Counts h LocalCpu.admit k put (
        set_object-Counts dec h h r (MemoryObj.ref_count_up (s.objects r))
          (insert dec k r s.hot_cache) s c (insert-IsUnique dec k r s.hot_cache c.0)
          (λ j ne. ground (arith, ne, more j)) (ground (arith, c.1 r, more r)))

  pub submit_put_task-Counts :
      (h : ℕ → ℕ) (now : ℕ) (k : K) (r : ℕ) (s : Backend dec cfg p a)
      → Counts dec h s
      → 0 < h r
      → Counts dec h (submit_put_task dec cfg p a now k r s)
  unfolding submit_put_task
  submit_put_task-Counts h now k r s c held = elim (Option-cases (get dec k s.hot_cache)) [
    | inl fresh ↦
        let e : submit_put_task dec cfg p a now k r s ≡ put_key dec cfg p a now k r s =
          ground (arith, fresh) in
        rw e (put_key-Counts h now k r s c fresh held)
    | inr (r', here) ↦
        let e : submit_put_task dec cfg p a now k r s ≡ s = ground (arith, here) in rw e c
  ]

  pub unpin-Counts :
      (h : ℕ → ℕ) (k : K) (s : Backend dec cfg p a)
      → Counts dec h s
      → Counts dec h (LocalCpu.unpin dec cfg p a k s).1
  unfolding LocalCpu.unpin
  unpin-Counts h k s c = elim (Option-cases (get dec k s.hot_cache)) [
    | inl missing ↦
        let e : (LocalCpu.unpin dec cfg p a k s).1 ≡ s = ground (arith, missing) in rw e c
    | inr (r, here) ↦
        let e : (LocalCpu.unpin dec cfg p a k s).1 ≡ object_unpin dec cfg p a r s =
          ground (arith, here) in
        rw e (unpin_object-Counts h r s c)
  ]
