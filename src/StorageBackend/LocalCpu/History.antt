-- ===== src/StorageBackend/LocalCpu/History.antt =====
-- Histories of calls on the backend by holders of memory objects.
use serverless_lmcache.Common.{
  ℕ, ◌+◌, ◌<◌, ◌≡◌, inl, inr, Bool-cases, Bool, true, false, Option, some, List, [], arith,
}
use serverless_lmcache.Common.Dict.{IsUnique}
use serverless_lmcache.Memory.Layout.{MemoryFormat}
use serverless_lmcache.StorageBackend.Policy.{
  BaseCachePolicy, PolicyLaws, ObjectAllocator, ObjectAllocatorLaws,
}
use serverless_lmcache.StorageBackend.LocalCpu.{
  Config, LocalCpuBackend, Backend, set_object, object_up, object_down, object_pin, object_unpin,
  pin_in_request, touch_key, touch_cache, submit_put_task, get_blocking, get_from,
  batched_get_non_blocking, count_prefix, batched_async_contains, remove, batched_remove,
}
use serverless_lmcache.StorageBackend.LocalCpu
use serverless_lmcache.StorageBackend.LocalCpu.Allocation.{allocate, clear, clear_keys}
use serverless_lmcache.StorageBackend.LocalCpu.Counting.{
  cached, one_more, one_less, gained, all_more, Counts, object_up-Counts,
}
use serverless_lmcache.StorageBackend.LocalCpu.Kept.{
  release-Counts, submit_put_task-Counts, unpin-Counts,
}
use serverless_lmcache.StorageBackend.LocalCpu.Lookups.{
  contains-Counts, count_prefix-Counts, pin-Counts, get_blocking-Counts, get_from-Counts,
  touch_cache-Counts,
}
use serverless_lmcache.StorageBackend.LocalCpu.Allocated.{batched_remove-Counts, allocate-Counts}

module _ {K : Type 0} (dec : Discrete K) (cfg : Config) (p : BaseCachePolicy K ℕ)
    (a : ObjectAllocator) where
  -- One call, with the references of holders other than the cache before and after it. An object is put by
  -- a holder of it; who gets an object holds it; holders take more references and give theirs back.
  -- Calls that raise are left out, and the allocations that sleep; so are `batched_allocate`, whose eviction
  -- frees objects whoever holds them and sends no message, and `close`.
  pub data Step : (ℕ → ℕ) × Backend dec cfg p a → (ℕ → ℕ) × Backend dec cfg p a → Type 0 where
    looked_up :
        {h : ℕ → ℕ} {s : Backend dec cfg p a} (k : K) (pin : Bool)
        → Step (h, s) (h, (LocalCpu.contains dec cfg p a k pin s).1)
    counted :
        {h : ℕ → ℕ} {s : Backend dec cfg p a} (ks : List K) (pin : Bool)
        → Step (h, s) (h, (batched_async_contains dec cfg p a ks pin s).1)
    touched :
        {h : ℕ → ℕ} {s s' : Backend dec cfg p a} (now : ℕ)
        → touch_cache dec cfg p a now s ≡ some s'
        → Step (h, s) (h, s')
    put :
        {h : ℕ → ℕ} {s : Backend dec cfg p a} (now : ℕ) (k : K) (r : ℕ)
        → 0 < h r
        → Step (h, s) (h, submit_put_task dec cfg p a now k r s)
    got :
        {h : ℕ → ℕ} {s : Backend dec cfg p a} (k : K)
        → Step (h, s) (gained (get_blocking dec cfg p a k s).0 h, (get_blocking dec cfg p a k s).1)
    got_all :
        {h : ℕ → ℕ} {s s' : Backend dec cfg p a} (ks : List K) (rs : List ℕ)
        → batched_get_non_blocking dec cfg p a ks s ≡ (some rs, s')
        → Step (h, s) (all_more rs h, s')
    pinned :
        {h : ℕ → ℕ} {s : Backend dec cfg p a} (k : K)
        → Step (h, s) (h, (LocalCpu.pin dec cfg p a k s).1)
    unpinned :
        {h : ℕ → ℕ} {s : Backend dec cfg p a} (k : K)
        → Step (h, s) (h, (LocalCpu.unpin dec cfg p a k s).1)
    removed :
        {h : ℕ → ℕ} {s : Backend dec cfg p a} (force : Bool) (ks : List K)
        → Step (h, s) (h, batched_remove dec cfg p a force ks s)
    cleared :
        {h : ℕ → ℕ} {s : Backend dec cfg p a} (num_tokens : ℕ → ℕ)
        → Step (h, s) (h, (clear dec cfg p a num_tokens s).1)
    allocated :
        {h : ℕ → ℕ} {s s' : Backend dec cfg p a} (layout : a.Layout) (fmt : Option MemoryFormat)
        (eviction : Bool) (fuel : ℕ) (r : Option ℕ)
        → allocate dec cfg p a (λ s. s) layout fmt eviction false fuel s ≡ some (r, s')
        → Step (h, s) (gained r h, s')
    retained :
        {h : ℕ → ℕ} {s : Backend dec cfg p a} (r : ℕ)
        → 0 < h r
        → Step (h, s) (one_more r h, object_up r s)
    released :
        {h : ℕ → ℕ} {s : Backend dec cfg p a} (r : ℕ)
        → 0 < h r
        → Step (h, s) (one_less r h, object_down dec cfg p a r s)

  pub data Reachable (start : (ℕ → ℕ) × Backend dec cfg p a)
      : (ℕ → ℕ) × Backend dec cfg p a → Type 0 where
    started : Reachable start start
    stepped :
        {s s' : (ℕ → ℕ) × Backend dec cfg p a} → Reachable start s → Step s s' → Reachable start s'

module _ {K : Type 0} (dec : Discrete K) (cfg : Config) (p : BaseCachePolicy K ℕ)
    (a : ObjectAllocator) (pl : PolicyLaws dec p) (al : ObjectAllocatorLaws a) where
  clear-Counts :
      (h : ℕ → ℕ) (num_tokens : ℕ → ℕ) (s : Backend dec cfg p a)
      → Counts dec h s
      → Counts dec h (clear dec cfg p a num_tokens s).1
  unfolding clear
  clear-Counts h num_tokens s c = elim (Bool-cases cfg.use_hot) [
    | inl y ↦
        let ks = (clear_keys dec cfg p a num_tokens s s.hot_cache ([], 0)).0 in
        let e : (clear dec cfg p a num_tokens s).1 ≡ batched_remove dec cfg p a true ks s =
          ground (arith, y) in
        rw e (batched_remove-Counts dec cfg p a al h true ks s c)
    | inr n ↦ let e : (clear dec cfg p a num_tokens s).1 ≡ s = ground (arith, n) in rw e c
  ]

  step-Counts :
      {s s' : (ℕ → ℕ) × Backend dec cfg p a}
      → Step dec cfg p a s s'
      → Counts dec s.0 s.1
      → Counts dec s'.0 s'.1
  unfolding batched_async_contains batched_get_non_blocking
  step-Counts (looked_up {h} {s} k pin) c = contains-Counts dec cfg p a h k pin s c
  step-Counts (counted {h} {s} ks pin) c = count_prefix-Counts dec cfg p a h pin ks 0 s c
  step-Counts (touched {h} {s} {s'} now e) c = touch_cache-Counts dec cfg p a pl h now s c e
  step-Counts (put {h} {s} now k r held) c =
      submit_put_task-Counts dec cfg p a al h now k r s c held
  step-Counts (got {h} {s} k) c = get_blocking-Counts dec cfg p a h k s c
  step-Counts (got_all {h} {s} {s'} ks rs e) c = get_from-Counts dec cfg p a h ks [] s rs s' c e
  step-Counts (pinned {h} {s} k) c = pin-Counts dec cfg p a h k s c
  step-Counts (unpinned {h} {s} k) c = unpin-Counts dec cfg p a al h k s c
  step-Counts (removed {h} {s} force ks) c = batched_remove-Counts dec cfg p a al h force ks s c
  step-Counts (cleared {h} {s} num_tokens) c = clear-Counts h num_tokens s c
  step-Counts (allocated {h} {s} {s'} layout fmt eviction fuel r e) c =
      allocate-Counts dec cfg p a al h (λ s. s) layout fmt eviction fuel s (r, s') c e
  step-Counts (retained {h} {s} r held) c = object_up-Counts dec h r s c (ground (arith, c.1 r))
  step-Counts (released {h} {s} r held) c = release-Counts dec cfg p a al h r s c held

  history-Counts :
      (start : (ℕ → ℕ) × Backend dec cfg p a) {s : (ℕ → ℕ) × Backend dec cfg p a}
      → Counts dec start.0 start.1
      → Reachable dec cfg p a start s
      → Counts dec s.0 s.1
  history-Counts start c started = c
  history-Counts start c (stepped r step) = step-Counts step (history-Counts start c r)

  -- From a state of the local backend where the references are counted, after any sequence of
  -- lookups, puts, gets, pins, unpins, removals, touches, `clear` and `allocate` calls by holders
  -- that put what they hold and give back what they hold: the cache has each key once, and an
  -- object that a holder or the cache has is valid, that is, not freed, and its count is the
  -- number of its holders' references and of the keys that are cached with it. The policy and the
  -- allocator have their laws. Calls that raise, allocations that sleep, `batched_allocate` and
  -- `close` are left out.
  pub run-Counts :
      {h0 h : ℕ → ℕ} {s0 s : Backend dec cfg p a} (r : ℕ)
      → Counts dec h0 s0
      → Reachable dec cfg p a (h0, s0) (h, s)
      → 0 < h r + cached r s.hot_cache
      → IsUnique dec s.hot_cache
        × ((s.objects r).ref_count ≡ h r + cached r s.hot_cache)
        × ((s.objects r).valid ≡ true)
  run-Counts {h0} {h} {s0} {s} r c reached held =
      let c' = history-Counts (h0, s0) c reached in (c'.0, (c'.1 r).0, ground (arith, c'.1 r, held))
