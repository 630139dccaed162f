-- ===== src/StorageBackend/LocalCpu/Exhausted.antt =====
-- What is left when `allocate` of the backend returns nothing.
use serverless_lmcache.Common.{ℕ, ◌≡◌, refl, true, false, Option, none, some, [], arith}
use serverless_lmcache.Common.Dict.{get}
use serverless_lmcache.Memory.Layout.{MemoryFormat}
use serverless_lmcache.Memory.MemoryObj.{can_evict}
use serverless_lmcache.StorageBackend.Policy.{BaseCachePolicy, PolicyLaws, ObjectAllocator}
use serverless_lmcache.StorageBackend.LocalCpu.{Config, Backend}
use serverless_lmcache.StorageBackend.LocalCpu.Attempts.{allocate_rule}
use serverless_lmcache.StorageBackend.LocalCpu.Allocation.{evict_keys, allocate, format_or_default}

module _ {K : Type 0} (dec : Discrete K) (cfg : Config) (p : BaseCachePolicy K ℕ)
    (a : ObjectAllocator) (pl : PolicyLaws dec p) where
  -- An allocation that evicts, does not sleep and returns nothing, of a local backend that keeps a
  -- hot cache, leaves no cached object that can be evicted, and the allocator refuses the layout
  -- still. The policy has its laws.
  pub allocate-exhausted :
      (wait : Backend dec cfg p a → Backend dec cfg p a) (layout : a.Layout)
      (fmt : Option MemoryFormat) (fuel : ℕ) (s s' : Backend dec cfg p a) (k : K) {r : ℕ}
      → cfg.use_hot ≡ true
      → allocate dec cfg p a wait layout fmt true false fuel s ≡ some (none, s')
      → get dec k s'.hot_cache ≡ some r
      → (can_evict (s'.objects r) ≡ false)
        × (a.allocate layout (format_or_default cfg fmt) s'.memory ≡ none)
  unfolding evict_keys
  allocate-exhausted wait layout fmt fuel s s' k {r} hot e cached =
      let format = format_or_default cfg fmt in
      let GaveUp : Option ℕ × Backend dec cfg p a → Type 0 = λ t.
        t.0 ≡ none
        → (evict_keys dec cfg p a t.1 ≡ []) × (a.allocate layout format t.1.memory ≡ none) in
      let (nothing, refused) =
        allocate_rule dec cfg p a wait layout fmt (λ s. Unit) GaveUp (λ s k ks c offered. tt)
          (λ s r c got failed. absurd (ground (arith, got, failed))) true fuel s (none, s')
          (λ s c nothing refused failed. (nothing, refused))
          (λ keeping failed. absurd (ground (arith, keeping))) tt e refl in
      (
        pl.no_candidates (λ r. can_evict (s'.objects r)) 1 s'.cache_policy s'.hot_cache k
            (omega arith) (ground (arith, hot, nothing)) cached,
        refused,
      )
