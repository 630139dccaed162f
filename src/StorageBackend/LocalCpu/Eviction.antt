-- ===== src/StorageBackend/LocalCpu/Eviction.antt =====
-- The rounds of an allocation that evicts, and the size of the cache.
use serverless_lmcache.Common.{
  ℕ, zero, suc, ◌≤◌, ◌<◌, ◌≡◌, ap, ◌∙◌, List-cases, length, contains, inl, inr, Bool-cases,
  Option-cases, Bool, true, false, Option, none, some, List, [], ◌∷◌, arith, for_each_inv,
}
use serverless_lmcache.Common.Dict.{Dict, get, erase, erase-IsUnique, IsUnique}
use serverless_lmcache.Memory.Layout.{MemoryFormat}
use serverless_lmcache.Memory.MemoryObj.{can_evict}
use serverless_lmcache.StorageBackend.Policy.{BaseCachePolicy, PolicyLaws, ObjectAllocator}
use serverless_lmcache.StorageBackend.LocalCpu.{Config, Backend, set_object, remove, batched_remove}
use serverless_lmcache.StorageBackend.LocalCpu.Allocation.{
  take_object, evict_keys, or_else, allocate_loop, allocate, format_or_default,
}
use serverless_lmcache.StorageBackend.LocalCpu.Removal.{remove-fields}

module _ {K : Type 0} (dec : Discrete K) where
  length-erase : (k : K) (d : Dict K ℕ) → length (erase dec k d) ≤ length d
  unfolding erase
  length-erase k [] = omega arith
  length-erase k ((j, w) ∷ d) = ground (arith, length-erase k d)

  length-erase_cached :
      (k : K) (d : Dict K ℕ) {r : ℕ} → get dec k d ≡ some r → length (erase dec k d) < length d
  unfolding erase get
  length-erase_cached k [] h = absurd (ground (arith, h))
  length-erase_cached k ((j, w) ∷ d) {r} h = elim (dec j k) [
    | yes same ↦ ground (arith, same, length-erase k d)
    | no ne ↦ ground (arith, ne, length-erase_cached k d {r = r} (ground (arith, ne, h)))
  ]

module _ {K : Type 0} (dec : Discrete K) (cfg : Config) (p : BaseCachePolicy K ℕ)
    (a : ObjectAllocator) where
  pub batched_remove-length :
      (force : Bool) (ks : List K) (s : Backend dec cfg p a)
      → IsUnique dec s.hot_cache
      → IsUnique dec (batched_remove dec cfg p a force ks s).hot_cache
        × (length (batched_remove dec cfg p a force ks s).hot_cache ≤ length s.hot_cache)
  unfolding batched_remove
  batched_remove-length force ks s u =
      for_each_inv
        (λ (t : Backend dec cfg p a).
          IsUnique dec t.hot_cache × (length t.hot_cache ≤ length s.hot_cache))
        (λ k t. (remove dec cfg p a force k t).1)
        (λ k t i.
          let e = (remove-fields dec cfg p a force k t).0 in
          rw e (
            erase-IsUnique dec k t.hot_cache i.0,
            omega (arith, length-erase dec k t.hot_cache, i.1),
          ))
        ks s (u, omega arith)

  -- Removing keys of which the first is cached makes the cache smaller.
  batched_remove-shorter :
      (force : Bool) (k : K) (ks : List K) (s : Backend dec cfg p a) {r : ℕ}
      → IsUnique dec s.hot_cache
      → get dec k s.hot_cache ≡ some r
      → IsUnique dec (batched_remove dec cfg p a force (k ∷ ks) s).hot_cache
        × (length (batched_remove dec cfg p a force (k ∷ ks) s).hot_cache < length s.hot_cache)
  unfolding batched_remove
  batched_remove-shorter force k ks s u here =
      let s1 = (remove dec cfg p a force k s).1 in
      let e = (remove-fields dec cfg p a force k s).0 in
      let u1 : IsUnique dec s1.hot_cache = rw e (erase-IsUnique dec k s.hot_cache u) in
      let rest = batched_remove-length force ks s1 u1 in
      (rest.0, omega (arith, rest.1, ap length e, length-erase_cached dec k s.hot_cache here))

  pub take_object-cache :
      (layout : a.Layout) (fmt : MemoryFormat) (s : Backend dec cfg p a)
      → (take_object dec cfg p a layout fmt s).1.hot_cache ≡ s.hot_cache
  unfolding take_object set_object
  take_object-cache layout fmt s = elim (Option-cases (a.allocate layout fmt s.memory)) [
    | inl failed ↦ ground (arith, failed)
    | inr ((o, memory), got) ↦ ground (arith, got)
  ]

  module _ (pl : PolicyLaws dec p) where
    pub first_cached :
        (s : Backend dec cfg p a) (k : K) (ks : List K)
        → IsUnique dec s.hot_cache
        → evict_keys dec cfg p a s ≡ k ∷ ks
        → (r : ℕ) × (get dec k s.hot_cache ≡ some r)
    unfolding evict_keys
    first_cached s k ks u e =
        let offered =
          p.get_evict_candidates (λ r. can_evict (s.objects r)) 1 s.cache_policy s.hot_cache in
        let same : offered ≡ k ∷ ks = ground (arith, e) in
        let inside : contains dec k offered ≡ true = ap (contains dec k) same ∙ ground arith in
        let (r, here, free) =
          pl.candidates (λ r. can_evict (s.objects r)) 1 s.cache_policy s.hot_cache k u
            (omega arith) inside in
        (r, here)

    -- The loop ends, since each round that goes on has a smaller cache.
    allocate_loop_ends :
        (wait : Backend dec cfg p a → Backend dec cfg p a) (layout : a.Layout) (fmt : MemoryFormat)
        (fuel : ℕ) (s : Backend dec cfg p a)
        → IsUnique dec s.hot_cache
        → length s.hot_cache < fuel
        → (t : Option ℕ × Backend dec cfg p a) × (allocate_loop dec cfg p a false wait layout fmt
              fuel s
            ≡ some t)
    unfolding allocate_loop or_else
    allocate_loop_ends wait layout fmt zero s u enough = absurd (omega arith)
    allocate_loop_ends wait layout fmt (suc fuel) s u enough =
        elim (List-cases (evict_keys dec cfg p a s)) [
          | inl nothing ↦ ((none, s), ground (arith, nothing))
          | inr (k, ks, offered) ↦
              let removed = batched_remove dec cfg p a false (k ∷ ks) s in
              let (r, here) = first_cached s k ks u offered in
              let (u', shorter) = batched_remove-shorter false k ks s u here in
              let t = take_object dec cfg p a layout fmt removed in
              let cache : t.1.hot_cache ≡ removed.hot_cache =
                take_object-cache layout fmt removed in
              let e : allocate_loop dec cfg p a false wait layout fmt (suc fuel) s
                  ≡ or_else dec cfg p a t (allocate_loop dec cfg p a false wait layout fmt fuel) =
                ground (arith, offered) in
              elim (Option-cases t.0) [
                | inl failed ↦
                    let again =
                      allocate_loop_ends wait layout fmt fuel t.1 (rw cache u')
                        (omega (arith, shorter, ap length cache)) in
                    (again.0, e ∙ ground (arith, failed, again.1))
                | inr (r', got) ↦ (t, e ∙ ground (arith, got))
              ]
        ]

    -- With more fuel than there are cached keys, an allocation of the local backend that does not
    -- sleep returns, whatever the allocator holds, where the cache has each key once and the
    -- policy has its laws.
    pub allocate_ends :
        (wait : Backend dec cfg p a → Backend dec cfg p a) (layout : a.Layout)
        (fmt : Option MemoryFormat) (eviction : Bool) (fuel : ℕ) (s : Backend dec cfg p a)
        → IsUnique dec s.hot_cache
        → length s.hot_cache < fuel
        → (t : Option ℕ × Backend dec cfg p a) × (allocate dec cfg p a wait layout fmt eviction
              false fuel s
            ≡ some t)
    unfolding allocate or_else
    allocate_ends wait layout fmt eviction fuel s u enough =
        let t = take_object dec cfg p a layout (format_or_default cfg fmt) s in
        let cache : t.1.hot_cache ≡ s.hot_cache =
          take_object-cache layout (format_or_default cfg fmt) s in
        let ran =
          allocate_loop_ends wait layout (format_or_default cfg fmt) fuel t.1 (rw cache u)
            (omega (arith, ap length cache)) in
        elim (Option-cases t.0) [
          | inl failed ↦ elim (Bool-cases eviction) [
            | inl evicting ↦ (ran.0, ground (arith, failed, evicting, ran.1))
            | inr keeping ↦ ((none, t.1), ground (arith, failed, keeping))
          ]
          | inr (r, got) ↦ (t, ground (arith, got))
        ]
