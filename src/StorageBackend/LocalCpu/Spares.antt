-- ===== src/StorageBackend/LocalCpu/Spares.antt =====
-- Evictions and the objects that are pinned or in use.
use serverless_lmcache.Common.{
  ℕ, ◌+◌, ◌<◌, ◌≡◌, ◌≢◌, refl, ap, sym, subst, ◌∙◌, contains, All, All-mono, inl, inr, Bool-cases,
  Option-cases, Bool, true, false, Option, none, some, List, [], ◌∷◌, arith,
}
use serverless_lmcache.Common.Dict.{get, IsUnique, get-erase}
use serverless_lmcache.Memory.Layout.{MemoryFormat}
use serverless_lmcache.Memory.MemoryObj.{TensorMemoryObj, can_evict}
use serverless_lmcache.StorageBackend.Policy.{BaseCachePolicy, PolicyLaws, ObjectAllocator}
use serverless_lmcache.StorageBackend.LocalCpu.{Config, Backend, set_object, remove, batched_remove}
use serverless_lmcache.StorageBackend.LocalCpu.Attempts.{allocate_rule}
use serverless_lmcache.StorageBackend.LocalCpu.Allocation.{
  take_object, evict_keys, allocate, format_or_default,
}
use serverless_lmcache.StorageBackend.LocalCpu.Removal.{remove-fields}
use serverless_lmcache.StorageBackend.LocalCpu.Eviction.{take_object-cache, batched_remove-length}

module _ {K : Type 0} (dec : Discrete K) where
  All-contains :
      (P : K → Type 0) (xs : List K) → ((x : K) → contains dec x xs ≡ true → P x) → All P xs
  All-contains P [] h = tt
  All-contains P (x ∷ xs) h =
      (h x (ground arith), All-contains P xs (λ y inside. h y (ground (arith, inside))))

module _ {K : Type 0} (dec : Discrete K) (cfg : Config) (p : BaseCachePolicy K ℕ)
    (a : ObjectAllocator) where
  -- The key is cached with a reference that was given out, of this object.
  Keeps : K → ℕ → TensorMemoryObj → Backend dec cfg p a → Type 0
  Keeps k r o s = (get dec k s.hot_cache ≡ some r) × (s.objects r ≡ o) × (r < s.next_ref)

  Other : ℕ → Backend dec cfg p a → K → Type 0
  Other r s j = get dec j s.hot_cache ≢ some r

  remove-Keeps :
      (k j : K) (r : ℕ) (o : TensorMemoryObj) (force : Bool) (s : Backend dec cfg p a)
      → Other r s j
      → Keeps k r o s
      → Keeps k r o (remove dec cfg p a force j s).1
  unfolding Keeps Other
  remove-Keeps k j r o force s other h =
      let f = remove-fields dec cfg p a force j s in
      let ne : j ≢ k = λ same. other (ap (λ i. get dec i s.hot_cache) same ∙ h.0) in
      (
        rw f.0 (ground (arith, get-erase dec j k s.hot_cache, ne, h.0)),
        f.3 r other ∙ h.1,
        rw f.1 h.2,
      )

  removed-Other :
      (r : ℕ) (j i : K) (force : Bool) (s : Backend dec cfg p a)
      → Other r s i
      → Other r (remove dec cfg p a force j s).1 i
  unfolding Other
  removed-Other r j i force s other e = other (
      ground (
        arith,
        ap (get dec i) (remove-fields dec cfg p a force j s).0,
        get-erase dec j i s.hot_cache,
        e,
      ))

  batched_remove-Keeps :
      (k : K) (r : ℕ) (o : TensorMemoryObj) (force : Bool) (ks : List K) (s : Backend dec cfg p a)
      → All (Other r s) ks
      → Keeps k r o s
      → Keeps k r o (batched_remove dec cfg p a force ks s)
  unfolding batched_remove
  batched_remove-Keeps k r o force [] s others h = h
  batched_remove-Keeps k r o force (j ∷ ks) s others h =
      batched_remove-Keeps k r o force ks (remove dec cfg p a force j s).1
        (All-mono (Other r s) (Other r (remove dec cfg p a force j s).1)
          (λ i. removed-Other r j i force s) ks others.1)
        (remove-Keeps k j r o force s others.0 h)

  take_object-Keeps :
      (k : K) (r : ℕ) (o : TensorMemoryObj) (layout : a.Layout) (fmt : MemoryFormat)
      (s : Backend dec cfg p a)
      → Keeps k r o s
      → Keeps k r o (take_object dec cfg p a layout fmt s).1
  unfolding Keeps take_object set_object
  take_object-Keeps k r o layout fmt s h = elim (Option-cases (a.allocate layout fmt s.memory)) [
    | inl failed ↦
        let e : take_object dec cfg p a layout fmt s ≡ (none, s) = ground (arith, failed) in rw e h
    | inr ((new, memory), got) ↦
        let taken : Backend dec cfg p a = record (set_object s.next_ref new s) {
          next_ref = s.next_ref + 1;
          memory = memory;
        } in
        let e : take_object dec cfg p a layout fmt s ≡ (some s.next_ref, taken) =
          ground (arith, got) in
        rw e (h.0, ground (arith, h), ground (arith, h))
  ]

  module _ (pl : PolicyLaws dec p) where
    evict_keys-Other :
        (k : K) (r : ℕ) (o : TensorMemoryObj) (s : Backend dec cfg p a)
        → IsUnique dec s.hot_cache
        → can_evict o ≡ false
        → Keeps k r o s
        → All (Other r s) (evict_keys dec cfg p a s)
    unfolding evict_keys Keeps Other
    evict_keys-Other k r o s u held h = elim (Bool-cases cfg.use_hot) [
      | inr cold ↦ let e : evict_keys dec cfg p a s ≡ [] = ground (arith, cold) in rw e tt
      | inl hot ↦
          let offered =
            p.get_evict_candidates (λ r. can_evict (s.objects r)) 1 s.cache_policy s.hot_cache in
          let e : evict_keys dec cfg p a s ≡ offered = ground (arith, hot) in
          rw e (
            All-contains dec _ offered (λ j inside same.
              let (v, here, free) =
                pl.candidates (λ r. can_evict (s.objects r)) 1 s.cache_policy s.hot_cache j u
                  (omega arith) inside in
              ground (arith, here, same, free, held, h.1)))
    ]

    -- An allocation of the local backend that does not sleep and returns keeps every key cached
    -- whose object is pinned or has other than one reference, with that object as it was. The
    -- cache has each key once, the reference was given out, and the policy has its laws.
    pub allocate-spares :
        (wait : Backend dec cfg p a → Backend dec cfg p a) (layout : a.Layout)
        (fmt : Option MemoryFormat) (eviction : Bool) (fuel : ℕ) (s : Backend dec cfg p a) (k : K)
        (r : ℕ) (t : Option ℕ × Backend dec cfg p a)
        → IsUnique dec s.hot_cache
        → get dec k s.hot_cache ≡ some r
        → r < s.next_ref
        → can_evict (s.objects r) ≡ false
        → allocate dec cfg p a wait layout fmt eviction false fuel s ≡ some t
        → (get dec k t.1.hot_cache ≡ some r) × (t.1.objects r ≡ s.objects r)
    unfolding Keeps
    allocate-spares wait layout fmt eviction fuel s k r t u here given held e =
        let format = format_or_default cfg fmt in
        let P : Backend dec cfg p a → Type 0 =
          λ s'. IsUnique dec s'.hot_cache × Keeps k r (s.objects r) s' in
        let start : P s = (u, (here, refl, given)) in
        let kept =
          allocate_rule dec cfg p a wait layout fmt P (λ t. P t.1)
            (λ s' j ks h offered. (
              (batched_remove-length dec cfg p a false (j ∷ ks) s' h.0).0,
              batched_remove-Keeps k r (s.objects r) false (j ∷ ks) s'
                  (subst (All (Other r s')) offered
                    (evict_keys-Other k r (s.objects r) s' h.0 held h.1))
                  h.1,
            ))
            (λ s' r' h got. (
              subst (IsUnique dec) (sym (take_object-cache dec cfg p a layout format s')) h.0,
              take_object-Keeps k r (s.objects r) layout format s' h.1,
            ))
            eviction fuel s t (λ s' h nothing refused. h) (λ keeping. start) start e in
        (kept.1.0, kept.1.1)
