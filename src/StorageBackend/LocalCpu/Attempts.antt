-- ===== src/StorageBackend/LocalCpu/Attempts.antt =====
-- The rule for an allocation that does not sleep: what holds of the states between its attempts, and what
-- follows where it returns.
use serverless_lmcache.Common.{
  ℕ, zero, suc, ◌≡◌, subst, List-cases, inl, inr, Option-cases, Bool-cases, Bool, false, Option,
  none, some, List, [], ◌∷◌, arith,
}
use serverless_lmcache.Memory.Layout.{MemoryFormat}
use serverless_lmcache.StorageBackend.Policy.{BaseCachePolicy, ObjectAllocator}
use serverless_lmcache.StorageBackend.LocalCpu.{Config, Backend, batched_remove}
use serverless_lmcache.StorageBackend.LocalCpu.Allocation.{
  take_object, evict_keys, or_else, allocate_loop, allocate, format_or_default,
}

module _ {K : Type 0} (dec : Discrete K) (cfg : Config) (p : BaseCachePolicy K ℕ)
    (a : ObjectAllocator) where
  -- An attempt that fails changes nothing.
  take_object_refused :
      (layout : a.Layout) (fmt : MemoryFormat) (s : Backend dec cfg p a)
      → (take_object dec cfg p a layout fmt s).0 ≡ none
      → (take_object dec cfg p a layout fmt s ≡ (none, s)) × (a.allocate layout fmt s.memory ≡ none)
  unfolding take_object
  take_object_refused layout fmt s e = elim (Option-cases (a.allocate layout fmt s.memory)) [
    | inl failed ↦ (ground (arith, failed), failed)
    | inr ((o, memory), got) ↦ absurd (ground (arith, got, e))
  ]

  module _ (wait : Backend dec cfg p a → Backend dec cfg p a) (layout : a.Layout)
      (fmt : Option MemoryFormat) (P : Backend dec cfg p a → Type 0)
      (Q : Option ℕ × Backend dec cfg p a → Type 0)
      (evicted : (s : Backend dec cfg p a) (k : K) (ks : List K)
        → P s
        → evict_keys dec cfg p a s ≡ k ∷ ks
        → P (batched_remove dec cfg p a false (k ∷ ks) s))
      (attempted : (s : Backend dec cfg p a) (r : ℕ)
        → P s
        → (take_object dec cfg p a layout (format_or_default cfg fmt) s).0 ≡ some r
        → Q (take_object dec cfg p a layout (format_or_default cfg fmt) s)) where
    allocate_loop_rule :
        (fuel : ℕ) (s : Backend dec cfg p a) (t : Option ℕ × Backend dec cfg p a)
        → ((s : Backend dec cfg p a)
            → P s
            → evict_keys dec cfg p a s ≡ []
            → a.allocate layout (format_or_default cfg fmt) s.memory ≡ none
            → Q (none, s))
        → P s
        → a.allocate layout (format_or_default cfg fmt) s.memory ≡ none
        → allocate_loop dec cfg p a false wait layout (format_or_default cfg fmt) fuel s ≡ some t
        → Q t
    unfolding allocate_loop or_else
    allocate_loop_rule zero s t gave_up h refused e = absurd (ground (arith, e))
    allocate_loop_rule (suc fuel) s t gave_up h refused e =
        elim (List-cases (evict_keys dec cfg p a s)) [
          | inl nothing ↦
              let same : (none, s) ≡ t = ground (arith, nothing, e) in
              subst Q same (gave_up s h nothing refused)
          | inr (k, ks, offered) ↦
              let removed = batched_remove dec cfg p a false (k ∷ ks) s in
              let h1 = evicted s k ks h offered in
              let t1 = take_object dec cfg p a layout (format_or_default cfg fmt) removed in
              elim (Option-cases t1.0) [
                | inl failed ↦
                    let (same, refused') =
                      take_object_refused layout (format_or_default cfg fmt) removed failed in
                    allocate_loop_rule fuel removed t gave_up h1 refused'
                      (ground (arith, offered, same, e))
                | inr (r, got) ↦
                    let same : t1 ≡ t = ground (arith, offered, got, e) in
                    subst Q same (attempted removed r h1 got)
              ]
        ]

    pub allocate_rule :
        (eviction : Bool) (fuel : ℕ) (s : Backend dec cfg p a) (t : Option ℕ × Backend dec cfg p a)
        → ((s : Backend dec cfg p a)
            → P s
            → evict_keys dec cfg p a s ≡ []
            → a.allocate layout (format_or_default cfg fmt) s.memory ≡ none
            → Q (none, s))
        → (eviction ≡ false → Q (none, s))
        → P s
        → allocate dec cfg p a wait layout fmt eviction false fuel s ≡ some t
        → Q t
    unfolding allocate or_else
    allocate_rule eviction fuel s t gave_up kept h e =
        let t0 = take_object dec cfg p a layout (format_or_default cfg fmt) s in
        elim (Option-cases t0.0) [
          | inl failed ↦
              let (unchanged, refused) =
                take_object_refused layout (format_or_default cfg fmt) s failed in
              elim (Bool-cases eviction) [
                | inl evicting ↦
                    allocate_loop_rule fuel s t gave_up h refused
                      (ground (arith, unchanged, evicting, e))
                | inr keeping ↦
                    let same : (none, s) ≡ t = ground (arith, unchanged, keeping, e) in
                    subst Q same (kept keeping)
              ]
          | inr (r, got) ↦
              let same : t0 ≡ t = ground (arith, got, e) in subst Q same (attempted s r h got)
        ]
