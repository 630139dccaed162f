-- ===== src/StorageBackend/LocalCpu/Allocated.antt =====
-- The count of the references over evictions and allocations.
use serverless_lmcache.Common.{
  ℕ, ◌+◌, ◌≡◌, inl, inr, Option-cases, Bool, false, Option, none, some, List, ◌∷◌, ℕ_discrete,
  arith, for_each_inv,
}
use serverless_lmcache.Memory.Layout.{MemoryFormat}
use serverless_lmcache.StorageBackend.Policy.{BaseCachePolicy, ObjectAllocator, ObjectAllocatorLaws}
use serverless_lmcache.StorageBackend.LocalCpu.{Config, Backend, set_object, remove, batched_remove}
use serverless_lmcache.StorageBackend.LocalCpu.Allocation.{take_object, allocate, format_or_default}
use serverless_lmcache.StorageBackend.LocalCpu.Attempts.{allocate_rule}
use serverless_lmcache.StorageBackend.LocalCpu.Counting.{gained, Counts}
use serverless_lmcache.StorageBackend.LocalCpu.Kept.{remove-Counts}

module _ {K : Type 0} (dec : Discrete K) (cfg : Config) (p : BaseCachePolicy K ℕ)
    (a : ObjectAllocator) (al : ObjectAllocatorLaws a) where
  pub batched_remove-Counts :
      (h : ℕ → ℕ) (force : Bool) (ks : List K) (s : Backend dec cfg p a)
      → Counts dec h s
      → Counts dec h (batched_remove dec cfg p a force ks s)
  unfolding batched_remove
  batched_remove-Counts h force ks s c =
      for_each_inv (Counts dec h) (λ k s. (remove dec cfg p a force k s).1)
        (λ k s c. remove-Counts dec cfg p a al h force k s c) ks s c

  pub take_object-Counts :
      (h : ℕ → ℕ) (layout : a.Layout) (fmt : MemoryFormat) (s : Backend dec cfg p a)
      → Counts dec h s
      → Counts dec
          (gained (take_object dec cfg p a layout fmt s).0 h)
          (take_object dec cfg p a layout fmt s).1
  unfolding take_object set_object
  take_object-Counts h layout fmt s c = elim (Option-cases (a.allocate layout fmt s.memory)) [
    | inl failed ↦
        let e : take_object dec cfg p a layout fmt s ≡ (none, s) = ground (arith, failed) in rw e c
    | inr ((o, memory), got) ↦
        let new = al.allocated layout fmt s.memory got in
        let taken : Backend dec cfg p a = record (set_object s.next_ref o s) {
          next_ref = s.next_ref + 1;
          memory = memory;
        } in
        let e : take_object dec cfg p a layout fmt s ≡ (some s.next_ref, taken) =
          ground (arith, got) in
        rw e (
          c.0,
          λ j. elim (ℕ_discrete s.next_ref j) [
            | yes same ↦ ground (arith, same, new, c.1 s.next_ref)
            | no ne ↦ ground (arith, ne, c.1 j)
          ],
        )
  ]

  pub allocate-Counts :
      (h : ℕ → ℕ) (wait : Backend dec cfg p a → Backend dec cfg p a) (layout : a.Layout)
      (fmt : Option MemoryFormat) (eviction : Bool) (fuel : ℕ) (s : Backend dec cfg p a)
      (t : Option ℕ × Backend dec cfg p a)
      → Counts dec h s
      → allocate dec cfg p a wait layout fmt eviction false fuel s ≡ some t
      → Counts dec (gained t.0 h) t.1
  allocate-Counts h wait layout fmt eviction fuel s t c =
      allocate_rule dec cfg p a wait layout fmt (Counts dec h) (λ t. Counts dec (gained t.0 h) t.1)
        (λ s k ks c offered. batched_remove-Counts h false (k ∷ ks) s c)
        (λ s r c got. take_object-Counts h layout (format_or_default cfg fmt) s c) eviction fuel s t
        (λ s c nothing refused. c) (λ keeping. c) c
