-- ===== src/Distributed/TensorMemory.antt =====
-- The two allocators that `create_memory_allocator` of lmcache/v1/distributed/memory_manager.py
-- makes: their batches are those of a `TensorMemoryAllocator`. A layout is the size of one object in
-- bytes, which is not 0. `MixedMemoryAllocator` reads the format of the first object to be freed, so
-- it raises where there is none; its other formats and the locks are left out, and so are the parent
-- of an object and the thread that expands the memory of `LazyMemoryAllocator`.
use mathlib.Core.Logic.{∥∥₁_map, ∥∥₁_map₂, ∥∥₁_elim}
use native.Mathlib.Nat.{ℕ_set}
use mathlib.Core.Option.{some-injective}
use mathlib.Core.List.{Perm, map-append, append-nil}
use mathlib.Core.List.Permᴰ
use serverless_lmcache.Common.{
  ℕ, ◌*◌, ◌^◌, ◌<◌, ◌≡◌, refl, Option, none, some, List, [], ◌∷◌, ◌++◌, map, length, arith, All,
  All-append, All-split, sym, subst, inl, inr, Option-cases,
}
use serverless_lmcache.Memory.FreeBlock.{SortedList, SortedListLaws}
use serverless_lmcache.Memory.AddressManager.{get_free_size, get_heap_size}
use serverless_lmcache.Memory.AddressManager.History.{Ledger}
use serverless_lmcache.Memory.AddressManager.History.Kept.{new-Ledger}
use serverless_lmcache.Memory.AddressManager.History.Shares.{All-perm, Ledger-perm}
use serverless_lmcache.Memory.MemoryObj.{TensorMemoryObj}
use serverless_lmcache.Memory.TensorAllocator.{
  TensorMemoryAllocator, new, batched_allocate, batched_free,
}
use serverless_lmcache.Memory.TensorAllocator.Shares.{
  region, IsValid, map-perm, batched_free-Ledger, batched_allocate-Ledger,
}
use serverless_lmcache.Distributed.MemoryManager.{Allocator, AllocatorLaws}
use serverless_lmcache.Distributed.L1Manager.{Listener}
use serverless_lmcache.Distributed.L1Manager.History.{Call, Manager, run, AllProper}
use serverless_lmcache.Distributed.L1Manager.History.Account.{WellFormed}
use serverless_lmcache.Distributed.L1Manager.History.WellFormed.{run-WellFormed}

abbrev pub Layout : Type 0
Layout = (raw_size : ℕ) × (0 < raw_size)

module _ (sl : SortedList) (chunks : ℕ → ℕ → ℕ) where
  -- The allocator underneath: a refused batch leaves it as it was.
  unfoldable pub allocate_batch :
      Layout → ℕ → TensorMemoryAllocator → Option (List TensorMemoryObj) × TensorMemoryAllocator
  allocate_batch layout n t = elim (batched_allocate sl chunks layout.0 n t) [
    | none ↦ (none, t)
    | some (os, t') ↦ (some os, t')
  ]

  -- `LazyMemoryAllocator`.
  abbrev pub lazy_memory : Allocator
  lazy_memory = record {
    Heap = TensorMemoryAllocator;
    MemoryObj = TensorMemoryObj;
    Layout = Layout;
    batched_allocate = allocate_batch;
    batched_free = λ os t. some (batched_free sl os t).1;
    get_free_size = λ t. get_free_size t.address_manager;
    get_heap_size = λ t. get_heap_size t.address_manager;
  }

  -- `batched_free` of `MixedMemoryAllocator`, which reads the first object.
  unfoldable pub mixed_free :
      List TensorMemoryObj → TensorMemoryAllocator → Option TensorMemoryAllocator
  mixed_free [] t = none
  mixed_free (o ∷ os) t = some (batched_free sl (o ∷ os) t).1

  -- `MixedMemoryAllocator`.
  abbrev pub mixed_memory : Allocator
  mixed_memory = record lazy_memory { batched_free = mixed_free }

module _ (sl : SortedList) (laws : SortedListLaws sl) (chunks : ℕ → ℕ → ℕ)
    (chunks_lem : (b n : ℕ) → 0 < b → 0 < n → chunks (b * n) n ≡ n) (e : ℕ) where
  abbrev Kept : TensorMemoryAllocator → List TensorMemoryObj → Type 0
  Kept t os = Ledger e t.address_manager (map region os) × All IsValid os

  -- The objects that are handed out are valid, and their regions are those of the address manager.
  abbrev Live : TensorMemoryAllocator → List TensorMemoryObj → Type 0
  Live t os = ∥ Kept t os ∥₁

  perm-Live :
      (t : TensorMemoryAllocator) {os ps : List TensorMemoryObj}
      → Perm os ps
      → Live t os
      → Live t ps
  perm-Live t {os} {ps} p l =
      ∥∥₁_map₂ {C = Kept t ps} p l
        (λ d w. (Ledger-perm e t.address_manager (map-perm region d) w.0, All-perm IsValid d w.1))

  allocate_batch-some :
      (l : Layout) (n : ℕ) (t t' : TensorMemoryAllocator) (new : List TensorMemoryObj)
      → allocate_batch sl chunks l n t ≡ (some new, t')
      → batched_allocate sl chunks l.0 n t ≡ some (new, t')
  unfolding allocate_batch
  allocate_batch-some l n t t' new found =
      elim (Option-cases (batched_allocate sl chunks l.0 n t)) [
        | inl none_left ↦ absurd (ground (arith, none_left, found))
        | inr ((os, t1), e) ↦ ground (arith, e, found)
      ]

  allocate_batch-none :
      (l : Layout) (n : ℕ) (t t' : TensorMemoryAllocator)
      → allocate_batch sl chunks l n t ≡ (none, t')
      → t ≡ t'
  unfolding allocate_batch
  allocate_batch-none l n t t' refused = elim (Option-cases (batched_allocate sl chunks l.0 n t)) [
    | inl none_left ↦ ground (arith, none_left, refused)
    | inr ((os, t1), e) ↦ absurd (ground (arith, e, refused))
  ]

  allocated-Live :
      (l : Layout) (n : ℕ) (t t' : TensorMemoryAllocator) (os new : List TensorMemoryObj)
      → Live t os
      → 0 < n
      → allocate_batch sl chunks l n t ≡ (some new, t')
      → Live t' (os ++ new) × (length new ≡ n)
  allocated-Live l n t t' os new w pos found =
      let some_new = allocate_batch-some l n t t' new found in
      let batch = λ (w : Kept t os).
        batched_allocate-Ledger sl laws chunks chunks_lem e l.0 n t t' new (map region os) l.1 pos
          w.0 some_new in
      (
        ∥∥₁_map {B = Kept t' (os ++ new)} w (λ w.
            let (kept, valid, _) = batch w in
            let d = Permᴰ.append_comm new os in
            (
              Ledger-perm e t'.address_manager (map-perm region d)
                  (subst (Ledger e t'.address_manager) (sym (map-append region new os)) kept),
              All-append IsValid os new w.1 valid,
            )),
        ∥∥₁_elim w (ℕ_set (length new) n) (λ w. let (_, _, count) = batch w in count),
      )

  freed-Live :
      (t : TensorMemoryAllocator) (os dead : List TensorMemoryObj)
      → Live t (os ++ dead)
      → Live (batched_free sl dead t).1 os
  freed-Live t os dead w = ∥∥₁_map {B = Kept (batched_free sl dead t).1 os} w (λ w.
      let d = Permᴰ.append_comm os dead in
      let (valid_dead, valid_os) = All-split IsValid dead os (All-perm IsValid d w.1) in
      (
        batched_free-Ledger sl laws e dead (map region os) t valid_dead (
            subst (Ledger e t.address_manager) (map-append region dead os)
              (Ledger-perm e t.address_manager (map-perm region d) w.0)),
        valid_os,
      ))

  -- `LazyMemoryAllocator` keeps the promises, and an empty batch is freed.
  lazy_memory_laws : AllocatorLaws (lazy_memory sl chunks)
  lazy_memory_laws = record {
    Live = Live;
    Live-perm = λ t p l. perm-Live t p l;
    allocate-Live = λ l n t w pos found. allocated-Live l n t _ _ _ w pos found;
    refuse-Live =
        λ l n t {os} w refused. subst (λ t. Live t os) (allocate_batch-none l n t _ refused) w;
    free-Live = λ t {os} o dead w. (_, refl, freed-Live t os (o ∷ dead) w);
    free_nothing-Live = λ t {os} w freed.
        subst (λ t. Live t os) (some-injective _ _ freed)
          (freed-Live t os [] (subst (Live t) (sym (append-nil os)) w));
  }

  mixed_free-cons :
      (o : TensorMemoryObj) (dead : List TensorMemoryObj) (t : TensorMemoryAllocator)
      → mixed_free sl chunks (o ∷ dead) t ≡ some (batched_free sl (o ∷ dead) t).1
  unfolding mixed_free
  mixed_free-cons o dead t = refl

  mixed_free-nil :
      (t : TensorMemoryAllocator) {t' : TensorMemoryAllocator}
      → ¬ (mixed_free sl chunks [] t ≡ some t')
  unfolding mixed_free
  mixed_free-nil t freed = ground (arith, freed)

  -- `MixedMemoryAllocator` keeps them too.
  pub mixed_memory_laws : AllocatorLaws (mixed_memory sl chunks)
  mixed_memory_laws = record {
    Live = Live;
    Live-perm = λ t p l. perm-Live t p l;
    allocate-Live = λ l n t w pos found. allocated-Live l n t _ _ _ w pos found;
    refuse-Live =
        λ l n t {os} w refused. subst (λ t. Live t os) (allocate_batch-none l n t _ refused) w;
    free-Live = λ t {os} o dead w. (_, mixed_free-cons o dead t, freed-Live t os (o ∷ dead) w);
    free_nothing-Live = λ t w freed. absurd (mixed_free-nil t freed);
  }

  -- A new allocator has handed out nothing.
  pub new-Live : (numel : ℕ) → 0 < numel → mixed_memory_laws.Live (new numel (2 ^ e)) []
  unfolding new mixed_memory_laws
  new-Live numel pos = ∣ (new-Ledger e numel pos, tt) ∣₁

  module _ {K : Type 0} (dec : Discrete K) (lis : Listener K) where
    -- Over a `LazyMemoryAllocator` no sequence of proper calls of the L1 manager raises.
    run_lazy-WellFormed :
        (cs : List (ℕ × Call K Layout)) (m : Manager dec (lazy_memory sl chunks) lis)
        → AllProper dec (lazy_memory sl chunks) lis cs
        → WellFormed dec (lazy_memory sl chunks) lis lazy_memory_laws m
        → (m' : Manager dec (lazy_memory sl chunks) lis) × (run dec (lazy_memory sl chunks) lis cs m
            ≡ some m')
          × WellFormed dec (lazy_memory sl chunks) lis lazy_memory_laws m'
    run_lazy-WellFormed cs m p wf =
        elim (run-WellFormed dec (lazy_memory sl chunks) lis lazy_memory_laws cs m p wf) [
          | inl returned ↦ returned
          | inr (_, at) ↦ absurd (ground (arith, at.raised))
        ]
