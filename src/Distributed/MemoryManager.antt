-- ===== src/Distributed/MemoryManager.antt =====
-- `L1MemoryManager` of lmcache/v1/distributed/memory_manager.py over an allocator, and what the
-- manager of the objects relies on. An operation of the allocator that raises gives `none`.
use serverless_lmcache.Common.{ℕ, ◌-◌, ◌<◌, ◌≡◌, Option, none, some, List, [], ◌∷◌, ◌++◌, length}
use serverless_lmcache.Distributed.Error.{L1Error, success, out_of_memory}
use mathlib.Core.List.{Perm}

-- The batched operations of `MemoryAllocatorInterface`, and the sizes of its address manager.
pub record Allocator : Type 1 where
  pub Heap : Type 0
  pub MemoryObj : Type 0
  pub Layout : Type 0
  pub batched_allocate : Layout → ℕ → Heap → Option (List MemoryObj) × Heap
  pub batched_free : List MemoryObj → Heap → Option Heap
  pub get_free_size : Heap → ℕ
  pub get_heap_size : Heap → ℕ

-- What an allocator promises, said by the list of the memory objects that are handed out. Freeing
-- some of them returns; freeing none of them may raise.
pub record AllocatorLaws (a : Allocator) : Type 1 where
  pub Live : a.Heap → List a.MemoryObj → Type 0
  pub Live-perm : (h : a.Heap) {os ps : List a.MemoryObj} → Perm os ps → Live h os → Live h ps
  pub allocate-Live :
      (l : a.Layout) (n : ℕ) (h : a.Heap) {os new : List a.MemoryObj} {h' : a.Heap}
      → Live h os
      → 0 < n
      → a.batched_allocate l n h ≡ (some new, h')
      → Live h' (os ++ new) × (length new ≡ n)
  pub refuse-Live :
      (l : a.Layout) (n : ℕ) (h : a.Heap) {os : List a.MemoryObj} {h' : a.Heap}
      → Live h os
      → a.batched_allocate l n h ≡ (none, h')
      → Live h' os
  pub free-Live :
      (h : a.Heap) {os : List a.MemoryObj} (o : a.MemoryObj) (dead : List a.MemoryObj)
      → Live h (os ++ (o ∷ dead))
      → (h' : a.Heap) × (a.batched_free (o ∷ dead) h ≡ some h') × Live h' os
  pub free_nothing-Live :
      (h : a.Heap) {os : List a.MemoryObj} {h' : a.Heap}
      → Live h os
      → a.batched_free [] h ≡ some h'
      → Live h' os

module _ (a : Allocator) where
  unfoldable pub allocate : a.Layout → ℕ → a.Heap → L1Error × List a.MemoryObj × a.Heap
  allocate layout_desc count h =
      let (objects, h') = a.batched_allocate layout_desc count h in
      elim objects [ none ↦ (out_of_memory, [], h') | some objects ↦ (success, objects, h') ]

  unfoldable pub free : List a.MemoryObj → a.Heap → Option a.Heap
  free mem_objs h = a.batched_free mem_objs h

  -- The used and the total size in bytes.
  unfoldable pub get_memory_usage : a.Heap → ℕ × ℕ
  get_memory_usage h = (a.get_heap_size h - a.get_free_size h, a.get_heap_size h)
