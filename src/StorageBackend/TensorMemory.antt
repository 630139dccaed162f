-- ===== src/StorageBackend/TensorMemory.antt =====
-- `TensorMemoryAllocator` as the allocator of the backend; a layout is its size in bytes.
use serverless_lmcache.Common.{ℕ, ◌≡◌, inl, inr, Option-cases, true, some, arith}
use serverless_lmcache.Memory.FreeBlock.{SortedList}
use serverless_lmcache.Memory.MemoryObj.{TensorMemoryObj, invalidate}
use serverless_lmcache.Memory.AddressManager
use serverless_lmcache.Memory.TensorAllocator.{TensorMemoryAllocator, memory_obj}
use serverless_lmcache.Memory.TensorAllocator
use serverless_lmcache.StorageBackend.Policy.{ObjectAllocator, ObjectAllocatorLaws}

module _ (sl : SortedList) where
  abbrev pub tensor_memory : ObjectAllocator
  tensor_memory = record {
    Heap = TensorMemoryAllocator;
    Layout = ℕ;
    allocate = λ raw_size fmt t. TensorAllocator.allocate sl raw_size t;
    free = TensorAllocator.free sl;
  }

  allocate-new :
      (raw_size : ℕ) (t : TensorMemoryAllocator) {o : TensorMemoryObj} {t' : TensorMemoryAllocator}
      → TensorAllocator.allocate sl raw_size t ≡ some (o, t')
      → (o.ref_count ≡ 1) × (o.pin_count ≡ 0) × (o.valid ≡ true)
  unfolding TensorAllocator.allocate memory_obj
  allocate-new raw_size t e =
      elim (Option-cases (AddressManager.allocate sl raw_size t.address_manager)) [
        | inl refused ↦ absurd (ground (arith, refused, e))
        | inr (((start, size), m), found) ↦ ground (arith, found, e)
      ]

  free-counts :
      (o : TensorMemoryObj) (t : TensorMemoryAllocator)
      → ((TensorAllocator.free sl o t).0.ref_count ≡ o.ref_count)
        × ((TensorAllocator.free sl o t).0.pin_count ≡ o.pin_count)
  unfolding TensorAllocator.free invalidate
  free-counts o t = ground arith

  pub tensor_memory_laws : ObjectAllocatorLaws tensor_memory
  tensor_memory_laws = record {
    allocated = λ l fmt h e. allocate-new l h e;
    freed = λ o h. free-counts o h;
  }
