-- ===== src/Tests/Memory.antt =====
-- The theorems on the memory allocators at concrete managers.
use serverless_lmcache.Common.{
  ℕ, ◌+◌, ◌^◌, ◌≡◌, refl, inl, inr, true, none, some, [], ◌∷◌, arith, List,
}
use serverless_lmcache.Memory.FreeBlock.{FreeBlock}
use serverless_lmcache.Memory.AddressManager.{AddressManager, compute_aligned_size, find_fit}
use serverless_lmcache.Memory.AddressManager
use serverless_lmcache.Memory.AddressManager.Reference.{take_first, give_back}
use serverless_lmcache.Memory.AddressManager.Refines.{
  allocated, allocate-take_first, free-give_back,
}
use serverless_lmcache.Memory.AddressManager.Consistent.{
  Allocation, Consistent, allocate-Allocation, free-allocate, free-Consistent,
}
use serverless_lmcache.Memory.AddressManager.History.{
  Call, allocates, frees, grows, Book, Ledger, run,
}
use serverless_lmcache.Memory.AddressManager.History.Kept.{run-Ledger, new-Ledger}
use serverless_lmcache.Memory.MemoryObj.{TensorMemoryObj, can_evict, is_pinned}
use serverless_lmcache.Memory.TensorAllocator.{
  TensorMemoryAllocator, memory_obj, memory_objs_from, batched_allocate, batched_free,
}
use serverless_lmcache.Memory.TensorAllocator.Batches.{batched_free-batched_allocate}
use serverless_lmcache.Tests.Instances.{sorted_list, sorted_list_laws}

abbrev block : ℕ → ℕ → FreeBlock
block start size = record { start = start; size = size }

-- 64 bytes with an alignment of 4, of which 16 and 8 bytes are free.
abbrev manager : AddressManager
manager = record {
  size = 64;
  align = 4;
  explicit_list = block 8 16 ∷ block 40 8 ∷ [];
  total_allocated_size = 40;
}

manager-Consistent : Consistent manager
unfolding AddressManager.sum_sizes
manager-Consistent = record {
  gapped = (omega arith, omega arith, (omega arith, omega arith, tt));
  fits = (omega arith, (omega arith, tt));
  balanced = refl;
}

abbrev after : AddressManager
after = record manager { explicit_list = block 16 8 ∷ block 40 8 ∷ []; total_allocated_size = 48 }

gives_eight : AddressManager.allocate sorted_list 6 manager ≡ some ((8, 8), after)
unfolding AddressManager.allocate compute_aligned_size find_fit
gives_eight = refl

refused : AddressManager.allocate sorted_list 17 manager ≡ none
unfolding AddressManager.allocate compute_aligned_size find_fit
refused = refl

allocate-Allocation_example : Allocation manager (compute_aligned_size 4 6) 8 8 after
allocate-Allocation_example =
    allocate-Allocation sorted_list sorted_list_laws 6 manager after 8 8 manager-Consistent
      gives_eight

free-allocate_example : AddressManager.free sorted_list 8 8 after ≡ manager
free-allocate_example =
    free-allocate sorted_list sorted_list_laws 6 manager after 8 8 manager-Consistent (omega arith)
      gives_eight

-- Between the two free blocks, touching the first.
free-Consistent_example :
    Consistent (AddressManager.free sorted_list 24 8 manager)
    × (AddressManager.get_free_size (AddressManager.free sorted_list 24 8 manager)
        ≡ AddressManager.get_free_size manager + 8)
free-Consistent_example =
    free-Consistent sorted_list sorted_list_laws 24 8 manager manager-Consistent (omega arith)
      (omega arith) (omega arith) (inl (omega arith), (inr (omega arith), tt))

aligned_five : compute_aligned_size 4 5 ≡ 8
unfolding compute_aligned_size
aligned_five = refl

allocate-take_first_example :
    AddressManager.allocate sorted_list 6 manager
    ≡ allocated
        (compute_aligned_size 4 6)
        manager
        (take_first (compute_aligned_size 4 6) manager.explicit_list)
allocate-take_first_example =
    allocate-take_first sorted_list sorted_list_laws 6 manager manager-Consistent.gapped

free-give_back_example : AddressManager.free sorted_list 24 8 manager ≡ record manager {
  explicit_list = give_back (block 24 8) manager.explicit_list;
  total_allocated_size = 32;
}
free-give_back_example =
    free-give_back sorted_list sorted_list_laws 24 8 manager manager-Consistent.gapped (omega arith)
      (omega arith, (omega arith, tt))

-- An object with a pin and no reference.
abbrev pinned_obj : TensorMemoryObj
pinned_obj = record { address = 0; phy_size = 8; ref_count = 0; pin_count = 1; valid = true }

cached_obj-can_evict : can_evict (memory_obj 0 8) ≡ true
unfolding can_evict is_pinned memory_obj
cached_obj-can_evict = refl

-- `torch.chunk` as it does on whole chunks.
abbrev chunks : ℕ → ℕ → ℕ
chunks b n = n

abbrev allocator : TensorMemoryAllocator
allocator = record { address_manager = manager; num_active_allocations = 5 }

abbrev allocator_after : TensorMemoryAllocator
allocator_after = record {
  address_manager = record manager {
    explicit_list = block 20 4 ∷ block 40 8 ∷ [];
    total_allocated_size = 52;
  };
  num_active_allocations = 8;
}

three_objects :
    batched_allocate sorted_list chunks 3 3 allocator
    ≡ some (memory_obj 8 4 ∷ memory_obj 12 4 ∷ memory_obj 16 4 ∷ [], allocator_after)
unfolding batched_allocate AddressManager.allocate compute_aligned_size find_fit memory_objs_from
    memory_obj
three_objects = refl

batched_free-batched_allocate_example :
    (batched_free sorted_list
      (memory_obj 8 4 ∷ memory_obj 12 4 ∷ memory_obj 16 4 ∷ [])
      allocator_after).1
    ≡ allocator
batched_free-batched_allocate_example =
    batched_free-batched_allocate sorted_list sorted_list_laws chunks 2 3 3 allocator
      allocator_after (memory_obj 8 4 ∷ memory_obj 12 4 ∷ memory_obj 16 4 ∷ []) (λ b n p q. refl)
      refl manager-Consistent (omega arith) (omega arith) three_objects

-- Two regions of 64 bytes, of which the first is freed, and 9 bytes more.
abbrev calls : List Call
calls = allocates 6 ∷ allocates 5 ∷ frees 0 ∷ grows 9 ∷ []

abbrev fresh : Book
fresh = record { manager = AddressManager.new 64 (2 ^ 2); regions = [] }

run-Ledger_example :
    Ledger 2 (run sorted_list calls fresh).manager (run sorted_list calls fresh).regions
run-Ledger_example =
    run-Ledger sorted_list sorted_list_laws 2 calls fresh
      (omega arith, (omega arith, (tt, (omega arith, tt)))) (new-Ledger 2 64 (omega arith))
