-- ===== src/Tests/Mixed.antt =====
-- The L1 manager over a `MixedMemoryAllocator`, at a concrete one.
use serverless_lmcache.Common.{
  ℕ, ◌^◌, ◌≡◌, ◌⊎◌, refl, true, false, none, Option, Bool, some, List, [], ◌∷◌, arith, count,
  ℕ_discrete,
}
use serverless_lmcache.Common.Dict.{get, insert, erase}
use serverless_lmcache.Distributed.TtlLock.{lock, unlock, reset, is_locked}
use serverless_lmcache.Distributed.MemoryManager.{Allocator, AllocatorLaws, allocate, free}
use serverless_lmcache.Distributed.L1Manager.{L1Manager, notify_all}
use serverless_lmcache.Distributed.L1Manager.Write.{
  new, finish_write, finish_write_key, reserve_write, reserve_write_key, reserve_missing,
  reserve_new, install, install_key,
}
use serverless_lmcache.Distributed.L1Manager.Remove.{delete, delete_key, clear}
use serverless_lmcache.Distributed.L1Manager.History.{
  Call, finishes_write, deletes, reserves_write, clears, run, step,
}
use serverless_lmcache.Distributed.L1Manager.History.Account.{WellFormed}
use serverless_lmcache.Distributed.L1Manager.History.WellFormed.{RaisesAt, run-WellFormed}
use serverless_lmcache.Memory.MemoryObj.{TensorMemoryObj}
use serverless_lmcache.Memory.TensorAllocator.{
  TensorMemoryAllocator, new as new_allocator, memory_objs_from, memory_obj, sort_by_address,
  insert_by_address, blocks_of, coalesced, extend, free_block,
}
use serverless_lmcache.Memory.TensorAllocator
use serverless_lmcache.Memory.AddressManager
use serverless_lmcache.Memory.AddressManager.{
  find_fit, coalesce, compute_aligned_size, block_before, can_merge_with_prev, can_merge_with_succ,
  add_unless,
}
use serverless_lmcache.Distributed.TensorMemory.{
  Layout, mixed_memory, mixed_free, allocate_batch, mixed_memory_laws, new-Live,
}
use serverless_lmcache.Tests.Instances.{sorted_list, sorted_list_laws, lru}
use serverless_lmcache.Distributed.TtlLock
use serverless_lmcache.Memory.FreeBlock.{can_be_coalesced}

-- The L1 manager over a `MixedMemoryAllocator` of 64 bytes, aligned to 4.
abbrev mixed : Allocator
mixed = mixed_memory sorted_list (λ b n. n)

abbrev mixed_laws : AllocatorLaws mixed
mixed_laws = mixed_memory_laws sorted_list sorted_list_laws (λ b n. n) (λ b n p q. refl) 2

abbrev mixed_manager : L1Manager ℕ TensorMemoryObj TensorMemoryAllocator lru.State
mixed_manager = record {
  objects = [];
  heap = new_allocator 64 (2 ^ 2);
  write_ttl_seconds = 1;
  read_ttl_seconds = 1;
  registered_listeners = [];
}

abbrev calls : List (ℕ × Call ℕ Layout)
calls =
    (60, reserves_write (5 ∷ 6 ∷ []) (false ∷ true ∷ []) (7, omega arith) new)
    ∷ (70, finishes_write (5 ∷ 6 ∷ []))
    ∷ (80, deletes (5 ∷ []))
    ∷ (2000, clears)
    ∷ []

apart : count ℕ_discrete 5 (6 ∷ []) ≡ 0
unfolding ℕ_discrete
apart = refl

mixed_manager-WellFormed : WellFormed ℕ_discrete mixed lru mixed_laws mixed_manager
mixed_manager-WellFormed = record {
  unique = tt;
  live = new-Live sorted_list sorted_list_laws (λ b n. n) (λ b n p q. refl) 2 64 (omega arith);
}

abbrev returns : Option (L1Manager ℕ TensorMemoryObj TensorMemoryAllocator lru.State) → Bool
returns none = false
returns (some m) = true

-- A deletion that deletes nothing raises.
deletes_nothing :
    returns (run ℕ_discrete mixed lru ((80, deletes (9 ∷ [])) ∷ []) mixed_manager) ≡ false
unfolding run step delete delete_key notify_all get insert is_locked ℕ_discrete free mixed_free
deletes_nothing = refl

-- The calls run, and all memory is free again.
all_memory_free_again : run ℕ_discrete mixed lru calls mixed_manager ≡ some mixed_manager
unfolding run step reserve_write reserve_write_key reserve_missing reserve_new install install_key
    finish_write finish_write_key delete delete_key clear notify_all get insert erase is_locked lock
    unlock reset ℕ_discrete free allocate mixed_free allocate_batch new_allocator
    TensorAllocator.batched_allocate memory_objs_from memory_obj TensorAllocator.batched_free
    sort_by_address insert_by_address blocks_of coalesced extend free_block AddressManager.allocate
    AddressManager.free find_fit coalesce compute_aligned_size block_before can_merge_with_prev
    can_merge_with_succ add_unless AddressManager.new AddressManager.grow_before TtlLock.new
    can_be_coalesced
all_memory_free_again = refl

run-WellFormed_example :
    ((m' : L1Manager ℕ TensorMemoryObj TensorMemoryAllocator lru.State) × (run ℕ_discrete mixed lru
          calls mixed_manager
        ≡ some m')
      × WellFormed ℕ_discrete mixed lru mixed_laws m')
    ⊎ ((run ℕ_discrete mixed lru calls mixed_manager ≡ none)
        × RaisesAt ℕ_discrete mixed lru mixed_laws calls mixed_manager)
run-WellFormed_example =
    run-WellFormed ℕ_discrete mixed lru mixed_laws calls mixed_manager
      ((apart, (refl, tt)), (tt, (tt, (tt, tt)))) mixed_manager-WellFormed
