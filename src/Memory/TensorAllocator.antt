-- ===== src/Memory/TensorAllocator.antt =====
-- `TensorMemoryAllocator` of lmcache/v1/memory_management.py: memory objects of one buffer, whose
-- addresses an address manager gives out. The buffer's bytes and the statistics are left out.
pub mod Batches
pub mod Shares
use serverless_lmcache.Common.{
  ℕ, zero, suc, ◌+◌, ◌-◌, ◌*◌, Bool, true, false, ◌==◌, leb, if◌then◌else◌, Option, none, some,
  List, [], ◌∷◌, ◌++◌, map, for_each,
}
use serverless_lmcache.Memory.FreeBlock.{SortedList}
use serverless_lmcache.Memory.AddressManager.{AddressManager, compute_aligned_size}
use serverless_lmcache.Memory.AddressManager
use serverless_lmcache.Memory.MemoryObj.{TensorMemoryObj, invalidate}

-- The count of active allocations is a number: it would be negative only where objects of another
-- allocator are freed.
pub record TensorMemoryAllocator : Type 0 where
  pub address_manager : AddressManager
  pub num_active_allocations : ℕ

-- The constructor, for a buffer of `numel` bytes.
unfoldable pub new : ℕ → ℕ → TensorMemoryAllocator
new numel align_bytes = record {
  address_manager = AddressManager.new numel align_bytes;
  num_active_allocations = 0;
}

-- A new object: one reference, no pin.
unfoldable pub memory_obj : ℕ → ℕ → TensorMemoryObj
memory_obj address phy_size = record {
  address = address;
  phy_size = phy_size;
  ref_count = 1;
  pin_count = 0;
  valid = true;
}

-- The loop of `batched_allocate` over the chunks of the buffer, of which there are `n`.
unfoldable pub memory_objs_from : ℕ → ℕ → ℕ → List TensorMemoryObj
memory_objs_from unit_aligned_size temp_start zero = []
memory_objs_from unit_aligned_size temp_start (suc n) =
    memory_obj temp_start unit_aligned_size
    ∷ memory_objs_from unit_aligned_size (temp_start + unit_aligned_size) n

-- `memory_objs.sort(key=lambda x: x.meta.address)`, a stable sort.
unfoldable pub insert_by_address : TensorMemoryObj → List TensorMemoryObj → List TensorMemoryObj
insert_by_address x [] = x ∷ []
insert_by_address x (y ∷ l) =
    if leb x.address y.address then x ∷ y ∷ l else y ∷ insert_by_address x l

unfoldable pub sort_by_address : List TensorMemoryObj → List TensorMemoryObj
sort_by_address [] = []
sort_by_address (x ∷ l) = insert_by_address x (sort_by_address l)

-- Addresses, sizes and counts of the blocks found so far, and the block that is being extended:
-- `curr_start`, `curr_size` and `curr_count`.
pub record Coalescing : Type 0 where
  pub coalesced_blocks : List (ℕ × ℕ × ℕ)
  pub curr : Option (ℕ × ℕ × ℕ)

unfoldable pub extend : TensorMemoryObj → Coalescing → Coalescing
extend o c = elim o.valid [
  | false ↦ c
  | true ↦ elim c.curr [
    | none ↦ record c { curr = some (o.address, o.phy_size, 1) }
    | some (start, size, count) ↦
        if start + size == o.address
        then record c { curr = some (start, size + o.phy_size, count + 1) }
        else record {
          coalesced_blocks = c.coalesced_blocks ++ ((start, size, count) ∷ []);
          curr = some (o.address, o.phy_size, 1);
        }
  ]
]

unfoldable pub coalesced : Coalescing → List (ℕ × ℕ × ℕ)
coalesced c = elim c.curr [
  | none ↦ c.coalesced_blocks
  | some block ↦ c.coalesced_blocks ++ (block ∷ [])
]

-- The blocks to free for the memory objects in order.
unfoldable pub blocks_of : List TensorMemoryObj → List (ℕ × ℕ × ℕ)
blocks_of memory_objs =
    coalesced (for_each extend memory_objs (record { coalesced_blocks = []; curr = none }))

module _ (sl : SortedList) where
  unfoldable pub allocate :
      ℕ → TensorMemoryAllocator → Option (TensorMemoryObj × TensorMemoryAllocator)
  allocate raw_size t = elim (AddressManager.allocate sl raw_size t.address_manager) [
    | none ↦ none
    | some ((block_start, aligned_size), m) ↦ some (
      memory_obj block_start aligned_size,
      record { address_manager = m; num_active_allocations = t.num_active_allocations + 1 },
    )
  ]

  unfoldable pub free :
      TensorMemoryObj → TensorMemoryAllocator → TensorMemoryObj × TensorMemoryAllocator
  free o t = elim o.valid [
    | false ↦ (o, t)
    | true ↦ (
      invalidate o,
      record {
        address_manager = AddressManager.free sl o.address o.phy_size t.address_manager;
        num_active_allocations = t.num_active_allocations - 1;
      },
    )
  ]

  -- `chunks b n` is the number of chunks that `torch.chunk` makes of `b` bytes for `n`.
  unfoldable pub batched_allocate :
      (ℕ → ℕ → ℕ)
      → ℕ
      → ℕ
      → TensorMemoryAllocator
      → Option (List TensorMemoryObj × TensorMemoryAllocator)
  batched_allocate chunks unit_raw_size batch_size t =
      let unit_aligned_size = compute_aligned_size t.address_manager.align unit_raw_size in
      let total_aligned_size = unit_aligned_size * batch_size in
      elim (AddressManager.allocate sl total_aligned_size t.address_manager) [
        | none ↦ none
        | some ((block_start, _), m) ↦ some (
          memory_objs_from unit_aligned_size block_start (chunks total_aligned_size batch_size),
          record {
            address_manager = m;
            num_active_allocations = t.num_active_allocations + batch_size;
          },
        )
      ]

  -- The loop that frees the blocks.
  unfoldable pub free_block : ℕ × ℕ × ℕ → TensorMemoryAllocator → TensorMemoryAllocator
  free_block (address, size, count) t = record {
    address_manager = AddressManager.free sl address size t.address_manager;
    num_active_allocations = t.num_active_allocations - count;
  }

  -- The caller's list is sorted in place and its objects become invalid.
  unfoldable pub batched_free :
      List TensorMemoryObj → TensorMemoryAllocator → List TensorMemoryObj × TensorMemoryAllocator
  batched_free memory_objs t =
      let sorted = sort_by_address memory_objs in
      (map invalidate sorted, for_each free_block (blocks_of sorted) t)
