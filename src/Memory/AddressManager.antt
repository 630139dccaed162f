-- ===== src/Memory/AddressManager.antt =====
-- `AddressManager` of lmcache/v1/memory_management.py: first-fit allocation in a growing address
-- space, with the free blocks in order and coalesced. Each method runs under the manager's lock.
pub mod Reference
pub mod Placing
pub mod Refines
pub mod Regions
pub mod Consistent
pub mod Aligned
pub mod Ledger
pub mod History
use Prim.Native.Nat.{bit_and}
use serverless_lmcache.Common.{
  ℕ, zero, suc, ◌+◌, ◌-◌, Bool, true, false, ◌&&◌, ◌||◌, not, ◌==◌, ltb, leb, if◌then◌else◌, Option,
  none, some, List, [], ◌∷◌, get_elem?, set, length,
}
use serverless_lmcache.Memory.FreeBlock.{FreeBlock, can_be_coalesced, SortedList}

-- The amount allocated is a number: it would fall below zero only where a region is freed that
-- was not allocated, which the class rules out.
pub record AddressManager : Type 0 where
  pub size : ℕ
  pub align : ℕ
  pub explicit_list : List FreeBlock
  pub total_allocated_size : ℕ

-- `(raw_size + align - 1) & ~(align - 1)`; `x & ~m` is `x - (x & m)`.
unfoldable pub compute_aligned_size : ℕ → ℕ → ℕ
compute_aligned_size align raw_size = let x = raw_size + align - 1 in x - bit_and x (align - 1)

-- The loop of `allocate`: the first block that is large enough.
unfoldable pub find_fit : ℕ → List FreeBlock → Option FreeBlock
find_fit aligned_size [] = none
find_fit aligned_size (block ∷ l) =
    if leb aligned_size block.size then some block else find_fit aligned_size l

-- Whether a block may be joined with a neighbour that is perhaps missing.
unfoldable pub can_merge_with_prev : FreeBlock → Option FreeBlock → Bool
can_merge_with_prev curr none = false
can_merge_with_prev curr (some prev) = can_be_coalesced prev curr

unfoldable pub can_merge_with_succ : FreeBlock → Option FreeBlock → Bool
can_merge_with_succ curr none = false
can_merge_with_succ curr (some succ) = can_be_coalesced curr succ

-- `blocks[index - 1] if index > 0 else None`
unfoldable pub block_before : ℕ → List FreeBlock → Option FreeBlock
block_before zero l = none
block_before (suc i) l = get_elem? l i

-- `prev_block.size += by`, which the list sees, for the block before an index.
unfoldable pub grow_before : ℕ → ℕ → List FreeBlock → List FreeBlock
grow_before zero by l = l
grow_before (suc i) by l = elim (get_elem? l i) [
  | none ↦ l
  | some prev ↦ set l i (record prev { size = prev.size + by })
]

unfoldable pub check_coalesced : List FreeBlock → Bool
check_coalesced [] = true
check_coalesced (b ∷ []) = true
check_coalesced (b ∷ c ∷ l) = not (can_be_coalesced b c) && check_coalesced (c ∷ l)

unfoldable pub sum_sizes : List FreeBlock → ℕ
sum_sizes [] = 0
sum_sizes (b ∷ l) = b.size + sum_sizes l

-- The constructor.
unfoldable pub new : ℕ → ℕ → AddressManager
new size align_bytes = record {
  size = size;
  align = align_bytes;
  explicit_list = record { start = 0; size = size } ∷ [];
  total_allocated_size = 0;
}

unfoldable pub get_heap_size : AddressManager → ℕ
get_heap_size m = m.size

unfoldable pub get_free_size : AddressManager → ℕ
get_free_size m = m.size - m.total_allocated_size

unfoldable pub check_consistency : AddressManager → Bool
check_consistency m =
    check_coalesced m.explicit_list
    && (sum_sizes m.explicit_list + m.total_allocated_size == m.size)

module _ (sl : SortedList) where
  -- The block before `index` and `succ` are the neighbours of `curr`. The result says whether
  -- `curr` was joined with one of them.
  unfoldable pub coalesce :
      FreeBlock → ℕ → Option FreeBlock → List FreeBlock → List FreeBlock × Bool
  coalesce curr index none l =
      if can_merge_with_prev curr (block_before index l)
      then (grow_before index curr.size l, true)
      else (l, false)
  coalesce curr index (some succ) l =
      if can_merge_with_prev curr (block_before index l)
      then (if can_merge_with_succ curr (some succ)
          then (sl.remove succ (grow_before index (curr.size + succ.size) l), true)
          else (grow_before index curr.size l, true))
      else if can_merge_with_succ curr (some succ)
      then (
        sl.add (record { start = succ.start - curr.size; size = succ.size + curr.size })
            (sl.remove succ l),
        true,
      )
      else (l, false)

  -- `if not coalesced: self._explicit_list.add(new_block)`
  unfoldable pub add_unless : FreeBlock → List FreeBlock × Bool → List FreeBlock
  add_unless block (l, coalesced) = if coalesced then l else sl.add block l

  -- `none` is the RuntimeError.
  unfoldable pub allocate : ℕ → AddressManager → Option ((ℕ × ℕ) × AddressManager)
  allocate size m =
      let aligned_size = compute_aligned_size m.align size in
      elim (find_fit aligned_size m.explicit_list) [
        | none ↦ none
        | some block ↦
            let rest = sl.remove block m.explicit_list in
            some (
              (block.start, aligned_size),
              record m {
                explicit_list =
                    if ltb aligned_size block.size
                    then sl.add
                        (record {
                          start = block.start + aligned_size;
                          size = block.size - aligned_size;
                        })
                        rest
                    else rest;
                total_allocated_size = m.total_allocated_size + aligned_size;
              },
            )
      ]

  unfoldable pub free : ℕ → ℕ → AddressManager → AddressManager
  free address size m =
      let new_free_block : FreeBlock = record { start = address; size = size } in
      let index = sl.bisect_left new_free_block m.explicit_list in
      record m {
        explicit_list =
            add_unless new_free_block
              (coalesce new_free_block index (get_elem? m.explicit_list index) m.explicit_list);
        total_allocated_size = m.total_allocated_size - size;
      }

  unfoldable pub sbrk : ℕ → AddressManager → AddressManager
  sbrk size m =
      let size = compute_aligned_size m.align size in
      let new_block : FreeBlock = record { start = m.size; size = size } in
      record m {
        explicit_list =
            add_unless new_block (coalesce new_block (length m.explicit_list) none m.explicit_list);
        size = m.size + size;
      }
