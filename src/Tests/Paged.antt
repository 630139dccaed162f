-- ===== src/Tests/Paged.antt =====
-- The paged allocator on a buffer of three pages.
use serverless_lmcache.Common.{
  ℕ, ◌≡◌, refl, true, false, none, some, List, [], ◌∷◌, map, drop, arith, range_from,
}
use serverless_lmcache.Common.Int.{pos, negsuc, ◌+ℤ◌, ◌-ℤ◌}
use serverless_lmcache.Memory.Layout.{
  Size, kv_2ltd, numel, eq_size, eq_shapes, sum_bytes, get_size_bytes,
}
use serverless_lmcache.Memory.PagedAllocator.{
  PagedObj, PagedTensorMemoryAllocator, address_of, slice, page, all_free, new, prepare, restore,
  give_page, allocate, free, batched_free, batched_allocate, memcheck,
}
use serverless_lmcache.Memory.PagedAllocator.Batches.{with_free, batched_allocate-take}
use serverless_lmcache.Memory.PagedAllocator.Paging.{Paging}
use serverless_lmcache.Memory.PagedAllocator.History.{
  Reachable, started, stepped, allocated, freed, run-Paging,
}

-- A dtype is its item size.
abbrev itemsize : ℕ → ℕ
itemsize d = d

-- Pages of twelve bytes.
abbrev three_by_two : List Size
three_by_two = (3 ∷ 2 ∷ []) ∷ []

-- The layout of a last chunk.
abbrev one_by_two : List Size
one_by_two = (1 ∷ 2 ∷ []) ∷ []

abbrev two_bytes : List ℕ
two_bytes = 2 ∷ []

abbrev fresh : PagedTensorMemoryAllocator ℕ
fresh = all_free itemsize 36 12 three_by_two two_bytes kv_2ltd

new-fresh : new itemsize 36 three_by_two two_bytes kv_2ltd ≡ some fresh
unfolding new get_size_bytes sum_bytes numel
new-fresh = refl

not_a_multiple : new itemsize 35 three_by_two two_bytes kv_2ltd ≡ none
unfolding new get_size_bytes sum_bytes numel
not_a_multiple = refl

abbrev first : PagedObj ℕ
first =
    prepare itemsize fresh one_by_two two_bytes kv_2ltd
      (page itemsize three_by_two two_bytes kv_2ltd 12 0)

first_slice : first.raw_size ≡ 4
unfolding prepare page all_free eq_shapes eq_size slice sum_bytes numel
first_slice = refl

abbrev one_taken : PagedTensorMemoryAllocator ℕ
one_taken = record fresh {
  free_blocks = drop 1 fresh.free_blocks;
  num_active_allocations = pos 0 +ℤ pos 1;
  total_allocated_size = pos 0 +ℤ pos 12;
}

first_taken : allocate itemsize one_by_two two_bytes kv_2ltd fresh ≡ some (some first, one_taken)
unfolding allocate all_free range_from
first_taken = refl

one_taken_then_freed : Reachable itemsize fresh (free first one_taken, [])
one_taken_then_freed =
    stepped (stepped started (allocated one_by_two two_bytes kv_2ltd first first_taken))
      (freed [] first [])

run-Paging_example : Paging 3 (free first one_taken) [] × (memcheck (free first one_taken) ≡ true)
unfolding all_free
run-Paging_example =
    run-Paging itemsize 36 three_by_two two_bytes kv_2ltd new-fresh one_taken_then_freed

-- Four pages are too many: the three are back in their order.
batched_allocate-take_example :
    batched_allocate itemsize one_by_two two_bytes 4 kv_2ltd fresh
    ≡ some (
      none,
      with_free fresh (
          map
            (λ b. restore fresh (prepare itemsize fresh one_by_two two_bytes kv_2ltd b))
            fresh.free_blocks),
    )
unfolding all_free range_from page
batched_allocate-take_example =
    batched_allocate-take itemsize one_by_two two_bytes kv_2ltd 4 fresh refl (omega arith)
      (refl, (refl, (refl, tt)))

-- A second free of a held object puts its page into the queue twice: both next objects have it.
double_free : map address_of ((free first (free first one_taken)).free_blocks) ≡ 1 ∷ 2 ∷ 0 ∷ 0 ∷ []
unfolding free restore prepare page all_free range_from eq_shapes eq_size
double_free = refl

-- A batch that is freed counts the objects that are invalid too.
freed_invalid :
    (batched_free
      (record first { memory = record (first.memory) { valid = false } } ∷ [])
      true
      fresh).num_active_allocations
    ≡ negsuc 0
unfolding batched_free give_page prepare page all_free ◌-ℤ◌
freed_invalid = refl
