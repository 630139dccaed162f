-- ===== src/Memory/PagedAllocator.antt =====
-- `PagedTensorMemoryAllocator` of lmcache/v1/memory_management.py: a queue of memory objects of one
-- page each, which are made once and handed out again and again. The statistics monitor is left out.
pub mod Batches
pub mod Paging
pub mod Allocated
pub mod Freed
pub mod History
use serverless_lmcache.Common.{
  ℕ, zero, suc, ◌+◌, ◌*◌, ◌/◌, ◌%◌, Bool, true, false, ◌&&◌, ◌==◌, ltb, leb, if◌then◌else◌, Option,
  none, some, List, [], ◌∷◌, ◌++◌, map, length, for_each, range_from,
}
use serverless_lmcache.Common.Int.{ℤ, pos, negsuc, ◌+ℤ◌, ◌-ℤ◌, scale}
use serverless_lmcache.Memory.Layout.{MemoryFormat, Size, eq_shapes, get_size_bytes, sum_bytes}
use serverless_lmcache.Memory.MemoryObj.{TensorMemoryObj}

-- `raw_data` is the first `raw_size` bytes of page `raw_page`; `shape` and `dtype` are the first of
-- the lists.
pub record PagedObj (D : Type 0) : Type 0 where
  pub memory : TensorMemoryObj
  pub shapes : List Size
  pub dtypes : List D
  pub fmt : MemoryFormat
  pub raw_page : ℕ
  pub raw_size : ℕ

pub record PagedTensorMemoryAllocator (D : Type 0) : Type 0 where
  pub buffer_size : ℕ
  pub align_bytes : ℕ
  pub shapes : List Size
  pub dtypes : List D
  pub fmt : MemoryFormat
  pub free_blocks : List (PagedObj D)
  pub num_active_allocations : ℤ
  pub total_allocated_size : ℤ

abbrev pub address_of : {D : Type 0} → PagedObj D → ℕ
address_of o = o.memory.address

-- The smaller of two sizes: a slice of a tensor stops at its end.
unfoldable pub slice : ℕ → ℕ → ℕ
slice n size = if leb n size then n else size

module _ {D : Type 0} (itemsize : D → ℕ) where
  -- The object of one page, as the constructor makes it.
  unfoldable pub page : List Size → List D → MemoryFormat → ℕ → ℕ → PagedObj D
  page shapes dtypes fmt align_bytes idx = record {
    memory = record {
      address = idx;
      phy_size = align_bytes;
      ref_count = 1;
      pin_count = 0;
      valid = true;
    };
    shapes = shapes;
    dtypes = dtypes;
    fmt = fmt;
    raw_page = idx;
    raw_size = align_bytes;
  }

  -- Every page of the buffer is free.
  unfoldable pub all_free : ℕ → ℕ → List Size → List D → MemoryFormat → PagedTensorMemoryAllocator D
  all_free buffer_size align_bytes shapes dtypes fmt = record {
    buffer_size = buffer_size;
    align_bytes = align_bytes;
    shapes = shapes;
    dtypes = dtypes;
    fmt = fmt;
    free_blocks =
        map (page shapes dtypes fmt align_bytes) (range_from 0 (buffer_size / align_bytes));
    num_active_allocations = pos 0;
    total_allocated_size = pos 0;
  }

  -- The constructor, for a buffer of `buffer_size` bytes; `none` is an error: of an assertion, or of
  -- a division by zero. Of no shapes the size is zero.
  unfoldable pub new : ℕ → List Size → List D → MemoryFormat → Option (PagedTensorMemoryAllocator D)
  new buffer_size shapes dtypes fmt = elim (get_size_bytes itemsize shapes dtypes) [
    | none ↦ none
    | some zero ↦ none
    | some (suc b) ↦
        if buffer_size % suc b == 0
        then some (all_free buffer_size (suc b) shapes dtypes fmt)
        else none
  ]

  -- What both allocations do to a page that they take.
  unfoldable pub prepare :
      PagedTensorMemoryAllocator D → List Size → List D → MemoryFormat → PagedObj D → PagedObj D
  prepare t shapes dtypes fmt b = record {
    memory = record (b.memory) { ref_count = 1 };
    shapes = shapes;
    dtypes = dtypes;
    fmt = fmt;
    raw_page = b.raw_page;
    raw_size =
        if eq_shapes shapes t.shapes
        then b.raw_size
        else slice (sum_bytes itemsize shapes dtypes) b.raw_size;
  }

  -- `none` is an error: the assertion on the lengths, or the first of no shapes. Without a free page
  -- the call returns `none` inside.
  unfoldable pub allocate :
      List Size
      → List D
      → MemoryFormat
      → PagedTensorMemoryAllocator D
      → Option (Option (PagedObj D) × PagedTensorMemoryAllocator D)
  allocate shapes dtypes fmt t =
      if length shapes == length dtypes
      then elim t.free_blocks [
        | [] ↦ some (none, t)
        | free_block ∷ rest ↦
            if length shapes == 0
            then none
            else some (
              some (prepare t shapes dtypes fmt free_block),
              record t {
                free_blocks = rest;
                num_active_allocations = t.num_active_allocations +ℤ pos 1;
                total_allocated_size = t.total_allocated_size +ℤ pos (t.align_bytes);
              },
            )
      ]
      else none

-- The page of an object that goes back, whole again.
unfoldable pub restore : {D : Type 0} → PagedTensorMemoryAllocator D → PagedObj D → PagedObj D
restore t o =
    if eq_shapes o.shapes t.shapes
    then o
    else record o { raw_page = address_of o; raw_size = t.align_bytes }

unfoldable pub give_page :
    {D : Type 0} → PagedObj D → PagedTensorMemoryAllocator D → PagedTensorMemoryAllocator D
give_page o t = elim o.memory.valid [
  | false ↦ t
  | true ↦ record t { free_blocks = t.free_blocks ++ (restore t o ∷ []) }
]

unfoldable pub free :
    {D : Type 0} → PagedObj D → PagedTensorMemoryAllocator D → PagedTensorMemoryAllocator D
free o t = elim o.memory.valid [
  | false ↦ t
  | true ↦ record t {
    free_blocks = t.free_blocks ++ (restore t o ∷ []);
    total_allocated_size = t.total_allocated_size -ℤ pos (t.align_bytes);
    num_active_allocations = t.num_active_allocations -ℤ pos 1;
  }
]

unfoldable pub batched_free :
    {D : Type 0}
    → List (PagedObj D)
    → Bool
    → PagedTensorMemoryAllocator D
    → PagedTensorMemoryAllocator D
batched_free memory_objs update_stats t =
    let t' = for_each give_page memory_objs t in
    if update_stats
    then record t' {
      total_allocated_size = t'.total_allocated_size -ℤ pos (t'.align_bytes * length memory_objs);
      num_active_allocations = t'.num_active_allocations -ℤ pos (length memory_objs);
    }
    else t'

module _ {D : Type 0} (itemsize : D → ℕ) where
  -- The loop of `batched_allocate`, for `n` more pages.
  unfoldable pub take_pages :
      List Size
      → List D
      → MemoryFormat
      → ℕ
      → List (PagedObj D)
      → PagedTensorMemoryAllocator D
      → Option (List (PagedObj D)) × PagedTensorMemoryAllocator D
  take_pages shapes dtypes fmt zero allocated_blocks t = (some allocated_blocks, t)
  take_pages shapes dtypes fmt (suc n) allocated_blocks t = elim t.free_blocks [
    | [] ↦ (none, batched_free allocated_blocks false t)
    | free_block ∷ rest ↦
        take_pages shapes dtypes fmt n
          (allocated_blocks ++ (prepare itemsize t shapes dtypes fmt free_block ∷ []))
          (record t { free_blocks = rest })
  ]

  -- After the loop.
  unfoldable pub count_batch :
      ℕ
      → Option (List (PagedObj D)) × PagedTensorMemoryAllocator D
      → Option (List (PagedObj D)) × PagedTensorMemoryAllocator D
  count_batch batch_size (none, t) = (none, t)
  count_batch batch_size (some allocated_blocks, t) =
      let num_active_allocations = t.num_active_allocations +ℤ pos batch_size in
      (
        some allocated_blocks,
        record t {
          num_active_allocations = num_active_allocations;
          total_allocated_size = scale num_active_allocations t.align_bytes;
        },
      )

  -- The first page that is taken asks for the first shape: without shapes that is an error.
  unfoldable pub batched_allocate :
      List Size
      → List D
      → ℕ
      → MemoryFormat
      → PagedTensorMemoryAllocator D
      → Option (Option (List (PagedObj D)) × PagedTensorMemoryAllocator D)
  batched_allocate shapes dtypes batch_size fmt t =
      if length shapes == length dtypes
      then (if (length shapes == 0) && (ltb 0 batch_size && ltb 0 (length t.free_blocks))
          then none
          else some (count_batch batch_size (take_pages shapes dtypes fmt batch_size [] t)))
      else none

-- `z == n`
unfoldable pub eq_ℤ : ℤ → ℕ → Bool
eq_ℤ (pos m) n = m == n
eq_ℤ (negsuc m) n = false

-- Whether the free and the allocated sizes make up the buffer.
unfoldable pub memcheck : {D : Type 0} → PagedTensorMemoryAllocator D → Bool
memcheck t =
    eq_ℤ (pos (length t.free_blocks * t.align_bytes) +ℤ t.total_allocated_size) t.buffer_size
