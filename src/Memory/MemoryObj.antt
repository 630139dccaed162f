-- ===== src/Memory/MemoryObj.antt =====
-- `TensorMemoryObj` of lmcache/v1/memory_management.py: its reference and pin counts and what frees
-- it. Each method runs under the object's lock; a result says whether the parent's `free` is called.
pub mod Release
use serverless_lmcache.Common.{ℕ, zero, suc, ◌+◌, ◌-◌, Bool, true, false, not, ◌&&◌, ◌==◌, ltb, leb}

-- The counts are numbers: both methods that lower a count set it to 0 where it would be negative.
pub record TensorMemoryObj : Type 0 where
  pub address : ℕ
  pub phy_size : ℕ
  pub ref_count : ℕ
  pub pin_count : ℕ
  pub valid : Bool

unfoldable pub invalidate : TensorMemoryObj → TensorMemoryObj
invalidate o = record o { valid = false }

unfoldable pub ref_count_up : TensorMemoryObj → TensorMemoryObj
ref_count_up o = record o { ref_count = o.ref_count + 1 }

-- For an object that has a parent allocator.
unfoldable pub ref_count_down : TensorMemoryObj → TensorMemoryObj × Bool
ref_count_down o =
    let ref_count = o.ref_count - 1 in
    (record o { ref_count = ref_count }, (ref_count == 0) && (o.pin_count == 0))

unfoldable pub pin : TensorMemoryObj → TensorMemoryObj
pin o = record o { pin_count = o.pin_count + 1 }

unfoldable pub unpin : TensorMemoryObj → TensorMemoryObj × Bool
unpin o =
    let pin_count = o.pin_count - 1 in
    (record o { pin_count = pin_count }, leb pin_count 0 && leb o.ref_count 0)

unfoldable pub is_pinned : TensorMemoryObj → Bool
is_pinned o = ltb 0 o.pin_count

unfoldable pub can_evict : TensorMemoryObj → Bool
can_evict o = not (is_pinned o) && (o.ref_count == 1)
