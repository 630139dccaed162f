-- ===== src/Memory/MemoryObj/Release.antt =====
-- When the counts of a memory object let it be freed.
use serverless_lmcache.Common.{ℕ, ◌+◌, ◌<◌, ◌≡◌, ◌↔◌, ◌⊎◌, Bool, true, false, arith}
use serverless_lmcache.Memory.MemoryObj.{
  TensorMemoryObj, ref_count_up, ref_count_down, pin, unpin, is_pinned, can_evict,
}

pub data Use : Type 0 where
  up down pinned unpinned : Use

-- One call on the object, and whether it frees it.
unfoldable pub step : Use → TensorMemoryObj → TensorMemoryObj × Bool
step up o = (ref_count_up o, false)
step down o = ref_count_down o
step pinned o = (pin o, false)
step unpinned o = unpin o

-- A call that gives back only what is held.
abbrev pub IsHeld : Use → TensorMemoryObj → Type 0
IsHeld up o = Unit
IsHeld down o = 0 < o.ref_count
IsHeld pinned o = Unit
IsHeld unpinned o = 0 < o.pin_count

abbrev pub holds : TensorMemoryObj → ℕ
holds o = o.ref_count + o.pin_count

-- On a memory object that something holds, a call that takes a reference or a pin, or gives back
-- one that is held, frees the object exactly if nothing holds it afterwards, and changes the
-- number of holds by one.
pub step_freed :
    (u : Use) (o : TensorMemoryObj)
    → 0 < holds o
    → IsHeld u o
    → (((step u o).1 ≡ true) ↔ (holds (step u o).0 ≡ 0))
      × ((holds (step u o).0 ≡ holds o + 1) ⊎ (holds (step u o).0 + 1 ≡ holds o))
unfolding step ref_count_up ref_count_down pin unpin
step_freed up o h k = ground arith
step_freed down o h k = ground arith
step_freed pinned o h k = ground arith
step_freed unpinned o h k = ground arith

-- A memory object that can be evicted has one hold, so that one `ref_count_down` frees it.
pub ref_count_down-can_evict :
    (o : TensorMemoryObj) → can_evict o ≡ true → (holds o ≡ 1) × ((ref_count_down o).1 ≡ true)
unfolding can_evict is_pinned ref_count_down
ref_count_down-can_evict o h = ground arith
