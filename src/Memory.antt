-- ===== src/Memory.antt =====
-- The memory allocators (lmcache/v1/memory_management.py).
pub mod FreeBlock
pub mod AddressManager
pub mod MemoryObj
pub mod TensorAllocator
pub mod Layout
pub mod PagedAllocator
