-- ===== src/Distributed.antt =====
-- The multi-tier storage manager (lmcache/v1/distributed and csrc/storage_manager).
pub mod TtlLock
pub mod Error
pub mod MemoryManager
pub mod TensorMemory
pub mod L1Manager
pub mod LruPolicy
pub mod EvictionController
pub mod StorageManager
pub mod Api
