-- ===== src/StorageBackend.antt =====
-- The storage backends (lmcache/v1/storage_backend).
pub mod Policy
pub mod MessageSender
pub mod TensorMemory
pub mod LocalCpu
pub mod ControllerView
