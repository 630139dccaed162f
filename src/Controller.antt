-- ===== src/Controller.antt =====
-- The cache controller (cache_controller/): which instance and worker holds which chunk.
pub mod Worker
pub mod Instance
pub mod Registry
pub mod FullSync
pub mod KvController
