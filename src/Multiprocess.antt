-- ===== src/Multiprocess.antt =====
-- The multiprocess cache server (multiprocess/): the hashes of chunks of tokens, and the sessions that
-- keep them.
pub mod TokenHasher
pub mod Session
