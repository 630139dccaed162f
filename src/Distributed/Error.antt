-- ===== src/Distributed/Error.antt =====
-- `L1Error` of lmcache/v1/distributed/error.py.
pub data L1Error : Type 0 where
  success key_not_exist key_not_readable key_not_writable : L1Error
  key_in_wrong_state key_is_locked out_of_memory : L1Error

pub L1Error-discrete : Discrete L1Error
L1Error-discrete = hlevel
