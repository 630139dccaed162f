-- ===== src/Distributed/L1Manager/Object.antt =====
-- The life of one object, as the methods of L1Manager move it: what a round of each loop does to
-- the entry of its key and reports on it. An entry is `none` while the key is not in the cache.
use serverless_lmcache.Common.{ℕ, Bool, not, ◌&&◌, ◌||◌, if◌then◌else◌, Option, none, some, arith}
use serverless_lmcache.Common.Dict.{get-insert, get-erase}
use serverless_lmcache.Distributed.Error.{
  L1Error, success, key_not_exist, key_not_readable, key_not_writable, key_in_wrong_state,
  key_is_locked,
}
use serverless_lmcache.Distributed.TtlLock.{is_locked, lock, unlock}
use serverless_lmcache.Distributed.L1Manager.{
  L1ObjectState, available_for_read, available_for_write, L1OperationResult,
}
use serverless_lmcache.Distributed.L1Manager.Read.{reserve_read_key, finish_read_key, leave_key}
use serverless_lmcache.Distributed.L1Manager.Write.{
  Mode, is_new, reserve_write_key, finish_write_key,
}
use serverless_lmcache.Distributed.L1Manager.Remove.{delete_key}
use serverless_lmcache.Distributed.L1Manager.Loops.{IsLocal}

abbrev pub Entry : Type 0 → Type 0
Entry M = Option (L1ObjectState M)

module _ {M : Type 0} (now : ℕ) where
  abbrev pub reserve_read_act : Entry M → Entry M
  reserve_read_act none = none
  reserve_read_act (some e) =
      if available_for_read now e
      then some (record e { read_lock = lock now e.read_lock })
      else some e

  abbrev pub reserve_read_reply : Entry M → L1OperationResult M
  reserve_read_reply none = (key_not_exist, none)
  reserve_read_reply (some e) =
      if available_for_read now e then (success, some e.memory_obj) else (key_not_readable, none)

  -- The last reader takes a temporary object away.
  abbrev pub finish_read_act : Entry M → Entry M
  finish_read_act none = none
  finish_read_act (some e) =
      if not (is_locked now e.write_lock) && is_locked now e.read_lock
      then (if e.is_temporary && not (is_locked now (unlock e.read_lock))
          then none
          else some (record e { read_lock = unlock e.read_lock }))
      else some e

  abbrev pub finish_read_reply : Entry M → L1Error
  finish_read_reply none = key_not_exist
  finish_read_reply (some e) =
      if not (is_locked now e.write_lock) && is_locked now e.read_lock
      then success
      else key_in_wrong_state

  abbrev pub reserve_write_act : Mode → Entry M → Entry M
  reserve_write_act mode none = none
  reserve_write_act mode (some e) =
      if not (is_new mode) && available_for_write now e
      then some (record e { write_lock = lock now e.write_lock })
      else some e

  abbrev pub reserve_write_reply :
      Mode → Entry M → Option (L1OperationResult M) → Option (L1OperationResult M)
  reserve_write_reply mode none r = r
  reserve_write_reply mode (some e) r = some (
      if not (is_new mode) && available_for_write now e
      then (success, some e.memory_obj)
      else (key_not_writable, none))

  abbrev pub finish_write_act : Entry M → Entry M
  finish_write_act none = none
  finish_write_act (some e) =
      if is_locked now e.write_lock && not (is_locked now e.read_lock)
      then some (record e { write_lock = unlock e.write_lock })
      else some e

  abbrev pub finish_write_reply : Entry M → L1Error
  finish_write_reply none = key_not_exist
  finish_write_reply (some e) =
      if is_locked now e.write_lock && not (is_locked now e.read_lock)
      then success
      else key_in_wrong_state

  abbrev pub delete_act : Entry M → Entry M
  delete_act none = none
  delete_act (some e) =
      if is_locked now e.read_lock || is_locked now e.write_lock then some e else none

  abbrev pub delete_reply : Entry M → L1Error
  delete_reply none = key_not_exist
  delete_reply (some e) =
      if is_locked now e.read_lock || is_locked now e.write_lock then key_is_locked else success

module _ {K M : Type 0} (dec : Discrete K) (now : ℕ) where
  pub reserve_read-IsLocal :
      IsLocal {M = M} dec
        (λ (k : K). k)
        (reserve_read_act now)
        (λ e _. some (reserve_read_reply now e))
        (reserve_read_key dec now)
  unfolding reserve_read_key
  reserve_read-IsLocal = record {
    objects = λ x j s. grind (arith, get-insert);
    ret = λ x j s. grind (arith, get-insert);
  }

  pub finish_read-IsLocal :
      IsLocal {M = M} dec
        (λ (k : K). k)
        (finish_read_act now)
        (λ e _. some (finish_read_reply now e))
        (finish_read_key dec now)
  unfolding finish_read_key leave_key
  finish_read-IsLocal = record {
    objects = λ x j s. grind (arith, get-insert, get-erase);
    ret = λ x j s. grind (arith, get-insert);
  }

  pub reserve_write-IsLocal :
      (mode : Mode)
      → IsLocal {M = M} dec
          (λ (p : K × Bool). p.0)
          (reserve_write_act now mode)
          (reserve_write_reply now mode)
          (reserve_write_key dec now mode)
  unfolding reserve_write_key
  reserve_write-IsLocal mode = record {
    objects = λ x j s. grind (arith, get-insert);
    ret = λ x j s. grind (arith, get-insert);
  }

  pub finish_write-IsLocal :
      IsLocal {M = M} dec
        (λ (k : K). k)
        (finish_write_act now)
        (λ e _. some (finish_write_reply now e))
        (finish_write_key dec now)
  unfolding finish_write_key
  finish_write-IsLocal = record {
    objects = λ x j s. grind (arith, get-insert);
    ret = λ x j s. grind (arith, get-insert);
  }

  pub delete-IsLocal :
      IsLocal {M = M} dec
        (λ (k : K). k)
        (delete_act now)
        (λ e _. some (delete_reply now e))
        (delete_key dec now)
  unfolding delete_key
  delete-IsLocal = record {
    objects = λ x j s. grind (arith, get-insert, get-erase);
    ret = λ x j s. grind (arith, get-insert);
  }
