-- ===== src/Distributed/L1Manager/Read.antt =====
-- `reserve_read`, `unsafe_read` and `finish_read` of L1Manager.
use serverless_lmcache.Common.{
  ℕ, not, ◌&&◌, if◌then◌else◌, Option, none, some, List, [], ◌∷◌, ◌++◌, for_each,
}
use serverless_lmcache.Common.Dict.{Dict, get, insert, erase}
use serverless_lmcache.Distributed.Error.{
  L1Error, success, key_not_exist, key_not_readable, key_in_wrong_state,
}
use serverless_lmcache.Distributed.TtlLock.{is_locked, lock, unlock}
use serverless_lmcache.Distributed.MemoryManager.{Allocator, free}
use serverless_lmcache.Distributed.L1Manager.{
  L1ObjectState, available_for_read, L1Manager, Listener, keys_reserved_read, keys_read_finished,
  keys_deleted_by_manager, Loop, L1OperationResult, start, refuse, accept, notify_all,
}

module _ {K M : Type 0} (dec : Discrete K) (now : ℕ) where
  unfoldable pub reserve_read_key :
      K → Loop K M (L1OperationResult M) → Loop K M (L1OperationResult M)
  reserve_read_key key s = elim (get dec key s.objects) [
    | none ↦ refuse dec key (key_not_exist, none) s
    | some e ↦
        if not (available_for_read now e)
        then refuse dec key (key_not_readable, none) s
        else accept dec key (record e { read_lock = lock now e.read_lock })
            (success, some e.memory_obj) s
  ]

  unfoldable pub unsafe_read_key :
      Dict K (L1ObjectState M) → K → Dict K (L1OperationResult M) → Dict K (L1OperationResult M)
  unsafe_read_key objects key ret = elim (get dec key objects) [
    | none ↦ insert dec key (key_not_exist, none) ret
    | some e ↦
        if not (is_locked now e.read_lock)
        then insert dec key (key_not_readable, none) ret
        else insert dec key (success, some e.memory_obj) ret
  ]

  -- The reader leaves; the last reader of a temporary object takes it out of the cache.
  unfoldable pub leave_key : K → L1ObjectState M → Loop K M L1Error → Loop K M L1Error
  leave_key key e s =
      let read_lock' = unlock e.read_lock in
      let s' = accept dec key (record e { read_lock = read_lock' }) success s in
      if e.is_temporary && not (is_locked now read_lock')
      then record s' {
        objects = erase dec key s'.objects;
        need_to_free = s.need_to_free ++ (e.memory_obj ∷ []);
        need_to_free_keys = s.need_to_free_keys ++ (key ∷ []);
      }
      else s'

  unfoldable pub finish_read_key : K → Loop K M L1Error → Loop K M L1Error
  finish_read_key key s = elim (get dec key s.objects) [
    | none ↦ refuse dec key key_not_exist s
    | some e ↦
        if is_locked now e.write_lock
        then refuse dec key key_in_wrong_state s
        else if not (is_locked now e.read_lock)
        then refuse dec key key_in_wrong_state s
        else leave_key key e s
  ]

module _ {K : Type 0} (dec : Discrete K) (a : Allocator) (lis : Listener K) (now : ℕ) where
  unfoldable pub reserve_read :
      List K
      → L1Manager K a.MemoryObj a.Heap lis.State
      → L1Manager K a.MemoryObj a.Heap lis.State × Dict K (L1OperationResult a.MemoryObj)
  reserve_read ks m =
      let s = for_each (reserve_read_key dec now) ks (start m.objects) in
      (
        notify_all lis (keys_reserved_read s.successful_keys ∷ [])
            (record m { objects = s.objects }),
        s.ret,
      )

  unfoldable pub unsafe_read :
      List K → L1Manager K a.MemoryObj a.Heap lis.State → Dict K (L1OperationResult a.MemoryObj)
  unsafe_read ks m = for_each (unsafe_read_key dec now m.objects) ks []

  unfoldable pub finish_read :
      List K
      → L1Manager K a.MemoryObj a.Heap lis.State
      → Option (L1Manager K a.MemoryObj a.Heap lis.State × Dict K L1Error)
  finish_read ks m =
      let s = for_each (finish_read_key dec now) ks (start m.objects) in
      elim (free a s.need_to_free m.heap) [
        | none ↦ none
        | some h ↦ some (
          notify_all lis
              (keys_read_finished s.successful_keys
                ∷ keys_deleted_by_manager s.need_to_free_keys
                ∷ [])
              (record m { objects = s.objects; heap = h }),
          s.ret,
        )
      ]
