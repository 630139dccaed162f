-- ===== src/Distributed/L1Manager/Write.antt =====
-- `reserve_write` and `finish_write` of L1Manager.
use serverless_lmcache.Common.{
  ℕ, Bool, false, true, not, if◌then◌else◌, Option, none, some, List, [], ◌∷◌, ◌++◌, for_each,
  length, zip,
}
use serverless_lmcache.Common.Dict.{Dict, get}
use serverless_lmcache.Distributed.Error.{
  L1Error, success, key_not_exist, key_not_writable, key_in_wrong_state, out_of_memory,
}
use serverless_lmcache.Distributed.TtlLock
use serverless_lmcache.Distributed.TtlLock.{is_locked, lock, unlock}
use serverless_lmcache.Distributed.MemoryManager.{Allocator, allocate, free}
use serverless_lmcache.Distributed.L1Manager.{
  available_for_write, L1Manager, Listener, keys_reserved_write, keys_write_finished, Loop,
  L1OperationResult, start, refuse, accept, notify_all,
}

-- The reservation modes "new", "update" and "all".
pub data Mode : Type 0 where
  new update all : Mode

abbrev pub is_new : Mode → Bool
is_new new = true
is_new _ = false

module _ {K M : Type 0} (dec : Discrete K) (now : ℕ) where
  -- The first loop of `reserve_write`: existing objects are locked, missing ones are noted.
  unfoldable pub reserve_write_key :
      Mode → K × Bool → Loop K M (L1OperationResult M) → Loop K M (L1OperationResult M)
  reserve_write_key mode (key, is_temp) s = elim (get dec key s.objects) [
    | none ↦ record s { need_to_allocate = s.need_to_allocate ++ ((key, is_temp) ∷ []) }
    | some e ↦
        if is_new mode
        then refuse dec key (key_not_writable, none) s
        else if not (available_for_write now e)
        then refuse dec key (key_not_writable, none) s
        else accept dec key (record e { write_lock = lock now e.write_lock })
            (success, some e.memory_obj) s
  ]

  -- `for key, _ in need_to_allocate: ret[key] = (err, None)`
  unfoldable pub refuse_all :
      L1Error → List (K × Bool) → Loop K M (L1OperationResult M) → Loop K M (L1OperationResult M)
  refuse_all err = for_each (λ p. refuse dec p.0 (err, none))

  -- One round of the loop over the new objects.
  unfoldable pub install_key :
      ℕ → ℕ → (K × Bool) × M → Loop K M (L1OperationResult M) → Loop K M (L1OperationResult M)
  install_key write_ttl read_ttl (p, mem_obj) =
      accept dec p.0
        (record {
          memory_obj = mem_obj;
          write_lock = lock now (TtlLock.new write_ttl);
          read_lock = TtlLock.new read_ttl;
          is_temporary = p.1;
        })
        (success, some mem_obj)

  unfoldable pub finish_write_key : K → Loop K M L1Error → Loop K M L1Error
  finish_write_key key s = elim (get dec key s.objects) [
    | none ↦ refuse dec key key_not_exist s
    | some e ↦
        if not (is_locked now e.write_lock)
        then refuse dec key key_in_wrong_state s
        else if is_locked now e.read_lock
        then refuse dec key key_in_wrong_state s
        else accept dec key (record e { write_lock = unlock e.write_lock }) success s
  ]

module _ {K : Type 0} (dec : Discrete K) (a : Allocator) (lis : Listener K) (now : ℕ) where
  -- `if allocated_objs: self._memory_manager.free(allocated_objs)`
  unfoldable pub free_partial : List a.MemoryObj → a.Heap → Option a.Heap
  free_partial [] h = some h
  free_partial (o ∷ os) h = free a (o ∷ os) h

  -- What follows the allocation, up to the calls of the listeners.
  unfoldable pub install :
      L1Manager K a.MemoryObj a.Heap lis.State
      → Loop K a.MemoryObj (L1OperationResult a.MemoryObj)
      → L1Error × List a.MemoryObj × a.Heap
      → Option (Loop K a.MemoryObj (L1OperationResult a.MemoryObj) × a.Heap)
  install m s (success, allocated_objs, h) = some (
    for_each (install_key dec now m.write_ttl_seconds m.read_ttl_seconds)
        (zip s.need_to_allocate allocated_objs) s,
    h,
  )
  install m s (err, allocated_objs, h) = elim (free_partial allocated_objs h) [
    | none ↦ none
    | some h' ↦ some (refuse_all dec now out_of_memory s.need_to_allocate s, h')
  ]

  -- The part after the early returns.
  unfoldable pub reserve_new :
      a.Layout
      → L1Manager K a.MemoryObj a.Heap lis.State
      → Loop K a.MemoryObj (L1OperationResult a.MemoryObj)
      → Option (L1Manager K a.MemoryObj a.Heap lis.State × Dict K (L1OperationResult a.MemoryObj))
  reserve_new layout_desc m s =
      elim (install m s (allocate a layout_desc (length s.need_to_allocate) m.heap)) [
        | none ↦ none
        | some (s', h) ↦ some (
          notify_all lis (keys_reserved_write s'.successful_keys ∷ [])
              (record m { objects = s'.objects; heap = h }),
          s'.ret,
        )
      ]

  -- The early returns: nothing to allocate, or mode "update". The listeners are not called there.
  unfoldable pub reserve_missing :
      Mode
      → a.Layout
      → L1Manager K a.MemoryObj a.Heap lis.State
      → List (K × Bool)
      → Loop K a.MemoryObj (L1OperationResult a.MemoryObj)
      → Option (L1Manager K a.MemoryObj a.Heap lis.State × Dict K (L1OperationResult a.MemoryObj))
  reserve_missing mode layout_desc m [] s = some (record m { objects = s.objects }, s.ret)
  reserve_missing update layout_desc m (p ∷ ps) s =
      some (record m { objects = s.objects }, (refuse_all dec now key_not_writable (p ∷ ps) s).ret)
  reserve_missing mode layout_desc m (p ∷ ps) s = reserve_new layout_desc m s

  unfoldable pub reserve_write :
      List K
      → List Bool
      → a.Layout
      → Mode
      → L1Manager K a.MemoryObj a.Heap lis.State
      → Option (L1Manager K a.MemoryObj a.Heap lis.State × Dict K (L1OperationResult a.MemoryObj))
  reserve_write ks is_temporary layout_desc mode m =
      let s = for_each (reserve_write_key dec now mode) (zip ks is_temporary) (start m.objects) in
      reserve_missing mode layout_desc m s.need_to_allocate s

  unfoldable pub finish_write :
      List K
      → L1Manager K a.MemoryObj a.Heap lis.State
      → L1Manager K a.MemoryObj a.Heap lis.State × Dict K L1Error
  finish_write ks m =
      let s = for_each (finish_write_key dec now) ks (start m.objects) in
      (
        notify_all lis (keys_write_finished s.successful_keys ∷ [])
            (record m { objects = s.objects }),
        s.ret,
      )
