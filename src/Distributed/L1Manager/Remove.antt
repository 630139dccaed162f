-- ===== src/Distributed/L1Manager/Remove.antt =====
-- `delete`, `clear`, `close` and `get_memory_usage` of L1Manager.
use serverless_lmcache.Common.{
  ℕ, ◌||◌, if◌then◌else◌, Option, none, some, List, [], ◌∷◌, ◌++◌, for_each,
}
use serverless_lmcache.Common.Dict.{Dict, get, insert, erase, keys}
use serverless_lmcache.Distributed.Error.{L1Error, success, key_not_exist, key_is_locked}
use serverless_lmcache.Distributed.TtlLock.{is_locked}
use serverless_lmcache.Distributed.MemoryManager.{Allocator, free}
use serverless_lmcache.Distributed.MemoryManager
use serverless_lmcache.Distributed.L1Manager.{
  L1ObjectState, L1Manager, Listener, keys_deleted_by_manager, Loop, start, refuse, notify_all,
}

module _ {K M : Type 0} (dec : Discrete K) (now : ℕ) where
  unfoldable pub delete_key : K → Loop K M L1Error → Loop K M L1Error
  delete_key key s = elim (get dec key s.objects) [
    | none ↦ refuse dec key key_not_exist s
    | some e ↦
        if is_locked now e.read_lock || is_locked now e.write_lock
        then refuse dec key key_is_locked s
        else record s {
          objects = erase dec key s.objects;
          ret = insert dec key success s.ret;
          successful_keys = s.successful_keys ++ (key ∷ []);
          need_to_free = s.need_to_free ++ (e.memory_obj ∷ []);
        }
  ]

module _ {K M : Type 0} where
  -- `[entry.memory_obj for entry in self._objects.values()]`
  abbrev pub memory_objs : Dict K (L1ObjectState M) → List M
  memory_objs [] = []
  memory_objs ((k, e) ∷ d) = e.memory_obj ∷ memory_objs d

module _ {K : Type 0} (dec : Discrete K) (a : Allocator) (lis : Listener K) where
  unfoldable pub delete :
      ℕ
      → List K
      → L1Manager K a.MemoryObj a.Heap lis.State
      → Option (L1Manager K a.MemoryObj a.Heap lis.State × Dict K L1Error)
  delete now ks m =
      let s = for_each (delete_key dec now) ks (start m.objects) in
      elim (free a s.need_to_free m.heap) [
        | none ↦ none
        | some h ↦ some (
          notify_all lis (keys_deleted_by_manager s.successful_keys ∷ [])
              (record m { objects = s.objects; heap = h }),
          s.ret,
        )
      ]

  unfoldable pub clear :
      L1Manager K a.MemoryObj a.Heap lis.State → Option (L1Manager K a.MemoryObj a.Heap lis.State)
  clear m = elim (free a (memory_objs m.objects) m.heap) [
    | none ↦ none
    | some h ↦ some (
        notify_all lis (keys_deleted_by_manager (keys m.objects) ∷ [])
          (record m { objects = []; heap = h }))
  ]

  -- The allocator's own `close` releases the buffer and is not modelled.
  unfoldable pub close :
      L1Manager K a.MemoryObj a.Heap lis.State → Option (L1Manager K a.MemoryObj a.Heap lis.State)
  close m = elim (free a (memory_objs m.objects) m.heap) [
    | none ↦ none
    | some h ↦ some (record m { objects = []; heap = h })
  ]

  unfoldable pub get_memory_usage : L1Manager K a.MemoryObj a.Heap lis.State → ℕ × ℕ
  get_memory_usage m = MemoryManager.get_memory_usage a m.heap
