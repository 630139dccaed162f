-- ===== src/StorageBackend/LocalCpu.antt =====
-- `LocalCPUBackend` (lmcache/v1/storage_backend/local_cpu_backend.py). Memory objects are shared with
-- their other holders: `objects` maps a reference to its object. Each method runs under the backend's
-- lock; statistics and callbacks are left out.
pub mod Allocation
pub mod Attempts
pub mod Budget
pub mod Counting
pub mod Kept
pub mod Lookups
pub mod Allocated
pub mod History
pub mod Removal
pub mod Eviction
pub mod Exhausted
pub mod Spares
pub mod Messages
pub mod Told
use serverless_lmcache.Common.{
  ℕ, zero, suc, ◌+◌, ◌-◌, ◌*◌, ◌/◌, Bool, true, false, if◌then◌else◌, ite, Option, none, some, List,
  [], ◌∷◌, ◌++◌, zip, for_each, ℕ_discrete,
}
use mathlib.Core.List.{reverse}
use serverless_lmcache.Common.Dict.{Dict, get, insert, erase, keys}
use serverless_lmcache.Controller.Worker.{OpType, admit, evict}
use serverless_lmcache.Memory.Layout.{MemoryFormat, kv_2ltd, kv_t2d, kv_2td}
use serverless_lmcache.Memory.MemoryObj.{TensorMemoryObj}
use serverless_lmcache.Memory.MemoryObj
use serverless_lmcache.StorageBackend.Policy.{BaseCachePolicy, ObjectAllocator}

-- The settings that the methods read; `has_sender` says that there is a message sender.
pub record Config : Type 0 where
  pub use_hot : Bool
  pub layerwise : Bool
  pub enable_blending : Bool
  pub has_sender : Bool

-- `kv_ops` are the operations given to the message sender so far, with their keys.
pub record LocalCpuBackend (K P H : Type 0) : Type 0 where
  pub hot_cache : Dict K ℕ
  pub keys_in_request : List K
  pub cache_policy : P
  pub objects : ℕ → TensorMemoryObj
  pub next_ref : ℕ
  pub memory : H
  pub kv_ops : List (OpType × K)

module _ {K P H : Type 0} where
  unfoldable pub set_object : ℕ → TensorMemoryObj → LocalCpuBackend K P H → LocalCpuBackend K P H
  set_object r o s = record s { objects = λ j. ite (ℕ_discrete r j) o (s.objects j) }

  unfoldable pub object_up : ℕ → LocalCpuBackend K P H → LocalCpuBackend K P H
  object_up r s = set_object r (MemoryObj.ref_count_up (s.objects r)) s

  unfoldable pub object_pin : ℕ → LocalCpuBackend K P H → LocalCpuBackend K P H
  object_pin r s = set_object r (MemoryObj.pin (s.objects r)) s

module _ {K : Type 0} (dec : Discrete K) (cfg : Config) (p : BaseCachePolicy K ℕ)
    (a : ObjectAllocator) where
  abbrev pub Backend : Type 0
  Backend = LocalCpuBackend K p.Policy a.Heap

  -- A method that says whether the parent allocator frees the object.
  unfoldable pub freeing : ℕ → TensorMemoryObj × Bool → Backend → Backend
  freeing r (o, false) s = set_object r o s
  freeing r (o, true) s =
      let (o', memory) = a.free o s.memory in record (set_object r o' s) { memory = memory }

  unfoldable pub object_down : ℕ → Backend → Backend
  object_down r s = freeing r (MemoryObj.ref_count_down (s.objects r)) s

  unfoldable pub object_unpin : ℕ → Backend → Backend
  object_unpin r s = freeing r (MemoryObj.unpin (s.objects r)) s

  unfoldable pub add_kv_op : OpType → K → Backend → Backend
  add_kv_op op_type key s =
      if cfg.has_sender then record s { kv_ops = s.kv_ops ++ ((op_type, key) ∷ []) } else s

  -- The pin of a lookup, which remembers the key.
  unfoldable pub pin_in_request : K → ℕ → Backend → Backend
  pin_in_request key r s =
      let s' = object_pin r s in record s' { keys_in_request = s'.keys_in_request ++ (key ∷ []) }

  unfoldable pub contains : K → Bool → Backend → Bool × Backend
  contains key pin s = elim (get dec key s.hot_cache) [
    | none ↦ (false, s)
    | some r ↦ (true, if pin then pin_in_request key r s else s)
  ]

  -- One round of the loop of `touch_cache`; `none` is a KeyError.
  unfoldable pub touch_key : ℕ → K → Option Backend → Option Backend
  touch_key now key none = none
  touch_key now key (some s) = elim (p.update_on_hit now key s.cache_policy s.hot_cache) [
    | none ↦ none
    | some (policy, d) ↦ some (record s { cache_policy = policy; hot_cache = d })
  ]

  unfoldable pub touch_cache : ℕ → Backend → Option Backend
  touch_cache now s = elim (for_each (touch_key now) (reverse s.keys_in_request) (some s)) [
    | none ↦ none
    | some s' ↦ some (record s' { keys_in_request = [] })
  ]

  -- `submit_put_task` of a key that is not cached.
  unfoldable pub put_key : ℕ → K → ℕ → Backend → Backend
  put_key now key memory_obj s =
      let s1 = object_up memory_obj s in
      add_kv_op admit key (record s1 {
        hot_cache = insert dec key memory_obj s1.hot_cache;
        cache_policy = p.update_on_put now key s1.cache_policy;
      })

  unfoldable pub submit_put_task : ℕ → K → ℕ → Backend → Backend
  submit_put_task now key memory_obj s = elim (get dec key s.hot_cache) [
    | some _ ↦ s
    | none ↦ put_key now key memory_obj s
  ]

  unfoldable pub batched_submit_put_task : ℕ → List K → List ℕ → Backend → Backend
  batched_submit_put_task now ks memory_objs s =
      if cfg.use_hot then for_each (λ e. submit_put_task now e.0 e.1) (zip ks memory_objs) s else s

  unfoldable pub get_blocking : K → Backend → Option ℕ × Backend
  get_blocking key s = elim (get dec key s.hot_cache) [
    | none ↦ (none, s)
    | some r ↦ (some r, object_up r s)
  ]

  -- The loop, with the objects so far; without a result it raises, in the state that it has reached.
  unfoldable pub get_from : List K → List ℕ → Backend → Option (List ℕ) × Backend
  get_from [] mem_objs s = (some mem_objs, s)
  get_from (key ∷ ks) mem_objs s = elim (get dec key s.hot_cache) [
    | none ↦ (none, s)
    | some r ↦ get_from ks (mem_objs ++ (r ∷ [])) (object_up r s)
  ]

  unfoldable pub batched_get_non_blocking : List K → Backend → Option (List ℕ) × Backend
  batched_get_non_blocking ks s = get_from ks [] s

  unfoldable pub count_prefix : Bool → List K → ℕ → Backend → ℕ × Backend
  count_prefix pin [] num_hit_chunks s = (num_hit_chunks, s)
  count_prefix pin (key ∷ ks) num_hit_chunks s = elim (get dec key s.hot_cache) [
    | none ↦ (num_hit_chunks, s)
    | some r ↦ count_prefix pin ks (num_hit_chunks + 1) (if pin then pin_in_request key r s else s)
  ]

  unfoldable pub batched_async_contains : List K → Bool → Backend → ℕ × Backend
  batched_async_contains ks pin s = count_prefix pin ks 0 s

  unfoldable pub pin : K → Backend → Bool × Backend
  pin key s = elim (get dec key s.hot_cache) [ none ↦ (false, s) | some r ↦ (true, object_pin r s) ]

  unfoldable pub unpin : K → Backend → Bool × Backend
  unpin key s = elim (get dec key s.hot_cache) [
    | none ↦ (false, s)
    | some r ↦ (true, object_unpin r s)
  ]

  unfoldable pub forget : Bool → K → Backend → Backend
  forget false key s = s
  forget true key s = record s { cache_policy = p.update_on_force_evict key s.cache_policy }

  -- `remove` of a key that is cached.
  unfoldable pub drop_key : Bool → K → ℕ → Backend → Backend
  drop_key force key r s =
      add_kv_op evict key
        (forget force key (object_down r (record s { hot_cache = erase dec key s.hot_cache })))

  unfoldable pub remove : Bool → K → Backend → Bool × Backend
  remove force key s = elim (get dec key s.hot_cache) [
    | none ↦ (false, s)
    | some r ↦ (true, drop_key force key r s)
  ]

  -- `batched_remove` of abstract_backend.py; the number of removed objects is not read.
  unfoldable pub batched_remove : Bool → List K → Backend → Backend
  batched_remove force ks s = for_each (λ k s. (remove force k s).1) ks s

  unfoldable pub get_keys : Backend → List K
  get_keys s = keys s.hot_cache
