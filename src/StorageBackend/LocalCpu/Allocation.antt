-- ===== src/StorageBackend/LocalCpu/Allocation.antt =====
-- `allocate`, which evicts until there is memory, `clear` and the sizes of `LocalCPUBackend`
-- (lmcache/v1/storage_backend/local_cpu_backend.py).
use serverless_lmcache.Common.{
  ℕ, zero, suc, ◌+◌, ◌-◌, ◌*◌, ◌/◌, ◌^◌, Bool, true, false, if◌then◌else◌, Option, none, some, List,
  [], ◌∷◌, ◌++◌,
}
use serverless_lmcache.Common.Dict.{Dict}
use serverless_lmcache.Memory.Layout.{MemoryFormat, kv_2ltd, kv_t2d, kv_2td}
use serverless_lmcache.Memory.MemoryObj.{can_evict}
use serverless_lmcache.StorageBackend.Policy.{BaseCachePolicy, ObjectAllocator}
use serverless_lmcache.StorageBackend.LocalCpu.{Config, Backend, set_object, batched_remove}

unfoldable pub format_or_default : Config → Option MemoryFormat → MemoryFormat
format_or_default cfg (some fmt) = fmt
format_or_default cfg none =
    if cfg.layerwise then (if cfg.enable_blending then kv_2td else kv_t2d) else kv_2ltd

module _ {K : Type 0} (dec : Discrete K) (cfg : Config) (p : BaseCachePolicy K ℕ)
    (a : ObjectAllocator) where
  -- The allocator's `allocate`; a new object gets a new reference.
  unfoldable pub take_object :
      a.Layout → MemoryFormat → Backend dec cfg p a → Option ℕ × Backend dec cfg p a
  take_object layout fmt s = elim (a.allocate layout fmt s.memory) [
    | none ↦ (none, s)
    | some (o, memory) ↦ (
      some s.next_ref,
      record (set_object s.next_ref o s) { next_ref = s.next_ref + 1; memory = memory },
    )
  ]

  -- The keys that the policy offers, one at most.
  unfoldable pub evict_keys : Backend dec cfg p a → List K
  evict_keys s =
      if cfg.use_hot
      then p.get_evict_candidates (λ r. can_evict (s.objects r)) 1 s.cache_policy s.hot_cache
      else []

  -- What follows an attempt: its object is returned, or the rest of the code runs.
  unfoldable pub or_else :
      Option ℕ × Backend dec cfg p a
      → (Backend dec cfg p a → Option (Option ℕ × Backend dec cfg p a))
      → Option (Option ℕ × Backend dec cfg p a)
  or_else (some r, s) rest = some (some r, s)
  or_else (none, s) rest = rest s

  -- The loop of `allocate`; `wait` is what others do while it sleeps. Without a result the fuel is used up;
  -- `some (none, s)` is the return of None.
  unfoldable pub allocate_loop :
      Bool
      → (Backend dec cfg p a → Backend dec cfg p a)
      → a.Layout
      → MemoryFormat
      → ℕ
      → Backend dec cfg p a
      → Option (Option ℕ × Backend dec cfg p a)
  allocate_loop busy_loop wait layout fmt zero s = none
  allocate_loop busy_loop wait layout fmt (suc fuel) s = elim (evict_keys s) [
    | [] ↦ elim busy_loop [
      | false ↦ some (none, s)
      | true ↦
          or_else (take_object layout fmt (wait s)) (allocate_loop busy_loop wait layout fmt fuel)
    ]
    | k ∷ ks ↦
        or_else (take_object layout fmt (batched_remove dec cfg p a false (k ∷ ks) s))
          (allocate_loop busy_loop wait layout fmt fuel)
  ]

  unfoldable pub allocate :
      (Backend dec cfg p a → Backend dec cfg p a)
      → a.Layout
      → Option MemoryFormat
      → Bool
      → Bool
      → ℕ
      → Backend dec cfg p a
      → Option (Option ℕ × Backend dec cfg p a)
  allocate wait layout fmt eviction busy_loop fuel s =
      or_else (take_object layout (format_or_default cfg fmt) s) (λ s. elim eviction [
        | false ↦ some (none, s)
        | true ↦ allocate_loop busy_loop wait layout (format_or_default cfg fmt) fuel s
      ])

  -- The loop of `clear`: the keys that can be evicted and the number of their tokens; `num_tokens` is
  -- the object's `get_num_tokens`, which reads its shape.
  unfoldable pub clear_keys : (ℕ → ℕ) → Backend dec cfg p a → Dict K ℕ → List K × ℕ → List K × ℕ
  clear_keys num_tokens s [] found = found
  clear_keys num_tokens s ((key, r) ∷ d) (ks, n) = elim (can_evict (s.objects r)) [
    | false ↦ clear_keys num_tokens s d (ks, n)
    | true ↦ clear_keys num_tokens s d (ks ++ (key ∷ []), n + num_tokens r)
  ]

  unfoldable pub clear : (ℕ → ℕ) → Backend dec cfg p a → ℕ × Backend dec cfg p a
  clear num_tokens s = elim cfg.use_hot [
    | false ↦ (0, s)
    | true ↦
        let found = clear_keys num_tokens s s.hot_cache ([], 0) in
        (found.1, batched_remove dec cfg p a true found.0 s)
  ]

-- `kv_shape` of the metadata: layers, 1 or 2 for keys and values, tokens of a chunk, heads, head size.
pub record KvShape : Type 0 where
  pub num_layers : ℕ
  pub kv_size : ℕ
  pub num_heads : ℕ
  pub head_size : ℕ

pub record LmcacheMetadata : Type 0 where
  pub kv_shape : KvShape
  pub dtype_size : ℕ

-- `none` is the assertion that there are metadata.
unfoldable pub get_full_chunk_size : Config → ℕ → Option LmcacheMetadata → Option ℕ
get_full_chunk_size cfg chunk_tokens none = none
get_full_chunk_size cfg chunk_tokens (some metadata) =
    let k = metadata.kv_shape in
    let hidden_dim = k.num_heads * k.head_size in
    some (
      if cfg.layerwise
      then chunk_tokens * k.kv_size * hidden_dim * metadata.dtype_size
      else k.kv_size * k.num_layers * chunk_tokens * hidden_dim * metadata.dtype_size)

-- The float `max_local_cpu_size`, in GiB: `mantissa / 2 ^ scale`.
pub record MaxSize : Type 0 where
  pub mantissa : ℕ
  pub scale : ℕ

-- `int(max_local_cpu_size * 1024**3)`, for floats whose product is exact.
unfoldable pub total_memory : MaxSize → ℕ
total_memory size = size.mantissa * 1073741824 / 2 ^ size.scale

-- The budget for a chunk size: `none` is the assertion that the allocator has the attribute
-- `align_bytes`, or a division by zero, by an alignment of 0 or by an empty chunk.
unfoldable pub budget_of : ℕ → ℕ → Option ℕ → Option ℕ
budget_of total chunk_bytes none = none
budget_of total chunk_bytes (some zero) = none
budget_of total chunk_bytes (some (suc a)) = elim ((chunk_bytes + suc a - 1) / suc a * suc a) [
  | zero ↦ none
  | suc b ↦ some (total / suc b)
]

-- `align_bytes` is the attribute of the backend's allocator, where it has one.
unfoldable pub calculate_chunk_budget :
    Config → ℕ → Option LmcacheMetadata → MaxSize → Option ℕ → Option ℕ
calculate_chunk_budget cfg chunk_tokens metadata max_local_cpu_size align_bytes =
    elim (get_full_chunk_size cfg chunk_tokens metadata) [
      | none ↦ none
      | some chunk_bytes ↦ budget_of (total_memory max_local_cpu_size) chunk_bytes align_bytes
    ]
