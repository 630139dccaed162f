-- ===== src/Tests/Backend.antt =====
-- The local CPU backend over a memory of one slot, with FIFO eviction.
use serverless_lmcache.Common.{
  ℕ, zero, suc, ◌+◌, ◌<◌, ◌≡◌, refl, sym, ap, true, false, Option, none, some, [], ◌∷◌, length,
  arith, ℕ_discrete, ◌*◌, ◌^◌, ◌≤◌,
}
use serverless_lmcache.Common.Dict.{get, insert, IsUnique}
use serverless_lmcache.CachePolicy.{collect_evictable}
use serverless_lmcache.CachePolicy.Fifo
use serverless_lmcache.Memory.Layout.{kv_2ltd}
use serverless_lmcache.Memory.MemoryObj.{TensorMemoryObj, can_evict, is_pinned}
use serverless_lmcache.Memory.MemoryObj
use serverless_lmcache.Controller.Worker.{
  admit, WorkerNode, BatchedKvOperationMsg, has_kv, is_in_sync, handle_batched_kv_operations,
}
use serverless_lmcache.StorageBackend.Policy.{BaseCachePolicy, ObjectAllocator, ObjectAllocatorLaws}
use serverless_lmcache.StorageBackend.Policy.Laws.{fifo, fifo_laws}
use serverless_lmcache.StorageBackend.MessageSender.{BatchedMessageSender, drain_and_send, numbered}
use serverless_lmcache.StorageBackend.LocalCpu.{
  Config, LocalCpuBackend, Backend, set_object, freeing, object_up, object_down, object_pin,
  add_kv_op, put_key, submit_put_task, forget, drop_key, batched_remove,
}
use serverless_lmcache.StorageBackend.LocalCpu
use serverless_lmcache.StorageBackend.LocalCpu.Allocation.{
  take_object, evict_keys, or_else, allocate_loop, allocate, format_or_default,
  calculate_chunk_budget, LmcacheMetadata, get_full_chunk_size,
}
use serverless_lmcache.StorageBackend.LocalCpu.Counting.{Counts, cached, one_more, one_less}
use serverless_lmcache.StorageBackend.LocalCpu.History.{
  Reachable, started, stepped, allocated, put, released, run-Counts,
}
use serverless_lmcache.StorageBackend.LocalCpu.Messages.{is_cached}
use serverless_lmcache.StorageBackend.LocalCpu.Eviction.{allocate_ends}
use serverless_lmcache.StorageBackend.LocalCpu.Exhausted.{allocate-exhausted}
use serverless_lmcache.StorageBackend.LocalCpu.Spares.{allocate-spares}
use serverless_lmcache.StorageBackend.LocalCpu.Budget.{calculate_chunk_budget_lem}
use serverless_lmcache.StorageBackend.ControllerView.{hashed, has_kv-drain_and_send}

abbrev new_object : TensorMemoryObj
new_object = record { address = 0; phy_size = 4096; ref_count = 1; pin_count = 0; valid = true }

abbrev take_slot : ℕ → Option (TensorMemoryObj × ℕ)
take_slot zero = none
take_slot (suc n) = some (new_object, n)

-- The heap is the number of free slots.
abbrev slots : ObjectAllocator
slots = record {
  Heap = ℕ;
  Layout = Unit;
  allocate = λ l fmt n. take_slot n;
  free = λ o n. (MemoryObj.invalidate o, suc n);
}

take_slot-new :
    (n : ℕ) {o : TensorMemoryObj} {n' : ℕ}
    → take_slot n ≡ some (o, n')
    → (o.ref_count ≡ 1) × (o.pin_count ≡ 0) × (o.valid ≡ true)
take_slot-new zero e = absurd (ground (arith, e))
take_slot-new (suc n) e = ground (arith, e)

slots_laws : ObjectAllocatorLaws slots
unfolding MemoryObj.invalidate
slots_laws = record { allocated = λ l fmt n e. take_slot-new n e; freed = λ o n. (refl, refl) }

abbrev config : Config
config = record { use_hot = true; layerwise = false; enable_blending = false; has_sender = true }

abbrev policy_of_keys : BaseCachePolicy ℕ ℕ
policy_of_keys = fifo ℕ_discrete

abbrev State : Type 0
State = Backend ℕ_discrete config policy_of_keys slots

-- Nothing is cached and the slot is free.
abbrev idle : State
idle = record {
  hot_cache = [];
  keys_in_request = [];
  cache_policy = tt;
  objects = λ j. record { address = 0; phy_size = 0; ref_count = 0; pin_count = 0; valid = false };
  next_ref = 0;
  memory = 1;
  kv_ops = [];
}

abbrev no_holder : ℕ → ℕ
no_holder j = 0

idle-Counts : Counts ℕ_discrete no_holder idle
idle-Counts = (tt, λ r. (refl, λ h. omega arith, λ h. absurd (omega arith)))

abbrev taken : State
taken = (take_object ℕ_discrete config policy_of_keys slots tt kv_2ltd idle).1

takes :
    allocate ℕ_discrete config policy_of_keys slots (λ s. s) tt none true false 1 idle
    ≡ some (some 0, taken)
unfolding allocate or_else take_object format_or_default
takes = refl

abbrev stored : State
stored =
    object_down ℕ_discrete config policy_of_keys slots 0
      (submit_put_task ℕ_discrete config policy_of_keys slots 5 7 0 taken)

abbrev holder : ℕ → ℕ
holder = one_less 0 (one_more 0 no_holder)

stores : Reachable ℕ_discrete config policy_of_keys slots (no_holder, idle) (holder, stored)
unfolding take_object ℕ_discrete
stores =
    stepped
      (stepped (stepped started (allocated tt none true 1 (some 0) takes))
        (put 5 7 0 (omega arith)))
      (released 0 (omega arith))

stored_cache : stored.hot_cache ≡ (7, 0) ∷ []
unfolding take_object object_down freeing set_object submit_put_task put_key object_up add_kv_op get
    insert ℕ_discrete MemoryObj.ref_count_down MemoryObj.ref_count_up
stored_cache = refl

stored_ops : stored.kv_ops ≡ (admit, 7) ∷ []
unfolding take_object object_down freeing set_object submit_put_task put_key object_up add_kv_op get
    insert ℕ_discrete MemoryObj.ref_count_down MemoryObj.ref_count_up
stored_ops = refl

stored_held : 0 < holder 0 + cached 0 stored.hot_cache
unfolding take_object object_down freeing set_object submit_put_task put_key object_up add_kv_op get
    insert ℕ_discrete MemoryObj.ref_count_down MemoryObj.ref_count_up
stored_held = omega arith

run-Counts_example :
    IsUnique ℕ_discrete stored.hot_cache
    × ((stored.objects 0).ref_count ≡ holder 0 + cached 0 stored.hot_cache)
    × ((stored.objects 0).valid ≡ true)
run-Counts_example =
    run-Counts ℕ_discrete config policy_of_keys slots (fifo_laws ℕ_discrete) slots_laws 0
      idle-Counts stores stored_held

stored_once : IsUnique ℕ_discrete stored.hot_cache
unfolding take_object object_down freeing set_object submit_put_task put_key object_up add_kv_op get
    insert ℕ_discrete MemoryObj.ref_count_down MemoryObj.ref_count_up
stored_once = (refl, tt)

stored_few : length stored.hot_cache < 2
unfolding take_object object_down freeing set_object submit_put_task put_key object_up add_kv_op get
    insert ℕ_discrete MemoryObj.ref_count_down MemoryObj.ref_count_up
stored_few = omega arith

-- An allocation evicts the key, whose object nobody else has.
allocate_ends_example :
    (t : Option ℕ × State) × (allocate ℕ_discrete config policy_of_keys slots
        (λ s. s)
        tt
        none
        true
        false
        2
        stored
      ≡ some t)
allocate_ends_example =
    allocate_ends ℕ_discrete config policy_of_keys slots (fifo_laws ℕ_discrete) (λ s. s) tt none
      true 2 stored stored_once stored_few

-- The key 7, pinned.
abbrev pinned : State
pinned = (LocalCpu.pin ℕ_discrete config policy_of_keys slots 7 stored).1

pinned_refused :
    allocate ℕ_discrete config policy_of_keys slots (λ s. s) tt none true false 2 pinned
    ≡ some (none, pinned)
unfolding allocate allocate_loop evict_keys or_else format_or_default Fifo.get_evict_candidates
    collect_evictable can_evict is_pinned LocalCpu.pin object_pin MemoryObj.pin take_object
    object_down freeing set_object submit_put_task put_key object_up add_kv_op get insert ℕ_discrete
    MemoryObj.ref_count_down MemoryObj.ref_count_up
pinned_refused = refl

pinned_once : IsUnique ℕ_discrete pinned.hot_cache
unfolding LocalCpu.pin object_pin MemoryObj.pin can_evict is_pinned take_object object_down freeing
    set_object submit_put_task put_key object_up add_kv_op get insert ℕ_discrete
    MemoryObj.ref_count_down MemoryObj.ref_count_up
pinned_once = (refl, tt)

pinned_key : get ℕ_discrete 7 pinned.hot_cache ≡ some 0
unfolding LocalCpu.pin object_pin MemoryObj.pin can_evict is_pinned take_object object_down freeing
    set_object submit_put_task put_key object_up add_kv_op get insert ℕ_discrete
    MemoryObj.ref_count_down MemoryObj.ref_count_up
pinned_key = refl

pinned_given : 0 < pinned.next_ref
unfolding LocalCpu.pin object_pin MemoryObj.pin can_evict is_pinned take_object object_down freeing
    set_object submit_put_task put_key object_up add_kv_op get insert ℕ_discrete
    MemoryObj.ref_count_down MemoryObj.ref_count_up
pinned_given = omega arith

pinned_held : can_evict (pinned.objects 0) ≡ false
unfolding LocalCpu.pin object_pin MemoryObj.pin can_evict is_pinned take_object object_down freeing
    set_object submit_put_task put_key object_up add_kv_op get insert ℕ_discrete
    MemoryObj.ref_count_down MemoryObj.ref_count_up
pinned_held = refl

allocate-exhausted_example :
    (can_evict (pinned.objects 0) ≡ false)
    × (slots.allocate tt (format_or_default config none) pinned.memory ≡ none)
allocate-exhausted_example =
    allocate-exhausted ℕ_discrete config policy_of_keys slots (fifo_laws ℕ_discrete) (λ s. s) tt
      none 2 pinned pinned 7 refl pinned_refused pinned_key

allocate-spares_example :
    (get ℕ_discrete 7 pinned.hot_cache ≡ some 0) × (pinned.objects 0 ≡ pinned.objects 0)
allocate-spares_example =
    allocate-spares ℕ_discrete config policy_of_keys slots (fifo_laws ℕ_discrete) (λ s. s) tt none
      true 2 pinned 7 0 (none, pinned) pinned_once pinned_key pinned_given pinned_held
      pinned_refused

-- The worker at the controller knows nothing yet.
abbrev node : WorkerNode ℕ ℕ
node = record {
  worker_id = 1;
  ip = 0;
  port = 0;
  peer_init_url = none;
  registration_time = 0;
  last_heartbeat_time = 0;
  seq_tracker = [];
  kv_store = [];
  sync_info = none;
}

abbrev sender : BatchedMessageSender ℕ ℕ
sender = record {
  instance_id = 1;
  worker_id = 1;
  location = 2;
  message_queue = (admit, 7) ∷ [];
  sequence_number = 0;
}

abbrev message : BatchedKvOperationMsg ℕ ℕ
message = record {
  instance_id = 1;
  worker_id = 1;
  location = 2;
  operations = record { op_type = admit; key = 7; seq_num = 0 } ∷ [];
}

sends :
    drain_and_send sender
    ≡ (some message, record sender { message_queue = []; sequence_number = 1 })
unfolding drain_and_send numbered
sends = refl

nothing_known : has_kv ℕ_discrete ℕ_discrete 2 7 node ≡ false
unfolding has_kv get
nothing_known = refl

in_no_sync : is_in_sync node.sync_info ≡ false
unfolding is_in_sync
in_no_sync = refl

queued : sender.message_queue ≡ hashed ℕ_discrete ℕ_discrete (λ (k : ℕ). k) stored.kv_ops
queued = sym (ap (hashed ℕ_discrete ℕ_discrete (λ (k : ℕ). k)) stored_ops)

idle_view : has_kv ℕ_discrete ℕ_discrete 2 7 node ≡ is_cached ℕ_discrete 7 idle.hot_cache
unfolding has_kv get
idle_view = refl

has_kv-drain_and_send_example :
    has_kv ℕ_discrete ℕ_discrete 2 7
      (handle_batched_kv_operations ℕ_discrete ℕ_discrete false message node).0
    ≡ is_cached ℕ_discrete 7 stored.hot_cache
has_kv-drain_and_send_example =
    has_kv-drain_and_send ℕ_discrete ℕ_discrete ℕ_discrete (λ k. k) config policy_of_keys slots
      (fifo_laws ℕ_discrete) sender node 7 (λ x y e. e) refl refl idle_view in_no_sync stores queued
      sends

-- A quarter of a GiB for chunks of 9216 bytes, aligned to 4096.
abbrev chunk_metadata : LmcacheMetadata
chunk_metadata = record {
  kv_shape = record { num_layers = 2; kv_size = 2; num_heads = 3; head_size = 3 };
  dtype_size = 1;
}

full_chunk : get_full_chunk_size config 256 (some chunk_metadata) ≡ some 9216
unfolding get_full_chunk_size
full_chunk = refl

calculate_chunk_budget_lem_example :
    ((n : ℕ) × (q : ℕ) × (calculate_chunk_budget config 256
          (some chunk_metadata)
          (record { mantissa = 1; scale = 2 })
          (some 4096)
        ≡ some n)
      × (9216 ≤ q * 4096)
      × (q * 4096 < 9216 + 4096)
      × (n * (q * 4096) * 2 ^ 2 ≤ 1 * 1073741824)
      × (1 * 1073741824 < (n + 1) * (q * 4096) * 2 ^ 2))
    × (calculate_chunk_budget config 256
          (some chunk_metadata)
          (record { mantissa = 1; scale = 2 })
          none
        ≡ none)
calculate_chunk_budget_lem_example =
    calculate_chunk_budget_lem config 256 (some chunk_metadata) (record { mantissa = 1; scale = 2 })
      4096 9216 full_chunk (omega arith) (omega arith)
