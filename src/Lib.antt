-- ===== src/Lib.antt =====
-- The storage core of LMCache: the L1 cache of the distributed storage manager, its locks, its
-- eviction, the memory allocation below it, the eviction policies of the storage backends; the cache
-- controller that knows which worker has which chunk; the sessions and the token database that hash
-- the chunks of a request; the event manager; and the local CPU backend, which caches chunks in
-- memory that it shares with other holders and tells the controller what it has.
--
-- The parts and where they are modelled (paths of the repository on the left):
--   csrc/storage_manager/ttl_lock.{h,cpp}                     Distributed/TtlLock
--   lmcache/v1/distributed/error.py                           Distributed/Error
--   lmcache/v1/distributed/memory_manager.py                  Distributed/MemoryManager
--   lmcache/v1/memory_management.py: MixedMemoryAllocator, lazy_memory_allocator.py: the batches
--                                                             Distributed/TensorMemory
--   lmcache/v1/distributed/l1_manager.py, internal_api.py     Distributed/L1Manager, with the
--     operations in its Read, Write and Remove
--   lmcache/v1/distributed/eviction.py, eviction_policy/lru.py  Distributed/LruPolicy
--   .../storage_controllers/eviction_controller.py            Distributed/EvictionController
--   lmcache/v1/distributed/storage_manager.py                 Distributed/StorageManager
--   lmcache/v1/distributed/api.py                             Distributed/Api
--   lmcache/v1/memory_management.py: FreeBlock, AddressManager, TensorMemoryObj,
--     TensorMemoryAllocator, PagedTensorMemoryAllocator and MemoryFormat
--                                                             Memory/FreeBlock, AddressManager,
--     MemoryObj, TensorAllocator, PagedAllocator and Layout
--   lmcache/v1/storage_backend/cache_policy/{lru,fifo,mru}.py  CachePolicy
--   lmcache/v1/storage_backend/local_cpu_backend.py           StorageBackend/LocalCpu, with its
--     allocation in its Allocation
--   lmcache/v1/storage_backend/batched_message_sender.py      StorageBackend/MessageSender
--   lmcache/v1/storage_backend/cache_policy/base_policy.py    StorageBackend/Policy
--   lmcache/v1/cache_controller/utils.py                      Controller/Worker, Instance, Registry
--   .../controllers/full_sync_tracker.py                      Controller/FullSync
--   .../controllers/kv_controller.py, message.py              Controller/KvController
--   lmcache/v1/multiprocess/token_hasher.py, session.py       Multiprocess/TokenHasher, Session
--   lmcache/v1/token_database.py: ChunkedTokenDatabase        TokenDatabase
--   lmcache/v1/event_manager.py                               EventManager
--
-- How they interact. StorageManager calls L1Manager, which keeps the dictionary of objects, locks
-- them with TTL locks, takes their memory from L1MemoryManager and tells its listeners about each
-- call. The LRU policy is such a listener; EvictionController asks it for keys and deletes them.
-- L1MemoryManager stands over an allocator, an interface with laws that MixedMemoryAllocator and
-- LazyMemoryAllocator have, both over TensorMemoryAllocator, which takes its regions from
-- AddressManager. MixedMemoryAllocator raises when it is asked to free no objects.
--
-- The cache controller is another process: KvController handles the messages of workers. It keeps the
-- registry, a tree of instances and workers with the chunks that each has, and asks the tracker of full
-- syncs, whose state is in the worker nodes of the same registry, before it applies a message.
--
-- The local CPU backend stands over a policy and an allocator, interfaces with laws that LRU, FIFO, MRU
-- and TensorMemoryAllocator have. Its memory objects are shared: the model has a store of objects by
-- reference, and a history of calls counts who holds what. What it caches and evicts goes as messages
-- through the message sender to the controller; StorageBackend/ControllerView puts the three together.
--
-- The sessions of the multiprocess server and the token database hash the same chunks; each stands alone
-- here.
--
-- How code corresponds to the model. A method is a function of the same name from the state before
-- to the state after; `none` is an exception. L1Manager, the policies, AddressManager and
-- TensorMemoryObj run each method under a lock, so a method is one step. The clock is an argument,
-- one reading for each call. A Python dict is an association list in insertion order. A loop over
-- keys is `for_each` of a function that is one round, on the loop's local variables. Numbers are
-- natural: those that the code subtracts from stop at 0, which the records say where it matters. Loops
-- run over a list or a number; two `while` loops take fuel, which theorems show to be enough: that of a
-- session, one round more than the chunks up to the end, and that of the backend's allocation, one round
-- more than the cached keys. Counters that Python lets become negative are integers (Common/Int).
--
-- Parameters, for code outside the repository: SortedList with its documented laws, the number of
-- chunks that torch.chunk makes, the float operations of the ratio, of the watermark and of the
-- completion threshold, the hash function of tokens, the item size of a dtype. The allocators that the
-- L1 manager and the local backend use, and the policy of the latter, are interfaces with laws.
--
-- Not modelled: tensors and their bytes, statistics and logging, threads and network, the
-- other formats of the mixed allocator and the growth of the lazy one, LFU, `batched_allocate`, `close`
-- and the sleeping allocation of the local backend, which its histories leave out, the other
-- backends, the cache engine, the registration, the cluster executor and the full-sync sender of the
-- cache controller, and what other threads do between the atomic steps of the TTL lock.
pub mod Common
pub mod Memory
pub mod Distributed
pub mod CachePolicy
pub mod Controller
pub mod Multiprocess
pub mod TokenDatabase
pub mod EventManager
pub mod StorageBackend
mod Tests
