-- ===== src/Tests/Objects.antt =====
-- The theorems on the L1 cache and on prefetches at a concrete cache.
use serverless_lmcache.Common.{
  ℕ, ◌+◌, ◌<◌, ◌≡◌, refl, true, false, none, some, List, [], ◌∷◌, arith, for_each, take, count,
  ℕ_discrete,
}
use serverless_lmcache.Common.Dict.{get, insert, erase}
use serverless_lmcache.Distributed.TtlLock.{TtlLock, lock, unlock, is_locked, holders}
use serverless_lmcache.Distributed.Error.{
  success, key_not_readable, key_in_wrong_state, key_is_locked,
}
use serverless_lmcache.Distributed.MemoryManager.{free}
use serverless_lmcache.Distributed.L1Manager.{
  L1ObjectState, L1Manager, start, available_for_read, notify_all,
}
use serverless_lmcache.Distributed.L1Manager.Read.{
  reserve_read, reserve_read_key, finish_read, finish_read_key, leave_key,
}
use serverless_lmcache.Distributed.L1Manager.Write.{finish_write}
use serverless_lmcache.Distributed.L1Manager.Remove.{delete, delete_key}
use serverless_lmcache.Distributed.L1Manager.Guard.{Refuses, writer_excludes, reader_excludes}
use serverless_lmcache.Distributed.L1Manager.Holders.{SameButReaders, finish_read-reserve_read}
use serverless_lmcache.Distributed.StorageManager.{
  PrefetchHandle, submit_prefetch_task, count_hits, skipped_keys, release_skipped, release,
}
use serverless_lmcache.Distributed.StorageManager.Prefetch.{
  readable_prefix, prefix_hit_chunks-submit_prefetch_task, holders-submit_prefetch_task,
}
use serverless_lmcache.Tests.Instances.{four_objects, lru}

abbrev Manager : Type 0
Manager = L1Manager ℕ ℕ ℕ lru.State

abbrev unlocked : TtlLock
unlocked = record { counter = 0; expiration_ms = 0; ttl_ms = 1000 }

abbrev locked_until : ℕ → TtlLock
locked_until t = record { counter = 1; expiration_ms = t; ttl_ms = 1000 }

-- At time 50: key 1 is unlocked, 2 is being written, 3 is being read, and 4 is temporary.
abbrev one : L1ObjectState ℕ
one = record { memory_obj = 10; write_lock = unlocked; read_lock = unlocked; is_temporary = false }

abbrev two : L1ObjectState ℕ
two = record {
  memory_obj = 20;
  write_lock = locked_until 900;
  read_lock = unlocked;
  is_temporary = false;
}

abbrev three : L1ObjectState ℕ
three = record {
  memory_obj = 30;
  write_lock = unlocked;
  read_lock = locked_until 900;
  is_temporary = false;
}

abbrev four : L1ObjectState ℕ
four = record { memory_obj = 40; write_lock = unlocked; read_lock = unlocked; is_temporary = true }

abbrev manager : Manager
manager = record {
  objects = (1, one) ∷ (2, two) ∷ (3, three) ∷ (4, four) ∷ [];
  heap = 4;
  write_ttl_seconds = 1;
  read_ttl_seconds = 1;
  registered_listeners = [];
}

at_one : get ℕ_discrete 1 manager.objects ≡ some one
unfolding get ℕ_discrete
at_one = refl

at_two : get ℕ_discrete 2 manager.objects ≡ some two
unfolding get ℕ_discrete
at_two = refl

at_three : get ℕ_discrete 3 manager.objects ≡ some three
unfolding get ℕ_discrete
at_three = refl

at_four : get ℕ_discrete 4 manager.objects ≡ some four
unfolding get ℕ_discrete
at_four = refl

two_is_locked : is_locked 50 two.write_lock ≡ true
unfolding is_locked
two_is_locked = refl

three_is_locked : is_locked 50 three.read_lock ≡ true
unfolding is_locked
three_is_locked = refl

one_is_readable : available_for_read 50 one ≡ true
unfolding available_for_read is_locked
one_is_readable = refl

four_is_readable : available_for_read 50 four ≡ true
unfolding available_for_read is_locked
four_is_readable = refl

abbrev asked : (j : ℕ) → List ℕ → ℕ
asked j ks = count ℕ_discrete j ks

once : (0 < asked 2 (2 ∷ [])) × (0 < asked 3 (3 ∷ [])) × (0 < asked 4 (4 ∷ []))
unfolding ℕ_discrete
once = (omega arith, omega arith, omega arith)

twice : 0 < asked 1 (1 ∷ 2 ∷ 1 ∷ [])
unfolding ℕ_discrete
twice = omega arith

writer_excludes_example :
    ((get ℕ_discrete 2 (reserve_read ℕ_discrete four_objects lru 50 (2 ∷ []) manager).0.objects
        ≡ some two)
      × (get ℕ_discrete 2 (reserve_read ℕ_discrete four_objects lru 50 (2 ∷ []) manager).1
          ≡ some (key_not_readable, none)))
    × Refuses ℕ_discrete four_objects lru 50
        (2 ∷ [])
        manager
        2
        two
        at_two
        once.0
        (finish_read ℕ_discrete four_objects lru 50 (2 ∷ []) manager)
        (for_each (finish_read_key ℕ_discrete 50) (2 ∷ []) (start manager.objects)).need_to_free
        key_in_wrong_state
    × Refuses ℕ_discrete four_objects lru 50
        (2 ∷ [])
        manager
        2
        two
        at_two
        once.0
        (delete ℕ_discrete four_objects lru 50 (2 ∷ []) manager)
        (for_each (delete_key ℕ_discrete 50) (2 ∷ []) (start manager.objects)).need_to_free
        key_is_locked
writer_excludes_example =
    writer_excludes ℕ_discrete four_objects lru 50 (2 ∷ []) manager 2 two at_two once.0
      two_is_locked

reader_excludes_example :
    ((get ℕ_discrete 3 (finish_write ℕ_discrete four_objects lru 50 (3 ∷ []) manager).0.objects
        ≡ some three)
      × (get ℕ_discrete 3 (finish_write ℕ_discrete four_objects lru 50 (3 ∷ []) manager).1
          ≡ some key_in_wrong_state))
    × Refuses ℕ_discrete four_objects lru 50
        (3 ∷ [])
        manager
        3
        three
        at_three
        once.1
        (delete ℕ_discrete four_objects lru 50 (3 ∷ []) manager)
        (for_each (delete_key ℕ_discrete 50) (3 ∷ []) (start manager.objects)).need_to_free
        key_is_locked
reader_excludes_example =
    reader_excludes ℕ_discrete four_objects lru 50 (3 ∷ []) manager 3 three at_three once.1
      three_is_locked

-- The keys 1, 2 and 1 again.
abbrev wanted : List ℕ
wanted = 1 ∷ 2 ∷ 1 ∷ []

abbrev read_once : ℕ → ℕ → TtlLock
read_once n t = record { counter = n; expiration_ms = t; ttl_ms = 1000 }

abbrev read_manager : Manager
read_manager = record manager {
  objects =
      (1, record one { read_lock = read_once 0 1050 }) ∷ (2, two) ∷ (3, three) ∷ (4, four) ∷ [];
}

read_wanted :
    finish_read ℕ_discrete four_objects lru 60 wanted
      (reserve_read ℕ_discrete four_objects lru 50 wanted manager).0
    ≡ some (read_manager, (1, success) ∷ (2, key_in_wrong_state) ∷ [])
unfolding finish_read finish_read_key reserve_read reserve_read_key notify_all available_for_read
    get insert is_locked lock unlock ℕ_discrete free leave_key
read_wanted = refl

finish_read-reserve_read_example :
    (e' : L1ObjectState ℕ) × (get ℕ_discrete 1 read_manager.objects ≡ some e')
    × (holders 60 e'.read_lock ≡ holders 50 one.read_lock)
    × SameButReaders one e'
    × (get ℕ_discrete 1 ((1, success) ∷ (2, key_in_wrong_state) ∷ []) ≡ some success)
finish_read-reserve_read_example =
    finish_read-reserve_read ℕ_discrete four_objects lru 50 wanted manager 1 one at_one
      one_is_readable 60 twice (omega arith) (omega arith) read_wanted refl

abbrev without_four : Manager
without_four = record manager { objects = (1, one) ∷ (2, two) ∷ (3, three) ∷ []; heap = 3 }

read_four :
    finish_read ℕ_discrete four_objects lru 60
      (4 ∷ [])
      (reserve_read ℕ_discrete four_objects lru 50 (4 ∷ []) manager).0
    ≡ some (without_four, (4, success) ∷ [])
unfolding finish_read finish_read_key reserve_read reserve_read_key notify_all available_for_read
    get insert erase is_locked lock unlock ℕ_discrete free leave_key
read_four = refl

four_is_idle : holders 50 four.read_lock ≡ 0
unfolding holders
four_is_idle = refl

-- A prefetch of the keys 1, 2 and 3 hits key 1.
abbrev prefetched : Manager
prefetched = record manager {
  objects =
      (1, record one { read_lock = read_once 1 1050 })
      ∷ (2, two)
      ∷ (3, record three { read_lock = read_once 1 1050 })
      ∷ (4, four)
      ∷ [];
}

abbrev one_hit : PrefetchHandle
one_hit = record { prefix_hit_chunks = 1 }

prefetch :
    submit_prefetch_task ℕ_discrete four_objects lru 50 (1 ∷ 2 ∷ 3 ∷ []) manager
    ≡ some (prefetched, one_hit)
unfolding submit_prefetch_task count_hits skipped_keys release_skipped release finish_read
    finish_read_key reserve_read reserve_read_key notify_all available_for_read get insert is_locked
    lock unlock ℕ_discrete free leave_key
prefetch = refl

prefix_hit_chunks-submit_prefetch_task_example :
    1 ≡ readable_prefix ℕ_discrete 50 manager.objects (1 ∷ 2 ∷ 3 ∷ [])
prefix_hit_chunks-submit_prefetch_task_example =
    prefix_hit_chunks-submit_prefetch_task ℕ_discrete four_objects lru 50 (1 ∷ 2 ∷ 3 ∷ []) manager
      prefetch

holders-submit_prefetch_task_example :
    (e' : L1ObjectState ℕ) × (get ℕ_discrete 1 prefetched.objects ≡ some e')
    × (holders 50 e'.read_lock ≡ holders 50 one.read_lock + asked 1 (take 1 (1 ∷ 2 ∷ 3 ∷ [])))
    × SameButReaders one e'
holders-submit_prefetch_task_example =
    holders-submit_prefetch_task ℕ_discrete four_objects lru 50 (1 ∷ 2 ∷ 3 ∷ []) manager prefetch 1
      one at_one one_is_readable refl (omega arith)
