-- ===== src/Tests/Eviction.antt =====
-- A round of the eviction controller on a concrete cache.
use serverless_lmcache.Common.{
  ℕ, ◌*◌, ◌≡◌, refl, true, false, ◌||◌, ltb, some, [], ◌∷◌, remove, ℕ_discrete,
}
use serverless_lmcache.Common.Dict.{get, insert, erase}
use serverless_lmcache.Distributed.TtlLock.{TtlLock, is_locked}
use serverless_lmcache.Distributed.MemoryManager
use serverless_lmcache.Distributed.MemoryManager.{free}
use serverless_lmcache.Distributed.L1Manager.{L1ObjectState, L1Manager, notify_all}
use serverless_lmcache.Distributed.L1Manager.Remove.{delete, delete_key, get_memory_usage}
use serverless_lmcache.Distributed.LruPolicy.{
  discard, LruEvictionPolicy, target_count, collect, destination_of, get_eviction_actions,
  on_keys_removed, remove_key, react,
}
use serverless_lmcache.Distributed.EvictionController.{
  EvictionConfig, execute_eviction_action, execute_all, actions_of, eviction_round,
}
use serverless_lmcache.Distributed.EvictionController.Spares.{eviction_round-locked}
use serverless_lmcache.Tests.Instances.{four_objects, percents}

abbrev locked_until : ℕ → ℕ → TtlLock
locked_until n t = record { counter = n; expiration_ms = t; ttl_ms = 1000 }

abbrev object : ℕ → ℕ → L1ObjectState ℕ
object memory_obj readers = record {
  memory_obj = memory_obj;
  write_lock = locked_until 0 0;
  read_lock = locked_until readers 900;
  is_temporary = false;
}

-- At time 50, key 3 has a reader and key 1 has none.
abbrev full : L1Manager ℕ ℕ ℕ (LruEvictionPolicy ℕ)
full = record {
  objects = (1, object 10 0) ∷ (3, object 30 1) ∷ [];
  heap = 4;
  write_ttl_seconds = 1;
  read_ttl_seconds = 1;
  registered_listeners =
      record { order = 1 ∷ 3 ∷ []; destinations = []; default_destination = discard } ∷ [];
}

abbrev evicted : L1Manager ℕ ℕ ℕ (LruEvictionPolicy ℕ)
evicted = record full {
  objects = (3, object 30 1) ∷ [];
  heap = 3;
  registered_listeners =
      record { order = 3 ∷ []; destinations = []; default_destination = discard } ∷ [];
}

abbrev config : EvictionConfig percents
config = record {
  is_below_watermark = λ used total. ltb (used * 100) (total * 80);
  eviction_ratio = 100;
}

three_is_read : get ℕ_discrete 3 full.objects ≡ some (object 30 1)
unfolding get ℕ_discrete
three_is_read = refl

three_is_locked : (is_locked 50 (locked_until 1 900) || is_locked 50 (locked_until 0 0)) ≡ true
unfolding is_locked
three_is_locked = refl

round : eviction_round ℕ_discrete four_objects percents config 50 full ≡ some evicted
unfolding eviction_round execute_all execute_eviction_action actions_of get_memory_usage
    MemoryManager.get_memory_usage delete delete_key free notify_all get insert erase is_locked
    get_eviction_actions target_count collect destination_of react on_keys_removed remove_key remove
    ℕ_discrete
round = refl

eviction_round-locked_example : get ℕ_discrete 3 evicted.objects ≡ some (object 30 1)
eviction_round-locked_example =
    eviction_round-locked ℕ_discrete four_objects percents 50 3 (object 30 1) three_is_locked config
      full evicted three_is_read round
