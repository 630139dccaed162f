-- ===== src/Distributed/EvictionController.antt =====
-- `EvictionController` of distributed/storage_controllers/eviction_controller.py: one round of its
-- loop. The thread, its sleep and its stop flag are not modelled.
pub mod Spares
use serverless_lmcache.Common.{ℕ, Bool, if◌then◌else◌, Option, none, some, List, [], ◌∷◌}
use serverless_lmcache.Distributed.MemoryManager.{Allocator}
use serverless_lmcache.Distributed.L1Manager.{L1Manager, register_listener}
use serverless_lmcache.Distributed.L1Manager.Remove.{delete, get_memory_usage}
use serverless_lmcache.Distributed.LruPolicy
use serverless_lmcache.Distributed.LruPolicy.{
  EvictionDestination, discard, l2_cache, EvictionAction, LruEvictionPolicy, Floats,
  get_eviction_actions, lru_listener,
}

-- `EvictionConfig`, with the comparison of the usage with the watermark as a test on the used and
-- the total bytes: `(0 if total == 0 else used / total) < trigger_watermark`.
pub record EvictionConfig (fl : Floats) : Type 0 where
  pub is_below_watermark : ℕ → ℕ → Bool
  pub eviction_ratio : fl.Float

module _ {K : Type 0} (dec : Discrete K) (a : Allocator) (fl : Floats) where
  abbrev pub Manager : Type 0
  Manager = L1Manager K a.MemoryObj a.Heap (LruEvictionPolicy K)

  -- The constructor registers its policy with the manager.
  unfoldable pub attach : Manager → Manager
  attach m = register_listener (lru_listener dec) (LruPolicy.new discard) m

  -- Any destination is treated as `DISCARD`.
  unfoldable pub execute_eviction_action : ℕ → EvictionAction K → Manager → Option Manager
  execute_eviction_action now action m = elim (delete dec a (lru_listener dec) now action.keys m) [
    | none ↦ none
    | some (m', _) ↦ some m'
  ]

  unfoldable pub execute_all : ℕ → List (EvictionAction K) → Manager → Option Manager
  execute_all now [] m = some m
  execute_all now (action ∷ actions) m = elim (execute_eviction_action now action m) [
    | none ↦ none
    | some m' ↦ execute_all now actions m'
  ]

  -- The policy is the object that the manager has as its listener.
  unfoldable pub actions_of : fl.Float → List (LruEvictionPolicy K) → List (EvictionAction K)
  actions_of ratio [] = []
  actions_of ratio (p ∷ ps) = get_eviction_actions fl ratio p

  unfoldable pub eviction_round : EvictionConfig fl → ℕ → Manager → Option Manager
  eviction_round config now m =
      let (used_bytes, total_bytes) = get_memory_usage dec a (lru_listener dec) m in
      if config.is_below_watermark used_bytes total_bytes
      then some m
      else execute_all now (actions_of config.eviction_ratio m.registered_listeners) m
