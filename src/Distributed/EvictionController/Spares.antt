-- ===== src/Distributed/EvictionController/Spares.antt =====
-- An eviction round leaves the locked objects alone.
use serverless_lmcache.Common.{
  ℕ, zero, suc, ◌≡◌, refl, sym, ap, ◌∙◌, inl, inr, Bool-cases, Option-cases, true, ◌||◌, some, List,
  [], ◌∷◌, arith, count, iterate,
}
use serverless_lmcache.Common.Dict.{get}
use serverless_lmcache.Distributed.TtlLock.{is_locked}
use serverless_lmcache.Distributed.MemoryManager.{Allocator}
use serverless_lmcache.Distributed.L1Manager.{L1ObjectState, L1Manager}
use serverless_lmcache.Distributed.L1Manager.Remove.{delete, get_memory_usage}
use serverless_lmcache.Distributed.L1Manager.Loops.{objects-start}
use serverless_lmcache.Distributed.L1Manager.Object.{delete_act, delete-IsLocal}
use serverless_lmcache.Distributed.L1Manager.Guard.{delete-eq-some}
use serverless_lmcache.Distributed.LruPolicy.{
  EvictionAction, LruEvictionPolicy, Floats, lru_listener,
}
use serverless_lmcache.Distributed.EvictionController.{
  EvictionConfig, execute_eviction_action, execute_all, actions_of, eviction_round,
}

module _ {K : Type 0} (dec : Discrete K) (a : Allocator) (fl : Floats) (now : ℕ) (j : K)
    (e : L1ObjectState a.MemoryObj)
    (locked : (is_locked now e.read_lock || is_locked now e.write_lock) ≡ true) where
  iterate-delete_act : (n : ℕ) → iterate n (delete_act now) (some e) ≡ some e
  iterate-delete_act zero = refl
  iterate-delete_act (suc n) = rw locked (iterate-delete_act n)

  execute_eviction_action-locked :
      (action : EvictionAction K) (m m' : L1Manager K a.MemoryObj a.Heap (LruEvictionPolicy K))
      → get dec j m.objects ≡ some e
      → execute_eviction_action dec a fl now action m ≡ some m'
      → get dec j m'.objects ≡ some e
  unfolding execute_eviction_action
  execute_eviction_action-locked action m m' there ran =
      elim (Option-cases (delete dec a (lru_listener dec) now action.keys m)) [
        | inl raised ↦ absurd (ground (arith, raised, ran))
        | inr ((m1, ret), deleted) ↦
            let same : m1 ≡ m' = ground (arith, deleted, ran) in
            ap (λ m. get dec j m.objects) (sym same)
            ∙ ap (get dec j) (delete-eq-some dec a (lru_listener dec) now action.keys m deleted).0
            ∙ objects-start dec (λ k. k) (delete-IsLocal {M = a.MemoryObj} dec now) j action.keys
                m.objects there
            ∙ iterate-delete_act (count dec j action.keys)
      ]

  execute_all-locked :
      (actions : List (EvictionAction K))
      (m m' : L1Manager K a.MemoryObj a.Heap (LruEvictionPolicy K))
      → get dec j m.objects ≡ some e
      → execute_all dec a fl now actions m ≡ some m'
      → get dec j m'.objects ≡ some e
  unfolding execute_all
  execute_all-locked [] m m' there ran = ground (arith, there, ran)
  execute_all-locked (action ∷ actions) m m' there ran =
      elim (Option-cases (execute_eviction_action dec a fl now action m)) [
        | inl raised ↦ absurd (ground (arith, raised, ran))
        | inr (m1, first) ↦
            execute_all-locked actions m1 m'
              (execute_eviction_action-locked action m m1 there first) (ground (arith, first, ran))
      ]

  -- A round of the eviction controller that returns leaves every object that is locked at its
  -- time, for reading or for writing, in the cache as it is, whatever keys the policy proposes.
  pub eviction_round-locked :
      (config : EvictionConfig fl) (m m' : L1Manager K a.MemoryObj a.Heap (LruEvictionPolicy K))
      → get dec j m.objects ≡ some e
      → eviction_round dec a fl config now m ≡ some m'
      → get dec j m'.objects ≡ some e
  unfolding eviction_round
  eviction_round-locked config m m' there ran =
      let usage = get_memory_usage dec a (lru_listener dec) m in
      elim (Bool-cases (config.is_below_watermark usage.0 usage.1)) [
        | inl below ↦
            let same : m ≡ m' = ground (arith, below, ran) in
            ap (λ m. get dec j m.objects) (sym same) ∙ there
        | inr above ↦
            execute_all-locked (actions_of dec a fl config.eviction_ratio m.registered_listeners) m
              m' there (ground (arith, above, ran))
      ]
