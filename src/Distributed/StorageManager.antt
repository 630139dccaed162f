-- ===== src/Distributed/StorageManager.antt =====
-- `StorageManager` of lmcache/v1/distributed/storage_manager.py over L1Manager. Its eviction
-- controller is `EvictionController`; the two meet in the manager's state.
pub mod Prefetch
use serverless_lmcache.Common.{
  ℕ, suc, Bool, false, true, not, ◌&&◌, ◌||◌, if◌then◌else◌, Option, none, some, List, [], ◌∷◌, map,
  drop, for_each,
}
use serverless_lmcache.Common.Dict.{Dict, get}
use serverless_lmcache.Distributed.Error.{L1Error, success}
use serverless_lmcache.Distributed.MemoryManager.{Allocator}
use serverless_lmcache.Distributed.L1Manager.{L1Manager, Listener, L1OperationResult}
use serverless_lmcache.Distributed.L1Manager.Read.{reserve_read, unsafe_read, finish_read}
use serverless_lmcache.Distributed.L1Manager.Write
use serverless_lmcache.Distributed.L1Manager.Write.{Mode}
use serverless_lmcache.Distributed.L1Manager.Remove

pub record PrefetchHandle : Type 0 where
  pub prefix_hit_chunks : ℕ

module _ {M : Type 0} where
  abbrev pub is_success : Option (L1OperationResult M) → Bool
  is_success none = false
  is_success (some (success, o)) = true
  is_success (some (_, o)) = false

  abbrev pub has_obj : Option (L1OperationResult M) → Bool
  has_obj none = false
  has_obj (some (e, none)) = false
  has_obj (some (e, some o)) = true

module _ {K M : Type 0} where
  -- `{k: m for k, (e, m) in reserve_result.items() if m is not None}`
  unfoldable pub reserved_objs : Dict K (L1OperationResult M) → Dict K M
  reserved_objs [] = []
  reserved_objs ((k, (e, none)) ∷ d) = reserved_objs d
  reserved_objs ((k, (e, some o)) ∷ d) = (k, o) ∷ reserved_objs d

  abbrev pub all_good : Dict K (L1OperationResult M) → Bool
  all_good [] = true
  all_good ((k, (e, none)) ∷ d) = false
  all_good ((k, (e, some o)) ∷ d) = all_good d

  module _ (dec : Discrete K) where
    -- The loop that counts the hits up to the first miss.
    unfoldable pub count_hits : Dict K (L1OperationResult M) → List K → ℕ
    count_hits ret [] = 0
    count_hits ret (key ∷ ks) =
        let rest = count_hits ret ks in if is_success (get dec key ret) then suc rest else 0

    unfoldable pub skipped_keys : Dict K (L1OperationResult M) → List K → List K
    skipped_keys ret [] = []
    skipped_keys ret (key ∷ ks) =
        if has_obj (get dec key ret) then key ∷ skipped_keys ret ks else skipped_keys ret ks

module _ {K : Type 0} (dec : Discrete K) (a : Allocator) (lis : Listener K) where
  abbrev pub Manager : Type 0
  Manager = L1Manager K a.MemoryObj a.Heap lis.State

  -- `finish_read` for its effect; `none` if it raises.
  unfoldable pub release : ℕ → List K → Manager → Option Manager
  release now ks m = elim (finish_read dec a lis now ks m) [ none ↦ none | some (m', _) ↦ some m' ]

  unfoldable pub reserve_write :
      ℕ → List K → a.Layout → Mode → Manager → Option (Manager × Dict K a.MemoryObj)
  reserve_write now ks layout_desc mode m =
      elim (Write.reserve_write dec a lis now ks (map (λ _. false) ks) layout_desc mode m) [
        | none ↦ none
        | some (m', ret) ↦ some (m', reserved_objs ret)
      ]

  unfoldable pub finish_write : ℕ → List K → Manager → Manager
  finish_write now ks m = (Write.finish_write dec a lis now ks m).0

  -- What `read_prefetched_results` yields when its context is entered.
  unfoldable pub read_enter : ℕ → List K → Manager → Option (List a.MemoryObj)
  read_enter now ks m =
      let read_results = unsafe_read dec a lis now ks m in
      if all_good read_results then some (map (λ p. p.1) (reserved_objs read_results)) else none

  -- The rest of it, when the caller leaves the context at `later`, with an exception or without:
  -- the locks of the good keys go, unless all was well.
  unfoldable pub read_exit : ℕ → ℕ → Bool → List K → Manager → Manager → Option Manager
  read_exit now later raised ks m m' =
      let read_results = unsafe_read dec a lis now ks m in
      if not (all_good read_results) || raised
      then release later (map (λ p. p.0) (reserved_objs read_results)) m'
      else some m'

  unfoldable pub finish_read_prefetched : ℕ → List K → Manager → Option Manager
  finish_read_prefetched = release

  -- `if skipped_keys: self._l1_manager.finish_read(skipped_keys)`
  unfoldable pub release_skipped : ℕ → List K → Manager → Option Manager
  release_skipped now [] m = some m
  release_skipped now (k ∷ ks) m = release now (k ∷ ks) m

  unfoldable pub submit_prefetch_task : ℕ → List K → Manager → Option (Manager × PrefetchHandle)
  submit_prefetch_task now ks m =
      let (m1, l1_read_result) = reserve_read dec a lis now ks m in
      let hit_count = count_hits dec l1_read_result ks in
      elim (release_skipped now (skipped_keys dec l1_read_result (drop hit_count ks)) m1) [
        | none ↦ none
        | some m2 ↦ some (m2, record { prefix_hit_chunks = hit_count })
      ]

  unfoldable pub query_prefetch_status : PrefetchHandle → Option ℕ
  query_prefetch_status handle = some handle.prefix_hit_chunks

  unfoldable pub clear : Manager → Option Manager
  clear m = Remove.clear dec a lis m

  -- Stopping the controller's thread is not modelled.
  unfoldable pub close : Manager → Option Manager
  close m = Remove.close dec a lis m
