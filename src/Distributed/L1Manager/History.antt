-- ===== src/Distributed/L1Manager/History.antt =====
-- Any sequence of calls of L1Manager, each at its time.
pub mod Account
pub mod WellFormed
use mathlib.Core.List.{append-nil}
use serverless_lmcache.Common.{
  ℕ, ◌≡◌, refl, subst, Bool, Option, none, some, List, [], ◌∷◌, arith, for_each, for_each_inv, zip,
  length, Option-cases, inl, inr,
}
use serverless_lmcache.Common.Dict.{Dict, IsUnique}
use serverless_lmcache.Distributed.MemoryManager.{Allocator, AllocatorLaws, allocate, free}
use serverless_lmcache.Distributed.Error.{L1Error, out_of_memory}
use serverless_lmcache.Distributed.L1Manager.{
  L1ObjectState, L1Manager, Listener, Loop, L1OperationResult, start, notify_all,
}
use serverless_lmcache.Distributed.L1Manager.Read.{
  reserve_read, reserve_read_key, finish_read, finish_read_key,
}
use serverless_lmcache.Distributed.L1Manager.Write.{
  Mode, new, update, all, reserve_write_key, refuse_all, install, free_partial, reserve_new,
  reserve_missing, reserve_write, finish_write, finish_write_key,
}
use serverless_lmcache.Distributed.L1Manager.Remove.{delete, delete_key, clear, memory_objs}
use serverless_lmcache.Distributed.L1Manager.Ownership.{
  Owned, Owned-nil, IsUnique-of_Owned, Keeps, for_each-Keeps, reserve_read_key-Keeps,
  finish_read_key-Keeps, reserve_write_key-Keeps, finish_write_key-Keeps, delete_key-Keeps,
}
use serverless_lmcache.Distributed.L1Manager.Fresh.{
  Distinct, Absent, Apart-nil, key_of, reserve_write-Absent, install-Owned, Distinct-zip,
}

pub data Call (K Layout : Type 0) : Type 0 where
  reserves_read finishes_read finishes_write deletes : List K → Call K Layout
  reserves_write : List K → List Bool → Layout → Mode → Call K Layout
  clears : Call K Layout

-- Keep the manager, drop the report.
abbrev pub state_of : {A B : Type 0} → Option (A × B) → Option A
state_of none = none
state_of (some (m, _)) = some m

module _ {K : Type 0} (dec : Discrete K) (a : Allocator) (lis : Listener K) where
  abbrev pub Manager : Type 0
  Manager = L1Manager K a.MemoryObj a.Heap lis.State

  -- One call at a time; `none` if it raises.
  unfoldable pub step : ℕ × Call K a.Layout → Manager → Option Manager
  step (now, reserves_read ks) m = some (reserve_read dec a lis now ks m).0
  step (now, finishes_read ks) m = state_of (finish_read dec a lis now ks m)
  step (now, finishes_write ks) m = some (finish_write dec a lis now ks m).0
  step (now, deletes ks) m = state_of (delete dec a lis now ks m)
  step (now, reserves_write ks ts layout mode) m =
      state_of (reserve_write dec a lis now ks ts layout mode m)
  step (now, clears) m = clear dec a lis m

  unfoldable pub run : List (ℕ × Call K a.Layout) → Manager → Option Manager
  run [] m = some m
  run (c ∷ cs) m = elim (step c m) [ none ↦ none | some m' ↦ run cs m' ]

  -- The memory that a call at a time frees.
  abbrev pub freed_by : ℕ × Call K a.Layout → Manager → List a.MemoryObj
  freed_by (now, finishes_read ks) m =
      (for_each (finish_read_key dec now) ks (start m.objects)).need_to_free
  freed_by (now, deletes ks) m = (for_each (delete_key dec now) ks (start m.objects)).need_to_free
  freed_by (now, clears) m = memory_objs m.objects
  freed_by (now, _) m = []

  -- A call that reserves for writing names each key once.
  abbrev pub IsProper : Call K a.Layout → Type 0
  IsProper (reserves_write ks ts layout mode) = Distinct dec (λ (k : K). k) ks
  IsProper _ = Unit

  abbrev pub AllProper : List (ℕ × Call K a.Layout) → Type 0
  AllProper [] = Unit
  AllProper (c ∷ cs) = IsProper c.1 × AllProper cs
