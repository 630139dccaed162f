-- ===== src/Distributed/L1Manager/History/WellFormed.antt =====
-- The memory that L1Manager holds through any sequence of its calls.

use serverless_lmcache.Common.{ℕ, ◌≡◌, refl, ap, some, List, [], ◌∷◌, ◌++◌, inl, inr, none, ◌⊎◌}
use serverless_lmcache.Distributed.MemoryManager.{Allocator, AllocatorLaws}
use serverless_lmcache.Distributed.L1Manager.{Listener}
use serverless_lmcache.Distributed.L1Manager.History.{
  Call, reserves_read, finishes_read, finishes_write, deletes, reserves_write, clears, Manager,
  step, run, freed_by, IsProper, AllProper,
}
use serverless_lmcache.Distributed.L1Manager.History.Account.{
  WellFormed, Step-WellFormed, reserve_read-WellFormed, finish_write-WellFormed,
  finish_read-WellFormed, delete-WellFormed, clear-WellFormed, reserve_write-WellFormed,
}

module _ {K : Type 0} (dec : Discrete K) (a : Allocator) (lis : Listener K) where
  module _ (laws : AllocatorLaws a) where
    -- A proper call from a well-formed state.
    step-WellFormed :
        (c : ℕ × Call K a.Layout) (m : Manager dec a lis)
        → IsProper dec a lis c.1
        → WellFormed dec a lis laws m
        → Step-WellFormed dec a lis laws (freed_by dec a lis c m) m (step dec a lis c m)
    unfolding step Step-WellFormed
    step-WellFormed (now, reserves_read ks) m p wf =
        inl (_, refl, reserve_read-WellFormed dec a lis laws now ks m wf)
    step-WellFormed (now, finishes_read ks) m p wf =
        finish_read-WellFormed dec a lis laws now ks m wf
    step-WellFormed (now, finishes_write ks) m p wf =
        inl (_, refl, finish_write-WellFormed dec a lis laws now ks m wf)
    step-WellFormed (now, deletes ks) m p wf = delete-WellFormed dec a lis laws now ks m wf
    step-WellFormed (now, reserves_write ks ts layout mode) m p wf =
        reserve_write-WellFormed dec a lis laws now ks ts layout mode m p wf
    step-WellFormed (now, clears) m p wf = clear-WellFormed dec a lis laws m wf

    -- A sequence of calls up to one that raises, since it asks the allocator to free no objects.
    pub record RaisesAt (cs : List (ℕ × Call K a.Layout)) (m : Manager dec a lis) : Type 1 where
      pub before : List (ℕ × Call K a.Layout)
      pub call : ℕ × Call K a.Layout
      pub behind : List (ℕ × Call K a.Layout)
      pub manager : Manager dec a lis
      pub split : cs ≡ before ++ (call ∷ behind)
      pub ran : run dec a lis before m ≡ some manager
      pub well_formed : WellFormed dec a lis laws manager
      pub stepped : step dec a lis call manager ≡ none
      pub frees : freed_by dec a lis call manager ≡ []
      pub raised : a.batched_free [] manager.heap ≡ none

    later :
        (c : ℕ × Call K a.Layout) (cs : List (ℕ × Call K a.Layout)) (m m1 : Manager dec a lis)
        → step dec a lis c m ≡ some m1
        → RaisesAt cs m1
        → RaisesAt (c ∷ cs) m
    unfolding run
    later c cs m m1 stepped at = record {
      before = c ∷ at.before;
      call = at.call;
      behind = at.behind;
      manager = at.manager;
      split = ap (λ cs. c ∷ cs) at.split;
      ran = rw (stepped, run) at.ran;
      well_formed = at.well_formed;
      stepped = at.stepped;
      frees = at.frees;
      raised = at.raised;
    }

    -- From a manager whose dictionary has each key once and whose objects are exactly the live
    -- memory, any sequence of calls of `reserve_read`, `finish_read`, `reserve_write`,
    -- `finish_write`, `delete` and `clear`, where no call reserves one key twice for writing,
    -- either runs without raising and ends in such a manager, or raises: the calls up to one of
    -- them run and end in such a manager, that one has no objects to free, and the allocator
    -- raises as it is asked to free none. The allocator has the stated laws, which ask of it to
    -- free one or more objects without raising, but not to free none.
    pub run-WellFormed :
        (cs : List (ℕ × Call K a.Layout)) (m : Manager dec a lis)
        → AllProper dec a lis cs
        → WellFormed dec a lis laws m
        → ((m' : Manager dec a lis) × (run dec a lis cs m ≡ some m') × WellFormed dec a lis laws m')
          ⊎ ((run dec a lis cs m ≡ none) × RaisesAt cs m)
    unfolding run Step-WellFormed
    run-WellFormed [] m p wf = inl (m, refl, wf)
    run-WellFormed (c ∷ cs) m p wf = elim (step-WellFormed c m p.0 wf) [
      | inl (m1, stepped, wf1) ↦ elim (run-WellFormed cs m1 p.1 wf1) [
        | inl (m', ran, wf') ↦ inl (m', rw (stepped, run) ran, wf')
        | inr (ran, at) ↦ inr (rw (stepped, run) ran, later c cs m m1 stepped at)
      ]
      | inr (stepped, frees, raised) ↦ inr (
        rw (stepped, run) refl,
        record {
          before = [];
          call = c;
          behind = cs;
          manager = m;
          split = refl;
          ran = refl;
          well_formed = wf;
          stepped = stepped;
          frees = frees;
          raised = raised;
        },
      )
    ]
