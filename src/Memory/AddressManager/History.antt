-- ===== src/Memory/AddressManager/History.antt =====
-- Any sequence of calls of an address manager by a caller that frees what it was given.
pub mod Kept
pub mod Shares
use mathlib.Core.Option.{some-injective}
use serverless_lmcache.Common.{
  ℕ, ◌+◌, ◌-◌, ◌^◌, ◌≤◌, ◌<◌, ◌≡◌, refl, sym, ap, subst, ◌∙◌, ◌⊎◌, inl, inr, Bool-cases,
  Option-cases, true, false, ◌==◌, if◌then◌else◌, Option, none, some, List, [], ◌∷◌, arith, All,
  All-mono,
}
use serverless_lmcache.Memory.FreeBlock.{FreeBlock, SortedList, SortedListLaws}
use serverless_lmcache.Memory.AddressManager.{
  AddressManager, compute_aligned_size, new, allocate, free, sbrk,
}
use serverless_lmcache.Memory.AddressManager.Reference.{take_first, give_back}
use serverless_lmcache.Memory.AddressManager.Refines.{free-give_back, sbrk-give_back}
use serverless_lmcache.Memory.AddressManager.Regions.{Apart}
use serverless_lmcache.Memory.AddressManager.Aligned.{compute_aligned_size_rounds_up}
use serverless_lmcache.Memory.AddressManager.Consistent.{
  Consistent, new-Consistent, allocate-Taken, allocate-Allocation, free-Consistent, sbrk-Consistent,
  Apart-starts, ends_below,
}
use serverless_lmcache.Memory.AddressManager.Ledger.{
  Disjoint, AllDisjoint, in_use, take_first-Apart, give_back-Apart,
}

pub data Call : Type 0 where
  allocates frees grows : ℕ → Call

-- The manager, and the regions that it has given out.
pub record Book : Type 0 where
  pub manager : AddressManager
  pub regions : List (ℕ × ℕ)

-- The region at an address, and the others.
unfoldable pub take_out : ℕ → List (ℕ × ℕ) → Option ((ℕ × ℕ) × List (ℕ × ℕ))
take_out address [] = none
take_out address (r ∷ l) = elim (r.0 == address) [
  | true ↦ some (r, l)
  | false ↦ elim (take_out address l) [ none ↦ none | some (q, rest) ↦ some (q, r ∷ rest) ]
]

-- Each region in use is not empty, inside the address space, disjoint from the others and apart
-- from the free blocks; together they are what the manager counts as allocated.
pub record Ledger (e : ℕ) (m : AddressManager) (regions : List (ℕ × ℕ)) : Type 0 where
  pub align : m.align ≡ 2 ^ e
  pub kept : Consistent m
  pub counted : m.total_allocated_size ≡ in_use regions
  pub inside : All (λ r. (0 < r.1) × (r.0 + r.1 ≤ m.size)) regions
  pub spared : All (λ r. All (Apart r.0 r.1) m.explicit_list) regions
  pub disjoint : AllDisjoint regions

module _ (sl : SortedList) where
  -- A failed `allocate` changes nothing, and a caller frees only what it was given.
  unfoldable pub step : Call → Book → Book
  step (allocates n) bk = elim (allocate sl n bk.manager) [
    | none ↦ bk
    | some (r, m) ↦ record { manager = m; regions = r ∷ bk.regions }
  ]
  step (frees address) bk = elim (take_out address bk.regions) [
    | none ↦ bk
    | some (r, rest) ↦ record { manager = free sl r.0 r.1 bk.manager; regions = rest }
  ]
  step (grows n) bk = record bk { manager = sbrk sl n bk.manager }

  unfoldable pub run : List Call → Book → Book
  run [] bk = bk
  run (c ∷ cs) bk = run cs (step c bk)

-- Nothing asks for no bytes.
abbrev pub IsProper : Call → Type 0
IsProper (allocates n) = 0 < n
IsProper (frees address) = Unit
IsProper (grows n) = 0 < n
