-- ===== src/Memory/FreeBlock.antt =====
-- `FreeBlock`, and the third-party `SortedList` that holds the blocks of an address space.

use serverless_lmcache.Common.{ℕ, ◌+◌, ◌≤◌, ◌<◌, ◌≡◌, Bool, ◌==◌, List, [], ◌∷◌, ◌++◌, All, length}

pub record FreeBlock : Type 0 where
  pub start : ℕ
  pub size : ℕ

unfoldable pub can_be_coalesced : FreeBlock → FreeBlock → Bool
can_be_coalesced b succ = b.start + b.size == succ.start

-- Strictly ascending starts.
abbrev pub IsAscending : List FreeBlock → Type 0
IsAscending [] = Unit
IsAscending (b ∷ l) = All (λ c. b.start < c.start) l × IsAscending l

-- `SortedList(key=lambda x: x.start)`, seen as the list of its elements in order.
pub record SortedList : Type 0 where
  pub add : FreeBlock → List FreeBlock → List FreeBlock
  pub remove : FreeBlock → List FreeBlock → List FreeBlock
  pub bisect_left : FreeBlock → List FreeBlock → ℕ

-- Its documented behaviour on a list that is sorted by the key.
pub record SortedListLaws (sl : SortedList) : Type 0 where
  pub add_lem :
      (b : FreeBlock) (xs ys : List FreeBlock)
      → All (λ c. c.start ≤ b.start) xs
      → All (λ c. b.start < c.start) ys
      → sl.add b (xs ++ ys) ≡ xs ++ (b ∷ ys)
  pub remove_lem :
      (b : FreeBlock) (xs ys : List FreeBlock)
      → IsAscending (xs ++ (b ∷ ys))
      → sl.remove b (xs ++ (b ∷ ys)) ≡ xs ++ ys
  pub bisect_left_lem :
      (b : FreeBlock) (xs ys : List FreeBlock)
      → All (λ c. c.start < b.start) xs
      → All (λ c. b.start ≤ c.start) ys
      → sl.bisect_left b (xs ++ ys) ≡ length xs
