-- ===== src/Tests/Instances.antt =====
-- Concrete functions that satisfy the hypotheses on code outside the repository.

use serverless_lmcache.Common.{
  ℕ, zero, suc, ◌+◌, ◌-◌, ◌*◌, ◌/◌, ◌≤◌, ◌<◌, ◌≡◌, refl, Option, none, some, List, [], ◌∷◌, ◌++◌,
  arith, All, length, leb, ltb, ◌==◌, if◌then◌else◌, ℕ_discrete,
}
use serverless_lmcache.Memory.FreeBlock.{FreeBlock, IsAscending, SortedList, SortedListLaws}
use serverless_lmcache.Distributed.MemoryManager.{Allocator}
use serverless_lmcache.Distributed.L1Manager.{Listener}
use serverless_lmcache.Distributed.LruPolicy.{Floats, lru_listener}

-- A sorted list by insertion.
abbrev pub add : FreeBlock → List FreeBlock → List FreeBlock
add b [] = b ∷ []
add b (c ∷ l) = if leb c.start b.start then c ∷ add b l else b ∷ c ∷ l

abbrev pub remove_start : FreeBlock → List FreeBlock → List FreeBlock
remove_start b [] = []
remove_start b (c ∷ l) = if c.start == b.start then l else c ∷ remove_start b l

abbrev pub place : FreeBlock → List FreeBlock → ℕ
place b [] = 0
place b (c ∷ l) = if ltb c.start b.start then suc (place b l) else 0

abbrev pub sorted_list : SortedList
sorted_list = record { add = add; remove = remove_start; bisect_left = place }

pub add_lem :
    (b : FreeBlock) (xs ys : List FreeBlock)
    → All (λ c. c.start ≤ b.start) xs
    → All (λ c. b.start < c.start) ys
    → add b (xs ++ ys) ≡ xs ++ (b ∷ ys)
add_lem b [] [] h k = refl
add_lem b [] (y ∷ ys) h k = ground (arith, k.0)
add_lem b (x ∷ xs) ys h k = ground (arith, h.0, add_lem b xs ys h.1 k)

starts_below :
    (n : ℕ) (xs : List FreeBlock) (b : FreeBlock) (ys : List FreeBlock)
    → All (λ c. n < c.start) (xs ++ (b ∷ ys))
    → n < b.start
starts_below n [] b ys h = h.0
starts_below n (x ∷ xs) b ys h = starts_below n xs b ys h.1

pub remove_lem :
    (b : FreeBlock) (xs ys : List FreeBlock)
    → IsAscending (xs ++ (b ∷ ys))
    → remove_start b (xs ++ (b ∷ ys)) ≡ xs ++ ys
remove_lem b [] ys h = ground arith
remove_lem b (x ∷ xs) ys h =
    ground (arith, starts_below x.start xs b ys h.0, remove_lem b xs ys h.1)

pub place_lem :
    (b : FreeBlock) (xs ys : List FreeBlock)
    → All (λ c. c.start < b.start) xs
    → All (λ c. b.start ≤ c.start) ys
    → place b (xs ++ ys) ≡ length xs
place_lem b [] [] h k = refl
place_lem b [] (y ∷ ys) h k = ground (arith, k.0)
place_lem b (x ∷ xs) ys h k = ground (arith, h.0, place_lem b xs ys h.1 k)

abbrev pub sorted_list_laws : SortedListLaws sorted_list
sorted_list_laws = record {
  add_lem = add_lem;
  remove_lem = remove_lem;
  bisect_left_lem = place_lem;
}

-- An allocator of four memory objects that counts those that are handed out.
abbrev pub copies : ℕ → List ℕ
copies zero = []
copies (suc n) = n ∷ copies n

abbrev pub hand_out : ℕ → ℕ → Option (List ℕ) × ℕ
hand_out n h = if leb (h + n) 4 then (some (copies n), h + n) else (none, h)

abbrev pub four_objects : Allocator
four_objects = record {
  Heap = ℕ;
  MemoryObj = ℕ;
  Layout = Unit;
  batched_allocate = λ l n h. hand_out n h;
  batched_free = λ dead h. some (h - length dead);
  get_free_size = λ h. 4 - h;
  get_heap_size = λ h. 4;
}

abbrev pub lru : Listener ℕ
lru = lru_listener ℕ_discrete

-- Ratios in percent.
abbrev pub percents : Floats
percents = record {
  Float = ℕ;
  clamp = λ r. if ltb r 100 then r else 100;
  is_positive = λ r. ltb 0 r;
  scale = λ n r. n * r / 100;
}
