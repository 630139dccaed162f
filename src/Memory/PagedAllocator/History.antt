-- ===== src/Memory/PagedAllocator/History.antt =====
-- Every history of the allocator's calls, with the objects that the callers hold.
use native.Mathlib.Nat.{div-add-mod, zero-mul, mul_comm}
use mathlib.Core.List.{append-nil}
use serverless_lmcache.Common.{
  ℕ, zero, suc, ◌+◌, ◌≡◌, refl, sym, ap, subst, Bool-cases, Option-cases, ◌/◌, ◌%◌, inl, inr, true,
  ◌==◌, ltb, leb, if◌then◌else◌, none, some, List, [], ◌∷◌, ◌++◌, map, length, length-map, All,
  arith, range_from,
}
use serverless_lmcache.Common.Int.{pos}
use serverless_lmcache.Memory.Layout.{MemoryFormat, Size, get_size_bytes}
use serverless_lmcache.Memory.PagedAllocator.{
  PagedObj, PagedTensorMemoryAllocator, page, all_free, new, allocate, batched_allocate, free,
  batched_free, memcheck,
}
use serverless_lmcache.Memory.PagedAllocator.Paging.{Paging, memcheck-Paging, pages_at, Whole}
use serverless_lmcache.Memory.PagedAllocator.Allocated.{
  allocate-none, allocated-Paging, batch-Paging,
}
use serverless_lmcache.Memory.PagedAllocator.Freed.{
  recounted, freed-Paging, batch_freed-Paging, reordered-Paging, recounted-Paging,
}

module _ {D : Type 0} (itemsize : D → ℕ) where
  -- One call, with the objects that are handed out before and after it. Holders change the counts of
  -- an object; `batched_free` counts the objects that it is given.
  pub data Step
      : PagedTensorMemoryAllocator D × List (PagedObj D)
        → PagedTensorMemoryAllocator D × List (PagedObj D)
        → Type 0 where
    allocated :
        {t t' : PagedTensorMemoryAllocator D} {os : List (PagedObj D)} (shapes : List Size)
        (dtypes : List D) (fmt : MemoryFormat) (o : PagedObj D)
        → allocate itemsize shapes dtypes fmt t ≡ some (some o, t')
        → Step (t, os) (t', os ++ (o ∷ []))
    not_allocated :
        {t t' : PagedTensorMemoryAllocator D} {os : List (PagedObj D)} (shapes : List Size)
        (dtypes : List D) (fmt : MemoryFormat)
        → allocate itemsize shapes dtypes fmt t ≡ some (none, t')
        → Step (t, os) (t', os)
    batch_allocated :
        {t t' : PagedTensorMemoryAllocator D} {os : List (PagedObj D)} (shapes : List Size)
        (dtypes : List D) (fmt : MemoryFormat) (n : ℕ) (taken : List (PagedObj D))
        → batched_allocate itemsize shapes dtypes n fmt t ≡ some (some taken, t')
        → Step (t, os) (t', os ++ taken)
    batch_not_allocated :
        {t t' : PagedTensorMemoryAllocator D} {os : List (PagedObj D)} (shapes : List Size)
        (dtypes : List D) (fmt : MemoryFormat) (n : ℕ)
        → batched_allocate itemsize shapes dtypes n fmt t ≡ some (none, t')
        → Step (t, os) (t', os)
    freed :
        {t : PagedTensorMemoryAllocator D} (os : List (PagedObj D)) (o : PagedObj D)
        (ps : List (PagedObj D))
        → Step (t, os ++ (o ∷ ps)) (free o t, os ++ ps)
    batch_freed :
        {t : PagedTensorMemoryAllocator D} (os dead ps : List (PagedObj D))
        → Step (t, os ++ (dead ++ ps)) (batched_free dead true t, os ++ ps)
    reordered :
        {t : PagedTensorMemoryAllocator D} (os : List (PagedObj D)) (o p : PagedObj D)
        (ps : List (PagedObj D))
        → Step (t, os ++ (o ∷ p ∷ ps)) (t, os ++ (p ∷ o ∷ ps))
    held :
        {t : PagedTensorMemoryAllocator D} (os : List (PagedObj D)) (o : PagedObj D)
        (ps : List (PagedObj D)) (ref_count pin_count : ℕ)
        → Step (t, os ++ (o ∷ ps)) (t, os ++ (recounted o ref_count pin_count ∷ ps))

  pub data Reachable (start : PagedTensorMemoryAllocator D)
      : PagedTensorMemoryAllocator D × List (PagedObj D) → Type 0 where
    started : Reachable start (start, [])
    stepped :
        {s s' : PagedTensorMemoryAllocator D × List (PagedObj D)}
        → Reachable start s
        → Step s s'
        → Reachable start s'

module _ {D : Type 0} (itemsize : D → ℕ) where
  step-Paging :
      (n : ℕ) {s s' : PagedTensorMemoryAllocator D × List (PagedObj D)}
      → Step itemsize s s'
      → Paging n s.0 s.1
      → Paging n s'.0 s'.1
  step-Paging n (allocated {t} {t'} {os} shapes dtypes fmt o e) p =
      allocated-Paging itemsize n shapes dtypes fmt t os e p
  step-Paging n (not_allocated {t} {t'} {os} shapes dtypes fmt e) p =
      subst (λ t. Paging n t os) (sym (allocate-none itemsize shapes dtypes fmt t e)) p
  step-Paging n (batch_allocated {t} {t'} {os} shapes dtypes fmt m taken e) p =
      batch-Paging itemsize n m shapes dtypes fmt t os e p
  step-Paging n (batch_not_allocated {t} {t'} {os} shapes dtypes fmt m e) p =
      subst (Paging n t') (append-nil os) (batch-Paging itemsize n m shapes dtypes fmt t os e p)
  step-Paging n (freed {t} os o ps) p = freed-Paging n t os o ps p
  step-Paging n (batch_freed {t} os dead ps) p = batch_freed-Paging n t os dead ps p
  step-Paging n (reordered {t} os o q ps) p = reordered-Paging n t os o q ps p
  step-Paging n (held {t} os o ps r c) p = recounted-Paging n t os o ps r c p

  kept-Paging :
      (n : ℕ) (start : PagedTensorMemoryAllocator D)
      {s : PagedTensorMemoryAllocator D × List (PagedObj D)}
      → Paging n start []
      → Reachable itemsize start s
      → Paging n s.0 s.1
  kept-Paging n start p started = p
  kept-Paging n start p (stepped r step) = step-Paging n step (kept-Paging n start p r)

  pages_at-range :
      (shapes : List Size) (dtypes : List D) (fmt : MemoryFormat) (b a i n : ℕ)
      → pages_at a (map (page itemsize shapes dtypes fmt b) (range_from i n))
        ≡ (if leb i a then (if ltb a (i + n) then 1 else 0) else 0)
  unfolding range_from page
  pages_at-range shapes dtypes fmt b a i zero = ground arith
  pages_at-range shapes dtypes fmt b a i (suc n) =
      ground (arith, pages_at-range shapes dtypes fmt b a (suc i) n)

  length-range : (i n : ℕ) → length (range_from i n) ≡ n
  unfolding range_from
  length-range i zero = refl
  length-range i (suc n) = ap suc (length-range (suc i) n)

  new-some :
      (buffer_size : ℕ) (shapes : List Size) (dtypes : List D) (fmt : MemoryFormat)
      {t : PagedTensorMemoryAllocator D}
      → new itemsize buffer_size shapes dtypes fmt ≡ some t
      → (b : ℕ) × (buffer_size % suc b ≡ 0)
        × (all_free itemsize buffer_size (suc b) shapes dtypes fmt ≡ t)
  unfolding new
  new-some buffer_size shapes dtypes fmt e =
      elim (Option-cases (get_size_bytes itemsize shapes dtypes)) [
        | inl failed ↦ absurd (ground (arith, failed, e))
        | inr (zero, size) ↦ absurd (ground (arith, size, e))
        | inr (suc b, size) ↦ elim (Bool-cases (buffer_size % suc b == 0)) [
          | inl whole ↦ (b, ground (arith, whole), ground (arith, size, whole, e))
          | inr part ↦ absurd (ground (arith, size, part, e))
        ]
      ]

  page-Whole :
      (shapes : List Size) (dtypes : List D) (fmt : MemoryFormat) (t : PagedTensorMemoryAllocator D)
      (xs : List ℕ)
      → All (Whole t) (map (page itemsize shapes dtypes fmt t.align_bytes) xs)
  unfolding page
  page-Whole shapes dtypes fmt t [] = tt
  page-Whole shapes dtypes fmt t (x ∷ xs) = ((refl, refl, refl), page-Whole shapes dtypes fmt t xs)

  start_count :
      (a n : ℕ) {c : ℕ}
      → c ≡ (if leb 0 a then (if ltb a (0 + n) then 1 else 0) else 0)
      → c + 0 ≡ (if ltb a n then 1 else 0)
  start_count a n e = ground (arith, e)

  all_free-Paging :
      (buffer_size b : ℕ) (shapes : List Size) (dtypes : List D) (fmt : MemoryFormat)
      → buffer_size % suc b ≡ 0
      → Paging
          (buffer_size / (all_free itemsize buffer_size (suc b) shapes dtypes fmt).align_bytes)
          (all_free itemsize buffer_size (suc b) shapes dtypes fmt)
          []
  unfolding all_free
  all_free-Paging buffer_size b shapes dtypes fmt exact =
      let n = buffer_size / suc b in
      let pages = range_from 0 n in
      record {
        once = λ a. start_count a n (pages_at-range shapes dtypes fmt (suc b) a 0 n);
        number =
            omega
              (arith, length-map (page itemsize shapes dtypes fmt (suc b)) pages, length-range 0 n);
        whole =
            page-Whole shapes dtypes fmt (all_free itemsize buffer_size (suc b) shapes dtypes fmt)
              pages;
        held = tt;
        active = refl;
        total = ap pos (sym (zero-mul (suc b)));
        buffer = omega (arith, div-add-mod buffer_size (suc b), mul_comm n (suc b));
      }

  -- From a new paged allocator, after any sequence of allocations, batches, frees of objects that
  -- are handed out, and changes of the counts of such objects: each page of the buffer is free or
  -- held exactly once, every free page is whole and valid, the counters are right and `memcheck`
  -- succeeds.
  pub run-Paging :
      (buffer_size : ℕ) (shapes : List Size) (dtypes : List D) (fmt : MemoryFormat)
      {start t : PagedTensorMemoryAllocator D} {os : List (PagedObj D)}
      → new itemsize buffer_size shapes dtypes fmt ≡ some start
      → Reachable itemsize start (t, os)
      → Paging (buffer_size / start.align_bytes) t os × (memcheck t ≡ true)
  run-Paging buffer_size shapes dtypes fmt {start} {t} {os} e r =
      let (b, exact, made) = new-some buffer_size shapes dtypes fmt e in
      let p : Paging (buffer_size / start.align_bytes) start [] =
        subst (λ t. Paging (buffer_size / t.align_bytes) t []) made
          (all_free-Paging buffer_size b shapes dtypes fmt exact) in
      let q = kept-Paging (buffer_size / start.align_bytes) start p r in
      (q, memcheck-Paging (buffer_size / start.align_bytes) t os q)
