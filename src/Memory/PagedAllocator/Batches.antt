-- ===== src/Memory/PagedAllocator/Batches.antt =====
-- Batches of pages: `batched_allocate` and `batched_free`.
use mathlib.Core.List.{append_assoc, append-nil}
use serverless_lmcache.Common.{
  ℕ, zero, suc, ◌≤◌, ◌<◌, ◌≡◌, refl, sym, ap, ◌∙◌, Bool-cases, leb, if◌then◌else◌, inl, inr, true,
  false, Option, none, some, List, [], ◌∷◌, ◌++◌, map, length, take, drop, for_each, All, arith,
}
use serverless_lmcache.Common.Int.{pos, ◌+ℤ◌, scale}
use serverless_lmcache.Memory.Layout.{MemoryFormat, Size}
use serverless_lmcache.Memory.PagedAllocator.{
  PagedObj, PagedTensorMemoryAllocator, prepare, restore, give_page, batched_free, take_pages,
  count_batch, batched_allocate,
}

module _ {D : Type 0} where
  abbrev pub with_free :
      PagedTensorMemoryAllocator D → List (PagedObj D) → PagedTensorMemoryAllocator D
  with_free t bs = record t { free_blocks = bs }

  abbrev pub IsValid : PagedObj D → Type 0
  IsValid o = o.memory.valid ≡ true

  pub give_pages :
      (os : List (PagedObj D)) (t : PagedTensorMemoryAllocator D)
      → All IsValid os
      → for_each give_page os t ≡ with_free t (t.free_blocks ++ map (restore t) os)
  unfolding give_page restore
  give_pages [] t v = ap (with_free t) (sym (append-nil t.free_blocks))
  give_pages (o ∷ os) t v =
      let bs = t.free_blocks ++ (restore t o ∷ []) in
      let step : give_page o t ≡ with_free t bs = ground (arith, v.0) in
      ap (for_each give_page os) step
      ∙ give_pages os (with_free t bs) v.1
      ∙ ap (with_free t) (append_assoc t.free_blocks (restore t o ∷ []) (map (restore t) os))

module _ {D : Type 0} (itemsize : D → ℕ) (shapes : List Size) (dtypes : List D)
    (fmt : MemoryFormat) where
  prepare-with_free :
      (t : PagedTensorMemoryAllocator D) (bs : List (PagedObj D)) (b : PagedObj D)
      → prepare itemsize (with_free t bs) shapes dtypes fmt b
        ≡ prepare itemsize t shapes dtypes fmt b
  unfolding prepare
  prepare-with_free t bs b = refl

  take_pages-take :
      (t : PagedTensorMemoryAllocator D) (n : ℕ) (acc bs : List (PagedObj D))
      → n ≤ length bs
      → take_pages itemsize shapes dtypes fmt n acc (with_free t bs) ≡ (
        some (acc ++ map (prepare itemsize t shapes dtypes fmt) (take n bs)),
        with_free t (drop n bs),
      )
  unfolding take_pages
  take_pages-take t zero acc bs enough = ap (λ os. (some os, with_free t bs)) (sym (append-nil acc))
  take_pages-take t (suc n) acc [] enough = absurd (omega arith)
  take_pages-take t (suc n) acc (b ∷ bs) enough =
      let taken = prepare itemsize t shapes dtypes fmt in
      ap (λ b. take_pages itemsize shapes dtypes fmt n (acc ++ (b ∷ [])) (with_free t bs))
        (prepare-with_free t (b ∷ bs) b)
      ∙ take_pages-take t n (acc ++ (taken b ∷ [])) bs (omega arith)
      ∙ ap (λ os. (some os, with_free t (drop n bs)))
          (append_assoc acc (taken b ∷ []) (map taken (take n bs)))

  take_pages_refused :
      (t : PagedTensorMemoryAllocator D) (n : ℕ) (acc bs : List (PagedObj D))
      → length bs < n
      → take_pages itemsize shapes dtypes fmt n acc (with_free t bs) ≡ (
        none,
        batched_free (acc ++ map (prepare itemsize t shapes dtypes fmt) bs) false (with_free t []),
      )
  unfolding take_pages
  take_pages_refused t zero acc bs few = absurd (omega arith)
  take_pages_refused t (suc n) acc [] few =
      ap (λ os. (none, batched_free os false (with_free t []))) (sym (append-nil acc))
  take_pages_refused t (suc n) acc (b ∷ bs) few =
      let taken = prepare itemsize t shapes dtypes fmt in
      ap (λ b. take_pages itemsize shapes dtypes fmt n (acc ++ (b ∷ [])) (with_free t bs))
        (prepare-with_free t (b ∷ bs) b)
      ∙ take_pages_refused t n (acc ++ (taken b ∷ [])) bs (omega arith)
      ∙ ap (λ os. (none, batched_free os false (with_free t [])))
          (append_assoc acc (taken b ∷ []) (map taken bs))

  abbrev taking : PagedTensorMemoryAllocator D → PagedObj D → PagedObj D
  taking t = prepare itemsize t shapes dtypes fmt

  -- The allocator after `n` pages are taken.
  abbrev pub after_batch : ℕ → PagedTensorMemoryAllocator D → PagedTensorMemoryAllocator D
  after_batch n t = record t {
    free_blocks = drop n t.free_blocks;
    num_active_allocations = t.num_active_allocations +ℤ pos n;
    total_allocated_size = scale (t.num_active_allocations +ℤ pos n) t.align_bytes;
  }

  taken-IsValid :
      (t : PagedTensorMemoryAllocator D) (bs : List (PagedObj D))
      → All IsValid bs
      → All IsValid (map (taking t) bs)
  unfolding prepare
  taken-IsValid t [] v = tt
  taken-IsValid t (b ∷ bs) v = (v.0, taken-IsValid t bs v.1)

  map-map :
      {A B C : Type 0} (f : B → C) (g : A → B) (xs : List A)
      → map f (map g xs) ≡ map (λ x. f (g x)) xs
  map-map f g [] = refl
  map-map f g (x ∷ xs) = ap (◌∷◌ (f (g x))) (map-map f g xs)

  batched_free-taking :
      (t : PagedTensorMemoryAllocator D) (bs : List (PagedObj D))
      → All IsValid bs
      → batched_free (map (taking t) bs) false (with_free t [])
        ≡ with_free t (map (λ b. restore t (taking t b)) bs)
  unfolding batched_free restore
  batched_free-taking t bs v =
      give_pages (map (taking t) bs) (with_free t []) (taken-IsValid t bs v)
      ∙ ap (with_free t) (map-map (restore t) (taking t) bs)

  batched_allocate-take_pages :
      (n : ℕ) (t : PagedTensorMemoryAllocator D)
      → length shapes ≡ length dtypes
      → 0 < length shapes
      → batched_allocate itemsize shapes dtypes n fmt t
        ≡ some (count_batch itemsize n (take_pages itemsize shapes dtypes fmt n [] t))
  unfolding batched_allocate
  batched_allocate-take_pages n t same some_shape = ground arith

  pub batched_allocate-some :
      (n : ℕ) (t : PagedTensorMemoryAllocator D)
      {r : Option (List (PagedObj D)) × PagedTensorMemoryAllocator D}
      → batched_allocate itemsize shapes dtypes n fmt t ≡ some r
      → count_batch itemsize n (take_pages itemsize shapes dtypes fmt n [] t) ≡ r
  unfolding batched_allocate
  batched_allocate-some n t e = ground arith

  pub count_batch-take_pages :
      (n : ℕ) (t : PagedTensorMemoryAllocator D)
      → All IsValid t.free_blocks
      → (n ≤ length t.free_blocks
          → count_batch itemsize n (take_pages itemsize shapes dtypes fmt n [] t)
            ≡ (some (map (taking t) (take n t.free_blocks)), after_batch n t))
        × (length t.free_blocks < n
            → count_batch itemsize n (take_pages itemsize shapes dtypes fmt n [] t)
              ≡ (none, with_free t (map (λ b. restore t (taking t b)) t.free_blocks)))
  unfolding count_batch
  count_batch-take_pages n t v = (
    λ enough. ap (count_batch itemsize n) (take_pages-take t n [] t.free_blocks enough),
    λ few.
        ap (count_batch itemsize n) (take_pages_refused t n [] t.free_blocks few)
        ∙ ap (λ t. (none, t)) (batched_free-taking t t.free_blocks v),
  )

  -- With shapes and dtypes of one positive number and valid free pages, a batch takes its pages
  -- from the front of the queue in order if there are enough, and counts them; otherwise it is
  -- refused, and every page is back at its place in the queue as it was prepared and restored.
  pub batched_allocate-take :
      (n : ℕ) (t : PagedTensorMemoryAllocator D)
      → length shapes ≡ length dtypes
      → 0 < length shapes
      → All IsValid t.free_blocks
      → batched_allocate itemsize shapes dtypes n fmt t
        ≡ some (
            if leb n (length t.free_blocks)
            then (
              some (map (prepare itemsize t shapes dtypes fmt) (take n t.free_blocks)),
              after_batch n t,
            )
            else (
              none,
              with_free t
                  (map (λ b. restore t (prepare itemsize t shapes dtypes fmt b)) t.free_blocks),
            ))
  batched_allocate-take n t same some_shape v =
      let ran = batched_allocate-take_pages n t same some_shape in
      let cases = count_batch-take_pages n t v in
      elim (Bool-cases (leb n (length t.free_blocks))) [
        | inl enough ↦ rw enough (ran ∙ ap some (cases.0 (ground (arith, enough))))
        | inr few ↦ rw few (ran ∙ ap some (cases.1 (ground (arith, few))))
      ]
