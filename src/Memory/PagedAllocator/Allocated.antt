-- ===== src/Memory/PagedAllocator/Allocated.antt =====
-- What the allocations keep.
use native.Mathlib.Nat.{add-mul}
use mathlib.Core.List.{append-nil}
use serverless_lmcache.Common.{
  ℕ, ◌+◌, ◌*◌, ◌≡◌, sym, ap, subst, ◌∙◌, List-cases, inl, inr, Option, none, some, List, [], ◌∷◌,
  ◌++◌, map, length, take, drop, All, All-mono, dec_le, arith,
}
use serverless_lmcache.Common.Int.{ℤ, pos, ◌+ℤ◌, scale, pos-+ℤ, scale-pos}
use serverless_lmcache.Memory.Layout.{MemoryFormat, Size}
use serverless_lmcache.Memory.PagedAllocator.{
  PagedObj, PagedTensorMemoryAllocator, prepare, new, allocate, batched_allocate,
}
use serverless_lmcache.Memory.PagedAllocator.Batches.{
  batched_allocate-some, count_batch-take_pages, after_batch, IsValid,
}
use serverless_lmcache.Memory.PagedAllocator.Paging.{Paging, Whole, take-Paging, refuse-Paging}

module _ {D : Type 0} (itemsize : D → ℕ) where
  allocate-some :
      (shapes : List Size) (dtypes : List D) (fmt : MemoryFormat) (t : PagedTensorMemoryAllocator D)
      {t' : PagedTensorMemoryAllocator D} {o : PagedObj D}
      → allocate itemsize shapes dtypes fmt t ≡ some (some o, t')
      → (b : PagedObj D) × (rest : List (PagedObj D)) × (t.free_blocks ≡ b ∷ rest)
        × (o ≡ prepare itemsize t shapes dtypes fmt b)
        × (t' ≡ record t {
          free_blocks = rest;
          num_active_allocations = t.num_active_allocations +ℤ pos 1;
          total_allocated_size = t.total_allocated_size +ℤ pos (t.align_bytes);
        })
  unfolding allocate
  allocate-some shapes dtypes fmt t e = elim (List-cases t.free_blocks) [
    | inl none_left ↦ absurd (ground (arith, none_left, e))
    | inr (b, rest, found) ↦ (b, rest, found, ground (arith, found, e), ground (arith, found, e))
  ]

  pub allocate-none :
      (shapes : List Size) (dtypes : List D) (fmt : MemoryFormat) (t : PagedTensorMemoryAllocator D)
      {t' : PagedTensorMemoryAllocator D}
      → allocate itemsize shapes dtypes fmt t ≡ some (none, t')
      → t' ≡ t
  unfolding allocate
  allocate-none shapes dtypes fmt t e = elim (List-cases t.free_blocks) [
    | inl none_left ↦ ground (arith, none_left, e)
    | inr (b, rest, found) ↦ absurd (ground (arith, found, e))
  ]

  pub allocated-Paging :
      (n : ℕ) (shapes : List Size) (dtypes : List D) (fmt : MemoryFormat)
      (t : PagedTensorMemoryAllocator D) {t' : PagedTensorMemoryAllocator D} {o : PagedObj D}
      (os : List (PagedObj D))
      → allocate itemsize shapes dtypes fmt t ≡ some (some o, t')
      → Paging n t os
      → Paging n t' (os ++ (o ∷ []))
  allocated-Paging n shapes dtypes fmt t {t'} {o} os e p =
      let (b, rest, found, object, after) = allocate-some shapes dtypes fmt t e in
      let more : length os * t.align_bytes + t.align_bytes ≡ (length os + 1) * t.align_bytes =
        omega (arith, add-mul (length os) 1 t.align_bytes) in
      let total : t.total_allocated_size +ℤ pos (t.align_bytes)
          ≡ scale (t.num_active_allocations +ℤ pos 1) t.align_bytes =
        ap (λ z. z +ℤ pos (t.align_bytes)) p.total
        ∙ pos-+ℤ (length os * t.align_bytes) t.align_bytes
        ∙ ap pos more
        ∙ sym (
            ap (λ z. scale z t.align_bytes) (ap (λ z. z +ℤ pos 1) p.active ∙ pos-+ℤ (length os) 1)
            ∙ scale-pos (length os + 1) t.align_bytes) in
      let state : (bs : List (PagedObj D)) → ℤ → PagedTensorMemoryAllocator D = λ bs z. record t {
        free_blocks = bs;
        num_active_allocations = t.num_active_allocations +ℤ pos 1;
        total_allocated_size = z;
      } in
      let one : drop 1 t.free_blocks ≡ rest = ap (drop 1) found in
      let same : after_batch itemsize shapes dtypes fmt 1 t ≡ t' =
        ap (λ bs. state bs (scale (t.num_active_allocations +ℤ pos 1) t.align_bytes)) one
        ∙ ap (state rest) (sym total)
        ∙ sym after in
      let objects : os ++ map (prepare itemsize t shapes dtypes fmt) (take 1 t.free_blocks)
          ≡ os ++ (o ∷ []) =
        ap (λ bs. os ++ map (prepare itemsize t shapes dtypes fmt) (take 1 bs)) found
        ∙ ap (λ o. os ++ (o ∷ [])) (sym object) in
      subst (λ t. Paging n t (os ++ (o ∷ []))) same
        (subst (Paging n (after_batch itemsize shapes dtypes fmt 1 t)) objects
          (take-Paging itemsize n 1 t os shapes dtypes fmt p (omega (arith, ap length found))))

  free-IsValid :
      (n : ℕ) (t : PagedTensorMemoryAllocator D) (os : List (PagedObj D))
      → Paging n t os
      → All IsValid t.free_blocks
  free-IsValid n t os p = All-mono (Whole t) IsValid (λ o h. h.0) t.free_blocks p.whole

  pub batch-Paging :
      (n m : ℕ) (shapes : List Size) (dtypes : List D) (fmt : MemoryFormat)
      (t : PagedTensorMemoryAllocator D) {r : Option (List (PagedObj D))}
      {t' : PagedTensorMemoryAllocator D} (os : List (PagedObj D))
      → batched_allocate itemsize shapes dtypes m fmt t ≡ some (r, t')
      → Paging n t os
      → Paging n t' (os ++ elim r [ none ↦ [] | some new ↦ new ])
  batch-Paging n m shapes dtypes fmt t {r} {t'} os e p =
      let ran = batched_allocate-some itemsize shapes dtypes fmt m t e in
      let cases = count_batch-take_pages itemsize shapes dtypes fmt m t (free-IsValid n t os p) in
      let goal : Option (List (PagedObj D)) × PagedTensorMemoryAllocator D → Type 0 =
        λ r. Paging n r.1 (os ++ elim r.0 [ none ↦ [] | some new ↦ new ]) in
      elim (dec_le m (length t.free_blocks)) [
        | yes enough ↦
            subst goal (sym (cases.0 enough) ∙ ran)
              (take-Paging itemsize n m t os shapes dtypes fmt p enough)
        | no few ↦ subst goal (sym (cases.1 (omega arith)) ∙ ran) (
            subst (Paging n _) (sym (append-nil os))
              (refuse-Paging itemsize n t os shapes dtypes fmt p))
      ]
