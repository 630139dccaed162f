-- ===== src/Memory/TensorAllocator/Batches.antt =====
-- Freeing a batch in coalesced blocks: nothing is lost, and a batch that was allocated goes back as
-- one block.
use native.Mathlib.Nat.{mul-suc}
use serverless_lmcache.Common.{
  ℕ, zero, suc, ◌+◌, ◌-◌, ◌*◌, ◌^◌, ◌≤◌, ◌<◌, ◌≡◌, refl, sym, ap, subst, ◌∙◌, inl, inr,
  Option-cases, some, List, [], ◌∷◌, arith, for_each,
}
use serverless_lmcache.Memory.FreeBlock.{SortedList, SortedListLaws}
use serverless_lmcache.Memory.AddressManager.{AddressManager, compute_aligned_size}
use serverless_lmcache.Memory.AddressManager
use serverless_lmcache.Memory.AddressManager.Consistent.{
  Consistent, allocate-Allocation, free-allocate,
}
use serverless_lmcache.Memory.AddressManager.Aligned.{
  compute_aligned_size_rounds_up, compute_aligned_size_again,
}
use serverless_lmcache.Memory.MemoryObj.{TensorMemoryObj}
use serverless_lmcache.Memory.TensorAllocator.{
  TensorMemoryAllocator, memory_obj, memory_objs_from, insert_by_address, sort_by_address,
  Coalescing, extend, coalesced, blocks_of, batched_allocate, free_block, batched_free,
}

sort_memory_objs_from :
    (u s n : ℕ) → sort_by_address (memory_objs_from u s n) ≡ memory_objs_from u s n
unfolding memory_objs_from memory_obj sort_by_address insert_by_address
sort_memory_objs_from u s zero = refl
sort_memory_objs_from u s (suc n) =
    ap (insert_by_address (memory_obj s u)) (sort_memory_objs_from u (s + u) n) ∙ first n
  where
    first :
        (n : ℕ)
        → insert_by_address (memory_obj s u) (memory_objs_from u (s + u) n)
          ≡ memory_obj s u ∷ memory_objs_from u (s + u) n
    first zero = refl
    first (suc n) = ground arith

abbrev extending : List (ℕ × ℕ × ℕ) → ℕ × ℕ × ℕ → Coalescing
extending bs block = record { coalesced_blocks = bs; curr = some block }

extend-extending :
    (u a start size count : ℕ) (bs : List (ℕ × ℕ × ℕ))
    → a ≡ start + size
    → extend (memory_obj a u) (extending bs (start, size, count))
      ≡ extending bs (start, size + u, count + 1)
unfolding memory_obj extend
extend-extending u a start size count bs e = ground arith

-- Objects that follow one another extend one block.
extend_run :
    (u a start size count n : ℕ) (bs : List (ℕ × ℕ × ℕ))
    → a ≡ start + size
    → for_each extend (memory_objs_from u a n) (extending bs (start, size, count))
      ≡ extending bs (start, size + u * n, count + n)
unfolding memory_objs_from
extend_run u a start size count zero bs e =
    let same_size : size ≡ size + u * 0 = omega arith in
    let same_count : count ≡ count + 0 = omega arith in
    ap (λ z. extending bs (start, z, count)) same_size
    ∙ ap (λ c. extending bs (start, size + u * 0, c)) same_count
extend_run u a start size count (suc n) bs e =
    let larger : size + u + u * n ≡ size + u * suc n = omega (arith, mul-suc u n) in
    let more : count + 1 + n ≡ count + suc n = omega arith in
    ap (for_each extend (memory_objs_from u (a + u) n)) (extend-extending u a start size count bs e)
    ∙ extend_run u (a + u) start (size + u) (count + 1) n bs (omega arith)
    ∙ ap (λ z. extending bs (start, z, count + 1 + n)) larger
    ∙ ap (λ c. extending bs (start, size + u * suc n, c)) more

blocks_of_run : (u s n : ℕ) → blocks_of (memory_objs_from u s (suc n)) ≡ (s, u * suc n, suc n) ∷ []
unfolding blocks_of coalesced memory_objs_from memory_obj extend
blocks_of_run u s n =
    let larger : u + u * n ≡ u * suc n = omega (arith, mul-suc u n) in
    let more : 1 + n ≡ suc n = omega arith in
    ap coalesced (extend_run u (s + u) s u 1 n [] refl)
    ∙ ap (λ z. (s, z, 1 + n) ∷ []) larger
    ∙ ap (λ c. (s, u * suc n, c) ∷ []) more

module _ (sl : SortedList) (laws : SortedListLaws sl) (chunks : ℕ → ℕ → ℕ) where
  -- One region for the batch, freed by its total size, goes back as it was.
  free_batch :
      (k raw n s z : ℕ) (m m' : AddressManager)
      → m.align ≡ 2 ^ k
      → Consistent m
      → 0 < raw
      → let u = compute_aligned_size m.align raw in
        AddressManager.allocate sl (u * suc n) m ≡ some ((s, z), m')
        → AddressManager.free sl s (u * suc n) m' ≡ m
  free_batch k raw n s z m m' align c pos e =
      let u = compute_aligned_size m.align raw in
      let again : compute_aligned_size m.align (u * suc n) ≡ u * suc n =
        subst
          (λ a.
            compute_aligned_size a (compute_aligned_size a raw * suc n)
            ≡ compute_aligned_size a raw * suc n)
          (sym align) (compute_aligned_size_again k raw (suc n)) in
      let same : z ≡ u * suc n =
        (allocate-Allocation sl laws (u * suc n) m m' s z c e).aligned ∙ again in
      let up : raw ≤ u =
        subst (λ a. raw ≤ compute_aligned_size a raw) (sym align)
          (compute_aligned_size_rounds_up k raw).1 in
      ap (λ z. AddressManager.free sl s z m') (sym same)
      ∙ free-allocate sl laws (u * suc n) m m' s z c (omega (arith, mul-suc u n)) e

  pub batched_allocate-some :
      (raw n : ℕ) (t t' : TensorMemoryAllocator) (os : List TensorMemoryObj)
      → batched_allocate sl chunks raw n t ≡ some (os, t')
      → let u = compute_aligned_size t.address_manager.align raw in
        (s : ℕ) × (z : ℕ) × (m : AddressManager) × (AddressManager.allocate sl
            (u * n)
            t.address_manager
          ≡ some ((s, z), m))
        × (os ≡ memory_objs_from u s (chunks (u * n) n))
        × (t'
            ≡ record { address_manager = m; num_active_allocations = t.num_active_allocations + n })
  unfolding batched_allocate
  batched_allocate-some raw n t t' os e =
      let u = compute_aligned_size t.address_manager.align raw in
      elim (Option-cases (AddressManager.allocate sl (u * n) t.address_manager)) [
        | inl refused ↦ absurd (ground (arith, refused, e))
        | inr (((s, z), m), found) ↦
            (s, z, m, found, ground (arith, found, e), ground (arith, found, e))
      ]

  -- Freeing a whole batch as it was allocated gives back the allocator as it was before: its
  -- objects go back as one block. The address manager is consistent, its alignment is a power of
  -- two, the batch and the unit are not empty, and `torch.chunk` makes as many chunks as it is
  -- asked for of a multiple of their number.
  pub batched_free-batched_allocate :
      (k raw n : ℕ) (t t' : TensorMemoryAllocator) (os : List TensorMemoryObj)
      → ((b n : ℕ) → 0 < b → 0 < n → chunks (b * n) n ≡ n)
      → t.address_manager.align ≡ 2 ^ k
      → Consistent t.address_manager
      → 0 < raw
      → 0 < n
      → batched_allocate sl chunks raw n t ≡ some (os, t')
      → (batched_free sl os t').1 ≡ t
  unfolding batched_free free_block
  batched_free-batched_allocate k raw zero t t' os law align c pos some_n e = absurd (omega arith)
  batched_free-batched_allocate k raw (suc n) t t' os law align c pos some_n e =
      let u = compute_aligned_size t.address_manager.align raw in
      let (s, z, m, found, objs, after) = batched_allocate-some raw (suc n) t t' os e in
      let up : raw ≤ u =
        subst (λ a. raw ≤ compute_aligned_size a raw) (sym align)
          (compute_aligned_size_rounds_up k raw).1 in
      let all = objs ∙ ap (memory_objs_from u s) (law u (suc n) (omega arith) some_n) in
      let blocks : blocks_of (sort_by_address os) ≡ (s, u * suc n, suc n) ∷ [] =
        ap (λ os. blocks_of (sort_by_address os)) all
        ∙ ap blocks_of (sort_memory_objs_from u s (suc n))
        ∙ blocks_of_run u s n in
      let counted : t.num_active_allocations + suc n - suc n ≡ t.num_active_allocations =
        omega arith in
      let allocator : AddressManager → ℕ → TensorMemoryAllocator =
        λ m c. record { address_manager = m; num_active_allocations = c } in
      ap (λ bs. for_each (free_block sl) bs t') blocks
      ∙ ap (free_block sl (s, u * suc n, suc n)) after
      ∙ ap (λ m. allocator m (t.num_active_allocations + suc n - suc n))
          (free_batch k raw n s z t.address_manager m align c pos found)
      ∙ ap (allocator t.address_manager) counted
