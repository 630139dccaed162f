-- ===== src/Memory/PagedAllocator/Freed.antt =====
-- What frees keep, and what holders do to their objects.
use native.Mathlib.Nat.{add-mul, mul_comm}
use serverless_lmcache.Common.{
  ℕ, suc, ◌+◌, ◌*◌, ◌≡◌, refl, sym, ap, ◌∙◌, true, List, [], ◌∷◌, ◌++◌, map, length, length-append,
  length-map, All-map, count_key-append, All, All-append, All-split, All-mono, arith, ℕ_discrete,
}
use serverless_lmcache.Common.Int.{ℤ, pos, ◌-ℤ◌, pos--ℤ}
use serverless_lmcache.Memory.PagedAllocator.{
  PagedObj, PagedTensorMemoryAllocator, address_of, restore, free, batched_free,
}
use serverless_lmcache.Memory.PagedAllocator.Batches.{give_pages, IsValid}
use serverless_lmcache.Memory.PagedAllocator.Paging.{
  Paging, pages_at, Whole, Held, restore-Whole, pages_at-map, address_of-restore,
}

-- An object with other counts.
abbrev pub recounted : {D : Type 0} → PagedObj D → ℕ → ℕ → PagedObj D
recounted o ref_count pin_count = record o {
  memory = record (o.memory) { ref_count = ref_count; pin_count = pin_count };
}

module _ {D : Type 0} where
  -- The allocator after the pages of `dead` are back and counted, with `count` objects left.
  abbrev pub after_release :
      List (PagedObj D) → ℕ → PagedTensorMemoryAllocator D → PagedTensorMemoryAllocator D
  after_release dead count t = record t {
    free_blocks = t.free_blocks ++ map (restore t) dead;
    num_active_allocations = pos count;
    total_allocated_size = pos (count * t.align_bytes);
  }

  pub release-Paging :
      (n : ℕ) (t : PagedTensorMemoryAllocator D) (os dead ps : List (PagedObj D))
      → Paging n t (os ++ (dead ++ ps))
      → Paging n (after_release dead (length (os ++ ps)) t) (os ++ ps)
  release-Paging n t os dead ps p =
      let back = map (restore t) dead in
      let (held_os, held_rest) = All-split (Held t) os (dead ++ ps) p.held in
      let (held_dead, held_ps) = All-split (Held t) dead ps held_rest in
      record {
        once = λ a.
            let c = count_key-append ℕ_discrete address_of a in
            ap (λ c. c + pages_at a (os ++ ps)) (c t.free_blocks back)
            ∙ ap (λ c. pages_at a t.free_blocks + c + pages_at a (os ++ ps))
                (pages_at-map (restore t) (address_of-restore t) a dead)
            ∙ omega (arith, p.once a, c os ps, c dead ps, c os (dead ++ ps));
        number = omega (
          arith,
          p.number,
          length-append t.free_blocks back,
          length-map (restore t) dead,
          length-append os ps,
          length-append dead ps,
          length-append os (dead ++ ps),
        );
        whole =
            All-append (Whole t) t.free_blocks back p.whole
              (All-map (Held t) (Whole t) (restore t) (restore-Whole t) dead held_dead);
        held = All-append (Held t) os ps held_os held_ps;
        active = refl;
        total = refl;
        buffer = p.buffer;
      }

  -- What the counters were, by the objects that stay.
  pub counted :
      (n : ℕ) (t : PagedTensorMemoryAllocator D) (os dead ps : List (PagedObj D))
      → Paging n t (os ++ (dead ++ ps))
      → (t.num_active_allocations -ℤ pos (length dead) ≡ pos (length (os ++ ps)))
        × (t.total_allocated_size -ℤ pos (t.align_bytes * length dead)
            ≡ pos (length (os ++ ps) * t.align_bytes))
        × All IsValid dead
  counted n t os dead ps p =
      let left = length (os ++ ps) in
      let sum : length (os ++ (dead ++ ps)) ≡ left + length dead =
        omega (arith, length-append os ps, length-append dead ps, length-append os (dead ++ ps)) in
      let bytes : length (os ++ (dead ++ ps)) * t.align_bytes
          ≡ left * t.align_bytes + t.align_bytes * length dead =
        ap (λ c. c * t.align_bytes) sum
        ∙ add-mul left (length dead) t.align_bytes
        ∙ ap (λ c. left * t.align_bytes + c) (mul_comm (length dead) t.align_bytes) in
      let held_dead =
        (All-split (Held t) dead ps (All-split (Held t) os (dead ++ ps) p.held).1).0 in
      (
        ap (λ z. z -ℤ pos (length dead)) (p.active ∙ ap pos sum) ∙ pos--ℤ left (length dead),
        ap (λ z. z -ℤ pos (t.align_bytes * length dead)) (p.total ∙ ap pos bytes)
            ∙ pos--ℤ (left * t.align_bytes) (t.align_bytes * length dead),
        All-mono (Held t) IsValid (λ o h. h.0) dead held_dead,
      )

  pub freed-Paging :
      (n : ℕ) (t : PagedTensorMemoryAllocator D) (os : List (PagedObj D)) (o : PagedObj D)
      (ps : List (PagedObj D))
      → Paging n t (os ++ (o ∷ ps))
      → Paging n (free o t) (os ++ ps)
  unfolding free
  freed-Paging n t os o ps p =
      let (active, total, valid) = counted n t os (o ∷ []) ps p in
      let one : t.align_bytes ≡ t.align_bytes * 1 = omega arith in
      let same : free o t ≡ after_release (o ∷ []) (length (os ++ ps)) t =
        ground (arith, valid.0, active, sym total, ap (λ b. t.total_allocated_size -ℤ pos b) one) in
      rw same (release-Paging n t os (o ∷ []) ps p)

  pub batch_freed-Paging :
      (n : ℕ) (t : PagedTensorMemoryAllocator D) (os dead ps : List (PagedObj D))
      → Paging n t (os ++ (dead ++ ps))
      → Paging n (batched_free dead true t) (os ++ ps)
  unfolding batched_free
  batch_freed-Paging n t os dead ps p =
      let (active, total, valid) = counted n t os dead ps p in
      let state : ℤ → ℤ → PagedTensorMemoryAllocator D = λ active total. record t {
        free_blocks = t.free_blocks ++ map (restore t) dead;
        num_active_allocations = active;
        total_allocated_size = total;
      } in
      let uncount : PagedTensorMemoryAllocator D → PagedTensorMemoryAllocator D = λ t. record t {
        total_allocated_size = t.total_allocated_size -ℤ pos (t.align_bytes * length dead);
        num_active_allocations = t.num_active_allocations -ℤ pos (length dead);
      } in
      let same : batched_free dead true t ≡ after_release dead (length (os ++ ps)) t =
        ap uncount (give_pages dead t valid)
        ∙ ap (λ z. state z (t.total_allocated_size -ℤ pos (t.align_bytes * length dead))) active
        ∙ ap (state (pos (length (os ++ ps)))) total in
      rw same (release-Paging n t os dead ps p)

  -- Other objects of the same pages.
  same_pages-Paging :
      (n : ℕ) (t : PagedTensorMemoryAllocator D) (os ps : List (PagedObj D))
      → ((a : ℕ) → pages_at a os ≡ pages_at a ps)
      → length os ≡ length ps
      → (All (Held t) os → All (Held t) ps)
      → Paging n t os
      → Paging n t ps
  same_pages-Paging n t os ps same number every p = record {
    once = λ a. ap (λ c. pages_at a t.free_blocks + c) (sym (same a)) ∙ p.once a;
    number = ap (λ c. length t.free_blocks + c) (sym number) ∙ p.number;
    whole = p.whole;
    held = every p.held;
    active = p.active ∙ ap pos number;
    total = p.total ∙ ap (λ c. pos (c * t.align_bytes)) number;
    buffer = p.buffer;
  }

  pub reordered-Paging :
      (n : ℕ) (t : PagedTensorMemoryAllocator D) (os : List (PagedObj D)) (o p : PagedObj D)
      (ps : List (PagedObj D))
      → Paging n t (os ++ (o ∷ p ∷ ps))
      → Paging n t (os ++ (p ∷ o ∷ ps))
  reordered-Paging n t os o p ps =
      same_pages-Paging n t (os ++ (o ∷ p ∷ ps)) (os ++ (p ∷ o ∷ ps)) (at_page os) (number os)
        (held os)
    where
      at_page :
          (os : List (PagedObj D)) (a : ℕ)
          → pages_at a (os ++ (o ∷ p ∷ ps)) ≡ pages_at a (os ++ (p ∷ o ∷ ps))
      at_page [] a = ground arith
      at_page (q ∷ os) a = ground (arith, at_page os a)

      number : (os : List (PagedObj D)) → length (os ++ (o ∷ p ∷ ps)) ≡ length (os ++ (p ∷ o ∷ ps))
      number [] = refl
      number (q ∷ os) = ap suc (number os)

      held :
          (os : List (PagedObj D))
          → All (Held t) (os ++ (o ∷ p ∷ ps))
          → All (Held t) (os ++ (p ∷ o ∷ ps))
      held [] h = (h.1.0, (h.0, h.1.1))
      held (q ∷ os) h = (h.0, held os h.1)

  pub recounted-Paging :
      (n : ℕ) (t : PagedTensorMemoryAllocator D) (os : List (PagedObj D)) (o : PagedObj D)
      (ps : List (PagedObj D)) (ref_count pin_count : ℕ)
      → Paging n t (os ++ (o ∷ ps))
      → Paging n t (os ++ (recounted o ref_count pin_count ∷ ps))
  recounted-Paging n t os o ps r c =
      same_pages-Paging n t (os ++ (o ∷ ps)) (os ++ (recounted o r c ∷ ps)) (at_page os) (number os)
        (held os)
    where
      at_page :
          (os : List (PagedObj D)) (a : ℕ)
          → pages_at a (os ++ (o ∷ ps)) ≡ pages_at a (os ++ (recounted o r c ∷ ps))
      at_page [] a = refl
      at_page (q ∷ os) a = ground (arith, at_page os a)

      number :
          (os : List (PagedObj D)) → length (os ++ (o ∷ ps)) ≡ length (os ++ (recounted o r c ∷ ps))
      number [] = refl
      number (q ∷ os) = ap suc (number os)

      held :
          (os : List (PagedObj D))
          → All (Held t) (os ++ (o ∷ ps))
          → All (Held t) (os ++ (recounted o r c ∷ ps))
      held [] h = h
      held (q ∷ os) h = (h.0, held os h.1)
