-- ===== src/Memory/PagedAllocator/Paging.antt =====
-- The pages of a buffer, free and held, and the counters.
use mathlib.Core.Logic.{ite}
use native.Mathlib.Nat.{add-mul}
use serverless_lmcache.Common.{
  ℕ, zero, suc, ◌+◌, ◌*◌, ◌≤◌, ◌≡◌, refl, sym, ap, ◌∙◌, true, ltb, if◌then◌else◌, List, [], ◌∷◌,
  ◌++◌, map, length, length-append, length-map, length-take, All-map, take, drop, take-append-drop,
  count_key, count_key-append, All, All-append, arith, ℕ_discrete,
}
use serverless_lmcache.Common.Int.{pos, ◌+ℤ◌, scale, pos-+ℤ, scale-pos}
use serverless_lmcache.Memory.Layout.{MemoryFormat, Size, eq_shapes}
use serverless_lmcache.Memory.PagedAllocator.{
  PagedObj, PagedTensorMemoryAllocator, address_of, prepare, restore, memcheck, eq_ℤ,
}
use serverless_lmcache.Memory.PagedAllocator.Batches.{after_batch, with_free}

module _ {D : Type 0} where
  -- How many of the objects have a page.
  abbrev pub pages_at : ℕ → List (PagedObj D) → ℕ
  pages_at a os = count_key ℕ_discrete address_of a os

  -- A valid object with all of its own page.
  abbrev pub Whole : PagedTensorMemoryAllocator D → PagedObj D → Type 0
  Whole t o =
      (o.memory.valid ≡ true) × (o.raw_page ≡ o.memory.address) × (o.raw_size ≡ t.align_bytes)

  -- A valid object with its own page, whole where it has the allocator's shapes.
  abbrev pub Held : PagedTensorMemoryAllocator D → PagedObj D → Type 0
  Held t o =
      (o.memory.valid ≡ true)
      × (o.raw_page ≡ o.memory.address)
      × (eq_shapes o.shapes t.shapes ≡ true → o.raw_size ≡ t.align_bytes)

  -- `os` are the objects that are handed out, of `n` pages.
  pub record Paging (n : ℕ) (t : PagedTensorMemoryAllocator D) (os : List (PagedObj D))
      : Type 0 where
    pub once : (a : ℕ) → pages_at a t.free_blocks + pages_at a os ≡ (if ltb a n then 1 else 0)
    pub number : length t.free_blocks + length os ≡ n
    pub whole : All (Whole t) t.free_blocks
    pub held : All (Held t) os
    pub active : t.num_active_allocations ≡ pos (length os)
    pub total : t.total_allocated_size ≡ pos (length os * t.align_bytes)
    pub buffer : t.buffer_size ≡ n * t.align_bytes

  pub restore-Whole :
      (t : PagedTensorMemoryAllocator D) (o : PagedObj D) → Held t o → Whole t (restore t o)
  unfolding restore
  restore-Whole t o h = ground arith

  pub address_of-restore :
      (t : PagedTensorMemoryAllocator D) (o : PagedObj D) → address_of (restore t o) ≡ address_of o
  unfolding restore
  address_of-restore t o = ground arith

  pub pages_at-map :
      (f : PagedObj D → PagedObj D)
      → ((o : PagedObj D) → address_of (f o) ≡ address_of o)
      → (a : ℕ) (os : List (PagedObj D)) → pages_at a (map f os) ≡ pages_at a os
  pages_at-map f same a [] = refl
  pages_at-map f same a (o ∷ os) =
      ap (λ x. ite (ℕ_discrete x a) (suc (pages_at a (map f os))) (pages_at a (map f os))) (same o)
      ∙ ap (λ c. ite (ℕ_discrete (address_of o) a) (suc c) c) (pages_at-map f same a os)

  eq_ℤ-pos : (t : PagedTensorMemoryAllocator D) → eq_ℤ (pos t.buffer_size) t.buffer_size ≡ true
  unfolding eq_ℤ
  eq_ℤ-pos t = ground arith

  -- `memcheck` succeeds.
  pub memcheck-Paging :
      (n : ℕ) (t : PagedTensorMemoryAllocator D) (os : List (PagedObj D))
      → Paging n t os
      → memcheck t ≡ true
  unfolding memcheck
  memcheck-Paging n t os p =
      let sum : pos (length t.free_blocks * t.align_bytes) +ℤ t.total_allocated_size
          ≡ pos t.buffer_size =
        ap (λ z. pos (length t.free_blocks * t.align_bytes) +ℤ z) p.total
        ∙ pos-+ℤ (length t.free_blocks * t.align_bytes) (length os * t.align_bytes)
        ∙ ap pos (
            sym (add-mul (length t.free_blocks) (length os) t.align_bytes)
            ∙ ap (λ c. c * t.align_bytes) p.number
            ∙ sym p.buffer) in
      ap (λ z. eq_ℤ z t.buffer_size) sum ∙ eq_ℤ-pos t

pub All-take :
    {A : Type 0} (P : A → Type 0) (n : ℕ) (xs : List A)
    → All P xs
    → All P (take n xs) × All P (drop n xs)
All-take P zero xs h = (tt, h)
All-take P (suc n) [] h = (tt, tt)
All-take P (suc n) (x ∷ xs) h = ((h.0, (All-take P n xs h.1).0), (All-take P n xs h.1).1)

module _ {D : Type 0} (itemsize : D → ℕ) where
  prepare-Held :
      (t : PagedTensorMemoryAllocator D) (shapes : List Size) (dtypes : List D) (fmt : MemoryFormat)
      (b : PagedObj D)
      → Whole t b
      → Held t (prepare itemsize t shapes dtypes fmt b)
  unfolding prepare
  prepare-Held t shapes dtypes fmt b w = ground arith

  address_of-prepare :
      (t : PagedTensorMemoryAllocator D) (shapes : List Size) (dtypes : List D) (fmt : MemoryFormat)
      (b : PagedObj D)
      → address_of (prepare itemsize t shapes dtypes fmt b) ≡ address_of b
  unfolding prepare
  address_of-prepare t shapes dtypes fmt b = refl

  -- The first `m` free pages are taken.
  pub take-Paging :
      (n m : ℕ) (t : PagedTensorMemoryAllocator D) (os : List (PagedObj D)) (shapes : List Size)
      (dtypes : List D) (fmt : MemoryFormat)
      → Paging n t os
      → m ≤ length t.free_blocks
      → Paging n
          (after_batch itemsize shapes dtypes fmt m t)
          (os ++ map (prepare itemsize t shapes dtypes fmt) (take m t.free_blocks))
  take-Paging n m t os shapes dtypes fmt p enough =
      let taking = prepare itemsize t shapes dtypes fmt in
      let taken = take m t.free_blocks in
      let rest = drop m t.free_blocks in
      let whole = All-take (Whole t) m t.free_blocks p.whole in
      let parts = take-append-drop m t.free_blocks in
      let longer : length (os ++ map taking taken) ≡ length os + m = omega (
        arith,
        length-append os (map taking taken),
        length-map taking taken,
        length-take m t.free_blocks,
      ) in
      let counted : t.num_active_allocations +ℤ pos m ≡ pos (length os + m) =
        ap (λ z. z +ℤ pos m) p.active ∙ pos-+ℤ (length os) m in
      record {
        once = λ a.
            ap (λ c. pages_at a rest + c)
              (count_key-append ℕ_discrete address_of a os (map taking taken))
            ∙ ap (λ c. pages_at a rest + (pages_at a os + c))
                (pages_at-map taking (address_of-prepare t shapes dtypes fmt) a taken)
            ∙ omega (
              arith,
              p.once a,
              ap (pages_at a) parts,
              count_key-append ℕ_discrete address_of a taken rest,
            );
        number = omega (
          arith,
          p.number,
          longer,
          ap length parts,
          length-append taken rest,
          length-take m t.free_blocks,
        );
        whole = whole.1;
        held =
            All-append (Held t) os (map taking taken) p.held
              (All-map (Whole t) (Held t) taking (prepare-Held t shapes dtypes fmt) taken whole.0);
        active = counted ∙ ap pos (sym longer);
        total =
            ap (λ z. scale z t.align_bytes) counted
            ∙ scale-pos (length os + m) t.align_bytes
            ∙ ap (λ c. pos (c * t.align_bytes)) (sym longer);
        buffer = p.buffer;
      }

  -- A refused batch.
  pub refuse-Paging :
      (n : ℕ) (t : PagedTensorMemoryAllocator D) (os : List (PagedObj D)) (shapes : List Size)
      (dtypes : List D) (fmt : MemoryFormat)
      → Paging n t os
      → Paging n
          (with_free t
            (map (λ b. restore t (prepare itemsize t shapes dtypes fmt b)) t.free_blocks))
          os
  refuse-Paging n t os shapes dtypes fmt p =
      let again : PagedObj D → PagedObj D =
        λ b. restore t (prepare itemsize t shapes dtypes fmt b) in
      let same : (b : PagedObj D) → address_of (again b) ≡ address_of b = λ b.
        address_of-restore t (prepare itemsize t shapes dtypes fmt b)
        ∙ address_of-prepare t shapes dtypes fmt b in
      record {
        once =
            λ a. ap (λ c. c + pages_at a os) (pages_at-map again same a t.free_blocks) ∙ p.once a;
        number = ap (λ c. c + length os) (length-map again t.free_blocks) ∙ p.number;
        whole =
            All-map (Whole t) (Whole t) again
              (λ b w.
                restore-Whole t (prepare itemsize t shapes dtypes fmt b)
                  (prepare-Held t shapes dtypes fmt b w))
              t.free_blocks p.whole;
        held = p.held;
        active = p.active;
        total = p.total;
        buffer = p.buffer;
      }
